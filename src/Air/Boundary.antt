-- ===== src/Air/Boundary.antt =====
-- air/constraints/boundary.rs: the cells of the trace whose values the public inputs fix.
pub mod Zerofier
use lambdaworks_cairo_prover.Prelude.{ℕ, List, [], ◌∷◌, map, range, ◌==◌, if◌then◌else◌}
use lambdaworks_cairo_prover.Field.{Field, ◌⊗◌, ◌⊖◌}

pub record BoundaryConstraint (F : Type 0) : Type 0 where
  pub col : ℕ
  pub step : ℕ
  pub value : F

abbrev pub new_simple : {F : Type 0} → ℕ → F → BoundaryConstraint F
new_simple step value = record { col = 0; step = step; value = value }

pub record BoundaryConstraints (F : Type 0) : Type 0 where
  pub constraints : List (BoundaryConstraint F)

module _ {F : Type 0} where
  -- The constraints on a column, in their order: `filter(|v| v.col == col)`.
  unfoldable pub on_column : List (BoundaryConstraint F) → ℕ → List (BoundaryConstraint F)
  on_column [] col = []
  on_column (c ∷ cs) col = if c.col == col then c ∷ on_column cs col else on_column cs col

  unfoldable pub steps : BoundaryConstraints F → ℕ → List ℕ
  unfolding on_column
  steps bs col = map (λ (c : BoundaryConstraint F). c.step) (on_column bs.constraints col)

  unfoldable pub values : BoundaryConstraints F → ℕ → List (List F)
  unfolding on_column
  values bs n_trace_columns =
      map (λ i. map (λ (c : BoundaryConstraint F). c.value) (on_column bs.constraints i))
        (range n_trace_columns)

module _ {F : Type 0} ⦃K : Field F⦄ where
  unfoldable pub generate_roots_of_unity : BoundaryConstraints F → F → ℕ → List (List F)
  unfolding steps
  generate_roots_of_unity bs primitive_root count_cols_trace =
      map (λ i. map (λ s. K.pow primitive_root s) (steps bs i)) (range count_cols_trace)

  -- The zerofier of a column, as the function that its polynomial evaluates to: the product of
  -- `x - primitive_root ^ step` over the steps of the column, in their order.
  unfoldable pub zerofier_at : F → F → List ℕ → F → F
  zerofier_at primitive_root x [] acc = acc
  zerofier_at primitive_root x (s ∷ ss) acc =
      zerofier_at primitive_root x ss (acc ⊗ (x ⊖ K.pow primitive_root s))

  unfoldable pub compute_zerofier : BoundaryConstraints F → F → ℕ → F → F
  unfolding steps zerofier_at
  compute_zerofier bs primitive_root col x = zerofier_at primitive_root x (steps bs col) K.one
