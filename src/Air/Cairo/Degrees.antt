-- ===== src/Air/Cairo/Degrees.antt =====
-- The transition degrees of the Cairo AIR, and which constraints the composition takes.
use lambdaworks_cairo_prover.Prelude.{
  ℕ, zero, suc, ◌*◌, ◌≤◌, ◌≡◌, refl, arith, List, [], ◌∷◌, length, set,
}
use lambdaworks_cairo_prover.Field.{Field}
use lambdaworks_cairo_prover.Air.Context.{ProofOptions}
use lambdaworks_cairo_prover.Air.Evaluator.{
  sum_loop, compute_constraint_composition_poly_evaluations_sum, degree_adjustments,
}
use lambdaworks_cairo_prover.Air.Cairo.Columns.{range_check_0}
use lambdaworks_cairo_prover.Air.Cairo.PublicInputs.{CairoAir, new_cairo_air}

-- `composition_poly_degree_bound`
abbrev pub composition_poly_degree_bound : CairoAir → ℕ
composition_poly_degree_bound air = 2 * air.context.trace_length

module _ {F : Type 0} ⦃K : Field F⦄ where
  -- What lies past the end of the adjustments does not count.
  sum_loop-set :
      (k : ℕ) (es is ds : List F) (cs : List (F × F)) (ret x : F)
      → length ds ≤ k
      → sum_loop ret (set es k x) is ds cs ≡ sum_loop ret es is ds cs
  unfolding sum_loop
  sum_loop-set k [] is ds cs ret x h = refl
  sum_loop-set zero (e ∷ es) [] ds cs ret x h = refl
  sum_loop-set zero (e ∷ es) (i ∷ is) [] cs ret x h = refl
  sum_loop-set zero (e ∷ es) (i ∷ is) (d ∷ ds) cs ret x h = absurd (omega arith)
  sum_loop-set (suc k) (e ∷ es) [] ds cs ret x h = refl
  sum_loop-set (suc k) (e ∷ es) (i ∷ is) [] cs ret x h = refl
  sum_loop-set (suc k) (e ∷ es) (i ∷ is) (d ∷ ds) [] ret x h = refl
  sum_loop-set (suc k) (e ∷ es) (i ∷ is) (d ∷ ds) ((alpha, beta) ∷ cs) ret x h =
      sum_loop-set k es is ds cs _ x (omega arith)

  -- The Cairo AIR has 46 transition degrees for its 49 constraints, so that its last three
  -- constraints, from `range_check_0` on, do not count: whatever the evaluation of such a
  -- constraint is replaced by, the combination at every point is the same.
  pub compute_constraint_composition_poly_evaluations_sum-set :
      (options : ProofOptions) (full_trace_length number_steps : ℕ) (d x : F) (k : ℕ)
      (evaluations inverse_denominators : List F) (constraint_coeffs : List (F × F))
      → range_check_0 ≤ k
      → (let air = new_cairo_air options full_trace_length number_steps in
          let adjustments = degree_adjustments air.context (composition_poly_degree_bound air) d in
          compute_constraint_composition_poly_evaluations_sum
            (set evaluations k x)
            inverse_denominators
            adjustments
            constraint_coeffs
          ≡ compute_constraint_composition_poly_evaluations_sum evaluations inverse_denominators
              adjustments constraint_coeffs)
  unfolding new_cairo_air degree_adjustments compute_constraint_composition_poly_evaluations_sum
  compute_constraint_composition_poly_evaluations_sum-set options full_trace_length number_steps d x
        k evaluations inverse_denominators constraint_coeffs h =
      sum_loop-set k evaluations inverse_denominators _ constraint_coeffs K.zero x h
