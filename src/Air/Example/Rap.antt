-- ===== src/Air/Example/Rap.antt =====
-- air/example/fibonacci_rap.rs: the AIR with an auxiliary column, a running product that shows that
-- the second column is a permutation of the first.
use lambdaworks_cairo_prover.Prelude.{
  ℕ, zero, suc, Option, some, none, List, [], ◌∷◌, get_elem?, and_then, ok,
}
use lambdaworks_cairo_prover.Field.{Field, ◌⊕◌, ◌⊖◌, ◌⊗◌, ◌⊘◌}
use lambdaworks_cairo_prover.Transcript.{Transcript, transcript_to_field}
use lambdaworks_cairo_prover.Air.TraceTable.{TraceTable, n_rows, cols, new_from_cols}
use lambdaworks_cairo_prover.Air.Boundary.{new_simple}
use lambdaworks_cairo_prover.Air.Context.{AirContext}
use lambdaworks_cairo_prover.Air.Interface.{Air}
use lambdaworks_cairo_prover.Air.Example.Airs.{frame_cell, fibonacci_constraint}

module _ {F : Type 0} ⦃K : Field F⦄ where
  -- The values after `z_i`, from the heads of both columns on, `n` of them.
  unfoldable pub rap_products : F → F → ℕ → List F → List F → Option (List F)
  rap_products gamma z_i zero not_perm perm = some []
  rap_products gamma z_i (suc n) (a ∷ not_perm) (b ∷ perm) =
      let next = z_i ⊗ ((a ⊕ gamma) ⊘ (b ⊕ gamma)) in
      and_then (rap_products gamma next n not_perm perm) λ rest. some (next ∷ rest)
  rap_products gamma z_i (suc n) _ _ = none

  -- The column of `trace_len` values; none for an empty trace.
  unfoldable pub rap_column : F → ℕ → List F → List F → Option (List F)
  unfolding rap_products
  rap_column gamma zero not_perm perm = some []
  rap_column gamma (suc n) not_perm perm =
      and_then (rap_products gamma K.one n not_perm perm) λ rest. some (K.one ∷ rest)

  unfoldable pub rap_auxiliary_trace : TraceTable F → F → Option (TraceTable F)
  unfolding rap_column cols
  rap_auxiliary_trace main_trace gamma = and_then (cols main_trace) λ main_segment_cols.
      and_then (get_elem? main_segment_cols 0) λ not_perm.
        and_then (get_elem? main_segment_cols 1) λ perm.
          and_then (rap_column gamma (n_rows main_trace) not_perm perm)
            λ aux_col. new_from_cols (aux_col ∷ [])

  -- `z_{i+1} * (b_i + gamma) - z_i * (a_i + gamma)`
  unfoldable pub rap_constraint : F → F → F → F → F → F
  rap_constraint gamma z_i z_i_plus_one a_i b_i = z_i_plus_one ⊗ (b_i ⊕ gamma) ⊖ z_i ⊗ (a_i ⊕ gamma)

  unfoldable pub fibonacci_rap :
      {T : Type 0} → Transcript T → AirContext → Air F (List (List F)) F Unit T
  unfolding rap_auxiliary_trace rap_constraint fibonacci_constraint frame_cell
  fibonacci_rap S context = record {
    build_main_trace = λ raw_trace public_input.
        and_then (new_from_cols raw_trace) λ table. some (public_input, ok table);
    build_auxiliary_trace = λ main_trace gamma public_input. rap_auxiliary_trace main_trace gamma;
    build_rap_challenges = transcript_to_field S;
    number_auxiliary_rap_columns = 1;
    composition_poly_degree_bound = context.trace_length;
    compute_transition = λ frame gamma. and_then (fibonacci_constraint frame 0) λ constraint.
        and_then (frame_cell frame 0 2) λ z_i. and_then (frame_cell frame 1 2) λ z_i_plus_one.
          and_then (frame_cell frame 0 0) λ a_i.
            and_then (frame_cell frame 0 1)
              λ b_i. some (constraint ∷ rap_constraint gamma z_i z_i_plus_one a_i b_i ∷ []);
    boundary_constraints = λ gamma public_input. some (record {
      constraints =
          new_simple 0 K.one
          ∷ new_simple 1 K.one
          ∷ record { col = 2; step = 0; value = K.one }
          ∷ [];
    });
    context = context;
  }
