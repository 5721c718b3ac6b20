-- ===== src/Air/Example/Airs.antt =====
-- src/air/example: the AIRs without an auxiliary trace.
use lambdaworks_cairo_prover.Prelude.{ℕ, ◌*◌, Option, some, List, [], ◌∷◌, get_elem?, and_then, ok}
use lambdaworks_cairo_prover.Field.{Field, ◌⊖◌, ◌⊗◌}
use lambdaworks_cairo_prover.Air.TraceTable.{empty, new_from_cols}
use lambdaworks_cairo_prover.Air.Frame.{Frame, frame_row}
use lambdaworks_cairo_prover.Air.Boundary.{new_simple}
use lambdaworks_cairo_prover.Air.Context.{AirContext}
use lambdaworks_cairo_prover.Air.Interface.{Air}

-- `frame.get_row(row_idx)[col_idx]`
unfoldable pub frame_cell : {F : Type 0} → Frame F → ℕ → ℕ → Option F
unfolding frame_row
frame_cell frame row_idx col_idx = and_then (frame_row frame row_idx) λ row. get_elem? row col_idx

module _ {F : Type 0} ⦃K : Field F⦄ where
  -- The third value less the second and the first, of a column.
  unfoldable pub fibonacci_constraint : Frame F → ℕ → Option F
  unfolding frame_cell
  fibonacci_constraint frame col_idx = and_then (frame_cell frame 0 col_idx) λ first.
      and_then (frame_cell frame 1 col_idx)
        λ second. and_then (frame_cell frame 2 col_idx) λ third. some (third ⊖ second ⊖ first)

  module _ {T : Type 0} (context : AirContext) where
    unfoldable pub fibonacci_air : Air F (List (List F)) Unit Unit T
    unfolding fibonacci_constraint
    fibonacci_air = record {
      build_main_trace = λ raw_trace public_input.
          and_then (new_from_cols raw_trace) λ table. some (public_input, ok table);
      build_auxiliary_trace = λ main_trace rap_challenges public_input. some empty;
      build_rap_challenges = λ transcript. (_, transcript);
      number_auxiliary_rap_columns = 0;
      composition_poly_degree_bound = context.trace_length;
      compute_transition = λ frame rap_challenges.
          and_then (fibonacci_constraint frame 0) λ constraint. some (constraint ∷ []);
      boundary_constraints = λ rap_challenges public_input.
          some (record { constraints = new_simple 0 K.one ∷ new_simple 1 K.one ∷ [] });
      context = context;
    }

    -- The same with a public result, the value of step 3.
    unfoldable pub fibonacci_17_air : Air F (List (List F)) Unit Unit T
    unfolding fibonacci_air
    fibonacci_17_air = record fibonacci_air {
      boundary_constraints = λ rap_challenges public_input. some (record {
        constraints = new_simple 0 K.one ∷ new_simple 1 K.one ∷ new_simple 3 (K.from 3) ∷ [];
      });
    }

    unfoldable pub fibonacci_2_cols_air : Air F (List (List F)) Unit Unit T
    unfolding frame_cell
    fibonacci_2_cols_air = record {
      build_main_trace = λ raw_trace public_input.
          and_then (new_from_cols raw_trace) λ table. some (public_input, ok table);
      build_auxiliary_trace = λ main_trace rap_challenges public_input. some empty;
      build_rap_challenges = λ transcript. (_, transcript);
      number_auxiliary_rap_columns = 0;
      composition_poly_degree_bound = context.trace_length;
      compute_transition = λ frame rap_challenges. and_then (frame_cell frame 0 0) λ first_0.
          and_then (frame_cell frame 0 1) λ first_1. and_then (frame_cell frame 1 0) λ second_0.
            and_then (frame_cell frame 1 1) λ second_1.
              some ((second_0 ⊖ first_0 ⊖ first_1) ∷ (second_1 ⊖ first_1 ⊖ second_0) ∷ []);
      boundary_constraints = λ rap_challenges public_input. some (record {
        constraints =
            record { col = 0; step = 0; value = K.one }
            ∷ record { col = 1; step = 0; value = K.one }
            ∷ [];
      });
      context = context;
    }

    -- Its raw trace is one column.
    unfoldable pub quadratic_air : Air F (List F) Unit Unit T
    unfolding frame_cell
    quadratic_air = record {
      build_main_trace = λ raw_trace public_input.
          some (public_input, ok (record { table = raw_trace; n_cols = 1 }));
      build_auxiliary_trace = λ main_trace rap_challenges public_input. some empty;
      build_rap_challenges = λ transcript. (_, transcript);
      number_auxiliary_rap_columns = 0;
      composition_poly_degree_bound = 2 * context.trace_length;
      compute_transition = λ frame rap_challenges.
          and_then (frame_cell frame 0 0)
            λ first. and_then (frame_cell frame 1 0) λ second. some ((second ⊖ first ⊗ first) ∷ []);
      boundary_constraints = λ rap_challenges public_input.
          some (record { constraints = new_simple 0 (K.from 3) ∷ [] });
      context = context;
    }

    unfoldable pub dummy_air : Air F (List (List F)) Unit Unit T
    unfolding frame_cell fibonacci_constraint
    dummy_air = record {
      build_main_trace = λ raw_trace public_input.
          and_then (new_from_cols raw_trace) λ table. some (public_input, ok table);
      build_auxiliary_trace = λ main_trace rap_challenges public_input. some empty;
      build_rap_challenges = λ transcript. (_, transcript);
      number_auxiliary_rap_columns = 0;
      composition_poly_degree_bound = context.trace_length;
      compute_transition = λ frame rap_challenges. and_then (frame_cell frame 0 0) λ first.
          and_then (fibonacci_constraint frame 1)
            λ fib_constraint. some ((first ⊗ (first ⊖ K.one)) ∷ fib_constraint ∷ []);
      boundary_constraints = λ rap_challenges public_input. some (record {
        constraints =
            record { col = 1; step = 0; value = K.one }
            ∷ record { col = 1; step = 1; value = K.one }
            ∷ [];
      });
      context = context;
    }
