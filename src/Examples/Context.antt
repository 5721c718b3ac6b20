-- ===== src/Examples/Context.antt =====
-- The Fibonacci AIR over the field of 17 elements, for four rows.
use lambdaworks_cairo_prover.Prelude.{ℕ, List, [], ◌∷◌}
use lambdaworks_cairo_prover.Field.Zmod.{F17, f17}
use lambdaworks_cairo_prover.Air.Context.{AirContext}
use lambdaworks_cairo_prover.Air.Interface.{Air}
use lambdaworks_cairo_prover.Air.Example.Airs.{fibonacci_air}

abbrev pub context : AirContext
context = record {
  options = record { blowup_factor = 2; fri_number_of_queries = 1; coset_offset = 3 };
  trace_length = 4;
  trace_columns = 1;
  transition_degrees = 1 ∷ [];
  transition_offsets = 0 ∷ 1 ∷ 2 ∷ [];
  transition_exemptions = 2 ∷ [];
  num_transition_constraints = 1;
}

abbrev pub air : Air F17 (List (List F17)) Unit Unit ℕ
air = fibonacci_air ⦃K = f17⦄ context
