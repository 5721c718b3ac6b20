-- ===== src/Air/Context.antt =====
-- air/context.rs: the parameters of an AIR and of a proof.
use lambdaworks_cairo_prover.Prelude.{ℕ, List, length}

pub record ProofOptions : Type 0 where
  pub blowup_factor : ℕ
  pub fri_number_of_queries : ℕ
  pub coset_offset : ℕ

pub record AirContext : Type 0 where
  pub options : ProofOptions
  pub trace_length : ℕ
  pub trace_columns : ℕ
  pub transition_degrees : List ℕ
  pub transition_offsets : List ℕ
  pub transition_exemptions : List ℕ
  pub num_transition_constraints : ℕ

abbrev pub transition_degrees_len : AirContext → ℕ
transition_degrees_len context = length context.transition_degrees
