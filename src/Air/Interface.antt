-- ===== src/Air/Interface.antt =====
-- air/traits.rs: the AIR that a prover and a verifier are given, and the error of a proof (prover.rs).
-- A panic of one of its functions is `none`.
use lambdaworks_cairo_prover.Prelude.{ℕ, Option, List, Result}
use lambdaworks_cairo_prover.Air.TraceTable.{TraceTable}
use lambdaworks_cairo_prover.Air.Frame.{Frame}
use lambdaworks_cairo_prover.Air.Boundary.{BoundaryConstraints}
use lambdaworks_cairo_prover.Air.Context.{AirContext, ProofOptions}

-- Without the message of the error.
pub data ProvingError : Type 0 where
  wrong_parameter : ProvingError

-- `T` is the transcript that `build_rap_challenges` draws from; `build_main_trace` returns the public
-- inputs that it may have changed.
pub record Air (F RawTrace RapChallenges PublicInput T : Type 0) : Type 0 where
  pub build_main_trace :
      RawTrace → PublicInput → Option (PublicInput × Result ProvingError (TraceTable F))
  pub build_auxiliary_trace : TraceTable F → RapChallenges → PublicInput → Option (TraceTable F)
  pub build_rap_challenges : T → RapChallenges × T
  pub number_auxiliary_rap_columns : ℕ
  pub composition_poly_degree_bound : ℕ
  pub compute_transition : Frame F → RapChallenges → Option (List F)
  pub boundary_constraints : RapChallenges → PublicInput → Option (BoundaryConstraints F)
  pub context : AirContext

module _ {F RawTrace RapChallenges PublicInput T : Type 0}
    (air : Air F RawTrace RapChallenges PublicInput T) where
  abbrev pub options : ProofOptions
  options = air.context.options

  abbrev pub blowup_factor : ℕ
  blowup_factor = air.context.options.blowup_factor

  abbrev pub num_transition_constraints : ℕ
  num_transition_constraints = air.context.num_transition_constraints
