-- ===== src/Stark/Validation.antt =====
-- air/debug.rs: the validation of a trace against the constraints of an AIR.
use lambdaworks_cairo_prover.Prelude.{
  ℕ, zero, suc, ◌-◌, Bool, true, not, ◌&&◌, Option, some, none, List, [], ◌∷◌, map, replicate, zip,
  traverse, and_then, ltb, if◌then◌else◌, get_elem?,
}
use lambdaworks_cairo_prover.Field.{Field}
use lambdaworks_cairo_prover.Air.TraceTable.{TraceTable, n_rows, new_from_cols, get}
use lambdaworks_cairo_prover.Air.Frame.{read_from_trace}
use lambdaworks_cairo_prover.Air.Boundary.{BoundaryConstraint}
use lambdaworks_cairo_prover.Air.Interface.{Air}
use lambdaworks_cairo_prover.Stark.Backend.{Backend, Domain}

module _ {F : Type 0} ⦃K : Field F⦄ where
  -- The loop over the boundary constraints, `ret` the result so far.
  unfoldable pub check_boundary : TraceTable F → List (BoundaryConstraint F) → Bool → Option Bool
  unfolding get
  check_boundary trace [] ret = some ret
  check_boundary trace (constraint ∷ constraints) ret =
      and_then (get trace constraint.step constraint.col)
        λ trace_value. check_boundary trace constraints (ret && K.beq constraint.value trace_value)

  -- The loop over the evaluations of a row, from the `i`th on; an evaluation without an exemption
  -- step is a panic.
  unfoldable pub check_evaluations : ℕ → List ℕ → ℕ → List F → Bool → Option Bool
  check_evaluations step exemption_steps i [] ret = some ret
  check_evaluations step exemption_steps i (eval ∷ evaluations) ret =
      and_then (get_elem? exemption_steps i) λ exemption_step.
        check_evaluations step exemption_steps (suc i) evaluations
          (ret && not (ltb step exemption_step && not (K.beq eval K.zero)))

-- `trace_steps - exemptions` for each constraint; below 0 is a panic.
unfoldable pub exemption_steps : ℕ → ℕ → List ℕ → Option (List ℕ)
exemption_steps trace_steps n_transition_constraints transition_exemptions =
    traverse (λ (pair : ℕ × ℕ). if ltb pair.0 pair.1 then none else some (pair.0 - pair.1))
      (zip (replicate n_transition_constraints trace_steps) transition_exemptions)

module _ {F RawTrace RapChallenges PublicInput T : Type 0} ⦃K : Field F⦄
    (air : Air F RawTrace RapChallenges PublicInput T) where
  -- The evaluations of the transition constraints at a row.
  unfoldable pub evaluations_at : TraceTable F → RapChallenges → ℕ → Option (List F)
  evaluations_at trace rap_challenges step =
      and_then (read_from_trace trace step 1 air.context.transition_offsets)
        λ frame. air.compute_transition frame rap_challenges

  -- The loop over the rows from `step` on, `n` of them.
  unfoldable pub check_rows : TraceTable F → RapChallenges → List ℕ → ℕ → ℕ → Bool → Option Bool
  check_rows trace rap_challenges steps step zero ret = some ret
  check_rows trace rap_challenges steps step (suc n) ret =
      and_then (evaluations_at trace rap_challenges step) λ evaluations.
        and_then (check_evaluations step steps 0 evaluations ret)
          λ ret'. check_rows trace rap_challenges steps (suc step) n ret'

  -- `validate_trace` on the table that it evaluates the trace polynomials to.
  unfoldable pub validate_table : TraceTable F → PublicInput → RapChallenges → Option Bool
  validate_table trace public_input rap_challenges =
      and_then (air.boundary_constraints rap_challenges public_input) λ boundary.
        and_then (check_boundary trace boundary.constraints true) λ ret.
          and_then
            (exemption_steps (n_rows trace) air.context.num_transition_constraints
              air.context.transition_exemptions)
            λ steps. check_rows trace rap_challenges steps 0 (n_rows trace) ret

  unfoldable pub validate_trace :
      {Tree AuthPath : Type 0}
      → Backend F Tree AuthPath
      → List (List F)
      → Domain F
      → PublicInput
      → RapChallenges
      → Option Bool
  validate_trace B trace_polys domain public_input rap_challenges =
      and_then
        (new_from_cols (
          map (λ poly. B.evaluate_offset_fft poly 1 domain.interpolation_domain_size K.one)
            trace_polys))
        λ trace. validate_table trace public_input rap_challenges
