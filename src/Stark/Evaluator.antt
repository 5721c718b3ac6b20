-- ===== src/Stark/Evaluator.antt =====
-- air/constraints/evaluator.rs, `evaluate`, with `transition_exemptions` of air/traits.rs and
-- `evaluate_polynomial_on_lde_domain` of prover.rs. The assertions of a debug build are left out.
use lambdaworks_cairo_prover.Prelude.{
  wrapping_sub, ℕ, zero, suc, ◌+◌, ◌-◌, ◌*◌, ◌/◌, Option, none, some, List, [], ◌∷◌, ◌++◌, map,
  foldl, length, take, zip, range, get_elem?, traverse, and_then, ◌==◌, if◌then◌else◌,
}
use lambdaworks_cairo_prover.Field.{Field, ◌⊕◌, ◌⊗◌}
use lambdaworks_cairo_prover.Air.TraceTable.{TraceTable}
use lambdaworks_cairo_prover.Air.Frame.{read_from_trace}
use lambdaworks_cairo_prover.Air.Context.{AirContext}
use lambdaworks_cairo_prover.Air.Boundary.{
  BoundaryConstraints, generate_roots_of_unity, steps, values,
}
use lambdaworks_cairo_prover.Air.Interface.{Air}
use lambdaworks_cairo_prover.Air.Evaluator.{
  compute_constraint_composition_poly_evaluations_sum, degree_adjustments,
}
use lambdaworks_cairo_prover.Stark.EvaluationTable.{
  ConstraintEvaluationTable, constraint_evaluation_table_new,
}
use lambdaworks_cairo_prover.Stark.Backend.{Backend, Domain, trailing_zeros}

-- `Iterator::rev`
abbrev pub reverse {ℓ} : {A : Type ℓ} → List A → List A
reverse [] = []
reverse (a ∷ as') = reverse as' ++ (a ∷ [])

-- `step_by` of a step that is not zero, `skip` the elements to pass before the next one.
unfoldable pub every {ℓ} : {A : Type ℓ} → ℕ → ℕ → List A → List A
every step skip [] = []
every step zero (a ∷ as') = a ∷ every step (step - 1) as'
every step (suc skip) (a ∷ as') = every step skip as'

module _ {F Tree AuthPath : Type 0} ⦃K : Field F⦄ (B : Backend F Tree AuthPath) where
  -- A domain of no point, or a step of 0, is a panic.
  unfoldable pub evaluate_polynomial_on_lde_domain : List F → ℕ → ℕ → F → Option (List F)
  unfolding every
  evaluate_polynomial_on_lde_domain p blowup_factor domain_size offset =
      let evaluations = B.evaluate_offset_fft p blowup_factor domain_size offset in
      let step = length evaluations / (domain_size * blowup_factor) in
      if domain_size * blowup_factor == 0
      then none
      else (if step == 1
          then some evaluations
          else (if step == 0 then none else some (every step 0 evaluations)))

  abbrev pub on_lde_domain : Domain F → List F → Option (List F)
  on_lde_domain domain p =
      evaluate_polynomial_on_lde_domain p domain.blowup_factor domain.interpolation_domain_size
        domain.coset_offset

  -- The product of `X - root` over the last `cant_take` roots, the last one first.
  unfoldable pub exemption_poly : List F → ℕ → List F
  exemption_poly roots_of_unity cant_take =
      foldl (λ acc root. B.poly_mul acc (B.poly_sub (B.new_monomial K.one 1) (root ∷ [])))
        (B.new_monomial K.one 0) (take cant_take (reverse roots_of_unity))

  unfoldable pub transition_exemptions : AirContext → Option (List (List F))
  unfolding exemption_poly trailing_zeros
  transition_exemptions context =
      and_then
        (B.get_powers_of_primitive_root_coset (trailing_zeros 64 context.trace_length)
          context.trace_length K.one)
        λ roots_of_unity. some (
          map (exemption_poly roots_of_unity)
            (take context.num_transition_constraints context.transition_exemptions))

  -- The zerofier of a column as a polynomial.
  unfoldable pub zerofier_poly : BoundaryConstraints F → F → ℕ → List F
  unfolding steps
  zerofier_poly boundary_constraints primitive_root col =
      foldl (λ zerofier step. B.poly_mul zerofier (K.neg (K.pow primitive_root step) ∷ K.one ∷ []))
        (B.new_monomial K.one 0) (steps boundary_constraints col)

  -- The trace polynomials less the polynomials of the boundary values, on the extended domain; the
  -- loop ends with the shortest list.
  unfoldable pub boundary_polys_evaluations :
      Domain F → List (List F) → List (List F) → List (List F) → Option (List (List F))
  boundary_polys_evaluations domain (xs ∷ domains) (ys ∷ values) (trace_poly ∷ trace_polys) =
      and_then (B.interpolate xs ys) λ boundary_values.
        and_then (on_lde_domain domain (B.poly_sub trace_poly boundary_values)) λ evals.
          and_then (boundary_polys_evaluations domain domains values trace_polys)
            λ rest. some (evals ∷ rest)
  boundary_polys_evaluations domain _ _ _ = some []

  -- The terms of the boundary constraints at the point `i`, from the column `index` on.
  unfoldable pub boundary_evaluation :
      ℕ → F → List (F × F) → ℕ → List (List F) → List (List F) → F → Option F
  boundary_evaluation i d_adjustment_power coefficients index (boundary_evals ∷ polys)
        (inverse_evals ∷ zerofiers) acc =
      and_then (get_elem? coefficients index) λ (boundary_alpha, boundary_beta).
        and_then (get_elem? boundary_evals i) λ value.
          and_then (get_elem? inverse_evals i) λ inverse.
            boundary_evaluation i d_adjustment_power coefficients (suc index) polys zerofiers
              (acc ⊕ value ⊗ inverse ⊗ (boundary_alpha ⊗ d_adjustment_power ⊕ boundary_beta))
  boundary_evaluation i d_adjustment_power coefficients index _ _ acc = some acc

  module _ {RawTrace RapChallenges PublicInput T : Type 0}
      (air : Air F RawTrace RapChallenges PublicInput T) where
    -- One turn of the loop over the extended domain: the sum at its point `d` of index `i`.
    unfoldable pub evaluate_at :
        TraceTable F
        → List (List F)
        → List (List F)
        → List (List F)
        → List (F × F)
        → List (F × F)
        → RapChallenges
        → ℕ × F
        → Option F
    unfolding boundary_evaluation
    evaluate_at lde_trace boundary_polys boundary_zerofiers transition_zerofiers transition_coeffs
          boundary_coeffs rap_challenges (i, d) =
        let context = air.context in
        and_then
          (read_from_trace lde_trace i context.options.blowup_factor context.transition_offsets)
          λ frame. and_then (air.compute_transition frame rap_challenges) λ evaluations_transition.
            and_then
              (traverse (λ (zerofier_evals : List F). get_elem? zerofier_evals i)
                transition_zerofiers)
              λ denominators.
                let evaluations_sum =
                  compute_constraint_composition_poly_evaluations_sum evaluations_transition
                    denominators (degree_adjustments context air.composition_poly_degree_bound d)
                    transition_coeffs in
                let d_adjustment_power =
                  K.pow d
                    (wrapping_sub 64 air.composition_poly_degree_bound context.trace_length) in
                and_then
                  (boundary_evaluation i d_adjustment_power boundary_coeffs 0 boundary_polys
                    boundary_zerofiers K.zero)
                  λ boundary. some (evaluations_sum ⊕ boundary)

    -- `ConstraintEvaluator::evaluate`: the loop pushes its sums on the new table.
    -- `inplace_batch_inverse` inverts each element.
    unfoldable pub evaluator_evaluate :
        BoundaryConstraints F
        → List (List F)
        → F
        → TraceTable F
        → Domain F
        → List (F × F)
        → List (F × F)
        → RapChallenges
        → Option (ConstraintEvaluationTable F)
    unfolding evaluate_polynomial_on_lde_domain transition_exemptions zerofier_poly
        boundary_polys_evaluations evaluate_at
    evaluator_evaluate boundary_constraints trace_polys primitive_root lde_trace domain
          transition_coeffs boundary_coeffs rap_challenges =
        let n_trace_columns = length trace_polys in
        and_then
          (boundary_polys_evaluations domain
            (generate_roots_of_unity boundary_constraints primitive_root n_trace_columns)
            (values boundary_constraints n_trace_columns) trace_polys)
          λ boundary_polys.
            and_then
              (traverse
                (λ col.
                  and_then
                    (on_lde_domain domain (zerofier_poly boundary_constraints primitive_root col))
                    λ evals. some (map K.inv evals))
                (range n_trace_columns))
              λ boundary_zerofiers. and_then (transition_exemptions air.context) λ exemptions.
                and_then (traverse (on_lde_domain domain) exemptions) λ exemption_evals.
                  and_then
                    (on_lde_domain domain
                      (B.poly_sub (B.new_monomial K.one air.context.trace_length) (K.one ∷ [])))
                    λ zerofier_evals.
                      let transition_zerofiers =
                        map
                          (λ (row : List F).
                            map (λ (c : F × F). c.0 ⊗ c.1) (zip (map K.inv zerofier_evals) row))
                          exemption_evals in
                      let evaluation_table =
                        constraint_evaluation_table_new (air.context.num_transition_constraints + 1)
                          domain.lde_roots_of_unity_coset in
                      and_then
                        (traverse
                          (evaluate_at lde_trace boundary_polys boundary_zerofiers
                            transition_zerofiers transition_coeffs boundary_coeffs rap_challenges)
                          (zip (range (length domain.lde_roots_of_unity_coset))
                            domain.lde_roots_of_unity_coset))
                        λ pushed. some (record evaluation_table {
                          evaluations_acc = evaluation_table.evaluations_acc ++ pushed;
                        })
