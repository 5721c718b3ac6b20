-- ===== src/Stark/Steps.antt =====
-- verifier.rs: steps 2 to 4 and `verify`.
use lambdaworks_cairo_prover.Prelude.{
  wrapping_sub, ℕ, Bool, true, false, ◌&&◌, Option, some, List, [], ◌∷◌, map, foldl, zip, range,
  get_elem?, traverse, and_then, if◌then◌else◌,
}
use lambdaworks_cairo_prover.Field.{Field, ◌⊕◌, ◌⊖◌, ◌⊗◌, ◌⊘◌}
use lambdaworks_cairo_prover.Transcript.{Transcript}
use lambdaworks_cairo_prover.Air.Frame.{frame_row}
use lambdaworks_cairo_prover.Air.Boundary.{BoundaryConstraints, generate_roots_of_unity, values}
use lambdaworks_cairo_prover.Air.Evaluator.{
  compute_constraint_composition_poly_evaluations_sum, degree_adjustments,
}
use lambdaworks_cairo_prover.Air.Interface.{Air}
use lambdaworks_cairo_prover.Fri.Fold.{evaluate}
use lambdaworks_cairo_prover.Fri.Query.{FriDecommitment, verify_query_and_sym_openings}
use lambdaworks_cairo_prover.Stark.Backend.{Backend, Domain, domain_new}
use lambdaworks_cairo_prover.Stark.Proof.{StarkProof}
use lambdaworks_cairo_prover.Stark.Evaluator.{transition_exemptions, zerofier_poly}
use lambdaworks_cairo_prover.Stark.Reconstruct.{reconstruct_deep_composition_poly_evaluation}
use lambdaworks_cairo_prover.Stark.Verifier.{
  Challenges, step_1_replay_rounds_and_recover_challenges,
}

module _ {F Tree AuthPath : Type 0} ⦃K : Field F⦄ (B : Backend F Tree AuthPath) where
  -- The openings of the trace: the roots, paths and values, zipped.
  unfoldable pub verify_trace_openings : List F → List AuthPath → ℕ → List F → Bool
  verify_trace_openings (merkle_root ∷ roots) (merkle_proof ∷ proofs) iota_0
        (evaluation ∷ evaluations) =
      B.verify merkle_proof merkle_root iota_0 evaluation
      && verify_trace_openings roots proofs iota_0 evaluations
  verify_trace_openings _ _ iota_0 _ = true

  -- No query is a panic, as is an index beyond the domain.
  unfoldable pub step_4_verify_deep_composition_polynomial :
      {RapChallenges : Type 0}
      → StarkProof F AuthPath
      → Domain F
      → Challenges F RapChallenges
      → Option Bool
  unfolding verify_trace_openings reconstruct_deep_composition_poly_evaluation
  step_4_verify_deep_composition_polynomial proof domain challenges =
      let openings = proof.deep_poly_openings in
      and_then (get_elem? challenges.iotas 0) λ iota_0.
        and_then (B.get_primitive_root_of_unity domain.root_order) λ primitive_root.
          and_then (get_elem? domain.lde_roots_of_unity_coset iota_0) λ upsilon_0.
            and_then
              (reconstruct_deep_composition_poly_evaluation primitive_root upsilon_0 proof
                challenges)
              λ deep_poly_evaluation. and_then (get_elem? proof.query_list 0) λ first_query. some (
                B.verify openings.lde_composition_poly_even_proof proof.composition_poly_even_root
                  iota_0 openings.lde_composition_poly_even_evaluation
                && B.verify openings.lde_composition_poly_odd_proof proof.composition_poly_odd_root
                    iota_0 openings.lde_composition_poly_odd_evaluation
                && verify_trace_openings proof.lde_trace_merkle_roots
                    openings.lde_trace_merkle_proofs iota_0 openings.lde_trace_evaluations
                && K.beq first_query.first_layer_evaluation deep_poly_evaluation)

  -- The loop over the queries and their challenges, zipped; each one is checked.
  unfoldable pub verify_queries :
      ℕ
      → ℕ
      → F
      → List F
      → F
      → List F
      → List (FriDecommitment F AuthPath)
      → List ℕ
      → Bool
      → Option Bool
  verify_queries lde_root_order coset_offset primitive_root roots last_value zetas
        (proof_s ∷ query_list) (iota_s ∷ iotas) result =
      and_then
        (verify_query_and_sym_openings B.verify lde_root_order coset_offset primitive_root roots
          last_value zetas iota_s proof_s)
        λ accepted.
          verify_queries lde_root_order coset_offset primitive_root roots last_value zetas
            query_list iotas (result && accepted)
  verify_queries lde_root_order coset_offset primitive_root roots last_value zetas _ _ result =
      some result

  module _ {RawTrace RapChallenges PublicInput T : Type 0}
      (air : Air F RawTrace RapChallenges PublicInput T) where
    -- The root of unity is looked up in every query; with no query it is not needed.
    unfoldable pub step_3_verify_fri :
        StarkProof F AuthPath → Domain F → Challenges F RapChallenges → Option Bool
    unfolding verify_queries
    step_3_verify_fri proof domain challenges =
        and_then (B.get_primitive_root_of_unity domain.lde_root_order) λ lde_primitive_root.
          verify_queries domain.lde_root_order air.context.options.coset_offset lde_primitive_root
            proof.fri_layers_merkle_roots proof.fri_last_value challenges.zetas proof.query_list
            challenges.iotas true

    -- The quotient of a column at `z`, and the values it is made of.
    unfoldable pub boundary_quotient :
        BoundaryConstraints F → F → F → List F → List (List F) → List (List F) → ℕ → Option F
    boundary_quotient boundary_constraints primitive_root z row domains values trace_idx =
        and_then (get_elem? row trace_idx) λ trace_evaluation.
          and_then (get_elem? domains trace_idx) λ xs. and_then (get_elem? values trace_idx) λ ys.
            and_then (B.interpolate xs ys) λ interpolating_polynomial. some (
              (trace_evaluation ⊖ evaluate interpolating_polynomial z)
              ⊘ evaluate (zerofier_poly B boundary_constraints primitive_root trace_idx) z)

    -- The evaluation of the composition polynomial at `z`, from the frame of the proof. The degrees
    -- of the boundary quotients, which nothing reads, are left out.
    unfoldable pub composition_poly_ood_evaluation :
        StarkProof F AuthPath → Domain F → PublicInput → Challenges F RapChallenges → Option F
    unfolding boundary_quotient
    composition_poly_ood_evaluation proof domain public_input challenges =
        let context = air.context in
        let z = challenges.z in
        let frame = proof.trace_ood_frame_evaluations in
        and_then (air.boundary_constraints challenges.rap_challenges public_input)
          λ boundary_constraints. and_then (frame_row frame 0) λ row.
            and_then
              (traverse
                (boundary_quotient boundary_constraints domain.trace_primitive_root z row
                  (generate_roots_of_unity boundary_constraints domain.trace_primitive_root
                    context.trace_columns)
                  (values boundary_constraints context.trace_columns))
                (range context.trace_columns))
              λ boundary_c_i_evaluations.
                let adjustment =
                  K.pow z
                    (wrapping_sub 64 air.composition_poly_degree_bound context.trace_length) in
                let boundary_quotient_ood_evaluation =
                  foldl (λ acc x. acc ⊕ x) K.zero
                    (map (λ (term : F × (F × F)). term.0 ⊗ (term.1.0 ⊗ adjustment ⊕ term.1.1))
                      (zip boundary_c_i_evaluations challenges.boundary_coeffs)) in
                and_then (air.compute_transition frame challenges.rap_challenges)
                  λ transition_evaluations. and_then (transition_exemptions B context) λ exemptions.
                    let x_n_1 =
                      B.poly_sub (B.new_monomial K.one context.trace_length) (K.one ∷ []) in
                    let denominators =
                      map (λ exemption. K.inv (evaluate (B.poly_div x_n_1 exemption) z))
                        exemptions in
                    some (
                      boundary_quotient_ood_evaluation
                      ⊕ compute_constraint_composition_poly_evaluations_sum transition_evaluations
                          denominators
                          (degree_adjustments context air.composition_poly_degree_bound z)
                          challenges.transition_coeffs)

    unfoldable pub step_2_verify_claimed_composition_polynomial :
        StarkProof F AuthPath → Domain F → PublicInput → Challenges F RapChallenges → Option Bool
    unfolding composition_poly_ood_evaluation
    step_2_verify_claimed_composition_polynomial proof domain public_input challenges =
        and_then (composition_poly_ood_evaluation proof domain public_input challenges)
          λ evaluation. some (
            K.beq
              (proof.composition_poly_even_ood_evaluation
                ⊕ challenges.z ⊗ proof.composition_poly_odd_ood_evaluation)
              evaluation)

    -- The steps after the first, until one of them fails.
    unfoldable pub verify_steps :
        StarkProof F AuthPath → Domain F → PublicInput → Challenges F RapChallenges → Option Bool
    unfolding step_2_verify_claimed_composition_polynomial step_3_verify_fri
        step_4_verify_deep_composition_polynomial
    verify_steps proof domain public_input challenges =
        and_then (step_2_verify_claimed_composition_polynomial proof domain public_input challenges)
          λ composed.
            if composed
            then (and_then (step_3_verify_fri proof domain challenges) λ folded.
                if folded
                then step_4_verify_deep_composition_polynomial proof domain challenges
                else some false)
            else some false

    -- `verify` from the new transcript `t`.
    unfoldable pub verify : Transcript T → ℕ → StarkProof F AuthPath → PublicInput → T → Option Bool
    unfolding verify_steps
    verify S fuel proof public_input t = and_then (domain_new B air.context) λ domain.
        and_then (step_1_replay_rounds_and_recover_challenges B S air fuel proof domain t)
          λ (challenges, t'). verify_steps proof domain public_input challenges
