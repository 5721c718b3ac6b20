-- ===== src/Stark/Rounds.antt =====
-- prover.rs: the second and the third round, and the openings of the fourth.
use lambdaworks_cairo_prover.Prelude.{
  ℕ, suc, ◌*◌, ◌%◌, Option, none, some, List, [], ◌∷◌, length, drop, get_elem?, traverse, and_then,
  ◌==◌, if◌then◌else◌,
}
use lambdaworks_cairo_prover.Field.{Field, ◌⊗◌}
use lambdaworks_cairo_prover.Air.TraceTable.{get_row}
use lambdaworks_cairo_prover.Air.Frame.{get_trace_evaluations}
use lambdaworks_cairo_prover.Air.Interface.{Air}
use lambdaworks_cairo_prover.Fri.Fold.{evaluate}
use lambdaworks_cairo_prover.Stark.Backend.{Backend, Domain}
use lambdaworks_cairo_prover.Stark.Proof.{DeepPolynomialOpenings}
use lambdaworks_cairo_prover.Stark.EvaluationTable.{compute_composition_poly}
use lambdaworks_cairo_prover.Stark.Evaluator.{on_lde_domain, evaluator_evaluate}
use lambdaworks_cairo_prover.Stark.Commitments.{Round1, batch_commit}

pub record Round2 (F Tree : Type 0) : Type 0 where
  pub composition_poly_even : List F
  pub lde_composition_poly_even_evaluations : List F
  pub composition_poly_even_merkle_tree : Tree
  pub composition_poly_even_root : F
  pub composition_poly_odd : List F
  pub lde_composition_poly_odd_evaluations : List F
  pub composition_poly_odd_merkle_tree : Tree
  pub composition_poly_odd_root : F

pub record Round3 (F : Type 0) : Type 0 where
  pub trace_ood_evaluations : List (List F)
  pub composition_poly_even_ood_evaluation : F
  pub composition_poly_odd_ood_evaluation : F

module _ {F Tree AuthPath : Type 0} ⦃K : Field F⦄ (B : Backend F Tree AuthPath) where
  -- The end of the second round, from the composition polynomial on.
  unfoldable pub commit_composition : List F → Domain F → Option (Round2 F Tree)
  unfolding batch_commit
  commit_composition composition_poly domain =
      let (even, odd) = B.even_odd_decomposition composition_poly in
      and_then (on_lde_domain B domain even) λ even_evaluations.
        and_then (on_lde_domain B domain odd) λ odd_evaluations.
          let (trees, roots) = batch_commit B (even_evaluations ∷ odd_evaluations ∷ []) in
          and_then (get_elem? trees 0) λ even_tree. and_then (get_elem? roots 0) λ even_root.
            and_then (get_elem? trees 1) λ odd_tree. and_then (get_elem? roots 1) λ odd_root.
              some (record {
                composition_poly_even = even;
                lde_composition_poly_even_evaluations = even_evaluations;
                composition_poly_even_merkle_tree = even_tree;
                composition_poly_even_root = even_root;
                composition_poly_odd = odd;
                lde_composition_poly_odd_evaluations = odd_evaluations;
                composition_poly_odd_merkle_tree = odd_tree;
                composition_poly_odd_root = odd_root;
              })

  module _ {RawTrace RapChallenges PublicInput T : Type 0}
      (air : Air F RawTrace RapChallenges PublicInput T) where
    unfoldable pub round_2_compute_composition_polynomial :
        Domain F
        → Round1 F Tree RapChallenges
        → PublicInput
        → List (F × F)
        → List (F × F)
        → Option (Round2 F Tree)
    unfolding commit_composition compute_composition_poly
    round_2_compute_composition_polynomial domain round_1_result public_input transition_coeffs
          boundary_coeffs =
        and_then (air.boundary_constraints round_1_result.rap_challenges public_input)
          λ boundary_constraints.
            and_then
              (evaluator_evaluate B air boundary_constraints round_1_result.trace_polys
                domain.trace_primitive_root round_1_result.lde_trace domain transition_coeffs
                boundary_coeffs round_1_result.rap_challenges)
              λ constraint_evaluations.
                commit_composition
                  (compute_composition_poly B constraint_evaluations domain.coset_offset) domain

    unfoldable pub round_3_evaluate_polynomials_in_out_of_domain_element :
        Domain F → Round1 F Tree RapChallenges → Round2 F Tree → F → Round3 F
    round_3_evaluate_polynomials_in_out_of_domain_element domain round_1_result round_2_result z =
        let z_squared = z ⊗ z in
        record {
          trace_ood_evaluations =
              get_trace_evaluations evaluate round_1_result.trace_polys z
                air.context.transition_offsets domain.trace_primitive_root;
          composition_poly_even_ood_evaluation =
              evaluate round_2_result.composition_poly_even z_squared;
          composition_poly_odd_ood_evaluation =
              evaluate round_2_result.composition_poly_odd z_squared;
        }

    -- The terms of one trace polynomial: the rows of the frame, the offsets and the coefficients
    -- from its own on, zipped.
    unfoldable pub deep_terms :
        ℕ → List F → F → F → List (List F) → List ℕ → List F → List F → Option (List F)
    deep_terms i t_j z primitive_root (evaluations ∷ rows) (offset ∷ offsets) (gamma ∷ gammas)
          trace_terms =
        and_then (get_elem? evaluations i) λ t_j_z.
          let z_shifted = z ⊗ K.pow primitive_root offset in
          let poly = B.ruffini_division (B.poly_sub t_j (t_j_z ∷ [])) z_shifted in
          deep_terms i t_j z primitive_root rows offsets gammas
            (B.poly_add trace_terms (B.poly_mul poly (gamma ∷ [])))
    deep_terms i t_j z primitive_root _ _ _ trace_terms = some trace_terms

    -- The loop over the trace polynomials from the `i`th on.
    unfoldable pub deep_trace_terms :
        ℕ → List (List F) → F → F → List (List F) → List ℕ → List F → List F → Option (List F)
    unfolding deep_terms
    deep_trace_terms i [] z primitive_root rows offsets gammas trace_terms = some trace_terms
    deep_trace_terms i (t_j ∷ trace_polys) z primitive_root rows offsets gammas trace_terms =
        and_then
          (deep_terms i t_j z primitive_root rows offsets (drop (i * length rows) gammas)
            trace_terms)
          λ trace_terms'.
            deep_trace_terms (suc i) trace_polys z primitive_root rows offsets gammas trace_terms'

    unfoldable pub compute_deep_composition_poly :
        List (List F) → Round2 F Tree → Round3 F → F → F → F × F → List F → Option (List F)
    unfolding deep_trace_terms
    compute_deep_composition_poly trace_polys round_2_result round_3_result z primitive_root
          (gamma, gamma_p) trace_terms_gammas =
        let z_squared = z ⊗ z in
        let h_1_term =
          B.ruffini_division
            (B.poly_mul (gamma ∷ []) (
              B.poly_sub round_2_result.composition_poly_even
                (round_3_result.composition_poly_even_ood_evaluation ∷ [])))
            z_squared in
        let h_2_term =
          B.ruffini_division
            (B.poly_mul (gamma_p ∷ []) (
              B.poly_sub round_2_result.composition_poly_odd
                (round_3_result.composition_poly_odd_ood_evaluation ∷ [])))
            z_squared in
        and_then
          (deep_trace_terms 0 trace_polys z primitive_root round_3_result.trace_ood_evaluations
            air.context.transition_offsets trace_terms_gammas [])
          λ trace_terms. some (B.poly_add (B.poly_add h_1_term h_2_term) trace_terms)

  unfoldable pub open_deep_composition_poly :
      {RapChallenges : Type 0}
      → Domain F
      → Round1 F Tree RapChallenges
      → Round2 F Tree
      → ℕ
      → Option (DeepPolynomialOpenings F AuthPath)
  unfolding get_row
  open_deep_composition_poly domain round_1_result round_2_result index_to_open =
      let size = length domain.lde_roots_of_unity_coset in
      let index = index_to_open % size in
      if size == 0
      then none
      else (and_then (B.get_proof_by_pos round_2_result.composition_poly_even_merkle_tree index)
          λ even_proof.
            and_then (get_elem? round_2_result.lde_composition_poly_even_evaluations index)
              λ even_evaluation.
                and_then (B.get_proof_by_pos round_2_result.composition_poly_odd_merkle_tree index)
                  λ odd_proof.
                    and_then (get_elem? round_2_result.lde_composition_poly_odd_evaluations index)
                      λ odd_evaluation.
                        and_then
                          (traverse (λ tree. B.get_proof_by_pos tree index)
                            round_1_result.lde_trace_merkle_trees)
                          λ trace_proofs.
                            and_then (get_row round_1_result.lde_trace index) λ trace_evaluations.
                              some (record {
                                lde_composition_poly_even_proof = even_proof;
                                lde_composition_poly_even_evaluation = even_evaluation;
                                lde_composition_poly_odd_proof = odd_proof;
                                lde_composition_poly_odd_evaluation = odd_evaluation;
                                lde_trace_merkle_proofs = trace_proofs;
                                lde_trace_evaluations = trace_evaluations;
                              }))
