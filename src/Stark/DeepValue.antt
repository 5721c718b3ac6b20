-- ===== src/Stark/DeepValue.antt =====
-- The value of the DEEP polynomial: what the prover commits to, and what the verifier reconstructs.
use lambdaworks_cairo_prover.Prelude.{
  ℕ, ◌<◌, ◌≡◌, ◌≢◌, sym, ap, ap₂, ◌∙◌, arith, some, List, map, length, range, length-range_from,
  some_injective, ok,
}
use lambdaworks_cairo_prover.Field.{Field, HasInverses, ◌⊕◌, ◌⊖◌, ◌⊗◌, ◌⊘◌}
use lambdaworks_cairo_prover.Transcript.{Transcript}
use lambdaworks_cairo_prover.Air.Frame.{get_trace_evaluations}
use lambdaworks_cairo_prover.Air.Interface.{Air}
use lambdaworks_cairo_prover.Fri.Fold.{evaluate}
use lambdaworks_cairo_prover.Stark.Backend.{Backend, HasPolynomials}
use lambdaworks_cairo_prover.Stark.Rounds.{
  Round3, round_3_evaluate_polynomials_in_out_of_domain_element, compute_deep_composition_poly,
}
use lambdaworks_cairo_prover.Stark.Prove.{Session, proof_of, prove_session}
use lambdaworks_cairo_prover.Stark.Sampling.{chunks}
use lambdaworks_cairo_prover.Stark.Reconstruct.{
  all_columns_terms, reconstruct_deep_composition_poly_evaluation,
}
use lambdaworks_cairo_prover.Stark.OpenedFrame.{frame_of}
use lambdaworks_cairo_prover.Stark.RoundFour.{round_4-FourthRound}
use lambdaworks_cairo_prover.Stark.Sessions.{prove_session-Rounds}
use lambdaworks_cairo_prover.Stark.Recovered.{challenges_of}
use lambdaworks_cairo_prover.Stark.DeepParts.{third_round, deep_value, reconstruct-parts}

module _ {F Tree AuthPath : Type 0} ⦃K : Field F⦄ (V : HasInverses K) (B : Backend F Tree AuthPath)
    (P : HasPolynomials K B) where
  module _ {RawTrace RapChallenges PublicInput T : Type 0} (S : Transcript T)
      (air : Air F RawTrace RapChallenges PublicInput T) where
    -- In a field with inverses and with polynomials whose sums, products and divisions by X - b are
    -- those of their values: if the prover makes a proof without error, its AIR has the transition
    -- offsets 0 .. n - 1 and as many columns, not zero, as there are trace polynomials, and x is
    -- neither z squared nor z times one of the first n powers of the root of unity, then the verifier
    -- that is given the values of the trace and composition polynomials at x as openings
    -- reconstructs, with the challenges of the prover, the value at x of the DEEP polynomial that
    -- the prover commits to.
    pub reconstruct_deep_composition_poly_evaluation-prove_session :
        (fuel : ℕ) (raw_trace : RawTrace) (public_input public_input' : PublicInput) (t : T)
        (s : Session F Tree AuthPath RapChallenges T) (zetas : List F) (n : ℕ) (x : F)
        → prove_session B S air fuel raw_trace public_input t ≡ some (public_input', ok s)
        → air.context.transition_offsets ≡ range n
        → length s.round_1_result.trace_polys ≡ air.context.trace_columns
        → 0 < air.context.trace_columns
        → x ≢ s.z ⊗ s.z
        → ((k : ℕ) → k < n → x ≢ s.z ⊗ K.pow s.domain.trace_primitive_root k)
        → reconstruct_deep_composition_poly_evaluation s.domain.trace_primitive_root x
            (record (proof_of s) {
              deep_poly_openings = record s.round_4_result.deep_poly_openings {
                lde_composition_poly_even_evaluation =
                    evaluate s.round_2_result.composition_poly_even x;
                lde_composition_poly_odd_evaluation =
                    evaluate s.round_2_result.composition_poly_odd x;
                lde_trace_evaluations = map (λ p. evaluate p x) s.round_1_result.trace_polys;
              };
            })
            (challenges_of B S air s zetas)
          ≡ some (evaluate s.round_4_result.deep_composition_poly x)
    unfolding proof_of round_3_evaluate_polynomials_in_out_of_domain_element
    reconstruct_deep_composition_poly_evaluation-prove_session fuel raw_trace public_input
          public_input' t s zetas n x h offsets columns pos ne outside =
        let (d, main_trace, t₁, built, first, rounds) =
          prove_session-Rounds B S air fuel raw_trace public_input public_input' t s h in
        let fourth =
          round_4-FourthRound B S air s.domain s.round_1_result s.round_2_result s.round_3_result
            s.z _ s.transcript s.round_4_result rounds.fourth in
        let polys = s.round_1_result.trace_polys in
        let root = s.domain.trace_primitive_root in
        let coefficients = s.round_4_result.trace_poly_coefficients in
        let (gamma, gamma_p) = s.round_4_result.composition_poly_coefficients in
        let third : s.round_3_result ≡ third_round V B P air polys s.round_2_result s.z root n =
          rounds.third
          ∙ ap
              (λ o. record {
                trace_ood_evaluations = get_trace_evaluations evaluate polys s.z o root;
                composition_poly_even_ood_evaluation =
                    evaluate s.round_2_result.composition_poly_even (s.z ⊗ s.z);
                composition_poly_odd_ood_evaluation =
                    evaluate s.round_2_result.composition_poly_odd (s.z ⊗ s.z);
              })
              offsets in
        let (deep, terms, p, q, sum) =
          deep_value V B P air polys s.round_2_result s.z root x n gamma gamma_p coefficients
            offsets (omega arith) ne outside in
        let same : deep ≡ s.round_4_result.deep_composition_poly = some_injective (
          sym p
          ∙ ap
              (λ r3.
                compute_deep_composition_poly B air polys s.round_2_result r3 s.z root
                  (gamma, gamma_p) coefficients)
              (sym third)
          ∙ fourth.deep) in
        let width : length air.context.transition_offsets ≡ n =
          ap length offsets ∙ length-range_from 0 n in
        let even = s.round_2_result.composition_poly_even in
        let odd = s.round_2_result.composition_poly_odd in
        let at_x = map (λ p. evaluate p x) polys in
        reconstruct-parts V B P root x terms _ _ (
          ap
            (λ (r3 : Round3 F).
              all_columns_terms (frame_of r3.trace_ood_evaluations (length polys)) x s.z root at_x 0
                (length polys)
                (chunks air.context.trace_columns (length air.context.transition_offsets)
                  coefficients)
                K.zero)
            third
          ∙ ap₂
              (λ c w.
                all_columns_terms
                  (frame_of (get_trace_evaluations evaluate polys s.z (range n) root)
                    (length polys))
                  x s.z root at_x 0 (length polys) (chunks c w coefficients) K.zero)
              (sym columns) width
          ∙ q)
        ∙ ap
            (λ (r3 : Round3 F). some (
              terms
              ⊕ (evaluate even x ⊖ r3.composition_poly_even_ood_evaluation)
                ⊘ (x ⊖ s.z ⊗ s.z)
                ⊗ gamma
              ⊕ (evaluate odd x ⊖ r3.composition_poly_odd_ood_evaluation)
                ⊘ (x ⊖ s.z ⊗ s.z)
                ⊗ gamma_p))
            third
        ∙ ap some (sum ∙ ap (λ d. evaluate d x) same)
