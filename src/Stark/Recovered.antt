-- ===== src/Stark/Recovered.antt =====
-- The verifier recovers the challenges of the prover.
use lambdaworks_cairo_prover.Prelude.{
  ℕ, ◌^◌, ◌<◌, ◌≡◌, refl, sym, ap, subst, ◌∙◌, arith, false, some, List, [], ◌∷◌, length,
  length-map, All, ok, ltb, le→ltb,
}
use lambdaworks_cairo_prover.Field.{Field}
use lambdaworks_cairo_prover.Transcript.{Transcript, sample_z_ood}
use lambdaworks_cairo_prover.Air.TraceTable.{TraceTable}
use lambdaworks_cairo_prover.Air.Frame.{get_trace_evaluations}
use lambdaworks_cairo_prover.Air.Interface.{Air}
use lambdaworks_cairo_prover.Fri.Fold.{evaluate}
use lambdaworks_cairo_prover.Fri.Commit.{FoldedBy}
use lambdaworks_cairo_prover.Stark.Backend.{Backend, Domain}
use lambdaworks_cairo_prover.Stark.Proof.{StarkProof}
use lambdaworks_cairo_prover.Stark.Commitments.{append_all}
use lambdaworks_cairo_prover.Stark.Rounds.{
  Round3, round_3_evaluate_polynomials_in_out_of_domain_element,
}
use lambdaworks_cairo_prover.Stark.Prove.{Session, sample_pairs, proof_of, prove_session}
use lambdaworks_cairo_prover.Stark.Verifier.{
  Challenges, frame_elements, replay_round_1, replay_round_4,
  step_1_replay_rounds_and_recover_challenges,
}
use lambdaworks_cairo_prover.Stark.Sampling.{chunks}
use lambdaworks_cairo_prover.Stark.Committed.{replay_round_1-randomize}
use lambdaworks_cairo_prover.Stark.OpenedFrame.{frame_elements-frame_of}
use lambdaworks_cairo_prover.Stark.Replay.{replay_round_4_lem}
use lambdaworks_cairo_prover.Stark.Sessions.{prove_session-Rounds}

module _ {F : Type 0} ⦃K : Field F⦄ where
  -- Every row of the frame has a value of each polynomial.
  pub get_trace_evaluations-wide :
      (polys : List (List F)) (z : F) (offsets : List ℕ) (root : F)
      → All
          (λ (row : List F). length row ≡ length polys)
          (get_trace_evaluations evaluate polys z offsets root)
  unfolding get_trace_evaluations
  get_trace_evaluations-wide polys z [] root = _
  get_trace_evaluations-wide polys z (o ∷ offsets) root =
      (length-map polys _, get_trace_evaluations-wide polys z offsets root)

module _ {F Tree AuthPath RawTrace RapChallenges PublicInput T : Type 0} ⦃K : Field F⦄
    (B : Backend F Tree AuthPath) (S : Transcript T)
    (air : Air F RawTrace RapChallenges PublicInput T) where
  -- The challenges that the prover used, `zetas` those of the folding.
  abbrev pub challenges_of :
      Session F Tree AuthPath RapChallenges T → List F → Challenges F RapChallenges
  challenges_of s zetas = record {
    z = s.z;
    boundary_coeffs = s.boundary_coeffs;
    transition_coeffs = s.transition_coeffs;
    trace_term_coeffs =
        chunks air.context.trace_columns (length air.context.transition_offsets)
          s.round_4_result.trace_poly_coefficients;
    gamma_even = s.round_4_result.composition_poly_coefficients.0;
    gamma_odd = s.round_4_result.composition_poly_coefficients.1;
    zetas = zetas;
    iotas = s.round_4_result.iotas;
    rap_challenges = s.round_1_result.rap_challenges;
  }

  step_1-parts :
      (fuel : ℕ) (proof : StarkProof F AuthPath) (domain : Domain F) (t t₁ t₂ t₃ t₄ t₆ : T)
      (rap : RapChallenges) (boundary transition : List (F × F)) (z : F) (elements : List F)
      (gammas : F × F) (rows : List (List F)) (zetas : List F) (iotas : List ℕ)
      → replay_round_1 B S air proof.lde_trace_merkle_roots t ≡ (rap, t₁)
      → sample_pairs B S air air.context.trace_columns t₁ ≡ (boundary, t₂)
      → sample_pairs B S air air.context.num_transition_constraints t₂ ≡ (transition, t₃)
      → sample_z_ood S fuel domain.lde_roots_of_unity_coset domain.trace_roots_of_unity (
          append_all S (proof.composition_poly_even_root ∷ proof.composition_poly_odd_root ∷ []) t₃)
        ≡ some (z, t₄)
      → frame_elements proof.trace_ood_frame_evaluations ≡ some elements
      → replay_round_4 B S air proof domain (
          append_all S
            (proof.composition_poly_even_ood_evaluation ∷ proof.composition_poly_odd_ood_evaluation
              ∷ elements)
            t₄)
        ≡ (gammas, rows, zetas, iotas, t₆)
      → ltb (length proof.lde_trace_merkle_roots) air.number_auxiliary_rap_columns ≡ false
      → step_1_replay_rounds_and_recover_challenges B S air fuel proof domain t
        ≡ some (
          record {
            z = z;
            boundary_coeffs = boundary;
            transition_coeffs = transition;
            trace_term_coeffs = rows;
            gamma_even = gammas.0;
            gamma_odd = gammas.1;
            zetas = zetas;
            iotas = iotas;
            rap_challenges = rap;
          },
          t₆,
        )
  unfolding step_1_replay_rounds_and_recover_challenges
  step_1-parts fuel proof domain t t₁ t₂ t₃ t₄ t₆ rap boundary transition z elements gammas rows
        zetas iotas h₁ h₂ h₃ h₄ h₅ h₆ h₇ =
      rw (h₁, h₂, h₃, h₄, h₅, h₆, h₇) refl

  -- If the prover makes a proof without error from a transcript, the auxiliary traces of the AIR have
  -- as many columns as it declares, its number of columns is that of the trace polynomials and not
  -- zero, and the extended domain has 2 ^ its order points, then the verifier's first step on that
  -- proof, from the same transcript, returns: it recovers every challenge that the prover used (the
  -- random coefficients, z, the coefficients of the DEEP polynomial, the indices of the queries and
  -- those of the auxiliary trace), ends with the transcript that the prover ended with, and its
  -- folding challenges are those by which the layers of FRI were folded down to the last value.
  pub step_1_replay_rounds_and_recover_challenges-prove_session :
      (fuel : ℕ) (raw_trace : RawTrace) (public_input public_input' : PublicInput) (t : T)
      (s : Session F Tree AuthPath RapChallenges T)
      → ((main aux : TraceTable F) (rap : RapChallenges) (i : PublicInput)
          → air.build_auxiliary_trace main rap i ≡ some aux
          → aux.n_cols ≡ air.number_auxiliary_rap_columns)
      → length s.round_1_result.trace_polys ≡ air.context.trace_columns
      → 0 < air.context.trace_columns
      → length s.domain.lde_roots_of_unity_coset ≡ 2 ^ s.domain.lde_root_order
      → prove_session B S air fuel raw_trace public_input t ≡ some (public_input', ok s)
      → (zetas : List F) × (step_1_replay_rounds_and_recover_challenges B S air fuel
            (proof_of s)
            s.domain
            t
          ≡ some (challenges_of s zetas, s.transcript))
        × FoldedBy s.round_4_result.fri_layers zetas s.round_4_result.fri_last_value
  unfolding proof_of round_3_evaluate_polynomials_in_out_of_domain_element get_trace_evaluations
  step_1_replay_rounds_and_recover_challenges-prove_session fuel raw_trace public_input
        public_input' t s aux_columns columns pos size h =
      let (d, main_trace, t₁, built, first, rounds) =
        prove_session-Rounds B S air fuel raw_trace public_input public_input' t s h in
      let (replayed, enough) =
        replay_round_1-randomize B S air main_trace public_input' s.domain t t₁ s.round_1_result
          (λ rap aux. aux_columns main_trace aux rap public_input') first in
      let (zetas, fourth, folded) =
        replay_round_4_lem B S air s.domain s.round_1_result s.round_2_result s.round_3_result s.z _
          s.transcript s.round_4_result (proof_of s) size rounds.fourth refl refl in
      let wide : All (λ (row : List F). length row ≡ length s.round_1_result.trace_polys)
          s.round_3_result.trace_ood_evaluations =
        subst
          (λ (r3 : Round3 F).
            All (λ (row : List F). length row ≡ length s.round_1_result.trace_polys)
              r3.trace_ood_evaluations)
          (sym rounds.third)
          (get_trace_evaluations-wide s.round_1_result.trace_polys s.z
            air.context.transition_offsets s.domain.trace_primitive_root) in
      let read =
        frame_elements-frame_of s.round_3_result.trace_ood_evaluations
          (length s.round_1_result.trace_polys) (omega arith) wide in
      (
        zetas,
        step_1-parts fuel (proof_of s) s.domain t t₁ rounds.t₁ rounds.t₂ rounds.t₄ s.transcript
            s.round_1_result.rap_challenges s.boundary_coeffs s.transition_coeffs s.z _ _ _ zetas
            s.round_4_result.iotas replayed
            (ap (λ n. sample_pairs B S air n t₁) (sym columns) ∙ rounds.boundary) rounds.transition
            rounds.drawn read fourth
            (le→ltb (length s.round_1_result.lde_trace_merkle_roots)
              air.number_auxiliary_rap_columns enough),
        folded,
      )
