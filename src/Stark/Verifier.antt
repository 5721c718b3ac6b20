-- ===== src/Stark/Verifier.antt =====
-- verifier.rs, step 1: the challenges are drawn again from what the proof says.
use lambdaworks_cairo_prover.Prelude.{
  ℕ, zero, suc, ◌-◌, ◌^◌, Option, none, some, List, [], ◌∷◌, take, drop, length, range,
  flat_traverse, and_then, ltb, ◌==◌, if◌then◌else◌,
}
use lambdaworks_cairo_prover.Field.{Field}
use lambdaworks_cairo_prover.Transcript.{
  Transcript, transcript_to_field, batch_sample_challenges, sample_z_ood,
}
use lambdaworks_cairo_prover.Air.Frame.{Frame, num_rows, frame_row}
use lambdaworks_cairo_prover.Air.Interface.{Air}
use lambdaworks_cairo_prover.Fri.Commit.{replay_commit_phase}
use lambdaworks_cairo_prover.Fri.QueryPhase.{sample_iotas}
use lambdaworks_cairo_prover.Stark.Backend.{Backend, Domain}
use lambdaworks_cairo_prover.Stark.Proof.{StarkProof}
use lambdaworks_cairo_prover.Stark.Commitments.{append_all}
use lambdaworks_cairo_prover.Stark.Prove.{sample_pairs, layer_evaluation}

pub record Challenges (F RapChallenges : Type 0) : Type 0 where
  pub z : F
  pub boundary_coeffs : List (F × F)
  pub transition_coeffs : List (F × F)
  pub trace_term_coeffs : List (List F)
  pub gamma_even : F
  pub gamma_odd : F
  pub zetas : List F
  pub iotas : List ℕ
  pub rap_challenges : RapChallenges

-- The values of a frame in the order of its rows; a width of 0 is a panic.
unfoldable pub frame_elements : {F : Type 0} → Frame F → Option (List F)
unfolding frame_row
frame_elements frame =
    if frame.row_width == 0 then none else flat_traverse (frame_row frame) (range (num_rows frame))

module _ {F T : Type 0} ⦃K : Field F⦄ (S : Transcript T) where
  -- `rows` lists of `width` challenges.
  unfoldable pub sample_rows : ℕ → ℕ → T → List (List F) × T
  sample_rows zero width t = ([], t)
  sample_rows (suc rows) width t =
      let (row, t₁) = batch_sample_challenges S width t in
      let (rest, t₂) = sample_rows rows width t₁ in (row ∷ rest, t₂)

module _ {F Tree AuthPath RawTrace RapChallenges PublicInput T : Type 0} ⦃K : Field F⦄
    (B : Backend F Tree AuthPath) (S : Transcript T)
    (air : Air F RawTrace RapChallenges PublicInput T) where
  -- The first round: the challenges of the auxiliary trace come between the two sorts of columns.
  unfoldable pub replay_round_1 : List F → T → RapChallenges × T
  replay_round_1 lde_trace_merkle_roots t =
      let main_columns = length lde_trace_merkle_roots - air.number_auxiliary_rap_columns in
      let (rap_challenges, t₁) =
        air.build_rap_challenges (append_all S (take main_columns lde_trace_merkle_roots) t) in
      (rap_challenges, append_all S (drop main_columns lde_trace_merkle_roots) t₁)

  -- The fourth round, from the coefficients of the DEEP polynomial to the queries.
  unfoldable pub replay_round_4 :
      StarkProof F AuthPath → Domain F → T → (F × F) × List (List F) × List F × List ℕ × T
  unfolding sample_rows
  replay_round_4 proof domain t =
      let (gamma_even, t₁) = transcript_to_field {F = F} S t in
      let (gamma_odd, t₂) = transcript_to_field {F = F} S t₁ in
      let (trace_term_coeffs, t₃) =
        sample_rows {F = F} S air.context.trace_columns (length air.context.transition_offsets)
          t₂ in
      let (zetas, t₄) =
        replay_commit_phase S (layer_evaluation B S air) B.build B.root
          proof.fri_layers_merkle_roots proof.fri_last_value t₃ in
      let (iotas, t₅) =
        sample_iotas S (2 ^ domain.lde_root_order) air.context.options.fri_number_of_queries t₄ in
      ((gamma_even, gamma_odd), trace_term_coeffs, zetas, iotas, t₅)

  -- The challenges, and the transcript as it is left. More auxiliary columns than roots is a panic.
  unfoldable pub step_1_replay_rounds_and_recover_challenges :
      ℕ → StarkProof F AuthPath → Domain F → T → Option (Challenges F RapChallenges × T)
  step_1_replay_rounds_and_recover_challenges fuel proof domain t =
      let n_trace_cols = air.context.trace_columns in
      let (rap_challenges, t₁) = replay_round_1 proof.lde_trace_merkle_roots t in
      let (boundary_coeffs, t₂) = sample_pairs B S air n_trace_cols t₁ in
      let (transition_coeffs, t₃) =
        sample_pairs B S air air.context.num_transition_constraints t₂ in
      and_then
        (sample_z_ood S fuel domain.lde_roots_of_unity_coset domain.trace_roots_of_unity (
          append_all S (proof.composition_poly_even_root ∷ proof.composition_poly_odd_root ∷ [])
            t₃))
        λ (z, t₄). and_then (frame_elements proof.trace_ood_frame_evaluations) λ elements.
          let t₅ =
            append_all S
              (proof.composition_poly_even_ood_evaluation
                ∷ proof.composition_poly_odd_ood_evaluation ∷ elements)
              t₄ in
          let (gammas, trace_term_coeffs, zetas, iotas, t₆) = replay_round_4 proof domain t₅ in
          if ltb (length proof.lde_trace_merkle_roots) air.number_auxiliary_rap_columns
          then none
          else some (
            record {
              z = z;
              boundary_coeffs = boundary_coeffs;
              transition_coeffs = transition_coeffs;
              trace_term_coeffs = trace_term_coeffs;
              gamma_even = gammas.0;
              gamma_odd = gammas.1;
              zetas = zetas;
              iotas = iotas;
              rap_challenges = rap_challenges;
            },
            t₆,
          )
