-- ===== src/Fri/Replay.antt =====
-- The verifier's replay of the FRI commit phase.
use lambdaworks_cairo_prover.Prelude.{ℕ, zero, suc, ◌-◌, ◌/◌, ◌≡◌, refl, ap, List, ◌∷◌, get_or}
use lambdaworks_cairo_prover.Field.{Field}
use lambdaworks_cairo_prover.Transcript.{Transcript, transcript_to_field}
use lambdaworks_cairo_prover.Fri.Fold.{fold_polynomial}
use lambdaworks_cairo_prover.Fri.Commit.{
  FriLayer, fri_layer_new, commit_loop, fri_commit_phase, sample_zetas, replay_commit_phase,
  FoldedBy, roots_of, send,
}

module _ {F Tree T : Type 0} ⦃K : Field F⦄ (S : Transcript T) (fft : List F → F → ℕ → List F)
    (build : List F → Tree) (root : Tree → F) where
  commit_loop-replay :
      (n : ℕ) (l : FriLayer F Tree) (t : T)
      → (let (layers, last_layer, t₁) =
            commit_loop S fft build root n l (send S fft build root (root l.merkle_tree) t) in
          let (zeta, t₂) = transcript_to_field {F = F} S t₁ in
          let (zetas, t₃) =
            sample_zetas S fft build root (roots_of S fft build root (l ∷ layers)) t in
          (t₃ ≡ t₂)
          × FoldedBy (l ∷ layers) zetas (get_or (fold_polynomial last_layer.poly zeta) 0 K.zero))
  unfolding commit_loop sample_zetas
  commit_loop-replay zero l t = (refl, refl)
  commit_loop-replay (suc n) l t =
      let (zeta, t₁) =
        transcript_to_field {F = F} S (send S fft build root (root l.merkle_tree) t) in
      let ih =
        commit_loop-replay n
          (fri_layer_new S fft build root (fold_polynomial l.poly zeta)
            (K.mul l.coset_offset l.coset_offset) (l.domain_size / 2))
          t₁ in
      (ih.0, (refl, ih.1))

  -- The verifier that replays the roots and the last value of a FRI commitment, from the transcript
  -- that the prover started from, ends with the transcript that the prover ended with, and its
  -- challenges are those that the prover folded by: each layer's polynomial is the one before folded
  -- by its challenge, and the last value is the constant coefficient of the last folding.
  pub replay_commit_phase-fri_commit_phase :
      (number_layers : ℕ) (p_0 : List F) (t : T) (coset_offset : F) (domain_size : ℕ)
      → (let (last_value, layers, t₁) =
            fri_commit_phase S fft build root number_layers p_0 t coset_offset domain_size in
          let (zetas, t₂) =
            replay_commit_phase S fft build root (roots_of S fft build root layers) last_value t in
          (t₂ ≡ t₁) × FoldedBy layers zetas last_value)
  unfolding fri_commit_phase replay_commit_phase
  replay_commit_phase-fri_commit_phase number_layers p_0 t coset_offset domain_size =
      let (same, folded) =
        commit_loop-replay (number_layers - 1)
          (fri_layer_new S fft build root p_0 coset_offset domain_size) t in
      (ap (send S fft build root _) same, folded)
