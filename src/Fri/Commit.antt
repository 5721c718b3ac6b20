-- ===== src/Fri/Commit.antt =====
-- fri/mod.rs, `fri_commit_phase`, with fri/fri_commitment.rs, and the replay of its challenges in
-- verifier.rs, step 1. The Merkle tree and the evaluation of a polynomial on a coset, both of other
-- crates, are parameters.
use lambdaworks_cairo_prover.Prelude.{ℕ, zero, suc, ◌-◌, ◌/◌, ◌≡◌, List, [], ◌∷◌, map, get_or}
use lambdaworks_cairo_prover.Field.{Field, ◌⊗◌}
use lambdaworks_cairo_prover.Transcript.{Transcript, transcript_to_field}
use lambdaworks_cairo_prover.Fri.Fold.{fold_polynomial}

pub record FriLayer (F Tree : Type 0) : Type 0 where
  pub poly : List F
  pub evaluation : List F
  pub merkle_tree : Tree
  pub coset_offset : F
  pub domain_size : ℕ

module _ {F Tree T : Type 0} ⦃K : Field F⦄ (S : Transcript T)
    (evaluate_offset_fft : List F → F → ℕ → List F) (build : List F → Tree) (root : Tree → F) where
  unfoldable pub fri_layer_new : List F → F → ℕ → FriLayer F Tree
  fri_layer_new poly coset_offset domain_size =
      let evaluation = evaluate_offset_fft poly coset_offset domain_size in
      record {
        poly = poly;
        evaluation = evaluation;
        merkle_tree = build evaluation;
        coset_offset = coset_offset;
        domain_size = domain_size;
      }

  -- `transcript.append` of a root.
  abbrev pub send : F → T → T
  send value t = S.append (K.to_bytes_be value) t

  -- The loop over the further layers: the layers that it pushes, the last layer and the transcript.
  unfoldable pub commit_loop :
      ℕ → FriLayer F Tree → T → List (FriLayer F Tree) × FriLayer F Tree × T
  unfolding fri_layer_new
  commit_loop zero current_layer t = ([], current_layer, t)
  commit_loop (suc n) current_layer t =
      let (zeta, t₁) = transcript_to_field S t in
      let next =
        fri_layer_new (fold_polynomial current_layer.poly zeta)
          (current_layer.coset_offset ⊗ current_layer.coset_offset)
          (current_layer.domain_size / 2) in
      let (layers, last_layer, t₂) = commit_loop n next (send (root next.merkle_tree) t₁) in
      (next ∷ layers, last_layer, t₂)

  unfoldable pub fri_commit_phase : ℕ → List F → T → F → ℕ → F × List (FriLayer F Tree) × T
  unfolding commit_loop
  fri_commit_phase number_layers p_0 t coset_offset domain_size =
      let first = fri_layer_new p_0 coset_offset domain_size in
      let (layers, current_layer, t₁) =
        commit_loop (number_layers - 1) first (send (root first.merkle_tree) t) in
      let (zeta, t₂) = transcript_to_field S t₁ in
      let last_value = get_or (fold_polynomial current_layer.poly zeta) 0 K.zero in
      (last_value, first ∷ layers, send last_value t₂)

  -- The verifier: each root is received and a challenge drawn.
  unfoldable pub sample_zetas : List F → T → List F × T
  sample_zetas [] t = ([], t)
  sample_zetas (merkle_root ∷ roots) t =
      let (zeta, t₁) = transcript_to_field S (send merkle_root t) in
      let (zetas, t₂) = sample_zetas roots t₁ in (zeta ∷ zetas, t₂)

  unfoldable pub replay_commit_phase : List F → F → T → List F × T
  unfolding sample_zetas
  replay_commit_phase roots fri_last_value t =
      let (zetas, t₁) = sample_zetas roots t in (zetas, send fri_last_value t₁)

  abbrev pub roots_of : List (FriLayer F Tree) → List F
  roots_of layers = map (λ (l : FriLayer F Tree). root l.merkle_tree) layers

-- The polynomials of the layers are folded by the challenges, and the last folding has the last value.
module _ {F Tree : Type 0} ⦃K : Field F⦄ where
  abbrev pub FoldedBy : List (FriLayer F Tree) → List F → F → Type 0
  FoldedBy (l ∷ []) (zeta ∷ []) last_value =
      last_value ≡ get_or (fold_polynomial l.poly zeta) 0 K.zero
  FoldedBy (l ∷ m ∷ layers) (zeta ∷ zetas) last_value =
      (m.poly ≡ fold_polynomial l.poly zeta) × FoldedBy (m ∷ layers) zetas last_value
  FoldedBy _ _ last_value = ⊥
