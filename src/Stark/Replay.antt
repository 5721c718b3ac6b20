-- ===== src/Stark/Replay.antt =====
-- The verifier's first step on a proof of the prover.
use lambdaworks_cairo_prover.Prelude.{
  ℕ, ◌*◌, ◌^◌, ◌≡◌, refl, sym, ap, ap₂, subst, ◌∙◌, if-cases, inl, inr, Option, some, List, ◌∷◌,
  length, get_elem?, traverse, and_then-eq-some, some_injective, ◌==◌,
}
use lambdaworks_cairo_prover.Field.{Field}
use lambdaworks_cairo_prover.Transcript.{Transcript, transcript_to_field, batch_sample_challenges}
use lambdaworks_cairo_prover.Air.Interface.{Air}
use lambdaworks_cairo_prover.Fri.Commit.{
  FriLayer, fri_commit_phase, replay_commit_phase, roots_of, FoldedBy,
}
use lambdaworks_cairo_prover.Fri.Replay.{replay_commit_phase-fri_commit_phase}
use lambdaworks_cairo_prover.Fri.Query.{FriDecommitment}
use lambdaworks_cairo_prover.Fri.QueryPhase.{fri_query_phase, open_query, sample_iotas}
use lambdaworks_cairo_prover.Stark.Backend.{Backend, Domain}
use lambdaworks_cairo_prover.Stark.Proof.{StarkProof}
use lambdaworks_cairo_prover.Stark.Commitments.{Round1}
use lambdaworks_cairo_prover.Stark.Rounds.{
  Round2, Round3, compute_deep_composition_poly, open_deep_composition_poly,
}
use lambdaworks_cairo_prover.Stark.Prove.{
  Round4, layer_evaluation, round_4_compute_and_run_fri_on_the_deep_composition_polynomial,
}
use lambdaworks_cairo_prover.Stark.Verifier.{sample_rows, replay_round_4}
use lambdaworks_cairo_prover.Stark.Sampling.{chunks, sample_rows-batch_sample_challenges}

module _ {F Tree AuthPath T : Type 0} (S : Transcript T)
    (get_proof_by_pos : Tree → ℕ → Option AuthPath) where
  -- The queries of the prover are opened at the challenges that it draws.
  pub fri_query_phase-sample_iotas :
      (n domain_size : ℕ) (l : FriLayer F Tree) (layers : List (FriLayer F Tree)) (t t' : T)
      (queries : List (FriDecommitment F AuthPath)) (iota_0 : ℕ) (iotas : List ℕ)
      → fri_query_phase S get_proof_by_pos n domain_size (l ∷ layers) t
        ≡ some (queries, iota_0, iotas, t')
      → (sample_iotas S domain_size n t ≡ (iotas, t'))
        × (traverse (open_query S get_proof_by_pos l (l ∷ layers)) iotas ≡ some queries)
        × (get_elem? iotas 0 ≡ some iota_0)
  unfolding fri_query_phase
  fri_query_phase-sample_iotas n domain_size l layers t t' queries iota_0 iotas h =
      elim (if-cases (domain_size == 0) _ _ h) [
        | inl (e, taken) ↦ cc
        | inr (e, taken) ↦
            let drawn = sample_iotas S domain_size n t in
            let (queries', p, q) =
              and_then-eq-some (traverse (open_query S get_proof_by_pos l (l ∷ layers)) drawn.0) _
                taken in
            let (first, r, s) = and_then-eq-some (get_elem? drawn.0 0) _ q in
            subst
              (λ (w : List (FriDecommitment F AuthPath) × ℕ × List ℕ × T).
                (drawn ≡ (w.2, w.3))
                × (traverse (open_query S get_proof_by_pos l (l ∷ layers)) w.2 ≡ some w.0)
                × (get_elem? w.2 0 ≡ some w.1))
              (some_injective s) (refl, p, r)
      ]

module _ {F Tree AuthPath RawTrace RapChallenges PublicInput T : Type 0} ⦃K : Field F⦄
    (B : Backend F Tree AuthPath) (S : Transcript T)
    (air : Air F RawTrace RapChallenges PublicInput T) where
  replay_round_4-parts :
      (proof : StarkProof F AuthPath) (domain : Domain F) (t t₃ t₄ t₅ : T) (rows : List (List F))
      (zetas : List F) (iotas : List ℕ)
      → sample_rows {F = F} S air.context.trace_columns
          (length air.context.transition_offsets)
          (transcript_to_field {F = F} S (transcript_to_field {F = F} S t).1).1
        ≡ (rows, t₃)
      → replay_commit_phase S
          (layer_evaluation B S air)
          B.build
          B.root
          proof.fri_layers_merkle_roots
          proof.fri_last_value
          t₃
        ≡ (zetas, t₄)
      → sample_iotas S (2 ^ domain.lde_root_order) air.context.options.fri_number_of_queries t₄
        ≡ (iotas, t₅)
      → replay_round_4 B S air proof domain t ≡ (
        (
          (transcript_to_field {F = F} S t).0,
          (transcript_to_field {F = F} S (transcript_to_field {F = F} S t).1).0,
        ),
        rows,
        zetas,
        iotas,
        t₅,
      )
  unfolding replay_round_4
  replay_round_4-parts proof domain t t₃ t₄ t₅ rows zetas iotas h₁ h₂ h₃ = rw (h₁, h₂, h₃) refl

  -- The verifier's replay of the fourth round.
  pub replay_round_4_lem :
      (domain : Domain F) (r1 : Round1 F Tree RapChallenges) (r2 : Round2 F Tree) (r3 : Round3 F)
      (z : F) (t t' : T) (r4 : Round4 F Tree AuthPath) (proof : StarkProof F AuthPath)
      → length domain.lde_roots_of_unity_coset ≡ 2 ^ domain.lde_root_order
      → round_4_compute_and_run_fri_on_the_deep_composition_polynomial B S air domain r1 r2 r3 z t
        ≡ some (r4, t')
      → proof.fri_layers_merkle_roots ≡ r4.fri_layers_merkle_roots
      → proof.fri_last_value ≡ r4.fri_last_value
      → (zetas : List F) × (replay_round_4 B S air proof domain t ≡ (
        r4.composition_poly_coefficients,
        chunks air.context.trace_columns
            (length air.context.transition_offsets)
            r4.trace_poly_coefficients,
        zetas,
        r4.iotas,
        t',
      ))
        × FoldedBy r4.fri_layers zetas r4.fri_last_value
  unfolding round_4_compute_and_run_fri_on_the_deep_composition_polynomial fri_commit_phase
  replay_round_4_lem domain r1 r2 r3 z t t' r4 proof size h roots last =
      let (gamma, t₁) = transcript_to_field {F = F} S t in
      let (gamma_p, t₂) = transcript_to_field {F = F} S t₁ in
      let (coefficients, t₃) =
        batch_sample_challenges {F = F} S
          (length air.context.transition_offsets * air.context.trace_columns) t₂ in
      let (deep, p, q) =
        and_then-eq-some
          (compute_deep_composition_poly B air r1.trace_polys r2 r3 z domain.trace_primitive_root
            (gamma, gamma_p) coefficients)
          _ h in
      let layer = layer_evaluation B S air in
      let commit =
        fri_commit_phase S layer B.build B.root domain.root_order deep t₃
          (K.from air.context.options.coset_offset) (length domain.lde_roots_of_unity_coset) in
      let (w, p₁, q₁) =
        and_then-eq-some
          (fri_query_phase S B.get_proof_by_pos air.context.options.fri_number_of_queries
            (length domain.lde_roots_of_unity_coset) commit.1 commit.2)
          _ q in
      let (openings, p₂, q₂) =
        and_then-eq-some (open_deep_composition_poly B domain r1 r2 w.1) _ q₁ in
      let (ended, folded) =
        replay_commit_phase-fri_commit_phase S layer B.build B.root domain.root_order deep t₃
          (K.from air.context.options.coset_offset) (length domain.lde_roots_of_unity_coset) in
      let roots₀ = roots_of S layer B.build B.root commit.1 in
      let replay = replay_commit_phase S layer B.build B.root roots₀ commit.0 t₃ in
      let drawn : sample_iotas S (2 ^ domain.lde_root_order)
            air.context.options.fri_number_of_queries commit.2
          ≡ (w.2, w.3) =
        ap (λ n. sample_iotas S n air.context.options.fri_number_of_queries commit.2) (sym size)
        ∙ (fri_query_phase-sample_iotas S B.get_proof_by_pos
            air.context.options.fri_number_of_queries (length domain.lde_roots_of_unity_coset) _ _
            commit.2 w.3 w.0 w.1 w.2 p₁).0 in
      subst
        (λ (v : Round4 F Tree AuthPath × T).
          proof.fri_layers_merkle_roots ≡ v.0.fri_layers_merkle_roots
          → proof.fri_last_value ≡ v.0.fri_last_value
          → (zetas : List F) × (replay_round_4 B S air proof domain t ≡ (
            v.0.composition_poly_coefficients,
            chunks air.context.trace_columns (length air.context.transition_offsets)
                v.0.trace_poly_coefficients,
            zetas,
            v.0.iotas,
            v.1,
          ))
            × FoldedBy v.0.fri_layers zetas v.0.fri_last_value)
        (some_injective q₂)
        (λ roots' last'. (
          replay.0,
          replay_round_4-parts proof domain t t₃ commit.2 w.3
              (chunks air.context.trace_columns (length air.context.transition_offsets)
                coefficients)
              replay.0 w.2
              (sample_rows-batch_sample_challenges S air.context.trace_columns
                (length air.context.transition_offsets) t₂)
              (ap₂ (λ a b. replay_commit_phase S layer B.build B.root a b t₃) roots' last'
                ∙ ap (λ u. (replay.0, u)) ended)
              drawn,
          folded,
        ))
        roots last
