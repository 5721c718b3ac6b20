-- ===== src/Stark/RoundFour.antt =====
-- What the fourth round of a proof went through: the results of its parts.
use lambdaworks_cairo_prover.Prelude.{
  ℕ, ◌*◌, ◌≡◌, refl, subst, some, length, and_then-eq-some, some_injective,
}
use lambdaworks_cairo_prover.Field.{Field}
use lambdaworks_cairo_prover.Transcript.{Transcript, transcript_to_field, batch_sample_challenges}
use lambdaworks_cairo_prover.Air.Interface.{Air}
use lambdaworks_cairo_prover.Fri.Commit.{fri_commit_phase, roots_of}
use lambdaworks_cairo_prover.Fri.QueryPhase.{fri_query_phase}
use lambdaworks_cairo_prover.Stark.Backend.{Backend, Domain}
use lambdaworks_cairo_prover.Stark.Commitments.{Round1}
use lambdaworks_cairo_prover.Stark.Rounds.{
  Round2, Round3, compute_deep_composition_poly, open_deep_composition_poly,
}
use lambdaworks_cairo_prover.Stark.Prove.{
  Round4, layer_evaluation, round_4_compute_and_run_fri_on_the_deep_composition_polynomial,
}

module _ {F Tree AuthPath RawTrace RapChallenges PublicInput T : Type 0} ⦃K : Field F⦄
    (B : Backend F Tree AuthPath) (S : Transcript T)
    (air : Air F RawTrace RapChallenges PublicInput T) (domain : Domain F)
    (r1 : Round1 F Tree RapChallenges) (r2 : Round2 F Tree) (r3 : Round3 F) (z : F) where
  -- `t₃` is the transcript before FRI, `t₄` the one before its queries.
  pub record FourthRound (t' : T) (r4 : Round4 F Tree AuthPath) : Type 0 where
    pub t₃ : T
    pub t₄ : T
    pub iota_0 : ℕ
    pub deep :
        compute_deep_composition_poly B air r1.trace_polys r2 r3 z domain.trace_primitive_root
          r4.composition_poly_coefficients r4.trace_poly_coefficients
        ≡ some r4.deep_composition_poly
    pub committed :
        fri_commit_phase S
          (layer_evaluation B S air)
          B.build
          B.root
          domain.root_order
          r4.deep_composition_poly
          t₃
          (K.from air.context.options.coset_offset)
          (length domain.lde_roots_of_unity_coset)
        ≡ (r4.fri_last_value, r4.fri_layers, t₄)
    pub roots :
        r4.fri_layers_merkle_roots
        ≡ roots_of S (layer_evaluation B S air) B.build B.root r4.fri_layers
    pub queried :
        fri_query_phase S B.get_proof_by_pos air.context.options.fri_number_of_queries
          (length domain.lde_roots_of_unity_coset)
          r4.fri_layers
          t₄
        ≡ some (r4.query_list, iota_0, r4.iotas, t')
    pub opened : open_deep_composition_poly B domain r1 r2 iota_0 ≡ some r4.deep_poly_openings

  pub round_4-FourthRound :
      (t t' : T) (r4 : Round4 F Tree AuthPath)
      → round_4_compute_and_run_fri_on_the_deep_composition_polynomial B S air domain r1 r2 r3 z t
        ≡ some (r4, t')
      → FourthRound t' r4
  unfolding round_4_compute_and_run_fri_on_the_deep_composition_polynomial
  round_4-FourthRound t t' r4 h =
      let (gamma, t₁) = transcript_to_field {F = F} S t in
      let (gamma_p, t₂) = transcript_to_field {F = F} S t₁ in
      let (coefficients, t₃) =
        batch_sample_challenges {F = F} S
          (length air.context.transition_offsets * air.context.trace_columns) t₂ in
      let (deep, p, q) =
        and_then-eq-some
          (compute_deep_composition_poly B air r1.trace_polys r2 r3 z domain.trace_primitive_root
            (gamma, gamma_p) coefficients)
          _ h in
      let commit =
        fri_commit_phase S (layer_evaluation B S air) B.build B.root domain.root_order deep t₃
          (K.from air.context.options.coset_offset) (length domain.lde_roots_of_unity_coset) in
      let (w, p₁, q₁) =
        and_then-eq-some
          (fri_query_phase S B.get_proof_by_pos air.context.options.fri_number_of_queries
            (length domain.lde_roots_of_unity_coset) commit.1 commit.2)
          _ q in
      let (openings, p₂, q₂) =
        and_then-eq-some (open_deep_composition_poly B domain r1 r2 w.1) _ q₁ in
      subst (λ (v : Round4 F Tree AuthPath × T). FourthRound v.1 v.0) (some_injective q₂)
        (record {
          t₃ = t₃;
          t₄ = commit.2;
          iota_0 = w.1;
          deep = p;
          committed = refl;
          roots = refl;
          queried = p₁;
          opened = p₂;
        })
