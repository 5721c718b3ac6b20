-- ===== src/Stark/StepThree.antt =====
-- The third step of the verifier (verifier.rs) on a proof of the prover: the queries of FRI.
use native.Mathlib.Nat.{pow-le-pow_right}
use lambdaworks_cairo_prover.Prelude.{
  ℕ, zero, suc, ◌^◌, ◌≤◌, ◌<◌, ◌≡◌, ◌≢◌, sym, ap, subst, ◌∙◌, arith, true, some, List, map, length,
  ok,
}
use lambdaworks_cairo_prover.Field.{Field, HasInverses}
use lambdaworks_cairo_prover.Transcript.{Transcript}
use lambdaworks_cairo_prover.Air.Interface.{Air}
use lambdaworks_cairo_prover.Fri.Commit.{FriLayer, FoldedBy, fri_commit_phase}
use lambdaworks_cairo_prover.Fri.Query.{FriDecommitment}
use lambdaworks_cairo_prover.Fri.QueryPhase.{fri_query_phase}
use lambdaworks_cairo_prover.Stark.Backend.{Backend, HasTransforms, HasRoots, HasPaths}
use lambdaworks_cairo_prover.Stark.Prove.{Session, proof_of, prove_session, layer_evaluation}
use lambdaworks_cairo_prover.Stark.Steps.{verify_queries, step_3_verify_fri}
use lambdaworks_cairo_prover.Stark.RoundFour.{round_4-FourthRound}
use lambdaworks_cairo_prover.Stark.Sessions.{prove_session-Rounds}
use lambdaworks_cairo_prover.Stark.Recovered.{challenges_of}
use lambdaworks_cairo_prover.Stark.Layers.{fri_commit_phase-Layered}
use lambdaworks_cairo_prover.Stark.HonestQueries.{fri_query_phase-opened, queries_lem}

module _ {F Tree AuthPath RawTrace RapChallenges PublicInput T : Type 0} ⦃K : Field F⦄
    (V : HasInverses K) (B : Backend F Tree AuthPath) (L : HasTransforms K B) (R : HasRoots K B)
    (M : HasPaths B) (S : Transcript T) (air : Air F RawTrace RapChallenges PublicInput T)
    (two : K.from 2 ≢ K.zero) where
  -- FRI on its own: what is committed and opened is accepted.
  phases_accepted :
      (n order queries offset : ℕ) (p : List F) (t t₁ t₂ : T) (last w : F) (zetas : List F)
      (layers : List (FriLayer F Tree)) (query_list : List (FriDecommitment F AuthPath))
      (iota_0 : ℕ) (iotas : List ℕ)
      → 0 < n
      → n ≤ order
      → order < 64
      → length p ≤ 2 ^ n
      → B.get_primitive_root_of_unity order ≡ some w
      → K.from offset ≢ K.zero
      → FoldedBy layers zetas last
      → fri_commit_phase S
          (layer_evaluation B S air)
          B.build
          B.root
          n
          p
          t
          (K.from offset)
          (2 ^ order)
        ≡ (last, layers, t₁)
      → fri_query_phase S B.get_proof_by_pos queries (2 ^ order) layers t₁
        ≡ some (query_list, iota_0, iotas, t₂)
      → verify_queries B order offset w
          (map (λ (l : FriLayer F Tree). B.root l.merkle_tree) layers)
          last
          zetas
          query_list
          iotas
          true
        ≡ some true
  phases_accepted n zero queries offset p t t₁ t₂ last w zetas layers query_list iota_0 iotas pos
        few small short root ne folds committed queried =
      absurd (omega arith)
  phases_accepted n (suc order) queries offset p t t₁ t₂ last w zetas layers query_list iota_0 iotas
        pos few small short root ne folds committed queried =
      let two_pos : 0 < 2 = omega arith in
      let (first, rest, made, same, count, layered) =
        fri_commit_phase-Layered B S n order p t t₁ (K.from offset) last layers few
          (omega (arith, short, pow-le-pow_right two_pos few)) committed in
      let whole : 0 < 2 ^ suc order =
        omega (arith, pow-le-pow_right two_pos {i = 0} {j = suc order} (omega arith)) in
      let (within, opened) =
        fri_query_phase-opened S B.get_proof_by_pos queries (2 ^ suc order) first rest t₁ t₂
          query_list iota_0 iotas whole
          (subst
            (λ ls.
              fri_query_phase S B.get_proof_by_pos queries (2 ^ suc order) ls t₁
              ≡ some (query_list, iota_0, iotas, t₂))
            made queried) in
      let counted : n ≡ suc (length rest) = omega arith in
      subst
        (λ ls.
          verify_queries B (suc order) offset w
            (map (λ (l : FriLayer F Tree). B.root l.merkle_tree) ls) last zetas query_list iotas
            true
          ≡ some true)
        (sym made)
        (queries_lem V B L R M S two order offset w last zetas first rest small root ne layered
          (subst (λ ls. FoldedBy ls zetas last) made folds)
          (subst (λ q. length q ≤ 2 ^ suc (length rest)) (sym same)
            (subst (λ k. length p ≤ 2 ^ k) counted short))
          iotas query_list within opened)

  -- In a field with inverses where two is not zero, with transforms, roots of unity and Merkle paths
  -- as documented: if the prover makes a proof without error, the extended domain has 2 ^ its order
  -- points, an order below 64 for which there is a root of unity, the order of the trace is neither
  -- zero nor more than that, the DEEP polynomial has no more than 2 ^ the order of the trace
  -- coefficients, the offset of the coset is not zero, and the layers of FRI are folded by the
  -- challenges zetas down to the last value, then the verifier's third step, with the challenges of
  -- the prover and these, returns true on that proof: every query is accepted.
  pub step_3_verify_fri-prove_session :
      (fuel : ℕ) (raw_trace : RawTrace) (public_input public_input' : PublicInput) (t : T)
      (s : Session F Tree AuthPath RapChallenges T) (zetas : List F) (w : F)
      → prove_session B S air fuel raw_trace public_input t ≡ some (public_input', ok s)
      → length s.domain.lde_roots_of_unity_coset ≡ 2 ^ s.domain.lde_root_order
      → s.domain.lde_root_order < 64
      → B.get_primitive_root_of_unity s.domain.lde_root_order ≡ some w
      → 0 < s.domain.root_order
      → s.domain.root_order ≤ s.domain.lde_root_order
      → length s.round_4_result.deep_composition_poly ≤ 2 ^ s.domain.root_order
      → K.from air.context.options.coset_offset ≢ K.zero
      → FoldedBy s.round_4_result.fri_layers zetas s.round_4_result.fri_last_value
      → step_3_verify_fri B air (proof_of s) s.domain (challenges_of B S air s zetas) ≡ some true
  unfolding proof_of step_3_verify_fri
  step_3_verify_fri-prove_session fuel raw_trace public_input public_input' t s zetas w h size small
        root pos few short ne folds =
      let (d, main_trace, t₁, built, first, rounds) =
        prove_session-Rounds B S air fuel raw_trace public_input public_input' t s h in
      let fourth =
        round_4-FourthRound B S air s.domain s.round_1_result s.round_2_result s.round_3_result s.z
          _ s.transcript s.round_4_result rounds.fourth in
      let options = air.context.options in
      let accepted =
        phases_accepted s.domain.root_order s.domain.lde_root_order options.fri_number_of_queries
          options.coset_offset s.round_4_result.deep_composition_poly fourth.t₃ fourth.t₄
          s.transcript s.round_4_result.fri_last_value w zetas s.round_4_result.fri_layers
          s.round_4_result.query_list fourth.iota_0 s.round_4_result.iotas pos few small short root
          ne folds
          (ap
              (fri_commit_phase S (layer_evaluation B S air) B.build B.root s.domain.root_order
                s.round_4_result.deep_composition_poly fourth.t₃ (K.from options.coset_offset))
              (sym size)
            ∙ fourth.committed)
          (ap
              (λ n.
                fri_query_phase S B.get_proof_by_pos options.fri_number_of_queries n
                  s.round_4_result.fri_layers fourth.t₄)
              (sym size)
            ∙ fourth.queried) in
      rw (root, fourth.roots) accepted
