-- ===== src/Stark/StepFour.antt =====
-- The fourth step of the verifier (verifier.rs) on a proof of the prover.
use native.Mathlib.Nat.{mul_comm}
use lambdaworks_cairo_prover.Prelude.{
  get_elem?_total, ℕ, ◌*◌, ◌≤◌, ◌<◌, ◌≡◌, ◌≢◌, refl, sym, ap, subst, ◌∙◌, arith, true, some, List,
  ◌∷◌, All, length, get_elem?, range, and_then-eq-some, some_injective, ok,
}
use lambdaworks_cairo_prover.Field.{Field, HasInverses, ◌⊗◌}
use lambdaworks_cairo_prover.Transcript.{Transcript}
use lambdaworks_cairo_prover.Air.Context.{AirContext}
use lambdaworks_cairo_prover.Air.Interface.{Air}
use lambdaworks_cairo_prover.Fri.Fold.{evaluate}
use lambdaworks_cairo_prover.Fri.Commit.{FriLayer, fri_layer_new, fri_commit_phase}
use lambdaworks_cairo_prover.Fri.Query.{FriDecommitment}
use lambdaworks_cairo_prover.Fri.QueryPhase.{fri_query_phase}
use lambdaworks_cairo_prover.Stark.Backend.{
  Backend, Domain, domain_new, HasPolynomials, HasTransforms, HasPaths, trailing_zeros,
}
use lambdaworks_cairo_prover.Stark.Prove.{Session, proof_of, prove_session, layer_evaluation}
use lambdaworks_cairo_prover.Stark.Proof.{StarkProof, DeepPolynomialOpenings}
use lambdaworks_cairo_prover.Stark.Verifier.{Challenges}
use lambdaworks_cairo_prover.Stark.Reconstruct.{reconstruct_deep_composition_poly_evaluation}
use lambdaworks_cairo_prover.Stark.Steps.{
  verify_trace_openings, step_4_verify_deep_composition_polynomial,
}
use lambdaworks_cairo_prover.Stark.RoundFour.{round_4-FourthRound}
use lambdaworks_cairo_prover.Stark.Sessions.{prove_session-Rounds}
use lambdaworks_cairo_prover.Stark.Recovered.{challenges_of}
use lambdaworks_cairo_prover.Stark.DeepValue.{
  reconstruct_deep_composition_poly_evaluation-prove_session,
}
use lambdaworks_cairo_prover.Stark.CommittedTrees.{Fits, size, randomize-TreesOf}
use lambdaworks_cairo_prover.Stark.Openings.{fri_query_phase-first}
use lambdaworks_cairo_prover.Stark.HonestOpenings.{
  round_2-HalvesCommitted, open_deep_composition_poly-Honest,
}

module _ {F Tree AuthPath : Type 0} ⦃K : Field F⦄ (B : Backend F Tree AuthPath) where
  -- What the domains are made of.
  pub domain_new_lem :
      (context : AirContext) (d : Domain F)
      → domain_new B context ≡ some d
      → (B.get_primitive_root_of_unity d.root_order ≡ some d.trace_primitive_root)
        × (B.get_powers_of_primitive_root_coset (trailing_zeros 64 (size d)) (size d) d.coset_offset
            ≡ some d.lde_roots_of_unity_coset)
        × (K.from context.options.coset_offset ≡ d.coset_offset)
  unfolding domain_new
  domain_new_lem context d h =
      let b = context.options.blowup_factor in
      let n = context.trace_length in
      let (root, p, q) =
        and_then-eq-some (B.get_primitive_root_of_unity (trailing_zeros 64 n)) _ h in
      let (roots, r, s) =
        and_then-eq-some (B.get_powers_of_primitive_root_coset (trailing_zeros 64 n) n K.one) _ q in
      let (coset, u, v) =
        and_then-eq-some
          (B.get_powers_of_primitive_root_coset (trailing_zeros 64 (n * b)) (n * b)
            (K.from context.options.coset_offset))
          _ s in
      subst
        (λ (d : Domain F).
          (B.get_primitive_root_of_unity d.root_order ≡ some d.trace_primitive_root)
          × (B.get_powers_of_primitive_root_coset (trailing_zeros 64 (size d)) (size d)
                d.coset_offset
              ≡ some d.lde_roots_of_unity_coset)
          × (K.from context.options.coset_offset ≡ d.coset_offset))
        (some_injective v)
        (
          p,
          ap
                (λ k.
                  B.get_powers_of_primitive_root_coset (trailing_zeros 64 k) k
                    (K.from context.options.coset_offset))
                (mul_comm b n)
              ∙ u,
          refl,
        )

  module _ {T : Type 0} (S : Transcript T) (ev : List F → F → ℕ → List F) where
    -- The first layer of FRI is that of the polynomial.
    fri_commit_phase-first :
        (n : ℕ) (p : List F) (t t' : T) (offset last : F) (count : ℕ)
        (layers : List (FriLayer F Tree))
        → fri_commit_phase S ev B.build B.root n p t offset count ≡ (last, layers, t')
        → (rest : List (FriLayer F Tree)) × (fri_layer_new S ev B.build B.root p offset count ∷ rest
            ≡ layers)
    unfolding fri_commit_phase
    fri_commit_phase-first n p t t' offset last count layers h =
        (_, ap (λ (v : F × List (FriLayer F Tree) × T). v.1) h)

  -- The checks of the step, one by one.
  step_4-checks :
      {RapChallenges : Type 0} (proof : StarkProof F AuthPath) (d : Domain F)
      (c : Challenges F RapChallenges) (iota_0 : ℕ) (root upsilon_0 value : F)
      (query : FriDecommitment F AuthPath)
      → get_elem? c.iotas 0 ≡ some iota_0
      → B.get_primitive_root_of_unity d.root_order ≡ some root
      → get_elem? d.lde_roots_of_unity_coset iota_0 ≡ some upsilon_0
      → reconstruct_deep_composition_poly_evaluation root upsilon_0 proof c ≡ some value
      → get_elem? proof.query_list 0 ≡ some query
      → B.verify proof.deep_poly_openings.lde_composition_poly_even_proof
          proof.composition_poly_even_root iota_0
          proof.deep_poly_openings.lde_composition_poly_even_evaluation
        ≡ true
      → B.verify proof.deep_poly_openings.lde_composition_poly_odd_proof
          proof.composition_poly_odd_root iota_0
          proof.deep_poly_openings.lde_composition_poly_odd_evaluation
        ≡ true
      → verify_trace_openings B proof.lde_trace_merkle_roots
          proof.deep_poly_openings.lde_trace_merkle_proofs iota_0
          proof.deep_poly_openings.lde_trace_evaluations
        ≡ true
      → query.first_layer_evaluation ≡ value
      → step_4_verify_deep_composition_polynomial B proof d c ≡ some true
  unfolding step_4_verify_deep_composition_polynomial
  step_4-checks proof d c iota_0 root upsilon_0 value query p q r s u even odd trace same =
      let claimed : K.beq query.first_layer_evaluation value ≡ true =
        (K.beq_iff query.first_layer_evaluation value).1 same in
      rw (p, q, r, s, u, even, odd, trace, claimed) refl

  -- Openings with their own values.
  same_openings :
      (o : DeepPolynomialOpenings F AuthPath) (even odd : F) (row : List F)
      → even ≡ o.lde_composition_poly_even_evaluation
      → odd ≡ o.lde_composition_poly_odd_evaluation
      → row ≡ o.lde_trace_evaluations
      → record o {
        lde_composition_poly_even_evaluation = even;
        lde_composition_poly_odd_evaluation = odd;
        lde_trace_evaluations = row;
      }
        ≡ o
  same_openings o even odd row p q r = rw (p, q, r) refl

module _ {F Tree AuthPath : Type 0} ⦃K : Field F⦄ (V : HasInverses K) (B : Backend F Tree AuthPath)
    (P : HasPolynomials K B) (L : HasTransforms K B) (M : HasPaths B) where
  -- The value of the first layer of FRI at a place of the extended domain is that of its polynomial.
  first_layer_value :
      {T : Type 0} (S : Transcript T) (domain : Domain F) (deep : List F) (i : ℕ) (x v : F)
      → length deep ≤ length domain.lde_roots_of_unity_coset
      → B.get_powers_of_primitive_root_coset
          (trailing_zeros 64 (size domain))
          (size domain)
          domain.coset_offset
        ≡ some domain.lde_roots_of_unity_coset
      → get_elem? domain.lde_roots_of_unity_coset i ≡ some x
      → get_elem?
          (B.evaluate_offset_fft deep 1
            (length domain.lde_roots_of_unity_coset)
            domain.coset_offset)
          i
        ≡ some v
      → v ≡ evaluate deep x
  first_layer_value S domain deep i x v fits coset point at =
      let count : size domain ≡ 1 * length domain.lde_roots_of_unity_coset =
        sym (
          L.length-get_powers_of_primitive_root_coset (trailing_zeros 64 (size domain))
            (size domain) domain.coset_offset domain.lde_roots_of_unity_coset coset)
        ∙ omega arith in
      some_injective (
        sym at
        ∙ L.get_elem?-evaluate_offset_fft deep 1 (length domain.lde_roots_of_unity_coset)
            domain.coset_offset domain.lde_roots_of_unity_coset i x fits
            (ap
                (λ k.
                  B.get_powers_of_primitive_root_coset (trailing_zeros 64 k) k domain.coset_offset)
                (sym count)
              ∙ coset)
            point)

  module _ {RawTrace RapChallenges PublicInput T : Type 0} (S : Transcript T)
      (air : Air F RawTrace RapChallenges PublicInput T) where
    -- In a field with inverses, with polynomials, transforms and Merkle paths as documented: if the
    -- prover makes a proof without error, its AIR has the transition offsets 0 .. n - 1 and as many
    -- columns, not zero, as there are trace polynomials, the trace polynomials and both parts of the
    -- composition polynomial have no more coefficients than the trace has rows and the DEEP
    -- polynomial no more than the extended domain has points, and the point of the first query is
    -- neither z squared nor z times one of the first n powers of the root of unity, then the
    -- verifier's fourth step, with the challenges of the prover, returns true on that proof.
    pub step_4_verify_deep_composition_polynomial-prove_session :
        (fuel : ℕ) (raw_trace : RawTrace) (public_input public_input' : PublicInput) (t : T)
        (s : Session F Tree AuthPath RapChallenges T) (zetas : List F) (n : ℕ)
        → prove_session B S air fuel raw_trace public_input t ≡ some (public_input', ok s)
        → air.context.transition_offsets ≡ range n
        → length s.round_1_result.trace_polys ≡ air.context.trace_columns
        → 0 < air.context.trace_columns
        → All (Fits s.domain) s.round_1_result.trace_polys
        → Fits s.domain s.round_2_result.composition_poly_even
        → Fits s.domain s.round_2_result.composition_poly_odd
        → length s.round_4_result.deep_composition_poly ≤ length s.domain.lde_roots_of_unity_coset
        → ((iota_0 : ℕ) (x : F)
            → get_elem? s.round_4_result.iotas 0 ≡ some iota_0
            → get_elem? s.domain.lde_roots_of_unity_coset iota_0 ≡ some x
            → (x ≢ s.z ⊗ s.z) × ((k : ℕ) → k < n → x ≢ s.z ⊗ K.pow s.domain.trace_primitive_root k))
        → step_4_verify_deep_composition_polynomial B
            (proof_of s)
            s.domain
            (challenges_of B S air s zetas)
          ≡ some true
    unfolding proof_of fri_layer_new
    step_4_verify_deep_composition_polynomial-prove_session fuel raw_trace public_input
          public_input' t s zetas n h offsets columns pos fits even_fits odd_fits deep_fits
          outside =
        let (d, main_trace, t₁, built, first, rounds) =
          prove_session-Rounds B S air fuel raw_trace public_input public_input' t s h in
        let fourth =
          round_4-FourthRound B S air s.domain s.round_1_result s.round_2_result s.round_3_result
            s.z _ s.transcript s.round_4_result rounds.fourth in
        let (root, coset, offset) = domain_new_lem B air.context s.domain d in
        let (evals, table, trees) =
          randomize-TreesOf B L s.domain S air main_trace public_input' t s.round_1_result t₁ first
            fits in
        let halves =
          round_2-HalvesCommitted B s.domain air s.round_1_result public_input' s.transition_coeffs
            s.boundary_coeffs s.round_2_result rounds.second in
        let deep = s.round_4_result.deep_composition_poly in
        let (rest, layers) =
          fri_commit_phase-first B S (layer_evaluation B S air) s.domain.root_order deep fourth.t₃
            fourth.t₄ (K.from air.context.options.coset_offset) s.round_4_result.fri_last_value
            (length s.domain.lde_roots_of_unity_coset) s.round_4_result.fri_layers
            fourth.committed in
        let (drawn, within, query, first_query, at) =
          fri_query_phase-first S B.get_proof_by_pos air.context.options.fri_number_of_queries
            (length s.domain.lde_roots_of_unity_coset) _ rest fourth.t₄ s.transcript
            s.round_4_result.query_list fourth.iota_0 s.round_4_result.iotas
            (ap
                (λ l.
                  fri_query_phase S B.get_proof_by_pos air.context.options.fri_number_of_queries
                    (length s.domain.lde_roots_of_unity_coset) l fourth.t₄)
                layers
              ∙ fourth.queried) in
        let (x, point) = get_elem?_total s.domain.lde_roots_of_unity_coset fourth.iota_0 within in
        let (not_square, not_shifted) = outside fourth.iota_0 x drawn point in
        let (even_path, odd_path, trace_paths, even, odd, row) =
          open_deep_composition_poly-Honest B L M s.domain coset fourth.iota_0 x point within
            s.round_1_result s.round_2_result s.round_4_result.deep_poly_openings evals table trees
            halves fits even_fits odd_fits fourth.opened in
        let value =
          ap
            (λ o.
              reconstruct_deep_composition_poly_evaluation s.domain.trace_primitive_root x
                (record (proof_of s) { deep_poly_openings = o }) (challenges_of B S air s zetas))
            (sym (same_openings B s.round_4_result.deep_poly_openings _ _ _ even odd row))
          ∙ reconstruct_deep_composition_poly_evaluation-prove_session V B P S air fuel raw_trace
              public_input public_input' t s zetas n x h offsets columns pos not_square
              not_shifted in
        let claimed =
          first_layer_value S s.domain deep fourth.iota_0 x query.first_layer_evaluation deep_fits
            coset point
            (ap
                (λ c.
                  get_elem?
                    (B.evaluate_offset_fft deep 1 (length s.domain.lde_roots_of_unity_coset) c)
                    fourth.iota_0)
                (sym offset)
              ∙ at) in
        step_4-checks B (proof_of s) s.domain (challenges_of B S air s zetas) fourth.iota_0
          s.domain.trace_primitive_root x (evaluate deep x) query drawn root point value first_query
          even_path odd_path trace_paths claimed
