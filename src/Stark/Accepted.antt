-- ===== src/Stark/Accepted.antt =====
-- What a proof that the verifier accepts went through (verifier.rs).
use lambdaworks_cairo_prover.Prelude.{
  ℕ, ◌≡◌, refl, sym, ap, ◌∙◌, inl, inr, Bool, true, false, ◌&&◌, some, List, [], ◌∷◌, get_elem?,
  and_then-eq-some, some_injective, if-cases,
}
use lambdaworks_cairo_prover.Field.{Field, ◌⊕◌, ◌⊗◌}
use lambdaworks_cairo_prover.Transcript.{Transcript}
use lambdaworks_cairo_prover.Air.Interface.{Air}
use lambdaworks_cairo_prover.Fri.Query.{FriDecommitment, verify_query_and_sym_openings}
use lambdaworks_cairo_prover.Stark.Backend.{Backend, Domain, domain_new}
use lambdaworks_cairo_prover.Stark.Proof.{StarkProof}
use lambdaworks_cairo_prover.Stark.Reconstruct.{reconstruct_deep_composition_poly_evaluation}
use lambdaworks_cairo_prover.Stark.Verifier.{
  Challenges, step_1_replay_rounds_and_recover_challenges,
}
use lambdaworks_cairo_prover.Stark.Steps.{
  verify_trace_openings, step_4_verify_deep_composition_polynomial, verify_queries,
  step_3_verify_fri, composition_poly_ood_evaluation, step_2_verify_claimed_composition_polynomial,
  verify_steps, verify,
}

false-ne-true : false ≡ true → ⊥
false-ne-true h = cc

pub both_true : (a b : Bool) → (a && b) ≡ true → (a ≡ true) × (b ≡ true)
both_true true b h = (refl, h)
both_true false b h = absurd (false-ne-true h)

pub some-false-ne-true : some false ≡ some true → ⊥
some-false-ne-true h = cc

module _ {F Tree AuthPath : Type 0} ⦃K : Field F⦄ (B : Backend F Tree AuthPath) where
  -- Each query with a challenge is accepted, as far as both lists go.
  abbrev pub QueriesAccepted :
      ℕ → ℕ → F → List F → F → List F → List (FriDecommitment F AuthPath) → List ℕ → Type 0
  QueriesAccepted order offset w roots last_value zetas (proof_s ∷ query_list) (iota_s ∷ iotas) =
      (verify_query_and_sym_openings B.verify order offset w roots last_value zetas iota_s proof_s
        ≡ some true)
      × QueriesAccepted order offset w roots last_value zetas query_list iotas
  QueriesAccepted order offset w roots last_value zetas _ _ = Unit

  -- The paths from the opened values of the trace to the roots of their columns are accepted, as far as
  -- all three lists go.
  abbrev pub Opened : List F → List AuthPath → ℕ → List F → Type 0
  Opened (merkle_root ∷ roots) (merkle_proof ∷ proofs) iota_0 (evaluation ∷ evaluations) =
      (B.verify merkle_proof merkle_root iota_0 evaluation ≡ true)
      × Opened roots proofs iota_0 evaluations
  Opened _ _ iota_0 _ = Unit

  verify_queries-QueriesAccepted :
      (order offset : ℕ) (w : F) (roots : List F) (last_value : F) (zetas : List F)
      (query_list : List (FriDecommitment F AuthPath)) (iotas : List ℕ) (result : Bool)
      → verify_queries B order offset w roots last_value zetas query_list iotas result ≡ some true
      → (result ≡ true) × QueriesAccepted order offset w roots last_value zetas query_list iotas
  unfolding verify_queries
  verify_queries-QueriesAccepted order offset w roots last_value zetas [] iotas result h =
      (some_injective h, _)
  verify_queries-QueriesAccepted order offset w roots last_value zetas (q ∷ qs) [] result h =
      (some_injective h, _)
  verify_queries-QueriesAccepted order offset w roots last_value zetas (q ∷ qs) (i ∷ is) result h =
      let (accepted, p, rest) = and_then-eq-some _ _ h in
      let (all, later) =
        verify_queries-QueriesAccepted order offset w roots last_value zetas qs is
          (result && accepted) rest in
      let (before, here) = both_true result accepted all in (before, (p ∙ ap some here, later))

  verify_trace_openings-Opened :
      (roots : List F) (proofs : List AuthPath) (iota_0 : ℕ) (evaluations : List F)
      → verify_trace_openings B roots proofs iota_0 evaluations ≡ true
      → Opened roots proofs iota_0 evaluations
  unfolding verify_trace_openings
  verify_trace_openings-Opened [] proofs iota_0 evaluations h = _
  verify_trace_openings-Opened (r ∷ roots) [] iota_0 evaluations h = _
  verify_trace_openings-Opened (r ∷ roots) (p ∷ proofs) iota_0 [] h = _
  verify_trace_openings-Opened (r ∷ roots) (p ∷ proofs) iota_0 (e ∷ evaluations) h =
      let (here, later) = both_true _ _ h in
      (here, verify_trace_openings-Opened roots proofs iota_0 evaluations later)

  -- The fourth step: the openings of the DEEP polynomial at the place `iota_0`.
  pub record DeepAccepted {RapChallenges : Type 0} (proof : StarkProof F AuthPath)
      (domain : Domain F) (challenges : Challenges F RapChallenges) : Type 0 where
    pub iota_0 : ℕ
    pub primitive_root : F
    pub upsilon_0 : F
    pub value : F
    pub first_query : FriDecommitment F AuthPath
    pub drawn : get_elem? challenges.iotas 0 ≡ some iota_0
    pub root : B.get_primitive_root_of_unity domain.root_order ≡ some primitive_root
    pub point : get_elem? domain.lde_roots_of_unity_coset iota_0 ≡ some upsilon_0
    pub even :
        B.verify proof.deep_poly_openings.lde_composition_poly_even_proof
          proof.composition_poly_even_root iota_0
          proof.deep_poly_openings.lde_composition_poly_even_evaluation
        ≡ true
    pub odd :
        B.verify proof.deep_poly_openings.lde_composition_poly_odd_proof
          proof.composition_poly_odd_root iota_0
          proof.deep_poly_openings.lde_composition_poly_odd_evaluation
        ≡ true
    pub trace :
        Opened proof.lde_trace_merkle_roots proof.deep_poly_openings.lde_trace_merkle_proofs iota_0
          proof.deep_poly_openings.lde_trace_evaluations
    pub reconstructed :
        reconstruct_deep_composition_poly_evaluation primitive_root upsilon_0 proof challenges
        ≡ some value
    pub first : get_elem? proof.query_list 0 ≡ some first_query
    pub claimed : first_query.first_layer_evaluation ≡ value

  step_4-DeepAccepted :
      {RapChallenges : Type 0} (proof : StarkProof F AuthPath) (domain : Domain F)
      (challenges : Challenges F RapChallenges)
      → step_4_verify_deep_composition_polynomial B proof domain challenges ≡ some true
      → DeepAccepted proof domain challenges
  unfolding step_4_verify_deep_composition_polynomial
  step_4-DeepAccepted proof domain challenges h =
      let (iota_0, p, h₁) = and_then-eq-some (get_elem? challenges.iotas 0) _ h in
      let (root, q, h₂) = and_then-eq-some (B.get_primitive_root_of_unity domain.root_order) _ h₁ in
      let (upsilon_0, r, h₃) =
        and_then-eq-some (get_elem? domain.lde_roots_of_unity_coset iota_0) _ h₂ in
      let (value, s, h₄) =
        and_then-eq-some
          (reconstruct_deep_composition_poly_evaluation root upsilon_0 proof challenges) _ h₃ in
      let (query, u, h₅) = and_then-eq-some (get_elem? proof.query_list 0) _ h₄ in
      let checks = some_injective h₅ in
      let (merkle, last) = both_true _ _ checks in
      let (compositions, trace) = both_true _ _ merkle in
      let (even, odd) = both_true _ _ compositions in
      record {
        iota_0 = iota_0;
        primitive_root = root;
        upsilon_0 = upsilon_0;
        value = value;
        first_query = query;
        drawn = p;
        root = q;
        point = r;
        even = even;
        odd = odd;
        trace =
            verify_trace_openings-Opened proof.lde_trace_merkle_roots
              proof.deep_poly_openings.lde_trace_merkle_proofs iota_0
              proof.deep_poly_openings.lde_trace_evaluations trace;
        reconstructed = s;
        first = u;
        claimed = (K.beq_iff query.first_layer_evaluation value).0 last;
      }

  module _ {RawTrace RapChallenges PublicInput T : Type 0}
      (air : Air F RawTrace RapChallenges PublicInput T) where
    -- The second step, the third with the queries, and the fourth.
    pub record Accepted (proof : StarkProof F AuthPath) (domain : Domain F)
        (public_input : PublicInput) (challenges : Challenges F RapChallenges) : Type 0 where
      pub lde_primitive_root : F
      pub composed :
          composition_poly_ood_evaluation B air proof domain public_input challenges
          ≡ some (
              proof.composition_poly_even_ood_evaluation
              ⊕ challenges.z ⊗ proof.composition_poly_odd_ood_evaluation)
      pub lde_root : B.get_primitive_root_of_unity domain.lde_root_order ≡ some lde_primitive_root
      pub queries :
          QueriesAccepted domain.lde_root_order air.context.options.coset_offset lde_primitive_root
            proof.fri_layers_merkle_roots proof.fri_last_value challenges.zetas proof.query_list
            challenges.iotas
      pub deep : DeepAccepted proof domain challenges

    verify_steps-Accepted :
        (proof : StarkProof F AuthPath) (domain : Domain F) (public_input : PublicInput)
        (challenges : Challenges F RapChallenges)
        → verify_steps B air proof domain public_input challenges ≡ some true
        → Accepted proof domain public_input challenges
    unfolding verify_steps step_2_verify_claimed_composition_polynomial step_3_verify_fri
    verify_steps-Accepted proof domain public_input challenges h =
        let (composed, p, h₁) =
          and_then-eq-some
            (step_2_verify_claimed_composition_polynomial B air proof domain public_input
              challenges)
            _ h in
        let (evaluation, q, equal) =
          and_then-eq-some
            (composition_poly_ood_evaluation B air proof domain public_input challenges) _ p in
        elim (if-cases composed _ _ h₁) [
          | inl (held, third) ↦
              let (folded, r, h₂) =
                and_then-eq-some (step_3_verify_fri B air proof domain challenges) _ third in
              let (w, root, loop) =
                and_then-eq-some (B.get_primitive_root_of_unity domain.lde_root_order) _ r in
              elim (if-cases folded _ _ h₂) [
                | inl (held', fourth) ↦ record {
                  lde_primitive_root = w;
                  composed =
                      q ∙ ap some (sym ((K.beq_iff _ evaluation).0 (some_injective equal ∙ held)));
                  lde_root = root;
                  queries =
                      (verify_queries-QueriesAccepted domain.lde_root_order
                        air.context.options.coset_offset w proof.fri_layers_merkle_roots
                        proof.fri_last_value challenges.zetas proof.query_list challenges.iotas true
                        (loop ∙ ap some held')).1;
                  deep = step_4-DeepAccepted proof domain challenges fourth;
                }
                | inr (off, stop) ↦ absurd (some-false-ne-true stop)
              ]
          | inr (off, stop) ↦ absurd (some-false-ne-true stop)
        ]

    -- What the steps of an accepted proof passed.
    pub verify-Accepted :
        (S : Transcript T) (fuel : ℕ) (proof : StarkProof F AuthPath) (public_input : PublicInput)
        (t : T)
        → verify B air S fuel proof public_input t ≡ some true
        → (domain : Domain F) × (challenges : Challenges F RapChallenges) × (t' : T) × (domain_new B
              air.context
            ≡ some domain)
          × (step_1_replay_rounds_and_recover_challenges B S air fuel proof domain t
              ≡ some (challenges, t'))
          × Accepted proof domain public_input challenges
    unfolding verify
    verify-Accepted S fuel proof public_input t h =
        let (domain, p, h₁) = and_then-eq-some (domain_new B air.context) _ h in
        let (drawn, q, h₂) =
          and_then-eq-some (step_1_replay_rounds_and_recover_challenges B S air fuel proof domain t)
            _ h₁ in
        (domain, drawn.0, drawn.1, p, q, verify_steps-Accepted proof domain public_input drawn.0 h₂)
