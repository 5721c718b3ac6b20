-- ===== src/Stark/Sessions.antt =====
-- What a proof without error went through: the results of its parts.
use lambdaworks_cairo_prover.Prelude.{
  ℕ, ◌≡◌, refl, sym, ap, ap₂, ◌∙◌, subst, Option, some, [], ◌∷◌, length, and_then-eq-some, Result,
  ok, err, some_injective,
}
use lambdaworks_cairo_prover.Field.{Field}
use lambdaworks_cairo_prover.Transcript.{Transcript, sample_z_ood}
use lambdaworks_cairo_prover.Air.TraceTable.{TraceTable}
use lambdaworks_cairo_prover.Air.Interface.{Air, ProvingError}
use lambdaworks_cairo_prover.Stark.Backend.{Backend, Domain, domain_new}
use lambdaworks_cairo_prover.Stark.Commitments.{
  Round1, append_all, randomize, round_1_after_main, round_1_randomized_air_with_preprocessing,
}
use lambdaworks_cairo_prover.Stark.Rounds.{
  round_2_compute_composition_polynomial, round_3_evaluate_polynomials_in_out_of_domain_element,
}
use lambdaworks_cairo_prover.Stark.Prove.{
  Session, flatten, sample_pairs, round_4_compute_and_run_fri_on_the_deep_composition_polynomial,
  prove_rounds, prove_after_round_1, prove_session,
}

ok_injective :
    {E A I : Type 0} {i j : I} {x y : A}
    → ◌≡◌ {A = Option (I × Result E A)} (some (i, ok x)) (some (j, ok y))
    → (i ≡ j) × (x ≡ y)
ok_injective h = (cc, cc)

ok-ne-err :
    {E A I : Type 0} (e : E) (x : A) (i j : I)
    → ◌≡◌ {A = Option (I × Result E A)} (some (i, err e)) (some (j, ok x))
    → ⊥
ok-ne-err e x i j h = cc

module _ {F Tree AuthPath RawTrace RapChallenges PublicInput T : Type 0} ⦃K : Field F⦄
    (B : Backend F Tree AuthPath) (S : Transcript T)
    (air : Air F RawTrace RapChallenges PublicInput T) where
  -- The parts of the rounds after the first, from the transcript `t`: `t₃` is the one after the
  -- commitments to the composition polynomial, `t₄` the one after `z`.
  pub record Rounds (fuel : ℕ) (public_input : PublicInput) (t : T)
      (s : Session F Tree AuthPath RapChallenges T) : Type 0 where
    pub t₁ : T
    pub t₂ : T
    pub t₄ : T
    pub boundary :
        sample_pairs B S air (length s.round_1_result.trace_polys) t ≡ (s.boundary_coeffs, t₁)
    pub transition :
        sample_pairs B S air air.context.num_transition_constraints t₁ ≡ (s.transition_coeffs, t₂)
    pub second :
        round_2_compute_composition_polynomial B air s.domain s.round_1_result public_input
          s.transition_coeffs s.boundary_coeffs
        ≡ some s.round_2_result
    pub drawn :
        sample_z_ood S fuel s.domain.lde_roots_of_unity_coset s.domain.trace_roots_of_unity (
          append_all S
            (s.round_2_result.composition_poly_even_root
              ∷ s.round_2_result.composition_poly_odd_root ∷ [])
            t₂)
        ≡ some (s.z, t₄)
    pub third :
        s.round_3_result
        ≡ round_3_evaluate_polynomials_in_out_of_domain_element B air s.domain s.round_1_result
            s.round_2_result s.z
    pub fourth :
        round_4_compute_and_run_fri_on_the_deep_composition_polynomial B S air s.domain
          s.round_1_result s.round_2_result s.round_3_result s.z
          (append_all S
            (s.round_3_result.composition_poly_even_ood_evaluation
              ∷ s.round_3_result.composition_poly_odd_ood_evaluation
              ∷ flatten s.round_3_result.trace_ood_evaluations)
            t₄)
        ≡ some (s.round_4_result, s.transcript)

  pub prove_rounds-Rounds :
      (fuel : ℕ) (domain : Domain F) (r1 : Round1 F Tree RapChallenges) (public_input : PublicInput)
      (t : T) (s : Session F Tree AuthPath RapChallenges T)
      → prove_rounds B S air fuel domain r1 public_input t ≡ some s
      → (s.domain ≡ domain) × (s.round_1_result ≡ r1) × Rounds fuel public_input t s
  unfolding prove_rounds
  prove_rounds-Rounds fuel domain r1 public_input t s h =
      let (boundary_coeffs, t₁) = sample_pairs B S air (length r1.trace_polys) t in
      let (transition_coeffs, t₂) =
        sample_pairs B S air air.context.num_transition_constraints t₁ in
      let (r2, p, q) =
        and_then-eq-some
          (round_2_compute_composition_polynomial B air domain r1 public_input transition_coeffs
            boundary_coeffs)
          _ h in
      let t₃ =
        append_all S (r2.composition_poly_even_root ∷ r2.composition_poly_odd_root ∷ []) t₂ in
      let (w, p₁, q₁) =
        and_then-eq-some
          (sample_z_ood S fuel domain.lde_roots_of_unity_coset domain.trace_roots_of_unity t₃) _
          q in
      let r3 = round_3_evaluate_polynomials_in_out_of_domain_element B air domain r1 r2 w.0 in
      let t₅ =
        append_all S
          (r3.composition_poly_even_ood_evaluation
            ∷ r3.composition_poly_odd_ood_evaluation
            ∷ flatten r3.trace_ood_evaluations)
          w.1 in
      let (v, p₂, q₂) =
        and_then-eq-some
          (round_4_compute_and_run_fri_on_the_deep_composition_polynomial B S air domain r1 r2 r3
            w.0 t₅)
          _ q₁ in
      subst
        (λ (s : Session F Tree AuthPath RapChallenges T).
          (s.domain ≡ domain) × (s.round_1_result ≡ r1) × Rounds fuel public_input t s)
        (some_injective q₂)
        (
          refl,
          refl,
          record {
            t₁ = t₁;
            t₂ = t₂;
            t₄ = w.1;
            boundary = refl;
            transition = refl;
            second = p;
            drawn = p₁;
            third = refl;
            fourth = p₂;
          },
        )

  prove_after_round_1-prove_rounds :
      (fuel : ℕ) (domain : Domain F) (public_input public_input' : PublicInput)
      (result : Result ProvingError (Round1 F Tree RapChallenges × T))
      (s : Session F Tree AuthPath RapChallenges T)
      → prove_after_round_1 B S air fuel domain public_input result ≡ some (public_input', ok s)
      → (r : Round1 F Tree RapChallenges × T) × (result ≡ ok r)
        × (public_input ≡ public_input')
        × (prove_rounds B S air fuel domain r.0 public_input' r.1 ≡ some s)
  unfolding prove_after_round_1
  prove_after_round_1-prove_rounds fuel domain public_input public_input' (err e) s h =
      absurd (ok-ne-err _ _ _ _ h)
  prove_after_round_1-prove_rounds fuel domain public_input public_input' (ok r) s h =
      let (s', p, q) =
        and_then-eq-some (prove_rounds B S air fuel domain r.0 public_input r.1) _ h in
      let (same, same') = ok_injective q in
      (
        r,
        refl,
        same,
        subst (λ i. prove_rounds B S air fuel domain r.0 i r.1 ≡ some s) same (p ∙ ap some same'),
      )

  round_1_after_main-randomize :
      (domain : Domain F) (public_input public_input' : PublicInput) (t : T)
      (built : Result ProvingError (TraceTable F)) (r : Round1 F Tree RapChallenges × T)
      → round_1_after_main B S air domain public_input t built ≡ some (public_input', ok r)
      → (main_trace : TraceTable F) × (built ≡ ok main_trace)
        × (public_input ≡ public_input')
        × (randomize B S air main_trace public_input' domain t ≡ some r)
  unfolding round_1_after_main
  round_1_after_main-randomize domain public_input public_input' t (err e) r h =
      absurd (ok-ne-err _ _ _ _ h)
  round_1_after_main-randomize domain public_input public_input' t (ok main_trace) r h =
      let (r', p, q) = and_then-eq-some (randomize B S air main_trace public_input domain t) _ h in
      let (same, same') = ok_injective q in
      (
        main_trace,
        refl,
        same,
        subst (λ i. randomize B S air main_trace i domain t ≡ some r) same (p ∙ ap some same'),
      )

  -- The first round of a proof without error: its main trace, its public inputs and its result.
  pub prove_session-Rounds :
      (fuel : ℕ) (raw_trace : RawTrace) (public_input public_input' : PublicInput) (t : T)
      (s : Session F Tree AuthPath RapChallenges T)
      → prove_session B S air fuel raw_trace public_input t ≡ some (public_input', ok s)
      → (domain_new B air.context ≡ some s.domain)
        × (main_trace : TraceTable F) × (t₁ : T) × (air.build_main_trace raw_trace public_input
            ≡ some (public_input', ok main_trace))
        × (randomize B S air main_trace public_input' s.domain t ≡ some (s.round_1_result, t₁))
        × Rounds fuel public_input' t₁ s
  unfolding prove_session round_1_randomized_air_with_preprocessing
  prove_session-Rounds fuel raw_trace public_input public_input' t s h =
      let (domain, p, q) = and_then-eq-some (domain_new B air.context) _ h in
      let (w, p₁, q₁) =
        and_then-eq-some
          (round_1_randomized_air_with_preprocessing B S air raw_trace domain public_input t) _ q in
      let (v, p₂, q₂) = and_then-eq-some (air.build_main_trace raw_trace public_input) _ p₁ in
      let (r, e₁, e₂, e₃) =
        prove_after_round_1-prove_rounds fuel domain w.0 public_input' w.1 s q₁ in
      let (main_trace, e₄, e₅, e₆) =
        round_1_after_main-randomize domain v.0 public_input' t v.1 r
          (q₂ ∙ ap some (ap₂ (λ a b. (a, b)) e₂ e₁)) in
      let (d, one, rounds) = prove_rounds-Rounds fuel domain r.0 public_input' r.1 s e₃ in
      (
        p ∙ ap some (sym d),
        main_trace,
        r.1,
        p₂ ∙ ap some (ap₂ (λ a b. (a, b)) e₅ e₄),
        ap (λ d'. randomize B S air main_trace public_input' d' t) d
            ∙ e₆
            ∙ ap (λ x. some (x, r.1)) (sym one),
        rounds,
      )
