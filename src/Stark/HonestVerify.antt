-- ===== src/Stark/HonestVerify.antt =====
-- `verify` (verifier.rs) on a proof of the prover.
use native.Mathlib.Nat.{pow-le-pow_right}
use lambdaworks_cairo_prover.Prelude.{
  get_elem?, ℕ, ◌^◌, ◌≤◌, ◌<◌, ◌≡◌, ◌≢◌, refl, arith, Bool, true, false, Option, none, some, [],
  All, length, range, and_then, if◌then◌else◌, ok,
}
use lambdaworks_cairo_prover.Field.{Field, HasInverses, ◌⊗◌}
use lambdaworks_cairo_prover.Transcript.{Transcript}
use lambdaworks_cairo_prover.Air.TraceTable.{TraceTable}
use lambdaworks_cairo_prover.Air.Interface.{Air}
use lambdaworks_cairo_prover.Stark.Backend.{
  Backend, HasPolynomials, HasTransforms, HasRoots, HasPaths,
}
use lambdaworks_cairo_prover.Stark.Prove.{Session, proof_of, prove_session}
use lambdaworks_cairo_prover.Stark.Steps.{
  step_2_verify_claimed_composition_polynomial, verify_steps, verify,
}
use lambdaworks_cairo_prover.Stark.Sessions.{prove_session-Rounds}
use lambdaworks_cairo_prover.Stark.Recovered.{
  challenges_of, step_1_replay_rounds_and_recover_challenges-prove_session,
}
use lambdaworks_cairo_prover.Stark.CommittedTrees.{Fits}
use lambdaworks_cairo_prover.Stark.StepThree.{step_3_verify_fri-prove_session}
use lambdaworks_cairo_prover.Stark.StepFour.{
  step_4_verify_deep_composition_polynomial-prove_session,
}

and_then-if : (o : Option Bool) → and_then o (λ b. if b then some true else some false) ≡ o
and_then-if none = refl
and_then-if (some true) = refl
and_then-if (some false) = refl

module _ {F Tree AuthPath RawTrace RapChallenges PublicInput T : Type 0} ⦃K : Field F⦄
    (V : HasInverses K) (B : Backend F Tree AuthPath) (P : HasPolynomials K B)
    (L : HasTransforms K B) (R : HasRoots K B) (M : HasPaths B) (S : Transcript T)
    (air : Air F RawTrace RapChallenges PublicInput T) (two : K.from 2 ≢ K.zero) where
  -- In a field with inverses where two is not zero, with polynomials, transforms, roots of unity and
  -- Merkle paths as documented: if the prover makes a proof without error from a transcript, its AIR
  -- has the transition offsets 0 .. n - 1, as many columns, not zero, as there are trace polynomials,
  -- auxiliary traces of the declared width and a coset offset that is not zero, the extended domain
  -- has 2 ^ its order points, an order below 64 with a root of unity, the order of the trace is
  -- neither zero nor more than that, the trace polynomials and both parts of the composition
  -- polynomial have no more coefficients than the trace has rows and the DEEP polynomial no more than
  -- 2 ^ the order of the trace, and the point of the first query is neither z squared nor z times one
  -- of the first n powers of the root of unity, then the verifier, on that proof and any public
  -- input, from the same transcript, answers what its second step does with the challenges of the
  -- prover: no other step panics or rejects.
  pub verify-prove_session :
      (fuel : ℕ) (raw_trace : RawTrace) (public_input public_input' claimed_input : PublicInput)
      (t : T) (s : Session F Tree AuthPath RapChallenges T) (n : ℕ) (w : F)
      → prove_session B S air fuel raw_trace public_input t ≡ some (public_input', ok s)
      → air.context.transition_offsets ≡ range n
      → length s.round_1_result.trace_polys ≡ air.context.trace_columns
      → 0 < air.context.trace_columns
      → ((main aux : TraceTable F) (rap : RapChallenges) (i : PublicInput)
          → air.build_auxiliary_trace main rap i ≡ some aux
          → aux.n_cols ≡ air.number_auxiliary_rap_columns)
      → K.from air.context.options.coset_offset ≢ K.zero
      → length s.domain.lde_roots_of_unity_coset ≡ 2 ^ s.domain.lde_root_order
      → s.domain.lde_root_order < 64
      → B.get_primitive_root_of_unity s.domain.lde_root_order ≡ some w
      → 0 < s.domain.root_order
      → s.domain.root_order ≤ s.domain.lde_root_order
      → All (Fits s.domain) s.round_1_result.trace_polys
      → Fits s.domain s.round_2_result.composition_poly_even
      → Fits s.domain s.round_2_result.composition_poly_odd
      → length s.round_4_result.deep_composition_poly ≤ 2 ^ s.domain.root_order
      → ((iota_0 : ℕ) (x : F)
          → get_elem? s.round_4_result.iotas 0 ≡ some iota_0
          → get_elem? s.domain.lde_roots_of_unity_coset iota_0 ≡ some x
          → (x ≢ s.z ⊗ s.z) × ((k : ℕ) → k < n → x ≢ s.z ⊗ K.pow s.domain.trace_primitive_root k))
      → verify B air S fuel (proof_of s) claimed_input t
        ≡ step_2_verify_claimed_composition_polynomial B air
            (proof_of s)
            s.domain
            claimed_input
            (challenges_of B S air s [])
  unfolding verify verify_steps step_2_verify_claimed_composition_polynomial
  verify-prove_session fuel raw_trace public_input public_input' claimed_input t s n w h offsets
        columns pos aux offset size small root order_pos orders fits even_fits odd_fits short
        outside =
      let two_pos : 0 < 2 = omega arith in
      let (d, main_trace, t₁, built, first, rounds) =
        prove_session-Rounds B S air fuel raw_trace public_input public_input' t s h in
      let (zetas, replayed, folds) =
        step_1_replay_rounds_and_recover_challenges-prove_session B S air fuel raw_trace
          public_input public_input' t s aux columns pos size h in
      let third =
        step_3_verify_fri-prove_session V B L R M S air two fuel raw_trace public_input
          public_input' t s zetas w h size small root order_pos orders short offset folds in
      let fourth =
        step_4_verify_deep_composition_polynomial-prove_session V B P L M S air fuel raw_trace
          public_input public_input' t s zetas n h offsets columns pos fits even_fits odd_fits
          (omega (arith, short, size, pow-le-pow_right two_pos orders)) outside in
      rw (d, replayed, third, fourth) (and_then-if _)
