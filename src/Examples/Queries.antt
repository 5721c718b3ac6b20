-- ===== src/Examples/Queries.antt =====
-- The roots of unity of the field of 17 elements, and the queries of the proof made over it.
use lambdaworks_cairo_prover.Prelude.{
  ℕ, zero, suc, ◌^◌, ◌≤◌, ◌<◌, ◌≡◌, ◌≢◌, refl, sym, ap, subst, ◌∙◌, arith, inl, inr, true, some,
  List, [], length, get_elem?, leb, leb→le, if-cases, some_injective,
}
use lambdaworks_cairo_prover.Field.Laws.{mul-one}
use lambdaworks_cairo_prover.Field.Zmod.{F17, f17, f17-HasInverses, Zmod_path, zmod, reduce}
use lambdaworks_cairo_prover.Air.Example.Airs.{fibonacci_air}
use lambdaworks_cairo_prover.Fri.Commit.{FoldedBy}
use lambdaworks_cairo_prover.Stark.Backend.{HasRoots}
use lambdaworks_cairo_prover.Stark.Prove.{proof_of}
use lambdaworks_cairo_prover.Stark.Recovered.{
  challenges_of, step_1_replay_rounds_and_recover_challenges-prove_session,
}
use lambdaworks_cairo_prover.Stark.Steps.{
  step_3_verify_fri, step_2_verify_claimed_composition_polynomial, verify,
}
use lambdaworks_cairo_prover.Stark.StepThree.{step_3_verify_fri-prove_session}
use lambdaworks_cairo_prover.Examples.Backend.{
  num, backend, backend-HasPolynomials, counter, coset_points, root_of_order,
}
use lambdaworks_cairo_prover.Examples.Context.{air}
use lambdaworks_cairo_prover.Stark.HonestVerify.{verify-prove_session}
use lambdaworks_cairo_prover.Examples.SessionBounds.{session-Fits, outside}
use lambdaworks_cairo_prover.Examples.Session.{
  trace, session, session_made, session_facts, no_auxiliary,
}
use lambdaworks_cairo_prover.Examples.Transforms.{backend-HasTransforms, backend-HasPaths}

get_elem?-coset_points :
    (w offset : F17) (count i : ℕ)
    → i < count
    → get_elem? (coset_points w offset count) i ≡ some (f17.mul offset (f17.pow w i))
unfolding coset_points
get_elem?-coset_points w offset zero i h = absurd (omega arith)
get_elem?-coset_points w offset (suc n) zero h =
    ap some (sym (ap (f17.mul offset) (f17.pow-zero w) ∙ mul-one ⦃K = f17⦄ offset))
get_elem?-coset_points w offset (suc n) (suc i) h =
    get_elem?-coset_points w (f17.mul offset w) n i (omega arith)
    ∙ ap some (
        f17.mul_assoc offset w (f17.pow w i)
        ∙ ap (f17.mul offset) (f17.mul_comm w (f17.pow w i) ∙ sym (f17.pow-suc w i)))

root_given :
    (order : ℕ) (w : F17)
    → backend.get_primitive_root_of_unity order ≡ some w
    → (leb order 4 ≡ true) × (root_of_order order ≡ w)
unfolding backend
root_given order w h = elim (if-cases (leb order 4) _ _ h) [
  | inl (e, taken) ↦ (e, some_injective taken)
  | inr (e, taken) ↦ absurd (cc)
]

squares :
    (order : ℕ)
    → leb (suc (suc order)) 4 ≡ true
    → (leb (suc order) 4 ≡ true)
      × (root_of_order (suc order)
          ≡ f17.mul (root_of_order (suc (suc order))) (root_of_order (suc (suc order))))
unfolding f17 zmod reduce
squares zero h = (refl, Zmod_path 17 (omega arith) refl)
squares (suc zero) h = (refl, Zmod_path 17 (omega arith) refl)
squares (suc (suc zero)) h = (refl, Zmod_path 17 (omega arith) refl)
squares (suc (suc (suc n))) h = absurd (omega (arith, leb→le _ 4 h))

halves :
    (order : ℕ)
    → leb (suc order) 4 ≡ true
    → f17.pow (root_of_order (suc order)) (2 ^ order) ≡ f17.sub f17.zero f17.one
unfolding f17 zmod reduce
halves zero h = Zmod_path 17 (omega arith) refl
halves (suc zero) h = Zmod_path 17 (omega arith) refl
halves (suc (suc zero)) h = Zmod_path 17 (omega arith) refl
halves (suc (suc (suc zero))) h = Zmod_path 17 (omega arith) refl
halves (suc (suc (suc (suc n)))) h = absurd (omega (arith, leb→le _ 4 h))

backend-HasRoots : HasRoots f17 backend
unfolding backend
backend-HasRoots = record {
  coset_of_root = λ order w offset h.
      let (small, same) = root_given order w h in
      (
        coset_points (root_of_order order) offset (2 ^ order),
        rw small refl,
        λ i within.
            get_elem?-coset_points (root_of_order order) offset (2 ^ order) i within
            ∙ ap (λ v. some (f17.mul offset (f17.pow v i))) same,
      );
  square_of_root = λ order w h.
      let (small, same) = root_given (suc (suc order)) w h in
      let (smaller, square) = squares order small in
      rw smaller (ap some (square ∙ ap (λ v. f17.mul v v) same));
  half_of_root = λ order w h.
      let (small, same) = root_given (suc order) w h in
      ap (λ v. f17.pow v (2 ^ order)) (sym same) ∙ halves order small;
}

nonzero : (n m : ℕ) → (num n).0 ≡ suc m → num n ≢ f17.zero
unfolding f17 zmod reduce
nonzero n m h e = absurd (omega (arith, sym h ∙ ap (λ (y : F17). y.0) e))

-- The challenges by which the layers of the session are folded.
folding :
    (zetas : List F17) × FoldedBy ⦃K = f17⦄ session.round_4_result.fri_layers zetas
      session.round_4_result.fri_last_value
unfolding fibonacci_air
folding =
    let (zetas, recovered, folded) =
      step_1_replay_rounds_and_recover_challenges-prove_session ⦃K = f17⦄ backend counter air 20
        trace _ _ 7 session no_auxiliary session_facts.0 (omega arith) session_facts.1
        session_made in
    (zetas, folded)

given_root : (k : ℕ) → k ≡ 3 → backend.get_primitive_root_of_unity k ≡ some (root_of_order 3)
unfolding backend
given_root k e = rw e refl

short : length session.round_4_result.deep_composition_poly ≤ 2 ^ session.domain.root_order
short =
    subst (λ k. length session.round_4_result.deep_composition_poly ≤ 2 ^ k) (sym session_facts.14)
      (leb→le (length session.round_4_result.deep_composition_poly) 4 session_facts.16)

step_3_verify_fri-prove_session_example :
    step_3_verify_fri ⦃K = f17⦄ backend air
      (proof_of session)
      session.domain
      (challenges_of ⦃K = f17⦄ backend counter air session folding.0)
    ≡ some true
unfolding fibonacci_air f17 zmod reduce
step_3_verify_fri-prove_session_example =
    step_3_verify_fri-prove_session ⦃K = f17⦄ f17-HasInverses backend backend-HasTransforms
      backend-HasRoots backend-HasPaths counter air (nonzero 2 1 refl) 20 trace _ _ 7 session
      folding.0 (root_of_order 3) session_made session_facts.1 (omega (arith, session_facts.15))
      (given_root session.domain.lde_root_order session_facts.15) (omega (arith, session_facts.14))
      (omega (arith, session_facts.14, session_facts.15)) short (nonzero 3 2 refl) folding.1

verify-prove_session_example :
    verify ⦃K = f17⦄ backend air counter 20 (proof_of session) _ 7
    ≡ step_2_verify_claimed_composition_polynomial ⦃K = f17⦄ backend air
        (proof_of session)
        session.domain
        _
        (challenges_of ⦃K = f17⦄ backend counter air session [])
unfolding fibonacci_air f17 zmod reduce
verify-prove_session_example =
    verify-prove_session ⦃K = f17⦄ f17-HasInverses backend backend-HasPolynomials
      backend-HasTransforms backend-HasRoots backend-HasPaths counter air (nonzero 2 1 refl) 20
      trace _ _ _ 7 session 3 (root_of_order 3) session_made refl session_facts.0 (omega arith)
      no_auxiliary (nonzero 3 2 refl) session_facts.1 (omega (arith, session_facts.15))
      (given_root session.domain.lde_root_order session_facts.15) (omega (arith, session_facts.14))
      (omega (arith, session_facts.14, session_facts.15)) session-Fits
      (omega (arith, session_facts.4, session_facts.6))
      (omega (arith, session_facts.4, session_facts.7)) short outside
