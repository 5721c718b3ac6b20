-- ===== src/Examples/Proofs.antt =====
-- The theorems on proofs at a proof of the Fibonacci sequence over the field of 17 elements.
use lambdaworks_cairo_prover.Prelude.{
  map, ◌≡◌, inl, refl, length, arith, true, some, List, [], leb→le,
}
use lambdaworks_cairo_prover.Stark.Prove.{proof_of}
use lambdaworks_cairo_prover.Stark.StepFour.{
  step_4_verify_deep_composition_polynomial-prove_session,
}
use lambdaworks_cairo_prover.Examples.Transforms.{backend-HasTransforms, backend-HasPaths}
use lambdaworks_cairo_prover.Stark.Verifier.{step_1_replay_rounds_and_recover_challenges}
use lambdaworks_cairo_prover.Stark.Reconstruct.{reconstruct_deep_composition_poly_evaluation}
use lambdaworks_cairo_prover.Stark.Steps.{step_4_verify_deep_composition_polynomial}
use lambdaworks_cairo_prover.Fri.Fold.{evaluate}
use lambdaworks_cairo_prover.Field.Zmod.{F17, f17-HasInverses, f17, zmod}
use lambdaworks_cairo_prover.Air.Example.Airs.{fibonacci_air}
use lambdaworks_cairo_prover.Examples.Backend.{num, backend-HasPolynomials, backend, counter}
use lambdaworks_cairo_prover.Examples.Context.{air}
use lambdaworks_cairo_prover.Fri.Commit.{FoldedBy}
use lambdaworks_cairo_prover.Stark.DeepValue.{
  reconstruct_deep_composition_poly_evaluation-prove_session,
}
use lambdaworks_cairo_prover.Stark.Recovered.{
  challenges_of, step_1_replay_rounds_and_recover_challenges-prove_session,
}
use lambdaworks_cairo_prover.Examples.SessionBounds.{
  not_squared, not_shifted, session-Fits, outside,
}
use lambdaworks_cairo_prover.Examples.Session.{
  no_auxiliary, trace, session, session_made, session_facts,
}

step_1_replay_rounds_and_recover_challenges-prove_session_example :
    (zetas : List F17) × (step_1_replay_rounds_and_recover_challenges ⦃K = f17⦄ backend counter air
        20
        (proof_of session)
        session.domain
        7
      ≡ some (challenges_of ⦃K = f17⦄ backend counter air session zetas, session.transcript))
    × FoldedBy ⦃K = f17⦄ session.round_4_result.fri_layers zetas
        session.round_4_result.fri_last_value
unfolding fibonacci_air
step_1_replay_rounds_and_recover_challenges-prove_session_example =
    step_1_replay_rounds_and_recover_challenges-prove_session ⦃K = f17⦄ backend counter air 20 trace
      _ _ 7 session no_auxiliary session_facts.0 (omega arith) session_facts.1 session_made

reconstruct_deep_composition_poly_evaluation-prove_session_example :
    reconstruct_deep_composition_poly_evaluation ⦃K = f17⦄ session.domain.trace_primitive_root
      (num 0)
      (record (proof_of session) {
        deep_poly_openings = record session.round_4_result.deep_poly_openings {
          lde_composition_poly_even_evaluation =
              evaluate ⦃K = f17⦄ session.round_2_result.composition_poly_even (num 0);
          lde_composition_poly_odd_evaluation =
              evaluate ⦃K = f17⦄ session.round_2_result.composition_poly_odd (num 0);
          lde_trace_evaluations =
              map (λ p. evaluate ⦃K = f17⦄ p (num 0)) session.round_1_result.trace_polys;
        };
      })
      (challenges_of ⦃K = f17⦄ backend counter air session [])
    ≡ some (evaluate ⦃K = f17⦄ session.round_4_result.deep_composition_poly (num 0))
unfolding fibonacci_air f17
reconstruct_deep_composition_poly_evaluation-prove_session_example =
    reconstruct_deep_composition_poly_evaluation-prove_session ⦃K = f17⦄ f17-HasInverses backend
      backend-HasPolynomials counter air 20 trace _ _ 7 session [] 3 (num 0) session_made refl
      session_facts.0 (omega arith) (not_squared (num 0) (inl refl))
      (not_shifted (num 0) (inl refl))

step_4_verify_deep_composition_polynomial-prove_session_example :
    step_4_verify_deep_composition_polynomial ⦃K = f17⦄ backend
      (proof_of session)
      session.domain
      (challenges_of ⦃K = f17⦄ backend counter air session [])
    ≡ some true
unfolding fibonacci_air
step_4_verify_deep_composition_polynomial-prove_session_example =
    step_4_verify_deep_composition_polynomial-prove_session ⦃K = f17⦄ f17-HasInverses backend
      backend-HasPolynomials backend-HasTransforms backend-HasPaths counter air 20 trace _ _ 7
      session [] 3 session_made refl session_facts.0 (omega arith) session-Fits
      (omega (arith, session_facts.4, session_facts.6))
      (omega (arith, session_facts.4, session_facts.7))
      (let short = leb→le (length session.round_4_result.deep_composition_poly) 8 session_facts.8 in
        omega (arith, session_facts.9))
      outside
