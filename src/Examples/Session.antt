-- ===== src/Examples/Session.antt =====
-- A proof of the Fibonacci sequence over the field of 17 elements, made and verified.
use lambdaworks_cairo_prover.Prelude.{
  ℕ, map, ◌^◌, ◌≡◌, refl, ap, sym, ◌∙◌, length, arith, Bool, true, false, Option, some, none, List,
  [], ◌∷◌, leb, get_elem?, some_injective, Result, ok, err,
}
use lambdaworks_cairo_prover.Air.Interface.{ProvingError}
use lambdaworks_cairo_prover.Stark.Backend.{trailing_zeros, domain_new}
use lambdaworks_cairo_prover.Stark.EvaluationTable.{compute_composition_poly}
use lambdaworks_cairo_prover.Stark.Evaluator.{
  every, evaluate_polynomial_on_lde_domain, exemption_poly, transition_exemptions, zerofier_poly,
  boundary_polys_evaluations, boundary_evaluation, evaluate_at, evaluator_evaluate,
}
use lambdaworks_cairo_prover.Stark.Commitments.{
  append_all, compute_trace_polys, batch_commit, interpolate_and_commit, with_auxiliary, randomize,
  round_1_after_main, round_1_randomized_air_with_preprocessing,
}
use lambdaworks_cairo_prover.Stark.Rounds.{
  commit_composition, round_2_compute_composition_polynomial,
  round_3_evaluate_polynomials_in_out_of_domain_element, deep_terms, deep_trace_terms,
  compute_deep_composition_poly, open_deep_composition_poly,
}
use lambdaworks_cairo_prover.Stark.Prove.{
  Session, proof_of, sample_pairs, round_4_compute_and_run_fri_on_the_deep_composition_polynomial,
  prove_rounds, prove_after_round_1, prove_session, prove,
}
use lambdaworks_cairo_prover.Stark.Verifier.{
  frame_elements, sample_rows, replay_round_1, replay_round_4,
  step_1_replay_rounds_and_recover_challenges,
}
use lambdaworks_cairo_prover.Stark.Reconstruct.{
  column_terms, all_columns_terms, reconstruct_deep_composition_poly_evaluation,
}
use lambdaworks_cairo_prover.Stark.Steps.{
  verify_trace_openings, step_4_verify_deep_composition_polynomial, verify_queries,
  step_3_verify_fri, boundary_quotient, composition_poly_ood_evaluation,
  step_2_verify_claimed_composition_polynomial, verify_steps, verify,
}
use lambdaworks_cairo_prover.Air.Boundary.{on_column, steps, values, generate_roots_of_unity}
use lambdaworks_cairo_prover.Air.Frame.{frame_row, read_from_trace, get_trace_evaluations}
use lambdaworks_cairo_prover.Air.TraceTable.{TraceTable, new_from_cols, get_row, cols}
use lambdaworks_cairo_prover.Air.Evaluator.{
  sum_loop, compute_constraint_composition_poly_evaluations_sum, degree_adjustments,
}
use lambdaworks_cairo_prover.Transcript.{
  transcript_to_field, batch_sample_challenges, any_equal, sample_z_ood, transcript_to_usize,
}
use lambdaworks_cairo_prover.Fri.Fold.{evens, odds, add_padded, fold_polynomial, fold_value}
use lambdaworks_cairo_prover.Fri.Commit.{
  fri_layer_new, commit_loop, fri_commit_phase, sample_zetas, replay_commit_phase,
}
use lambdaworks_cairo_prover.Fri.Query.{
  FriDecommitment, verify_layers, verify_query_and_sym_openings,
}
use lambdaworks_cairo_prover.Fri.QueryPhase.{
  sample_iotas, open_layer, open_symmetric, open_query, fri_query_phase,
}
use lambdaworks_cairo_prover.Field.Zmod.{Zmod_path, F17, f17, zmod, reduce}
use lambdaworks_cairo_prover.Air.Example.Recurrences.{
  fibonacci_from, fibonacci_column, fibonacci_trace,
}
use lambdaworks_cairo_prover.Air.Example.Airs.{frame_cell, fibonacci_constraint, fibonacci_air}
use lambdaworks_cairo_prover.Examples.Backend.{
  root_of, num, coset_points, domain_points, holds_leaf, backend, counter,
}
use lambdaworks_cairo_prover.Examples.Polynomials.{
  poly_sub, poly_mul, ruffini, slopes, interpolate, divide, poly_div, monomial,
}
use lambdaworks_cairo_prover.Prelude.{slice, from_be_bytes}
use lambdaworks_cairo_prover.Examples.Context.{air}
use lambdaworks_cairo_prover.Stark.Proof.{StarkProof}

abbrev Outcome : Type 0
Outcome = Option (Unit {0} × Result ProvingError (Session F17 (List F17) (List F17) Unit ℕ))

abbrev is_ok : Outcome → Bool
is_ok none = false
is_ok (some (i, err e)) = false
is_ok (some (i, ok s)) = true

the_session : (o : Outcome) → is_ok o ≡ true → Session F17 (List F17) (List F17) Unit ℕ
the_session none h = absurd (cc)
the_session (some (i, err e)) h = absurd (cc)
the_session (some (i, ok s)) h = s

the_session_lem : (o : Outcome) (h : is_ok o ≡ true) → o ≡ some (_, ok (the_session o h))
unfolding the_session
the_session_lem none h = absurd (cc)
the_session_lem (some (i, err e)) h = absurd (cc)
the_session_lem (some (i, ok s)) h = refl

abbrev pub trace : List (List F17)
trace = fibonacci_trace ⦃K = f17⦄ (num 1, num 1) 4

verify_made : Option (Unit {0} × Result ProvingError (StarkProof F17 (List F17))) → Option Bool
verify_made none = none
verify_made (some (i, err e)) = none
verify_made (some (i, ok proof)) = verify ⦃K = f17⦄ backend air counter 20 proof _ 7

-- The proof is made and accepted.
made : verify_made (prove ⦃K = f17⦄ backend counter air 20 trace _ 7) ≡ some true
unfolding verify_made trailing_zeros domain_new every evaluate_polynomial_on_lde_domain
    exemption_poly transition_exemptions zerofier_poly boundary_polys_evaluations
    boundary_evaluation evaluate_at evaluator_evaluate compute_composition_poly append_all
    compute_trace_polys batch_commit interpolate_and_commit with_auxiliary randomize
    round_1_after_main round_1_randomized_air_with_preprocessing commit_composition
    round_2_compute_composition_polynomial round_3_evaluate_polynomials_in_out_of_domain_element
    deep_terms deep_trace_terms compute_deep_composition_poly open_deep_composition_poly proof_of
    sample_pairs round_4_compute_and_run_fri_on_the_deep_composition_polynomial prove_rounds
    prove_after_round_1 prove_session prove frame_elements sample_rows replay_round_1 replay_round_4
    step_1_replay_rounds_and_recover_challenges column_terms all_columns_terms
    reconstruct_deep_composition_poly_evaluation verify_trace_openings
    step_4_verify_deep_composition_polynomial verify_queries step_3_verify_fri boundary_quotient
    composition_poly_ood_evaluation step_2_verify_claimed_composition_polynomial verify_steps verify
    on_column steps values generate_roots_of_unity frame_row read_from_trace get_trace_evaluations
    new_from_cols get_row cols sum_loop compute_constraint_composition_poly_evaluations_sum
    degree_adjustments transcript_to_field batch_sample_challenges any_equal sample_z_ood
    transcript_to_usize evens odds add_padded fold_polynomial fold_value fri_layer_new commit_loop
    fri_commit_phase sample_zetas replay_commit_phase verify_layers verify_query_and_sym_openings
    sample_iotas open_layer open_symmetric open_query fri_query_phase f17 zmod reduce fibonacci_from
    fibonacci_column fibonacci_trace frame_cell fibonacci_constraint fibonacci_air coset_points
    domain_points holds_leaf backend counter poly_sub poly_mul ruffini slopes interpolate divide
    poly_div monomial slice from_be_bytes
made = refl

outcome : Outcome
outcome = prove_session ⦃K = f17⦄ backend counter air 20 trace _ 7

outcome-is_ok : is_ok outcome ≡ true
unfolding outcome trailing_zeros domain_new every evaluate_polynomial_on_lde_domain exemption_poly
    transition_exemptions zerofier_poly boundary_polys_evaluations boundary_evaluation evaluate_at
    evaluator_evaluate compute_composition_poly append_all compute_trace_polys batch_commit
    interpolate_and_commit with_auxiliary randomize round_1_after_main
    round_1_randomized_air_with_preprocessing commit_composition
    round_2_compute_composition_polynomial round_3_evaluate_polynomials_in_out_of_domain_element
    deep_terms deep_trace_terms compute_deep_composition_poly open_deep_composition_poly
    sample_pairs round_4_compute_and_run_fri_on_the_deep_composition_polynomial prove_rounds
    prove_after_round_1 prove_session on_column steps values generate_roots_of_unity frame_row
    read_from_trace get_trace_evaluations new_from_cols get_row cols sum_loop
    compute_constraint_composition_poly_evaluations_sum degree_adjustments transcript_to_field
    batch_sample_challenges any_equal sample_z_ood transcript_to_usize evens odds add_padded
    fold_polynomial fri_layer_new commit_loop fri_commit_phase sample_iotas open_layer
    open_symmetric open_query fri_query_phase f17 zmod reduce fibonacci_from fibonacci_column
    fibonacci_trace frame_cell fibonacci_constraint fibonacci_air coset_points domain_points
    holds_leaf backend counter poly_sub poly_mul ruffini slopes interpolate divide poly_div monomial
    slice from_be_bytes
outcome-is_ok = refl

pub session : Session F17 (List F17) (List F17) Unit ℕ
session = the_session outcome outcome-is_ok

pub session_made : prove_session ⦃K = f17⦄ backend counter air 20 trace _ 7 ≡ some (_, ok session)
unfolding outcome session
session_made = the_session_lem outcome outcome-is_ok

-- What the session computes to, as far as the theorems ask for it.
pub session_facts :
    (length session.round_1_result.trace_polys ≡ 1)
    × (length session.domain.lde_roots_of_unity_coset ≡ 2 ^ session.domain.lde_root_order)
    × (session.z.0 ≡ 9)
    × (session.domain.trace_primitive_root.0 ≡ 13)
    × (session.domain.interpolation_domain_size ≡ 4)
    × (map length session.round_1_result.trace_polys ≡ 4 ∷ [])
    × (length session.round_2_result.composition_poly_even ≡ 4)
    × (length session.round_2_result.composition_poly_odd ≡ 4)
    × (leb (length session.round_4_result.deep_composition_poly) 8 ≡ true)
    × (length session.domain.lde_roots_of_unity_coset ≡ 8)
    × (session.round_4_result.iotas ≡ 4 ∷ [])
    × (x : F17) × (get_elem? session.domain.lde_roots_of_unity_coset 4 ≡ some x)
    × (x.0 ≡ 14)
    × (session.domain.root_order ≡ 2)
    × (session.domain.lde_root_order ≡ 3)
    × (leb (length session.round_4_result.deep_composition_poly) 4 ≡ true)
    × (session.round_1_result.lde_trace_merkle_roots
        ≡ map root_of session.round_1_result.lde_trace_merkle_trees)
    × (session.round_2_result.composition_poly_even_root
        ≡ root_of session.round_2_result.composition_poly_even_merkle_tree)
    × (session.round_2_result.composition_poly_odd_root
        ≡ root_of session.round_2_result.composition_poly_odd_merkle_tree)
    × (session.round_4_result.deep_poly_openings.lde_trace_merkle_proofs
        ≡ session.round_1_result.lde_trace_merkle_trees)
    × (session.round_4_result.deep_poly_openings.lde_composition_poly_even_proof
        ≡ session.round_2_result.composition_poly_even_merkle_tree)
    × (session.round_4_result.deep_poly_openings.lde_composition_poly_odd_proof
        ≡ session.round_2_result.composition_poly_odd_merkle_tree)
    × (length session.round_4_result.deep_poly_openings.lde_trace_evaluations
        ≡ length session.round_1_result.lde_trace_merkle_trees)
    × (first : List F17) × (map
          (λ (q : FriDecommitment F17 (List F17)). q.first_layer_auth_path)
          session.round_4_result.query_list
        ≡ first ∷ [])
    × (get_elem? session.round_4_result.fri_layers_merkle_roots 0 ≡ some (root_of first))
unfolding session the_session outcome outcome-is_ok trailing_zeros domain_new every
    evaluate_polynomial_on_lde_domain exemption_poly transition_exemptions zerofier_poly
    boundary_polys_evaluations boundary_evaluation evaluate_at evaluator_evaluate
    compute_composition_poly append_all compute_trace_polys batch_commit interpolate_and_commit
    with_auxiliary randomize round_1_after_main round_1_randomized_air_with_preprocessing
    commit_composition round_2_compute_composition_polynomial
    round_3_evaluate_polynomials_in_out_of_domain_element deep_terms deep_trace_terms
    compute_deep_composition_poly open_deep_composition_poly sample_pairs
    round_4_compute_and_run_fri_on_the_deep_composition_polynomial prove_rounds prove_after_round_1
    prove_session on_column steps values generate_roots_of_unity frame_row read_from_trace
    get_trace_evaluations new_from_cols get_row cols sum_loop
    compute_constraint_composition_poly_evaluations_sum degree_adjustments transcript_to_field
    batch_sample_challenges any_equal sample_z_ood transcript_to_usize evens odds add_padded
    fold_polynomial fri_layer_new commit_loop fri_commit_phase sample_iotas open_layer
    open_symmetric open_query fri_query_phase f17 zmod reduce fibonacci_from fibonacci_column
    fibonacci_trace frame_cell fibonacci_constraint fibonacci_air coset_points domain_points
    holds_leaf backend counter poly_sub poly_mul ruffini slopes interpolate divide poly_div monomial
    slice from_be_bytes
session_facts = (
  refl, refl, refl, refl, refl, refl, refl, refl, refl, refl, refl, _, refl, refl, refl, refl, refl,
  refl, refl, refl, refl, refl, refl, refl, _, refl, refl,
)

-- The AIR has no auxiliary columns.
pub no_auxiliary :
    (main aux : TraceTable F17) (rap i : Unit {0})
    → air.build_auxiliary_trace main rap i ≡ some aux
    → aux.n_cols ≡ air.number_auxiliary_rap_columns
unfolding fibonacci_air
no_auxiliary main aux rap i h = ap (λ (t : TraceTable F17). t.n_cols) (sym (some_injective h))

pub session_z : session.z ≡ num 9
unfolding f17 zmod reduce
session_z = Zmod_path 17 (omega arith) session_facts.2

pub session_root : session.domain.trace_primitive_root ≡ num 13
unfolding f17 zmod reduce
session_root = Zmod_path 17 (omega arith) session_facts.3

proof_made : prove ⦃K = f17⦄ backend counter air 20 trace _ 7 ≡ some (_, ok (proof_of session))
unfolding prove
proof_made = rw session_made refl

pub session_accepted : verify ⦃K = f17⦄ backend air counter 20 (proof_of session) _ 7 ≡ some true
unfolding verify_made
session_accepted = ap verify_made (sym proof_made) ∙ made
