-- ===== src/Stark/Prove.antt =====
-- prover.rs: the fourth round and `prove`.
use lambdaworks_cairo_prover.Prelude.{
  ℕ, ◌*◌, Option, some, List, [], ◌∷◌, ◌++◌, zip, length, and_then, Result, ok, err,
}
use lambdaworks_cairo_prover.Field.{Field}
use lambdaworks_cairo_prover.Transcript.{
  Transcript, transcript_to_field, batch_sample_challenges, sample_z_ood,
}
use lambdaworks_cairo_prover.Air.Interface.{Air, ProvingError}
use lambdaworks_cairo_prover.Fri.Commit.{FriLayer, fri_commit_phase, roots_of}
use lambdaworks_cairo_prover.Fri.Query.{FriDecommitment}
use lambdaworks_cairo_prover.Fri.QueryPhase.{fri_query_phase}
use lambdaworks_cairo_prover.Stark.Backend.{Backend, Domain, domain_new}
use lambdaworks_cairo_prover.Stark.Proof.{DeepPolynomialOpenings, StarkProof}
use lambdaworks_cairo_prover.Stark.Commitments.{
  Round1, append_all, round_1_randomized_air_with_preprocessing,
}
use lambdaworks_cairo_prover.Stark.Rounds.{
  Round2, Round3, round_2_compute_composition_polynomial,
  round_3_evaluate_polynomials_in_out_of_domain_element, compute_deep_composition_poly,
  open_deep_composition_poly,
}

-- The last five fields are local values of the round that it does not return: the coefficients of
-- the DEEP polynomial, this polynomial, the layers of FRI and the challenges of its queries.
pub record Round4 (F Tree AuthPath : Type 0) : Type 0 where
  pub fri_last_value : F
  pub fri_layers_merkle_roots : List F
  pub deep_poly_openings : DeepPolynomialOpenings F AuthPath
  pub query_list : List (FriDecommitment F AuthPath)
  pub composition_poly_coefficients : F × F
  pub trace_poly_coefficients : List F
  pub deep_composition_poly : List F
  pub fri_layers : List (FriLayer F Tree)
  pub iotas : List ℕ

-- The local values of `prove`.
pub record Session (F Tree AuthPath RapChallenges T : Type 0) : Type 0 where
  pub domain : Domain F
  pub round_1_result : Round1 F Tree RapChallenges
  pub boundary_coeffs : List (F × F)
  pub transition_coeffs : List (F × F)
  pub round_2_result : Round2 F Tree
  pub z : F
  pub round_3_result : Round3 F
  pub round_4_result : Round4 F Tree AuthPath
  pub transcript : T

-- `into_iter().flatten()`
abbrev pub flatten {ℓ} : {A : Type ℓ} → List (List A) → List A
flatten [] = []
flatten (as' ∷ rest) = as' ++ flatten rest

-- `prove` after its last round: the proof that it returns.
unfoldable pub proof_of :
    {F Tree AuthPath RapChallenges T : Type 0}
    → Session F Tree AuthPath RapChallenges T
    → StarkProof F AuthPath
proof_of s = record {
  lde_trace_merkle_roots = s.round_1_result.lde_trace_merkle_roots;
  trace_ood_frame_evaluations = record {
    data_rows = flatten s.round_3_result.trace_ood_evaluations;
    row_width = length s.round_1_result.trace_polys;
  };
  composition_poly_even_root = s.round_2_result.composition_poly_even_root;
  composition_poly_even_ood_evaluation = s.round_3_result.composition_poly_even_ood_evaluation;
  composition_poly_odd_root = s.round_2_result.composition_poly_odd_root;
  composition_poly_odd_ood_evaluation = s.round_3_result.composition_poly_odd_ood_evaluation;
  fri_layers_merkle_roots = s.round_4_result.fri_layers_merkle_roots;
  fri_last_value = s.round_4_result.fri_last_value;
  query_list = s.round_4_result.query_list;
  deep_poly_openings = s.round_4_result.deep_poly_openings;
}

module _ {F Tree AuthPath RawTrace RapChallenges PublicInput T : Type 0} ⦃K : Field F⦄
    (B : Backend F Tree AuthPath) (S : Transcript T)
    (air : Air F RawTrace RapChallenges PublicInput T) where
  -- The evaluation of a layer of FRI.
  abbrev pub layer_evaluation : List F → F → ℕ → List F
  layer_evaluation poly offset size = B.evaluate_offset_fft poly 1 size offset

  -- The coefficients of a list of constraints: all the alphas, then all the betas.
  unfoldable pub sample_pairs : ℕ → T → List (F × F) × T
  sample_pairs n t =
      let (alphas, t₁) = batch_sample_challenges S n t in
      let (betas, t₂) = batch_sample_challenges S n t₁ in (zip alphas betas, t₂)

  unfoldable pub round_4_compute_and_run_fri_on_the_deep_composition_polynomial :
      Domain F
      → Round1 F Tree RapChallenges
      → Round2 F Tree
      → Round3 F
      → F
      → T
      → Option (Round4 F Tree AuthPath × T)
  round_4_compute_and_run_fri_on_the_deep_composition_polynomial domain round_1_result
        round_2_result round_3_result z t =
      let coset_offset = K.from air.context.options.coset_offset in
      let (gamma, t₁) = transcript_to_field {F = F} S t in
      let (gamma_p, t₂) = transcript_to_field {F = F} S t₁ in
      let (trace_poly_coefficients, t₃) =
        batch_sample_challenges {F = F} S
          (length air.context.transition_offsets * air.context.trace_columns) t₂ in
      and_then
        (compute_deep_composition_poly B air round_1_result.trace_polys round_2_result
          round_3_result z domain.trace_primitive_root (gamma, gamma_p) trace_poly_coefficients)
        λ deep_composition_poly.
          let domain_size = length domain.lde_roots_of_unity_coset in
          let (fri_last_value, fri_layers, t₄) =
            fri_commit_phase S layer_evaluation B.build B.root domain.root_order
              deep_composition_poly t₃ coset_offset domain_size in
          and_then
            (fri_query_phase S B.get_proof_by_pos air.context.options.fri_number_of_queries
              domain_size fri_layers t₄)
            λ (query_list, iota_0, iotas, t₅).
              and_then (open_deep_composition_poly B domain round_1_result round_2_result iota_0)
                λ deep_poly_openings. some (
                  record {
                    fri_last_value = fri_last_value;
                    fri_layers_merkle_roots = roots_of S layer_evaluation B.build B.root fri_layers;
                    deep_poly_openings = deep_poly_openings;
                    query_list = query_list;
                    composition_poly_coefficients = (gamma, gamma_p);
                    trace_poly_coefficients = trace_poly_coefficients;
                    deep_composition_poly = deep_composition_poly;
                    fri_layers = fri_layers;
                    iotas = iotas;
                  },
                  t₅,
                )

  -- `prove` after its first round; `fuel` bounds the rounds of `sample_z_ood`.
  unfoldable pub prove_rounds :
      ℕ
      → Domain F
      → Round1 F Tree RapChallenges
      → PublicInput
      → T
      → Option (Session F Tree AuthPath RapChallenges T)
  prove_rounds fuel domain round_1_result public_input t =
      let (boundary_coeffs, t₁) = sample_pairs (length round_1_result.trace_polys) t in
      let (transition_coeffs, t₂) = sample_pairs air.context.num_transition_constraints t₁ in
      and_then
        (round_2_compute_composition_polynomial B air domain round_1_result public_input
          transition_coeffs boundary_coeffs)
        λ round_2_result.
          let t₃ =
            append_all S
              (round_2_result.composition_poly_even_root ∷ round_2_result.composition_poly_odd_root
                ∷ [])
              t₂ in
          and_then
            (sample_z_ood S fuel domain.lde_roots_of_unity_coset domain.trace_roots_of_unity t₃)
            λ (z, t₄).
              let round_3_result =
                round_3_evaluate_polynomials_in_out_of_domain_element B air domain round_1_result
                  round_2_result z in
              let t₅ =
                append_all S
                  (round_3_result.composition_poly_even_ood_evaluation
                    ∷ round_3_result.composition_poly_odd_ood_evaluation
                    ∷ flatten round_3_result.trace_ood_evaluations)
                  t₄ in
              and_then
                (round_4_compute_and_run_fri_on_the_deep_composition_polynomial domain
                  round_1_result round_2_result round_3_result z t₅)
                λ (round_4_result, t₆). some (record {
                  domain = domain;
                  round_1_result = round_1_result;
                  boundary_coeffs = boundary_coeffs;
                  transition_coeffs = transition_coeffs;
                  round_2_result = round_2_result;
                  z = z;
                  round_3_result = round_3_result;
                  round_4_result = round_4_result;
                  transcript = t₆;
                })

  -- What follows the first round, or its error.
  unfoldable pub prove_after_round_1 :
      ℕ
      → Domain F
      → PublicInput
      → Result ProvingError (Round1 F Tree RapChallenges × T)
      → Option (PublicInput × Result ProvingError (Session F Tree AuthPath RapChallenges T))
  prove_after_round_1 fuel domain public_input (err e) = some (public_input, err e)
  prove_after_round_1 fuel domain public_input (ok (round_1_result, t)) =
      and_then (prove_rounds fuel domain round_1_result public_input t)
        λ session. some (public_input, ok session)

  -- `prove` from the new transcript `t`, with its local values; the public inputs as they are left.
  unfoldable pub prove_session :
      ℕ
      → RawTrace
      → PublicInput
      → T
      → Option (PublicInput × Result ProvingError (Session F Tree AuthPath RapChallenges T))
  prove_session fuel raw_trace public_input t = and_then (domain_new B air.context) λ domain.
      and_then (round_1_randomized_air_with_preprocessing B S air raw_trace domain public_input t)
        λ (public_input', result). prove_after_round_1 fuel domain public_input' result

  unfoldable pub prove :
      ℕ
      → RawTrace
      → PublicInput
      → T
      → Option (PublicInput × Result ProvingError (StarkProof F AuthPath))
  prove fuel raw_trace public_input t =
      and_then (prove_session fuel raw_trace public_input t) λ (public_input', result).
        elim result [
          | err e ↦ some (public_input', err e)
          | ok session ↦ some (public_input', ok (proof_of session))
        ]
