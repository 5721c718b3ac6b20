-- ===== src/Fri/QueryPhase.antt =====
-- fri/mod.rs, `fri_query_phase`: the openings that the prover sends for each query.
use lambdaworks_cairo_prover.Prelude.{
  ℕ, zero, suc, ◌+◌, ◌/◌, ◌%◌, Option, none, some, List, [], ◌∷◌, map, get_elem?, traverse,
  and_then, ◌==◌, if◌then◌else◌,
}
use lambdaworks_cairo_prover.Transcript.{Transcript, transcript_to_usize}
use lambdaworks_cairo_prover.Fri.Commit.{FriLayer}
use lambdaworks_cairo_prover.Fri.Query.{FriDecommitment}

-- The challenges iota of the queries, each `transcript_to_usize` modulo the size of the domain; the
-- prover and the verifier draw them alike.
unfoldable pub sample_iotas : {T : Type 0} → Transcript T → ℕ → ℕ → T → List ℕ × T
unfolding transcript_to_usize
sample_iotas S domain_size zero t = ([], t)
sample_iotas S domain_size (suc n) t =
    let (value, t₁) = transcript_to_usize S t in
    let (iotas, t₂) = sample_iotas S domain_size n t₁ in ((value % domain_size) ∷ iotas, t₂)

module _ {F Tree AuthPath T : Type 0} (S : Transcript T)
    (get_proof_by_pos : Tree → ℕ → Option AuthPath) where
  -- The evaluation of a layer at an index, and its path.
  unfoldable pub open_layer : FriLayer F Tree → ℕ → Option (F × AuthPath)
  open_layer layer index = and_then (get_elem? layer.evaluation index) λ evaluation.
      and_then (get_proof_by_pos layer.merkle_tree index) λ auth_path. some (evaluation, auth_path)

  -- The opening at the symmetric index; the remainder by zero is a panic.
  unfoldable pub open_symmetric : ℕ → FriLayer F Tree → Option (F × AuthPath)
  unfolding open_layer
  open_symmetric iota_s layer =
      if layer.domain_size == 0
      then none
      else open_layer layer ((iota_s + layer.domain_size / 2) % layer.domain_size)

  unfoldable pub open_query :
      FriLayer F Tree → List (FriLayer F Tree) → ℕ → Option (FriDecommitment F AuthPath)
  unfolding open_layer open_symmetric
  open_query first_layer fri_layers iota_s =
      and_then (open_layer first_layer iota_s) λ (first_layer_evaluation, first_layer_auth_path).
        and_then (traverse (open_symmetric iota_s) fri_layers) λ openings. some (record {
          layers_auth_paths_sym = map (λ (o : F × AuthPath). o.1) openings;
          layers_evaluations_sym = map (λ (o : F × AuthPath). o.0) openings;
          first_layer_evaluation = first_layer_evaluation;
          first_layer_auth_path = first_layer_auth_path;
        })

  -- The openings of the queries and the first iota, with all of them and the transcript. No query is
  -- a panic at `iotas[0]`, an empty domain one at the remainder.
  unfoldable pub fri_query_phase :
      ℕ
      → ℕ
      → List (FriLayer F Tree)
      → T
      → Option (List (FriDecommitment F AuthPath) × ℕ × List ℕ × T)
  unfolding open_query sample_iotas
  fri_query_phase number_of_queries domain_size [] t = some ([], 0, [], t)
  fri_query_phase number_of_queries domain_size (first_layer ∷ layers) t =
      if domain_size == 0
      then none
      else (let (iotas, t') = sample_iotas S domain_size number_of_queries t in
          and_then (traverse (open_query first_layer (first_layer ∷ layers)) iotas) λ query_list.
            and_then (get_elem? iotas 0) λ iota_0. some (query_list, iota_0, iotas, t'))
