-- ===== src/Stark/Commitments.antt =====
-- prover.rs: the commitment to a table of the trace, and the first round.
use lambdaworks_cairo_prover.Prelude.{
  Option, some, List, [], ◌∷◌, ◌++◌, map, traverse, and_then, Result, ok, err, if◌then◌else◌,
}
use lambdaworks_cairo_prover.Field.{Field}
use lambdaworks_cairo_prover.Transcript.{Transcript}
use lambdaworks_cairo_prover.Air.TraceTable.{TraceTable, is_empty, cols, new_from_cols}
use lambdaworks_cairo_prover.Air.Interface.{Air, ProvingError}
use lambdaworks_cairo_prover.Stark.Backend.{Backend, Domain}
use lambdaworks_cairo_prover.Stark.Evaluator.{on_lde_domain}

pub record Round1 (F Tree RapChallenges : Type 0) : Type 0 where
  pub trace_polys : List (List F)
  pub lde_trace : TraceTable F
  pub lde_trace_merkle_trees : List Tree
  pub lde_trace_merkle_roots : List F
  pub rap_challenges : RapChallenges

-- What `interpolate_and_commit` returns, with the transcript.
pub record Commitment (F Tree T : Type 0) : Type 0 where
  pub trace_polys : List (List F)
  pub lde_trace_evaluations : List (List F)
  pub merkle_trees : List Tree
  pub merkle_roots : List F
  pub transcript : T

module _ {F T : Type 0} ⦃K : Field F⦄ (S : Transcript T) where
  -- `transcript.append` of the bytes of each element.
  unfoldable pub append_all : List F → T → T
  append_all [] t = t
  append_all (value ∷ values) t = append_all values (S.append (K.to_bytes_be value) t)

-- `compute_trace_polys` of air/trace.rs.
unfoldable pub compute_trace_polys :
    {F Tree AuthPath : Type 0} → Backend F Tree AuthPath → TraceTable F → Option (List (List F))
unfolding cols
compute_trace_polys B trace = and_then (cols trace) λ columns. some (map B.interpolate_fft columns)

unfoldable pub batch_commit :
    {F Tree AuthPath : Type 0} → Backend F Tree AuthPath → List (List F) → List Tree × List F
batch_commit B vectors =
    let trees = map B.build vectors in let roots = map B.root trees in (trees, roots)

module _ {F Tree AuthPath T : Type 0} ⦃K : Field F⦄ (B : Backend F Tree AuthPath)
    (S : Transcript T) where
  unfoldable pub interpolate_and_commit : TraceTable F → Domain F → T → Option (Commitment F Tree T)
  unfolding append_all batch_commit compute_trace_polys
  interpolate_and_commit trace domain t = and_then (compute_trace_polys B trace) λ trace_polys.
      and_then (traverse (on_lde_domain B domain) trace_polys) λ lde_trace_evaluations.
        and_then (new_from_cols lde_trace_evaluations) λ lde_trace.
          and_then (cols lde_trace) λ columns.
            let (trees, roots) = batch_commit B columns in
            some (record {
              trace_polys = trace_polys;
              lde_trace_evaluations = lde_trace_evaluations;
              merkle_trees = trees;
              merkle_roots = roots;
              transcript = append_all S roots t;
            })

  -- The commitments of both traces: the auxiliary one is made if it is not empty.
  unfoldable pub with_auxiliary :
      Commitment F Tree T → TraceTable F → Domain F → T → Option (Commitment F Tree T)
  with_auxiliary main aux_trace domain t =
      if is_empty aux_trace
      then some (record main { transcript = t })
      else (and_then (interpolate_and_commit aux_trace domain t) λ aux. some (record {
        trace_polys = main.trace_polys ++ aux.trace_polys;
        lde_trace_evaluations = main.lde_trace_evaluations ++ aux.lde_trace_evaluations;
        merkle_trees = main.merkle_trees ++ aux.merkle_trees;
        merkle_roots = main.merkle_roots ++ aux.merkle_roots;
        transcript = aux.transcript;
      }))

  module _ {RawTrace RapChallenges PublicInput : Type 0}
      (air : Air F RawTrace RapChallenges PublicInput T) where
    -- The rest of the first round, once the main trace is there.
    unfoldable pub randomize :
        TraceTable F → PublicInput → Domain F → T → Option (Round1 F Tree RapChallenges × T)
    randomize main_trace public_input domain t =
        and_then (interpolate_and_commit main_trace domain t) λ main.
          let (rap_challenges, t₁) = air.build_rap_challenges main.transcript in
          and_then (air.build_auxiliary_trace main_trace rap_challenges public_input) λ aux_trace.
            and_then (with_auxiliary main aux_trace domain t₁) λ both.
              and_then (new_from_cols both.lde_trace_evaluations) λ lde_trace. some (
                record {
                  trace_polys = both.trace_polys;
                  lde_trace = lde_trace;
                  lde_trace_merkle_trees = both.merkle_trees;
                  lde_trace_merkle_roots = both.merkle_roots;
                  rap_challenges = rap_challenges;
                },
                both.transcript,
              )

    -- The round once the main trace is built, or its error.
    unfoldable pub round_1_after_main :
        Domain F
        → PublicInput
        → T
        → Result ProvingError (TraceTable F)
        → Option (PublicInput × Result ProvingError (Round1 F Tree RapChallenges × T))
    round_1_after_main domain public_input t (err e) = some (public_input, err e)
    round_1_after_main domain public_input t (ok main_trace) =
        and_then (randomize main_trace public_input domain t)
          λ round_1_result. some (public_input, ok round_1_result)

    -- The public inputs as they are left, and the round with the transcript, or the error.
    unfoldable pub round_1_randomized_air_with_preprocessing :
        RawTrace
        → Domain F
        → PublicInput
        → T
        → Option (PublicInput × Result ProvingError (Round1 F Tree RapChallenges × T))
    round_1_randomized_air_with_preprocessing raw_trace domain public_input t =
        and_then (air.build_main_trace raw_trace public_input)
          λ (public_input', built). round_1_after_main domain public_input' t built
