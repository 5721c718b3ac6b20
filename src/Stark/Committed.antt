-- ===== src/Stark/Committed.antt =====
-- What the commitments of the prover send.
use lambdaworks_cairo_prover.Prelude.{
  ◌≤◌, ◌≡◌, refl, sym, ap, subst, ◌∙◌, arith, inl, inr, take-append, drop-append, if-cases, ◌-◌,
  some, List, [], ◌++◌, append-nil, ==_iff, map, length, length-append, length-map, length-traverse,
  range, length-range_from, traverse, and_then-eq-some, some_injective, get_elem?, flat_traverse,
}
use lambdaworks_cairo_prover.Field.{Field}
use lambdaworks_cairo_prover.Transcript.{Transcript}
use lambdaworks_cairo_prover.Air.TraceTable.{TraceTable, is_empty, cols, new_from_cols}
use lambdaworks_cairo_prover.Stark.Backend.{Backend, Domain}
use lambdaworks_cairo_prover.Stark.Evaluator.{on_lde_domain}
use lambdaworks_cairo_prover.Air.Interface.{Air}
use lambdaworks_cairo_prover.Stark.Verifier.{replay_round_1}
use lambdaworks_cairo_prover.Stark.Commitments.{
  Round1, randomize, Commitment, append_all, batch_commit, compute_trace_polys,
  interpolate_and_commit, with_auxiliary,
}

length-cols :
    {F : Type 0} (trace : TraceTable F) (columns : List (List F))
    → cols trace ≡ some columns
    → length columns ≡ trace.n_cols
unfolding cols
length-cols trace columns h =
    length-traverse _ (range trace.n_cols) columns h ∙ length-range_from 0 trace.n_cols

n_cols-new_from_cols :
    {F : Type 0} (columns : List (List F)) (trace : TraceTable F)
    → new_from_cols columns ≡ some trace
    → trace.n_cols ≡ length columns
unfolding new_from_cols
n_cols-new_from_cols {F} columns trace h =
    let (first, p, q) = and_then-eq-some (get_elem? columns 0) _ h in
    let (table, r, s) =
      and_then-eq-some
        (flat_traverse (λ row_idx. traverse (λ col. get_elem? col row_idx) columns)
          (range (length first)))
        _ q in
    ap (λ (t : TraceTable F). t.n_cols) (sym (some_injective s))

module _ {F Tree AuthPath T : Type 0} ⦃K : Field F⦄ (B : Backend F Tree AuthPath)
    (S : Transcript T) where
  pub interpolate_and_commit_lem :
      (trace : TraceTable F) (domain : Domain F) (t : T) (c : Commitment F Tree T)
      → interpolate_and_commit B S trace domain t ≡ some c
      → (c.transcript ≡ append_all S c.merkle_roots t)
        × (length c.merkle_roots ≡ trace.n_cols)
        × (length c.trace_polys ≡ trace.n_cols)
  unfolding interpolate_and_commit compute_trace_polys batch_commit
  interpolate_and_commit_lem trace domain t c h =
      let (polys, p, q) = and_then-eq-some (compute_trace_polys B trace) _ h in
      let (columns, p', q') = and_then-eq-some (cols trace) _ p in
      let (evals, r, s) = and_then-eq-some (traverse (on_lde_domain B domain) polys) _ q in
      let (lde, u, v) = and_then-eq-some (new_from_cols evals) _ s in
      let (lde_columns, w, x) = and_then-eq-some (cols lde) _ v in
      let e = some_injective x in
      let polys_long : length polys ≡ trace.n_cols =
        ap length (sym (some_injective q'))
        ∙ length-map columns B.interpolate_fft
        ∙ length-cols trace columns p' in
      let roots_long : length (map B.root (map B.build lde_columns)) ≡ trace.n_cols =
        length-map (map B.build lde_columns) B.root
        ∙ length-map lde_columns B.build
        ∙ length-cols lde lde_columns w
        ∙ n_cols-new_from_cols evals lde u
        ∙ length-traverse (on_lde_domain B domain) polys evals r
        ∙ polys_long in
      subst
        (λ (c : Commitment F Tree T).
          (c.transcript ≡ append_all S c.merkle_roots t)
          × (length c.merkle_roots ≡ trace.n_cols)
          × (length c.trace_polys ≡ trace.n_cols))
        e (refl, roots_long, polys_long)

  -- The roots of both traces: those of the auxiliary one come last, and are sent last.
  pub with_auxiliary_lem :
      (main both : Commitment F Tree T) (aux_trace : TraceTable F) (domain : Domain F) (t : T)
      → with_auxiliary B S main aux_trace domain t ≡ some both
      → (aux_roots : List F) × (both.merkle_roots ≡ main.merkle_roots ++ aux_roots)
        × (length aux_roots ≡ aux_trace.n_cols)
        × (both.transcript ≡ append_all S aux_roots t)
  unfolding with_auxiliary append_all
  with_auxiliary_lem main both aux_trace domain t h = elim (if-cases (is_empty aux_trace) _ _ h) [
    | inl (e, taken) ↦
        let same : record main { transcript = t } ≡ both = some_injective taken in
        (
          [],
          ap (λ (c : Commitment F Tree T). c.merkle_roots) (sym same) ∙ sym (append-nil _),
          sym ((==_iff aux_trace.n_cols 0).0 e),
          ap (λ (c : Commitment F Tree T). c.transcript) (sym same),
        )
    | inr (e, taken) ↦
        let (aux, p, q) =
          and_then-eq-some (interpolate_and_commit B S aux_trace domain t) _ taken in
        let (sent, roots_long, polys_long) = interpolate_and_commit_lem aux_trace domain t aux p in
        let same = some_injective q in
        (
          aux.merkle_roots,
          ap (λ (c : Commitment F Tree T). c.merkle_roots) (sym same),
          roots_long,
          ap (λ (c : Commitment F Tree T). c.transcript) (sym same) ∙ sent,
        )
  ]

  module _ {RawTrace RapChallenges PublicInput : Type 0}
      (air : Air F RawTrace RapChallenges PublicInput T) where
    replay_round_1-append :
        (mains auxs : List F) (t : T)
        → length auxs ≡ air.number_auxiliary_rap_columns
        → replay_round_1 B S air (mains ++ auxs) t ≡ (
            let (rap, t₁) = air.build_rap_challenges (append_all S mains t) in
            (rap, append_all S auxs t₁))
    unfolding replay_round_1
    replay_round_1-append mains auxs t h =
        let first : length (mains ++ auxs) - air.number_auxiliary_rap_columns ≡ length mains =
          omega (arith, length-append mains auxs) in
        rw (first, take-append mains auxs, drop-append mains auxs) refl

    replay_round_1-sent :
        (mains auxs roots : List F) (t t₁ t₂ : T)
        → roots ≡ mains ++ auxs
        → length auxs ≡ air.number_auxiliary_rap_columns
        → t₁ ≡ append_all S mains t
        → t₂ ≡ append_all S auxs (air.build_rap_challenges t₁).1
        → replay_round_1 B S air roots t ≡ ((air.build_rap_challenges t₁).0, t₂)
    replay_round_1-sent mains auxs roots t t₁ t₂ split long sent sent' =
        ap (λ r. replay_round_1 B S air r t) split
        ∙ replay_round_1-append mains auxs t long
        ∙ ap (λ u. (let (rap, t₁) = air.build_rap_challenges u in (rap, append_all S auxs t₁)))
            (sym sent)
        ∙ ap (λ u. ((air.build_rap_challenges t₁).0, u)) (sym sent')

    -- The verifier's replay of the first round.
    pub replay_round_1-randomize :
        (main_trace : TraceTable F) (public_input : PublicInput) (domain : Domain F) (t t' : T)
        (r : Round1 F Tree RapChallenges)
        → ((rap : RapChallenges) (aux : TraceTable F)
            → air.build_auxiliary_trace main_trace rap public_input ≡ some aux
            → aux.n_cols ≡ air.number_auxiliary_rap_columns)
        → randomize B S air main_trace public_input domain t ≡ some (r, t')
        → (replay_round_1 B S air r.lde_trace_merkle_roots t ≡ (r.rap_challenges, t'))
          × (air.number_auxiliary_rap_columns ≤ length r.lde_trace_merkle_roots)
    unfolding randomize
    replay_round_1-randomize main_trace public_input domain t t' r columns h =
        let (main, p, q) = and_then-eq-some (interpolate_and_commit B S main_trace domain t) _ h in
        let (sent, long, _) = interpolate_and_commit_lem main_trace domain t main p in
        let drawn : RapChallenges × T = air.build_rap_challenges main.transcript in
        let (aux_trace, p₁, q₁) =
          and_then-eq-some (air.build_auxiliary_trace main_trace drawn.0 public_input) _ q in
        let (both, p₂, q₂) =
          and_then-eq-some (with_auxiliary B S main aux_trace domain drawn.1) _ q₁ in
        let (aux_roots, roots, aux_long, aux_sent) =
          with_auxiliary_lem main both aux_trace domain drawn.1 p₂ in
        let (lde_trace, p₃, q₃) =
          and_then-eq-some (new_from_cols both.lde_trace_evaluations) _ q₂ in
        let total = length-append main.merkle_roots aux_roots in
        let number = columns drawn.0 aux_trace p₁ in
        let replayed =
          replay_round_1-sent main.merkle_roots aux_roots both.merkle_roots t main.transcript
            both.transcript roots (aux_long ∙ number) sent aux_sent in
        subst
          (λ (v : Round1 F Tree RapChallenges × T).
            (replay_round_1 B S air v.0.lde_trace_merkle_roots t ≡ (v.0.rap_challenges, v.1))
            × (air.number_auxiliary_rap_columns ≤ length v.0.lde_trace_merkle_roots))
          (some_injective q₃) (replayed, omega (arith, total, number, aux_long, ap length roots))
