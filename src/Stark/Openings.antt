-- ===== src/Stark/Openings.antt =====
-- The openings of the prover (prover.rs) at a point of the extended domain: their values, and that
-- their paths are accepted.
use native.Mathlib.Nat.{mod-lt}
use lambdaworks_cairo_prover.Prelude.{
  ℕ, zero, suc, ◌<◌, ◌≡◌, refl, sym, ap, ap₂, subst, ◌∙◌, arith, inl, inr, true, Option, some, List,
  [], ◌∷◌, All, map, length, get_elem?, ◌==◌, if-cases, traverse, traverse-get_elem?,
  length-traverse, get_elem?_total, and_then, and_then-eq-some, some_injective,
}
use lambdaworks_cairo_prover.Field.{Field}
use lambdaworks_cairo_prover.Transcript.{Transcript, transcript_to_usize}
use lambdaworks_cairo_prover.Fri.Fold.{evaluate}
use lambdaworks_cairo_prover.Fri.Commit.{FriLayer}
use lambdaworks_cairo_prover.Fri.Query.{FriDecommitment}
use lambdaworks_cairo_prover.Fri.QueryPhase.{
  sample_iotas, open_layer, open_symmetric, open_query, fri_query_phase,
}
use lambdaworks_cairo_prover.Stark.Backend.{
  Backend, Domain, HasTransforms, HasPaths, trailing_zeros,
}
use lambdaworks_cairo_prover.Stark.Evaluator.{on_lde_domain}
use lambdaworks_cairo_prover.Stark.Steps.{verify_trace_openings}
use lambdaworks_cairo_prover.Stark.CommittedTrees.{Fits, size, on_lde_domain_lem}

-- The challenges of the queries are places of the domain.
pub sample_iotas-bound :
    {T : Type 0} (S : Transcript T) (domain_size n : ℕ) (t : T)
    → 0 < domain_size
    → All (λ i. i < domain_size) (sample_iotas S domain_size n t).0
unfolding sample_iotas
sample_iotas-bound S domain_size zero t pos = _
sample_iotas-bound S domain_size (suc n) t pos =
    (mod-lt _ pos, sample_iotas-bound S domain_size n (transcript_to_usize S t).1 pos)

first_below : (n : ℕ) (xs : List ℕ) (x : ℕ) → All (λ i. i < n) xs → get_elem? xs 0 ≡ some x → x < n
first_below n [] x h e = absurd (cc)
first_below n (y ∷ xs) x h e = subst (λ i. i < n) (some_injective e) h.0

-- A list with a first element is not empty.
first_pos : {A : Type 0} (xs : List A) (x : A) → get_elem? xs 0 ≡ some x → 0 < length xs
first_pos [] x e = absurd (cc)
first_pos (y ∷ xs) x e = omega arith

open_query-first :
    {F Tree AuthPath T : Type 0} (S : Transcript T) (get_proof_by_pos : Tree → ℕ → Option AuthPath)
    (first : FriLayer F Tree) (layers : List (FriLayer F Tree)) (i : ℕ)
    (query : FriDecommitment F AuthPath)
    → open_query S get_proof_by_pos first layers i ≡ some query
    → get_elem? first.evaluation i ≡ some query.first_layer_evaluation
unfolding open_query open_layer
open_query-first {F} {Tree} {AuthPath} S get_proof_by_pos first layers i query h =
    let (o, p, q) = and_then-eq-some (open_layer S get_proof_by_pos first i) _ h in
    let (value, r, s) = and_then-eq-some (get_elem? first.evaluation i) _ p in
    let (path, u, v) = and_then-eq-some (get_proof_by_pos first.merkle_tree i) _ s in
    let (openings, w, y) =
      and_then-eq-some (traverse (open_symmetric S get_proof_by_pos i) layers) _ q in
    r
    ∙ ap (λ (o : F × AuthPath). some o.0) (some_injective v)
    ∙ ap (λ (d : FriDecommitment F AuthPath). some d.first_layer_evaluation) (some_injective y)

-- The first query opens the first layer at the first challenge.
pub fri_query_phase-first :
    {F Tree AuthPath T : Type 0} (S : Transcript T) (get_proof_by_pos : Tree → ℕ → Option AuthPath)
    (n domain_size : ℕ) (first : FriLayer F Tree) (layers : List (FriLayer F Tree)) (t t' : T)
    (query_list : List (FriDecommitment F AuthPath)) (iota_0 : ℕ) (iotas : List ℕ)
    → fri_query_phase S get_proof_by_pos n domain_size (first ∷ layers) t
      ≡ some (query_list, iota_0, iotas, t')
    → (get_elem? iotas 0 ≡ some iota_0)
      × (iota_0 < domain_size)
      × (query : FriDecommitment F AuthPath) × (get_elem? query_list 0 ≡ some query)
      × (get_elem? first.evaluation iota_0 ≡ some query.first_layer_evaluation)
unfolding fri_query_phase open_query open_layer
fri_query_phase-first {F} {Tree} {AuthPath} {T} S get_proof_by_pos n domain_size first layers t t'
      query_list iota_0 iotas h =
    elim (if-cases (domain_size == 0) _ _ h) [
      | inl (e, taken) ↦ absurd (cc)
      | inr (e, taken) ↦
          let pos : 0 < domain_size = ground arith in
          let drawn = sample_iotas S domain_size n t in
          let (queries, p, q) =
            and_then-eq-some
              (traverse (open_query S get_proof_by_pos first (first ∷ layers)) drawn.0) _ taken in
          let (i, r, s) = and_then-eq-some (get_elem? drawn.0 0) _ q in
          let same = some_injective s in
          let opened : get_elem? queries 0
              ≡ open_query S get_proof_by_pos first (first ∷ layers) i =
            traverse-get_elem? (open_query S get_proof_by_pos first (first ∷ layers)) drawn.0
              queries 0 p
            ∙ ap (λ o. and_then o (open_query S get_proof_by_pos first (first ∷ layers))) r in
          let (query, first_query) = get_elem?_total queries 0 (
            omega (
              arith,
              length-traverse (open_query S get_proof_by_pos first (first ∷ layers)) drawn.0 queries
                  p,
              first_pos drawn.0 i r,
            )) in
          subst
            (λ (v : List (FriDecommitment F AuthPath) × ℕ × List ℕ × T).
              (get_elem? v.2 0 ≡ some v.1)
              × (v.1 < domain_size)
              × (query : FriDecommitment F AuthPath) × (get_elem? v.0 0 ≡ some query)
              × (get_elem? first.evaluation v.1 ≡ some query.first_layer_evaluation))
            same
            (
              r,
              first_below domain_size drawn.0 i (sample_iotas-bound S domain_size n t pos) r,
              query,
              first_query,
              open_query-first S get_proof_by_pos first (first ∷ layers) i query
                  (sym opened ∙ first_query),
            )
    ]

module _ {F Tree AuthPath : Type 0} ⦃K : Field F⦄ (B : Backend F Tree AuthPath)
    (L : HasTransforms K B) (P : HasPaths B) (domain : Domain F)
    (coset : B.get_powers_of_primitive_root_coset
        (trailing_zeros 64 (size domain))
        (size domain)
        domain.coset_offset
      ≡ some domain.lde_roots_of_unity_coset)
    (i : ℕ) (x : F) (point : get_elem? domain.lde_roots_of_unity_coset i ≡ some x) where
  -- The value of a polynomial at a place of the extended domain is that at its point.
  pub lde_value :
      (p evals : List F) (v : F)
      → Fits domain p
      → on_lde_domain B domain p ≡ some evals
      → get_elem? evals i ≡ some v
      → v ≡ evaluate p x
  lde_value p evals v fits made at =
      let (same, long) = on_lde_domain_lem B L domain p evals fits made in
      some_injective (
        sym at
        ∙ ap (λ l. get_elem? l i) (sym same)
        ∙ L.get_elem?-evaluate_offset_fft p domain.blowup_factor domain.interpolation_domain_size
            domain.coset_offset domain.lde_roots_of_unity_coset i x fits coset point)

  pub lde_values :
      (polys evals : List (List F)) (row : List F)
      → All (Fits domain) polys
      → traverse (on_lde_domain B domain) polys ≡ some evals
      → traverse (λ col. get_elem? col i) evals ≡ some row
      → map (λ p. evaluate p x) polys ≡ row
  lde_values [] [] row fits made at = some_injective at
  lde_values [] (e ∷ evals) row fits made at = absurd (cc)
  lde_values (p ∷ polys) evals row (fit, fits) made at =
      let (e, u, v) = and_then-eq-some (on_lde_domain B domain p) _ made in
      let (es, r, s) = and_then-eq-some (traverse (on_lde_domain B domain) polys) _ v in
      let at' = ap (traverse (λ col. get_elem? col i)) (some_injective s) ∙ at in
      let (y, a, b) = and_then-eq-some (get_elem? e i) _ at' in
      let (ys, c, d) = and_then-eq-some (traverse (λ col. get_elem? col i) es) _ b in
      ap₂ (λ w ws. w ∷ ws) (sym (lde_value p e y fit u a)) (lde_values polys es ys fits r c)
      ∙ some_injective d

  -- The paths to a row are accepted.
  pub verify_trace_openings-get_proof_by_pos :
      (evals : List (List F)) (paths : List AuthPath) (row : List F)
      → traverse (λ tree. B.get_proof_by_pos tree i) (map B.build evals) ≡ some paths
      → traverse (λ col. get_elem? col i) evals ≡ some row
      → verify_trace_openings B (map B.root (map B.build evals)) paths i row ≡ true
  unfolding verify_trace_openings
  verify_trace_openings-get_proof_by_pos [] paths row h at = refl
  verify_trace_openings-get_proof_by_pos (e ∷ evals) paths row h at =
      let (path, p, q) = and_then-eq-some (B.get_proof_by_pos (B.build e) i) _ h in
      let (ps, r, s) =
        and_then-eq-some (traverse (λ tree. B.get_proof_by_pos tree i) (map B.build evals)) _ q in
      let (y, a, b) = and_then-eq-some (get_elem? e i) _ at in
      let (ys, c, d) = and_then-eq-some (traverse (λ col. get_elem? col i) evals) _ b in
      let accepted = P.verify-get_proof_by_pos e i y path a p in
      ap₂
        (λ paths' row'.
          verify_trace_openings B (map B.root (map B.build (e ∷ evals))) paths' i row')
        (sym (some_injective s)) (sym (some_injective d))
      ∙ rw (accepted, verify_trace_openings-get_proof_by_pos evals ps ys r c) refl
