-- ===== src/Stark/CommittedTrees.antt =====
-- The trees of the first round: those of the values of the trace polynomials on the extended domain.
use native.Mathlib.Nat.{div_self}
use lambdaworks_cairo_prover.Prelude.{
  ℕ, ◌*◌, ◌/◌, ◌≤◌, ◌<◌, ◌≡◌, refl, sym, ap, ap₂, subst, ◌∙◌, arith, inl, inr, true, Option, some,
  List, [], ◌∷◌, ◌++◌, All, map, length, ◌==◌, if-cases, traverse, and_then-eq-some, some_injective,
}
use lambdaworks_cairo_prover.Field.{Field}
use lambdaworks_cairo_prover.Transcript.{Transcript}
use lambdaworks_cairo_prover.Air.TraceTable.{TraceTable, is_empty, cols, new_from_cols}
use lambdaworks_cairo_prover.Air.TraceTable.Columns.{IsRectangular, cols-new_from_cols}
use lambdaworks_cairo_prover.Air.TraceTable.Made.{new_from_cols-some}
use lambdaworks_cairo_prover.Air.Interface.{Air}
use lambdaworks_cairo_prover.Stark.Backend.{Backend, Domain, HasTransforms}
use lambdaworks_cairo_prover.Stark.Evaluator.{on_lde_domain, evaluate_polynomial_on_lde_domain}
use lambdaworks_cairo_prover.Stark.Commitments.{
  Round1, Commitment, batch_commit, compute_trace_polys, interpolate_and_commit, with_auxiliary,
  randomize,
}

traverse-append :
    {A B : Type 0} (f : A → Option B) (xs xs' : List A) (ys ys' : List B)
    → traverse f xs ≡ some ys
    → traverse f xs' ≡ some ys'
    → traverse f (xs ++ xs') ≡ some (ys ++ ys')
traverse-append f [] xs' [] ys' h h' = h'
traverse-append f [] xs' (y ∷ ys) ys' h h' = absurd (cc)
traverse-append f (x ∷ xs) xs' zs ys' h h' =
    let (y, p, q) = and_then-eq-some (f x) _ h in
    let (ys, r, s) = and_then-eq-some (traverse f xs) _ q in
    rw (p, traverse-append f xs xs' ys ys' r h') (ap (λ l. some (l ++ ys')) (some_injective s))

map-append : {A B : Type 0} (f : A → B) (xs ys : List A) → map f (xs ++ ys) ≡ map f xs ++ map f ys
map-append f [] ys = refl
map-append f (x ∷ xs) ys = ap (λ l. f x ∷ l) (map-append f xs ys)

module _ {F : Type 0} (domain : Domain F) where
  -- The coefficients are no more than the rows of the trace.
  abbrev pub Fits : List F → Type 0
  Fits p = length p ≤ domain.interpolation_domain_size

  abbrev pub size : ℕ
  size = domain.blowup_factor * domain.interpolation_domain_size

module _ {F Tree AuthPath : Type 0} ⦃K : Field F⦄ (B : Backend F Tree AuthPath)
    (domain : Domain F) where
  -- Trees and roots are those of the values of the polynomials.
  abbrev pub TreesOf : List (List F) → List (List F) → List Tree → List F → Type 0
  TreesOf polys evals trees roots =
      (traverse (on_lde_domain B domain) polys ≡ some evals)
      × (trees ≡ map B.build evals)
      × (roots ≡ map B.root trees)

module _ {F Tree AuthPath : Type 0} ⦃K : Field F⦄ (B : Backend F Tree AuthPath)
    (L : HasTransforms K B) (domain : Domain F) where
  -- The values on the extended domain are all of those of the transform.
  pub on_lde_domain_lem :
      (p evals : List F)
      → Fits domain p
      → on_lde_domain B domain p ≡ some evals
      → (B.evaluate_offset_fft p domain.blowup_factor domain.interpolation_domain_size
            domain.coset_offset
          ≡ evals)
        × (length evals ≡ (size domain))
  unfolding evaluate_polynomial_on_lde_domain
  on_lde_domain_lem p evals fits h =
      let n = domain.interpolation_domain_size in
      let b = domain.blowup_factor in
      let values = B.evaluate_offset_fft p b n domain.coset_offset in
      let long = L.length-evaluate_offset_fft p b n domain.coset_offset fits in
      elim (if-cases (n * b == 0) _ _ h) [
        | inl (e, taken) ↦ absurd (cc)
        | inr (e, taken) ↦
            let pos : 0 < n * b = ground arith in
            let whole : length values / (n * b) ≡ 1 =
              ap (λ l. l / (n * b)) (long ∙ omega arith) ∙ div_self pos in
            elim (if-cases (length values / (n * b) == 1) _ _ taken) [
              | inl (e', all) ↦ let same = some_injective all in (same, ap length (sym same) ∙ long)
              | inr (e', other) ↦
                  let is_one : (length values / (n * b) == 1) ≡ true = ap (λ k. k == 1) whole in
                  absurd (cc)
            ]
      ]

  pub lde_IsRectangular :
      (polys evals : List (List F))
      → All (Fits domain) polys
      → traverse (on_lde_domain B domain) polys ≡ some evals
      → IsRectangular (size domain) evals
  lde_IsRectangular [] [] fits h = _
  lde_IsRectangular [] (e ∷ evals) fits h = absurd (cc)
  lde_IsRectangular (p ∷ polys) evals (fit, fits) h =
      let (e, u, v) = and_then-eq-some (on_lde_domain B domain p) _ h in
      let (es, r, s) = and_then-eq-some (traverse (on_lde_domain B domain) polys) _ v in
      subst (IsRectangular (size domain)) (some_injective s)
        ((on_lde_domain_lem p e fit u).1, lde_IsRectangular polys es fits r)

  TreesOf-append :
      (polys evals polys' evals' : List (List F)) (trees trees' : List Tree) (roots roots' : List F)
      → TreesOf B domain polys evals trees roots
      → TreesOf B domain polys' evals' trees' roots'
      → TreesOf B domain (polys ++ polys') (evals ++ evals') (trees ++ trees') (roots ++ roots')
  TreesOf-append polys evals polys' evals' trees trees' roots roots' (p, q, r) (p', q', r') = (
    traverse-append (on_lde_domain B domain) polys polys' evals evals' p p',
    ap₂ (λ a b. a ++ b) q q' ∙ sym (map-append B.build evals evals'),
    ap₂ (λ a b. a ++ b) r r' ∙ sym (map-append B.root trees trees'),
  )

  All-split :
      (xs ys : List (List F))
      → All (Fits domain) (xs ++ ys)
      → All (Fits domain) xs × All (Fits domain) ys
  All-split [] ys h = (_, h)
  All-split (x ∷ xs) ys (h, hs) = let (a, b) = All-split xs ys hs in ((h, a), b)

  module _ {T : Type 0} (S : Transcript T) where
    interpolate_and_commit-TreesOf :
        (trace : TraceTable F) (t : T) (c : Commitment F Tree T)
        → interpolate_and_commit B S trace domain t ≡ some c
        → All (Fits domain) c.trace_polys
        → TreesOf B domain c.trace_polys c.lde_trace_evaluations c.merkle_trees c.merkle_roots
    unfolding interpolate_and_commit batch_commit
    interpolate_and_commit-TreesOf trace t c h fits =
        let (polys, p, q) = and_then-eq-some (compute_trace_polys B trace) _ h in
        let (evals, r, s) = and_then-eq-some (traverse (on_lde_domain B domain) polys) _ q in
        let (lde, u, v) = and_then-eq-some (new_from_cols evals) _ s in
        let (columns, w, x) = and_then-eq-some (cols lde) _ v in
        let e = some_injective x in
        let fits' : All (Fits domain) polys =
          subst (All (Fits domain)) (ap (λ (c : Commitment F Tree T). c.trace_polys) (sym e))
            fits in
        let same : columns ≡ evals = some_injective (
          sym w
          ∙ cols-new_from_cols (size domain) evals lde (new_from_cols-some evals lde u)
              (lde_IsRectangular polys evals fits' r) u) in
        subst
          (λ (c : Commitment F Tree T).
            TreesOf B domain c.trace_polys c.lde_trace_evaluations c.merkle_trees c.merkle_roots)
          e (r, ap (map B.build) same, refl)

    with_auxiliary-TreesOf :
        (main both : Commitment F Tree T) (aux_trace : TraceTable F) (t : T)
        → with_auxiliary B S main aux_trace domain t ≡ some both
        → (All (Fits domain) main.trace_polys
            → TreesOf B domain main.trace_polys main.lde_trace_evaluations main.merkle_trees
                main.merkle_roots)
        → All (Fits domain) both.trace_polys
        → TreesOf B domain both.trace_polys both.lde_trace_evaluations both.merkle_trees
            both.merkle_roots
    unfolding with_auxiliary
    with_auxiliary-TreesOf main both aux_trace t h main_trees fits =
        elim (if-cases (is_empty aux_trace) _ _ h) [
          | inl (e, taken) ↦
              subst
                (λ (c : Commitment F Tree T).
                  All (Fits domain) c.trace_polys
                  → TreesOf B domain c.trace_polys c.lde_trace_evaluations c.merkle_trees
                      c.merkle_roots)
                (some_injective taken) main_trees fits
          | inr (e, taken) ↦
              let (aux, p, q) =
                and_then-eq-some (interpolate_and_commit B S aux_trace domain t) _ taken in
              subst
                (λ (c : Commitment F Tree T).
                  All (Fits domain) c.trace_polys
                  → TreesOf B domain c.trace_polys c.lde_trace_evaluations c.merkle_trees
                      c.merkle_roots)
                (some_injective q)
                (λ both_fit.
                  let (a, b) = All-split main.trace_polys aux.trace_polys both_fit in
                  TreesOf-append main.trace_polys main.lde_trace_evaluations aux.trace_polys
                    aux.lde_trace_evaluations main.merkle_trees aux.merkle_trees main.merkle_roots
                    aux.merkle_roots (main_trees a)
                    (interpolate_and_commit-TreesOf aux_trace t aux p b))
                fits
        ]

    module _ {RawTrace RapChallenges PublicInput : Type 0}
        (air : Air F RawTrace RapChallenges PublicInput T) where
      pub randomize-TreesOf :
          (main_trace : TraceTable F) (public_input : PublicInput) (t : T)
          (r1 : Round1 F Tree RapChallenges) (t' : T)
          → randomize B S air main_trace public_input domain t ≡ some (r1, t')
          → All (Fits domain) r1.trace_polys
          → (evals : List (List F)) × (new_from_cols evals ≡ some r1.lde_trace)
            × TreesOf B domain r1.trace_polys evals r1.lde_trace_merkle_trees
                r1.lde_trace_merkle_roots
      unfolding randomize
      randomize-TreesOf main_trace public_input t r1 t' h fits =
          let (main, p, q) =
            and_then-eq-some (interpolate_and_commit B S main_trace domain t) _ h in
          let drawn : RapChallenges × T = air.build_rap_challenges main.transcript in
          let (aux_trace, p₁, q₁) =
            and_then-eq-some (air.build_auxiliary_trace main_trace drawn.0 public_input) _ q in
          let (both, p₂, q₂) =
            and_then-eq-some (with_auxiliary B S main aux_trace domain drawn.1) _ q₁ in
          let (lde_trace, p₃, q₃) =
            and_then-eq-some (new_from_cols both.lde_trace_evaluations) _ q₂ in
          subst
            (λ (v : Round1 F Tree RapChallenges × T).
              All (Fits domain) v.0.trace_polys
              → (evals : List (List F)) × (new_from_cols evals ≡ some v.0.lde_trace)
                × TreesOf B domain v.0.trace_polys evals v.0.lde_trace_merkle_trees
                    v.0.lde_trace_merkle_roots)
            (some_injective q₃)
            (λ fit. (
              both.lde_trace_evaluations,
              p₃,
              with_auxiliary-TreesOf main both aux_trace drawn.1 p₂
                  (interpolate_and_commit-TreesOf main_trace t main p) fit,
            ))
            fits
