-- ===== src/Stark/Deep.antt =====
-- The DEEP polynomial of the prover and its value that the verifier computes from the openings.
use native.Mathlib.Nat.{suc-mul}
use lambdaworks_cairo_prover.Prelude.{
  ℕ, zero, suc, ◌+◌, ◌*◌, ◌<◌, ◌≡◌, ◌≢◌, refl, sym, ap, ap₂, ◌∙◌, arith, some, List, [], ◌∷◌, ◌++◌,
  map, length, length-append, append_assoc, take, drop, get_elem?, range, and_then,
}
use lambdaworks_cairo_prover.Field.{Field, HasInverses, ◌⊗◌}
use lambdaworks_cairo_prover.Air.Frame.{Frame, frame_row, num_rows, get_trace_evaluations}
use lambdaworks_cairo_prover.Air.Interface.{Air}
use lambdaworks_cairo_prover.Fri.Fold.{evaluate}
use lambdaworks_cairo_prover.Stark.Backend.{Backend, HasPolynomials}
use lambdaworks_cairo_prover.Stark.Rounds.{deep_terms, deep_trace_terms}
use lambdaworks_cairo_prover.Stark.Reconstruct.{column_terms, all_columns_terms}
use lambdaworks_cairo_prover.Stark.Sampling.{chunks}
use lambdaworks_cairo_prover.Stark.DeepTerms.{get_elem?-map, column_terms-deep_terms}

drop-nil : {A : Type 0} (n : ℕ) → drop {A = A} n [] ≡ []
drop-nil zero = refl
drop-nil (suc n) = refl

drop-drop : {A : Type 0} (m n : ℕ) (xs : List A) → drop n (drop m xs) ≡ drop (m + n) xs
drop-drop zero n xs = ap (λ k. drop k xs) {x = n} {y = zero + n} (omega arith)
drop-drop (suc m) n [] = drop-nil n ∙ sym (drop-nil (suc m + n))
drop-drop (suc m) n (x ∷ xs) =
    drop-drop m n xs ∙ ap (λ k. drop k (x ∷ xs)) {x = suc (m + n)} {y = suc m + n} (omega arith)

get_elem?-middle :
    {A : Type 0} (pre xs : List A) (x : A) → get_elem? (pre ++ (x ∷ xs)) (length pre) ≡ some x
get_elem?-middle [] xs x = refl
get_elem?-middle (y ∷ pre) xs x = get_elem?-middle pre xs x

module _ {F : Type 0} ⦃K : Field F⦄ where
  deep_trace_terms-step :
      {Tree AuthPath RawTrace RapChallenges PublicInput T : Type 0} (B : Backend F Tree AuthPath)
      (air : Air F RawTrace RapChallenges PublicInput T) (i n : ℕ) (t : List F) (ts : List (List F))
      (z root : F) (rows : List (List F)) (offsets : List ℕ) (gammas acc acc₁ acc₂ : List F)
      → length rows ≡ n
      → deep_terms B air i t z root rows offsets (drop (i * n) gammas) acc ≡ some acc₁
      → deep_trace_terms B air (suc i) ts z root rows offsets gammas acc₁ ≡ some acc₂
      → deep_trace_terms B air i (t ∷ ts) z root rows offsets gammas acc ≡ some acc₂
  unfolding deep_trace_terms
  deep_trace_terms-step B air i n t ts z root rows offsets gammas acc acc₁ acc₂ long p q =
      ap
        (λ l.
          and_then (deep_terms B air i t z root rows offsets (drop (i * l) gammas) acc)
            λ acc'. deep_trace_terms B air (suc i) ts z root rows offsets gammas acc')
        long
      ∙ ap
          (λ o.
            and_then o λ acc'. deep_trace_terms B air (suc i) ts z root rows offsets gammas acc')
          p
      ∙ q

  all_columns_terms-step :
      (frame : Frame F) (x z root value : F) (opened : List F) (i n columns : ℕ) (coeffs : List F)
      (rest : List (List F)) (v v₁ v₂ : F)
      → get_elem? opened i ≡ some value
      → num_rows frame ≡ n
      → column_terms frame x z root value i 0 n coeffs v ≡ some v₁
      → all_columns_terms frame x z root opened (suc i) columns rest v₁ ≡ some v₂
      → all_columns_terms frame x z root opened i (suc columns) (coeffs ∷ rest) v ≡ some v₂
  unfolding all_columns_terms
  all_columns_terms-step frame x z root value opened i n columns coeffs rest v v₁ v₂ here count p
        q =
      ap
        (λ o. and_then o λ value'.
          and_then (column_terms frame x z root value' i 0 (num_rows frame) coeffs v)
            λ v'. all_columns_terms frame x z root opened (suc i) columns rest v')
        here
      ∙ ap (λ o. and_then o λ v'. all_columns_terms frame x z root opened (suc i) columns rest v')
          (ap (λ m. column_terms frame x z root value i 0 m coeffs v) count ∙ p)
      ∙ q

module _ {F Tree AuthPath : Type 0} ⦃K : Field F⦄ (V : HasInverses K) (B : Backend F Tree AuthPath)
    (P : HasPolynomials K B) {RawTrace RapChallenges PublicInput T : Type 0}
    (air : Air F RawTrace RapChallenges PublicInput T) (polys : List (List F)) (z root x : F)
    (n : ℕ) (frame : Frame F)
    (rows : (k : ℕ)
      → k < n
      → frame_row frame k ≡ some (map (λ p. evaluate p (z ⊗ K.pow root k)) polys))
    (count : num_rows frame ≡ n) (outside : (k : ℕ) → k < n → x ≢ z ⊗ K.pow root k)
    (long : length (get_trace_evaluations evaluate polys z (range n) root) ≡ n) where
  -- The terms of the columns `ts`, which follow the columns `pre`.
  pub all_columns_terms-deep_trace_terms :
      (ts pre : List (List F)) (i : ℕ) (gammas acc : List F) (v : F)
      → polys ≡ pre ++ ts
      → i ≡ length pre
      → v ≡ evaluate acc x
      → (acc' : List F) × (deep_trace_terms B air i ts z root
            (get_trace_evaluations evaluate polys z (range n) root)
            (range n)
            gammas
            acc
          ≡ some acc')
        × (all_columns_terms frame x z root
              (map (λ p. evaluate p x) polys)
              i
              (length ts)
              (chunks (length ts) n (drop (i * n) gammas))
              v
            ≡ some (evaluate acc' x))
  unfolding deep_trace_terms all_columns_terms
  all_columns_terms-deep_trace_terms [] pre i gammas acc v e k hv = (acc, refl, ap some hv)
  all_columns_terms-deep_trace_terms (t ∷ ts) pre i gammas acc v e k hv =
      let here : get_elem? polys i ≡ some t =
        ap₂ (λ l j. get_elem? l j) e k ∙ get_elem?-middle pre ts t in
      let value = get_elem?-map (λ p. evaluate p x) polys i t here in
      let (acc₁, p, q) =
        column_terms-deep_terms V B P air polys z root x n frame rows outside n 0 i t
          (drop (i * n) gammas) acc v (omega arith) here hv in
      let (acc', p', q') =
        all_columns_terms-deep_trace_terms ts (pre ++ (t ∷ [])) (suc i) gammas acc₁
          (evaluate acc₁ x) (e ∙ sym (append_assoc pre (t ∷ []) ts))
          (omega (arith, length-append pre (t ∷ []), k)) refl in
      let next : drop n (drop (i * n) gammas) ≡ drop (suc i * n) gammas =
        drop-drop (i * n) n gammas ∙ ap (λ j. drop j gammas) (sym (suc-mul i n)) in
      (
        acc',
        deep_trace_terms-step B air i n t ts z root
            (get_trace_evaluations evaluate polys z (range n) root) (range n) gammas acc acc₁ acc'
            long p p',
        all_columns_terms-step frame x z root (evaluate t x) (map (λ p. evaluate p x) polys) i n
            (length ts) (take n (drop (i * n) gammas))
            (chunks (length ts) n (drop n (drop (i * n) gammas))) v (evaluate acc₁ x)
            (evaluate acc' x) value count q
            (ap
                (λ c.
                  all_columns_terms frame x z root (map (λ p. evaluate p x) polys) (suc i)
                    (length ts) (chunks (length ts) n c) (evaluate acc₁ x))
                next
              ∙ q'),
      )
