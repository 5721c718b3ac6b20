-- ===== src/Air/Example/Permuted.antt =====
-- air/example/fibonacci_rap.rs: the auxiliary column of the trace.
use lambdaworks_cairo_prover.Prelude.{
  ℕ, zero, suc, ◌-◌, ◌≡◌, ◌≢◌, refl, sym, ap, ◌∙◌, arith, inl, inr, some, List, [], ◌∷◌, ◌++◌, All,
  length, length-append, set, get_elem?, get_or, subst, and_then, and_then-eq-some, some_injective,
}
use lambdaworks_cairo_prover.Field.{Field, HasInverses, ◌⊕◌, ◌⊗◌, ◌⊘◌}
use lambdaworks_cairo_prover.Field.Laws.{zero_product, mul-one, sub-eq-zero}
use lambdaworks_cairo_prover.Field.Ring.{var, ◌⊠◌, ring, agree}
use lambdaworks_cairo_prover.Air.Example.Recurrences.{
  fibonacci_from, fibonacci_column, fibonacci_rap_trace,
}
use lambdaworks_cairo_prover.Air.Example.Rap.{rap_products, rap_column, rap_constraint}

module _ {F : Type 0} ⦃K : Field F⦄ (gamma : F) where
  -- The product of the values, each plus `gamma`.
  abbrev shifted_product : List F → F
  shifted_product [] = K.one
  shifted_product (x ∷ xs) = (x ⊕ gamma) ⊗ shifted_product xs

  abbrev pub Invertible : List F → Type 0
  Invertible xs = All (λ x. x ⊕ gamma ≢ K.zero) xs

  -- Consecutive values of the column satisfy its constraint.
  abbrev Steps : F → List F → List F → List F → Type 0
  Steps z (z' ∷ zs) (a ∷ as') (b ∷ bs) =
      (rap_constraint gamma z z' a b ≡ K.zero) × Steps z' zs as' bs
  Steps z zs as' bs = Unit

  abbrev last_of : F → List F → F
  last_of z [] = z
  last_of z (z' ∷ zs) = last_of z' zs

  -- The column over the rows of two columns: it starts with one, each two consecutive values satisfy
  -- the constraint, and the last is one.
  abbrev pub HasRunningProduct : List F → List F → Type 0
  unfolding rap_column
  HasRunningProduct not_perm perm =
      (zs : List F) × (rap_column gamma (length not_perm) not_perm perm ≡ some (K.one ∷ zs))
      × (length (K.one ∷ zs) ≡ length not_perm)
      × Steps K.one zs not_perm perm
      × (last_of K.one zs ≡ K.one)

module _ {F : Type 0} ⦃K : Field F⦄ (V : HasInverses K) (gamma : F) where
  -- Exchanging a value for another exchanges its factor.
  product-set :
      (xs : List F) (m : ℕ) (old new : F)
      → get_elem? xs m ≡ some old
      → (old ⊕ gamma) ⊗ shifted_product gamma (set xs m new)
        ≡ (new ⊕ gamma) ⊗ shifted_product gamma xs
  unfolding agree
  product-set [] m old new h = cc
  product-set (x ∷ xs) zero old new h =
      ap (λ v. (v ⊕ gamma) ⊗ ((new ⊕ gamma) ⊗ shifted_product gamma xs)) (sym (some_injective h))
      ∙ (let A = var 0 in
          let B = var 1 in
          let P = var 2 in
          ring ((x ⊕ gamma) ∷ (new ⊕ gamma) ∷ shifted_product gamma xs ∷ []) (A ⊠ (B ⊠ P))
            (B ⊠ (A ⊠ P)) refl)
  product-set (x ∷ xs) (suc m) old new h =
      (let A = var 0 in
        let B = var 1 in
        let P = var 2 in
        ring ((old ⊕ gamma) ∷ (x ⊕ gamma) ∷ shifted_product gamma (set xs m new) ∷ []) (A ⊠ (B ⊠ P))
          (B ⊠ (A ⊠ P)) refl)
      ∙ ap (λ v. (x ⊕ gamma) ⊗ v) (product-set xs m old new h)
      ∙ (let A = var 0 in
          let B = var 1 in
          let P = var 2 in
          ring ((x ⊕ gamma) ∷ (new ⊕ gamma) ∷ shifted_product gamma xs ∷ []) (A ⊠ (B ⊠ P))
            (B ⊠ (A ⊠ P)) refl)

  -- The first value and the value `m` change places.
  product-swap :
      (x : F) (xs : List F) (m : ℕ) (last : F)
      → get_elem? (x ∷ xs) m ≡ some last
      → shifted_product gamma (set (set (x ∷ xs) 0 last) m x) ≡ shifted_product gamma (x ∷ xs)
  product-swap x xs zero last h = refl
  product-swap x xs (suc m) last h = product-set xs m last x h

  quotient : (z a b : F) → b ≢ K.zero → z ⊗ (a ⊘ b) ⊗ b ≡ z ⊗ a
  unfolding agree
  quotient z a b ne =
      ap (λ v. z ⊗ v ⊗ b) (K.div_def a b)
      ∙ (let Z = var 0 in
          let A = var 1 in
          let B = var 2 in
          let I = var 3 in ring (z ∷ a ∷ b ∷ K.inv b ∷ []) (Z ⊠ (A ⊠ I) ⊠ B) (Z ⊠ A ⊠ (B ⊠ I)) refl)
      ∙ ap (λ v. z ⊗ a ⊗ v) (V.mul-inv b ne)
      ∙ mul-one (z ⊗ a)

  -- The products over the first columns `as'` and `bs`, whatever follows them.
  rap_products_lem :
      (z : F) (as' bs after after' : List F)
      → length as' ≡ length bs
      → Invertible gamma bs
      → (zs : List F) × (rap_products gamma z (length as') (as' ++ after) (bs ++ after') ≡ some zs)
        × (length zs ≡ length as')
        × (last_of gamma z zs ⊗ shifted_product gamma bs ≡ z ⊗ shifted_product gamma as')
        × Steps gamma z zs (as' ++ after) (bs ++ after')
  unfolding rap_products rap_constraint agree
  rap_products_lem z [] [] after after' e inv = ([], refl, refl, refl, _)
  rap_products_lem z [] (b ∷ bs) after after' e inv = absurd (omega arith)
  rap_products_lem z (a ∷ as') [] after after' e inv = absurd (omega arith)
  rap_products_lem z (a ∷ as') (b ∷ bs) after after' e (ne, inv) =
      let next = z ⊗ ((a ⊕ gamma) ⊘ (b ⊕ gamma)) in
      let (zs, p, long, product, steps) =
        rap_products_lem next as' bs after after' (omega arith) inv in
      let exchanged = quotient z (a ⊕ gamma) (b ⊕ gamma) ne in
      (
        next ∷ zs,
        rw p refl,
        ap suc long,
        (let A = var 0 in
              let B = var 1 in
              let P = var 2 in
              ring (last_of gamma next zs ∷ (b ⊕ gamma) ∷ shifted_product gamma bs ∷ [])
                (A ⊠ (B ⊠ P)) (A ⊠ P ⊠ B) refl)
            ∙ ap (λ v. v ⊗ (b ⊕ gamma)) product
            ∙ (let N = var 0 in
                let P = var 1 in
                let B = var 2 in
                ring (next ∷ shifted_product gamma as' ∷ (b ⊕ gamma) ∷ []) (N ⊠ P ⊠ B) (N ⊠ B ⊠ P)
                  refl)
            ∙ ap (λ v. v ⊗ shifted_product gamma as') exchanged
            ∙ K.mul_assoc z (a ⊕ gamma) (shifted_product gamma as'),
        (sub-eq-zero (next ⊗ (b ⊕ gamma)) (z ⊗ (a ⊕ gamma)) exchanged, steps),
      )

  length-set : (xs : List F) (i : ℕ) (v : F) → length (set xs i v) ≡ length xs
  length-set [] i v = refl
  length-set (x ∷ xs) zero v = refl
  length-set (x ∷ xs) (suc i) v = ap suc (length-set xs i v)

  Invertible-append : (xs ys : List F) → Invertible gamma (xs ++ ys) → Invertible gamma xs
  Invertible-append [] ys h = _
  Invertible-append (x ∷ xs) ys h = (h.0, Invertible-append xs ys h.1)

  product-nonzero : (xs : List F) → Invertible gamma xs → shifted_product gamma xs ≢ K.zero
  product-nonzero [] h e = V.one-ne-zero e
  product-nonzero (x ∷ xs) h e = elim (zero_product V (x ⊕ gamma) (shifted_product gamma xs) e) [
    | inl z ↦ h.0 z
    | inr z ↦ product-nonzero xs h.1 z
  ]

  one_of_mul-eq : (x p : F) → p ≢ K.zero → x ⊗ p ≡ K.one ⊗ p → x ≡ K.one
  one_of_mul-eq x p ne e =
      sym (mul-one x)
      ∙ ap (λ v. x ⊗ v) (sym (V.mul-inv p ne))
      ∙ sym (K.mul_assoc x p (K.inv p))
      ∙ ap (λ v. v ⊗ K.inv p) (e ∙ K.one-mul p)
      ∙ V.mul-inv p ne

  -- The columns of the trace, without the values they have.
  HasRunningProduct-swap :
      (x : F) (xs : List F) (m : ℕ) (last : F)
      → get_elem? (x ∷ xs) m ≡ some last
      → Invertible gamma (set (set (x ∷ xs) 0 last) m x ++ (K.zero ∷ []))
      → HasRunningProduct gamma
          ((x ∷ xs) ++ (K.zero ∷ []))
          (set (set (x ∷ xs) 0 last) m x ++ (K.zero ∷ []))
  unfolding rap_column
  HasRunningProduct-swap x xs m last h inv =
      let seq = x ∷ xs in
      let permuted = set (set seq 0 last) m x in
      let same_length : length permuted ≡ length seq =
        length-set (set seq 0 last) m x ∙ length-set seq 0 last in
      let short = Invertible-append permuted (K.zero ∷ []) inv in
      let (zs, p, long, product, steps) =
        rap_products_lem K.one seq permuted (K.zero ∷ []) (K.zero ∷ []) (sym same_length) short in
      let rows : length (seq ++ (K.zero ∷ [])) ≡ suc (length seq) =
        length-append seq (K.zero ∷ []) ∙ omega arith in
      (
        zs,
        ap (λ v. rap_column gamma v (seq ++ (K.zero ∷ [])) (permuted ++ (K.zero ∷ []))) rows
            ∙ ap (λ v. and_then v λ rest. some (K.one ∷ rest)) p,
        ap suc long ∙ sym rows,
        steps,
        one_of_mul-eq (last_of gamma K.one zs) (shifted_product gamma permuted)
            (product-nonzero permuted short)
            (product ∙ ap (λ v. K.one ⊗ v) (sym (product-swap x xs m last h))),
      )

  -- In a field with inverses: if the trace of the Fibonacci RAP from two values, of n + 1 rows, has the
  -- columns not_perm and perm, and no value of perm plus gamma is zero, then its auxiliary column is
  -- there and starts with one, each two consecutive values of it satisfy the permutation constraint
  -- with the values of their first row, and its last value is one.
  pub rap_column-fibonacci_rap_trace :
      (a b : F) (n : ℕ) (not_perm perm : List F)
      → fibonacci_rap_trace (a, b) (suc n) ≡ some (not_perm ∷ perm ∷ [])
      → Invertible gamma perm
      → HasRunningProduct gamma not_perm perm
  unfolding fibonacci_rap_trace fibonacci_column
  rap_column-fibonacci_rap_trace a b n not_perm perm h inv =
      let tail = b ∷ fibonacci_from a b (suc n - 2) in
      let (last, p, q) = and_then-eq-some (get_elem? (a ∷ tail) n) _ h in
      let columns = some_injective q in
      subst (λ c. HasRunningProduct gamma (get_or c 0 []) (get_or c 1 [])) columns
        (HasRunningProduct-swap a tail n last p
          (subst (λ c. Invertible gamma (get_or c 1 [])) (sym columns) inv))
