-- ===== src/Stark/Exemptions.antt =====
-- air/traits.rs, `transition_exemptions`: where the exemption polynomials are zero.
use lambdaworks_cairo_prover.Prelude.{
  ℕ, zero, suc, ◌+◌, ◌-◌, ◌<◌, ◌≤◌, ◌≡◌, ◌↔◌, ◌⊎◌, inl, inr, refl, sym, ap, ap₂, ◌∙◌, arith, some,
  List, [], ◌∷◌, foldl, take, length, get_elem?, length-append, get_elem?-append_left,
  get_elem?-append_right, some_injective,
}
use lambdaworks_cairo_prover.Field.{Field, HasInverses, ◌⊖◌, ◌⊗◌}
use lambdaworks_cairo_prover.Field.Laws.{
  zero_product, zero-mul, mul-zero, sub_self, eq_of_sub-eq-zero,
}
use lambdaworks_cairo_prover.Fri.Fold.{evaluate}
use lambdaworks_cairo_prover.Stark.Backend.{Backend, HasPolynomials}
use lambdaworks_cairo_prover.Stark.DeepTerms.{evaluate-constant}
use lambdaworks_cairo_prover.Stark.Evaluator.{reverse, exemption_poly}

module _ {A : Type 0} where
  length-reverse : (xs : List A) → length (reverse xs) ≡ length xs
  length-reverse [] = refl
  length-reverse (x ∷ xs) = omega (arith, length-append (reverse xs) (x ∷ []), length-reverse xs)

  get_elem?-reverse :
      (xs : List A) (i j : ℕ) → i + j + 1 ≡ length xs → get_elem? (reverse xs) j ≡ get_elem? xs i
  get_elem?-reverse [] i j h = absurd (omega arith)
  get_elem?-reverse (x ∷ xs) zero j h =
      get_elem?-append_right 0 j (reverse xs) (x ∷ []) (omega (arith, length-reverse xs))
  get_elem?-reverse (x ∷ xs) (suc i) j h =
      get_elem?-append_left j (reverse xs) (x ∷ []) (omega (arith, length-reverse xs))
      ∙ get_elem?-reverse xs i j (omega arith)

  get_elem?-inside : (xs : List A) (i : ℕ) (x : A) → get_elem? xs i ≡ some x → i < length xs
  get_elem?-inside [] i x h = cc
  get_elem?-inside (y ∷ xs) zero x h = omega arith
  get_elem?-inside (y ∷ xs) (suc i) x h = omega (arith, get_elem?-inside xs i x h)

  get_elem?-take :
      (n j : ℕ) (xs : List A) (x : A)
      → (get_elem? (take n xs) j ≡ some x) ↔ ((j < n) × (get_elem? xs j ≡ some x))
  get_elem?-take zero j xs x = (λ h. cc, λ h. absurd (omega (arith, h.0)))
  get_elem?-take (suc n) j [] x = (λ h. cc, λ h. h.1)
  get_elem?-take (suc n) zero (y ∷ xs) x = (λ h. (omega arith, h), λ h. h.1)
  get_elem?-take (suc n) (suc j) (y ∷ xs) x =
      let ih = get_elem?-take n j xs x in
      (λ h. (let (a, b) = ih.0 h in (omega arith, b)), λ h. ih.1 (omega (arith, h.0), h.1))

module _ {F Tree AuthPath : Type 0} ⦃K : Field F⦄ (V : HasInverses K) (B : Backend F Tree AuthPath)
    (P : HasPolynomials K B) where
  -- The loop over the exempted roots.
  abbrev times_roots : List F → List F → List F
  times_roots acc roots =
      foldl (λ acc root. B.poly_mul acc (B.poly_sub (B.new_monomial K.one 1) (root ∷ []))) acc roots

  factor :
      (acc : List F) (root x : F)
      → evaluate (B.poly_mul acc (B.poly_sub (B.new_monomial K.one 1) (root ∷ []))) x
        ≡ evaluate acc x ⊗ (x ⊖ root)
  factor acc root x =
      P.evaluate-poly_mul acc (B.poly_sub (B.new_monomial K.one 1) (root ∷ [])) x
      ∙ ap (λ v. evaluate acc x ⊗ v)
          (P.evaluate-poly_sub (B.new_monomial K.one 1) (root ∷ []) x
            ∙ ap₂ (λ u v. u ⊖ v)
                (P.evaluate-new_monomial K.one x 1
                  ∙ K.one-mul (K.pow x 1)
                  ∙ K.pow-suc x 0
                  ∙ ap (λ v. v ⊗ x) (K.pow-zero x)
                  ∙ K.one-mul x)
                (evaluate-constant V B P root x))

  times_roots-zero :
      (roots acc : List F) (x : F)
      → (evaluate (times_roots acc roots) x ≡ K.zero)
        ↔ ((evaluate acc x ≡ K.zero) ⊎ ((j : ℕ) × (get_elem? roots j ≡ some x)))
  times_roots-zero [] acc x = (λ h. inl h, λ h. elim h [ inl e ↦ e | inr (j, e) ↦ cc ])
  times_roots-zero (root ∷ roots) acc x =
      let next = B.poly_mul acc (B.poly_sub (B.new_monomial K.one 1) (root ∷ [])) in
      let ih = times_roots-zero roots next x in
      (
        λ h. elim (ih.0 h) [
          | inr (j, e) ↦ inr (suc j, e)
          | inl e ↦
              elim (zero_product V (evaluate acc x) (x ⊖ root) (sym (factor acc root x) ∙ e)) [
                | inl z ↦ inl z
                | inr z ↦ inr (0, ap some (sym (eq_of_sub-eq-zero x root z)))
              ]
        ],
        λ h. ih.1 (elim h [
          | inl z ↦ inl (factor acc root x ∙ ap (λ v. v ⊗ (x ⊖ root)) z ∙ zero-mul (x ⊖ root))
          | inr (j, e) ↦ at_index next j e
        ]),
      )
    where
      at_index :
          (next : List F) (j : ℕ)
          → get_elem? (root ∷ roots) j ≡ some x
          → (evaluate (B.poly_mul acc (B.poly_sub (B.new_monomial K.one 1) (root ∷ []))) x ≡ K.zero)
            ⊎ ((j : ℕ) × (get_elem? roots j ≡ some x))
      at_index next zero e = inl (
          factor acc root x
          ∙ ap (λ v. evaluate acc x ⊗ (x ⊖ v)) (some_injective e)
          ∙ ap (λ v. evaluate acc x ⊗ v) (sub_self x)
          ∙ mul-zero (evaluate acc x))
      at_index next (suc j) e = inr (j, e)

  -- In a field with inverses and with polynomials whose differences and products are those of their
  -- values: if a root of unity stands at the place i of the powers and at no other, then the
  -- exemption polynomial for k exempted rows is zero at it exactly when i is one of the last k
  -- places.
  pub exemption_poly-zero :
      (roots : List F) (k i : ℕ) (x : F)
      → get_elem? roots i ≡ some x
      → ((j : ℕ) → get_elem? roots j ≡ some x → j ≡ i)
      → (evaluate (exemption_poly B roots k) x ≡ K.zero) ↔ (length roots ≤ i + k)
  unfolding exemption_poly
  exemption_poly-zero roots k i x here once =
      let spec = times_roots-zero (take k (reverse roots)) (B.new_monomial K.one 0) x in
      let one : evaluate (B.new_monomial K.one 0) x ≡ K.one =
        P.evaluate-new_monomial K.one x 0 ∙ K.one-mul (K.pow x 0) ∙ K.pow-zero x in
      let inside = get_elem?-inside roots i x here in
      (
        λ h. elim (spec.0 h) [
          | inl z ↦ absurd (V.one-ne-zero (sym one ∙ z))
          | inr (j, e) ↦
              let (small, there) = (get_elem?-take k j (reverse roots) x).0 e in
              let bound = get_elem?-inside (reverse roots) j x there in
              let long = length-reverse roots in
              let i' : ℕ = length roots - 1 - j in
              let same : i' ≡ i =
                once i' (sym (get_elem?-reverse roots i' j (omega (arith, bound, long))) ∙ there) in
              omega (arith, same, small, bound, long)
        ],
        λ h. spec.1 (
            inr (
              length roots - 1 - i,
              (get_elem?-take k (length roots - 1 - i) (reverse roots) x).1 (
                omega (arith, inside),
                get_elem?-reverse roots i (length roots - 1 - i) (omega (arith, inside)) ∙ here,
              ),
            )),
      )
