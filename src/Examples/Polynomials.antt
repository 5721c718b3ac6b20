-- ===== src/Examples/Polynomials.antt =====
-- Polynomials as lists of coefficients: a concrete instance of what the proof calls.
use lambdaworks_cairo_prover.Prelude.{
  ℕ, zero, suc, ◌+◌, ◌-◌, ◌≡◌, refl, sym, ap, ap₂, ◌∙◌, List, [], ◌∷◌, map, length, drop,
}
use lambdaworks_cairo_prover.Field.{Field, ◌⊕◌, ◌⊖◌, ◌⊗◌, ◌⊘◌}
use lambdaworks_cairo_prover.Field.Laws.{mul-zero, mul-one, zero-mul, add-zero}
use lambdaworks_cairo_prover.Field.Ring.{var, nil, unit, ◌⊞◌, ◌⊟◌, ◌⊠◌, ring, agree}
use lambdaworks_cairo_prover.Stark.Evaluator.{reverse}
use lambdaworks_cairo_prover.Fri.Fold.{evaluate, add_padded, evaluate-add_padded, evaluate-scale}

module _ {F : Type 0} ⦃K : Field F⦄ where
  unfoldable pub poly_sub : List F → List F → List F
  unfolding add_padded
  poly_sub p q = add_padded p (map (λ v. v ⊗ (K.zero ⊖ K.one)) q)

  unfoldable pub poly_mul : List F → List F → List F
  unfolding add_padded
  poly_mul [] q = []
  poly_mul (a ∷ p) q = add_padded (map (λ v. v ⊗ a) q) (K.zero ∷ poly_mul p q)

  unfoldable pub ruffini : List F → F → List F
  ruffini [] b = []
  ruffini (a ∷ p) b = evaluate p b ∷ ruffini p b

  -- The slopes from a point to the others.
  unfoldable pub slopes : F → F → List F → List F → List F
  slopes x y (x' ∷ xs) (y' ∷ ys) = ((y' ⊖ y) ⊘ (x' ⊖ x)) ∷ slopes x y xs ys
  slopes x y _ _ = []

  -- The polynomial with the values `ys` at the points `xs`.
  unfoldable pub interpolate : List F → List F → List F
  unfolding add_padded poly_mul
  interpolate (x ∷ xs) (y ∷ ys) =
      add_padded (y ∷ []) (poly_mul ((K.zero ⊖ x) ∷ K.one ∷ []) (interpolate xs (slopes x y xs ys)))
  interpolate _ _ = []

  -- Division by a polynomial whose leading coefficient is one, both from the leading coefficient on.
  unfoldable pub divide : ℕ → List F → List F → List F
  unfolding poly_sub
  divide zero p q = []
  divide (suc n) [] q = []
  divide (suc n) (a ∷ p) q = a ∷ divide n (poly_sub p (map (λ v. v ⊗ a) q)) q

  unfoldable pub poly_div : List F → List F → List F
  unfolding divide
  poly_div p q = reverse (divide (length p + 1 - length q) (reverse p) (drop 1 (reverse q)))

  unfoldable pub monomial : F → ℕ → List F
  monomial a zero = a ∷ []
  monomial a (suc n) = K.zero ∷ monomial a n

  pub evaluate-poly_sub :
      (p q : List F) (x : F) → evaluate (poly_sub p q) x ≡ evaluate p x ⊖ evaluate q x
  unfolding poly_sub agree
  evaluate-poly_sub p q x =
      evaluate-add_padded p (map (λ v. v ⊗ (K.zero ⊖ K.one)) q) x
      ∙ ap (λ v. evaluate p x ⊕ v) (evaluate-scale q (K.zero ⊖ K.one) x)
      ∙ (let P = var 0 in
          let Q = var 1 in
          ring (evaluate p x ∷ evaluate q x ∷ []) (P ⊞ (nil ⊟ unit) ⊠ Q) (P ⊟ Q) refl)

  pub evaluate-poly_mul :
      (p q : List F) (x : F) → evaluate (poly_mul p q) x ≡ evaluate p x ⊗ evaluate q x
  unfolding poly_mul agree
  evaluate-poly_mul [] q x = sym (zero-mul (evaluate q x))
  evaluate-poly_mul (a ∷ p) q x =
      evaluate-add_padded (map (λ v. v ⊗ a) q) (K.zero ∷ poly_mul p q) x
      ∙ ap₂ (λ u v. u ⊕ (K.zero ⊕ x ⊗ v)) (evaluate-scale q a x) (evaluate-poly_mul p q x)
      ∙ (let A = var 0 in
          let X = var 1 in
          let P = var 2 in
          let Q = var 3 in
          ring (a ∷ x ∷ evaluate p x ∷ evaluate q x ∷ []) (A ⊠ Q ⊞ (nil ⊞ X ⊠ (P ⊠ Q)))
            ((A ⊞ X ⊠ P) ⊠ Q) refl)

  pub evaluate-monomial : (a x : F) (n : ℕ) → evaluate (monomial a n) x ≡ a ⊗ K.pow x n
  unfolding monomial agree
  evaluate-monomial a x zero =
      ap (λ v. a ⊕ v) (mul-zero x)
      ∙ add-zero a
      ∙ sym (mul-one a)
      ∙ ap (λ v. a ⊗ v) (sym (K.pow-zero x))
  evaluate-monomial a x (suc n) =
      ap (λ v. K.zero ⊕ x ⊗ v) (evaluate-monomial a x n)
      ∙ (let A = var 0 in
          let X = var 1 in
          let P = var 2 in ring (a ∷ x ∷ K.pow x n ∷ []) (nil ⊞ X ⊠ (A ⊠ P)) (A ⊠ (P ⊠ X)) refl)
      ∙ ap (λ v. a ⊗ v) (sym (K.pow-suc x n))

  pub evaluate-ruffini :
      (p : List F) (b x : F) → evaluate p x ≡ (x ⊖ b) ⊗ evaluate (ruffini p b) x ⊕ evaluate p b
  unfolding ruffini agree
  evaluate-ruffini [] b x = sym (add-zero _ ∙ mul-zero (x ⊖ b))
  evaluate-ruffini (a ∷ p) b x =
      ap (λ v. a ⊕ x ⊗ v) (evaluate-ruffini p b x)
      ∙ (let A = var 0 in
          let B = var 1 in
          let X = var 2 in
          let Q = var 3 in
          let V = var 4 in
          ring (a ∷ b ∷ x ∷ evaluate (ruffini p b) x ∷ evaluate p b ∷ [])
            (A ⊞ X ⊠ ((X ⊟ B) ⊠ Q ⊞ V)) ((X ⊟ B) ⊠ (V ⊞ X ⊠ Q) ⊞ (A ⊞ B ⊠ V)) refl)
