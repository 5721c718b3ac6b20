-- ===== src/Fri/Fold.antt =====
-- fri/fri_functions.rs, `fold_polynomial`, and the folding of two evaluations in verifier.rs.
-- A polynomial is the list of its coefficients, the lowest first, as `coefficients` gives it;
-- trailing zeros, which `Polynomial::new` drops, are kept.
use lambdaworks_cairo_prover.Prelude.{
  ◌≡◌, ◌≢◌, inl, inr, refl, sym, ap, ap₂, ◌∙◌, List, [], ◌∷◌, map,
}
use lambdaworks_cairo_prover.Field.{Field, HasInverses, ◌⊕◌, ◌⊖◌, ◌⊗◌, ◌⊘◌}
use lambdaworks_cairo_prover.Field.Laws.{
  zero_product, mul-div, from-add, from-one, units, zero-add, add-zero, mul-zero,
}
use lambdaworks_cairo_prover.Field.Ring.{var, nil, unit, ◌⊞◌, ◌⊟◌, ◌⊠◌, ring, agree}

module _ {F : Type 0} ⦃K : Field F⦄ where
  -- The value of a polynomial, as `evaluate` of lambdaworks-math documents it.
  abbrev pub evaluate : List F → F → F
  evaluate [] x = K.zero
  evaluate (a ∷ p) x = a ⊕ x ⊗ evaluate p x

  -- `step_by(2)` from the first coefficient, and after a `skip(1)`.
  unfoldable pub evens : List F → List F
  evens [] = []
  evens (a ∷ []) = a ∷ []
  evens (a ∷ b ∷ p) = a ∷ evens p

  unfoldable pub odds : List F → List F
  odds [] = []
  odds (a ∷ []) = []
  odds (a ∷ b ∷ p) = b ∷ odds p

  -- The sum of two coefficient lists, the shorter padded with zeros.
  unfoldable pub add_padded : List F → List F → List F
  add_padded [] q = q
  add_padded (a ∷ p) [] = a ∷ p
  add_padded (a ∷ p) (b ∷ q) = (a ⊕ b) ∷ add_padded p q

  unfoldable pub fold_polynomial : List F → F → List F
  unfolding evens odds add_padded
  fold_polynomial poly beta = add_padded (evens poly) (map (λ v. v ⊗ beta) (odds poly))

  -- `v = (v + sym) / 2 + beta * (v - sym) / (2 * point)`
  unfoldable pub fold_value : F → F → F → F → F
  fold_value beta point v evaluation_sym =
      (v ⊕ evaluation_sym) ⊘ K.from 2 ⊕ beta ⊗ (v ⊖ evaluation_sym) ⊘ (K.from 2 ⊗ point)

  pub evaluate-add_padded :
      (p q : List F) (x : F) → evaluate (add_padded p q) x ≡ evaluate p x ⊕ evaluate q x
  unfolding add_padded agree
  evaluate-add_padded [] q x = sym (zero-add (evaluate q x))
  evaluate-add_padded (a ∷ p) [] x = sym (add-zero (evaluate (a ∷ p) x))
  evaluate-add_padded (a ∷ p) (b ∷ q) x =
      ap (λ s. a ⊕ b ⊕ x ⊗ s) (evaluate-add_padded p q x)
      ∙ (let A = var 0 in
          let B = var 1 in
          let X = var 2 in
          let P = var 3 in
          let Q = var 4 in
          ring (a ∷ b ∷ x ∷ evaluate p x ∷ evaluate q x ∷ []) (A ⊞ B ⊞ X ⊠ (P ⊞ Q))
            (A ⊞ X ⊠ P ⊞ (B ⊞ X ⊠ Q)) refl)

  pub evaluate-scale :
      (p : List F) (beta x : F) → evaluate (map (λ v. v ⊗ beta) p) x ≡ beta ⊗ evaluate p x
  unfolding agree
  evaluate-scale [] beta x = sym (mul-zero beta)
  evaluate-scale (a ∷ p) beta x =
      ap (λ s. a ⊗ beta ⊕ x ⊗ s) (evaluate-scale p beta x)
      ∙ (let A = var 0 in
          let B = var 1 in
          let X = var 2 in
          let P = var 3 in
          ring (a ∷ beta ∷ x ∷ evaluate p x ∷ []) (A ⊠ B ⊞ X ⊠ (B ⊠ P)) (B ⊠ (A ⊞ X ⊠ P)) refl)

  -- A polynomial is its even part and `x` times its odd part, at the square.
  evaluate-evens-odds :
      (p : List F) (x : F)
      → evaluate p x ≡ evaluate (evens p) (x ⊗ x) ⊕ x ⊗ evaluate (odds p) (x ⊗ x)
  unfolding evens odds agree
  evaluate-evens-odds [] x = sym (zero-add _ ∙ mul-zero x)
  evaluate-evens-odds (a ∷ []) x = simp units
  evaluate-evens-odds (a ∷ b ∷ p) x =
      ap (λ s. a ⊕ x ⊗ (b ⊕ x ⊗ s)) (evaluate-evens-odds p x)
      ∙ (let A = var 0 in
          let B = var 1 in
          let X = var 2 in
          let P = var 3 in
          let Q = var 4 in
          ring (a ∷ b ∷ x ∷ evaluate (evens p) (x ⊗ x) ∷ evaluate (odds p) (x ⊗ x) ∷ [])
            (A ⊞ X ⊠ (B ⊞ X ⊠ (P ⊞ X ⊠ Q))) (A ⊞ X ⊠ X ⊠ P ⊞ X ⊠ (B ⊞ X ⊠ X ⊠ Q)) refl)

  module _ (V : HasInverses K) where
    -- In a field with inverses where two is not zero: folding the values of a polynomial at a point
    -- that is not zero and at its opposite, as the verifier does, gives the value of the folded
    -- polynomial at the square of the point.
    pub fold_value-fold_polynomial :
        (p : List F) (beta x : F)
        → K.from 2 ≢ K.zero
        → x ≢ K.zero
        → fold_value beta x (evaluate p x) (evaluate p (K.zero ⊖ x))
          ≡ evaluate (fold_polynomial p beta) (x ⊗ x)
    unfolding fold_value fold_polynomial agree
    fold_value-fold_polynomial p beta x two ne =
        let e = evaluate (evens p) (x ⊗ x) in
        let o = evaluate (odds p) (x ⊗ x) in
        let square : (K.zero ⊖ x) ⊗ (K.zero ⊖ x) ≡ x ⊗ x =
          let X = var 0 in ring (x ∷ []) ((nil ⊟ X) ⊠ (nil ⊟ X)) (X ⊠ X) refl in
        let at : evaluate p x ≡ e ⊕ x ⊗ o = evaluate-evens-odds p x in
        let opposite : evaluate p (K.zero ⊖ x) ≡ e ⊕ (K.zero ⊖ x) ⊗ o =
          evaluate-evens-odds p (K.zero ⊖ x)
          ∙ ap (λ s. evaluate (evens p) s ⊕ (K.zero ⊖ x) ⊗ evaluate (odds p) s) square in
        let t : K.from 2 ≡ K.one ⊕ K.one =
          from-add 1 1 ∙ ap₂ (λ a b. a ⊕ b) (from-one ⦃K = K⦄) (from-one ⦃K = K⦄) in
        let X = var 0 in
        let E = var 1 in
        let O = var 2 in
        let B = var 3 in
        let env = x ∷ e ∷ o ∷ beta ∷ [] in
        let sum : e ⊕ x ⊗ o ⊕ (e ⊕ (K.zero ⊖ x) ⊗ o) ≡ K.from 2 ⊗ e =
          ring env (E ⊞ X ⊠ O ⊞ (E ⊞ (nil ⊟ X) ⊠ O)) ((unit ⊞ unit) ⊠ E) refl
          ∙ ap (λ s. s ⊗ e) (sym t) in
        let difference : beta ⊗ (e ⊕ x ⊗ o ⊖ (e ⊕ (K.zero ⊖ x) ⊗ o)) ≡ K.from 2 ⊗ x ⊗ (beta ⊗ o) =
          ring env (B ⊠ (E ⊞ X ⊠ O ⊟ (E ⊞ (nil ⊟ X) ⊠ O))) ((unit ⊞ unit) ⊠ X ⊠ (B ⊠ O)) refl
          ∙ ap (λ s. s ⊗ x ⊗ (beta ⊗ o)) (sym t) in
        let nonzero : K.from 2 ⊗ x ≢ K.zero =
          λ z. elim (zero_product V (K.from 2) x z) [ inl h ↦ two h | inr h ↦ ne h ] in
        ap₂ (λ a b. (a ⊕ b) ⊘ K.from 2 ⊕ beta ⊗ (a ⊖ b) ⊘ (K.from 2 ⊗ x)) at opposite
        ∙ ap₂ (λ a b. a ⊘ K.from 2 ⊕ b ⊘ (K.from 2 ⊗ x)) sum difference
        ∙ ap₂ (λ a b. a ⊕ b) (mul-div V (K.from 2) e two)
            (mul-div V (K.from 2 ⊗ x) (beta ⊗ o) nonzero)
        ∙ ap (λ s. e ⊕ s) (sym (evaluate-scale (odds p) beta (x ⊗ x)))
        ∙ sym (evaluate-add_padded (evens p) (map (λ v. v ⊗ beta) (odds p)) (x ⊗ x))
