-- ===== src/Stark/DeepTerms.antt =====
-- The terms of the DEEP polynomial, at a point, are the terms that the verifier adds up.
use lambdaworks_cairo_prover.Prelude.{
  ℕ, zero, suc, ◌+◌, ◌<◌, ◌≡◌, ◌≢◌, refl, sym, ap, ap₂, ◌∙◌, arith, some, List, [], ◌∷◌, map, take,
  get_elem?, range_from,
}
use lambdaworks_cairo_prover.Field.{Field, HasInverses, ◌⊕◌, ◌⊖◌, ◌⊗◌, ◌⊘◌}
use lambdaworks_cairo_prover.Field.Laws.{mul-div, add-zero, mul-zero, sub_self, eq_of_sub-eq-zero}
use lambdaworks_cairo_prover.Air.Frame.{Frame, frame_row, get_trace_evaluations}
use lambdaworks_cairo_prover.Air.Interface.{Air}
use lambdaworks_cairo_prover.Fri.Fold.{evaluate}
use lambdaworks_cairo_prover.Stark.Backend.{Backend, HasPolynomials}
use lambdaworks_cairo_prover.Stark.Rounds.{deep_terms}
use lambdaworks_cairo_prover.Stark.Reconstruct.{column_terms}

pub get_elem?-map :
    {A B : Type 0} (f : A → B) (xs : List A) (i : ℕ) (x : A)
    → get_elem? xs i ≡ some x
    → get_elem? (map f xs) i ≡ some (f x)
get_elem?-map f [] i x h = cc
get_elem?-map f (y ∷ xs) zero x h = cc
get_elem?-map f (y ∷ xs) (suc i) x h = get_elem?-map f xs i x h

module _ {F Tree AuthPath : Type 0} ⦃K : Field F⦄ (V : HasInverses K) (B : Backend F Tree AuthPath)
    (P : HasPolynomials K B) where
  pub evaluate-constant : (a x : F) → evaluate (a ∷ []) x ≡ a
  evaluate-constant a x = ap (λ y. a ⊕ y) (mul-zero x) ∙ add-zero a

  -- Dividing by `X - b` what is zero at `b` gives, elsewhere, the quotient of the values.
  pub evaluate-quotient :
      (p : List F) (b x : F)
      → evaluate p b ≡ K.zero
      → x ≢ b
      → evaluate p x ⊘ (x ⊖ b) ≡ evaluate (B.ruffini_division p b) x
  evaluate-quotient p b x root ne =
      ap (λ v. v ⊘ (x ⊖ b))
        (P.evaluate-ruffini_division p b x
          ∙ ap (λ v. (x ⊖ b) ⊗ evaluate (B.ruffini_division p b) x ⊕ v) root
          ∙ add-zero _)
      ∙ mul-div V (x ⊖ b) _ (λ z. ne (eq_of_sub-eq-zero x b z))

  -- A term of the DEEP polynomial at `x`: `value` is that of `p` at `b`.
  pub evaluate-term :
      (p : List F) (b x value : F)
      → value ≡ evaluate p b
      → x ≢ b
      → (evaluate p x ⊖ value) ⊘ (x ⊖ b)
        ≡ evaluate (B.ruffini_division (B.poly_sub p (value ∷ [])) b) x
  evaluate-term p b x value at ne =
      let less : (y : F) → evaluate (B.poly_sub p (value ∷ [])) y ≡ evaluate p y ⊖ value = λ y.
        P.evaluate-poly_sub p (value ∷ []) y
        ∙ ap (λ v. evaluate p y ⊖ v) (evaluate-constant value y) in
      ap (λ v. v ⊘ (x ⊖ b)) (sym (less x))
      ∙ evaluate-quotient (B.poly_sub p (value ∷ [])) b x
          (less b ∙ ap (λ v. evaluate p b ⊖ v) at ∙ sub_self (evaluate p b)) ne

  module _ {RawTrace RapChallenges PublicInput T : Type 0}
      (air : Air F RawTrace RapChallenges PublicInput T) (polys : List (List F)) (z root x : F)
      (n : ℕ) (frame : Frame F)
      (rows : (k : ℕ)
        → k < n
        → frame_row frame k ≡ some (map (λ p. evaluate p (z ⊗ K.pow root k)) polys))
      (outside : (k : ℕ) → k < n → x ≢ z ⊗ K.pow root k) where
    -- The terms of a column from the row `k` on.
    pub column_terms-deep_terms :
        (m k i : ℕ) (t : List F) (gammas acc : List F) (v : F)
        → k + m ≡ n
        → get_elem? polys i ≡ some t
        → v ≡ evaluate acc x
        → (acc' : List F) × (deep_terms B air i t z root
              (get_trace_evaluations evaluate polys z (range_from k m) root)
              (range_from k m)
              gammas
              acc
            ≡ some acc')
          × (column_terms frame x z root (evaluate t x) i k m (take m gammas) v
              ≡ some (evaluate acc' x))
    unfolding deep_terms column_terms get_trace_evaluations
    column_terms-deep_terms zero k i t gammas acc v e h hv = (acc, refl, ap some hv)
    column_terms-deep_terms (suc m) k i t [] acc v e h hv = (acc, refl, ap some hv)
    column_terms-deep_terms (suc m) k i t (g ∷ gammas) acc v e h hv =
        let b = z ⊗ K.pow root k in
        let value = evaluate t b in
        let opened : get_elem? (map (λ p. evaluate p b) polys) i ≡ some value =
          get_elem?-map (λ p. evaluate p b) polys i t h in
        let quotient = B.ruffini_division (B.poly_sub t (value ∷ [])) b in
        let acc₁ = B.poly_add acc (B.poly_mul quotient (g ∷ [])) in
        let term : v ⊕ (evaluate t x ⊖ value) ⊘ (x ⊖ b) ⊗ g ≡ evaluate acc₁ x =
          ap₂ (λ a q. a ⊕ q ⊗ g) hv (evaluate-term t b x value refl (outside k (omega arith)))
          ∙ ap (λ c. evaluate acc x ⊕ evaluate quotient x ⊗ c) (sym (evaluate-constant g x))
          ∙ ap (λ c. evaluate acc x ⊕ c) (sym (P.evaluate-poly_mul quotient (g ∷ []) x))
          ∙ sym (P.evaluate-poly_add acc (B.poly_mul quotient (g ∷ [])) x) in
        let (acc', p, q) =
          column_terms-deep_terms m (suc k) i t gammas acc₁ _ (omega arith) h term in
        (acc', rw opened p, rw (rows k (omega arith), opened) q)
