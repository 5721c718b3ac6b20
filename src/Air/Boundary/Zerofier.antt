-- ===== src/Air/Boundary/Zerofier.antt =====
-- The zeros of the zerofier of a column.
use lambdaworks_cairo_prover.Prelude.{
  ℕ, zero, suc, ◌≡◌, ◌⊎◌, ◌↔◌, inl, inr, refl, sym, ap, ◌∙◌, some, List, [], ◌∷◌, get_elem?,
}
use lambdaworks_cairo_prover.Field.{Field, HasInverses, ◌⊖◌, ◌⊗◌}
use lambdaworks_cairo_prover.Field.Laws.{
  zero_product, zero-mul, mul-zero, sub-eq-zero, eq_of_sub-eq-zero,
}
use lambdaworks_cairo_prover.Air.Boundary.{
  BoundaryConstraints, steps, zerofier_at, compute_zerofier,
}

module _ {F : Type 0} ⦃K : Field F⦄ where
  -- `x` is the domain value of one of the steps.
  abbrev pub AtStep : F → F → List ℕ → Type 0
  AtStep g x ss = (i : ℕ) × (s : ℕ) × (get_elem? ss i ≡ some s) × (x ≡ K.pow g s)

  AtStep-cons : (g x : F) (s : ℕ) (ss : List ℕ) → AtStep g x ss → AtStep g x (s ∷ ss)
  AtStep-cons g x s ss (i, t, p, q) = (suc i, t, p, q)

  zero_stays : (g x : F) (ss : List ℕ) (acc : F) → acc ≡ K.zero → zerofier_at g x ss acc ≡ K.zero
  unfolding zerofier_at
  zero_stays g x [] acc h = h
  zero_stays g x (s ∷ ss) acc h =
      zero_stays g x ss (acc ⊗ (x ⊖ K.pow g s))
        (ap (λ a. a ⊗ (x ⊖ K.pow g s)) h ∙ zero-mul (x ⊖ K.pow g s))

  vanishes :
      (g x : F) (ss : List ℕ) (i s : ℕ) (acc : F)
      → get_elem? ss i ≡ some s
      → x ≡ K.pow g s
      → zerofier_at g x ss acc ≡ K.zero
  unfolding zerofier_at
  vanishes g x [] i s acc h e = cc
  vanishes g x (t ∷ ss) zero s acc h e =
      let same : t ≡ s = cc in
      zero_stays g x ss (acc ⊗ (x ⊖ K.pow g t))
        (ap (λ y. acc ⊗ y) (sub-eq-zero x (K.pow g t) (e ∙ ap (K.pow g) (sym same))) ∙ mul-zero acc)
  vanishes g x (t ∷ ss) (suc i) s acc h e = vanishes g x ss i s (acc ⊗ (x ⊖ K.pow g t)) h e

  module _ (V : HasInverses K) where
    only :
        (g x : F) (ss : List ℕ) (acc : F)
        → zerofier_at g x ss acc ≡ K.zero
        → (acc ≡ K.zero) ⊎ AtStep g x ss
    unfolding zerofier_at
    only g x [] acc h = inl h
    only g x (s ∷ ss) acc h = elim (only g x ss (acc ⊗ (x ⊖ K.pow g s)) h) [
      | inr m ↦ inr (AtStep-cons g x s ss m)
      | inl z ↦ elim (zero_product V acc (x ⊖ K.pow g s) z) [
        | inl e ↦ inl e
        | inr e ↦ inr (0, s, refl, eq_of_sub-eq-zero x (K.pow g s) e)
      ]
    ]

    -- In a field with inverses, the zerofier of a column is zero exactly at the domain values of the
    -- steps at which the column has a boundary constraint.
    pub compute_zerofier-AtStep :
        (bs : BoundaryConstraints F) (primitive_root : F) (col : ℕ) (x : F)
        → (compute_zerofier bs primitive_root col x ≡ K.zero)
          ↔ AtStep primitive_root x (steps bs col)
    unfolding compute_zerofier
    compute_zerofier-AtStep bs g col x = (
      λ h. elim (only g x (steps bs col) K.one h) [ inl e ↦ absurd (V.one-ne-zero e) | inr m ↦ m ],
      λ (i, s, p, q). vanishes g x (steps bs col) i s K.one p q,
    )
