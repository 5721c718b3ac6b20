-- ===== src/Field/Powers.antt =====
-- Powers of field elements.
use native.Mathlib.Nat.{mod-add-div}
use lambdaworks_cairo_prover.Prelude.{
  ℕ, zero, suc, ◌+◌, ◌*◌, ◌/◌, ◌%◌, ◌≤◌, ◌-◌, ◌≡◌, ◌≢◌, refl, sym, ap, ◌∙◌, arith, [], ◌∷◌,
}
use lambdaworks_cairo_prover.Field.{Field, HasInverses, ◌⊗◌}
use lambdaworks_cairo_prover.Field.Laws.{mul-one, zero-mul}
use lambdaworks_cairo_prover.Field.Ring.{var, ◌⊠◌, ring, agree}

module _ {F : Type 0} ⦃K : Field F⦄ where
  pub pow-add : (a : F) (m n : ℕ) → K.pow a (m + n) ≡ K.pow a m ⊗ K.pow a n
  pow-add a m zero =
      ap (K.pow a) {x = m + 0} {y = m} (omega arith)
      ∙ sym (ap (λ v. K.pow a m ⊗ v) (K.pow-zero a) ∙ mul-one (K.pow a m))
  pow-add a m (suc n) =
      ap (K.pow a) {x = m + suc n} {y = suc (m + n)} (omega arith)
      ∙ K.pow-suc a (m + n)
      ∙ ap (λ v. v ⊗ a) (pow-add a m n)
      ∙ K.mul_assoc (K.pow a m) (K.pow a n) a
      ∙ ap (λ v. K.pow a m ⊗ v) (sym (K.pow-suc a n))

  pow-mul : (a : F) (m n : ℕ) → K.pow a (m * n) ≡ K.pow (K.pow a m) n
  pow-mul a m zero =
      ap (K.pow a) {x = m * 0} {y = 0} (omega arith) ∙ K.pow-zero a ∙ sym (K.pow-zero (K.pow a m))
  pow-mul a m (suc n) =
      ap (K.pow a) {x = m * suc n} {y = m * n + m} (omega arith)
      ∙ pow-add a (m * n) m
      ∙ ap (λ v. v ⊗ K.pow a m) (pow-mul a m n)
      ∙ sym (K.pow-suc (K.pow a m) n)

  pow-one : (n : ℕ) → K.pow K.one n ≡ K.one
  pow-one zero = K.pow-zero K.one
  pow-one (suc n) = K.pow-suc K.one n ∙ mul-one (K.pow K.one n) ∙ pow-one n

  -- The exponent counts up to the order.
  pub pow-mod : (a : F) (order n : ℕ) → K.pow a order ≡ K.one → K.pow a (n % order) ≡ K.pow a n
  pow-mod a order n h = sym (
      ap (K.pow a) (sym (mod-add-div n order))
      ∙ pow-add a (n % order) (order * (n / order))
      ∙ ap (λ v. K.pow a (n % order) ⊗ v)
          (pow-mul a order (n / order) ∙ ap (λ v. K.pow v (n / order)) h ∙ pow-one (n / order))
      ∙ mul-one (K.pow a (n % order)))

  pub pow-square : (a : F) (n : ℕ) → K.pow (a ⊗ a) n ≡ K.pow a n ⊗ K.pow a n
  unfolding agree
  pow-square a zero = K.pow-zero (a ⊗ a) ∙ sym (ap (λ v. v ⊗ v) (K.pow-zero a) ∙ mul-one K.one)
  pow-square a (suc n) =
      let x = var 0 in
      let y = var 1 in
      K.pow-suc (a ⊗ a) n
      ∙ ap (λ v. v ⊗ (a ⊗ a)) (pow-square a n)
      ∙ ring (K.pow a n ∷ a ∷ []) (x ⊠ x ⊠ (y ⊠ y)) (x ⊠ y ⊠ (x ⊠ y)) refl
      ∙ ap (λ v. v ⊗ v) (sym (K.pow-suc a n))

  -- The power of a root of unity is not zero.
  pub pow-nonzero :
      (V : HasInverses K) (a : F) (order n : ℕ)
      → K.pow a order ≡ K.one
      → n ≤ order
      → K.pow a n ≢ K.zero
  pow-nonzero V a order n h lt e = V.one-ne-zero (
      sym h
      ∙ ap (K.pow a) {x = order} {y = n + (order - n)} (omega arith)
      ∙ pow-add a n (order - n)
      ∙ ap (λ v. v ⊗ K.pow a (order - n)) e
      ∙ zero-mul (K.pow a (order - n)))
