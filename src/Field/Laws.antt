-- ===== src/Field/Laws.antt =====
-- What follows from the ring laws, as the other modules use it.
use lambdaworks_cairo_prover.Prelude.{
  ℕ, zero, suc, ◌+◌, ◌*◌, ◌≡◌, ◌≢◌, ◌⊎◌, inl, inr, sym, ap, ◌∙◌, Bool-cases,
}
use native.Mathlib.Nat
use lambdaworks_cairo_prover.Field.{Field, HasInverses, ◌⊕◌, ◌⊖◌, ◌⊗◌, ◌⊘◌}

module _ {F : Type 0} ⦃K : Field F⦄ where
  pub zero-add : (a : F) → K.zero ⊕ a ≡ a
  zero-add a = K.zero-add a

  pub add-zero : (a : F) → a ⊕ K.zero ≡ a
  add-zero a = K.add_comm a K.zero ∙ K.zero-add a

  pub one-mul : (a : F) → K.one ⊗ a ≡ a
  one-mul a = K.one-mul a

  pub mul-one : (a : F) → a ⊗ K.one ≡ a
  mul-one a = K.mul_comm a K.one ∙ K.one-mul a

  pub add-mul : (a b c : F) → (a ⊕ b) ⊗ c ≡ a ⊗ c ⊕ b ⊗ c
  add-mul a b c = K.mul_comm (a ⊕ b) c ∙ K.mul-add c a b ∙ rw (K.mul_comm c a, K.mul_comm c b)

  pub neg-add : (a : F) → K.neg a ⊕ a ≡ K.zero
  neg-add a = K.add_comm (K.neg a) a ∙ K.add-neg a

  pub add-sub_cancel : (a b : F) → a ⊕ b ⊖ b ≡ a
  add-sub_cancel a b =
      K.sub_def (a ⊕ b) b ∙ K.add_assoc a b (K.neg b) ∙ rw (K.add-neg b) (add-zero a)

  pub sub-add_cancel : (a b : F) → a ⊖ b ⊕ b ≡ a
  sub-add_cancel a b = rw (K.sub_def a b, K.add_assoc a (K.neg b) b, neg-add b) (add-zero a)

  pub add_right_cancel : (a b c : F) → a ⊕ c ≡ b ⊕ c → a ≡ b
  add_right_cancel a b c h = sym (add-sub_cancel a c) ∙ rw h (add-sub_cancel b c)

  pub mul-zero : (a : F) → a ⊗ K.zero ≡ K.zero
  mul-zero a =
      add_right_cancel (a ⊗ K.zero) K.zero (a ⊗ K.zero)
        (sym (K.mul-add a K.zero K.zero) ∙ rw (K.zero-add K.zero) (sym (K.zero-add (a ⊗ K.zero))))

  pub zero-mul : (a : F) → K.zero ⊗ a ≡ K.zero
  zero-mul a = K.mul_comm K.zero a ∙ mul-zero a

  pub sub_self : (a : F) → a ⊖ a ≡ K.zero
  sub_self a = K.sub_def a a ∙ K.add-neg a

  pub sub-zero : (a : F) → a ⊖ K.zero ≡ a
  sub-zero a = sym (add-zero (a ⊖ K.zero)) ∙ sub-add_cancel a K.zero

  pub sub-eq-zero : (a b : F) → a ≡ b → a ⊖ b ≡ K.zero
  sub-eq-zero a b h = rw h (sub_self b)

  pub eq_of_sub-eq-zero : (a b : F) → a ⊖ b ≡ K.zero → a ≡ b
  eq_of_sub-eq-zero a b h = sym (sub-add_cancel a b) ∙ rw h (zero-add b)

  pub eq-sub_of_add-eq : (a b c : F) → a ⊕ b ≡ c → a ≡ c ⊖ b
  eq-sub_of_add-eq a b c h = sym (add-sub_cancel a b) ∙ rw h

  pub from-one : K.from 1 ≡ K.one
  from-one = K.from-suc 0 ∙ rw K.from-zero (K.zero-add K.one)

  pub from-add : (m n : ℕ) → K.from (m + n) ≡ K.from m ⊕ K.from n
  from-add m zero = rw (Nat.add-zero m, K.from-zero) (sym (add-zero (K.from m)))
  from-add m (suc n) =
      rw (Nat.add-suc m n, K.from-suc (m + n), K.from-suc n, from-add m n)
        (K.add_assoc (K.from m) (K.from n) K.one)

  pub from-mul : (m n : ℕ) → K.from (m * n) ≡ K.from m ⊗ K.from n
  from-mul m zero = rw (Nat.mul-zero m, K.from-zero) (sym (mul-zero (K.from m)))
  from-mul m (suc n) =
      rw (Nat.mul-suc m n, from-add (m * n) m, from-mul m n, K.from-suc n)
        (sym (K.mul-add (K.from m) (K.from n) K.one ∙ rw (mul-one (K.from m))))

  module _ (V : HasInverses K) where
    -- A product that is zero has a factor that is zero.
    pub zero_product : (x y : F) → x ⊗ y ≡ K.zero → (x ≡ K.zero) ⊎ (y ≡ K.zero)
    zero_product x y h = elim (Bool-cases (K.beq x K.zero)) [
      | inl e ↦ inl ((K.beq_iff x K.zero).0 e)
      | inr e ↦
          let ne : x ≢ K.zero = λ z. let t = (K.beq_iff x K.zero).1 z in cc in
          inr (
            sym (one-mul y)
            ∙ ap (λ t. t ⊗ y) (sym (V.mul-inv x ne))
            ∙ ap (λ t. t ⊗ y) (K.mul_comm x (K.inv x))
            ∙ K.mul_assoc (K.inv x) x y
            ∙ rw h (mul-zero (K.inv x)))
    ]

    pub mul-div : (d y : F) → d ≢ K.zero → (d ⊗ y) ⊘ d ≡ y
    mul-div d y h =
        K.div_def (d ⊗ y) d
        ∙ ap (λ t. t ⊗ K.inv d) (K.mul_comm d y)
        ∙ K.mul_assoc y d (K.inv d)
        ∙ rw (V.mul-inv d h) (mul-one y)

pub ruleset units = (zero-add, add-zero, one-mul, mul-one, mul-zero, zero-mul, sub_self, sub-zero)
