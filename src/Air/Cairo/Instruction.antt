-- ===== src/Air/Cairo/Instruction.antt =====
-- The instruction constraint on the encoding of a decoded instruction.
use native.Mathlib.Nat.{pow-zero, pow-suc}
use lambdaworks_cairo_prover.Prelude.{
  ℕ, zero, suc, ◌+◌, ◌*◌, ◌/◌, ◌%◌, ◌^◌, ◌<◌, ◌≡◌, sym, ap, ◌∙◌, arith, List, [], ◌∷◌, map, range,
}
use lambdaworks_cairo_prover.Field.{Field, ◌⊕◌, ◌⊖◌, ◌⊗◌}
use lambdaworks_cairo_prover.Field.Laws.{units, zero-mul, from-add, from-mul, from-one}
use lambdaworks_cairo_prover.Air.Cairo.Constraints.{f0_squiggle}

-- The number with the given binary digits, the lowest first.
abbrev digits_value : List ℕ → ℕ
digits_value [] = 0
digits_value (b ∷ bs) = b + 2 * digits_value bs

module _ {F : Type 0} ⦃K : Field F⦄ where
  -- A power of a number, in the field.
  pub pow-from : (b n : ℕ) → K.pow (K.from b) n ≡ K.from (b ^ n)
  pow-from b zero = K.pow-zero (K.from b) ∙ sym (from-one ⦃K = K⦄) ∙ ap K.from (sym (pow-zero b))
  pow-from b (suc n) =
      K.pow-suc (K.from b) n
      ∙ ap (λ x. x ⊗ K.from b) (pow-from b n)
      ∙ sym (from-mul (b ^ n) b)
      ∙ ap K.from (sym (pow-suc b n))

  bit_cases : (r : ℕ) → r < 2 → K.from r ⊗ (K.from r ⊖ K.one) ≡ K.zero
  bit_cases zero h = rw K.from-zero (zero-mul _)
  bit_cases (suc zero) h = rw (from-one ⦃K = K⦄) (simp units)
  bit_cases (suc (suc r)) h = ground arith

  pub bit_lem : (n : ℕ) → K.from (n % 2) ⊗ (K.from (n % 2) ⊖ K.one) ≡ K.zero
  bit_lem n = bit_cases (n % 2) (omega arith)

  f0_squiggle-digits_value : (bs : List ℕ) → f0_squiggle (map K.from bs) ≡ K.from (digits_value bs)
  unfolding f0_squiggle
  f0_squiggle-digits_value [] = sym K.from-zero
  f0_squiggle-digits_value (b ∷ bs) =
      rw (f0_squiggle-digits_value bs, sym (from-mul ⦃K = K⦄ 2 (digits_value bs)))
        (sym (from-add b (2 * digits_value bs)))

  f0_squiggle-bits :
      (w : ℕ) → f0_squiggle (map (λ i. K.from (w / 2 ^ i % 2)) (range 15)) ≡ K.from (w % 2 ^ 15)
  f0_squiggle-bits w =
      f0_squiggle-digits_value (map (λ i. w / 2 ^ i % 2) (range 15)) ∙ ap K.from (omega arith)

  -- The three offsets and the fifteen flags of a 63-bit word add up to it.
  pub word_lem :
      (n : ℕ)
      → n < 2 ^ 63
      → K.from (n / 2 ^ 0 % 2 ^ 16)
          ⊕ K.pow (K.from 2) 16 ⊗ K.from (n / 2 ^ 16 % 2 ^ 16)
          ⊕ K.pow (K.from 2) 32 ⊗ K.from (n / 2 ^ 32 % 2 ^ 16)
          ⊕ K.pow (K.from 2) 48
            ⊗ f0_squiggle (map (λ i. K.from (n / 2 ^ 48 / 2 ^ i % 2)) (range 15))
        ≡ K.from n
  word_lem n h =
      let d0 : ℕ = n / 2 ^ 0 % 2 ^ 16 in
      let d1 : ℕ = n / 2 ^ 16 % 2 ^ 16 in
      let d2 : ℕ = n / 2 ^ 32 % 2 ^ 16 in
      let d3 : ℕ = n / 2 ^ 48 % 2 ^ 15 in
      rw
        (
          f0_squiggle-bits (n / 2 ^ 48),
          pow-from 2 16,
          pow-from 2 32,
          pow-from 2 48,
          sym (from-mul ⦃K = K⦄ (2 ^ 16) d1),
          sym (from-mul ⦃K = K⦄ (2 ^ 32) d2),
          sym (from-mul ⦃K = K⦄ (2 ^ 48) d3),
          sym (from-add ⦃K = K⦄ d0 (2 ^ 16 * d1)),
          sym (from-add ⦃K = K⦄ (d0 + 2 ^ 16 * d1) (2 ^ 32 * d2)),
          sym (from-add ⦃K = K⦄ (d0 + 2 ^ 16 * d1 + 2 ^ 32 * d2) (2 ^ 48 * d3)),
        )
        (ap K.from (omega arith))
