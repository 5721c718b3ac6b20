-- ===== src/CairoVm/Words.antt =====
-- cairo_vm/instruction_flags.rs, `aux_get_last_nim_of_field_element`.
use lambdaworks_cairo_prover.Prelude.{
  ℕ, ◌/◌, ◌%◌, ◌^◌, ◌<◌, ◌≡◌, arith, [], ◌∷◌, get_or, from_be_bytes,
}
use lambdaworks_cairo_prover.Field.{Field, HasWords}

module _ {F : Type 0} ⦃K : Field F⦄ where
  -- The last eight bytes of the 32, as a 64-bit word.
  unfoldable pub aux_get_last_nim_of_field_element : F → ℕ
  aux_get_last_nim_of_field_element value =
      let byte = λ (i : ℕ). get_or (K.to_bytes_be value) i 0 in
      from_be_bytes 0
        (byte 24 ∷ byte 25 ∷ byte 26 ∷ byte 27 ∷ byte 28 ∷ byte 29 ∷ byte 30 ∷ byte 31 ∷ [])

join_bytes :
    (r : ℕ)
    → from_be_bytes 0 (
        (r / 256 ^ 7 % 256)
        ∷ (r / 256 ^ 6 % 256)
        ∷ (r / 256 ^ 5 % 256)
        ∷ (r / 256 ^ 4 % 256)
        ∷ (r / 256 ^ 3 % 256)
        ∷ (r / 256 ^ 2 % 256)
        ∷ (r / 256 ^ 1 % 256)
        ∷ (r / 256 ^ 0 % 256)
        ∷ [])
      ≡ r % 2 ^ 64
unfolding from_be_bytes
join_bytes r = omega arith

module _ {F : Type 0} (K : Field F) (W : HasWords K) where
  pub last_nim_lem :
      (value : F)
      → aux_get_last_nim_of_field_element ⦃K = K⦄ value ≡ K.representative value % 2 ^ 64
  unfolding aux_get_last_nim_of_field_element
  last_nim_lem value =
      let byte = λ (i : ℕ) (h : i < 32). W.get_or-to_bytes_be value i h in
      rw
        (
          byte 24 (omega arith),
          byte 25 (omega arith),
          byte 26 (omega arith),
          byte 27 (omega arith),
          byte 28 (omega arith),
          byte 29 (omega arith),
          byte 30 (omega arith),
          byte 31 (omega arith),
        )
        (join_bytes (K.representative value))
