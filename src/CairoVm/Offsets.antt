-- ===== src/CairoVm/Offsets.antt =====
-- cairo_vm/instruction_offsets.rs: the three signed offsets of an instruction.
use lambdaworks_cairo_prover.Prelude.{
  ℕ, suc, ◌+◌, ◌-◌, ◌/◌, ◌%◌, ◌^◌, ◌<◌, ◌≡◌, refl, sym, ap, ◌∙◌, arith, List, [], ◌∷◌, bit_and,
  bit_and-ones, from_le_bytes, ltb, some, if◌then◌else◌,
}
use lambdaworks_cairo_prover.Prelude.Int.{ℤ, pos, negsuc, unsigned_abs, checked_add_signed, sub_ℕ}
use lambdaworks_cairo_prover.Field.{Field, ◌⊕◌, ◌⊖◌}
use lambdaworks_cairo_prover.Field.Laws.{from-add, eq-sub_of_add-eq}
use lambdaworks_cairo_prover.Field.Ring.{var, ◌⊞◌, ◌⊟◌, ring, agree}
use lambdaworks_cairo_prover.CairoVm.Words.{aux_get_last_nim_of_field_element}

abbrev pub off_dst_off : ℕ
off_dst_off = 0

abbrev pub off_op0_off : ℕ
off_op0_off = 16

abbrev pub off_op1_off : ℕ
off_op1_off = 32

abbrev offx_mask : ℕ
offx_mask = 0xffff

pub record InstructionOffsets : Type 0 where
  pub off_dst : ℤ
  pub off_op0 : ℤ
  pub off_op1 : ℤ

-- `i16` from its bit pattern.
unfoldable pub signed16 : ℕ → ℤ
signed16 w = if ltb w 0x8000 then pos w else negsuc (0x10000 - w - 1)

-- `i16::from_le_bytes` of the two low bytes, the second less 128 modulo 256.
unfoldable pub unbias : ℕ → ℤ
unfolding signed16 from_le_bytes
unbias offset =
    let low = offset % 256 in
    let high = offset / 256 % 256 in
    signed16 (from_le_bytes (low ∷ ((high + 256 - 128) % 256) ∷ []))

module _ {F : Type 0} ⦃K : Field F⦄ where
  unfoldable pub decode_offset : F → ℕ → ℤ
  unfolding unbias
  decode_offset mem_value instruction_offset =
      unbias
        (bit_and (aux_get_last_nim_of_field_element mem_value / 2 ^ instruction_offset) offx_mask)

  unfoldable pub offsets_new : F → InstructionOffsets
  unfolding decode_offset
  offsets_new mem_value = record {
    off_dst = decode_offset mem_value off_dst_off;
    off_op0 = decode_offset mem_value off_op0_off;
    off_op1 = decode_offset mem_value off_op1_off;
  }

  -- The offset plus 2 ^ 15, in the range [0, 2 ^ 16).
  unfoldable pub to_unbiased_representation : ℤ → F
  to_unbiased_representation (negsuc n) = K.from (2 ^ 15 - unsigned_abs (negsuc n))
  to_unbiased_representation (pos n) = K.from (n + 2 ^ 15)

  unfoldable pub offsets_trace : InstructionOffsets → List F
  unfolding to_unbiased_representation
  offsets_trace o =
      to_unbiased_representation o.off_dst
      ∷ to_unbiased_representation o.off_op0
      ∷ to_unbiased_representation o.off_op1
      ∷ []

  -- The stored field, of sixteen bits, is the offset with its bias.
  unbiased-unbias : (w : ℕ) → w < 2 ^ 16 → to_unbiased_representation (unbias w) ≡ K.from w
  unfolding to_unbiased_representation unbias
  unbiased-unbias w h = ground arith

  -- What the trace holds for a decoded offset is the 16-bit field of the word at its place.
  pub unbiased-decode_offset :
      (v : F) (off : ℕ)
      → to_unbiased_representation (decode_offset v off)
        ≡ K.from (aux_get_last_nim_of_field_element v / 2 ^ off % 2 ^ 16)
  unfolding decode_offset
  unbiased-decode_offset v off =
      let word = aux_get_last_nim_of_field_element v / 2 ^ off in
      let masked : bit_and word 0xffff ≡ word % 2 ^ 16 = bit_and-ones 16 word in
      ap (λ w. to_unbiased_representation (unbias w)) masked
      ∙ unbiased-unbias (word % 2 ^ 16) (omega arith)

-- Offsets from -2 ^ 15 on, which the bias makes numbers.
abbrev pub FitsBias : ℤ → Type 0
FitsBias (pos n) = Unit
FitsBias (negsuc n) = n < 2 ^ 15

unbias-FitsBias : (w : ℕ) → FitsBias (unbias w)
unfolding unbias
unbias-FitsBias w = ground arith

-- A decoded offset is the 16-bit field at its place less 2 ^ 15, as an integer.
pub decode_offset-sub_ℕ :
    {F : Type 0} ⦃K : Field F⦄ (v : F) (off : ℕ)
    → decode_offset v off ≡ sub_ℕ (aux_get_last_nim_of_field_element v / 2 ^ off % 2 ^ 16) (2 ^ 15)
unfolding decode_offset
decode_offset-sub_ℕ v off =
    let word = aux_get_last_nim_of_field_element v / 2 ^ off in
    let masked : bit_and word 0xffff ≡ word % 2 ^ 16 = bit_and-ones 16 word in
    ap unbias masked ∙ (ground arith)

pub decode_offset-FitsBias :
    {F : Type 0} ⦃K : Field F⦄ (v : F) (off : ℕ) → FitsBias (decode_offset v off)
unfolding decode_offset
decode_offset-FitsBias v off = unbias-FitsBias _

-- What the trace holds for an offset, as a number.
abbrev pub biased : ℤ → ℕ
biased (pos n) = n + 2 ^ 15
biased (negsuc n) = 2 ^ 15 - suc n

checked_add_signed-biased :
    (a : ℕ) (o : ℤ) (addr : ℕ)
    → FitsBias o
    → checked_add_signed a o ≡ some addr
    → addr + 2 ^ 15 ≡ a + biased o
unfolding checked_add_signed
checked_add_signed-biased a (pos n) addr f h = ground arith
checked_add_signed-biased a (negsuc n) addr f h = ground arith

module _ {F : Type 0} ⦃K : Field F⦄ where
  from_biased : (addr a m b : ℕ) → addr + b ≡ a + m → K.from addr ≡ K.from a ⊕ (K.from m ⊖ K.from b)
  unfolding agree
  from_biased addr a m b h =
      eq-sub_of_add-eq (K.from addr) (K.from b) (K.from a ⊕ K.from m)
        (sym (from-add addr b) ∙ ap K.from h ∙ from-add a m)
      ∙ (let x = var 0 in
          let y = var 1 in
          let z = var 2 in
          ring (K.from a ∷ K.from m ∷ K.from b ∷ []) (x ⊞ y ⊟ z) (x ⊞ (y ⊟ z)) refl)

  -- If the offset is at least -2 ^ 15 and `a + o` does not leave 64 bits, then that address, in the
  -- field, is `a` plus what the trace holds for the offset less 2 ^ 15.
  pub from-checked_add_signed :
      (a : ℕ) (o : ℤ) (addr : ℕ)
      → FitsBias o
      → checked_add_signed a o ≡ some addr
      → K.from addr ≡ K.from a ⊕ (to_unbiased_representation o ⊖ K.from (2 ^ 15))
  unfolding to_unbiased_representation
  from-checked_add_signed a (pos n) addr f h =
      from_biased addr a (n + 2 ^ 15) (2 ^ 15) (checked_add_signed-biased a (pos n) addr f h)
  from-checked_add_signed a (negsuc n) addr f h =
      from_biased addr a (2 ^ 15 - suc n) (2 ^ 15) (checked_add_signed-biased a (negsuc n) addr f h)
