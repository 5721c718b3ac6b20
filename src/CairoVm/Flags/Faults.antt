-- ===== src/CairoVm/Flags/Faults.antt =====
-- Which words do not decode, and with which error.
use lambdaworks_cairo_prover.Prelude.{
  ℕ, ◌+◌, ◌/◌, ◌%◌, ◌^◌, ◌≡◌, refl, arith, Bool, Option, none, some, Result, ok, err, ◌==◌, leb,
  if◌then◌else◌,
}
use lambdaworks_cairo_prover.Field.{Field}
use lambdaworks_cairo_prover.CairoVm.Flags.{
  flags_of, flags_try_from, opcode_try_from, pc_update_try_from, ap_update_try_from,
  res_logic_try_from, op1_src_try_from, op0_reg_try_from, dst_reg_try_from,
  InstructionDecodingError, invalid_opcode, invalid_pc_update, invalid_ap_update, invalid_res_logic,
  invalid_op1_src,
}
use lambdaworks_cairo_prover.CairoVm.Flags.Groups.{group_lem}

abbrev pub error_of : {E A : Type 0} → Result E A → Option E
error_of (ok a) = none
error_of (err e) = some e

-- At least two of three flags are set.
abbrev pub two_flags : ℕ → Bool
two_flags n = leb 2 (n % 2 + n / 2 % 2 + n / 4 % 2)

-- The first group with two flags set, in the order of the decoder.
abbrev pub first_fault : ℕ → Option InstructionDecodingError
first_fault n =
    if two_flags (n / 2 ^ 12)
    then some invalid_opcode
    else if two_flags (n / 2 ^ 7)
    then some invalid_pc_update
    else if n / 2 ^ 10 % 4 == 3
    then some invalid_ap_update
    else if n / 2 ^ 5 % 4 == 3
    then some invalid_res_logic
    else if two_flags (n / 2 ^ 2)
    then some invalid_op1_src
    else none

module _ {F : Type 0} ⦃K : Field F⦄ (v : F) where
  opcode-fault :
      error_of (opcode_try_from v)
      ≡ (if two_flags (flags_of v / 2 ^ 12) then some invalid_opcode else none)
  unfolding opcode_try_from
  opcode-fault = let digits = group_lem (flags_of v) 0x7000 12 3 refl in ground arith

  pc_update-fault :
      error_of (pc_update_try_from v)
      ≡ (if two_flags (flags_of v / 2 ^ 7) then some invalid_pc_update else none)
  unfolding pc_update_try_from
  pc_update-fault = let digits = group_lem (flags_of v) 0x380 7 3 refl in ground arith

  ap_update-fault :
      error_of (ap_update_try_from v)
      ≡ (if flags_of v / 2 ^ 10 % 4 == 3 then some invalid_ap_update else none)
  unfolding ap_update_try_from
  ap_update-fault = let digits = group_lem (flags_of v) 0xc00 10 2 refl in ground arith

  res_logic-fault :
      error_of (res_logic_try_from v)
      ≡ (if flags_of v / 2 ^ 5 % 4 == 3 then some invalid_res_logic else none)
  unfolding res_logic_try_from
  res_logic-fault = let digits = group_lem (flags_of v) 0x60 5 2 refl in ground arith

  op1_src-fault :
      error_of (op1_src_try_from v)
      ≡ (if two_flags (flags_of v / 2 ^ 2) then some invalid_op1_src else none)
  unfolding op1_src_try_from
  op1_src-fault = let digits = group_lem (flags_of v) 0x1c 2 3 refl in ground arith

  op0_reg-fault : error_of (op0_reg_try_from v) ≡ none
  unfolding op0_reg_try_from
  op0_reg-fault = let digits = group_lem (flags_of v) 2 1 1 refl in ground arith

  dst_reg-fault : error_of (dst_reg_try_from v) ≡ none
  unfolding dst_reg_try_from
  dst_reg-fault = let digits = group_lem (flags_of v) 1 0 1 refl in ground arith

-- The error of decoding a word is that of the first group with two flags set, in the order opcode,
-- pc_update, ap_update, res_logic, op1_src, and a word with no such group decodes.
pub flags_try_from-first_fault :
    {F : Type 0} ⦃K : Field F⦄ (v : F) → error_of (flags_try_from v) ≡ first_fault (flags_of v)
unfolding flags_try_from
flags_try_from-first_fault ⦃K⦄ v = ground (
  arith,
  opcode-fault v,
  pc_update-fault v,
  ap_update-fault v,
  res_logic-fault v,
  op1_src-fault v,
  op0_reg-fault v,
  dst_reg-fault v,
)
