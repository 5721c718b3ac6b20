-- ===== src/CairoVm/Flags/Groups.antt =====
-- The flag groups as digits of the word above bit 48.
use lambdaworks_cairo_prover.Prelude.{
  ℕ, ◌-◌, ◌/◌, ◌%◌, ◌^◌, ◌≡◌, refl, ap, ◌∙◌, arith, bit_and-shift, bit_and-ones, some, ok,
}
use lambdaworks_cairo_prover.Field.{Field}
use lambdaworks_cairo_prover.Field.Laws.{from-one}
use lambdaworks_cairo_prover.CairoVm.Flags.{
  group, flags_of, DstReg, Op0Reg, Op1Src, ResLogic, PcUpdate, ApUpdate, CairoOpcode,
  dst_reg_try_from, dst_reg_trace, op0_reg_try_from, op0_reg_trace, op1_src_try_from, op1_src_trace,
  res_logic_try_from, res_logic_trace, pc_update_try_from, pc_update_trace, ap_update_try_from,
  ap_update_trace, opcode_try_from, opcode_trace,
}

-- A group of `k` flags is the remainder by 2 ^ k of the flags above it.
pub group_lem :
    (flags mask off k : ℕ)
    → mask / 2 ^ off ≡ 2 ^ k - 1
    → group flags mask off ≡ flags / 2 ^ off % 2 ^ k % 256
unfolding group
group_lem flags mask off k h =
    ap (λ x. x % 256) (bit_and-shift off flags mask ∙ rw h (bit_and-ones k (flags / 2 ^ off)))

module _ {F : Type 0} ⦃K : Field F⦄ where
  -- A flag as a field element.
  abbrev pub bit : ℕ → F
  bit n = K.from (n % 2)

  pub dst_reg-bits :
      (v : F) (x : DstReg) → dst_reg_try_from v ≡ ok x → dst_reg_trace x ≡ bit (flags_of v / 2 ^ 0)
  unfolding dst_reg_try_from
  dst_reg-bits v x h =
      let digits = group_lem (flags_of v) 0x1 0 1 refl in
      ground (arith, digits, from-one ⦃K = K⦄, K.from-zero)

  pub op0_reg-bits :
      (v : F) (x : Op0Reg) → op0_reg_try_from v ≡ ok x → op0_reg_trace x ≡ bit (flags_of v / 2 ^ 1)
  unfolding op0_reg_try_from
  op0_reg-bits v x h =
      let digits = group_lem (flags_of v) 0x2 1 1 refl in
      ground (arith, digits, from-one ⦃K = K⦄, K.from-zero)

  pub op1_src-bits :
      (v : F) (x : Op1Src)
      → op1_src_try_from v ≡ ok x
      → op1_src_trace x
        ≡ (bit (flags_of v / 2 ^ 4), bit (flags_of v / 2 ^ 3), bit (flags_of v / 2 ^ 2))
  unfolding op1_src_try_from
  op1_src-bits v x h =
      let digits = group_lem (flags_of v) 0x1c 2 3 refl in
      ground (arith, digits, from-one ⦃K = K⦄, K.from-zero)

  pub res_logic-bits :
      (v : F) (x : ResLogic)
      → res_logic_try_from v ≡ ok x
      → res_logic_trace x ≡ some (bit (flags_of v / 2 ^ 6), bit (flags_of v / 2 ^ 5))
  unfolding res_logic_try_from
  res_logic-bits v x h =
      let digits = group_lem (flags_of v) 0x60 5 2 refl in
      ground (arith, digits, from-one ⦃K = K⦄, K.from-zero)

  pub pc_update-bits :
      (v : F) (x : PcUpdate)
      → pc_update_try_from v ≡ ok x
      → pc_update_trace x
        ≡ (bit (flags_of v / 2 ^ 9), bit (flags_of v / 2 ^ 8), bit (flags_of v / 2 ^ 7))
  unfolding pc_update_try_from
  pc_update-bits v x h =
      let digits = group_lem (flags_of v) 0x380 7 3 refl in
      ground (arith, digits, from-one ⦃K = K⦄, K.from-zero)

  pub ap_update-bits :
      (v : F) (x : ApUpdate)
      → ap_update_try_from v ≡ ok x
      → ap_update_trace x ≡ some (bit (flags_of v / 2 ^ 11), bit (flags_of v / 2 ^ 10))
  unfolding ap_update_try_from
  ap_update-bits v x h =
      let digits = group_lem (flags_of v) 0xc00 10 2 refl in
      ground (arith, digits, from-one ⦃K = K⦄, K.from-zero)

  pub opcode-bits :
      (v : F) (x : CairoOpcode)
      → opcode_try_from v ≡ ok x
      → opcode_trace x
        ≡ (bit (flags_of v / 2 ^ 14), bit (flags_of v / 2 ^ 13), bit (flags_of v / 2 ^ 12))
  unfolding opcode_try_from
  opcode-bits v x h =
      let digits = group_lem (flags_of v) 0x7000 12 3 refl in
      ground (arith, digits, from-one ⦃K = K⦄, K.from-zero)
