-- ===== src/CairoVm/Flags.antt =====
-- cairo_vm/instruction_flags.rs and the decoding errors of cairo_vm/errors.rs: the flag groups of an
-- instruction, their decoding from an instruction word, and their rows of bits in the trace.
pub mod Groups
pub mod Bits
pub mod Faults
use lambdaworks_cairo_prover.Prelude.{
  ℕ, ◌*◌, ◌/◌, ◌%◌, ◌^◌, Bool, Option, none, some, List, [], ◌∷◌, bit_and, ◌==◌, if◌then◌else◌,
  Result, ok, err, ◌>>=◌, and_then,
}
use lambdaworks_cairo_prover.Field.{Field}
use lambdaworks_cairo_prover.CairoVm.Words.{aux_get_last_nim_of_field_element}

pub data InstructionDecodingError : Type 0 where
  invalid_opcode invalid_pc_update invalid_ap_update invalid_res_logic : InstructionDecodingError
  invalid_op1_src invalid_op0_reg invalid_dst_reg instruction_not_found : InstructionDecodingError

pub data Op0Reg : Type 0 where
  ap fp : Op0Reg

pub data DstReg : Type 0 where
  ap fp : DstReg

pub data Op1Src : Type 0 where
  op0 imm fp ap : Op1Src

pub data ResLogic : Type 0 where
  op1 add mul unconstrained : ResLogic

pub data PcUpdate : Type 0 where
  regular jump jump_rel jnz : PcUpdate

pub data ApUpdate : Type 0 where
  regular add add1 add2 : ApUpdate

pub data CairoOpcode : Type 0 where
  nop call ret assert_eq : CairoOpcode

pub record CairoInstructionFlags : Type 0 where
  pub opcode : CairoOpcode
  pub ap_update : ApUpdate
  pub pc_update : PcUpdate
  pub res_logic : ResLogic
  pub op1_src : Op1Src
  pub op0_reg : Op0Reg
  pub dst_reg : DstReg

abbrev pub Decoded : Type 0 → Type 0
Decoded = Result InstructionDecodingError

-- The constants: a mask and an offset for each group, over the flags above bit 48.
abbrev pub flags_offset : ℕ
flags_offset = 48

abbrev dst_reg_mask : ℕ
dst_reg_mask = 0x1

abbrev dst_reg_off : ℕ
dst_reg_off = 0

abbrev op0_reg_mask : ℕ
op0_reg_mask = 0x2

abbrev op0_reg_off : ℕ
op0_reg_off = 1

abbrev op1_src_mask : ℕ
op1_src_mask = 0x1c

abbrev op1_src_off : ℕ
op1_src_off = 2

abbrev res_logic_mask : ℕ
res_logic_mask = 0x60

abbrev res_logic_off : ℕ
res_logic_off = 5

abbrev pc_update_mask : ℕ
pc_update_mask = 0x380

abbrev pc_update_off : ℕ
pc_update_off = 7

abbrev ap_update_mask : ℕ
ap_update_mask = 0xc00

abbrev ap_update_off : ℕ
ap_update_off = 10

abbrev opcode_mask : ℕ
opcode_mask = 0x7000

abbrev opcode_off : ℕ
opcode_off = 12

-- `((flags & MASK) >> OFF) as u8`
unfoldable pub group : ℕ → ℕ → ℕ → ℕ
group flags mask off = bit_and flags mask / 2 ^ off % 256

module _ {F : Type 0} ⦃K : Field F⦄ where
  -- `aux_get_last_nim_of_field_element(mem_value) >> FLAGS_OFFSET`
  unfoldable pub flags_of : F → ℕ
  flags_of mem_value = aux_get_last_nim_of_field_element mem_value / 2 ^ flags_offset

  unfoldable pub op0_reg_try_from : F → Decoded Op0Reg
  unfolding flags_of group
  op0_reg_try_from mem_value =
      let op0_reg = group (flags_of mem_value) op0_reg_mask op0_reg_off in
      if op0_reg == 0
      then ok Op0Reg.ap
      else if op0_reg == 1
      then ok Op0Reg.fp
      else err invalid_op0_reg

  unfoldable pub dst_reg_try_from : F → Decoded DstReg
  unfolding flags_of group
  dst_reg_try_from mem_value =
      let dst_reg = group (flags_of mem_value) dst_reg_mask dst_reg_off in
      if dst_reg == 0
      then ok DstReg.ap
      else if dst_reg == 1
      then ok DstReg.fp
      else err invalid_dst_reg

  unfoldable pub op1_src_try_from : F → Decoded Op1Src
  unfolding flags_of group
  op1_src_try_from mem_value =
      let op1_src = group (flags_of mem_value) op1_src_mask op1_src_off in
      if op1_src == 0
      then ok Op1Src.op0
      else if op1_src == 1
      then ok Op1Src.imm
      else if op1_src == 2
      then ok Op1Src.fp
      else if op1_src == 4
      then ok Op1Src.ap
      else err invalid_op1_src

  unfoldable pub res_logic_try_from : F → Decoded ResLogic
  unfolding flags_of group
  res_logic_try_from mem_value =
      let res_logic = group (flags_of mem_value) res_logic_mask res_logic_off in
      if res_logic == 0
      then ok ResLogic.op1
      else if res_logic == 1
      then ok ResLogic.add
      else if res_logic == 2
      then ok ResLogic.mul
      else if res_logic == 4
      then ok ResLogic.unconstrained
      else err invalid_res_logic

  unfoldable pub pc_update_try_from : F → Decoded PcUpdate
  unfolding flags_of group
  pc_update_try_from mem_value =
      let pc_update = group (flags_of mem_value) pc_update_mask pc_update_off in
      if pc_update == 0
      then ok PcUpdate.regular
      else if pc_update == 1
      then ok PcUpdate.jump
      else if pc_update == 2
      then ok PcUpdate.jump_rel
      else if pc_update == 4
      then ok PcUpdate.jnz
      else err invalid_pc_update

  unfoldable pub ap_update_try_from : F → Decoded ApUpdate
  unfolding flags_of group
  ap_update_try_from mem_value =
      let ap_update = group (flags_of mem_value) ap_update_mask ap_update_off in
      if ap_update == 0
      then ok ApUpdate.regular
      else if ap_update == 1
      then ok ApUpdate.add
      else if ap_update == 2
      then ok ApUpdate.add1
      else if ap_update == 4
      then ok ApUpdate.add2
      else err invalid_ap_update

  unfoldable pub opcode_try_from : F → Decoded CairoOpcode
  unfolding flags_of group
  opcode_try_from mem_value =
      let opcode = group (flags_of mem_value) opcode_mask opcode_off in
      if opcode == 0
      then ok CairoOpcode.nop
      else if opcode == 1
      then ok CairoOpcode.call
      else if opcode == 2
      then ok CairoOpcode.ret
      else if opcode == 4
      then ok CairoOpcode.assert_eq
      else err invalid_opcode

  unfoldable pub flags_try_from : F → Decoded CairoInstructionFlags
  flags_try_from mem_value = do
    opcode ← opcode_try_from mem_value
    pc_update ← pc_update_try_from mem_value
    ap_update ← ap_update_try_from mem_value
    res_logic ← res_logic_try_from mem_value
    op1_src ← op1_src_try_from mem_value
    op0_reg ← op0_reg_try_from mem_value
    dst_reg ← dst_reg_try_from mem_value
    ok (record {
      opcode = opcode;
      ap_update = ap_update;
      pc_update = pc_update;
      res_logic = res_logic;
      op1_src = op1_src;
      op0_reg = op0_reg;
      dst_reg = dst_reg;
    })

  -- Each group as bits, the most significant first; `none` is `todo!()`.
  abbrev pub op0_reg_trace : Op0Reg → F
  op0_reg_trace Op0Reg.ap = K.zero
  op0_reg_trace Op0Reg.fp = K.one

  abbrev pub dst_reg_trace : DstReg → F
  dst_reg_trace DstReg.ap = K.zero
  dst_reg_trace DstReg.fp = K.one

  abbrev pub op1_src_trace : Op1Src → F × F × F
  op1_src_trace Op1Src.op0 = (K.zero, K.zero, K.zero)
  op1_src_trace Op1Src.imm = (K.zero, K.zero, K.one)
  op1_src_trace Op1Src.fp = (K.zero, K.one, K.zero)
  op1_src_trace Op1Src.ap = (K.one, K.zero, K.zero)

  abbrev pub res_logic_trace : ResLogic → Option (F × F)
  res_logic_trace ResLogic.op1 = some (K.zero, K.zero)
  res_logic_trace ResLogic.add = some (K.zero, K.one)
  res_logic_trace ResLogic.mul = some (K.one, K.zero)
  res_logic_trace ResLogic.unconstrained = none

  abbrev pub pc_update_trace : PcUpdate → F × F × F
  pc_update_trace PcUpdate.regular = (K.zero, K.zero, K.zero)
  pc_update_trace PcUpdate.jump = (K.zero, K.zero, K.one)
  pc_update_trace PcUpdate.jump_rel = (K.zero, K.one, K.zero)
  pc_update_trace PcUpdate.jnz = (K.one, K.zero, K.zero)

  abbrev pub ap_update_trace : ApUpdate → Option (F × F)
  ap_update_trace ApUpdate.regular = some (K.zero, K.zero)
  ap_update_trace ApUpdate.add = some (K.zero, K.one)
  ap_update_trace ApUpdate.add1 = some (K.one, K.zero)
  ap_update_trace ApUpdate.add2 = none

  abbrev pub opcode_trace : CairoOpcode → F × F × F
  opcode_trace CairoOpcode.nop = (K.zero, K.zero, K.zero)
  opcode_trace CairoOpcode.call = (K.zero, K.zero, K.one)
  opcode_trace CairoOpcode.ret = (K.zero, K.one, K.zero)
  opcode_trace CairoOpcode.assert_eq = (K.one, K.zero, K.zero)

  -- The sixteen bit columns, little-endian.
  unfoldable pub flags_trace : CairoInstructionFlags → Option (List F)
  flags_trace f =
      let b0 = dst_reg_trace f.dst_reg in
      let b1 = op0_reg_trace f.op0_reg in
      let (b2, b3, b4) = op1_src_trace f.op1_src in
      and_then (res_logic_trace f.res_logic) λ (b5, b6).
        let (b7, b8, b9) = pc_update_trace f.pc_update in
        and_then (ap_update_trace f.ap_update) λ (b10, b11).
          let (b12, b13, b14) = opcode_trace f.opcode in
          some (
            b0 ∷ b1 ∷ b4 ∷ b3 ∷ b2 ∷ b6 ∷ b5 ∷ b9 ∷ b8 ∷ b7 ∷ b11 ∷ b10 ∷ b14 ∷ b13 ∷ b12 ∷ K.zero
            ∷ [])
