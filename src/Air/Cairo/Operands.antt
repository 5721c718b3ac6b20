-- ===== src/Air/Cairo/Operands.antt =====
-- The constraints on operands and opcodes, flag group by flag group.
use lambdaworks_cairo_prover.Prelude.{ℕ, ◌≡◌, refl, sym, ap, ◌∙◌, some, and_then-eq-some}
use mathlib.Core.Option.{some-injective}
use lambdaworks_cairo_prover.Prelude.Int.{ℤ, checked_add_signed}
use lambdaworks_cairo_prover.Field.{Field, ◌⊕◌, ◌⊖◌, ◌⊗◌}
use lambdaworks_cairo_prover.Field.Laws.{units, zero-add, zero-mul, sub-eq-zero, from-add, from-one}
use lambdaworks_cairo_prover.CairoVm.Words.{aux_get_last_nim_of_field_element}
use lambdaworks_cairo_prover.CairoVm.Flags.{
  CairoInstructionFlags, DstReg, Op0Reg, Op1Src, ResLogic, PcUpdate, ApUpdate, CairoOpcode,
  dst_reg_trace, op0_reg_trace, op1_src_trace, res_logic_trace, pc_update_trace, opcode_trace,
}
use lambdaworks_cairo_prover.CairoVm.Offsets.{
  InstructionOffsets, FitsBias, to_unbiased_representation, from-checked_add_signed,
}
use lambdaworks_cairo_prover.CairoVm.Memory.{CairoMemory, get}
use lambdaworks_cairo_prover.CairoVm.Trace.{RegistersState}
use lambdaworks_cairo_prover.CairoVm.ExecutionTrace.{
  jnz_res, logic_res, load, dst_at, op0_at, op1_at, res_at,
}
use lambdaworks_cairo_prover.CairoVm.ExecutionTrace.Steps.{instruction_size}
use lambdaworks_cairo_prover.Air.Cairo.Instruction.{pow-from}

module _ {F : Type 0} ⦃K : Field F⦄ where
  -- An offset with its bias taken off, as the constraints write it.
  abbrev pub unbiased : ℤ → F
  unbiased o = to_unbiased_representation o ⊖ K.pow (K.from 2) 15

  -- What is loaded at `base + o` has the address that the constraints compute.
  load-address :
      (memory : CairoMemory F) (base : ℕ) (o : ℤ) (addr v : F)
      → FitsBias o
      → load memory base o ≡ some (addr, v)
      → addr ≡ K.from base ⊕ unbiased o
  unfolding load
  load-address memory base o addr v fits h =
      let (n, p, q) = and_then-eq-some (checked_add_signed base o) _ h in
      let (w, p', q') = and_then-eq-some (get memory n) _ q in
      let e : addr ≡ K.from n = cc in
      e ∙ from-checked_add_signed base o n fits p ∙ rw (pow-from ⦃K = K⦄ 2 15)

  by_address : (x y : F) → x ≡ y → y ⊖ x ≡ K.zero
  by_address x y h = sub-eq-zero y x (sym h)

  module _ (memory : CairoMemory F) (t : RegistersState) (f : CairoInstructionFlags)
      (o : InstructionOffsets) where
    pub dst_addr_lem :
        (addr v : F)
        → FitsBias o.off_dst
        → dst_at memory f o t ≡ some (addr, v)
        → dst_reg_trace f.dst_reg ⊗ K.from t.fp
            ⊕ (K.one ⊖ dst_reg_trace f.dst_reg) ⊗ K.from t.ap
            ⊕ unbiased o.off_dst
            ⊖ addr
          ≡ K.zero
    unfolding dst_at
    dst_addr_lem addr v fits h =
        elim f.dst_reg
            as (λ r.
              dst_at memory (record f { dst_reg = r }) o t ≡ some (addr, v)
              → dst_reg_trace r ⊗ K.from t.fp
                  ⊕ (K.one ⊖ dst_reg_trace r) ⊗ K.from t.ap
                  ⊕ unbiased o.off_dst
                  ⊖ addr
                ≡ K.zero) [
                  | DstReg.ap ↦ λ h.
                      simp units (by_address _ _ (load-address memory t.ap o.off_dst addr v fits h))
                  | DstReg.fp ↦ λ h.
                      simp units (by_address _ _ (load-address memory t.fp o.off_dst addr v fits h))
                ]
          h

    pub op0_addr_lem :
        (addr v : F)
        → FitsBias o.off_op0
        → op0_at memory f o t ≡ some (addr, v)
        → op0_reg_trace f.op0_reg ⊗ K.from t.fp
            ⊕ (K.one ⊖ op0_reg_trace f.op0_reg) ⊗ K.from t.ap
            ⊕ unbiased o.off_op0
            ⊖ addr
          ≡ K.zero
    unfolding op0_at
    op0_addr_lem addr v fits h =
        elim f.op0_reg
            as (λ r.
              op0_at memory (record f { op0_reg = r }) o t ≡ some (addr, v)
              → op0_reg_trace r ⊗ K.from t.fp
                  ⊕ (K.one ⊖ op0_reg_trace r) ⊗ K.from t.ap
                  ⊕ unbiased o.off_op0
                  ⊖ addr
                ≡ K.zero) [
                  | Op0Reg.ap ↦ λ h.
                      simp units (by_address _ _ (load-address memory t.ap o.off_op0 addr v fits h))
                  | Op0Reg.fp ↦ λ h.
                      simp units (by_address _ _ (load-address memory t.fp o.off_op0 addr v fits h))
                ]
          h

    -- With the first operand as its base, the address is that of a 64-bit word.
    abbrev pub op1_addr_value : Op1Src → F → F
    op1_addr_value src op0 =
        let (b2, b3, b4) = op1_src_trace src in
        b4 ⊗ K.from t.pc
        ⊕ b2 ⊗ K.from t.ap
        ⊕ b3 ⊗ K.from t.fp
        ⊕ (K.one ⊖ b4 ⊖ b2 ⊖ b3) ⊗ op0
        ⊕ unbiased o.off_op1

    pub op1_addr_lem :
        (op0 op0' addr v : F)
        → FitsBias o.off_op1
        → (f.op1_src ≡ Op1Src.op0
            → (op0' ≡ op0) × (K.from (aux_get_last_nim_of_field_element op0) ≡ op0))
        → op1_at memory f o op0 t ≡ some (addr, v)
        → op1_addr_value f.op1_src op0' ⊖ addr ≡ K.zero
    unfolding op1_at
    op1_addr_lem op0 op0' addr v fits base h =
        elim f.op1_src
            as (λ r.
              (r ≡ Op1Src.op0
                → (op0' ≡ op0) × (K.from (aux_get_last_nim_of_field_element op0) ≡ op0))
              → op1_at memory (record f { op1_src = r }) o op0 t ≡ some (addr, v)
              → op1_addr_value r op0' ⊖ addr ≡ K.zero) [
                | Op1Src.op0 ↦ λ base h.
                    let n = aux_get_last_nim_of_field_element op0 in
                    let e = load-address memory n o.off_op1 addr v fits h in
                    let (same, word) = base refl in
                    simp units
                      (by_address _ _ (e ∙ ap (λ x. x ⊕ unbiased o.off_op1) (word ∙ sym same)))
                | Op1Src.imm ↦ λ base h.
                    simp units (by_address _ _ (load-address memory t.pc o.off_op1 addr v fits h))
                | Op1Src.fp ↦ λ base h.
                    simp units (by_address _ _ (load-address memory t.fp o.off_op1 addr v fits h))
                | Op1Src.ap ↦ λ base h.
                    simp units (by_address _ _ (load-address memory t.ap o.off_op1 addr v fits h))
              ]
          base h

  -- What `mul_2` says of the result, by the flags of its logic and of a conditional jump.
  abbrev pub mul_2_value : F × F → F → F → F → F → F
  mul_2_value (mul, add) jnz op0 op1 res =
      add ⊗ (op0 ⊕ op1) ⊕ mul ⊗ (op0 ⊗ op1) ⊕ (K.one ⊖ add ⊖ mul ⊖ jnz) ⊗ op1 ⊖ (K.one ⊖ jnz) ⊗ res

  mul_2_jnz :
      (logic : ResLogic) (opcode : CairoOpcode) (update : ApUpdate) (rl : F × F)
      (op0 op1 dst res : F)
      → res_logic_trace logic ≡ some rl
      → jnz_res logic opcode update dst ≡ some res
      → mul_2_value rl K.one op0 op1 res ≡ K.zero
  mul_2_jnz ResLogic.op1 opcode update rl op0 op1 dst res p h =
      rw (sym (some-injective _ _ p)) (simp units)
  mul_2_jnz ResLogic.add opcode update rl op0 op1 dst res p h = cc
  mul_2_jnz ResLogic.mul opcode update rl op0 op1 dst res p h = cc
  mul_2_jnz ResLogic.unconstrained opcode update rl op0 op1 dst res p h = cc

  mul_2_regular :
      (logic : ResLogic) (rl : F × F) (op0 op1 res : F)
      → res_logic_trace logic ≡ some rl
      → logic_res logic op0 op1 ≡ some res
      → mul_2_value rl K.zero op0 op1 res ≡ K.zero
  mul_2_regular ResLogic.op1 rl op0 op1 res p h =
      rw (sym (some-injective _ _ p), sym (some-injective _ _ h)) (simp units)
  mul_2_regular ResLogic.add rl op0 op1 res p h =
      rw (sym (some-injective _ _ p), sym (some-injective _ _ h)) (simp units)
  mul_2_regular ResLogic.mul rl op0 op1 res p h =
      rw (sym (some-injective _ _ p), sym (some-injective _ _ h)) (simp units)
  mul_2_regular ResLogic.unconstrained rl op0 op1 res p h = cc

  pub mul_2_lem :
      (f : CairoInstructionFlags) (rl : F × F) (op0 op1 dst res : F)
      → res_logic_trace f.res_logic ≡ some rl
      → res_at f op0 op1 dst ≡ some res
      → mul_2_value rl (pc_update_trace f.pc_update).0 op0 op1 res ≡ K.zero
  unfolding res_at
  mul_2_lem f rl op0 op1 dst res p h =
      elim f.pc_update
          as (λ u.
            res_at (record f { pc_update = u }) op0 op1 dst ≡ some res
            → mul_2_value rl (pc_update_trace u).0 op0 op1 res ≡ K.zero) [
              | PcUpdate.regular ↦ mul_2_regular f.res_logic rl op0 op1 res p
              | PcUpdate.jump ↦ mul_2_regular f.res_logic rl op0 op1 res p
              | PcUpdate.jump_rel ↦ mul_2_regular f.res_logic rl op0 op1 res p
              | PcUpdate.jnz ↦ mul_2_jnz f.res_logic f.opcode f.ap_update rl op0 op1 dst res p
            ]
        h

  pub imm_flag :
      (src : Op1Src) → (op1_src_trace {F = F} src).2 ⊕ K.one ≡ K.from (instruction_size src)
  imm_flag Op1Src.imm = sym (from-add 1 1 ∙ rw (from-one ⦃K = K⦄))
  imm_flag Op1Src.op0 = zero-add K.one ∙ sym from-one
  imm_flag Op1Src.fp = zero-add K.one ∙ sym from-one
  imm_flag Op1Src.ap = zero-add K.one ∙ sym from-one

  -- A flag that is zero but for one opcode makes a constraint of that opcode.
  pub call_lem :
      (opcode : CairoOpcode) (x y : F)
      → (opcode ≡ CairoOpcode.call → x ≡ y)
      → (opcode_trace {F = F} opcode).2 ⊗ (x ⊖ y) ≡ K.zero
  call_lem CairoOpcode.nop x y h = zero-mul _
  call_lem CairoOpcode.call x y h = rw (h refl) (simp units)
  call_lem CairoOpcode.ret x y h = zero-mul _
  call_lem CairoOpcode.assert_eq x y h = zero-mul _

  pub assert_eq_lem :
      (opcode : CairoOpcode) (x y : F)
      → (opcode ≡ CairoOpcode.assert_eq → x ≡ y)
      → (opcode_trace {F = F} opcode).0 ⊗ (x ⊖ y) ≡ K.zero
  assert_eq_lem CairoOpcode.nop x y h = zero-mul _
  assert_eq_lem CairoOpcode.call x y h = zero-mul _
  assert_eq_lem CairoOpcode.ret x y h = zero-mul _
  assert_eq_lem CairoOpcode.assert_eq x y h = rw (h refl) (simp units)
