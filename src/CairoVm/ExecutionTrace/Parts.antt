-- ===== src/CairoVm/ExecutionTrace/Parts.antt =====
-- What a step that succeeds is made of.
use lambdaworks_cairo_prover.Prelude.{
  ◌≡◌, sym, subst, arith, some, List, [], ◌∷◌, and_then-eq-some, ok,
}
use mathlib.Core.Option.{some-injective}
use lambdaworks_cairo_prover.Field.{Field}
use lambdaworks_cairo_prover.CairoVm.Flags.{
  CairoInstructionFlags, flags_try_from, flags_trace, res_logic_trace, ap_update_trace,
  op1_src_trace, pc_update_trace, opcode_trace, op0_reg_trace, dst_reg_trace,
}
use lambdaworks_cairo_prover.CairoVm.Offsets.{InstructionOffsets, offsets_new}
use lambdaworks_cairo_prover.CairoVm.Memory.{CairoMemory, get}
use lambdaworks_cairo_prover.CairoVm.Trace.{RegistersState, instruction_flags_and_offsets}
use lambdaworks_cairo_prover.CairoVm.ExecutionTrace.{unwrap, dst_at, op0_at, op1_at, res_at}
use lambdaworks_cairo_prover.CairoVm.ExecutionTrace.Steps.{Step, step_of}

module _ {F : Type 0} ⦃K : Field F⦄ where
  pub record Parts (memory : CairoMemory F) (t : RegistersState) (s : Step F) : Type 0 where
    pub inst : get memory t.pc ≡ some s.inst
    pub flags : flags_try_from s.inst ≡ ok s.flags
    pub offsets : s.offsets ≡ offsets_new s.inst
    pub dst : dst_at memory s.flags s.offsets t ≡ some (s.dst_addr, s.dst)
    pub op0 : op0_at memory s.flags s.offsets t ≡ some (s.op0_addr, s.op0)
    pub op1 : op1_at memory s.flags s.offsets s.op0 t ≡ some (s.op1_addr, s.op1)
    pub res : res_at s.flags s.op0 s.op1 s.dst ≡ some s.res

  decoded :
      (memory : CairoMemory F) (t : RegistersState) (inst : F) (f : CairoInstructionFlags)
      (o : InstructionOffsets)
      → get memory t.pc ≡ some inst
      → unwrap (instruction_flags_and_offsets memory t) ≡ some (f, o)
      → (flags_try_from inst ≡ ok f) × (o ≡ offsets_new inst)
  unfolding instruction_flags_and_offsets
  decoded memory t inst f o p q = ground arith

  pub step_of-Parts :
      (memory : CairoMemory F) (t : RegistersState) (s : Step F)
      → step_of memory t ≡ some s
      → Parts memory t s
  unfolding step_of instruction_flags_and_offsets
  step_of-Parts memory t s h =
      let (inst, p₁, h₁) = and_then-eq-some (get memory t.pc) _ h in
      let ((f, o), p₂, h₂) =
        and_then-eq-some (unwrap (instruction_flags_and_offsets memory t)) _ h₁ in
      let ((da, d), p₃, h₃) = and_then-eq-some (dst_at memory f o t) _ h₂ in
      let ((a0, x0), p₄, h₄) = and_then-eq-some (op0_at memory f o t) _ h₃ in
      let ((a1, x1), p₅, h₅) = and_then-eq-some (op1_at memory f o x0 t) _ h₄ in
      let (r, p₆, h₆) = and_then-eq-some (res_at f x0 x1 d) _ h₅ in
      let (pf, po) = decoded memory t inst f o p₁ p₂ in
      subst (Parts memory t) (some-injective _ _ h₆)
        (record { inst = p₁; flags = pf; offsets = po; dst = p₃; op0 = p₄; op1 = p₅; res = p₆ })

  -- The bits of a flag row by their groups.
  abbrev pub grouped_bits : CairoInstructionFlags → F × F → F × F → List F
  grouped_bits f (b5, b6) (b10, b11) =
      let b0 = dst_reg_trace f.dst_reg in
      let b1 = op0_reg_trace f.op0_reg in
      let (b2, b3, b4) = op1_src_trace f.op1_src in
      let (b7, b8, b9) = pc_update_trace f.pc_update in
      let (b12, b13, b14) = opcode_trace f.opcode in
      b0 ∷ b1 ∷ b4 ∷ b3 ∷ b2 ∷ b6 ∷ b5 ∷ b9 ∷ b8 ∷ b7 ∷ b11 ∷ b10 ∷ b14 ∷ b13 ∷ b12 ∷ K.zero ∷ []

  pub flags_trace-cases :
      (f : CairoInstructionFlags) (bits : List F)
      → flags_trace f ≡ some bits
      → (rl : F × F) × (au : F × F) × (res_logic_trace f.res_logic ≡ some rl)
        × (ap_update_trace f.ap_update ≡ some au)
        × (bits ≡ grouped_bits f rl au)
  unfolding flags_trace
  flags_trace-cases f bits h =
      let (rl, e₁, k₁) = and_then-eq-some (res_logic_trace f.res_logic) _ h in
      let (au, e₂, k₂) = and_then-eq-some (ap_update_trace f.ap_update) _ k₁ in
      (rl, au, e₁, e₂, sym (some-injective _ _ k₂))
