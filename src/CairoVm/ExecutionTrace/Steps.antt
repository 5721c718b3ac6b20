-- ===== src/CairoVm/ExecutionTrace/Steps.antt =====
-- The row of one step, from its register state and the memory alone: what the columns of
-- `build_cairo_execution_trace` hold at its index.
use lambdaworks_cairo_prover.Prelude.{ℕ, ◌+◌, ◌%◌, ◌^◌, Option, some, List, [], ◌∷◌, ◌++◌, and_then}
use lambdaworks_cairo_prover.Field.{Field, ◌⊗◌}
use lambdaworks_cairo_prover.CairoVm.Flags.{
  CairoInstructionFlags, CairoOpcode, Op1Src, flags_trace, pc_update_trace,
}
use lambdaworks_cairo_prover.CairoVm.Offsets.{InstructionOffsets, offsets_trace}
use lambdaworks_cairo_prover.CairoVm.Memory.{CairoMemory, get}
use lambdaworks_cairo_prover.CairoVm.Trace.{RegistersState, instruction_flags_and_offsets}
use lambdaworks_cairo_prover.CairoVm.ExecutionTrace.{unwrap, dst_at, op0_at, op1_at, res_at}

-- What a step decodes, loads and computes.
pub record Step (F : Type 0) : Type 0 where
  pub inst : F
  pub flags : CairoInstructionFlags
  pub offsets : InstructionOffsets
  pub dst_addr : F
  pub dst : F
  pub op0_addr : F
  pub op0 : F
  pub op1_addr : F
  pub op1 : F
  pub res : F

-- The words that an instruction takes.
abbrev pub instruction_size : Op1Src → ℕ
instruction_size Op1Src.imm = 2
instruction_size _ = 1

module _ {F : Type 0} ⦃K : Field F⦄ where
  unfoldable pub step_of : CairoMemory F → RegistersState → Option (Step F)
  step_of memory t = and_then (get memory t.pc) λ inst.
      and_then (unwrap (instruction_flags_and_offsets memory t)) λ (f, o).
        and_then (dst_at memory f o t) λ (dst_addr, dst).
          and_then (op0_at memory f o t) λ (op0_addr, op0).
            and_then (op1_at memory f o op0 t) λ (op1_addr, op1).
              and_then (res_at f op0 op1 dst) λ res. some (record {
                inst = inst;
                flags = f;
                offsets = o;
                dst_addr = dst_addr;
                dst = dst;
                op0_addr = op0_addr;
                op0 = op0;
                op1_addr = op1_addr;
                op1 = op1;
                res = res;
              })

  -- The values after the updates: a call stores its return address and frame pointer, and an
  -- asserted equation its left side as the result.
  abbrev pub op0_after : CairoOpcode → Op1Src → RegistersState → F → F
  op0_after CairoOpcode.call src t op0 = K.from ((t.pc + instruction_size src) % 2 ^ 64)
  op0_after _ src t op0 = op0

  abbrev pub dst_after : CairoOpcode → RegistersState → F → F
  dst_after CairoOpcode.call t dst = K.from t.fp
  dst_after _ t dst = dst

  abbrev pub res_after : CairoOpcode → F → F → F
  res_after CairoOpcode.assert_eq dst res = dst
  res_after _ dst res = res

  -- The columns of a step but for the selector.
  unfoldable pub row_of : RegistersState → Step F → Option (List F)
  row_of t s =
      let op0 = op0_after s.flags.opcode s.flags.op1_src t s.op0 in
      let dst = dst_after s.flags.opcode t s.dst in
      let res = res_after s.flags.opcode s.dst s.res in
      let jnz = (pc_update_trace s.flags.pc_update).0 in
      and_then (flags_trace s.flags) λ bits. some (
        bits
        ++ (res
            ∷ K.from t.ap
            ∷ K.from t.fp
            ∷ K.from t.pc
            ∷ s.dst_addr
            ∷ s.op0_addr
            ∷ s.op1_addr
            ∷ s.inst
            ∷ dst
            ∷ op0
            ∷ s.op1
            ∷ (offsets_trace s.offsets ++ (jnz ⊗ dst ∷ jnz ⊗ dst ⊗ res ∷ op0 ⊗ s.op1 ∷ []))))
