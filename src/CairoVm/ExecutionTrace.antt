-- ===== src/CairoVm/ExecutionTrace.antt =====
-- cairo_vm/execution_trace.rs: the main trace table of a run, column by column. A panic is `none`.
pub mod Steps
pub mod Parts
use lambdaworks_cairo_prover.Prelude.{
  ℕ, zero, suc, ◌+◌, ◌-◌, ◌%◌, ◌^◌, Bool, true, false, Option, none, some, List, [], ◌∷◌, ◌++◌, map,
  length, get_elem?, set, range, replicate, zip, unzip, traverse, and_then, Result, ok, err, ◌==◌,
  if◌then◌else◌,
}
use mathlib.Core.Option
use lambdaworks_cairo_prover.Prelude.Int.{ℤ, checked_add_signed}
use lambdaworks_cairo_prover.Field.{Field, ◌⊕◌, ◌⊗◌}
use lambdaworks_cairo_prover.CairoVm.Words.{aux_get_last_nim_of_field_element}
use lambdaworks_cairo_prover.CairoVm.Flags.{
  CairoInstructionFlags, CairoOpcode, Op0Reg, DstReg, Op1Src, ResLogic, PcUpdate, ApUpdate,
  flags_trace, Decoded,
}
use lambdaworks_cairo_prover.CairoVm.Offsets.{InstructionOffsets, offsets_trace}
use lambdaworks_cairo_prover.CairoVm.Memory.{CairoMemory, get}
use lambdaworks_cairo_prover.CairoVm.Trace.{RegistersState, CairoTrace, steps, flags_and_offsets}
use lambdaworks_cairo_prover.Air.TraceTable.{TraceTable, new_from_cols}

-- `Result::unwrap`
abbrev pub unwrap : {E A : Type 0} → Result E A → Option A
unwrap (ok a) = some a
unwrap (err e) = none

module _ {F : Type 0} ⦃K : Field F⦄ where
  -- The address `base + offset`, and the value stored there.
  unfoldable pub load : CairoMemory F → ℕ → ℤ → Option (F × F)
  load memory base offset =
      and_then (checked_add_signed base offset)
        λ addr. and_then (get memory addr) λ value. some (K.from addr, value)

  -- The closures of the four loops, for one step.
  unfoldable pub dst_at :
      CairoMemory F → CairoInstructionFlags → InstructionOffsets → RegistersState → Option (F × F)
  dst_at memory f o t = elim f.dst_reg [
    | DstReg.ap ↦ load memory t.ap o.off_dst
    | DstReg.fp ↦ load memory t.fp o.off_dst
  ]

  unfoldable pub op0_at :
      CairoMemory F → CairoInstructionFlags → InstructionOffsets → RegistersState → Option (F × F)
  op0_at memory f o t = elim f.op0_reg [
    | Op0Reg.ap ↦ load memory t.ap o.off_op0
    | Op0Reg.fp ↦ load memory t.fp o.off_op0
  ]

  unfoldable pub op1_at :
      CairoMemory F
      → CairoInstructionFlags
      → InstructionOffsets
      → F
      → RegistersState
      → Option (F × F)
  op1_at memory f o op0 t = elim f.op1_src [
    | Op1Src.op0 ↦ load memory (aux_get_last_nim_of_field_element op0) o.off_op1
    | Op1Src.imm ↦ load memory t.pc o.off_op1
    | Op1Src.ap ↦ load memory t.ap o.off_op1
    | Op1Src.fp ↦ load memory t.fp o.off_op1
  ]

  -- In a `jnz` the result holds the inverse of the destination, or zero.
  abbrev pub jnz_res : ResLogic → CairoOpcode → ApUpdate → F → Option F
  jnz_res ResLogic.op1 CairoOpcode.nop ApUpdate.regular dst =
      some (if K.beq dst K.zero then dst else K.inv dst)
  jnz_res ResLogic.op1 CairoOpcode.nop ApUpdate.add1 dst =
      some (if K.beq dst K.zero then dst else K.inv dst)
  jnz_res ResLogic.op1 CairoOpcode.nop ApUpdate.add2 dst =
      some (if K.beq dst K.zero then dst else K.inv dst)
  jnz_res _ _ _ dst = none

  abbrev pub logic_res : ResLogic → F → F → Option F
  logic_res ResLogic.op1 op0 op1 = some op1
  logic_res ResLogic.add op0 op1 = some (op0 ⊕ op1)
  logic_res ResLogic.mul op0 op1 = some (op0 ⊗ op1)
  logic_res ResLogic.unconstrained op0 op1 = none

  unfoldable pub res_at : CairoInstructionFlags → F → F → F → Option F
  res_at f op0 op1 dst = elim f.pc_update [
    | PcUpdate.jnz ↦ jnz_res f.res_logic f.opcode f.ap_update dst
    | _ ↦ logic_res f.res_logic op0 op1
  ]

  unfoldable pub compute_res :
      List CairoInstructionFlags → List F → List F → List F → Option (List F)
  unfolding res_at
  compute_res flags op0s op1s dsts =
      traverse (λ (((f, op0), op1), dst). res_at f op0 op1 dst)
        (zip (zip (zip flags op0s) op1s) dsts)

  unfoldable pub compute_dst :
      List CairoInstructionFlags
      → List InstructionOffsets
      → CairoTrace
      → CairoMemory F
      → Option (List F × List F)
  unfolding dst_at
  compute_dst flags offsets raw_trace memory =
      Option.map unzip
        (traverse (λ ((f, o), t). dst_at memory f o t) (zip (zip flags offsets) raw_trace.rows))

  unfoldable pub compute_op0 :
      List CairoInstructionFlags
      → List InstructionOffsets
      → CairoTrace
      → CairoMemory F
      → Option (List F × List F)
  unfolding op0_at
  compute_op0 flags offsets raw_trace memory =
      Option.map unzip
        (traverse (λ ((f, o), t). op0_at memory f o t) (zip (zip flags offsets) raw_trace.rows))

  unfoldable pub compute_op1 :
      List CairoInstructionFlags
      → List InstructionOffsets
      → CairoTrace
      → CairoMemory F
      → List F
      → Option (List F × List F)
  unfolding op1_at
  compute_op1 flags offsets raw_trace memory op0s = Option.map unzip (
      traverse (λ (((f, o), op0), t). op1_at memory f o op0 t)
        (zip (zip (zip flags offsets) op0s) raw_trace.rows))

  -- One turn of `update_values`: `call` stores the return address and the frame pointer, and
  -- `assert_eq` the destination as the result. The sum wraps at 64 bits.
  unfoldable pub update_at :
      List RegistersState
      → ℕ
      → CairoInstructionFlags
      → List F × List F × List F
      → Option (List F × List F × List F)
  update_at rows i f (op0s, dsts, res) = elim f.opcode [
    | CairoOpcode.call ↦
        let instruction_size = elim f.op1_src as (λ _. ℕ) [ Op1Src.imm ↦ 2 | _ ↦ 1 ] in
        and_then (get_elem? rows i) λ row. some (
          set op0s i (K.from ((row.pc + instruction_size) % 2 ^ 64)),
          set dsts i (K.from row.fp),
          res,
        )
    | CairoOpcode.assert_eq ↦ and_then (get_elem? dsts i) λ dst. some (op0s, dsts, set res i dst)
    | _ ↦ some (op0s, dsts, res)
  ]

  -- The loop over the flags, `i` the index reached.
  unfoldable pub update_values :
      List RegistersState
      → ℕ
      → List CairoInstructionFlags
      → List F × List F × List F
      → Option (List F × List F × List F)
  unfolding update_at
  update_values rows i [] columns = some columns
  update_values rows i (f ∷ flags) columns =
      and_then (update_at rows i f columns) λ columns'. update_values rows (suc i) flags columns'

  -- Rows of equal width as columns; no row at all is a panic.
  unfoldable pub rows_to_cols : List (List F) → Option (List (List F))
  rows_to_cols rows = and_then (get_elem? rows 0) λ first.
      traverse (λ col_idx. traverse (λ row. get_elem? row col_idx) rows) (range (length first))

  -- `vec![FE::one(); n_steps]` with a zero at the end; the index before 0 is a panic.
  unfoldable pub selector_column : ℕ → Option (List F)
  selector_column zero = none
  selector_column (suc n) = some (set (replicate (suc n) K.one) n K.zero)

  unfoldable pub build_cairo_execution_trace : CairoTrace → CairoMemory F → Option (TraceTable F)
  unfolding compute_dst compute_op0 compute_op1 compute_res update_values rows_to_cols
      selector_column
  build_cairo_execution_trace raw_trace memory =
      and_then (unwrap (flags_and_offsets raw_trace memory)) λ decoded.
        let (flags, offsets) = unzip decoded in
        and_then (compute_dst flags offsets raw_trace memory) λ (dst_addrs, dsts).
          and_then (compute_op0 flags offsets raw_trace memory) λ (op0_addrs, op0s).
            and_then (compute_op1 flags offsets raw_trace memory op0s) λ (op1_addrs, op1s).
              and_then (compute_res flags op0s op1s dsts) λ res.
                and_then (update_values raw_trace.rows 0 flags (op0s, dsts, res))
                  λ (op0s', dsts', res'). and_then (traverse flags_trace flags) λ trace_repr_flags.
                    let trace_repr_offsets = map offsets_trace offsets in
                    let aps = map (λ (t : RegistersState). K.from t.ap) raw_trace.rows in
                    let fps = map (λ (t : RegistersState). K.from t.fp) raw_trace.rows in
                    let pcs = map (λ (t : RegistersState). K.from t.pc) raw_trace.rows in
                    and_then (traverse (λ (t : RegistersState). get memory t.pc) raw_trace.rows)
                      λ instructions.
                        and_then
                          (traverse
                            (λ (repr_flags, dst).
                              and_then (get_elem? repr_flags 9) λ jnz. some (jnz ⊗ dst))
                            (zip trace_repr_flags dsts'))
                          λ t0.
                            let t1 = map (λ (t, r). t ⊗ r) (zip t0 res') in
                            let mul = map (λ (op0, op1). op0 ⊗ op1) (zip op0s' op1s) in
                            and_then (rows_to_cols trace_repr_flags) λ flag_cols.
                              and_then (rows_to_cols trace_repr_offsets) λ offset_cols.
                                and_then (selector_column (steps raw_trace)) λ selector.
                                  new_from_cols (
                                    flag_cols
                                    ++ (res' ∷ aps ∷ fps ∷ pcs ∷ dst_addrs ∷ op0_addrs ∷ op1_addrs
                                        ∷ instructions ∷ dsts' ∷ op0s' ∷ op1s ∷ [])
                                    ++ (offset_cols ++ (t0 ∷ t1 ∷ mul ∷ selector ∷ [])))
