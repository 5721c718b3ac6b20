-- ===== src/Examples/Steps.antt =====
-- One step of a program over the Stark field: the instruction `[ap] = 10; ap++` at address 1.
use lambdaworks_cairo_prover.Prelude.{ℕ, ◌≡◌, refl, arith, some, List, [], ◌∷◌, ◌++◌, All}
use lambdaworks_cairo_prover.Field.Zmod.{Stark252, stark252, stark252-HasWords}
use lambdaworks_cairo_prover.CairoVm.Memory.{CairoMemory, get, lookup}
use lambdaworks_cairo_prover.CairoVm.Trace.{RegistersState, instruction_flags_and_offsets}
use lambdaworks_cairo_prover.CairoVm.ExecutionTrace.Steps.{Step, step_of, row_of}
use lambdaworks_cairo_prover.Prelude.Int.{pos, negsuc, checked_add_signed}
use lambdaworks_cairo_prover.Prelude.{from_be_bytes, from_le_bytes}
use lambdaworks_cairo_prover.CairoVm.Words.{aux_get_last_nim_of_field_element}
use lambdaworks_cairo_prover.CairoVm.ExecutionTrace.{load, dst_at, op0_at, op1_at, res_at}
use lambdaworks_cairo_prover.CairoVm.Offsets.{offsets_new, decode_offset, unbias, signed16}
use lambdaworks_cairo_prover.CairoVm.Flags.{
  flags_try_from, opcode_try_from, pc_update_try_from, ap_update_try_from, res_logic_try_from,
  op1_src_try_from, op0_reg_try_from, dst_reg_try_from, CairoOpcode, ApUpdate, PcUpdate, ResLogic,
  Op1Src, Op0Reg, DstReg,
}
use lambdaworks_cairo_prover.Air.Cairo.Constraints.{cell, transition_on_rows}
use lambdaworks_cairo_prover.Air.Cairo.Completeness.{
  Executed, row_constraints, transition_on_rows-row_of,
}

abbrev elem : ℕ → Stark252
elem n = stark252.from n

abbrev memory : CairoMemory Stark252
memory = record {
  entries = (1, elem 0x480680017fff8000) ∷ (2, elem 10) ∷ (23, elem 7) ∷ (24, elem 10) ∷ [];
}

abbrev state : RegistersState
state = record { pc = 1; fp = 24; ap = 24 }

abbrev step : Step Stark252
step = record {
  inst = elem 0x480680017fff8000;
  flags = record {
    opcode = CairoOpcode.assert_eq;
    ap_update = ApUpdate.add1;
    pc_update = PcUpdate.regular;
    res_logic = ResLogic.op1;
    op1_src = Op1Src.imm;
    op0_reg = Op0Reg.fp;
    dst_reg = DstReg.ap;
  };
  offsets = record { off_dst = pos 0; off_op0 = negsuc 0; off_op1 = pos 1 };
  dst_addr = elem 24;
  dst = elem 10;
  op0_addr = elem 23;
  op0 = elem 7;
  op1_addr = elem 2;
  op1 = elem 10;
  res = elem 10;
}

state-step : step_of ⦃K = stark252⦄ memory state ≡ some step
unfolding step_of stark252 get lookup instruction_flags_and_offsets flags_try_from opcode_try_from
    aux_get_last_nim_of_field_element from_be_bytes pc_update_try_from ap_update_try_from
    res_logic_try_from op1_src_try_from op0_reg_try_from dst_reg_try_from dst_at op0_at op1_at
    res_at load checked_add_signed offsets_new decode_offset unbias signed16 from_le_bytes
state-step = refl

state-Executed : Executed ⦃K = stark252⦄ state step
unfolding stark252
state-Executed = record {
  inst_word = omega arith;
  op0_word = λ h. omega arith;
  pc_word = omega arith;
  return_address = λ h. cc;
  frame_pointer = λ h. cc;
  asserted = λ h. refl;
}

transition_on_rows-row_of_example :
    (row : List Stark252) × (row_of ⦃K = stark252⦄ state step ≡ some row)
    × All
        (λ k.
          cell ⦃K = stark252⦄
            (transition_on_rows ⦃K = stark252⦄
              (row ++ (elem 1 ∷ []))
              []
              (record { alpha_memory = elem 3; z_memory = elem 5; z_range_check = elem 9 }))
            k
          ≡ stark252.zero)
        row_constraints
transition_on_rows-row_of_example =
    transition_on_rows-row_of ⦃K = stark252⦄ stark252-HasWords memory state step (elem 1) [] []
      (record { alpha_memory = elem 3; z_memory = elem 5; z_range_check = elem 9 }) state-step
      state-Executed
