-- ===== src/Examples/Decoding.antt =====
-- cairo_vm/instruction_flags.rs and instruction_offsets.rs on an instruction of their tests.
use lambdaworks_cairo_prover.Prelude.{◌/◌, ◌%◌, ◌^◌, ◌≡◌, refl, arith, ok, some, from_be_bytes}
use lambdaworks_cairo_prover.Prelude.Int.{negsuc, sub_ℕ, checked_add_signed}
use lambdaworks_cairo_prover.Field.Zmod.{zmod, Stark252, stark252}
use lambdaworks_cairo_prover.CairoVm.Words.{aux_get_last_nim_of_field_element}
use lambdaworks_cairo_prover.CairoVm.Flags.{
  CairoInstructionFlags, CairoOpcode, ApUpdate, PcUpdate, ResLogic, Op1Src, Op0Reg, DstReg,
  flags_of, flags_try_from, flags_trace, opcode_try_from, pc_update_try_from, ap_update_try_from,
  res_logic_try_from, op1_src_try_from, op0_reg_try_from, dst_reg_try_from,
}
use lambdaworks_cairo_prover.CairoVm.Flags.Bits.{flag_bits, flags_trace-try_from}
use lambdaworks_cairo_prover.CairoVm.Flags.Faults.{
  error_of, first_fault, flags_try_from-first_fault,
}
use lambdaworks_cairo_prover.CairoVm.Offsets.{
  decode_offset, to_unbiased_representation, unbiased-decode_offset, decode_offset-sub_ℕ,
  from-checked_add_signed,
}

-- `[ap] = 10; ap++` of the tests.
abbrev word : Stark252
word = stark252.from 0x480680017fff8000

abbrev word_flags : CairoInstructionFlags
word_flags = record {
  opcode = CairoOpcode.assert_eq;
  ap_update = ApUpdate.add1;
  pc_update = PcUpdate.regular;
  res_logic = ResLogic.op1;
  op1_src = Op1Src.imm;
  op0_reg = Op0Reg.fp;
  dst_reg = DstReg.ap;
}

word-decodes : flags_try_from ⦃K = stark252⦄ word ≡ ok word_flags
unfolding flags_try_from stark252 aux_get_last_nim_of_field_element opcode_try_from from_be_bytes
    pc_update_try_from ap_update_try_from res_logic_try_from op1_src_try_from op0_reg_try_from
    dst_reg_try_from
word-decodes = refl

flags_trace-try_from_example :
    flags_trace ⦃K = stark252⦄ word_flags ≡ some (flag_bits ⦃K = stark252⦄ word)
flags_trace-try_from_example = flags_trace-try_from ⦃K = stark252⦄ word word_flags word-decodes

flags_try_from-first_fault_example :
    error_of (flags_try_from ⦃K = stark252⦄ word) ≡ first_fault (flags_of ⦃K = stark252⦄ word)
flags_try_from-first_fault_example = flags_try_from-first_fault ⦃K = stark252⦄ word

unbiased-decode_offset_example :
    to_unbiased_representation ⦃K = stark252⦄ (decode_offset ⦃K = stark252⦄ word 16)
    ≡ stark252.from (aux_get_last_nim_of_field_element ⦃K = stark252⦄ word / 2 ^ 16 % 2 ^ 16)
unbiased-decode_offset_example = unbiased-decode_offset ⦃K = stark252⦄ word 16

decode_offset-sub_ℕ_example :
    decode_offset ⦃K = stark252⦄ word 16
    ≡ sub_ℕ (aux_get_last_nim_of_field_element ⦃K = stark252⦄ word / 2 ^ 16 % 2 ^ 16) (2 ^ 15)
decode_offset-sub_ℕ_example = decode_offset-sub_ℕ ⦃K = stark252⦄ word 16

from-checked_add_signed_example :
    stark252.from 7
    ≡ stark252.add (stark252.from 10) (
        stark252.sub
          (to_unbiased_representation ⦃K = stark252⦄ (negsuc 2))
          (stark252.from (2 ^ 15)))
unfolding checked_add_signed
from-checked_add_signed_example =
    from-checked_add_signed ⦃K = stark252⦄ 10 (negsuc 2) 7 (omega arith) refl
