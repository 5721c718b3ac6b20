-- ===== src/CairoVm/Flags/Bits.antt =====
-- The decoding of the flags and their trace row are inverse on the words that decode.
use lambdaworks_cairo_prover.Prelude.{
  ◌/◌, ◌^◌, ◌≡◌, arith, some, List, [], ◌∷◌, map, range, ok, ◌++◌,
}
use lambdaworks_cairo_prover.Field.{Field}
use lambdaworks_cairo_prover.CairoVm.Flags.{
  CairoInstructionFlags, flags_of, flags_try_from, flags_trace, opcode_try_from, pc_update_try_from,
  ap_update_try_from, res_logic_try_from, op1_src_try_from, op0_reg_try_from, dst_reg_try_from,
}
use lambdaworks_cairo_prover.CairoVm.Flags.Groups.{
  bit, dst_reg-bits, op0_reg-bits, op1_src-bits, res_logic-bits, pc_update-bits, ap_update-bits,
  opcode-bits,
}

module _ {F : Type 0} ⦃K : Field F⦄ where
  -- What a decoded word is made of.
  pub record Groups (v : F) (f : CairoInstructionFlags) : Type 0 where
    pub opcode : opcode_try_from v ≡ ok f.opcode
    pub pc_update : pc_update_try_from v ≡ ok f.pc_update
    pub ap_update : ap_update_try_from v ≡ ok f.ap_update
    pub res_logic : res_logic_try_from v ≡ ok f.res_logic
    pub op1_src : op1_src_try_from v ≡ ok f.op1_src
    pub op0_reg : op0_reg_try_from v ≡ ok f.op0_reg
    pub dst_reg : dst_reg_try_from v ≡ ok f.dst_reg

  pub flags_try_from-Groups :
      (v : F) (f : CairoInstructionFlags) → flags_try_from v ≡ ok f → Groups v f
  unfolding flags_try_from
  flags_try_from-Groups v f h = ground arith

  -- The fifteen flag bits of a word, and the zero that closes the row.
  abbrev pub flag_bits : F → List F
  flag_bits v = map (λ i. bit (flags_of v / 2 ^ i)) (range 15) ++ K.zero ∷ []

  -- If a word decodes, then the trace row of its flags is some row, and holds the bits 48 to 62 of
  -- the word in order and then zero.
  pub flags_trace-try_from :
      (v : F) (f : CairoInstructionFlags)
      → flags_try_from v ≡ ok f
      → flags_trace f ≡ some (flag_bits v)
  unfolding flags_trace
  flags_trace-try_from v f h =
      let g = flags_try_from-Groups v f h in
      rw (
        dst_reg-bits v f.dst_reg g.dst_reg,
        op0_reg-bits v f.op0_reg g.op0_reg,
        op1_src-bits v f.op1_src g.op1_src,
        res_logic-bits v f.res_logic g.res_logic,
        pc_update-bits v f.pc_update g.pc_update,
        ap_update-bits v f.ap_update g.ap_update,
        opcode-bits v f.opcode g.opcode,
      )
