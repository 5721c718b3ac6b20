-- ===== src/Air/Cairo/Registers.antt =====
-- The register constraints and the next state of the Cairo machine, by its flags.
use lambdaworks_cairo_prover.Prelude.{
  ◌≡◌, ◌≢◌, inl, inr, refl, sym, ap, ap₂, ◌∙◌, Bool-cases, some, if◌then◌else◌,
}
use native.Mathlib.Omega.{arith}
use mathlib.Core.Option.{some-injective}
use lambdaworks_cairo_prover.Field.{Field, HasInverses, ◌⊕◌, ◌⊖◌, ◌⊗◌}
use lambdaworks_cairo_prover.Field.Laws.{units, one-mul, mul-zero, zero-mul, sub-eq-zero}
use lambdaworks_cairo_prover.CairoVm.Flags.{
  PcUpdate, ApUpdate, CairoOpcode, ResLogic, pc_update_trace, ap_update_trace, opcode_trace,
}
use lambdaworks_cairo_prover.CairoVm.ExecutionTrace.{jnz_res}

module _ {F : Type 0} ⦃K : Field F⦄ where
  -- The machine: the allocation pointer, the frame pointer and the program counter after a step of
  -- `size` words.
  abbrev pub ap_after : ApUpdate → F → F → F
  ap_after ApUpdate.regular ap res = ap
  ap_after ApUpdate.add ap res = ap ⊕ res
  ap_after ApUpdate.add1 ap res = ap ⊕ K.one
  ap_after ApUpdate.add2 ap res = ap ⊕ K.from 2

  abbrev pub ap_after_opcode : CairoOpcode → F → F
  ap_after_opcode CairoOpcode.call ap = ap ⊕ K.from 2
  ap_after_opcode _ ap = ap

  abbrev pub fp_after : CairoOpcode → F → F → F → F
  fp_after CairoOpcode.call ap fp dst = ap ⊕ K.from 2
  fp_after CairoOpcode.ret ap fp dst = dst
  fp_after _ ap fp dst = fp

  abbrev pub pc_after : PcUpdate → F → F → F → F → F → F
  pc_after PcUpdate.regular pc size res dst op1 = pc ⊕ size
  pc_after PcUpdate.jump pc size res dst op1 = res
  pc_after PcUpdate.jump_rel pc size res dst op1 = pc ⊕ res
  pc_after PcUpdate.jnz pc size res dst op1 = if K.beq dst K.zero then pc ⊕ size else pc ⊕ op1

  ap_bits :
      (u : ApUpdate) (au : F × F) (x res : F)
      → ap_update_trace u ≡ some au
      → x ⊕ au.1 ⊗ res ⊕ au.0 ≡ ap_after u x res
  ap_bits ApUpdate.regular au x res h = rw (sym (some-injective _ _ h)) (simp units)
  ap_bits ApUpdate.add au x res h = rw (sym (some-injective _ _ h)) (simp units)
  ap_bits ApUpdate.add1 au x res h = rw (sym (some-injective _ _ h)) (simp units)
  ap_bits ApUpdate.add2 au x res h = cc

  call_bit :
      (o : CairoOpcode) (x : F) → x ⊕ (opcode_trace {F = F} o).2 ⊗ K.from 2 ≡ ap_after_opcode o x
  call_bit CairoOpcode.nop x = simp units
  call_bit CairoOpcode.call x = simp units
  call_bit CairoOpcode.ret x = simp units
  call_bit CairoOpcode.assert_eq x = simp units

  pub next_ap_lem :
      (u : ApUpdate) (o : CairoOpcode) (au : F × F) (x res next : F)
      → ap_update_trace u ≡ some au
      → next ≡ ap_after_opcode o (ap_after u x res)
      → x ⊕ au.1 ⊗ res ⊕ au.0 ⊕ (opcode_trace {F = F} o).2 ⊗ K.from 2 ⊖ next ≡ K.zero
  next_ap_lem u o au x res next h e = sub-eq-zero _ next (
      ap (λ y. y ⊕ (opcode_trace {F = F} o).2 ⊗ K.from 2) (ap_bits u au x res h)
      ∙ call_bit o (ap_after u x res)
      ∙ sym e)

  pub next_fp_lem :
      (o : CairoOpcode) (x fp dst next : F)
      → next ≡ fp_after o x fp dst
      → (opcode_trace {F = F} o).1 ⊗ dst
          ⊕ (opcode_trace {F = F} o).2 ⊗ (x ⊕ K.from 2)
          ⊕ (K.one ⊖ (opcode_trace {F = F} o).1 ⊖ (opcode_trace {F = F} o).2) ⊗ fp
          ⊖ next
        ≡ K.zero
  next_fp_lem CairoOpcode.nop x fp dst next e = rw e (simp units)
  next_fp_lem CairoOpcode.call x fp dst next e = rw e (simp units)
  next_fp_lem CairoOpcode.ret x fp dst next e = rw e (simp units)
  next_fp_lem CairoOpcode.assert_eq x fp dst next e = rw e (simp units)

  -- In a conditional jump the result is the inverse of a destination that is not zero.
  pub jnz_inverse :
      (l : ResLogic) (o : CairoOpcode) (u : ApUpdate) (dst res : F)
      → jnz_res l o u dst ≡ some res
      → res ≡ (if K.beq dst K.zero then dst else K.inv dst)
  jnz_inverse l o u dst res h = ground arith

  module _ (V : HasInverses K) where
    pub next_pc_1_lem :
        (u : PcUpdate) (pc size res dst op1 next : F)
        → (u ≡ PcUpdate.jnz → res ≡ (if K.beq dst K.zero then dst else K.inv dst))
        → next ≡ pc_after u pc size res dst op1
        → ((pc_update_trace {F = F} u).0 ⊗ dst ⊗ res ⊖ (pc_update_trace {F = F} u).0)
            ⊗ (next ⊖ (pc ⊕ size))
          ≡ K.zero
    next_pc_1_lem PcUpdate.regular pc size res dst op1 next h e = simp units
    next_pc_1_lem PcUpdate.jump pc size res dst op1 next h e = simp units
    next_pc_1_lem PcUpdate.jump_rel pc size res dst op1 next h e = simp units
    next_pc_1_lem PcUpdate.jnz pc size res dst op1 next h e = elim (Bool-cases (K.beq dst K.zero)) [
      | inl z ↦
          let stay : next ≡ pc ⊕ size = e ∙ ap (λ b. if b then pc ⊕ size else pc ⊕ op1) z in
          ap (λ y. (K.one ⊗ dst ⊗ res ⊖ K.one) ⊗ y) (sub-eq-zero next (pc ⊕ size) stay) ∙ mul-zero _
      | inr z ↦
          let ne : dst ≢ K.zero = λ q. let t = (K.beq_iff dst K.zero).1 q in cc in
          let inverse : res ≡ K.inv dst = h refl ∙ ap (λ b. if b then dst else K.inv dst) z in
          let unit : K.one ⊗ dst ⊗ res ≡ K.one =
            ap₂ (λ a b. a ⊗ b) (one-mul dst) inverse ∙ V.mul-inv dst ne in
          ap (λ y. y ⊗ (next ⊖ (pc ⊕ size))) (sub-eq-zero _ K.one unit) ∙ zero-mul _
    ]

  pub next_pc_2_lem :
      (u : PcUpdate) (pc size res dst op1 next : F)
      → next ≡ pc_after u pc size res dst op1
      → (pc_update_trace {F = F} u).0 ⊗ dst ⊗ (next ⊖ (pc ⊕ op1))
          ⊕ (K.one ⊖ (pc_update_trace {F = F} u).0) ⊗ next
          ⊖ ((K.one
                  ⊖ (pc_update_trace {F = F} u).2
                  ⊖ (pc_update_trace {F = F} u).1
                  ⊖ (pc_update_trace {F = F} u).0)
                ⊗ (pc ⊕ size)
              ⊕ (pc_update_trace {F = F} u).2 ⊗ res
              ⊕ (pc_update_trace {F = F} u).1 ⊗ (pc ⊕ res))
        ≡ K.zero
  next_pc_2_lem PcUpdate.regular pc size res dst op1 next e = rw e (simp units)
  next_pc_2_lem PcUpdate.jump pc size res dst op1 next e = rw e (simp units)
  next_pc_2_lem PcUpdate.jump_rel pc size res dst op1 next e = rw e (simp units)
  next_pc_2_lem PcUpdate.jnz pc size res dst op1 next e = elim (Bool-cases (K.beq dst K.zero)) [
    | inl z ↦ let zero : dst ≡ K.zero = (K.beq_iff dst K.zero).0 z in simp (units, zero)
    | inr z ↦
        let taken : next ≡ pc ⊕ op1 = e ∙ ap (λ b. if b then pc ⊕ size else pc ⊕ op1) z in
        rw taken (simp units)
  ]
