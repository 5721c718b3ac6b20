-- ===== src/Air/Cairo/Completeness.antt =====
-- The constraints on one row of the trace that the prover builds.
use lambdaworks_cairo_prover.Prelude.{
  ℕ, ◌+◌, ◌/◌, ◌^◌, ◌<◌, ◌≡◌, refl, sym, ap, ◌∙◌, arith, some, List, [], ◌∷◌, ◌++◌, map, range, All,
  subst,
}
use lambdaworks_cairo_prover.Field.{Field, HasWords, ◌⊕◌, ◌⊖◌, ◌⊗◌}
use lambdaworks_cairo_prover.Field.Laws.{sub_self, zero-mul, sub-eq-zero, from-add}
use lambdaworks_cairo_prover.CairoVm.Words.{aux_get_last_nim_of_field_element, last_nim_lem}
use lambdaworks_cairo_prover.CairoVm.Flags.{
  Op1Src, CairoOpcode, flags_of, flags_trace, res_logic_trace, pc_update_trace,
}
use lambdaworks_cairo_prover.CairoVm.Flags.Bits.{flag_bits, flags_trace-try_from}
use lambdaworks_cairo_prover.CairoVm.Flags.Groups.{bit}
use lambdaworks_cairo_prover.CairoVm.Offsets.{
  FitsBias, offsets_new, offsets_trace, to_unbiased_representation, unbiased-decode_offset,
  decode_offset-FitsBias,
}
use lambdaworks_cairo_prover.CairoVm.Memory.{CairoMemory}
use lambdaworks_cairo_prover.CairoVm.Trace.{RegistersState}
use lambdaworks_cairo_prover.CairoVm.ExecutionTrace.Steps.{
  Step, step_of, row_of, instruction_size, op0_after, dst_after, res_after,
}
use lambdaworks_cairo_prover.CairoVm.ExecutionTrace.Parts.{
  Parts, step_of-Parts, grouped_bits, flags_trace-cases,
}
use lambdaworks_cairo_prover.Air.Cairo.Columns.{
  inst, dst_addr, op0_addr, op1_addr, t0, t1, mul_1, mul_2, call_1, call_2, assert_eq,
}
use lambdaworks_cairo_prover.Air.Cairo.Constraints.{
  f0_squiggle, CairoRapChallenges, cell, transition_on_rows, inst_constraint,
}
use lambdaworks_cairo_prover.Air.Cairo.Instruction.{word_lem, bit_lem}
use lambdaworks_cairo_prover.Air.Cairo.Operands.{
  dst_addr_lem, op0_addr_lem, op1_addr_lem, mul_2_lem, imm_flag, call_lem, assert_eq_lem,
}

abbrev word_constraints : List ℕ
word_constraints = 0 ∷ 1 ∷ 2 ∷ 3 ∷ 4 ∷ 5 ∷ 6 ∷ 7 ∷ 8 ∷ 9 ∷ 10 ∷ 11 ∷ 12 ∷ 13 ∷ 14 ∷ 15 ∷ inst ∷ []

abbrev step_constraints : List ℕ
step_constraints =
    dst_addr ∷ op0_addr ∷ op1_addr ∷ t0 ∷ t1 ∷ mul_1 ∷ mul_2 ∷ call_1 ∷ call_2 ∷ assert_eq ∷ []

-- The constraints on one row, apart from those on the registers of the next row.
abbrev pub row_constraints : List ℕ
row_constraints = word_constraints ++ step_constraints

module _ {F : Type 0} ⦃K : Field F⦄ where
  -- The step was executed: its instruction is a 63-bit word, a base register that is read from
  -- memory holds a 64-bit word, a call has stored its return address and the frame pointer, and an
  -- asserted equation holds.
  pub record Executed (t : RegistersState) (s : Step F) : Type 0 where
    pub inst_word : K.representative s.inst < 2 ^ 63
    pub op0_word : s.flags.op1_src ≡ Op1Src.op0 → K.representative s.op0 < 2 ^ 64
    pub pc_word : t.pc + 2 < 2 ^ 64
    pub return_address :
        s.flags.opcode ≡ CairoOpcode.call → s.op0 ≡ K.from (t.pc + instruction_size s.flags.op1_src)
    pub frame_pointer : s.flags.opcode ≡ CairoOpcode.call → s.dst ≡ K.from t.fp
    pub asserted : s.flags.opcode ≡ CairoOpcode.assert_eq → s.dst ≡ s.res

  -- Such a step is not changed by the updates.
  op0_after-same :
      (opcode : CairoOpcode) (src : Op1Src) (t : RegistersState) (op0 : F)
      → t.pc + 2 < 2 ^ 64
      → (opcode ≡ CairoOpcode.call → op0 ≡ K.from (t.pc + instruction_size src))
      → op0_after opcode src t op0 ≡ op0
  op0_after-same CairoOpcode.nop src t op0 w h = refl
  op0_after-same CairoOpcode.call Op1Src.imm t op0 w h = ap K.from (omega (arith, w)) ∙ sym (h refl)
  op0_after-same CairoOpcode.call Op1Src.op0 t op0 w h = ap K.from (omega (arith, w)) ∙ sym (h refl)
  op0_after-same CairoOpcode.call Op1Src.fp t op0 w h = ap K.from (omega (arith, w)) ∙ sym (h refl)
  op0_after-same CairoOpcode.call Op1Src.ap t op0 w h = ap K.from (omega (arith, w)) ∙ sym (h refl)
  op0_after-same CairoOpcode.ret src t op0 w h = refl
  op0_after-same CairoOpcode.assert_eq src t op0 w h = refl

  dst_after-same :
      (opcode : CairoOpcode) (t : RegistersState) (dst : F)
      → (opcode ≡ CairoOpcode.call → dst ≡ K.from t.fp)
      → dst_after opcode t dst ≡ dst
  dst_after-same CairoOpcode.nop t dst h = refl
  dst_after-same CairoOpcode.call t dst h = sym (h refl)
  dst_after-same CairoOpcode.ret t dst h = refl
  dst_after-same CairoOpcode.assert_eq t dst h = refl

  res_after-same :
      (opcode : CairoOpcode) (dst res : F)
      → (opcode ≡ CairoOpcode.assert_eq → dst ≡ res)
      → res_after opcode dst res ≡ res
  res_after-same CairoOpcode.nop dst res h = refl
  res_after-same CairoOpcode.call dst res h = refl
  res_after-same CairoOpcode.ret dst res h = refl
  res_after-same CairoOpcode.assert_eq dst res h = h refl

  -- The row of an executed step, its bits by their groups.
  abbrev pub executed_row : List F → RegistersState → Step F → List F
  executed_row bits t s =
      let jnz = (pc_update_trace {F = F} s.flags.pc_update).0 in
      bits
      ++ (s.res
          ∷ K.from t.ap
          ∷ K.from t.fp
          ∷ K.from t.pc
          ∷ s.dst_addr
          ∷ s.op0_addr
          ∷ s.op1_addr
          ∷ s.inst
          ∷ s.dst
          ∷ s.op0
          ∷ s.op1
          ∷ (offsets_trace s.offsets ++ (jnz ⊗ s.dst ∷ jnz ⊗ s.dst ⊗ s.res ∷ s.op0 ⊗ s.op1 ∷ [])))

  pub row_of-Executed :
      (t : RegistersState) (s : Step F) (bits : List F)
      → Executed t s
      → flags_trace s.flags ≡ some bits
      → row_of t s ≡ some (executed_row bits t s)
  unfolding row_of
  row_of-Executed t s bits e hb =
      let o = op0_after-same s.flags.opcode s.flags.op1_src t s.op0 e.pc_word e.return_address in
      let d = dst_after-same s.flags.opcode t s.dst e.frame_pointer in
      let r = res_after-same s.flags.opcode s.dst s.res e.asserted in rw (hb, o, d, r) refl

  module _ (W : HasWords K) (memory : CairoMemory F) (t : RegistersState) (s : Step F) (sel : F)
      (aux next : List F) (ch : CairoRapChallenges F) (p : Parts memory t s)
      (e : Executed t s) where
    abbrev Vanish : List F → List ℕ → Type 0
    Vanish row = All (λ k. cell (transition_on_rows (row ++ (sel ∷ aux)) next ch) k ≡ K.zero)

    selected : (x : F) → x ≡ K.zero → x ⊗ sel ≡ K.zero
    selected x h = rw h (zero-mul sel)

    inst_representative : K.from (aux_get_last_nim_of_field_element s.inst) ≡ s.inst
    inst_representative =
        ap K.from (last_nim_lem K W s.inst ∙ (omega (arith, e.inst_word)))
        ∙ W.from-representative s.inst (omega (arith, e.inst_word))

    op0_representative :
        s.flags.op1_src ≡ Op1Src.op0 → K.from (aux_get_last_nim_of_field_element s.op0) ≡ s.op0
    op0_representative h =
        ap K.from (last_nim_lem K W s.op0 ∙ (omega (arith, e.op0_word h)))
        ∙ W.from-representative s.op0 (e.op0_word h)

    inst_lem :
        to_unbiased_representation s.offsets.off_dst
          ⊕ K.pow (K.from 2) 16 ⊗ to_unbiased_representation s.offsets.off_op0
          ⊕ K.pow (K.from 2) 32 ⊗ to_unbiased_representation s.offsets.off_op1
          ⊕ K.pow (K.from 2) 48 ⊗ f0_squiggle (map (λ i. bit (flags_of s.inst / 2 ^ i)) (range 15))
          ⊖ s.inst
        ≡ K.zero
    unfolding offsets_new flags_of
    inst_lem =
        let n = aux_get_last_nim_of_field_element s.inst in
        let bound : n < 2 ^ 63 = omega (arith, last_nim_lem K W s.inst, e.inst_word) in
        sub-eq-zero _ s.inst (
          rw
            (
              p.offsets,
              unbiased-decode_offset s.inst 0,
              unbiased-decode_offset s.inst 16,
              unbiased-decode_offset s.inst 32,
            )
            (word_lem n bound ∙ inst_representative))

    word_row : Vanish (executed_row (flag_bits s.inst) t s) word_constraints
    unfolding transition_on_rows flags_of aux_get_last_nim_of_field_element inst_constraint
        offsets_trace
    word_row =
        let b =
          λ (i : ℕ). bit_lem ⦃K = K⦄ (aux_get_last_nim_of_field_element s.inst / 2 ^ 48 / 2 ^ i) in
        (
          b 0,
          (
            b 1,
            (
              b 2,
              (
                b 3,
                (
                  b 4,
                  (
                    b 5,
                    (
                      b 6,
                      (
                        b 7,
                        (
                          b 8,
                          (
                            b 9,
                            (
                              b 10,
                              (b 11, (b 12, (b 13, (b 14, (refl, (selected _ inst_lem, _)))))),
                            ),
                          ),
                        ),
                      ),
                    ),
                  ),
                ),
              ),
            ),
          ),
        )

    fits_dst : FitsBias s.offsets.off_dst
    unfolding offsets_new
    fits_dst = rw p.offsets (decode_offset-FitsBias s.inst 0)

    fits_op0 : FitsBias s.offsets.off_op0
    unfolding offsets_new
    fits_op0 = rw p.offsets (decode_offset-FitsBias s.inst 16)

    fits_op1 : FitsBias s.offsets.off_op1
    unfolding offsets_new
    fits_op1 = rw p.offsets (decode_offset-FitsBias s.inst 32)

    step_row :
        (rl au : F × F)
        → res_logic_trace s.flags.res_logic ≡ some rl
        → Vanish (executed_row (grouped_bits s.flags rl au) t s) step_constraints
    unfolding transition_on_rows offsets_trace
    step_row rl au q =
        let f = s.flags in
        let o = s.offsets in
        let size = imm_flag ⦃K = K⦄ f.op1_src in
        let ret = λ (h : f.opcode ≡ CairoOpcode.call).
          e.return_address h
          ∙ from-add t.pc (instruction_size f.op1_src)
          ∙ ap (λ x. K.from t.pc ⊕ x) (sym size) in
        (
          selected _ (dst_addr_lem memory t f o s.dst_addr s.dst fits_dst p.dst),
          (
            selected _ (op0_addr_lem memory t f o s.op0_addr s.op0 fits_op0 p.op0),
            (
              selected _ (
                  op1_addr_lem memory t f o s.op0 s.op0 s.op1_addr s.op1 fits_op1
                    (λ h. (refl, op0_representative h)) p.op1),
              (
                selected _ (sub_self _),
                (
                  selected _ (sub_self _),
                  (
                    selected _ (sub_self _),
                    (
                      selected _ (mul_2_lem f rl s.op0 s.op1 s.dst s.res q p.res),
                      (
                        selected _ (call_lem f.opcode s.dst (K.from t.fp) e.frame_pointer),
                        (
                          selected _ (call_lem f.opcode s.op0 _ ret),
                          (selected _ (assert_eq_lem f.opcode s.dst s.res e.asserted), _),
                        ),
                      ),
                    ),
                  ),
                ),
              ),
            ),
          ),
        )

-- A list of constraints vanishes if each of its two parts does.
All-append : {A : Type 0} (P : A → Type 0) (xs ys : List A) → All P xs → All P ys → All P (xs ++ ys)
All-append P [] ys h k = k
All-append P (x ∷ xs) ys (h, hs) k = (h, All-append P xs ys hs k)

-- If a step decodes and loads its operands (`step_of` gives `s`) and was executed (`Executed t s`),
-- in a field whose elements of one word have their bytes (`HasWords`), then its row exists, and on
-- that row, whatever its selector, its auxiliary columns, the next row and the challenges are, the
-- constraints 0 to 15 on the flag bits, and those on the instruction word, on the three operand
-- addresses, on t0, t1, the product, the result, the two on calls and the one on assertions, are zero.
pub transition_on_rows-row_of :
    {F : Type 0} ⦃K : Field F⦄ (W : HasWords K) (memory : CairoMemory F) (t : RegistersState)
    (s : Step F) (sel : F) (aux next : List F) (ch : CairoRapChallenges F)
    → step_of memory t ≡ some s
    → Executed t s
    → (row : List F) × (row_of t s ≡ some row)
      × All (λ k. cell (transition_on_rows (row ++ (sel ∷ aux)) next ch) k ≡ K.zero) row_constraints
transition_on_rows-row_of {F} ⦃K⦄ W memory t s sel aux next ch h e =
    let p = step_of-Parts memory t s h in
    let hb = flags_trace-try_from s.inst s.flags p.flags in
    let (rl, au, q, _, grouped) = flags_trace-cases s.flags (flag_bits s.inst) hb in
    let row = executed_row (flag_bits s.inst) t s in
    let P =
      λ (row : List F) (k : ℕ). cell (transition_on_rows (row ++ (sel ∷ aux)) next ch) k ≡ K.zero in
    let found : row_of t s ≡ some row = row_of-Executed t s (flag_bits s.inst) e hb in
    (
      row,
      found,
      All-append (P row) word_constraints step_constraints
          (word_row W memory t s sel aux next ch p e)
          (subst (λ bits. All (P (executed_row bits t s)) step_constraints) (sym grouped)
            (step_row W memory t s sel aux next ch p e rl au q)),
    )
