-- ===== src/Air/Cairo/NextRow.antt =====
-- The register constraints between the row of a step and the row of the state after it.
use lambdaworks_cairo_prover.Prelude.{
  ℕ, ◌≡◌, sym, ap, ◌∙◌, some, List, [], ◌∷◌, ◌++◌, All, subst, and_then-eq-some, if◌then◌else◌,
}
use mathlib.Core.Option.{some-injective}
use lambdaworks_cairo_prover.Field.{Field, HasInverses, ◌⊗◌}
use lambdaworks_cairo_prover.Field.Laws.{zero-mul}
use lambdaworks_cairo_prover.CairoVm.Flags.{
  CairoInstructionFlags, PcUpdate, ap_update_trace, flags_trace,
}
use lambdaworks_cairo_prover.CairoVm.Offsets.{offsets_trace}
use lambdaworks_cairo_prover.CairoVm.Trace.{RegistersState}
use lambdaworks_cairo_prover.CairoVm.ExecutionTrace.{res_at}
use lambdaworks_cairo_prover.CairoVm.ExecutionTrace.Steps.{Step, row_of, instruction_size}
use lambdaworks_cairo_prover.CairoVm.ExecutionTrace.Parts.{grouped_bits, flags_trace-cases}
use lambdaworks_cairo_prover.Air.Cairo.Columns.{
  next_ap, next_fp, next_pc_1, next_pc_2, frame_ap, frame_fp, frame_pc,
}
use lambdaworks_cairo_prover.Air.Cairo.Constraints.{
  CairoRapChallenges, cell, transition_on_rows, frame_inst_size,
}
use lambdaworks_cairo_prover.Air.Cairo.Operands.{imm_flag}
use lambdaworks_cairo_prover.Air.Cairo.Completeness.{Executed, executed_row, row_of-Executed}
use lambdaworks_cairo_prover.Air.Cairo.Registers.{
  ap_after, ap_after_opcode, fp_after, pc_after, next_ap_lem, next_fp_lem, next_pc_1_lem,
  next_pc_2_lem, jnz_inverse,
}

abbrev pub register_constraints : List ℕ
register_constraints = next_ap ∷ next_fp ∷ next_pc_1 ∷ next_pc_2 ∷ []

module _ {F : Type 0} ⦃K : Field F⦄ where
  -- The row holds the registers that the machine has after the step.
  pub record NextState (t : RegistersState) (s : Step F) (next : List F) : Type 0 where
    pub ap_next :
        cell next frame_ap
        ≡ ap_after_opcode s.flags.opcode (ap_after s.flags.ap_update (K.from t.ap) s.res)
    pub fp_next : cell next frame_fp ≡ fp_after s.flags.opcode (K.from t.ap) (K.from t.fp) s.dst
    pub pc_next :
        cell next frame_pc
        ≡ pc_after s.flags.pc_update
            (K.from t.pc)
            (K.from (instruction_size s.flags.op1_src))
            s.res
            s.dst
            s.op1

  res_at-jnz :
      (f : CairoInstructionFlags) (op0 op1 dst res : F)
      → res_at f op0 op1 dst ≡ some res
      → f.pc_update ≡ PcUpdate.jnz
      → res ≡ (if K.beq dst K.zero then dst else K.inv dst)
  unfolding res_at
  res_at-jnz f op0 op1 dst res h e =
      jnz_inverse f.res_logic f.opcode f.ap_update dst res
        (subst (λ u. res_at (record f { pc_update = u }) op0 op1 dst ≡ some res) e h)

  module _ (V : HasInverses K) (t : RegistersState) (s : Step F) (sel : F) (aux next : List F)
      (ch : CairoRapChallenges F) where
    selected : (x : F) → x ≡ K.zero → x ⊗ sel ≡ K.zero
    selected x h = ap (λ y. y ⊗ sel) h ∙ zero-mul sel

    register_row :
        (rl au : F × F)
        → ap_update_trace s.flags.ap_update ≡ some au
        → res_at s.flags s.op0 s.op1 s.dst ≡ some s.res
        → NextState t s next
        → All
            (λ k.
              cell
                (transition_on_rows
                  (executed_row (grouped_bits s.flags rl au) t s ++ (sel ∷ aux))
                  next
                  ch)
                k
              ≡ K.zero)
            register_constraints
    unfolding transition_on_rows frame_inst_size offsets_trace
    register_row rl au q r n =
        let f = s.flags in
        let pc =
          n.pc_next
          ∙ ap (λ z. pc_after f.pc_update (K.from t.pc) z s.res s.dst s.op1)
              (sym (imm_flag ⦃K = K⦄ f.op1_src)) in
        (
          selected _ (
              next_ap_lem f.ap_update f.opcode au (K.from t.ap) s.res (cell next frame_ap) q
                n.ap_next),
          (
            selected _ (
                next_fp_lem f.opcode (K.from t.ap) (K.from t.fp) s.dst (cell next frame_fp)
                  n.fp_next),
            (
              selected _ (
                  next_pc_1_lem V f.pc_update (K.from t.pc) _ s.res s.dst s.op1 (cell next frame_pc)
                    (res_at-jnz f s.op0 s.op1 s.dst s.res r) pc),
              (
                selected _ (
                    next_pc_2_lem f.pc_update (K.from t.pc) _ s.res s.dst s.op1 (cell next frame_pc)
                      pc),
                _,
              ),
            ),
          ),
        )

    -- In a field with inverses, on the row of an executed step whose result is the one that the
    -- trace builder computes, followed by a row with the ap, fp and pc that the Cairo machine has
    -- after the step, the four constraints on the next registers are zero.
    pub transition_on_rows-NextState :
        (row : List F)
        → Executed t s
        → res_at s.flags s.op0 s.op1 s.dst ≡ some s.res
        → row_of t s ≡ some row
        → NextState t s next
        → All
            (λ k. cell (transition_on_rows (row ++ (sel ∷ aux)) next ch) k ≡ K.zero)
            register_constraints
    unfolding row_of
    transition_on_rows-NextState row e r h n =
        let (bits, hb, _) = and_then-eq-some (flags_trace s.flags) _ h in
        let (rl, au, _, q, grouped) = flags_trace-cases s.flags bits hb in
        let same : row ≡ executed_row bits t s =
          some-injective _ _ (sym h ∙ row_of-Executed t s bits e hb) in
        let P = λ (row : List F).
          All (λ k. cell (transition_on_rows (row ++ (sel ∷ aux)) next ch) k ≡ K.zero)
            register_constraints in
        subst P (sym (same ∙ ap (λ b. executed_row b t s) grouped)) (register_row rl au q r n)
