-- ===== src/Air/Cairo/Constraints.antt =====
-- air/cairo_air/air.rs, `compute_transition`: the 49 transition constraints of the Cairo AIR.
use lambdaworks_cairo_prover.Prelude.{
  ℕ, suc, ◌&&◌, Option, some, List, [], ◌∷◌, get_or, set, take, replicate, and_then, leb,
  if◌then◌else◌,
}
use lambdaworks_cairo_prover.Field.{Field, ◌⊕◌, ◌⊖◌, ◌⊗◌}
use lambdaworks_cairo_prover.Air.Frame.{Frame, frame_row}
use lambdaworks_cairo_prover.Air.Cairo.Columns.{
  inst, dst_addr, op0_addr, op1_addr, next_ap, next_fp, next_pc_1, next_pc_2, t0, t1, mul_1, mul_2,
  call_1, call_2, assert_eq, memory_increasing_0, memory_increasing_1, memory_increasing_2,
  memory_increasing_3, memory_consistency_0, memory_consistency_1, memory_consistency_2,
  memory_consistency_3, permutation_argument_0, permutation_argument_1, permutation_argument_2,
  permutation_argument_3, range_check_increasing_0, range_check_increasing_1,
  range_check_increasing_2, range_check_0, range_check_1, range_check_2, f_dst_fp, f_op_0_fp,
  f_op_1_val, f_op_1_fp, f_op_1_ap, f_res_add, f_res_mul, f_pc_abs, f_pc_rel, f_pc_jnz, f_ap_add,
  f_ap_one, f_opc_call, f_opc_ret, f_opc_aeq, frame_res, frame_ap, frame_fp, frame_pc,
  frame_dst_addr, frame_op0_addr, frame_op1_addr, frame_inst, frame_dst, frame_op0, frame_op1,
  off_dst, off_op0, off_op1, frame_t0, frame_t1, frame_mul, frame_selector, range_check_col_1,
  range_check_col_2, range_check_col_3, memory_addr_sorted_0, memory_addr_sorted_1,
  memory_addr_sorted_2, memory_addr_sorted_3, memory_values_sorted_0, memory_values_sorted_1,
  memory_values_sorted_2, memory_values_sorted_3, permutation_argument_col_0,
  permutation_argument_col_1, permutation_argument_col_2, permutation_argument_col_3,
  permutation_argument_range_check_col_1, permutation_argument_range_check_col_2,
  permutation_argument_range_check_col_3, num_transition_constraints,
}

pub record CairoRapChallenges (F : Type 0) : Type 0 where
  pub alpha_memory : F
  pub z_memory : F
  pub z_range_check : F

module _ {F : Type 0} ⦃K : Field F⦄ where
  -- The cell of a row. The rows of a frame hold every column; an index past the end would be a panic.
  abbrev pub cell : List F → ℕ → F
  cell row col = get_or row col K.zero

  -- `flag * (flag - FE::one())` for the flags 0 to 14, and flag 15 itself.
  unfoldable pub bit_constraints : ℕ → List F → List F → List F
  bit_constraints i constraints [] = constraints
  bit_constraints i constraints (flag ∷ flags) =
      bit_constraints (suc i) (set constraints i (if leb i 14 then flag ⊗ (flag ⊖ K.one) else flag))
        flags

  -- The fold from the last flag to the first: `flag + 2 * acc`.
  unfoldable pub f0_squiggle : List F → F
  f0_squiggle [] = K.zero
  f0_squiggle (flag ∷ flags) = flag ⊕ K.from 2 ⊗ f0_squiggle flags

  unfoldable pub inst_constraint : List F → F
  unfolding f0_squiggle
  inst_constraint curr =
      let two = K.from 2 in
      let b16 = K.pow two 16 in
      let b32 = K.pow two 32 in
      let b48 = K.pow two 48 in
      cell curr off_dst
      ⊕ b16 ⊗ cell curr off_op0
      ⊕ b32 ⊗ cell curr off_op1
      ⊕ b48 ⊗ f0_squiggle (take 15 curr)
      ⊖ cell curr frame_inst

  unfoldable pub compute_instr_constraints : List F → List F → List F
  unfolding bit_constraints inst_constraint
  compute_instr_constraints constraints curr =
      set (bit_constraints 0 constraints (take 16 curr)) inst (inst_constraint curr)

  unfoldable pub compute_operand_constraints : List F → List F → List F
  compute_operand_constraints constraints curr =
      let ap = cell curr frame_ap in
      let fp = cell curr frame_fp in
      let pc = cell curr frame_pc in
      let b15 = K.pow (K.from 2) 15 in
      let c₁ = set constraints dst_addr (
        cell curr f_dst_fp ⊗ fp
        ⊕ (K.one ⊖ cell curr f_dst_fp) ⊗ ap
        ⊕ (cell curr off_dst ⊖ b15)
        ⊖ cell curr frame_dst_addr) in
      let c₂ = set c₁ op0_addr (
        cell curr f_op_0_fp ⊗ fp
        ⊕ (K.one ⊖ cell curr f_op_0_fp) ⊗ ap
        ⊕ (cell curr off_op0 ⊖ b15)
        ⊖ cell curr frame_op0_addr) in
      set c₂ op1_addr (
        cell curr f_op_1_val ⊗ pc
        ⊕ cell curr f_op_1_ap ⊗ ap
        ⊕ cell curr f_op_1_fp ⊗ fp
        ⊕ (K.one ⊖ cell curr f_op_1_val ⊖ cell curr f_op_1_ap ⊖ cell curr f_op_1_fp)
          ⊗ cell curr frame_op0
        ⊕ (cell curr off_op1 ⊖ b15)
        ⊖ cell curr frame_op1_addr)

  unfoldable pub frame_inst_size : List F → F
  frame_inst_size frame_row = cell frame_row f_op_1_val ⊕ K.one

  unfoldable pub compute_register_constraints : List F → List F → List F → List F
  unfolding frame_inst_size
  compute_register_constraints constraints curr next =
      let two = K.from 2 in
      let c₁ = set constraints next_ap (
        cell curr frame_ap
        ⊕ cell curr f_ap_add ⊗ cell curr frame_res
        ⊕ cell curr f_ap_one
        ⊕ cell curr f_opc_call ⊗ two
        ⊖ cell next frame_ap) in
      let c₂ = set c₁ next_fp (
        cell curr f_opc_ret ⊗ cell curr frame_dst
        ⊕ cell curr f_opc_call ⊗ (cell curr frame_ap ⊕ two)
        ⊕ (K.one ⊖ cell curr f_opc_ret ⊖ cell curr f_opc_call) ⊗ cell curr frame_fp
        ⊖ cell next frame_fp) in
      let c₃ = set c₂ next_pc_1 (
        (cell curr frame_t1 ⊖ cell curr f_pc_jnz)
        ⊗ (cell next frame_pc ⊖ (cell curr frame_pc ⊕ frame_inst_size curr))) in
      let c₄ = set c₃ next_pc_2 (
        cell curr frame_t0 ⊗ (cell next frame_pc ⊖ (cell curr frame_pc ⊕ cell curr frame_op1))
        ⊕ (K.one ⊖ cell curr f_pc_jnz) ⊗ cell next frame_pc
        ⊖ ((K.one ⊖ cell curr f_pc_abs ⊖ cell curr f_pc_rel ⊖ cell curr f_pc_jnz)
              ⊗ (cell curr frame_pc ⊕ frame_inst_size curr)
            ⊕ cell curr f_pc_abs ⊗ cell curr frame_res
            ⊕ cell curr f_pc_rel ⊗ (cell curr frame_pc ⊕ cell curr frame_res))) in
      let c₅ = set c₄ t0 (cell curr f_pc_jnz ⊗ cell curr frame_dst ⊖ cell curr frame_t0) in
      set c₅ t1 (cell curr frame_t0 ⊗ cell curr frame_res ⊖ cell curr frame_t1)

  unfoldable pub compute_opcode_constraints : List F → List F → List F
  unfolding frame_inst_size
  compute_opcode_constraints constraints curr =
      let c₁ =
        set constraints mul_1 (cell curr frame_mul ⊖ cell curr frame_op0 ⊗ cell curr frame_op1) in
      let c₂ = set c₁ mul_2 (
        cell curr f_res_add ⊗ (cell curr frame_op0 ⊕ cell curr frame_op1)
        ⊕ cell curr f_res_mul ⊗ cell curr frame_mul
        ⊕ (K.one ⊖ cell curr f_res_add ⊖ cell curr f_res_mul ⊖ cell curr f_pc_jnz)
          ⊗ cell curr frame_op1
        ⊖ (K.one ⊖ cell curr f_pc_jnz) ⊗ cell curr frame_res) in
      let c₃ = set c₂ call_1 (cell curr f_opc_call ⊗ (cell curr frame_dst ⊖ cell curr frame_fp)) in
      let c₄ = set c₃ call_2 (
        cell curr f_opc_call
        ⊗ (cell curr frame_op0 ⊖ (cell curr frame_pc ⊕ frame_inst_size curr))) in
      set c₄ assert_eq (cell curr f_opc_aeq ⊗ (cell curr frame_dst ⊖ cell curr frame_res))

  -- The constraints from `inst` to `assert_eq`, times the selector; `i` is the index reached.
  unfoldable pub scale_from : ℕ → F → List F → List F
  scale_from i selector [] = []
  scale_from i selector (c ∷ constraints) =
      (if leb inst i && leb i assert_eq then c ⊗ selector else c)
      ∷ scale_from (suc i) selector constraints

  unfoldable pub enforce_selector : List F → List F → List F
  unfolding scale_from
  enforce_selector constraints curr = scale_from 0 (cell curr frame_selector) constraints

  -- `(a - b) * (b - a - 1)`, and the same with the values in the first factor.
  unfoldable pub increasing : F → F → F
  increasing a b = (a ⊖ b) ⊗ (b ⊖ a ⊖ K.one)

  unfoldable pub consistent : F → F → F → F → F
  consistent v w a b = (v ⊖ w) ⊗ (b ⊖ a ⊖ K.one)

  unfoldable pub memory_is_increasing : List F → List F → List F → List F
  unfolding increasing consistent
  memory_is_increasing constraints curr next =
      let a0 = cell curr memory_addr_sorted_0 in
      let a1 = cell curr memory_addr_sorted_1 in
      let a2 = cell curr memory_addr_sorted_2 in
      let a3 = cell curr memory_addr_sorted_3 in
      let a0_next = cell next memory_addr_sorted_0 in
      let v0 = cell curr memory_values_sorted_0 in
      let v1 = cell curr memory_values_sorted_1 in
      let v2 = cell curr memory_values_sorted_2 in
      let v3 = cell curr memory_values_sorted_3 in
      let v0_next = cell next memory_values_sorted_0 in
      let c₁ = set constraints memory_increasing_0 (increasing a0 a1) in
      let c₂ = set c₁ memory_increasing_1 (increasing a1 a2) in
      let c₃ = set c₂ memory_increasing_2 (increasing a2 a3) in
      let c₄ = set c₃ memory_increasing_3 (increasing a3 a0_next) in
      let c₅ = set c₄ memory_consistency_0 (consistent v0 v1 a0 a1) in
      let c₆ = set c₅ memory_consistency_1 (consistent v1 v2 a1 a2) in
      let c₇ = set c₆ memory_consistency_2 (consistent v2 v3 a2 a3) in
      set c₇ memory_consistency_3 (consistent v3 v0_next a3 a0_next)

  -- `(z - (ap + alpha * vp)) * p_next - (z - (a + alpha * v)) * p`
  unfoldable pub permutation_step : F → F → F → F → F → F → F → F → F
  permutation_step z alpha ap vp p_next a v p =
      (z ⊖ (ap ⊕ alpha ⊗ vp)) ⊗ p_next ⊖ (z ⊖ (a ⊕ alpha ⊗ v)) ⊗ p

  unfoldable pub permutation_argument : List F → List F → List F → CairoRapChallenges F → List F
  unfolding permutation_step
  permutation_argument constraints curr next rap_challenges =
      let z = rap_challenges.z_memory in
      let alpha = rap_challenges.alpha_memory in
      let p0 = cell curr permutation_argument_col_0 in
      let p0_next = cell next permutation_argument_col_0 in
      let p1 = cell curr permutation_argument_col_1 in
      let p2 = cell curr permutation_argument_col_2 in
      let p3 = cell curr permutation_argument_col_3 in
      let c₁ = set constraints permutation_argument_0 (
        permutation_step z alpha (cell curr memory_addr_sorted_1) (cell curr memory_values_sorted_1)
          p1 (cell curr frame_dst_addr) (cell curr frame_dst) p0) in
      let c₂ = set c₁ permutation_argument_1 (
        permutation_step z alpha (cell curr memory_addr_sorted_2) (cell curr memory_values_sorted_2)
          p2 (cell curr frame_op0_addr) (cell curr frame_op0) p1) in
      let c₃ = set c₂ permutation_argument_2 (
        permutation_step z alpha (cell curr memory_addr_sorted_3) (cell curr memory_values_sorted_3)
          p3 (cell curr frame_op1_addr) (cell curr frame_op1) p2) in
      set c₃ permutation_argument_3 (
        permutation_step z alpha (cell next memory_addr_sorted_0) (cell next memory_values_sorted_0)
          p0_next (cell next frame_pc) (cell next frame_inst) p3)

  -- `(z - ap) * p_next - (z - a) * p`
  unfoldable pub range_check_step : F → F → F → F → F → F
  range_check_step z ap p_next a p = (z ⊖ ap) ⊗ p_next ⊖ (z ⊖ a) ⊗ p

  unfoldable pub permutation_argument_range_check :
      List F → List F → List F → CairoRapChallenges F → List F
  unfolding increasing range_check_step
  permutation_argument_range_check constraints curr next rap_challenges =
      let z = rap_challenges.z_range_check in
      let r1 = cell curr range_check_col_1 in
      let r2 = cell curr range_check_col_2 in
      let r3 = cell curr range_check_col_3 in
      let r1_next = cell next range_check_col_1 in
      let p0 = cell curr permutation_argument_range_check_col_1 in
      let p0_next = cell next permutation_argument_range_check_col_1 in
      let p1 = cell curr permutation_argument_range_check_col_2 in
      let p2 = cell curr permutation_argument_range_check_col_3 in
      let c₁ = set constraints range_check_increasing_0 (increasing r1 r2) in
      let c₂ = set c₁ range_check_increasing_1 (increasing r2 r3) in
      let c₃ = set c₂ range_check_increasing_2 (increasing r3 r1_next) in
      let c₄ = set c₃ range_check_0 (range_check_step z r2 p1 (cell curr off_op0) p0) in
      let c₅ = set c₄ range_check_1 (range_check_step z r3 p2 (cell curr off_op1) p1) in
      set c₅ range_check_2 (range_check_step z r1_next p0_next (cell next off_dst) p2)

  -- The constraints on two rows, over the vector of zeros.
  unfoldable pub transition_on_rows : List F → List F → CairoRapChallenges F → List F
  unfolding compute_instr_constraints compute_operand_constraints compute_register_constraints
      compute_opcode_constraints enforce_selector memory_is_increasing permutation_argument
      permutation_argument_range_check
  transition_on_rows curr next rap_challenges =
      let c₁ = compute_instr_constraints (replicate num_transition_constraints K.zero) curr in
      let c₂ = compute_operand_constraints c₁ curr in
      let c₃ = compute_register_constraints c₂ curr next in
      let c₄ = compute_opcode_constraints c₃ curr in
      let c₅ = enforce_selector c₄ curr in
      let c₆ = memory_is_increasing c₅ curr next in
      let c₇ = permutation_argument c₆ curr next rap_challenges in
      permutation_argument_range_check c₇ curr next rap_challenges

  unfoldable pub compute_transition : Frame F → CairoRapChallenges F → Option (List F)
  unfolding transition_on_rows frame_row
  compute_transition frame rap_challenges = and_then (frame_row frame 0) λ curr.
      and_then (frame_row frame 1) λ next. some (transition_on_rows curr next rap_challenges)
