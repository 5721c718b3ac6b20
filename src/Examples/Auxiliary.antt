-- ===== src/Examples/Auxiliary.antt =====
-- The memory constraints, the permutation arguments and the composition over the field of 17 elements.
use lambdaworks_cairo_prover.Prelude.{
  ℕ, ◌<◌, ◌≡◌, ◌≢◌, refl, ap, ◌∙◌, arith, List, [], ◌∷◌, ◌++◌, replicate, set, some,
}
use lambdaworks_cairo_prover.Field.Zmod.{F17, f17, f17-HasInverses, zmod, reduce, Zmod_path}
use lambdaworks_cairo_prover.Prelude.{All}
use lambdaworks_cairo_prover.Prelude.Int.{pos, negsuc}
use lambdaworks_cairo_prover.CairoVm.Flags.{
  CairoOpcode, ApUpdate, PcUpdate, ResLogic, Op1Src, Op0Reg, DstReg, flags_trace,
}
use lambdaworks_cairo_prover.CairoVm.Trace.{RegistersState}
use lambdaworks_cairo_prover.CairoVm.ExecutionTrace.{res_at}
use lambdaworks_cairo_prover.CairoVm.ExecutionTrace.Steps.{Step}
use lambdaworks_cairo_prover.Air.Cairo.Completeness.{Executed, executed_row, row_of-Executed}
use lambdaworks_cairo_prover.Air.Cairo.Constraints.{cell}
use lambdaworks_cairo_prover.Air.Cairo.Constraints.{transition_on_rows}
use lambdaworks_cairo_prover.Air.Cairo.NextRow.{
  NextState, register_constraints, transition_on_rows-NextState,
}
use lambdaworks_cairo_prover.Air.Context.{ProofOptions}
use lambdaworks_cairo_prover.Air.Evaluator.{
  compute_constraint_composition_poly_evaluations_sum, degree_adjustments,
}
use lambdaworks_cairo_prover.Air.Cairo.Constraints.{
  CairoRapChallenges, increasing, consistent, permutation_step, range_check_step,
}
use lambdaworks_cairo_prover.Air.Cairo.PublicInputs.{new_cairo_air, memory_factor}
use lambdaworks_cairo_prover.Air.Cairo.Auxiliary.{
  running, products, memory_quotient, generate_memory_permutation_argument_column,
  range_check_quotient, generate_range_check_permutation_argument_column,
}
use lambdaworks_cairo_prover.Air.Cairo.Permutation.{
  permutation_step-generate_memory_permutation_argument_column,
  range_check_step-generate_range_check_permutation_argument_column,
}
use lambdaworks_cairo_prover.Air.Cairo.Cells.{cell-transition_on_rows}
use lambdaworks_cairo_prover.Air.Cairo.Memory.{MemoryHolds, MemoryHolds-single_valued}
use lambdaworks_cairo_prover.Air.Cairo.Degrees.{
  composition_poly_degree_bound, compute_constraint_composition_poly_evaluations_sum-set,
}

abbrev num : ℕ → F17
num n = f17.from n

abbrev challenges : CairoRapChallenges F17
challenges = record { alpha_memory = num 3; z_memory = num 5; z_range_check = num 9 }

abbrev row : List F17
row =
    replicate 37 (num 0)
    ++ (num 1 ∷ num 1 ∷ num 2 ∷ num 3 ∷ num 5 ∷ num 5 ∷ num 6 ∷ num 7 ∷ [])
    ++ replicate 7 (num 0)

from-injective : (m k : ℕ) → m < 17 → k < 17 → f17.from m ≡ f17.from k → m ≡ k
unfolding f17 reduce
from-injective m k p q h = omega (arith, ap (λ (x : F17). x.0) h)

row-MemoryHolds : MemoryHolds ⦃K = f17⦄ challenges row (row ∷ [])
unfolding f17 zmod reduce increasing consistent
row-MemoryHolds =
    let at = λ (k : ℕ). cell-transition_on_rows ⦃K = f17⦄ row row challenges k in
    (
      at 31 ∙ Zmod_path 17 (omega arith) refl,
      (
        at 32 ∙ Zmod_path 17 (omega arith) refl,
        (
          at 33 ∙ Zmod_path 17 (omega arith) refl,
          (
            at 35 ∙ Zmod_path 17 (omega arith) refl,
            (at 36 ∙ Zmod_path 17 (omega arith) refl, (at 37 ∙ Zmod_path 17 (omega arith) refl, _)),
          ),
        ),
      ),
    )

MemoryHolds-single_valued_example : num 5 ≡ num 5
MemoryHolds-single_valued_example =
    MemoryHolds-single_valued ⦃K = f17⦄ f17-HasInverses 17 challenges row [] 1 0 1 (num 1) (num 5)
      (num 5) from-injective row-MemoryHolds refl (omega arith) (omega arith) refl refl

abbrev addresses : List F17
addresses = num 2 ∷ num 1 ∷ []

abbrev held : List F17
held = num 6 ∷ num 5 ∷ []

abbrev addresses_sorted : List F17
addresses_sorted = num 1 ∷ num 2 ∷ []

abbrev held_sorted : List F17
held_sorted = num 5 ∷ num 6 ∷ []

abbrev quotient : F17 → F17 → F17 → F17 → F17
quotient = memory_quotient ⦃K = f17⦄ challenges

abbrev column : List F17
column =
    quotient (num 2) (num 6) (num 1) (num 5)
    ∷ f17.mul (quotient (num 2) (num 6) (num 1) (num 5)) (quotient (num 1) (num 5) (num 2) (num 6))
    ∷ []

column_lem :
    generate_memory_permutation_argument_column ⦃K = f17⦄ addresses held addresses_sorted
      held_sorted challenges
    ≡ some column
unfolding generate_memory_permutation_argument_column products running
column_lem = refl

sorted-nonzero : memory_factor ⦃K = f17⦄ challenges (num 2) (num 6) ≢ f17.zero
unfolding f17 zmod reduce
sorted-nonzero e = absurd (omega (arith, ap (λ (x : F17). x.0) e))

permutation_step-generate_memory_permutation_argument_column_example :
    permutation_step ⦃K = f17⦄
      (num 5)
      (num 3)
      (num 2)
      (num 6)
      (f17.mul
        (quotient (num 2) (num 6) (num 1) (num 5))
        (quotient (num 1) (num 5) (num 2) (num 6)))
      (num 1)
      (num 5)
      (quotient (num 2) (num 6) (num 1) (num 5))
    ≡ f17.zero
permutation_step-generate_memory_permutation_argument_column_example =
    permutation_step-generate_memory_permutation_argument_column ⦃K = f17⦄ f17-HasInverses addresses
      held addresses_sorted held_sorted column challenges 0 (num 1) (num 5) (num 2) (num 6)
      (quotient (num 2) (num 6) (num 1) (num 5))
      (f17.mul (quotient (num 2) (num 6) (num 1) (num 5))
        (quotient (num 1) (num 5) (num 2) (num 6)))
      column_lem refl refl refl refl refl refl sorted-nonzero

abbrev offset_quotient : F17 → F17 → F17
offset_quotient = range_check_quotient ⦃K = f17⦄ challenges

abbrev offset_column : List F17
offset_column =
    offset_quotient (num 2) (num 1)
    ∷ f17.mul (offset_quotient (num 2) (num 1)) (offset_quotient (num 1) (num 2))
    ∷ []

offset_column_lem :
    generate_range_check_permutation_argument_column ⦃K = f17⦄ addresses addresses_sorted challenges
    ≡ some offset_column
unfolding generate_range_check_permutation_argument_column products running
offset_column_lem = refl

offset-nonzero : f17.sub (num 9) (num 2) ≢ f17.zero
unfolding f17 zmod reduce
offset-nonzero e = absurd (omega (arith, ap (λ (x : F17). x.0) e))

range_check_step-generate_range_check_permutation_argument_column_example :
    range_check_step ⦃K = f17⦄
      (num 9)
      (num 2)
      (f17.mul (offset_quotient (num 2) (num 1)) (offset_quotient (num 1) (num 2)))
      (num 1)
      (offset_quotient (num 2) (num 1))
    ≡ f17.zero
range_check_step-generate_range_check_permutation_argument_column_example =
    range_check_step-generate_range_check_permutation_argument_column ⦃K = f17⦄ f17-HasInverses
      addresses addresses_sorted offset_column challenges 0 (num 1) (num 2)
      (offset_quotient (num 2) (num 1))
      (f17.mul (offset_quotient (num 2) (num 1)) (offset_quotient (num 1) (num 2)))
      offset_column_lem refl refl refl refl offset-nonzero

abbrev options : ProofOptions
options = record { blowup_factor = 4; fri_number_of_queries = 3; coset_offset = 3 }

abbrev evaluations : List F17
evaluations = replicate 49 (num 0)

abbrev coefficients : List (F17 × F17)
coefficients = replicate 49 (num 2, num 3)

compute_constraint_composition_poly_evaluations_sum-set_example :
    (let air = new_cairo_air options 64 50 in
      let adjustments =
        degree_adjustments ⦃K = f17⦄ air.context (composition_poly_degree_bound air) (num 2) in
      compute_constraint_composition_poly_evaluations_sum ⦃K = f17⦄
        (set evaluations 46 (num 1))
        (replicate 49 (num 1))
        adjustments
        coefficients
      ≡ compute_constraint_composition_poly_evaluations_sum ⦃K = f17⦄ evaluations
          (replicate 49 (num 1))
          adjustments
          coefficients)
compute_constraint_composition_poly_evaluations_sum-set_example =
    compute_constraint_composition_poly_evaluations_sum-set ⦃K = f17⦄ options 64 50 (num 2) (num 1)
      46 evaluations (replicate 49 (num 1)) coefficients (omega arith)

-- The step `[ap] = 10; ap++` of the other examples, in small numbers.
abbrev state : RegistersState
state = record { pc = 1; fp = 4; ap = 4 }

abbrev step : Step F17
step = record {
  inst = num 5;
  flags = record {
    opcode = CairoOpcode.assert_eq;
    ap_update = ApUpdate.add1;
    pc_update = PcUpdate.regular;
    res_logic = ResLogic.op1;
    op1_src = Op1Src.imm;
    op0_reg = Op0Reg.fp;
    dst_reg = DstReg.ap;
  };
  offsets = record { off_dst = pos 0; off_op0 = negsuc 0; off_op1 = pos 1 };
  dst_addr = num 4;
  dst = num 10;
  op0_addr = num 3;
  op0 = num 7;
  op1_addr = num 2;
  op1 = num 10;
  res = num 10;
}

step-Executed : Executed ⦃K = f17⦄ state step
unfolding f17 zmod reduce
step-Executed = record {
  inst_word = omega arith;
  op0_word = λ h. omega arith;
  pc_word = omega arith;
  return_address = λ h. cc;
  frame_pointer = λ h. cc;
  asserted = λ h. refl;
}

abbrev step_bits : List F17
step_bits =
    f17.zero ∷ f17.one ∷ f17.one ∷ f17.zero ∷ f17.zero ∷ f17.zero ∷ f17.zero ∷ f17.zero ∷ f17.zero
    ∷ f17.zero ∷ f17.zero ∷ f17.one ∷ f17.zero ∷ f17.zero ∷ f17.one ∷ f17.zero ∷ []

step-flags_trace : flags_trace ⦃K = f17⦄ step.flags ≡ some step_bits
unfolding flags_trace
step-flags_trace = refl

step-res_at : res_at ⦃K = f17⦄ step.flags step.op0 step.op1 step.dst ≡ some step.res
unfolding res_at
step-res_at = refl

abbrev next_row : List F17
next_row = replicate 17 f17.zero ++ (f17.add (num 4) f17.one ∷ num 4 ∷ f17.add (num 1) (num 2) ∷ [])

next_row-NextState : NextState ⦃K = f17⦄ state step next_row
next_row-NextState = record { ap_next = refl; fp_next = refl; pc_next = refl }

transition_on_rows-NextState_example :
    All
      (λ k.
        cell ⦃K = f17⦄
          (transition_on_rows ⦃K = f17⦄
            (executed_row ⦃K = f17⦄ step_bits state step ++ (num 1 ∷ []))
            next_row
            challenges)
          k
        ≡ f17.zero)
      register_constraints
transition_on_rows-NextState_example =
    transition_on_rows-NextState ⦃K = f17⦄ f17-HasInverses state step (num 1) [] next_row challenges
      (executed_row ⦃K = f17⦄ step_bits state step) step-Executed step-res_at
      (row_of-Executed ⦃K = f17⦄ state step step_bits step-Executed step-flags_trace)
      next_row-NextState
