-- ===== src/Air/Cairo/PublicInputs.antt =====
-- air/cairo_air/air.rs: the public inputs of a run and the instance of the AIR.
use lambdaworks_cairo_prover.Prelude.{
  ℕ, suc, ◌+◌, ◌-◌, Option, none, some, List, [], ◌∷◌, ◌++◌, length, get_elem?, range_from,
  replicate, traverse, and_then, ◌==◌, if◌then◌else◌,
}
use lambdaworks_cairo_prover.Field.{Field, ◌⊕◌, ◌⊖◌, ◌⊗◌, ◌⊘◌}
use lambdaworks_cairo_prover.CairoVm.Memory.{CairoMemory, get}
use lambdaworks_cairo_prover.CairoVm.Trace.{CairoTrace, steps}
use lambdaworks_cairo_prover.Air.Context.{AirContext, ProofOptions}
use lambdaworks_cairo_prover.Air.Boundary.{BoundaryConstraints}
use lambdaworks_cairo_prover.Air.Cairo.Columns.{
  permutation_argument_col_3, permutation_argument_range_check_col_3, range_check_col_1,
  range_check_col_3,
}
use lambdaworks_cairo_prover.Air.Cairo.Constraints.{CairoRapChallenges}

pub record PublicInputs (F : Type 0) : Type 0 where
  pub pc_init : F
  pub ap_init : F
  pub fp_init : F
  pub pc_final : F
  pub ap_final : F
  pub range_check_min : Option ℕ
  pub range_check_max : Option ℕ
  pub program : List F
  pub num_steps : ℕ

pub record CairoAir : Type 0 where
  pub context : AirContext
  pub number_steps : ℕ

abbrev pub mem_p_trace_offset : ℕ
mem_p_trace_offset = 17

abbrev pub mem_a_trace_offset : ℕ
mem_a_trace_offset = 19

-- `CairoAIR::new`
unfoldable pub new_cairo_air : ProofOptions → ℕ → ℕ → CairoAir
new_cairo_air proof_options full_trace_length number_steps = record {
  context = record {
    options = proof_options;
    trace_length = full_trace_length;
    trace_columns = 34 + 3 + 12 + 3;
    transition_degrees =
        replicate 15 2
        ++ (1 ∷ [])
        ++ replicate 15 3
        ++ replicate 4 2
        ++ replicate 4 2
        ++ replicate 4 2
        ++ replicate 3 2;
    transition_exemptions =
        replicate 16 0
        ++ replicate 1 0
        ++ replicate 3 0
        ++ (1 ∷ 1 ∷ 1 ∷ 1 ∷ 0 ∷ 0 ∷ [])
        ++ replicate 5 0
        ++ (0 ∷ 0 ∷ 0 ∷ 1 ∷ [])
        ++ (0 ∷ 0 ∷ 0 ∷ 1 ∷ [])
        ++ (0 ∷ 0 ∷ 0 ∷ 1 ∷ [])
        ++ (0 ∷ 0 ∷ 1 ∷ [])
        ++ replicate 3 0;
    transition_offsets = 0 ∷ 1 ∷ [];
    num_transition_constraints = 49;
  };
  number_steps = number_steps;
}

module _ {F : Type 0} ⦃K : Field F⦄ where
  -- The program stands at the addresses from 1 on; a missing cell or an empty run is a panic.
  unfoldable pub from_regs_and_mem : CairoTrace → CairoMemory F → ℕ → Option (PublicInputs F)
  from_regs_and_mem register_states memory program_size =
      and_then (traverse (get memory) (range_from 1 program_size)) λ program.
        and_then
          (if steps register_states == 0
            then none
            else get_elem? register_states.rows (steps register_states - 1))
          λ last_step. and_then (get_elem? register_states.rows 0) λ first_step. some (record {
            pc_init = K.from first_step.pc;
            ap_init = K.from first_step.ap;
            fp_init = K.from first_step.fp;
            pc_final = K.from last_step.pc;
            ap_final = K.from last_step.ap;
            range_check_min = none;
            range_check_max = none;
            program = program;
            num_steps = steps register_states;
          })

  -- `z - (a + alpha * v)`: what the memory permutation argument multiplies.
  abbrev pub memory_factor : CairoRapChallenges F → F → F → F
  memory_factor ch a v = ch.z_memory ⊖ (a ⊕ ch.alpha_memory ⊗ v)

  -- The loop over the program, `i` the index reached.
  unfoldable pub cumulative_product : CairoRapChallenges F → ℕ → List F → F → F
  cumulative_product ch i [] acc = acc
  cumulative_product ch i (value ∷ program) acc =
      cumulative_product ch (suc i) program (acc ⊗ memory_factor ch (K.from (i + 1)) value)

  unfoldable pub permutation_final : CairoRapChallenges F → List F → F
  unfolding cumulative_product
  permutation_final ch program =
      K.pow ch.z_memory (length program) ⊘ cumulative_product ch 0 program K.one

  -- A range check bound that is not known yet is a panic, and so are no steps or an empty trace.
  unfoldable pub boundary_constraints :
      CairoAir → CairoRapChallenges F → PublicInputs F → Option (BoundaryConstraints F)
  unfolding permutation_final
  boundary_constraints air ch public_input =
      if air.number_steps == 0
      then none
      else if air.context.trace_length == 0
      then none
      else (let final_index = air.context.trace_length - 1 in
          and_then public_input.range_check_min λ rc_min.
            and_then public_input.range_check_max λ rc_max. some (record {
              constraints =
                  record { col = mem_a_trace_offset; step = 0; value = public_input.pc_init }
                  ∷ record { col = mem_p_trace_offset; step = 0; value = public_input.ap_init }
                  ∷ record {
                    col = mem_a_trace_offset;
                    step = air.number_steps - 1;
                    value = public_input.pc_final;
                  }
                  ∷ record {
                    col = mem_p_trace_offset;
                    step = air.number_steps - 1;
                    value = public_input.ap_final;
                  }
                  ∷ record {
                    col = permutation_argument_col_3;
                    step = final_index;
                    value = permutation_final ch public_input.program;
                  }
                  ∷ record {
                    col = permutation_argument_range_check_col_3;
                    step = final_index;
                    value = K.one;
                  }
                  ∷ record { col = range_check_col_1; step = 0; value = K.from rc_min }
                  ∷ record { col = range_check_col_3; step = final_index; value = K.from rc_max }
                  ∷ [];
            }))
