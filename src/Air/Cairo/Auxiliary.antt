-- ===== src/Air/Cairo/Auxiliary.antt =====
-- air/cairo_air/air.rs: the auxiliary columns, sorted memory and offsets and their permutation arguments.
use lambdaworks_cairo_prover.Prelude.{
  ℕ, ◌+◌, ◌-◌, ◌*◌, Option, none, some, List, [], ◌∷◌, ◌++◌, map, length, get_elem?, range,
  range_from, take, zip, unzip, sort_by, traverse, flat_traverse, and_then, ltb, if◌then◌else◌,
}
use lambdaworks_cairo_prover.Field.{Field, ◌⊖◌, ◌⊗◌, ◌⊘◌}
use lambdaworks_cairo_prover.Air.TraceTable.{TraceTable, n_rows, get_cols}
use lambdaworks_cairo_prover.Air.Cairo.Columns.{
  frame_pc, frame_dst_addr, frame_op0_addr, frame_op1_addr, frame_inst, frame_dst, frame_op0,
  frame_op1, off_dst, off_op0, off_op1,
}
use lambdaworks_cairo_prover.Air.Cairo.Constraints.{CairoRapChallenges}
use lambdaworks_cairo_prover.Air.Cairo.PublicInputs.{PublicInputs, memory_factor}

abbrev pub number_auxiliary_rap_columns : ℕ
number_auxiliary_rap_columns = 12 + 3 + 3

module _ {F : Type 0} ⦃K : Field F⦄ where
  -- The tails from `public_input_section` on are replaced; a section that would start before the
  -- first address or after the last value is a panic.
  unfoldable pub add_program_in_public_input_section :
      List F → List F → PublicInputs F → Option (List F × List F)
  add_program_in_public_input_section addresses values public_input =
      let size = length public_input.program in
      let public_input_section = length addresses - size in
      if ltb (length addresses) size
      then none
      else if ltb (length values) public_input_section
      then none
      else some (
        take public_input_section addresses ++ map K.from (range_from 1 size),
        take public_input_section values ++ public_input.program,
      )

  unfoldable pub sort_columns_by_memory_address : List F → List F → List F × List F
  sort_columns_by_memory_address adresses values =
      unzip (sort_by (λ (c : F × F). K.representative c.0) (zip adresses values))

  -- The running products after the first.
  unfoldable pub running : F → List F → List F
  running last [] = []
  running last (f ∷ fs) = let next = last ⊗ f in next ∷ running next fs

  -- The first factor, and then the last product times each factor; no factor is a panic.
  unfoldable pub products : List F → Option (List F)
  unfolding running
  products [] = none
  products (f ∷ fs) = some (f ∷ running f fs)

  unfoldable pub memory_quotient : CairoRapChallenges F → F → F → F → F → F
  memory_quotient ch a v ap vp = memory_factor ch a v ⊘ memory_factor ch ap vp

  unfoldable pub generate_memory_permutation_argument_column :
      List F → List F → List F → List F → CairoRapChallenges F → Option (List F)
  unfolding memory_quotient products
  generate_memory_permutation_argument_column addresses_original values_original addresses_sorted
        values_sorted ch =
      and_then
        (traverse
          (λ i. and_then (get_elem? addresses_original i) λ a.
            and_then (get_elem? values_original i) λ v.
              and_then (get_elem? addresses_sorted i) λ ap.
                and_then (get_elem? values_sorted i) λ vp. some (memory_quotient ch a v ap vp))
          (range (length addresses_sorted)))
        products

  unfoldable pub range_check_quotient : CairoRapChallenges F → F → F → F
  range_check_quotient ch a ap = (ch.z_range_check ⊖ a) ⊘ (ch.z_range_check ⊖ ap)

  unfoldable pub generate_range_check_permutation_argument_column :
      List F → List F → CairoRapChallenges F → Option (List F)
  unfolding range_check_quotient products
  generate_range_check_permutation_argument_column offset_column_original offset_column_sorted ch =
      and_then
        (traverse
          (λ i. and_then (get_elem? offset_column_original i) λ a.
            and_then (get_elem? offset_column_sorted i) λ ap. some (range_check_quotient ch a ap))
          (range (length offset_column_sorted)))
        products

  -- `n` elements from `n * i` on; an index out of range is a panic.
  unfoldable pub chunk : ℕ → List F → ℕ → Option (List F)
  chunk n column i = traverse (λ k. get_elem? column (n * i + k)) (range n)

  -- `to_u16` is the conversion of a representative to sixteen bits, of lambdaworks-math.
  unfoldable pub build_auxiliary_trace :
      (F → ℕ) → TraceTable F → CairoRapChallenges F → PublicInputs F → Option (TraceTable F)
  unfolding chunk
  build_auxiliary_trace to_u16 main_trace ch public_input =
      and_then
        (get_cols main_trace (frame_pc ∷ frame_dst_addr ∷ frame_op0_addr ∷ frame_op1_addr ∷ []))
        λ addresses_original.
          and_then (get_cols main_trace (frame_inst ∷ frame_dst ∷ frame_op0 ∷ frame_op1 ∷ []))
            λ values_original.
              and_then
                (add_program_in_public_input_section addresses_original.table values_original.table
                  public_input)
                λ (with_program, program_values).
                  let (addresses, values) =
                    sort_columns_by_memory_address with_program program_values in
                  and_then
                    (generate_memory_permutation_argument_column addresses_original.table
                      values_original.table addresses values ch)
                    λ permutation_col.
                      and_then (get_cols main_trace (off_dst ∷ off_op0 ∷ off_op1 ∷ []))
                        λ offsets_original.
                          let offsets_sorted =
                            map K.from (sort_by (λ n. n) (map to_u16 offsets_original.table)) in
                          and_then
                            (generate_range_check_permutation_argument_column offsets_original.table
                              offsets_sorted ch)
                            λ range_check_permutation_col.
                              and_then
                                (flat_traverse
                                  (λ i. and_then (chunk 3 offsets_sorted i) λ os.
                                    and_then (chunk 4 addresses i) λ as'.
                                      and_then (chunk 4 values i) λ vs.
                                        and_then (chunk 4 permutation_col i) λ ps.
                                          and_then (chunk 3 range_check_permutation_col i)
                                            λ rs. some (os ++ (as' ++ (vs ++ (ps ++ rs)))))
                                  (range (n_rows main_trace)))
                                λ aux_table. some (record {
                                  table = aux_table;
                                  n_cols = number_auxiliary_rap_columns;
                                })
