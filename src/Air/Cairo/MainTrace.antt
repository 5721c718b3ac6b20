-- ===== src/Air/Cairo/MainTrace.antt =====
-- air/cairo_air/air.rs: padding of the main trace, and the values that its offset columns lack.
use lambdaworks_cairo_prover.Prelude.{
  ℕ, zero, suc, ◌+◌, ◌-◌, ◌*◌, ◌/◌, Option, none, some, List, [], ◌∷◌, ◌++◌, map, length, get_elem?,
  set, range_from, replicate, sort_by, and_then, Result, ok, err, ltb, ◌==◌, if◌then◌else◌,
}
use lambdaworks_cairo_prover.Field.{Field}
use lambdaworks_cairo_prover.CairoVm.Memory.{CairoMemory}
use lambdaworks_cairo_prover.CairoVm.Trace.{CairoTrace}
use lambdaworks_cairo_prover.CairoVm.ExecutionTrace.{build_cairo_execution_trace}
use lambdaworks_cairo_prover.Air.TraceTable.{TraceTable, n_rows, get_cols, last_row}
use lambdaworks_cairo_prover.Air.Interface.{ProvingError, wrong_parameter}
use lambdaworks_cairo_prover.Air.Cairo.Columns.{
  frame_pc, frame_dst_addr, frame_op0_addr, frame_op1_addr, frame_inst, frame_dst, frame_op0,
  frame_op1, off_dst, off_op0, off_op1,
}
use lambdaworks_cairo_prover.Air.Cairo.PublicInputs.{PublicInputs, CairoAir}

abbrev pub memory_columns : List ℕ
memory_columns =
    frame_pc ∷ frame_dst_addr ∷ frame_op0_addr ∷ frame_op1_addr ∷ frame_inst ∷ frame_dst ∷ frame_op0
    ∷ frame_op1 ∷ []

-- The numbers strictly between two neighbours that differ.
unfoldable pub between : ℕ → ℕ → List ℕ
between a b = if b == a then [] else range_from (a + 1) (b - (a + 1))

-- The loop over the windows of two.
unfoldable pub missing : List ℕ → List ℕ
unfolding between
missing [] = []
missing (a ∷ []) = []
missing (a ∷ b ∷ rest) = between a b ++ missing (b ∷ rest)

unfoldable pub last : List ℕ → Option ℕ
last [] = none
last (a ∷ []) = some a
last (a ∷ b ∷ rest) = last (b ∷ rest)

-- The missing values, filled up with the greatest value to a multiple of three.
unfoldable pub fill : List ℕ → ℕ → List ℕ
unfolding missing
fill sorted greatest =
    let values = missing sorted in
    let multiple_of_three_padding = (length values + 2) / 3 * 3 - length values in
    values ++ replicate multiple_of_three_padding greatest

module _ {F : Type 0} ⦃K : Field F⦄ where
  -- The columns named are cleared; one out of range is a panic.
  unfoldable pub clear : List ℕ → List F → Option (List F)
  clear [] row = some row
  clear (c ∷ cs) row = and_then (get_elem? row c) λ _. clear cs (set row c K.zero)

  unfoldable pub repeat_row : ℕ → List F → List F
  repeat_row zero row = []
  repeat_row (suc n) row = row ++ repeat_row n row

  unfoldable pub pad_with_last_row : TraceTable F → ℕ → List ℕ → Option (TraceTable F)
  unfolding clear repeat_row
  pad_with_last_row trace number_rows exception_columns = and_then (last_row trace) λ row.
      and_then (clear exception_columns row) λ cleared.
        some
          (record { table = trace.table ++ repeat_row number_rows cleared; n_cols = trace.n_cols })

  -- `to_u16` is the conversion of a representative to sixteen bits, of lambdaworks-math.
  unfoldable pub get_missing_values_offset_columns :
      (F → ℕ) → TraceTable F → List ℕ → Option (List F × ℕ × ℕ)
  unfolding fill last
  get_missing_values_offset_columns to_u16 trace columns_indices =
      and_then (get_cols trace columns_indices) λ offset_columns.
        let sorted = sort_by (λ n. n) (map to_u16 offset_columns.table) in
        and_then (last sorted) λ greatest.
          and_then (get_elem? sorted 0)
            λ least. some (map K.from (fill sorted greatest), least, greatest)

  -- Rows of zeros but for three offsets; a remainder of one or two values is a panic.
  unfoldable pub offset_rows : ℕ → List F → Option (List F)
  offset_rows zeros_right [] = some []
  offset_rows zeros_right (a ∷ []) = none
  offset_rows zeros_right (a ∷ b ∷ []) = none
  offset_rows zeros_right (a ∷ b ∷ c ∷ values) = and_then (offset_rows zeros_right values) λ rest.
      some (replicate off_dst K.zero ++ (a ∷ b ∷ c ∷ []) ++ replicate zeros_right K.zero ++ rest)

  -- A table that is too narrow for the offsets is a panic.
  unfoldable pub add_missing_values_to_offsets_column :
      TraceTable F → List F → Option (TraceTable F)
  unfolding offset_rows
  add_missing_values_to_offsets_column trace missing_values =
      if ltb trace.n_cols (off_op1 + 1)
      then none
      else (and_then (offset_rows (trace.n_cols - off_op1 - 1) missing_values)
          λ rows. some (record { table = trace.table ++ rows; n_cols = trace.n_cols }))

  -- The public inputs as they are left, and the trace or the error.
  unfoldable pub build_main_trace :
      (F → ℕ)
      → CairoAir
      → CairoTrace
      → CairoMemory F
      → PublicInputs F
      → Option (PublicInputs F × Result ProvingError (TraceTable F))
  build_main_trace to_u16 air raw_trace memory public_input =
      and_then (build_cairo_execution_trace raw_trace memory) λ built.
        and_then (pad_with_last_row built (length public_input.program / 4 + 1) memory_columns)
          λ padded.
            and_then
              (get_missing_values_offset_columns to_u16 padded (off_dst ∷ off_op0 ∷ off_op1 ∷ []))
              λ (missing_values, rc_min, rc_max).
                let public_input' = record public_input {
                  range_check_min = some rc_min;
                  range_check_max = some rc_max;
                } in
                and_then (add_missing_values_to_offsets_column padded missing_values) λ main_trace.
                  if ltb air.context.trace_length (n_rows main_trace)
                  then some (public_input', err wrong_parameter)
                  else (and_then
                      (pad_with_last_row main_trace (air.context.trace_length - n_rows main_trace)
                        memory_columns)
                      λ final. some (public_input', ok final))
