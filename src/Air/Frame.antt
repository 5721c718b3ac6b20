-- ===== src/Air/Frame.antt =====
-- air/frame.rs: the rows of a table that a transition reads.
use lambdaworks_cairo_prover.Prelude.{
  ℕ, ◌+◌, ◌*◌, ◌/◌, ◌%◌, Option, none, some, List, length, slice, map, flat_traverse, and_then,
  ◌==◌, if◌then◌else◌,
}
use lambdaworks_cairo_prover.Field.{Field, ◌⊗◌}
use lambdaworks_cairo_prover.Air.TraceTable.{TraceTable, n_rows, get_row}

pub record Frame (F : Type 0) : Type 0 where
  pub data_rows : List F
  pub row_width : ℕ

module _ {F : Type 0} where
  abbrev pub num_rows : Frame F → ℕ
  num_rows f = length f.data_rows / f.row_width

  abbrev pub num_columns : Frame F → ℕ
  num_columns f = f.row_width

  unfoldable pub frame_row : Frame F → ℕ → Option (List F)
  unfolding slice
  frame_row f row_idx =
      let row_offset = row_idx * f.row_width in
      slice f.data_rows row_offset (row_offset + f.row_width)

  -- The remainder by zero rows is a panic.
  unfoldable pub read_from_trace : TraceTable F → ℕ → ℕ → List ℕ → Option (Frame F)
  unfolding get_row
  read_from_trace trace step blowup offsets =
      let trace_steps = n_rows trace in
      and_then
        (flat_traverse
          (λ frame_row_idx.
            if trace_steps == 0
            then none
            else get_row trace ((step + frame_row_idx * blowup) % trace_steps))
          offsets)
        λ rows. some (record { data_rows = rows; row_width = trace.n_cols })

-- The polynomials are those of lambdaworks-math; `evaluate` is its evaluation.
module _ {F Poly : Type 0} ⦃K : Field F⦄ (evaluate : Poly → F → F) where
  unfoldable pub get_trace_evaluations : List Poly → F → List ℕ → F → List (List F)
  get_trace_evaluations trace_polys x frame_offsets primitive_root =
      map (λ eval_point. map (λ poly. evaluate poly eval_point) trace_polys)
        (map (λ offset. x ⊗ K.pow primitive_root offset) frame_offsets)
