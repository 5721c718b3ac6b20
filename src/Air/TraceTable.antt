-- ===== src/Air/TraceTable.antt =====
-- air/trace.rs: the row-major table of a trace. An index out of range is a panic, `none`.
pub mod Columns
pub mod Concatenate
pub mod Rows
pub mod Made
use lambdaworks_cairo_prover.Prelude.{
  ℕ, zero, suc, ◌+◌, ◌-◌, ◌*◌, ◌/◌, Bool, Option, none, some, List, [], ◌∷◌, ◌++◌, length,
  get_elem?, slice, range, traverse, flat_traverse, and_then, ◌==◌, if◌then◌else◌,
}

pub record TraceTable (F : Type 0) : Type 0 where
  pub table : List F
  pub n_cols : ℕ

module _ {F : Type 0} where
  abbrev pub empty : TraceTable F
  empty = record { table = []; n_cols = 0 }

  abbrev pub is_empty : TraceTable F → Bool
  is_empty t = t.n_cols == 0

  abbrev pub n_rows : TraceTable F → ℕ
  n_rows t = if t.n_cols == 0 then 0 else length t.table / t.n_cols

  -- `table[row * n_cols + column]` for every row and then every column asked for.
  unfoldable pub get_cols : TraceTable F → List ℕ → Option (TraceTable F)
  get_cols t columns =
      and_then
        (flat_traverse
          (λ row_index.
            traverse (λ column. get_elem? t.table (row_index * t.n_cols + column)) columns)
          (range (n_rows t)))
        λ table. some (record { table = table; n_cols = length columns })

  -- Without the debug assertion that the columns are equally long.
  unfoldable pub new_from_cols : List (List F) → Option (TraceTable F)
  new_from_cols cols = and_then (get_elem? cols 0) λ first.
      and_then
        (flat_traverse (λ row_idx. traverse (λ col. get_elem? col row_idx) cols)
          (range (length first)))
        λ table. some (record { table = table; n_cols = length cols })

  unfoldable pub get_row : TraceTable F → ℕ → Option (List F)
  unfolding slice
  get_row t row_idx =
      let row_offset = row_idx * t.n_cols in slice t.table row_offset (row_offset + t.n_cols)

  unfoldable pub rows : TraceTable F → Option (List (List F))
  unfolding slice
  rows t =
      traverse (λ row_idx. slice t.table (row_idx * t.n_cols) (row_idx * t.n_cols + t.n_cols))
        (range (n_rows t))

  -- The row before row 0 is a panic.
  unfoldable pub last_row : TraceTable F → Option (List F)
  unfolding get_row
  last_row t = let n = n_rows t in if n == 0 then none else get_row t (n - 1)

  unfoldable pub cols : TraceTable F → Option (List (List F))
  cols t =
      traverse
        (λ col_idx.
          traverse (λ row_idx. get_elem? t.table (row_idx * t.n_cols + col_idx)) (range (n_rows t)))
        (range t.n_cols)

  unfoldable pub get : TraceTable F → ℕ → ℕ → Option F
  get t step col = get_elem? t.table (step * t.n_cols + col)

  -- The loop of `concatenate` over the rows of the table, `i` the place reached in the new columns.
  unfoldable pub concatenate_rows : TraceTable F → List F → ℕ → ℕ → ℕ → ℕ → Option (List F)
  unfolding slice
  concatenate_rows t new_cols n_new row_index i zero = some []
  concatenate_rows t new_cols n_new row_index i (suc n) =
      and_then (slice t.table row_index (row_index + t.n_cols)) λ old.
        and_then (slice new_cols i (i + n_new)) λ new.
          and_then (concatenate_rows t new_cols n_new (row_index + t.n_cols) (i + n_new) n)
            λ rest. some (old ++ (new ++ rest))

  -- `step_by(0)` panics; the steps of `n_cols` below the length are as many as the quotient, rounded up.
  unfoldable pub concatenate : TraceTable F → List F → ℕ → Option (TraceTable F)
  unfolding concatenate_rows
  concatenate t new_cols n_new =
      if t.n_cols == 0
      then none
      else (and_then
          (concatenate_rows t new_cols n_new 0 0 ((length t.table + t.n_cols - 1) / t.n_cols))
          λ table. some (record { table = table; n_cols = t.n_cols + n_new }))
