-- ===== src/Examples/Tables.antt =====
-- air/trace.rs on a table of two columns.
use lambdaworks_cairo_prover.Prelude.{
  ℕ, ◌≡◌, refl, arith, List, [], ◌∷◌, some, get_elem?, and_then, length, ltb, if◌then◌else◌, ◌-◌,
  ◌+◌, ◌*◌,
}
use lambdaworks_cairo_prover.Air.TraceTable.{
  TraceTable, new_from_cols, get, cols, concatenate, rows,
}
use lambdaworks_cairo_prover.Air.TraceTable.Columns.{get-new_from_cols, cols-new_from_cols}
use lambdaworks_cairo_prover.Air.TraceTable.Rows.{joined, joined-rows}
use lambdaworks_cairo_prover.Air.TraceTable.Concatenate.{get-concatenate}

abbrev columns : List (List ℕ)
columns = (1 ∷ 2 ∷ 3 ∷ []) ∷ (4 ∷ 5 ∷ 6 ∷ []) ∷ []

abbrev table : TraceTable ℕ
table = record { table = 1 ∷ 4 ∷ 2 ∷ 5 ∷ 3 ∷ 6 ∷ []; n_cols = 2 }

columns-new_from_cols : new_from_cols columns ≡ some table
unfolding new_from_cols
columns-new_from_cols = refl

get-new_from_cols_example : get table 2 1 ≡ and_then (get_elem? columns 1) λ c. get_elem? c 2
get-new_from_cols_example =
    get-new_from_cols 3 columns table 2 1 (omega arith) columns-new_from_cols (omega arith)
      (omega arith)

cols-new_from_cols_example : cols table ≡ some columns
cols-new_from_cols_example =
    cols-new_from_cols 3 columns table (omega arith) (omega arith) columns-new_from_cols

-- A column of 7, 8 and 9 after the two columns.
abbrev new_column : List ℕ
new_column = 7 ∷ 8 ∷ 9 ∷ []

get-concatenate_example :
    (t' : TraceTable ℕ) × (concatenate table new_column 1 ≡ some t')
    × (t'.n_cols ≡ 2 + 1)
    × (length t'.table ≡ 3 * t'.n_cols)
    × (get t' 1 2 ≡ (if ltb 2 2 then get table 1 2 else get_elem? new_column (1 * 1 + (2 - 2))))
get-concatenate_example =
    get-concatenate table new_column 1 3 1 2 (omega arith) (omega arith) (omega arith) (omega arith)
      (omega arith)

joined-rows_example :
    (rs : List (List ℕ)) × (rows table ≡ some rs) × (length rs ≡ 3) × (joined rs ≡ table.table)
joined-rows_example = joined-rows table 3 (omega arith) (omega arith)
