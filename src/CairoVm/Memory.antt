-- ===== src/CairoVm/Memory.antt =====
-- cairo_vm/cairo_mem.rs: the memory of a finished run, read from its binary file. The hash map is
-- an association list, and the error is that of cairo_vm/errors.rs.
pub mod Import
use lambdaworks_cairo_prover.Prelude.{
  ℕ, zero, suc, ◌+◌, ◌*◌, ◌/◌, ◌%◌, Bool, Option, none, some, List, [], ◌∷◌, length, slice,
  from_le_bytes, Result, ok, err, ◌==◌, if◌then◌else◌, and_then,
}
use lambdaworks_cairo_prover.Field.{Field}

pub data CairoImportError : Type 0 where
  incorrect_number_of_bytes file_error : CairoImportError

pub record CairoMemory (F : Type 0) : Type 0 where
  pub entries : List (ℕ × F)

module _ {F : Type 0} where
  -- `HashMap::get` and `HashMap::insert`
  unfoldable pub lookup : List (ℕ × F) → ℕ → Option F
  lookup [] addr = none
  lookup ((a, v) ∷ m) addr = if a == addr then some v else lookup m addr

  unfoldable pub insert : ℕ → F → List (ℕ × F) → List (ℕ × F)
  insert a v [] = (a, v) ∷ []
  insert a v ((b, w) ∷ m) = if b == a then (a, v) ∷ m else (b, w) ∷ insert a v m

  unfoldable pub get : CairoMemory F → ℕ → Option F
  unfolding lookup
  get m addr = lookup m.entries addr

  unfoldable pub len : CairoMemory F → ℕ
  len m = length m.entries

  unfoldable pub is_empty : CairoMemory F → Bool
  unfolding len
  is_empty m = len m == 0

abbrev pub memory_row_size : ℕ
memory_row_size = 8 + 32

module _ {F : Type 0} ⦃K : Field F⦄ where
  -- One turn of the loop: the row at index `i` of the file.
  unfoldable pub read_cell : List ℕ → ℕ → Option (ℕ × F)
  unfolding from_le_bytes slice
  read_cell bytes i =
      and_then (slice bytes (i * memory_row_size) (i * memory_row_size + 8)) λ address.
        and_then (slice bytes (i * memory_row_size + 8) (i * memory_row_size + 40))
          λ word. and_then (K.from_bytes_le word) λ value. some (from_le_bytes address, value)

  -- The loop over the rows from `i` on, `n` of them.
  unfoldable pub read_cells : List ℕ → ℕ → ℕ → List (ℕ × F) → Option (List (ℕ × F))
  unfolding read_cell insert
  read_cells bytes i zero entries = some entries
  read_cells bytes i (suc n) entries =
      and_then (read_cell bytes i)
        λ (address, value). read_cells bytes (suc i) n (insert address value entries)

  -- `none` is a panic.
  unfoldable pub memory_from_bytes_le : List ℕ → Option (Result CairoImportError (CairoMemory F))
  unfolding read_cells
  memory_from_bytes_le bytes =
      let num_rows = length bytes / memory_row_size in
      if length bytes % memory_row_size == 0
      then (and_then (read_cells bytes 0 num_rows [])
          λ entries. some (ok (record { entries = entries })))
      else some (err incorrect_number_of_bytes)
