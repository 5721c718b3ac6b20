-- ===== src/CairoVm/Memory/Import.antt =====
-- `CairoMemory::from_bytes_le` against the file format: rows of eight and of thirty-two bytes.
use lambdaworks_cairo_prover.Prelude.{
  ℕ, zero, suc, ◌+◌, ◌*◌, ◌/◌, ◌%◌, ◌^◌, ◌≤◌, ◌<◌, ◌≡◌, ◌≢◌, ◌⊎◌, inl, inr, refl, sym, ap, ◌∙◌,
  arith, some, List, [], ◌∷◌, ◌++◌, append_assoc, length, length-append, All, slice, slice-append,
  slice_total, to_le_bytes, from_le_bytes, length-to_le_bytes, from_le_bytes-to_le_bytes, ok, err,
}
use native.Mathlib.Decide.{ℕ_discrete}
use lambdaworks_cairo_prover.Field.{Field, HasBytes}
use lambdaworks_cairo_prover.CairoVm.Memory.{
  CairoMemory, incorrect_number_of_bytes, insert, read_cell, read_cells, memory_from_bytes_le,
}

module _ {F : Type 0} ⦃K : Field F⦄ where
  -- The row of a cell in the file, and a file of cells.
  unfoldable pub write_cell : ℕ × F → List ℕ
  write_cell (a, v) = to_le_bytes 8 a ++ K.to_bytes_le v

  unfoldable pub write_cells : List (ℕ × F) → List ℕ
  unfolding write_cell
  write_cells [] = []
  write_cells (c ∷ cells) = write_cell c ++ write_cells cells

-- The map that the cells make, a later cell winning over an earlier one of its address.
abbrev pub insert_all : {F : Type 0} → List (ℕ × F) → List (ℕ × F) → List (ℕ × F)
insert_all [] m = m
insert_all ((a, v) ∷ cells) m = insert_all cells (insert a v m)

module _ {F : Type 0} ⦃K : Field F⦄ (B : HasBytes K) where
  length-write_cell : (c : ℕ × F) → length (write_cell c) ≡ 40
  unfolding write_cell
  length-write_cell (a, v) = omega (
    arith,
    length-append (to_le_bytes 8 a) (K.to_bytes_le v),
    length-to_le_bytes 8 a,
    B.length-to_bytes_le v,
  )

  length-write_cells : (cells : List (ℕ × F)) → length (write_cells cells) ≡ length cells * 40
  unfolding write_cells
  length-write_cells [] = refl
  length-write_cells (c ∷ cells) = omega (
    arith,
    length-append (write_cell c) (write_cells cells),
    length-write_cell c,
    length-write_cells cells,
  )

  read_cell-write_cell :
      (i : ℕ) (pre post : List ℕ) (a : ℕ) (v : F)
      → length pre ≡ i * 40
      → a < 2 ^ 64
      → read_cell (pre ++ (write_cell (a, v) ++ post)) i ≡ some (a, v)
  unfolding read_cell write_cell
  read_cell-write_cell i pre post a v h lt =
      let xs = to_le_bytes 8 a in
      let ys = K.to_bytes_le v in
      let lx : length xs ≡ 8 = length-to_le_bytes 8 a in
      let first : slice (pre ++ ((xs ++ ys) ++ post)) (i * 40) (i * 40 + 8) ≡ some xs =
        rw (append_assoc xs ys post)
          (slice-append (i * 40) (i * 40 + 8) pre xs (ys ++ post) (omega arith) (omega arith)) in
      let regroup : pre ++ ((xs ++ ys) ++ post) ≡ (pre ++ xs) ++ (ys ++ post) =
        rw (append_assoc xs ys post) (sym (append_assoc pre xs (ys ++ post))) in
      let second : slice (pre ++ ((xs ++ ys) ++ post)) (i * 40 + 8) (i * 40 + 40) ≡ some ys =
        rw regroup (
          slice-append (i * 40 + 8) (i * 40 + 40) (pre ++ xs) ys post
            (omega (arith, length-append pre xs))
            (omega (arith, length-append pre xs, B.length-to_bytes_le v))) in
      rw (first, second, B.from_bytes_le-to_bytes_le v, from_le_bytes-to_le_bytes 8 a lt)

  read_cells-write_cells :
      (i : ℕ) (pre : List ℕ) (cells entries : List (ℕ × F))
      → length pre ≡ i * 40
      → All (λ (c : ℕ × F). c.0 < 2 ^ 64) cells
      → read_cells (pre ++ write_cells cells) i (length cells) entries
        ≡ some (insert_all cells entries)
  unfolding read_cells write_cells
  read_cells-write_cells i pre [] entries h fits = refl
  read_cells-write_cells i pre ((a, v) ∷ cells) entries h fits =
      rw (read_cell-write_cell i pre (write_cells cells) a v h fits.0) (
        ap (λ bytes. read_cells bytes (suc i) (length cells) (insert a v entries))
          (sym (append_assoc pre (write_cell (a, v)) (write_cells cells)))
        ∙ read_cells-write_cells (suc i) (pre ++ write_cell (a, v)) cells (insert a v entries)
            (omega (arith, length-append pre (write_cell (a, v)), length-write_cell (a, v))) fits.1)

  -- A file written from cells with 64-bit addresses is read back as the map that the cells make.
  pub memory_from_bytes_le-write_cells :
      (cells : List (ℕ × F))
      → All (λ (c : ℕ × F). c.0 < 2 ^ 64) cells
      → memory_from_bytes_le (write_cells cells)
        ≡ some (ok (record { entries = insert_all cells [] }))
  unfolding memory_from_bytes_le
  memory_from_bytes_le-write_cells cells fits =
      let whole : length (write_cells cells) % 40 ≡ 0 = omega (arith, length-write_cells cells) in
      let count : length (write_cells cells) / 40 ≡ length cells =
        omega (arith, length-write_cells cells) in
      rw (whole, count, read_cells-write_cells 0 [] cells [] refl fits)

  read_cells_total :
      (bytes : List ℕ) (i n : ℕ) (entries : List (ℕ × F))
      → (i + n) * 40 ≤ length bytes
      → (m : List (ℕ × F)) × (read_cells bytes i n entries ≡ some m)
  unfolding read_cells read_cell
  read_cells_total bytes i zero entries h = (entries, refl)
  read_cells_total bytes i (suc n) entries h =
      let (xs, p, _) = slice_total bytes (i * 40) (i * 40 + 8) (omega arith) (omega arith) in
      let (ys, q, l) = slice_total bytes (i * 40 + 8) (i * 40 + 40) (omega arith) (omega arith) in
      let (v, r) = B.from_bytes_le_total ys (omega arith) in
      rw (p, q, r)
        (read_cells_total bytes (suc i) n (insert (from_le_bytes xs) v entries) (omega arith))

  -- Reading never panics: it gives a memory if the length is a multiple of 40, and else the error.
  pub memory_from_bytes_le_total :
      (bytes : List ℕ)
      → ((length bytes % 40 ≡ 0)
          × ((m : CairoMemory F) × (memory_from_bytes_le bytes ≡ some (ok m))))
        ⊎ ((length bytes % 40 ≢ 0)
            × (memory_from_bytes_le ⦃K = K⦄ bytes ≡ some (err incorrect_number_of_bytes)))
  unfolding memory_from_bytes_le
  memory_from_bytes_le_total bytes = elim (ℕ_discrete (length bytes % 40) 0) [
    | yes h ↦
        let (m, e) = read_cells_total bytes 0 (length bytes / 40) [] (omega arith) in
        inl (h, (record { entries = m }, rw (h, e)))
    | no h ↦ inr (h, ground arith)
  ]
