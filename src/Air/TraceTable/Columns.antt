-- ===== src/Air/TraceTable/Columns.antt =====
-- Tables and their columns.
use native.Mathlib.Nat
use mathlib.Core.Option
use lambdaworks_cairo_prover.Prelude.{
  ℕ, zero, suc, ◌+◌, ◌*◌, ◌/◌, ◌<◌, ◌≡◌, refl, sym, ap, ap₂, ◌∙◌, arith, Option, some, List, [],
  ◌∷◌, length, get_elem?, range, All, traverse, flat_traverse, and_then, traverse-get_elem?,
  length-traverse, traverse_congr, traverse_self, length-flat_traverse, flat_traverse_total,
  flat_range-get_elem?, get_elem?_total, and_then-eq-some,
}
use lambdaworks_cairo_prover.Air.TraceTable.{TraceTable, n_rows, new_from_cols, cols, get}

abbrev pub IsRectangular : {F : Type 0} → ℕ → List (List F) → Type 0
IsRectangular m cs = All (λ col. length col ≡ m) cs

module _ {F : Type 0} where
  -- Row `r` of a list of columns.
  abbrev pub row_of : List (List F) → ℕ → Option (List F)
  row_of cs r = traverse (λ col. get_elem? col r) cs

  pub length-row_of :
      (cs : List (List F)) (r : ℕ) (ys : List F) → row_of cs r ≡ some ys → length ys ≡ length cs
  length-row_of cs r ys h = length-traverse (λ col. get_elem? col r) cs ys h

  -- A row of equally long columns can be read.
  pub row_total :
      (r m : ℕ) (cs : List (List F))
      → r < m
      → IsRectangular m cs
      → (ys : List F) × (row_of cs r ≡ some ys)
  row_total r m [] lt rect = ([], refl)
  row_total r m (col ∷ cs) lt rect =
      let (x, p) = get_elem?_total col r (omega (arith, rect.0)) in
      let (ys, q) = row_total r m cs lt rect.1 in (x ∷ ys, rw (p, q))

  -- What `new_from_cols` returns: the table, of as many rows as the columns are long.
  pub new_from_cols_total :
      (m : ℕ) (cs : List (List F))
      → 0 < length cs
      → IsRectangular m cs
      → (t : TraceTable F) × (new_from_cols cs ≡ some t)
        × (t.n_cols ≡ length cs)
        × (length t.table ≡ m * length cs)
  unfolding new_from_cols
  new_from_cols_total m [] pos_n rect = absurd (omega arith)
  new_from_cols_total m (c ∷ cs) pos_n rect =
      let (table, e) =
        flat_traverse_total (row_of (c ∷ cs)) (length (c ∷ cs)) 0 (length c)
          (λ i lt. row_total i m (c ∷ cs) (omega (arith, rect.0)) rect) in
      (
        record { table = table; n_cols = length (c ∷ cs) },
        rw e,
        refl,
        length-flat_traverse (row_of (c ∷ cs)) (length (c ∷ cs)) 0 (length c) table e
              (length-row_of (c ∷ cs))
            ∙ ap (λ k. k * length (c ∷ cs)) rect.0,
      )

  -- The table has what the columns have.
  pub cell-new_from_cols :
      (m : ℕ) (cs : List (List F)) (t : TraceTable F) (step col : ℕ)
      → IsRectangular m cs
      → new_from_cols cs ≡ some t
      → step < m
      → col < length cs
      → get_elem? t.table (step * length cs + col)
        ≡ and_then (get_elem? cs col) λ c. get_elem? c step
  unfolding new_from_cols
  cell-new_from_cols m [] t step col rect h lt lt' = absurd (omega arith)
  cell-new_from_cols m (c ∷ cs) t step col rect h lt lt' =
      let (table, p, q) =
        and_then-eq-some (flat_traverse (row_of (c ∷ cs)) (range (length c))) _ h in
      let same : t.table ≡ table = cc (ap (Option.map (λ (t : TraceTable F). t.table)) q) in
      let (ys, r) = row_total step m (c ∷ cs) lt rect in
      ap (λ l. get_elem? l (step * length (c ∷ cs) + col)) same
      ∙ flat_range-get_elem? (row_of (c ∷ cs)) (length (c ∷ cs)) (length c) step col table p
          (length-row_of (c ∷ cs)) (omega (arith, rect.0)) lt'
      ∙ ap (λ o. and_then o λ l. get_elem? l col) r
      ∙ traverse-get_elem? (λ x. get_elem? x step) (c ∷ cs) ys col r

  -- The shape of the table that was made.
  pub new_from_cols-shape :
      (m : ℕ) (cs : List (List F)) (t : TraceTable F)
      → 0 < length cs
      → IsRectangular m cs
      → new_from_cols cs ≡ some t
      → (t.n_cols ≡ length cs) × (n_rows t ≡ m)
  new_from_cols-shape m cs t pos_n rect h =
      let (u, p, q, r) = new_from_cols_total m cs pos_n rect in
      let same : t ≡ u = cc in
      let wide : t.n_cols ≡ length cs = ap (λ (t : TraceTable F). t.n_cols) same ∙ q in
      let long : length t.table ≡ m * length cs =
        ap (λ (t : TraceTable F). length t.table) same ∙ r in
      let quotient : m * length cs / length cs ≡ m = Nat.mul-div_cancel m pos_n in
      (wide, ground arith)

  -- In a table made from equally long columns, the cell of a row and a column within them is that
  -- place of that column.
  pub get-new_from_cols :
      (m : ℕ) (cs : List (List F)) (t : TraceTable F) (step col : ℕ)
      → IsRectangular m cs
      → new_from_cols cs ≡ some t
      → step < m
      → col < length cs
      → get t step col ≡ and_then (get_elem? cs col) λ c. get_elem? c step
  unfolding get
  get-new_from_cols m cs t step col rect h lt lt' =
      ap (λ n. get_elem? t.table (step * n + col))
        (new_from_cols-shape m cs t (omega arith) rect h).0
      ∙ cell-new_from_cols m cs t step col rect h lt lt'

  length-column :
      (m : ℕ) (cs : List (List F)) (i : ℕ) (c : List F)
      → IsRectangular m cs
      → get_elem? cs i ≡ some c
      → length c ≡ m
  length-column m [] i c rect h = cc
  length-column m (x ∷ cs) zero c rect h = let e : c ≡ x = cc in rw e rect.0
  length-column m (x ∷ cs) (suc i) c rect h = length-column m cs i c rect.1 h

  -- A column of the table, read cell by cell, is the column that it was made from.
  column-new_from_cols :
      (m : ℕ) (cs : List (List F)) (t : TraceTable F) (col : ℕ)
      → IsRectangular m cs
      → new_from_cols cs ≡ some t
      → col < length cs
      → traverse (λ row_idx. get_elem? t.table (row_idx * length cs + col)) (range m)
        ≡ get_elem? cs col
  column-new_from_cols m cs t col rect h lt =
      let (c, e) = get_elem?_total cs col lt in
      let long : length c ≡ m = length-column m cs col c rect e in
      traverse_congr (λ r. get_elem? t.table (r * length cs + col)) (get_elem? c) 0 m
        (λ r _ below.
          cell-new_from_cols m cs t r col rect h (omega arith) lt
          ∙ ap (λ o. and_then o λ x. get_elem? x r) e)
      ∙ ap (λ n. traverse (get_elem? c) (range n)) (sym long)
      ∙ traverse_self c
      ∙ sym e

  -- A table made from at least one column, all equally long, has those columns.
  pub cols-new_from_cols :
      (m : ℕ) (cs : List (List F)) (t : TraceTable F)
      → 0 < length cs
      → IsRectangular m cs
      → new_from_cols cs ≡ some t
      → cols t ≡ some cs
  unfolding cols
  cols-new_from_cols m cs t pos_n rect h =
      let (wide, long) = new_from_cols-shape m cs t pos_n rect h in
      ap₂ (λ n k. traverse (λ c. traverse (λ r. get_elem? t.table (r * n + c)) (range k)) (range n))
        wide long
      ∙ traverse_congr (λ c. traverse (λ r. get_elem? t.table (r * length cs + c)) (range m))
          (get_elem? cs) 0 (length cs)
          (λ c _ below. column-new_from_cols m cs t c rect h (omega arith))
      ∙ traverse_self cs
