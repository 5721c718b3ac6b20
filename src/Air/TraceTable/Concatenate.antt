-- ===== src/Air/TraceTable/Concatenate.antt =====
-- Further columns at the end of the rows of a table: `concatenate`.
use native.Mathlib.Nat.{div-eq_of_lt, add-mul-div_right}
use lambdaworks_cairo_prover.Prelude.{
  ℕ, zero, suc, ◌+◌, ◌-◌, ◌*◌, ◌/◌, ◌<◌, ◌≤◌, ◌≡◌, inl, inr, refl, ap, ◌∙◌, arith, true, false,
  Option, some, List, [], ◌∷◌, ◌++◌, length, length-append, get_elem?, take, drop, slice,
  length-take, length-drop, leb, ◌&&◌, ◌==◌, ltb, if◌then◌else◌, if-cases, ltb→lt,
  get_elem?-append_left, get_elem?-append_right,
}
use lambdaworks_cairo_prover.Air.TraceTable.{TraceTable, get, concatenate_rows, concatenate}

module _ {F : Type 0} where
  get_elem?-take : (n c : ℕ) (xs : List F) → c < n → get_elem? (take n xs) c ≡ get_elem? xs c
  get_elem?-take zero c xs h = absurd (omega arith)
  get_elem?-take (suc n) c [] h = refl
  get_elem?-take (suc n) zero (x ∷ xs) h = refl
  get_elem?-take (suc n) (suc c) (x ∷ xs) h = get_elem?-take n c xs (omega arith)

  get_elem?-drop : (n c : ℕ) (xs : List F) → get_elem? (drop n xs) c ≡ get_elem? xs (n + c)
  get_elem?-drop zero c xs = ap (get_elem? xs) (omega arith)
  get_elem?-drop (suc n) c [] = refl
  get_elem?-drop (suc n) c (x ∷ xs) =
      get_elem?-drop n c xs ∙ ap (get_elem? (x ∷ xs)) {x = suc (n + c)} (omega arith)

  -- The values of a slice of `n` values are those from its start on.
  pub slice_cells :
      (xs : List F) (start n : ℕ)
      → start + n ≤ length xs
      → (ys : List F) × (slice xs start (start + n) ≡ some ys)
        × (length ys ≡ n)
        × ((c : ℕ) → c < n → get_elem? ys c ≡ get_elem? xs (start + c))
  unfolding slice
  slice_cells xs start n h =
      let fits : (leb start (start + n) && leb (start + n) (length xs)) ≡ true = ground arith in
      let size : start + n - start ≡ n = omega arith in
      (
        take n (drop start xs),
        rw (fits, size) refl,
        omega (arith, length-take n (drop start xs), length-drop start xs),
        λ c lt. get_elem?-take n c (drop start xs) lt ∙ get_elem?-drop start c xs,
      )

  -- The place `col` of the row `row`, from the places `start` and `i` of both lists on.
  abbrev cell : TraceTable F → List F → ℕ → ℕ → ℕ → ℕ → ℕ → Option F
  cell t new_cols n_new start i row col =
      if ltb col t.n_cols
      then get_elem? t.table (start + row * t.n_cols + col)
      else get_elem? new_cols (i + row * n_new + (col - t.n_cols))

  choice_congr :
      (t : TraceTable F) (new_cols : List F) (col k k' j j' : ℕ)
      → k ≡ k'
      → j ≡ j'
      → (if ltb col t.n_cols then get_elem? t.table k else get_elem? new_cols j)
        ≡ (if ltb col t.n_cols then get_elem? t.table k' else get_elem? new_cols j')
  choice_congr t new_cols col k k' j j' p q = rw (p, q) refl

  -- The first row, and the rows after it.
  first_row :
      (a b col : ℕ) (old new rest : List F)
      → length old ≡ a
      → length new ≡ b
      → col < a + b
      → get_elem? (old ++ (new ++ rest)) col
        ≡ (if ltb col a then get_elem? old col else get_elem? new (col - a))
  first_row a b col old new rest p q lt =
      elim (if-cases (ltb col a) (get_elem? old col) (get_elem? new (col - a)) refl) [
        | inl (e, taken) ↦
            let below = ltb→lt col a e in
            get_elem?-append_left col old (new ++ rest) (omega arith) ∙ taken
        | inr (e, taken) ↦
            let above : a ≤ col = ground arith in
            get_elem?-append_right (col - a) col old (new ++ rest) (omega arith)
            ∙ get_elem?-append_left (col - a) new rest (omega arith)
            ∙ taken
      ]

  later_row :
      (a b k : ℕ) (old new rest : List F)
      → length old ≡ a
      → length new ≡ b
      → get_elem? (old ++ (new ++ rest)) (a + b + k) ≡ get_elem? rest k
  later_row a b k old new rest p q =
      get_elem?-append_right (b + k) (a + b + k) old (new ++ rest) (omega arith)
      ∙ get_elem?-append_right k (b + k) new rest (omega arith)

  -- The cells of a row and of the rows after it.
  rows_at :
      (t : TraceTable F) (new_cols old new rest : List F) (n_new start i n : ℕ)
      → length old ≡ t.n_cols
      → length new ≡ n_new
      → ((c : ℕ) → c < t.n_cols → get_elem? old c ≡ get_elem? t.table (start + c))
      → ((c : ℕ) → c < n_new → get_elem? new c ≡ get_elem? new_cols (i + c))
      → ((row col : ℕ)
          → row < n
          → col < t.n_cols + n_new
          → get_elem? rest (row * (t.n_cols + n_new) + col)
            ≡ cell t new_cols n_new (start + t.n_cols) (i + n_new) row col)
      → (row col : ℕ) → row < suc n
      → col < t.n_cols + n_new
      → get_elem? (old ++ (new ++ rest)) (row * (t.n_cols + n_new) + col)
        ≡ cell t new_cols n_new start i row col
  rows_at t new_cols old new rest n_new start i n p q old_at new_at rest_at zero col lt lt' =
      ap (get_elem? (old ++ (new ++ rest))) {x = 0 * (t.n_cols + n_new) + col} {y = col}
        (omega arith)
      ∙ first_row t.n_cols n_new col old new rest p q lt'
      ∙ elim (if-cases (ltb col t.n_cols) (get_elem? t.table (start + 0 * t.n_cols + col))
          (get_elem? new_cols (i + 0 * n_new + (col - t.n_cols))) refl) [
            | inl (e, taken) ↦
                let below = ltb→lt col t.n_cols e in
                rw e (
                  old_at col below
                  ∙ ap (get_elem? t.table) {x = start + col} {y = start + 0 * t.n_cols + col}
                      (omega arith))
            | inr (e, taken) ↦
                let above : t.n_cols ≤ col = ground arith in
                rw e (
                  new_at (col - t.n_cols) (omega arith)
                  ∙ ap (get_elem? new_cols) {x = i + (col - t.n_cols)}
                      {y = i + 0 * n_new + (col - t.n_cols)} (omega arith))
          ]
  rows_at t new_cols old new rest n_new start i n p q old_at new_at rest_at (suc row) col lt lt' =
      ap (get_elem? (old ++ (new ++ rest))) {x = suc row * (t.n_cols + n_new) + col}
        {y = t.n_cols + n_new + (row * (t.n_cols + n_new) + col)} (omega arith)
      ∙ later_row t.n_cols n_new (row * (t.n_cols + n_new) + col) old new rest p q
      ∙ rest_at row col (omega arith) lt'
      ∙ choice_congr t new_cols col (start + t.n_cols + row * t.n_cols + col)
          (start + suc row * t.n_cols + col) (i + n_new + row * n_new + (col - t.n_cols))
          (i + suc row * n_new + (col - t.n_cols)) (omega arith) (omega arith)

  concatenate_rows_total :
      (t : TraceTable F) (new_cols : List F) (n_new start i n : ℕ)
      → start + n * t.n_cols ≤ length t.table
      → i + n * n_new ≤ length new_cols
      → (zs : List F) × (concatenate_rows t new_cols n_new start i n ≡ some zs)
        × (length zs ≡ n * (t.n_cols + n_new))
        × ((row col : ℕ)
            → row < n
            → col < t.n_cols + n_new
            → get_elem? zs (row * (t.n_cols + n_new) + col) ≡ cell t new_cols n_new start i row col)
  unfolding concatenate_rows
  concatenate_rows_total t new_cols n_new start i zero h h' =
      ([], refl, omega arith, λ row col lt lt'. absurd (omega arith))
  concatenate_rows_total t new_cols n_new start i (suc n) h h' =
      let (old, p, old_long, old_at) = slice_cells t.table start t.n_cols (omega arith) in
      let (new, q, new_long, new_at) = slice_cells new_cols i n_new (omega arith) in
      let (rest, r, rest_long, rest_at) =
        concatenate_rows_total t new_cols n_new (start + t.n_cols) (i + n_new) n (omega arith)
          (omega arith) in
      (
        old ++ (new ++ rest),
        rw (p, q, r) refl,
        omega (
          arith,
          length-append old (new ++ rest),
          length-append new rest,
          old_long,
          new_long,
          rest_long,
        ),
        rows_at t new_cols old new rest n_new start i n old_long new_long old_at new_at rest_at,
      )

  -- If a table of at least one column has m full rows and there are m rows of n_new new values, then
  -- `concatenate` returns a table with n_new more columns, and the cell of each row and column within
  -- it is that of the table in its columns, and the new value of that row and place after them.
  pub get-concatenate :
      (t : TraceTable F) (new_cols : List F) (n_new m row col : ℕ)
      → 0 < t.n_cols
      → length t.table ≡ m * t.n_cols
      → length new_cols ≡ m * n_new
      → row < m
      → col < t.n_cols + n_new
      → (t' : TraceTable F) × (concatenate t new_cols n_new ≡ some t')
        × (t'.n_cols ≡ t.n_cols + n_new)
        × (length t'.table ≡ m * t'.n_cols)
        × (get t' row col ≡ (
            if ltb col t.n_cols
            then get t row col
            else get_elem? new_cols (row * n_new + (col - t.n_cols))))
  unfolding concatenate get
  get-concatenate t new_cols n_new m row col pos long new_long lt lt' =
      let (zs, p, size, at) =
        concatenate_rows_total t new_cols n_new 0 0 m (omega arith) (omega arith) in
      let count : (length t.table + t.n_cols - 1) / t.n_cols ≡ m =
        ap (λ k. k / t.n_cols) {x = length t.table + t.n_cols - 1} {y = t.n_cols - 1 + m * t.n_cols}
          (omega arith)
        ∙ add-mul-div_right (t.n_cols - 1) m pos
        ∙ ap (λ k. k + m) (div-eq_of_lt (omega arith))
        ∙ omega arith in
      let some_columns : (t.n_cols == 0) ≡ false = ground arith in
      (
        record { table = zs; n_cols = t.n_cols + n_new },
        rw (some_columns, count, p) refl,
        refl,
        size,
        at row col lt lt'
            ∙ choice_congr t new_cols col (0 + row * t.n_cols + col) (row * t.n_cols + col)
                (0 + row * n_new + (col - t.n_cols)) (row * n_new + (col - t.n_cols)) (omega arith)
                (omega arith),
      )
