-- ===== src/Air/TraceTable/Rows.antt =====
-- The rows of a table: `rows`.
use native.Mathlib.Nat.{mul-div_cancel}
use lambdaworks_cairo_prover.Prelude.{
  ℕ, zero, suc, ◌+◌, ◌*◌, ◌/◌, ◌<◌, ◌≡◌, refl, sym, ap, ◌∙◌, arith, some, List, [], ◌∷◌, ◌++◌,
  length, length-append, length-take, length-drop, append_assoc, take-append-drop, take, drop,
  slice, slice-append, range_from, traverse,
}
use lambdaworks_cairo_prover.Air.TraceTable.{TraceTable, n_rows, rows}

module _ {F : Type 0} where
  -- The rows, one after another.
  abbrev pub joined : List (List F) → List F
  joined [] = []
  joined (row ∷ rest) = row ++ joined rest

  -- The slices of `w` values from the `k`th on join to what stands after the first `k`.
  slices_joined :
      (w m k : ℕ) (table pre post : List F)
      → table ≡ pre ++ post
      → length pre ≡ k * w
      → length post ≡ m * w
      → (rs : List (List F)) × (traverse
            (λ row_idx. slice table (row_idx * w) (row_idx * w + w))
            (range_from k m)
          ≡ some rs)
        × (length rs ≡ m)
        × (joined rs ≡ post)
  slices_joined w zero k table pre [] e p q = ([], refl, refl, refl)
  slices_joined w zero k table pre (x ∷ post) e p q = absurd (omega arith)
  slices_joined w (suc m) k table pre post e p q =
      let row = take w post in
      let rest = drop w post in
      let split : table ≡ pre ++ (row ++ rest) =
        e ∙ ap (λ l. pre ++ l) (sym (take-append-drop w post)) in
      let row_long : length row ≡ w = omega (arith, length-take w post) in
      let here : slice table (k * w) (k * w + w) ≡ some row =
        ap (λ l. slice l (k * w) (k * w + w)) split
        ∙ slice-append (k * w) (k * w + w) pre row rest (omega arith) (omega arith) in
      let (rs, r, long, joins) =
        slices_joined w m (suc k) table (pre ++ row) rest (split ∙ sym (append_assoc pre row rest))
          (omega (arith, length-append pre row)) (omega (arith, length-drop w post)) in
      (row ∷ rs, rw (here, r) refl, ap suc long, ap (λ l. row ++ l) joins ∙ take-append-drop w post)

  -- A table of at least one column and m full rows has m rows, and one after another they are the
  -- table.
  pub joined-rows :
      (t : TraceTable F) (m : ℕ)
      → 0 < t.n_cols
      → length t.table ≡ m * t.n_cols
      → (rs : List (List F)) × (rows t ≡ some rs) × (length rs ≡ m) × (joined rs ≡ t.table)
  unfolding rows
  joined-rows t m pos long =
      let quotient : m * t.n_cols / t.n_cols ≡ m = mul-div_cancel m pos in
      let count : n_rows t ≡ m = ground arith in
      let (rs, p, number, joins) =
        slices_joined t.n_cols m 0 t.table [] t.table refl (omega arith) long in
      (rs, rw count p, number, joins)
