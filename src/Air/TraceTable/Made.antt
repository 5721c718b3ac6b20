-- ===== src/Air/TraceTable/Made.antt =====
-- The rows of a table that was made from columns.
use native.Mathlib.Nat.{mul-le-mul_right}
use lambdaworks_cairo_prover.Prelude.{
  ℕ, suc, ◌+◌, ◌*◌, ◌≤◌, ◌<◌, ◌≡◌, refl, sym, ap, ap₂, ◌∙◌, arith, some, List, [], ◌∷◌, length,
  get_elem?, slice, traverse-get_elem?, some_injective,
}
use lambdaworks_cairo_prover.Air.TraceTable.{TraceTable, get_row, new_from_cols}
use lambdaworks_cairo_prover.Air.TraceTable.Columns.{
  IsRectangular, row_of, row_total, length-row_of, new_from_cols_total, cell-new_from_cols,
}
use lambdaworks_cairo_prover.Air.TraceTable.Concatenate.{slice_cells}

module _ {F : Type 0} where
  -- Lists of one length with the same value at each place are the same.
  same_values :
      (xs ys : List F)
      → length xs ≡ length ys
      → ((i : ℕ) → i < length xs → get_elem? xs i ≡ get_elem? ys i)
      → xs ≡ ys
  same_values [] [] long same = refl
  same_values [] (y ∷ ys) long same = absurd (omega arith)
  same_values (x ∷ xs) [] long same = absurd (omega arith)
  same_values (x ∷ xs) (y ∷ ys) long same =
      ap₂ (λ v vs. v ∷ vs) (some_injective (same 0 (omega arith)))
        (same_values xs ys (omega arith) (λ i lt. same (suc i) (omega arith)))

  -- At least one column is needed.
  pub new_from_cols-some :
      (cs : List (List F)) (t : TraceTable F) → new_from_cols cs ≡ some t → 0 < length cs
  unfolding new_from_cols
  new_from_cols-some [] t h = absurd (cc)
  new_from_cols-some (c ∷ cs) t h = omega arith

  -- A row of the table has the values of that place of the columns.
  pub get_row-new_from_cols :
      (m : ℕ) (cs : List (List F)) (t : TraceTable F) (i : ℕ)
      → IsRectangular m cs
      → new_from_cols cs ≡ some t
      → i < m
      → row_of cs i ≡ get_row t i
  unfolding get_row
  get_row-new_from_cols m cs t i rect h lt =
      let pos = new_from_cols-some cs t h in
      let (u, made, wide, long) = new_from_cols_total m cs pos rect in
      let same : u ≡ t = some_injective (sym made ∙ h) in
      let wide' : t.n_cols ≡ length cs = ap (λ (t : TraceTable F). t.n_cols) (sym same) ∙ wide in
      let long' : length t.table ≡ m * length cs =
        ap (λ (t : TraceTable F). length t.table) (sym same) ∙ long in
      let (ys, row) = row_total i m cs lt rect in
      let within : suc i * length cs ≤ m * length cs = mul-le-mul_right (length cs) lt in
      let (zs, sliced, size, at) = slice_cells t.table (i * length cs) (length cs) (omega arith) in
      row
      ∙ ap some (
          same_values ys zs (length-row_of cs i ys row ∙ sym size) (λ c below.
            traverse-get_elem? (λ col. get_elem? col i) cs ys c row
            ∙ sym
                (cell-new_from_cols m cs t i c rect h lt (omega (arith, length-row_of cs i ys row)))
            ∙ sym (at c (omega (arith, length-row_of cs i ys row)))))
      ∙ sym sliced
      ∙ ap (λ n. slice t.table (i * n) (i * n + n)) (sym wide')
