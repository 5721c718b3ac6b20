-- ===== src/Stark/OpenedFrame.antt =====
-- The frame of a proof: the rows that `prove` flattens are read back by the verifier.
use native.Mathlib.Nat.{suc-mul, mul-div_cancel}
use lambdaworks_cairo_prover.Prelude.{
  ℕ, suc, ◌+◌, ◌*◌, ◌/◌, ◌<◌, ◌≡◌, refl, sym, ap, ◌∙◌, arith, some, List, [], ◌∷◌, ◌++◌, length,
  All, All-append, false, range_from, slice, slice-append, append_assoc, length-append,
  flat_traverse, ◌==◌,
}
use lambdaworks_cairo_prover.Air.Frame.{Frame, frame_row, num_rows}
use lambdaworks_cairo_prover.Stark.Prove.{flatten}
use lambdaworks_cairo_prover.Stark.Verifier.{frame_elements}

-- The frame that holds the rows.
abbrev pub frame_of : {F : Type 0} → List (List F) → ℕ → Frame F
frame_of rows width = record { data_rows = flatten rows; row_width = width }

module _ {F : Type 0} where
  pub length-flatten :
      (rows : List (List F)) (width : ℕ)
      → All (λ (row : List F). length row ≡ width) rows
      → length (flatten rows) ≡ length rows * width
  length-flatten [] width h = omega arith
  length-flatten (row ∷ rows) width (h, hs) = omega (
    arith,
    length-append row (flatten rows),
    length-flatten rows width hs,
    suc-mul (length rows) width,
  )

  flatten-append : (xs ys : List (List F)) → flatten (xs ++ ys) ≡ flatten xs ++ flatten ys
  flatten-append [] ys = refl
  flatten-append (x ∷ xs) ys = rw (flatten-append xs ys, append_assoc x (flatten xs)) refl

  -- Row `length pre` of a frame is the one that stands there.
  pub frame_row-frame_of :
      (all pre rows : List (List F)) (row : List F) (width start : ℕ)
      → All (λ (row : List F). length row ≡ width) pre
      → length row ≡ width
      → all ≡ pre ++ (row ∷ rows)
      → start ≡ length pre
      → frame_row (frame_of all width) start ≡ some row
  unfolding frame_row
  frame_row-frame_of all pre rows row width start hp h e k =
      let before : start * width ≡ length (flatten pre) =
        ap (λ n. n * width) k ∙ sym (length-flatten pre width hp) in
      ap (λ l. slice l (start * width) (start * width + width))
        (ap flatten e ∙ flatten-append pre (row ∷ rows))
      ∙ slice-append (start * width) (start * width + width) (flatten pre) row (flatten rows) before
          (omega (arith, before, h))

  rows_from :
      (all pre rows : List (List F)) (width start : ℕ)
      → All (λ (row : List F). length row ≡ width) pre
      → All (λ (row : List F). length row ≡ width) rows
      → all ≡ pre ++ rows
      → start ≡ length pre
      → flat_traverse (frame_row (frame_of all width)) (range_from start (length rows))
        ≡ some (flatten rows)
  rows_from all pre [] width start hp hr e k = refl
  rows_from all pre (row ∷ rows) width start hp (h, hs) e k =
      let here = frame_row-frame_of all pre rows row width start hp h e k in
      let rest =
        rows_from all (pre ++ (row ∷ [])) rows width (suc start)
          (All-append (λ (row : List F). length row ≡ width) pre (row ∷ []) hp (h, _)) hs
          (e ∙ sym (append_assoc pre (row ∷ []) rows))
          (omega (arith, length-append pre (row ∷ []), k)) in
      rw (here, rest) refl

  pub num_rows-frame_of :
      (rows : List (List F)) (width : ℕ)
      → 0 < width
      → All (λ (row : List F). length row ≡ width) rows
      → num_rows (frame_of rows width) ≡ length rows
  num_rows-frame_of rows width pos h =
      ap (λ n. n / width) (length-flatten rows width h) ∙ mul-div_cancel (length rows) pos

  pub frame_elements-frame_of :
      (rows : List (List F)) (width : ℕ)
      → 0 < width
      → All (λ (row : List F). length row ≡ width) rows
      → frame_elements (frame_of rows width) ≡ some (flatten rows)
  unfolding frame_elements
  frame_elements-frame_of rows width pos h =
      let test : (width == 0) ≡ false = ground arith in
      rw (test, num_rows-frame_of rows width pos h) (rows_from rows [] rows width 0 _ h refl refl)
