-- ===== src/Prelude/Sorted.antt =====
-- The sort is ascending and keeps the elements.
use Prim.Native.Nat.{ℕ, ◌≤◌, ◌+◌}
use mathlib.Core.Path.{◌≡◌, refl, ap, ◌∙◌}
use mathlib.Core.Bool.{Bool}
use mathlib.Core.List.{List, [], ◌∷◌}
use native.Mathlib.Omega.{arith}
use lambdaworks_cairo_prover.Prelude.Tests.{if◌then◌else◌}
use lambdaworks_cairo_prover.Prelude.Sort.{insert_by, sort_by}

-- How many elements pass a test.
abbrev pub count : {A : Type 0} → (A → Bool) → List A → ℕ
count test [] = 0
count test (x ∷ xs) = (if test x then 1 else 0) + count test xs

module _ {A : Type 0} (key : A → ℕ) where
  abbrev pub Ascending : List A → Type 0
  Ascending [] = Unit
  Ascending (x ∷ []) = Unit
  Ascending (x ∷ y ∷ ys) = (key x ≤ key y) × Ascending (y ∷ ys)

  insert_by-Ascending : (x : A) (ys : List A) → Ascending ys → Ascending (insert_by key x ys)
  unfolding insert_by
  insert_by-Ascending x [] h = tt
  insert_by-Ascending x (y ∷ []) h = ground arith
  insert_by-Ascending x (y ∷ z ∷ ys) h = let ih = insert_by-Ascending x (z ∷ ys) h.1 in ground arith

  pub sort_by-Ascending : (xs : List A) → Ascending (sort_by key xs)
  unfolding sort_by
  sort_by-Ascending [] = tt
  sort_by-Ascending (x ∷ xs) = insert_by-Ascending x (sort_by key xs) (sort_by-Ascending xs)

  count-insert_by :
      (test : A → Bool) (x : A) (ys : List A)
      → count test (insert_by key x ys) ≡ count test (x ∷ ys)
  unfolding insert_by
  count-insert_by test x [] = refl
  count-insert_by test x (y ∷ ys) = let ih = count-insert_by test x ys in ground arith

  pub count-sort_by : (test : A → Bool) (xs : List A) → count test (sort_by key xs) ≡ count test xs
  unfolding sort_by
  count-sort_by test [] = refl
  count-sort_by test (x ∷ xs) =
      count-insert_by test x (sort_by key xs)
      ∙ ap (λ n. (if test x then 1 else 0) + n) (count-sort_by test xs)
