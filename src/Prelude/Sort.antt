-- ===== src/Prelude/Sort.antt =====
-- The stable sort of the standard library, by a key.
use Prim.Native.Nat.{ℕ}
use mathlib.Core.List.{List, [], ◌∷◌}
use lambdaworks_cairo_prover.Prelude.Tests.{leb, if◌then◌else◌}

module _ {A : Type 0} (key : A → ℕ) where
  -- Before the first element whose key is not smaller.
  unfoldable pub insert_by : A → List A → List A
  insert_by x [] = x ∷ []
  insert_by x (y ∷ ys) = if leb (key x) (key y) then x ∷ y ∷ ys else y ∷ insert_by x ys

  unfoldable pub sort_by : List A → List A
  unfolding insert_by
  sort_by [] = []
  sort_by (x ∷ xs) = insert_by x (sort_by xs)
