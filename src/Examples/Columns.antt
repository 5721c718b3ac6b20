-- ===== src/Examples/Columns.antt =====
-- Filled offsets and boundary zerofiers at concrete inputs.
use lambdaworks_cairo_prover.Prelude.{
  ℕ, ◌%◌, ◌≤◌, ◌≡◌, ◌⊎◌, ◌↔◌, refl, List, [], ◌∷◌, length, some, Bool, zip, Ascending, count,
}
use lambdaworks_cairo_prover.Field.Zmod.{F17, f17, f17-HasInverses}
use lambdaworks_cairo_prover.Air.Boundary.{BoundaryConstraints, steps, compute_zerofier}
use lambdaworks_cairo_prover.Air.Boundary.Zerofier.{AtStep, compute_zerofier-AtStep}
use lambdaworks_cairo_prover.Air.Cairo.Auxiliary.{sort_columns_by_memory_address}
use lambdaworks_cairo_prover.Air.Cairo.Sorting.{sort_columns_by_memory_address_lem}
use lambdaworks_cairo_prover.Air.Cairo.MainTrace.{last, fill}
use lambdaworks_cairo_prover.Air.Cairo.MissingValues.{Among, fill_lem}

abbrev sorted : List ℕ
sorted = 3 ∷ 3 ∷ 5 ∷ 9 ∷ []

last-sorted : last sorted ≡ some 9
unfolding last
last-sorted = refl

fill_lem_example :
    ((n : ℕ) → 3 ≤ n → n ≤ 9 → Among n sorted ⊎ Among n (fill sorted 9))
    × (length (fill sorted 9) % 3 ≡ 0)
fill_lem_example = fill_lem sorted 3 9 refl last-sorted

abbrev constraints : BoundaryConstraints F17
constraints = record {
  constraints =
      record { col = 0; step = 1; value = f17.from 4 }
      ∷ record { col = 2; step = 3; value = f17.from 5 }
      ∷ [];
}

compute_zerofier-AtStep_example :
    (compute_zerofier ⦃K = f17⦄ constraints (f17.from 2) 2 (f17.from 8) ≡ f17.zero)
    ↔ AtStep ⦃K = f17⦄ (f17.from 2) (f17.from 8) (steps constraints 2)
compute_zerofier-AtStep_example =
    compute_zerofier-AtStep ⦃K = f17⦄ f17-HasInverses constraints (f17.from 2) 2 (f17.from 8)

abbrev columns : List F17 × List F17
columns = (f17.from 5 ∷ f17.from 2 ∷ f17.from 5 ∷ [], f17.from 1 ∷ f17.from 7 ∷ f17.from 1 ∷ [])

sort_columns_by_memory_address_example :
    (let (addresses', values') = sort_columns_by_memory_address ⦃K = f17⦄ columns.0 columns.1 in
      Ascending f17.representative addresses'
      × ((test : F17 × F17 → Bool)
          → count test (zip addresses' values') ≡ count test (zip columns.0 columns.1)))
sort_columns_by_memory_address_example =
    sort_columns_by_memory_address_lem ⦃K = f17⦄ columns.0 columns.1
