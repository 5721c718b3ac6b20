-- ===== src/Air/Cairo/Sorting.antt =====
-- The sorted memory columns.
use lambdaworks_cairo_prover.Prelude.{
  ℕ, ◌≡◌, refl, ap, ◌∙◌, Bool, List, [], ◌∷◌, map, zip, unzip, sort_by, Ascending,
  sort_by-Ascending, count, count-sort_by,
}
use lambdaworks_cairo_prover.Field.{Field}
use lambdaworks_cairo_prover.Air.Cairo.Auxiliary.{sort_columns_by_memory_address}

module _ {F : Type 0} where
  zip-unzip : (ps : List (F × F)) → zip (unzip ps).0 (unzip ps).1 ≡ ps
  zip-unzip [] = refl
  zip-unzip (p ∷ ps) = ap (λ qs. p ∷ qs) (zip-unzip ps)

  Ascending-map :
      (key : F → ℕ) (ps : List (F × F))
      → Ascending (λ (p : F × F). key p.0) ps
      → Ascending key (map (λ p. p.0) ps)
  Ascending-map key [] h = tt
  Ascending-map key (p ∷ []) h = tt
  Ascending-map key (p ∷ q ∷ ps) h = (h.0, Ascending-map key (q ∷ ps) h.1)

-- The sorted addresses ascend by their representatives, and the sorted pairs of an address and a
-- value are the given ones: every test on pairs accepts as many of them after as before.
pub sort_columns_by_memory_address_lem :
    {F : Type 0} ⦃K : Field F⦄ (adresses values : List F)
    → (let (addresses', values') = sort_columns_by_memory_address adresses values in
        Ascending K.representative addresses'
        × ((test : F × F → Bool)
            → count test (zip addresses' values') ≡ count test (zip adresses values)))
unfolding sort_columns_by_memory_address
sort_columns_by_memory_address_lem {F} ⦃K⦄ adresses values =
    let key = λ (c : F × F). K.representative c.0 in
    let sorted = sort_by key (zip adresses values) in
    (
      Ascending-map K.representative sorted (sort_by-Ascending key (zip adresses values)),
      λ test. ap (count test) (zip-unzip sorted) ∙ count-sort_by key test (zip adresses values),
    )
