-- ===== src/Air/Cairo/MissingValues.antt =====
-- The values with which `get_missing_values_offset_columns` fills the offset columns.
use lambdaworks_cairo_prover.Prelude.{
  ℕ, zero, suc, ◌+◌, ◌-◌, ◌*◌, ◌/◌, ◌%◌, ◌≤◌, ◌<◌, ◌≡◌, ◌⊎◌, inl, inr, refl, ap, arith, false, some,
  List, [], ◌∷◌, ◌++◌, length, length-append, get_elem?, range_from, replicate, ◌==◌,
}
use native.Mathlib.Decide.{ℕ_discrete, dec_le}
use lambdaworks_cairo_prover.Air.Cairo.MainTrace.{between, missing, last, fill}

-- The number is among those of the list.
abbrev pub Among : ℕ → List ℕ → Type 0
Among n [] = ⊥
Among n (x ∷ xs) = (n ≡ x) ⊎ Among n xs

Among-append_left : (n : ℕ) (xs ys : List ℕ) → Among n xs → Among n (xs ++ ys)
Among-append_left n [] ys h = absurd h
Among-append_left n (x ∷ xs) ys (inl e) = inl e
Among-append_left n (x ∷ xs) ys (inr h) = inr (Among-append_left n xs ys h)

Among-append_right : (n : ℕ) (xs ys : List ℕ) → Among n ys → Among n (xs ++ ys)
Among-append_right n [] ys h = h
Among-append_right n (x ∷ xs) ys h = inr (Among-append_right n xs ys h)

Among-range_from : (start k n : ℕ) → start ≤ n → n < start + k → Among n (range_from start k)
Among-range_from start zero n p q = absurd (omega arith)
Among-range_from start (suc k) n p q = elim (ℕ_discrete n start) [
  | yes e ↦ inl e
  | no h ↦ inr (Among-range_from (suc start) k n (omega arith) (omega arith))
]

Among-between : (a b n : ℕ) → a < n → n < b → Among n (between a b)
unfolding between
Among-between a b n p q =
    let differ : (b == a) ≡ false = ground arith in
    rw differ (Among-range_from (a + 1) (b - (a + 1)) n (omega arith) (omega arith))

covered :
    (xs : List ℕ) (least greatest n : ℕ)
    → get_elem? xs 0 ≡ some least
    → last xs ≡ some greatest
    → least ≤ n
    → n ≤ greatest
    → Among n xs ⊎ Among n (missing xs)
unfolding missing last
covered [] least greatest n h l p q = cc
covered (a ∷ []) least greatest n h l p q = inl (inl (ground arith))
covered (a ∷ b ∷ rest) least greatest n h l p q = elim (dec_le b n) [
  | yes le ↦ elim (covered (b ∷ rest) b greatest n refl l le q) [
    | inl m ↦ inl (inr m)
    | inr m ↦ inr (Among-append_right n (between a b) (missing (b ∷ rest)) m)
  ]
  | no lt ↦ elim (ℕ_discrete n a) [
    | yes e ↦ inl (inl e)
    | no ne ↦
        let above : a < n = ground arith in
        inr (
          Among-append_left n (between a b) (missing (b ∷ rest))
            (Among-between a b n above (omega arith)))
  ]
]

length-replicate : (k n : ℕ) → length (replicate k n) ≡ k
length-replicate zero n = refl
length-replicate (suc k) n = ap suc (length-replicate k n)

-- With the values that fill them up, the offsets from the first of the list to its last are
-- complete: every number from the one to the other is in the list or among the values, which are a
-- multiple of three in number.
pub fill_lem :
    (sorted : List ℕ) (least greatest : ℕ)
    → get_elem? sorted 0 ≡ some least
    → last sorted ≡ some greatest
    → ((n : ℕ) → least ≤ n → n ≤ greatest → Among n sorted ⊎ Among n (fill sorted greatest))
      × (length (fill sorted greatest) % 3 ≡ 0)
unfolding fill
fill_lem sorted least greatest h l =
    let values = missing sorted in
    let pad = (length values + 2) / 3 * 3 - length values in
    (
      λ n p q. elim (covered sorted least greatest n h l p q) [
        | inl m ↦ inl m
        | inr m ↦ inr (Among-append_left n values (replicate pad greatest) m)
      ],
      omega (arith, length-append values (replicate pad greatest), length-replicate pad greatest),
    )
