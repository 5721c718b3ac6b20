-- ===== src/Prelude/Traverse.antt =====
-- Loops whose turns may panic, over lists and over ranges of indices.
use Prim.Native.Nat.{ℕ, zero, suc, ◌+◌, ◌*◌, ◌≤◌, ◌<◌}
use mathlib.Core.Path.{◌≡◌, refl, sym, ap, ◌∙◌}
use mathlib.Core.List.{List, [], ◌∷◌, ◌++◌}
use mathlib.Core.Option.{Option, some}
use native.Mathlib.Omega.{arith}
use lambdaworks_cairo_prover.Prelude.Lists.{length, get_elem?, length-append, range_from, range}
use lambdaworks_cairo_prover.Prelude.Results.{and_then, traverse, and_then-eq-some}

-- A loop that appends a list at each turn.
abbrev pub flat_traverse {ℓ κ} :
    {A : Type ℓ} {B : Type κ} → (A → Option (List B)) → List A → Option (List B)
flat_traverse f [] = some []
flat_traverse f (a ∷ as') =
    and_then (f a) λ ys. and_then (flat_traverse f as') λ zs. some (ys ++ zs)

module _ {ℓ κ} {A : Type ℓ} {B : Type κ} (f : A → Option B) where
  pub traverse-get_elem? :
      (xs : List A) (ys : List B) (i : ℕ)
      → traverse f xs ≡ some ys
      → get_elem? ys i ≡ and_then (get_elem? xs i) f
  traverse-get_elem? [] [] i h = refl
  traverse-get_elem? [] (y ∷ ys) i h = cc
  traverse-get_elem? (x ∷ xs) zs i h =
      let (y, p, q) = and_then-eq-some (f x) _ h in
      let (ys, r, s) = and_then-eq-some (traverse f xs) _ q in
      at_index i y ys zs p r s (λ k. traverse-get_elem? xs ys k r)
    where
      at_index :
          (k : ℕ) (y : B) (ys zs : List B)
          → f x ≡ some y
          → traverse f xs ≡ some ys
          → some (y ∷ ys) ≡ some zs
          → ((k : ℕ) → get_elem? ys k ≡ and_then (get_elem? xs k) f)
          → get_elem? zs k ≡ and_then (get_elem? (x ∷ xs) k) f
      at_index zero y ys [] p r s ih = cc
      at_index zero y ys (z ∷ zs) p r s ih = cc
      at_index (suc k) y ys [] p r s ih = cc
      at_index (suc k) y ys (z ∷ zs) p r s ih = let e : zs ≡ ys = cc in rw e (ih k)

  pub length-traverse :
      (xs : List A) (ys : List B) → traverse f xs ≡ some ys → length ys ≡ length xs
  length-traverse [] [] h = refl
  length-traverse [] (y ∷ ys) h = cc
  length-traverse (x ∷ xs) zs h =
      let (y, p, q) = and_then-eq-some (f x) _ h in
      let (ys, r, s) = and_then-eq-some (traverse f xs) _ q in
      let e : zs ≡ y ∷ ys = cc in rw e (ap suc (length-traverse xs ys r))

-- A loop over a range depends on its body at the indices of the range only.
pub traverse_congr {κ} :
    {B : Type κ} (f g : ℕ → Option B) (start n : ℕ)
    → ((i : ℕ) → start ≤ i → i < start + n → f i ≡ g i)
    → traverse f (range_from start n) ≡ traverse g (range_from start n)
traverse_congr f g start zero h = refl
traverse_congr f g start (suc n) h = rw (
  h start (omega arith) (omega arith),
  traverse_congr f g (suc start) n (λ i p q. h i (omega arith) (omega arith)),
)

-- Reading every index of a list gives the list.
traverse_behind {ℓ} :
    {A : Type ℓ} (f : ℕ → Option A) (start : ℕ) (xs : List A)
    → ((i : ℕ) → f (start + i) ≡ get_elem? xs i)
    → traverse f (range_from start (length xs)) ≡ some xs
traverse_behind f start [] h = refl
traverse_behind f start (x ∷ xs) h =
    let first : f start ≡ some x = ap f {x = start} {y = start + 0} (omega arith) ∙ h 0 in
    rw (
      first,
      traverse_behind f (suc start) xs
          (λ i. ap f {x = suc start + i} {y = start + suc i} (omega arith) ∙ h (suc i)),
    )

pub traverse_self {ℓ} :
    {A : Type ℓ} (xs : List A) → traverse (get_elem? xs) (range (length xs)) ≡ some xs
traverse_self xs =
    traverse_behind (get_elem? xs) 0 xs (λ i. ap (get_elem? xs) {x = 0 + i} (omega arith))

module _ {κ} {B : Type κ} where
  pub get_elem?_total : (xs : List B) (i : ℕ) → i < length xs → (x : B) × (get_elem? xs i ≡ some x)
  get_elem?_total [] i h = absurd (omega arith)
  get_elem?_total (x ∷ xs) zero h = (x, refl)
  get_elem?_total (x ∷ xs) (suc i) h = get_elem?_total xs i (omega arith)

  pub get_elem?-append_left :
      (i : ℕ) (xs ys : List B) → i < length xs → get_elem? (xs ++ ys) i ≡ get_elem? xs i
  get_elem?-append_left i [] ys h = absurd (omega arith)
  get_elem?-append_left zero (x ∷ xs) ys h = refl
  get_elem?-append_left (suc i) (x ∷ xs) ys h = get_elem?-append_left i xs ys (omega arith)

  pub get_elem?-append_right :
      (i k : ℕ) (xs ys : List B) → k ≡ length xs + i → get_elem? (xs ++ ys) k ≡ get_elem? ys i
  get_elem?-append_right i k [] ys h = ap (get_elem? ys) (omega arith)
  get_elem?-append_right i zero (x ∷ xs) ys h = absurd (omega arith)
  get_elem?-append_right i (suc k) (x ∷ xs) ys h = get_elem?-append_right i k xs ys (omega arith)

-- A loop that appends rows of `n` values: what stands at `r * n + c` is the value `c` of row `r`.
module _ {κ} {B : Type κ} (f : ℕ → Option (List B)) (n : ℕ) where
  pub flat_traverse-get_elem? :
      (start m r c : ℕ) (zs : List B)
      → flat_traverse f (range_from start m) ≡ some zs
      → ((i : ℕ) (ys : List B) → f i ≡ some ys → length ys ≡ n)
      → r < m
      → c < n
      → get_elem? zs (r * n + c) ≡ and_then (f (start + r)) λ ys. get_elem? ys c
  flat_traverse-get_elem? start zero r c zs h fits lt lt' = absurd (omega arith)
  flat_traverse-get_elem? start (suc m) zero c zs h fits lt lt' =
      let (ys, p, q) = and_then-eq-some (f start) _ h in
      let (rest, u, v) = and_then-eq-some (flat_traverse f (range_from (suc start) m)) _ q in
      let e : zs ≡ ys ++ rest = cc in
      let here : f (start + 0) ≡ some ys = ap f {x = start + 0} {y = start} (omega arith) ∙ p in
      ap (λ l. get_elem? l (0 * n + c)) e
      ∙ ap (get_elem? (ys ++ rest)) {x = 0 * n + c} {y = c} (omega arith)
      ∙ get_elem?-append_left c ys rest (omega (arith, fits start ys p))
      ∙ ap (λ o. and_then o λ l. get_elem? l c) (sym here)
  flat_traverse-get_elem? start (suc m) (suc r) c zs h fits lt lt' =
      let (ys, p, q) = and_then-eq-some (f start) _ h in
      let (rest, u, v) = and_then-eq-some (flat_traverse f (range_from (suc start) m)) _ q in
      let e : zs ≡ ys ++ rest = cc in
      let move : f (start + suc r) ≡ f (suc start + r) =
        ap f {x = start + suc r} {y = suc start + r} (omega arith) in
      ap (λ l. get_elem? l (suc r * n + c)) e
      ∙ get_elem?-append_right (r * n + c) (suc r * n + c) ys rest (omega (arith, fits start ys p))
      ∙ flat_traverse-get_elem? (suc start) m r c rest u fits (omega arith) lt'
      ∙ ap (λ o. and_then o λ l. get_elem? l c) (sym move)

  pub flat_range-get_elem? :
      (m r c : ℕ) (zs : List B)
      → flat_traverse f (range m) ≡ some zs
      → ((i : ℕ) (ys : List B) → f i ≡ some ys → length ys ≡ n)
      → r < m
      → c < n
      → get_elem? zs (r * n + c) ≡ and_then (f r) λ ys. get_elem? ys c
  flat_range-get_elem? m r c zs h fits lt lt' =
      flat_traverse-get_elem? 0 m r c zs h fits lt lt'
      ∙ ap (λ k. and_then (f k) λ ys. get_elem? ys c) {x = 0 + r} (omega arith)

  pub length-flat_traverse :
      (start m : ℕ) (zs : List B)
      → flat_traverse f (range_from start m) ≡ some zs
      → ((i : ℕ) (ys : List B) → f i ≡ some ys → length ys ≡ n)
      → length zs ≡ m * n
  length-flat_traverse start zero [] h fits = omega arith
  length-flat_traverse start zero (z ∷ zs) h fits = cc
  length-flat_traverse start (suc m) zs h fits =
      let (ys, p, q) = and_then-eq-some (f start) _ h in
      let (rest, u, v) = and_then-eq-some (flat_traverse f (range_from (suc start) m)) _ q in
      let e : zs ≡ ys ++ rest = cc in
      rw e (
        omega (
          arith,
          length-append ys rest,
          fits start ys p,
          length-flat_traverse (suc start) m rest u fits,
        ))

  -- The loop ends if each of its turns does.
  pub flat_traverse_total :
      (start m : ℕ)
      → ((i : ℕ) → i < start + m → (ys : List B) × (f i ≡ some ys))
      → (zs : List B) × (flat_traverse f (range_from start m) ≡ some zs)
  flat_traverse_total start zero h = ([], refl)
  flat_traverse_total start (suc m) h =
      let (ys, p) = h start (omega arith) in
      let (zs, q) = flat_traverse_total (suc start) m (λ i lt. h i (omega arith)) in
      (ys ++ zs, rw (p, q))
