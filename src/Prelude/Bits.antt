-- ===== src/Prelude/Bits.antt =====
-- Masks and shifts at variables, from the digit recursion that the native operations stand for.
use Prim.Native.Nat.{
  ℕ, zero, suc, ◌+◌, ◌-◌, ◌*◌, ◌/◌, ◌%◌, ◌^◌, ◌≤◌, ◌<◌, min, bit_and, digits, bit_and-bitwise,
}
use mathlib.Core.Path.{◌≡◌, refl, sym, ap, ◌∙◌}
use native.Mathlib.Nat.{
  div-div-eq-div-mul, div-one, pow-suc, add-mul-mod_self_left, mod-eq_of_lt, mod-lt, div-add-mod,
  one-le-pow,
}
use native.Mathlib.Omega.{arith}

-- The conjunction of the lowest `fuel` digits, as far as the first number has any.
abbrev conj : ℕ → ℕ → ℕ → ℕ
conj fuel mask value = digits (λ _. zero) min fuel mask value

-- One turn more changes nothing once the fuel reaches the first number.
conj_once : (fuel mask value : ℕ) → mask ≤ fuel → conj (suc fuel) mask value ≡ conj fuel mask value
conj_once zero zero value enough = refl
conj_once (suc fuel) zero value enough = refl
conj_once zero (suc mask) value enough = ground arith
conj_once (suc fuel) (suc mask) value enough =
    ap (λ high. high * 2 + min (suc mask % 2) (value % 2))
      (conj_once fuel (suc mask / 2) (value / 2) (omega arith))

conj_more :
    (extra fuel mask value : ℕ)
    → mask ≤ fuel
    → conj (extra + fuel) mask value ≡ conj fuel mask value
conj_more zero fuel mask value enough = ap (λ n. conj n mask value) {x = 0 + fuel} (omega arith)
conj_more (suc extra) fuel mask value enough =
    ap (λ n. conj n mask value) {x = suc extra + fuel} {y = suc (extra + fuel)} (omega arith)
    ∙ conj_once (extra + fuel) mask value (omega arith)
    ∙ conj_more extra fuel mask value enough

conj-bit_and : (fuel mask value : ℕ) → mask ≤ fuel → conj fuel mask value ≡ bit_and mask value
conj-bit_and fuel mask value enough =
    ap (λ n. conj n mask value) {x = fuel} {y = (fuel - mask) + mask} (omega arith)
    ∙ conj_more (fuel - mask) mask mask value (omega arith)
    ∙ sym (bit_and-bitwise mask value)

-- The lowest digit of a conjunction, and the rest.
bit_and-digit : (a b : ℕ) → bit_and a b ≡ bit_and (a / 2) (b / 2) * 2 + min (a % 2) (b % 2)
bit_and-digit zero b = ground (arith, conj-bit_and 0 0 b, conj-bit_and 0 0 (b / 2))
bit_and-digit (suc a) b =
    bit_and-bitwise (suc a) b
    ∙ ap (λ high. high * 2 + min (suc a % 2) (b % 2))
        (conj-bit_and a (suc a / 2) (b / 2) (omega arith))

-- Shifting a masked number is masking the shifted number by the shifted mask.
pub bit_and-shift : (k a b : ℕ) → bit_and a b / 2 ^ k ≡ bit_and (a / 2 ^ k) (b / 2 ^ k)
bit_and-shift zero a b = simp div-one
bit_and-shift (suc k) a b =
    simp (pow-suc, ← div-div-eq-div-mul, bit_and-shift k a b)
      (omega (arith, bit_and-digit (a / 2 ^ k) (b / 2 ^ k)))

-- A remainder by twice a number, from the remainder of the half.
mod_double : (a m : ℕ) → 0 < m → a % (m * 2) ≡ a / 2 % m * 2 + a % 2
mod_double a m h =
    ap (λ x. x % (m * 2)) {x = a} {y = (a / 2 % m * 2 + a % 2) + m * 2 * (a / 2 / m)}
      (omega (arith, div-add-mod (a / 2) m))
    ∙ add-mul-mod_self_left (a / 2 % m * 2 + a % 2) (m * 2) (a / 2 / m)
    ∙ mod-eq_of_lt (omega (arith, mod-lt (a / 2) h))

-- An empty mask leaves nothing, by halving at most `bound` times.
bit_and-empty : (bound a : ℕ) → a ≤ bound → bit_and a 0 ≡ 0
bit_and-empty bound zero below = sym (conj-bit_and 0 0 0 (omega arith))
bit_and-empty zero (suc a) below = ground arith
bit_and-empty (suc bound) (suc a) below =
    bit_and-digit (suc a) 0 ∙ omega (arith, bit_and-empty bound (suc a / 2) (omega arith))

mask_half : (m : ℕ) → 0 < m → ((m * 2 - 1) / 2 ≡ m - 1) × ((m * 2 - 1) % 2 ≡ 1)
mask_half m h = (omega arith, omega arith)

-- A mask of `k` ones takes the remainder by 2 ^ k.
pub bit_and-ones : (k a : ℕ) → bit_and a (2 ^ k - 1) ≡ a % 2 ^ k
bit_and-ones zero a = omega (arith, bit_and-empty a a (omega arith))
bit_and-ones (suc k) a =
    let pos_m : 0 < 2 ^ k = one-le-pow k 2 (omega arith) in
    let (half, odd) = mask_half (2 ^ k) pos_m in
    rw (pow-suc, mod_double a (2 ^ k) pos_m)
      (bit_and-digit a (2 ^ k * 2 - 1) ∙ rw (half, odd) (omega (arith, bit_and-ones k (a / 2))))
