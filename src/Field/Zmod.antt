-- ===== src/Field/Zmod.antt =====
-- The integers modulo p: a concrete `Field`, for statements at concrete inputs.
use native.Mathlib.Bridge.{le_prop}
use native.Mathlib.Nat
use mathlib.Core.HLevel.{Σ_prop_path}
use lambdaworks_cairo_prover.Prelude.{
  ℕ, zero, suc, ◌+◌, ◌-◌, ◌*◌, ◌/◌, ◌%◌, ◌^◌, ◌≤◌, ◌<◌, ◌≡◌, ◌↔◌, ◌≢◌, refl, sym, ap, ◌∙◌, arith,
  Bool, true, ◌&&◌, ◌||◌, List, [], ◌∷◌, length, get_or, ◌==◌, ==_iff, leb, to_le_bytes,
  from_le_bytes, length-to_le_bytes, from_le_bytes-to_le_bytes, if◌then◌else◌, some, none,
}
use lambdaworks_cairo_prover.Field.{Field, HasInverses, HasWords, HasBytes}

-- The numbers below `p`.
abbrev pub Zmod : ℕ → Type 0
Zmod p = (n : ℕ) × (n < p)

pub mod-mul-mod : (a b p : ℕ) → a % p * b % p ≡ a * b % p
mod-mul-mod a b p =
    sym (Nat.add-mul-mod_self_left (a % p * b) p (a / p * b))
    ∙ ap (λ x. x % p)
        (rw (← Nat.mul_assoc, ← Nat.add-mul)
          (ap (λ x. x * b) (Nat.add_comm (a % p) (p * (a / p)) ∙ Nat.div-add-mod a p)))

pub mul-mod-mod : (a b p : ℕ) → a * (b % p) % p ≡ a * b % p
mul-mod-mod a b p = rw (Nat.mul_comm a (b % p), Nat.mul_comm a b) (mod-mul-mod b a p)

-- The last `k` bytes of a number, most significant first.
bytes_be : ℕ → ℕ → List ℕ
bytes_be n zero = []
bytes_be n (suc k) = (n / 256 ^ k % 256) ∷ bytes_be n k

length-bytes_be : (n k : ℕ) → length (bytes_be n k) ≡ k
unfolding bytes_be
length-bytes_be n zero = refl
length-bytes_be n (suc k) = ap suc (length-bytes_be n k)

get_or-bytes_be : (n k i : ℕ) → i < k → get_or (bytes_be n k) i 0 ≡ n / 256 ^ (k - 1 - i) % 256
unfolding bytes_be
get_or-bytes_be n zero i h = absurd (omega arith)
get_or-bytes_be n (suc k) zero h = ap (λ e. n / 256 ^ e % 256) {y = suc k - 1 - 0} (omega arith)
get_or-bytes_be n (suc k) (suc i) h =
    get_or-bytes_be n k i (omega arith)
    ∙ ap (λ e. n / 256 ^ e % 256) {x = k - 1 - i} {y = suc k - 1 - suc i} (omega arith)

module _ (p : ℕ) (pos_p : 0 < p) where
  pub Zmod_path : {x y : Zmod p} → x.0 ≡ y.0 → x ≡ y
  Zmod_path h = Σ_prop_path (λ n. le_prop) h

  unfoldable pub reduce : ℕ → Zmod p
  reduce n = (n % p, Nat.mod-lt n pos_p)

  power : Zmod p → ℕ → Zmod p
  power x zero = reduce 1
  power x (suc n) = reduce ((power x n).0 * x.0)

  pub add-neg_lem : (x : Zmod p) → (x.0 + (p - x.0) % p) % p ≡ 0 % p
  add-neg_lem (n, h) =
      Nat.add-mod-mod n (p - n) p
      ∙ ap (λ m. m % p) {x = n + (p - n)} {y = p} (omega arith)
      ∙ Nat.mod_self p
      ∙ sym (Nat.zero-mod p)

  pub zero-add_lem : (x : Zmod p) → (0 % p + x.0) % p ≡ x.0
  zero-add_lem (n, h) = rw (Nat.zero-mod p, Nat.zero-add n) (Nat.mod-eq_of_lt h)

  pub one-mul_lem : (x : Zmod p) → (1 % p * x.0) % p ≡ x.0
  one-mul_lem (n, h) = mod-mul-mod 1 n p ∙ rw (Nat.one-mul n) (Nat.mod-eq_of_lt h)

  pub mul-add_lem : (a b c : ℕ) → a * ((b + c) % p) % p ≡ (a * b % p + a * c % p) % p
  mul-add_lem a b c =
      mul-mod-mod a (b + c) p ∙ rw (Nat.mul-add a b c) (Nat.add-mod (a * b) (a * c) p)

  pub beq_iff_lem : (x y : Zmod p) → ((x.0 == y.0) ≡ true) ↔ (x ≡ y)
  beq_iff_lem x y =
      (λ h. Zmod_path ((==_iff x.0 y.0).0 h), λ h. (==_iff x.0 y.0).1 (ap (λ (z : Zmod p). z.0) h))

  instance unfoldable pub zmod : Field (Zmod p)
  unfolding reduce power bytes_be to_le_bytes from_le_bytes
  zmod = record {
    zero = reduce 0;
    one = reduce 1;
    add = λ x y. reduce (x.0 + y.0);
    sub = λ x y. reduce (x.0 + (p - y.0) % p);
    mul = λ x y. reduce (x.0 * y.0);
    neg = λ x. reduce (p - x.0);
    inv = λ x. power x (p - 2);
    div = λ x y. reduce (x.0 * (power y (p - 2)).0);
    pow = power;
    from = reduce;
    beq = λ x y. x.0 == y.0;
    representative = λ x. x.0;
    to_bytes_be = λ x. bytes_be x.0 32;
    to_bytes_le = λ x. to_le_bytes 32 x.0;
    from_bytes_le = λ bs. if leb 32 (length bs) then some (reduce (from_le_bytes bs)) else none;
    add_assoc = λ a b c. Zmod_path (
        Nat.mod-add-mod (a.0 + b.0) p c.0
        ∙ rw (Nat.add_assoc a.0 b.0 c.0) (sym (Nat.add-mod-mod a.0 (b.0 + c.0) p)));
    add_comm = λ a b. Zmod_path (ap (λ n. n % p) (Nat.add_comm a.0 b.0));
    zero-add = λ a. Zmod_path (zero-add_lem a);
    add-neg = λ a. Zmod_path (add-neg_lem a);
    sub_def = λ a b. refl;
    mul_assoc = λ a b c. Zmod_path (
        mod-mul-mod (a.0 * b.0) c.0 p
        ∙ rw (Nat.mul_assoc a.0 b.0 c.0) (sym (mul-mod-mod a.0 (b.0 * c.0) p)));
    mul_comm = λ a b. Zmod_path (ap (λ n. n % p) (Nat.mul_comm a.0 b.0));
    one-mul = λ a. Zmod_path (one-mul_lem a);
    mul-add = λ a b c. Zmod_path (mul-add_lem a.0 b.0 c.0);
    div_def = λ a b. refl;
    pow-zero = λ a. refl;
    pow-suc = λ a n. refl;
    from-zero = refl;
    from-suc =
        λ n. Zmod_path (ap (λ m. m % p) {x = suc n} {y = n + 1} (omega arith) ∙ Nat.add-mod n 1 p);
    beq_iff = beq_iff_lem;
  }

-- Modulo a number above 2 ^ 64 every word is its own representative.
module _ (p : ℕ) (pos_p : 0 < p) (wide : 2 ^ 64 ≤ p) where
  pub zmod-HasWords : HasWords (zmod p pos_p)
  unfolding zmod
  zmod-HasWords = record {
    representative-from = λ n h. Nat.mod-eq_of_lt (Nat.lt_of_lt_of_le h wide);
    from-representative = λ a h. Zmod_path p pos_p (Nat.mod-eq_of_lt a.1);
    length-to_bytes_be = λ a. length-bytes_be a.0 32;
    get_or-to_bytes_be = λ a i h. get_or-bytes_be a.0 32 i h;
  }

-- Modulo a number of at most 32 bytes the encoding is faithful.
module _ (p : ℕ) (pos_p : 0 < p) (narrow : p ≤ 256 ^ 32) where
  pub zmod-HasBytes : HasBytes (zmod p pos_p)
  unfolding zmod
  zmod-HasBytes = record {
    length-to_bytes_le = λ a. length-to_le_bytes 32 a.0;
    from_bytes_le-to_bytes_le = λ a. ap some (
        Zmod_path p pos_p (
          ap (λ n. n % p) (from_le_bytes-to_le_bytes 32 a.0 (Nat.lt_of_lt_of_le a.1 narrow))
          ∙ Nat.mod-eq_of_lt a.1));
    from_bytes_le_total = λ bs h. (reduce p pos_p (from_le_bytes bs), rw h);
  }

-- The modulus of the Stark field, 2 ^ 251 + 17 * 2 ^ 192 + 1, and the 17 elements of `F17`.
abbrev pub stark_modulus : ℕ
stark_modulus = 2 ^ 251 + 17 * 2 ^ 192 + 1

abbrev pub Stark252 : Type 0
Stark252 = Zmod stark_modulus

unfoldable pub stark252 : Field Stark252
unfolding zmod
stark252 = zmod stark_modulus (omega arith)

pub stark252-HasWords : HasWords stark252
unfolding stark252
stark252-HasWords = zmod-HasWords stark_modulus (omega arith) (omega arith)

abbrev pub F17 : Type 0
F17 = Zmod 17

pub stark252-HasBytes : HasBytes stark252
unfolding stark252
stark252-HasBytes = zmod-HasBytes stark_modulus (omega arith) (omega arith)

unfoldable pub f17 : Field F17
unfolding zmod
f17 = zmod 17 (omega arith)

inverses_below : ℕ → Bool
inverses_below zero = true
inverses_below (suc n) =
    (n == 0 || n * (power 17 (omega arith) (reduce 17 (omega arith) n) 15).0 % 17 == 1)
    && inverses_below n

inverses_table : inverses_below 17 ≡ true
unfolding inverses_below power reduce
inverses_table = refl

inverses_below_sound :
    (m n : ℕ)
    → inverses_below m ≡ true
    → n < m
    → n ≢ 0
    → n * (power 17 (omega arith) (reduce 17 (omega arith) n) 15).0 % 17 ≡ 1
unfolding inverses_below
inverses_below_sound zero n h lt ne = absurd (omega arith)
inverses_below_sound (suc m) n h lt ne = ground (arith, inverses_below_sound m n)

pub f17-HasInverses : HasInverses f17
unfolding f17
f17-HasInverses = record {
  mul-inv = λ a ne. Zmod_path 17 (omega arith) (
      ap (λ (x : F17). a.0 * (power 17 (omega arith) x 15).0 % 17)
        (Zmod_path 17 (omega arith) {x = a} {y = reduce 17 (omega arith) a.0}
          (sym (Nat.mod-eq_of_lt a.1)))
      ∙ inverses_below_sound 17 a.0 inverses_table a.1 (λ e. ne (Zmod_path 17 (omega arith) e)));
  one-ne-zero = λ e. absurd (omega (arith, ap (λ (z : F17). z.0) e));
}
