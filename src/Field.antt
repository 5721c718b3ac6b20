-- ===== src/Field.antt =====
-- The finite field over which the prover works: `FieldElement` of lambdaworks-math, alias `FE` of
-- src/lib.rs, which the repository only calls. Its operations are the fields of a record, with the
-- documented laws of a commutative ring; inverses and the encoding are records of their own.
pub mod Laws
pub mod Zmod
pub mod Ring
pub mod Powers
use lambdaworks_cairo_prover.Prelude.{
  ℕ, suc, ◌-◌, ◌/◌, ◌%◌, ◌^◌, ◌<◌, ◌≡◌, ◌≢◌, ◌↔◌, Bool, true, Option, some, List, get_or, length,
}

-- `from` is `From<u64>`, `representative` the canonical number below the modulus, and
-- `to_bytes_be` and `to_bytes_le` its 32 bytes, most and least significant first; `from_bytes_le`
-- reads such bytes back, and is `none` where there are too few.
pub record Field (F : Type 0) : Type 0 where
  pub zero : F
  pub one : F
  pub add : F → F → F
  pub sub : F → F → F
  pub mul : F → F → F
  pub neg : F → F
  pub inv : F → F
  pub div : F → F → F
  pub pow : F → ℕ → F
  pub from : ℕ → F
  pub beq : F → F → Bool
  pub representative : F → ℕ
  pub to_bytes_be : F → List ℕ
  pub to_bytes_le : F → List ℕ
  pub from_bytes_le : List ℕ → Option F
  pub add_assoc : (a b c : F) → add (add a b) c ≡ add a (add b c)
  pub add_comm : (a b : F) → add a b ≡ add b a
  pub zero-add : (a : F) → add zero a ≡ a
  pub add-neg : (a : F) → add a (neg a) ≡ zero
  pub sub_def : (a b : F) → sub a b ≡ add a (neg b)
  pub mul_assoc : (a b c : F) → mul (mul a b) c ≡ mul a (mul b c)
  pub mul_comm : (a b : F) → mul a b ≡ mul b a
  pub one-mul : (a : F) → mul one a ≡ a
  pub mul-add : (a b c : F) → mul a (add b c) ≡ add (mul a b) (mul a c)
  pub div_def : (a b : F) → div a b ≡ mul a (inv b)
  pub pow-zero : (a : F) → pow a 0 ≡ one
  pub pow-suc : (a : F) (n : ℕ) → pow a (suc n) ≡ mul (pow a n) a
  pub from-zero : from 0 ≡ zero
  pub from-suc : (n : ℕ) → from (suc n) ≡ add (from n) one
  pub beq_iff : (a b : F) → (beq a b ≡ true) ↔ (a ≡ b)

-- `inv` inverts what is not zero, and zero is not one.
pub record HasInverses {F : Type 0} (K : Field F) : Type 0 where
  pub mul-inv : (a : F) → a ≢ K.zero → K.mul a (K.inv a) ≡ K.one
  pub one-ne-zero : K.one ≢ K.zero

-- The modulus leaves room for every 64-bit word, and the bytes are those of the representative.
pub record HasWords {F : Type 0} (K : Field F) : Type 0 where
  pub representative-from : (n : ℕ) → n < 2 ^ 64 → K.representative (K.from n) ≡ n
  pub from-representative : (a : F) → K.representative a < 2 ^ 64 → K.from (K.representative a) ≡ a
  pub length-to_bytes_be : (a : F) → length (K.to_bytes_be a) ≡ 32
  pub get_or-to_bytes_be :
      (a : F) (i : ℕ)
      → i < 32
      → get_or (K.to_bytes_be a) i 0 ≡ K.representative a / 256 ^ (31 - i) % 256

-- Thirty-two bytes are always read, and reading inverts writing.
pub record HasBytes {F : Type 0} (K : Field F) : Type 0 where
  pub length-to_bytes_le : (a : F) → length (K.to_bytes_le a) ≡ 32
  pub from_bytes_le-to_bytes_le : (a : F) → K.from_bytes_le (K.to_bytes_le a) ≡ some a
  pub from_bytes_le_total : (bs : List ℕ) → length bs ≡ 32 → (a : F) × (K.from_bytes_le bs ≡ some a)

module _ {F : Type 0} ⦃K : Field F⦄ where
  infixl 65 ◌⊕◌ ◌⊖◌
  infixl 70 ◌⊗◌ ◌⊘◌
  abbrev pub ◌⊕◌ : F → F → F
  a ⊕ b = K.add a b

  abbrev pub ◌⊖◌ : F → F → F
  a ⊖ b = K.sub a b

  abbrev pub ◌⊗◌ : F → F → F
  a ⊗ b = K.mul a b

  abbrev pub ◌⊘◌ : F → F → F
  a ⊘ b = K.div a b
