-- ===== src/Stark/Backend.antt =====
-- What the prover and the verifier call of lambdaworks-math, lambdaworks-fft and lambdaworks-crypto,
-- as the fields of a record, and the domains of src/lib.rs. A polynomial is the list of its
-- coefficients.
use lambdaworks_cairo_prover.Prelude.{
  ℕ, zero, suc, ◌*◌, ◌/◌, ◌%◌, ◌^◌, ◌≤◌, ◌<◌, ◌≡◌, Bool, true, length, get_elem?, Option, some,
  List, and_then, ◌==◌, if◌then◌else◌,
}
use lambdaworks_cairo_prover.Field.{Field}
use lambdaworks_cairo_prover.Air.Context.{AirContext}
use lambdaworks_cairo_prover.Fri.Fold.{evaluate}

-- `evaluate_offset_fft p blowup size offset` are the values of `p` on the coset of `offset` with
-- `blowup * size` points, `ruffini_division p b` is `p` divided by `X - b` without the remainder, and
-- `get_proof_by_pos` and `verify` are those of a Merkle tree and of its paths. The transforms are
-- those of sizes for which a root of unity is there.
pub record Backend (F Tree AuthPath : Type 0) : Type 0 where
  pub poly_add : List F → List F → List F
  pub poly_sub : List F → List F → List F
  pub poly_mul : List F → List F → List F
  pub poly_div : List F → List F → List F
  pub poly_degree : List F → ℕ
  pub new_monomial : F → ℕ → List F
  pub ruffini_division : List F → F → List F
  pub even_odd_decomposition : List F → List F × List F
  pub interpolate : List F → List F → Option (List F)
  pub interpolate_fft : List F → List F
  pub interpolate_offset_fft : List F → F → List F
  pub evaluate_offset_fft : List F → ℕ → ℕ → F → List F
  pub get_primitive_root_of_unity : ℕ → Option F
  pub get_powers_of_primitive_root_coset : ℕ → ℕ → F → Option (List F)
  pub build : List F → Tree
  pub root : Tree → F
  pub get_proof_by_pos : Tree → ℕ → Option AuthPath
  pub verify : AuthPath → F → ℕ → F → Bool

-- Sums, differences and products of polynomials are those of their values, as are monomials; so is a division by
-- `X - b`, up to the remainder.
pub record HasPolynomials {F Tree AuthPath : Type 0} (K : Field F) (B : Backend F Tree AuthPath)
    : Type 0 where
  pub evaluate-poly_add :
      (p q : List F) (x : F)
      → evaluate ⦃K = K⦄ (B.poly_add p q) x ≡ K.add (evaluate ⦃K = K⦄ p x) (evaluate ⦃K = K⦄ q x)
  pub evaluate-poly_sub :
      (p q : List F) (x : F)
      → evaluate ⦃K = K⦄ (B.poly_sub p q) x ≡ K.sub (evaluate ⦃K = K⦄ p x) (evaluate ⦃K = K⦄ q x)
  pub evaluate-poly_mul :
      (p q : List F) (x : F)
      → evaluate ⦃K = K⦄ (B.poly_mul p q) x ≡ K.mul (evaluate ⦃K = K⦄ p x) (evaluate ⦃K = K⦄ q x)
  pub evaluate-new_monomial :
      (a x : F) (n : ℕ) → evaluate ⦃K = K⦄ (B.new_monomial a n) x ≡ K.mul a (K.pow x n)
  pub evaluate-ruffini_division :
      (p : List F) (b x : F)
      → evaluate ⦃K = K⦄ p x
        ≡ K.add
            (K.mul (K.sub x b) (evaluate ⦃K = K⦄ (B.ruffini_division p b) x))
            (evaluate ⦃K = K⦄ p b)

-- `trailing_zeros` of a word of `bits` bits.
unfoldable pub trailing_zeros : ℕ → ℕ → ℕ
trailing_zeros zero n = 0
trailing_zeros (suc bits) n =
    let rest = trailing_zeros bits (n / 2) in if n % 2 == 0 then suc rest else 0

-- The values of a polynomial of at most `size` coefficients are those at the points of the coset, and
-- the points of a coset are as many as asked for.
pub record HasTransforms {F Tree AuthPath : Type 0} (K : Field F) (B : Backend F Tree AuthPath)
    : Type 0 where
  pub length-evaluate_offset_fft :
      (p : List F) (blowup size : ℕ) (offset : F)
      → length p ≤ size
      → length (B.evaluate_offset_fft p blowup size offset) ≡ blowup * size
  pub get_elem?-evaluate_offset_fft :
      (p : List F) (blowup size : ℕ) (offset : F) (points : List F) (i : ℕ) (x : F)
      → length p ≤ size
      → B.get_powers_of_primitive_root_coset
          (trailing_zeros 64 (blowup * size))
          (blowup * size)
          offset
        ≡ some points
      → get_elem? points i ≡ some x
      → get_elem? (B.evaluate_offset_fft p blowup size offset) i ≡ some (evaluate ⦃K = K⦄ p x)
  pub length-get_powers_of_primitive_root_coset :
      (order count : ℕ) (offset : F) (points : List F)
      → B.get_powers_of_primitive_root_coset order count offset ≡ some points
      → length points ≡ count

-- The path that a tree gives for a leaf is accepted with the root of the tree.
pub record HasPaths {F Tree AuthPath : Type 0} (B : Backend F Tree AuthPath) : Type 0 where
  pub verify-get_proof_by_pos :
      (leaves : List F) (i : ℕ) (leaf : F) (path : AuthPath)
      → get_elem? leaves i ≡ some leaf
      → B.get_proof_by_pos (B.build leaves) i ≡ some path
      → B.verify path (B.root (B.build leaves)) i leaf ≡ true

-- The roots of unity of the orders that are there: the points of a coset are the powers of the root
-- times the offset, the root of an order is the square of that of the next one, and the power of a
-- root at half of its order is minus one.
pub record HasRoots {F Tree AuthPath : Type 0} (K : Field F) (B : Backend F Tree AuthPath)
    : Type 0 where
  pub coset_of_root :
      (order : ℕ) (w offset : F)
      → B.get_primitive_root_of_unity order ≡ some w
      → (points : List F) × (B.get_powers_of_primitive_root_coset order (2 ^ order) offset
          ≡ some points)
        × ((i : ℕ) → i < 2 ^ order → get_elem? points i ≡ some (K.mul offset (K.pow w i)))
  pub square_of_root :
      (order : ℕ) (w : F)
      → B.get_primitive_root_of_unity (suc (suc order)) ≡ some w
      → B.get_primitive_root_of_unity (suc order) ≡ some (K.mul w w)
  pub half_of_root :
      (order : ℕ) (w : F)
      → B.get_primitive_root_of_unity (suc order) ≡ some w
      → K.pow w (2 ^ order) ≡ K.sub K.zero K.one

pub record Domain (F : Type 0) : Type 0 where
  pub root_order : ℕ
  pub lde_roots_of_unity_coset : List F
  pub lde_root_order : ℕ
  pub trace_primitive_root : F
  pub trace_roots_of_unity : List F
  pub coset_offset : F
  pub blowup_factor : ℕ
  pub interpolation_domain_size : ℕ

module _ {F Tree AuthPath : Type 0} ⦃K : Field F⦄ (B : Backend F Tree AuthPath) where
  -- `Domain::new`; the overflow of `trace_length * blowup_factor` is left out.
  unfoldable pub domain_new : AirContext → Option (Domain F)
  unfolding trailing_zeros
  domain_new context =
      let blowup_factor = context.options.blowup_factor in
      let coset_offset = K.from context.options.coset_offset in
      let interpolation_domain_size = context.trace_length in
      let root_order = trailing_zeros 64 context.trace_length in
      and_then (B.get_primitive_root_of_unity root_order) λ trace_primitive_root.
        and_then (B.get_powers_of_primitive_root_coset root_order interpolation_domain_size K.one)
          λ trace_roots_of_unity.
            let lde_root_order = trailing_zeros 64 (context.trace_length * blowup_factor) in
            and_then
              (B.get_powers_of_primitive_root_coset lde_root_order
                (context.trace_length * blowup_factor) coset_offset)
              λ lde_roots_of_unity_coset. some (record {
                root_order = root_order;
                lde_roots_of_unity_coset = lde_roots_of_unity_coset;
                lde_root_order = lde_root_order;
                trace_primitive_root = trace_primitive_root;
                trace_roots_of_unity = trace_roots_of_unity;
                coset_offset = coset_offset;
                blowup_factor = blowup_factor;
                interpolation_domain_size = interpolation_domain_size;
              })
