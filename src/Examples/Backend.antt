-- ===== src/Examples/Backend.antt =====
-- The field of 17 elements, whose group of 16 elements has 3 as a generator, as the field of a proof:
-- transforms by evaluation and interpolation, and trees that are their leaves.
use lambdaworks_cairo_prover.Prelude.{
  ℕ, zero, suc, ◌+◌, ◌-◌, ◌*◌, ◌/◌, ◌^◌, Bool, false, ◌&&◌, Option, some, none, List, [], ◌∷◌, map,
  length, take, get_elem?, leb, if◌then◌else◌,
}
use lambdaworks_cairo_prover.Field.Zmod.{F17, f17, zmod}
use lambdaworks_cairo_prover.Transcript.{Transcript}
use lambdaworks_cairo_prover.Fri.Fold.{evaluate, evens, odds, add_padded, evaluate-add_padded}
use lambdaworks_cairo_prover.Stark.Backend.{Backend, HasPolynomials, trailing_zeros}
use lambdaworks_cairo_prover.Examples.Polynomials.{
  poly_sub, poly_mul, poly_div, ruffini, interpolate, monomial, evaluate-poly_sub,
  evaluate-poly_mul, evaluate-ruffini, evaluate-monomial,
}

abbrev pub num : ℕ → F17
num n = f17.from n

abbrev pub root_of_order : ℕ → F17
root_of_order k = f17.pow (num 3) (16 / 2 ^ k)

-- `count` points from `offset` on, each the one before times `w`.
unfoldable pub coset_points : F17 → F17 → ℕ → List F17
coset_points w offset zero = []
coset_points w offset (suc n) = offset ∷ coset_points w (f17.mul offset w) n

unfoldable pub domain_points : ℕ → F17 → List F17
unfolding coset_points trailing_zeros
domain_points count offset = coset_points (root_of_order (trailing_zeros 64 count)) offset count

unfoldable pub holds_leaf : Option F17 → F17 → Bool
holds_leaf none leaf = false
holds_leaf (some x) leaf = f17.beq x leaf

-- The value at 5 of the polynomial of the leaves stands for the hash.
abbrev pub root_of : List F17 → F17
root_of leaves = evaluate ⦃K = f17⦄ leaves (num 5)

unfoldable pub backend : Backend F17 (List F17) (List F17)
unfolding add_padded poly_sub poly_mul poly_div monomial ruffini evens odds interpolate
    domain_points holds_leaf
backend = record {
  poly_add = add_padded ⦃K = f17⦄;
  poly_sub = poly_sub ⦃K = f17⦄;
  poly_mul = poly_mul ⦃K = f17⦄;
  poly_div = poly_div ⦃K = f17⦄;
  poly_degree = λ p. length p - 1;
  new_monomial = monomial ⦃K = f17⦄;
  ruffini_division = ruffini ⦃K = f17⦄;
  even_odd_decomposition = λ p. (evens ⦃K = f17⦄ p, odds ⦃K = f17⦄ p);
  interpolate = λ xs ys. some (interpolate ⦃K = f17⦄ xs ys);
  interpolate_fft =
      λ ys. take (length ys) (interpolate ⦃K = f17⦄ (domain_points (length ys) (num 1)) ys);
  interpolate_offset_fft =
      λ ys offset. take (length ys) (interpolate ⦃K = f17⦄ (domain_points (length ys) offset) ys);
  evaluate_offset_fft =
      λ p blowup size offset. map (evaluate ⦃K = f17⦄ p) (domain_points (blowup * size) offset);
  get_primitive_root_of_unity = λ order. if leb order 4 then some (root_of_order order) else none;
  get_powers_of_primitive_root_coset = λ order count offset.
      if leb order 4 then some (coset_points (root_of_order order) offset count) else none;
  build = λ leaves. leaves;
  root = root_of;
  get_proof_by_pos = λ leaves i. some leaves;
  verify = λ path root i leaf. f17.beq (root_of path) root && holds_leaf (get_elem? path i) leaf;
}

pub backend-HasPolynomials : HasPolynomials f17 backend
unfolding backend
backend-HasPolynomials = record {
  evaluate-poly_add = evaluate-add_padded ⦃K = f17⦄;
  evaluate-poly_sub = evaluate-poly_sub ⦃K = f17⦄;
  evaluate-poly_mul = evaluate-poly_mul ⦃K = f17⦄;
  evaluate-new_monomial = evaluate-monomial ⦃K = f17⦄;
  evaluate-ruffini_division = λ p b x. evaluate-ruffini ⦃K = f17⦄ p b x;
}

-- A transcript that counts.
unfoldable pub counter : Transcript ℕ
counter = record {
  append = λ bytes t. t + 1;
  challenge = λ t. (0 ∷ 0 ∷ 0 ∷ 0 ∷ 0 ∷ 0 ∷ 0 ∷ t ∷ [], t + 5);
}
