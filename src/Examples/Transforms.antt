-- ===== src/Examples/Transforms.antt =====
-- The transforms and the trees of the backend over the field of 17 elements.
use lambdaworks_cairo_prover.Prelude.{
  ℕ, zero, suc, ◌*◌, ◌≡◌, refl, sym, ap, ◌∙◌, inl, inr, true, some, List, length, length-map,
  get_elem?, leb, if-cases, some_injective,
}
use lambdaworks_cairo_prover.Field.Zmod.{F17, f17}
use lambdaworks_cairo_prover.Fri.Fold.{evaluate}
use lambdaworks_cairo_prover.Stark.Backend.{HasTransforms, HasPaths, trailing_zeros}
use lambdaworks_cairo_prover.Stark.DeepTerms.{get_elem?-map}
use lambdaworks_cairo_prover.Examples.Backend.{
  backend, coset_points, domain_points, holds_leaf, root_of_order, root_of,
}

length-coset_points : (w offset : F17) (count : ℕ) → length (coset_points w offset count) ≡ count
unfolding coset_points
length-coset_points w offset zero = refl
length-coset_points w offset (suc n) = ap suc (length-coset_points w (f17.mul offset w) n)

coset_of :
    (order count : ℕ) (offset : F17) (points : List F17)
    → backend.get_powers_of_primitive_root_coset order count offset ≡ some points
    → coset_points (root_of_order order) offset count ≡ points
unfolding backend
coset_of order count offset points h = elim (if-cases (leb order 4) _ _ h) [
  | inl (e, taken) ↦ some_injective taken
  | inr (e, taken) ↦ absurd (cc)
]

pub backend-HasTransforms : HasTransforms f17 backend
unfolding backend domain_points
backend-HasTransforms = record {
  length-evaluate_offset_fft = λ p blowup size offset fits.
      length-map (domain_points (blowup * size) offset) (evaluate ⦃K = f17⦄ p)
      ∙ length-coset_points (root_of_order (trailing_zeros 64 (blowup * size))) offset
          (blowup * size);
  get_elem?-evaluate_offset_fft = λ p blowup size offset points i x fits coset point.
      get_elem?-map (evaluate ⦃K = f17⦄ p) (domain_points (blowup * size) offset) i x (
        ap (λ l. get_elem? l i)
          (coset_of (trailing_zeros 64 (blowup * size)) (blowup * size) offset points coset)
        ∙ point);
  length-get_powers_of_primitive_root_coset = λ order count offset points h.
      ap length (sym (coset_of order count offset points h))
      ∙ length-coset_points (root_of_order order) offset count;
}

beq_self : (a : F17) → f17.beq a a ≡ true
beq_self a = (f17.beq_iff a a).1 refl

pub backend-HasPaths : HasPaths backend
unfolding backend holds_leaf
backend-HasPaths = record {
  verify-get_proof_by_pos = λ leaves i leaf path at given.
      let same = some_injective given in
      rw (sym same, at, beq_self (root_of leaves), beq_self leaf) refl;
}
