-- ===== src/Air/Cairo/Permutation.antt =====
-- The permutation argument columns against their constraints.
use lambdaworks_cairo_prover.Prelude.{
  ℕ, zero, suc, ◌+◌, ◌<◌, ◌≡◌, ◌≢◌, refl, sym, ap, ◌∙◌, arith, some, List, [], ◌∷◌, length,
  get_elem?, range, range_from, traverse, traverse-get_elem?, and_then-eq-some,
}
use lambdaworks_cairo_prover.Field.{Field, HasInverses, ◌⊖◌, ◌⊗◌, ◌⊘◌}
use lambdaworks_cairo_prover.Field.Laws.{one-mul, sub-eq-zero}
use lambdaworks_cairo_prover.Field.Ring.{var, ◌⊠◌, ring, agree}
use lambdaworks_cairo_prover.Air.Cairo.Constraints.{
  CairoRapChallenges, permutation_step, range_check_step,
}
use lambdaworks_cairo_prover.Air.Cairo.PublicInputs.{memory_factor}
use lambdaworks_cairo_prover.Air.Cairo.Auxiliary.{
  running, products, memory_quotient, generate_memory_permutation_argument_column,
  range_check_quotient, generate_range_check_permutation_argument_column,
}

get_elem?-range : (start n i : ℕ) → i < n → get_elem? (range_from start n) i ≡ some (start + i)
get_elem?-range start zero i h = absurd (omega arith)
get_elem?-range start (suc n) zero h = ap some (omega arith)
get_elem?-range start (suc n) (suc i) h =
    get_elem?-range (suc start) n i (omega arith) ∙ ap some (omega arith)

get_elem?-range_zero : (n i : ℕ) → i < n → get_elem? (range n) i ≡ some i
get_elem?-range_zero n i h = get_elem?-range 0 n i h ∙ ap some (omega arith)

get_elem?-lt : {A : Type 0} (xs : List A) (i : ℕ) (a : A) → get_elem? xs i ≡ some a → i < length xs
get_elem?-lt [] i a h = cc
get_elem?-lt (x ∷ xs) zero a h = omega arith
get_elem?-lt (x ∷ xs) (suc i) a h = omega (arith, get_elem?-lt xs i a h)

module _ {F : Type 0} ⦃K : Field F⦄ where
  running-step :
      (fs : List F) (i : ℕ) (f p p_next g : F)
      → get_elem? (f ∷ running f fs) i ≡ some p
      → get_elem? (f ∷ running f fs) (suc i) ≡ some p_next
      → get_elem? fs i ≡ some g
      → p_next ≡ p ⊗ g
  unfolding running
  running-step [] i f p p_next g h k l = cc
  running-step (g' ∷ fs) zero f p p_next g h k l = cc
  running-step (g' ∷ fs) (suc i) f p p_next g h k l = running-step fs i (f ⊗ g') p p_next g h k l

  -- Each entry of a column of products is the one before times its factor.
  products-step :
      (fs col : List F) (i : ℕ) (p p_next g : F)
      → products fs ≡ some col
      → get_elem? col i ≡ some p
      → get_elem? col (suc i) ≡ some p_next
      → get_elem? fs (suc i) ≡ some g
      → p_next ≡ p ⊗ g
  unfolding products
  products-step [] col i p p_next g e h k l = cc
  products-step (f ∷ fs) col i p p_next g e h k l =
      let same : col ≡ f ∷ running f fs = cc in
      running-step fs i f p p_next g (sym (ap (λ c. get_elem? c i) same) ∙ h)
        (sym (ap (λ c. get_elem? c (suc i)) same) ∙ k) l

  module _ (V : HasInverses K) where
    quotient-step : (num den p : F) → den ≢ K.zero → den ⊗ (p ⊗ (num ⊘ den)) ≡ num ⊗ p
    unfolding agree
    quotient-step num den p h = rw (K.div_def num den) (
        (let d = var 0 in
          let q = var 1 in
          let n = var 2 in
          let i = var 3 in
          ring (den ∷ p ∷ num ∷ K.inv den ∷ []) (d ⊠ (q ⊠ (n ⊠ i))) ((d ⊠ i) ⊠ (n ⊠ q)) refl)
        ∙ rw (V.mul-inv den h) (one-mul (num ⊗ p)))

    -- In a field with inverses, two neighbours in the memory permutation column, the addresses and values of the later one in
    -- trace order and in sorted order, and a sorted factor that is not zero: then the permutation
    -- constraint between them is zero.
    pub permutation_step-generate_memory_permutation_argument_column :
        (addresses values addresses_sorted values_sorted col : List F) (ch : CairoRapChallenges F)
        (i : ℕ) (a v ap vp p p_next : F)
        → generate_memory_permutation_argument_column addresses values addresses_sorted
            values_sorted ch
          ≡ some col
        → get_elem? addresses (suc i) ≡ some a
        → get_elem? values (suc i) ≡ some v
        → get_elem? addresses_sorted (suc i) ≡ some ap
        → get_elem? values_sorted (suc i) ≡ some vp
        → get_elem? col i ≡ some p
        → get_elem? col (suc i) ≡ some p_next
        → memory_factor ch ap vp ≢ K.zero
        → permutation_step ch.z_memory ch.alpha_memory ap vp p_next a v p ≡ K.zero
    unfolding generate_memory_permutation_argument_column memory_quotient permutation_step
    permutation_step-generate_memory_permutation_argument_column addresses values addresses_sorted
          values_sorted col ch i a v ap' vp p p_next e ha hv hap hvp hp hn ne =
        let n = length addresses_sorted in
        let (fs, t, q) = and_then-eq-some (traverse _ (range n)) _ e in
        let at : get_elem? fs (suc i) ≡ some (memory_quotient ch a v ap' vp) =
          traverse-get_elem? _ (range n) fs (suc i) t
          ∙ rw (
            get_elem?-range_zero n (suc i) (get_elem?-lt addresses_sorted (suc i) ap' hap),
            ha,
            hv,
            hap,
            hvp,
          ) in
        let step = products-step fs col i p p_next _ q hp hn at in
        sub-eq-zero _ _
          (rw step (quotient-step (memory_factor ch a v) (memory_factor ch ap' vp) p ne))

    -- In a field with inverses, two neighbours in the range check permutation column, the offset of the later one in trace
    -- order and in sorted order, and a sorted factor that is not zero: then the range check
    -- constraint between them is zero.
    pub range_check_step-generate_range_check_permutation_argument_column :
        (offsets offsets_sorted col : List F) (ch : CairoRapChallenges F) (i : ℕ)
        (a ap p p_next : F)
        → generate_range_check_permutation_argument_column offsets offsets_sorted ch ≡ some col
        → get_elem? offsets (suc i) ≡ some a
        → get_elem? offsets_sorted (suc i) ≡ some ap
        → get_elem? col i ≡ some p
        → get_elem? col (suc i) ≡ some p_next
        → ch.z_range_check ⊖ ap ≢ K.zero
        → range_check_step ch.z_range_check ap p_next a p ≡ K.zero
    unfolding generate_range_check_permutation_argument_column range_check_quotient range_check_step
    range_check_step-generate_range_check_permutation_argument_column offsets offsets_sorted col ch
          i a ap' p p_next e ha hap hp hn ne =
        let n = length offsets_sorted in
        let (fs, t, q) = and_then-eq-some (traverse _ (range n)) _ e in
        let at : get_elem? fs (suc i) ≡ some (range_check_quotient ch a ap') =
          traverse-get_elem? _ (range n) fs (suc i) t
          ∙ rw (
            get_elem?-range_zero n (suc i) (get_elem?-lt offsets_sorted (suc i) ap' hap),
            ha,
            hap,
          ) in
        let step = products-step fs col i p p_next _ q hp hn at in
        sub-eq-zero _ _
          (rw step (quotient-step (ch.z_range_check ⊖ a) (ch.z_range_check ⊖ ap') p ne))
