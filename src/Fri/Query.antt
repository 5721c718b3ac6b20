-- ===== src/Fri/Query.antt =====
-- verifier.rs, `verify_query_and_sym_openings`: one FRI query. Checking a Merkle path, of another
-- crate, is a parameter.
use lambdaworks_cairo_prover.Prelude.{
  wrapping_sub, ℕ, suc, ◌+◌, ◌*◌, ◌/◌, ◌%◌, ◌^◌, ◌≤◌, ◌≡◌, refl, ap, ◌∙◌, arith, Bool, true, false,
  Option, none, some, List, [], ◌∷◌, map, length, get_or, and_then, get_elem?, if◌then◌else◌,
}
use lambdaworks_cairo_prover.Field.{Field, ◌⊕◌, ◌⊖◌, ◌⊗◌}
use lambdaworks_cairo_prover.Field.Laws.{mul-zero, add-zero}
use lambdaworks_cairo_prover.Fri.Fold.{
  evaluate, evens, odds, add_padded, fold_polynomial, fold_value,
}
use lambdaworks_cairo_prover.Fri.Commit.{FriLayer}

-- fri/fri_decommit.rs
pub record FriDecommitment (F AuthPath : Type 0) : Type 0 where
  pub layers_auth_paths_sym : List AuthPath
  pub layers_evaluations_sym : List F
  pub first_layer_evaluation : F
  pub first_layer_auth_path : AuthPath

-- `1 << (lde_root_order - k)`: the difference of u32 wraps around, and the shift of a usize takes its
-- amount modulo 64.
abbrev pub domain_length : ℕ → ℕ → ℕ
domain_length lde_root_order k = 2 ^ (wrapping_sub 32 lde_root_order k % 64)

module _ {F AuthPath : Type 0} ⦃K : Field F⦄ (verify : AuthPath → F → ℕ → F → Bool) where
  -- The loop over the layers, `k` the index reached, `v` the folded value and the evaluation point;
  -- a missing challenge is a panic. It ends with the shortest of the three lists.
  unfoldable pub verify_layers :
      ℕ → F → ℕ → ℕ → List F → List AuthPath → List F → List F → F → F → Option Bool
  unfolding fold_value
  verify_layers lde_root_order last_value iota k (merkle_root ∷ roots) (auth_path ∷ paths)
        (evaluation_sym ∷ syms) [] v point =
      if verify auth_path merkle_root
        ((iota + domain_length lde_root_order k / 2) % domain_length lde_root_order k)
        evaluation_sym
      then none
      else some false
  verify_layers lde_root_order last_value iota k (merkle_root ∷ roots) (auth_path ∷ paths)
        (evaluation_sym ∷ syms) (beta ∷ zetas) v point =
      let length_k = domain_length lde_root_order k in
      let rest =
        verify_layers lde_root_order last_value iota (suc k) roots paths syms zetas
          (fold_value beta point v evaluation_sym) (K.pow point 2) in
      if verify auth_path merkle_root ((iota + length_k / 2) % length_k) evaluation_sym
      then rest
      else some false
  verify_layers lde_root_order last_value iota k _ _ _ zetas v point = some (K.beq v last_value)

  -- `primitive_root` is the root of unity of the extended domain; no first root is a panic.
  unfoldable pub verify_query_and_sym_openings :
      ℕ → ℕ → F → List F → F → List F → ℕ → FriDecommitment F AuthPath → Option Bool
  unfolding verify_layers
  verify_query_and_sym_openings lde_root_order coset_offset primitive_root roots fri_last_value
        zetas iota d =
      and_then (get_elem? roots 0) λ first_root.
        if verify d.first_layer_auth_path first_root iota d.first_layer_evaluation
        then verify_layers lde_root_order fri_last_value iota 0 roots d.layers_auth_paths_sym
            d.layers_evaluations_sym zetas d.first_layer_evaluation
            (K.from coset_offset ⊗ K.pow primitive_root iota)
        else some false

  -- The Merkle paths of the symmetric openings are accepted, one for each root.
  abbrev pub PathsAccepted : ℕ → ℕ → ℕ → List F → List AuthPath → List F → Type 0
  PathsAccepted order iota k (r ∷ roots) (p ∷ paths) (s ∷ syms) =
      (verify p r ((iota + domain_length order k / 2) % domain_length order k) s ≡ true)
      × PathsAccepted order iota (suc k) roots paths syms
  PathsAccepted order iota k [] [] [] = Unit
  PathsAccepted order iota k _ _ _ = ⊥

-- What an honest prover opens: each layer's polynomial at the opposite of its point.
abbrev pub open_layers : {F Tree : Type 0} ⦃K : Field F⦄ → List (FriLayer F Tree) → F → List F
open_layers ⦃K⦄ [] point = []
open_layers ⦃K⦄ (l ∷ layers) point =
    evaluate l.poly (K.zero ⊖ point) ∷ open_layers layers (K.pow point 2)

module _ {F : Type 0} ⦃K : Field F⦄ where
  pub pow_two : (x : F) → K.pow x 2 ≡ x ⊗ x
  pow_two x =
      K.pow-suc x 1 ∙ ap (λ y. y ⊗ x) (K.pow-suc x 0 ∙ ap (λ y. y ⊗ x) (K.pow-zero x) ∙ K.one-mul x)

  length-parts :
      (p : List F) → (length (evens p) * 2 ≤ length p + 1) × (length (odds p) ≤ length (evens p))
  unfolding evens odds
  length-parts [] = (omega arith, omega arith)
  length-parts (a ∷ []) = (omega arith, omega arith)
  length-parts (a ∷ b ∷ p) = (omega (arith, (length-parts p).0), omega (arith, (length-parts p).1))

  length-add_padded : (p q : List F) → length q ≤ length p → length (add_padded p q) ≡ length p
  unfolding add_padded
  length-add_padded [] [] h = refl
  length-add_padded [] (b ∷ q) h = absurd (omega arith)
  length-add_padded (a ∷ p) [] h = refl
  length-add_padded (a ∷ p) (b ∷ q) h = ap suc (length-add_padded p q (omega arith))

  length-scale : (p : List F) (beta : F) → length (map (λ v. v ⊗ beta) p) ≡ length p
  length-scale [] beta = refl
  length-scale (a ∷ p) beta = ap suc (length-scale p beta)

  -- Folding halves the number of coefficients.
  pub length-fold_polynomial :
      (p : List F) (beta : F) → length (fold_polynomial p beta) * 2 ≤ length p + 1
  unfolding fold_polynomial
  length-fold_polynomial p beta =
      let (half, fewer) = length-parts p in
      let scaled = length-scale (odds p) beta in
      omega (
        arith,
        half,
        length-add_padded (evens p) (map (λ v. v ⊗ beta) (odds p)) (omega (arith, fewer, scaled)),
      )

  pub evaluate-constant : (p : List F) (x : F) → length p ≤ 1 → evaluate p x ≡ get_or p 0 K.zero
  evaluate-constant [] x h = refl
  evaluate-constant (a ∷ []) x h = ap (λ y. a ⊕ y) (mul-zero x) ∙ add-zero a
  evaluate-constant (a ∷ b ∷ p) x h = absurd (omega arith)
