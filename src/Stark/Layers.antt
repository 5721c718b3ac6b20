-- ===== src/Stark/Layers.antt =====
-- The layers of FRI (fri/mod.rs): each one holds the values of its polynomial on its coset, whose
-- offset and size are those that the folding makes of the ones before.
use native.Mathlib.Nat.{pow-suc}
use lambdaworks_cairo_prover.Prelude.{
  ℕ, zero, suc, ◌+◌, ◌-◌, ◌*◌, ◌/◌, ◌%◌, ◌^◌, ◌≤◌, ◌<◌, ◌≡◌, ◌≢◌, refl, sym, ap, ap₂, ◌∙◌, arith,
  some, List, [], ◌∷◌, length, get_elem?, some_injective,
}
use lambdaworks_cairo_prover.Field.{Field, HasInverses, ◌⊖◌, ◌⊗◌}
use lambdaworks_cairo_prover.Field.Powers.{pow-add, pow-mod, pow-nonzero}
use lambdaworks_cairo_prover.Field.Ring.{var, nil, unit, ◌⊟◌, ◌⊠◌, ring, agree}
use lambdaworks_cairo_prover.Transcript.{Transcript, transcript_to_field}
use lambdaworks_cairo_prover.Fri.Fold.{evaluate, fold_polynomial}
use lambdaworks_cairo_prover.Fri.Commit.{
  FriLayer, fri_layer_new, commit_loop, send, fri_commit_phase,
}
use lambdaworks_cairo_prover.Fri.Query.{length-fold_polynomial}
use lambdaworks_cairo_prover.Stark.Backend.{Backend, HasTransforms, HasRoots, trailing_zeros}

trailing_zeros-pow : (bits k : ℕ) → k < bits → trailing_zeros bits (2 ^ k) ≡ k
unfolding trailing_zeros
trailing_zeros-pow zero k h = absurd (omega arith)
trailing_zeros-pow (suc bits) zero h = refl
trailing_zeros-pow (suc bits) (suc k) h =
    let twice = pow-suc 2 k in
    let even : 2 ^ suc k % 2 ≡ 0 = omega (arith, twice) in
    let half : 2 ^ suc k / 2 ≡ 2 ^ k = omega (arith, twice) in
    rw (even, half, trailing_zeros-pow bits k (omega arith)) refl

module _ {F Tree AuthPath : Type 0} ⦃K : Field F⦄ (B : Backend F Tree AuthPath) where
  abbrev pub IsLayer : ℕ → F → FriLayer F Tree → Type 0
  IsLayer order offset l =
      (l.evaluation ≡ B.evaluate_offset_fft l.poly 1 (2 ^ order) offset)
      × (l.merkle_tree ≡ B.build l.evaluation)
      × (l.domain_size ≡ 2 ^ order)
      × (length l.poly ≤ 2 ^ order)

  -- The layers from the one whose coset has 2 ^ order points on; the last coset has two at least.
  abbrev pub Layered : ℕ → F → List (FriLayer F Tree) → Type 0
  Layered order offset [] = Unit
  Layered zero offset (l ∷ layers) = ⊥
  Layered (suc order) offset (l ∷ layers) =
      IsLayer (suc order) offset l × Layered order (offset ⊗ offset) layers

  module _ {T : Type 0} (S : Transcript T) where
    abbrev pub on_coset : List F → F → ℕ → List F
    on_coset poly offset size = B.evaluate_offset_fft poly 1 size offset

    pub commit_loop-Layered :
        (n order : ℕ) (l : FriLayer F Tree) (t : T)
        → n ≤ order
        → IsLayer (suc order) l.coset_offset l
        → Layered order
            (l.coset_offset ⊗ l.coset_offset)
            (commit_loop S on_coset B.build B.root n l t).0
    unfolding commit_loop fri_layer_new
    commit_loop-Layered zero order l t h made = _
    commit_loop-Layered (suc n) zero l t h made = absurd (omega arith)
    commit_loop-Layered (suc n) (suc order) l t h (evaluated, built, sized, fits) =
        let (zeta, t₁) = transcript_to_field {F = F} S t in
        let half : l.domain_size / 2 ≡ 2 ^ suc order =
          omega (arith, sized, pow-suc 2 (suc order)) in
        let next =
          fri_layer_new S on_coset B.build B.root (fold_polynomial l.poly zeta)
            (l.coset_offset ⊗ l.coset_offset) (l.domain_size / 2) in
        let evaluated : next.evaluation ≡ on_coset next.poly next.coset_offset (2 ^ suc order) =
          ap (λ n. on_coset next.poly next.coset_offset n) half in
        let fits : length next.poly ≤ 2 ^ suc order =
          omega (arith, length-fold_polynomial l.poly zeta, fits, pow-suc 2 (suc order)) in
        (
          (evaluated, refl, half, fits),
          commit_loop-Layered n order next
              (send S on_coset B.build B.root (B.root next.merkle_tree) t₁) (omega arith)
              (evaluated, refl, half, fits),
        )

    length-commit_loop :
        (n : ℕ) (l : FriLayer F Tree) (t : T)
        → length (commit_loop S on_coset B.build B.root n l t).0 ≡ n
    unfolding commit_loop
    length-commit_loop zero l t = refl
    length-commit_loop (suc n) l t = ap suc (length-commit_loop n _ _)

    -- The layers of a commitment, the first one that of the polynomial.
    pub fri_commit_phase-Layered :
        (n order : ℕ) (p : List F) (t t' : T) (offset last : F) (layers : List (FriLayer F Tree))
        → n ≤ suc order
        → length p ≤ 2 ^ suc order
        → fri_commit_phase S on_coset B.build B.root n p t offset (2 ^ suc order)
          ≡ (last, layers, t')
        → (first : FriLayer F Tree) × (rest : List (FriLayer F Tree)) × (layers ≡ first ∷ rest)
          × (first.poly ≡ p)
          × (length rest ≡ n - 1)
          × Layered (suc order) offset (first ∷ rest)
    unfolding fri_commit_phase fri_layer_new
    fri_commit_phase-Layered n order p t t' offset last layers few fits h =
        let first = fri_layer_new S on_coset B.build B.root p offset (2 ^ suc order) in
        let sent = send S on_coset B.build B.root (B.root first.merkle_tree) t in
        (
          first,
          (commit_loop S on_coset B.build B.root (n - 1) first sent).0,
          ap (λ (v : F × List (FriLayer F Tree) × T). v.1) (sym h),
          refl,
          length-commit_loop (n - 1) first sent,
          (
            (refl, refl, refl, fits),
            commit_loop-Layered (n - 1) order first sent (omega arith) (refl, refl, refl, fits),
          ),
        )

module _ {F Tree AuthPath : Type 0} ⦃K : Field F⦄ (V : HasInverses K) (B : Backend F Tree AuthPath)
    (L : HasTransforms K B) (R : HasRoots K B) where
  -- The value that a layer has at a place.
  pub layer_value :
      (order : ℕ) (offset w v : F) (l : FriLayer F Tree) (j : ℕ)
      → order < 64
      → B.get_primitive_root_of_unity order ≡ some w
      → IsLayer B order offset l
      → j < 2 ^ order
      → get_elem? l.evaluation j ≡ some v
      → v ≡ evaluate l.poly (offset ⊗ K.pow w j)
  layer_value order offset w v l j small root (evaluated, built, sized, fits) within at =
      let (points, made, point) = R.coset_of_root order w offset root in
      let once : 1 * 2 ^ order ≡ 2 ^ order = omega arith in
      let order_of = ap (trailing_zeros 64) once ∙ trailing_zeros-pow 64 order small in
      some_injective (
        sym at
        ∙ ap (λ e. get_elem? e j) evaluated
        ∙ L.get_elem?-evaluate_offset_fft l.poly 1 (2 ^ order) offset points j (offset ⊗ K.pow w j)
            fits (ap₂ (λ k n. B.get_powers_of_primitive_root_coset k n offset) order_of once ∙ made)
            (point j within))

  root_full :
      (order : ℕ) (w : F)
      → B.get_primitive_root_of_unity (suc order) ≡ some w
      → K.pow w (2 ^ suc order) ≡ K.one
  unfolding agree
  root_full order w root =
      ap (K.pow w) {x = 2 ^ suc order} {y = 2 ^ order + 2 ^ order} (omega (arith, pow-suc 2 order))
      ∙ pow-add w (2 ^ order) (2 ^ order)
      ∙ ap (λ v. v ⊗ v) (R.half_of_root order w root)
      ∙ ring [] ((nil ⊟ unit) ⊠ (nil ⊟ unit)) unit refl

  pub root_power-nonzero :
      (order i : ℕ) (w : F)
      → B.get_primitive_root_of_unity (suc order) ≡ some w
      → i < 2 ^ suc order
      → K.pow w i ≢ K.zero
  root_power-nonzero order i w root h =
      pow-nonzero V w (2 ^ suc order) i (root_full order w root) (omega arith)

  -- The symmetric place is that of the opposite point.
  pub symmetric_point :
      (order i : ℕ) (offset w : F)
      → B.get_primitive_root_of_unity (suc order) ≡ some w
      → offset ⊗ K.pow w ((i + 2 ^ suc order / 2) % 2 ^ suc order) ≡ K.zero ⊖ offset ⊗ K.pow w i
  unfolding agree
  symmetric_point order i offset w root =
      let half : 2 ^ suc order / 2 ≡ 2 ^ order = omega (arith, pow-suc 2 order) in
      let x = var 0 in
      let y = var 1 in
      ap (λ v. offset ⊗ v)
        (pow-mod w (2 ^ suc order) (i + 2 ^ suc order / 2) (root_full order w root)
          ∙ ap (λ k. K.pow w (i + k)) half
          ∙ pow-add w i (2 ^ order)
          ∙ ap (λ v. K.pow w i ⊗ v) (R.half_of_root order w root))
      ∙ ring (offset ∷ K.pow w i ∷ []) (x ⊠ (y ⊠ (nil ⊟ unit))) (nil ⊟ x ⊠ y) refl
