-- ===== src/Stark/HonestLayers.antt =====
-- The openings of honest layers of FRI (fri/mod.rs): their values, and that their paths are accepted.
use lambdaworks_cairo_prover.Prelude.{
  wrapping_sub, ℕ, zero, suc, ◌+◌, ◌/◌, ◌%◌, ◌^◌, ◌<◌, ◌≡◌, refl, sym, ap, ap₂, subst, ◌∙◌, arith,
  inl, inr, true, some, List, [], ◌∷◌, map, get_elem?, some_injective, ◌==◌, traverse,
  and_then-eq-some, if-cases,
}
use native.Mathlib.Nat.{mod-lt}
use lambdaworks_cairo_prover.Field.{Field, HasInverses, ◌⊖◌, ◌⊗◌}
use lambdaworks_cairo_prover.Field.Powers.{pow-square}
use lambdaworks_cairo_prover.Field.Ring.{var, ◌⊠◌, ring, agree}
use lambdaworks_cairo_prover.Transcript.{Transcript}
use lambdaworks_cairo_prover.Fri.Fold.{evaluate}
use lambdaworks_cairo_prover.Fri.Commit.{FriLayer}
use lambdaworks_cairo_prover.Fri.Query.{PathsAccepted, open_layers, pow_two}
use lambdaworks_cairo_prover.Fri.QueryPhase.{open_layer, open_symmetric}
use lambdaworks_cairo_prover.Stark.Backend.{Backend, HasTransforms, HasRoots, HasPaths}
use lambdaworks_cairo_prover.Stark.Layers.{Layered, IsLayer, layer_value, symmetric_point}

-- A difference of orders that does not wrap around.
shift_amount :
    (total order k : ℕ) → order + k ≡ total → total < 64 → order ≡ wrapping_sub 32 total k % 64
shift_amount total order k sum small = omega arith

module _ {F Tree AuthPath T : Type 0} ⦃K : Field F⦄ (V : HasInverses K)
    (B : Backend F Tree AuthPath) (L : HasTransforms K B) (R : HasRoots K B) (P : HasPaths B)
    (S : Transcript T) where
  abbrev pub roots_of_layers : List (FriLayer F Tree) → List F
  roots_of_layers layers = map (λ (l : FriLayer F Tree). B.root l.merkle_tree) layers

  -- What is opened is a value of the layer, with a path that is accepted.
  pub open_layer_lem :
      (order : ℕ) (offset w : F) (l : FriLayer F Tree) (j : ℕ) (o : F × AuthPath)
      → order < 64
      → B.get_primitive_root_of_unity order ≡ some w
      → IsLayer B order offset l
      → j < 2 ^ order
      → open_layer S B.get_proof_by_pos l j ≡ some o
      → (o.0 ≡ evaluate l.poly (offset ⊗ K.pow w j))
        × (B.verify o.1 (B.root l.merkle_tree) j o.0 ≡ true)
  unfolding open_layer
  open_layer_lem order offset w l j o small root made within h =
      let (value, r, s) = and_then-eq-some (get_elem? l.evaluation j) _ h in
      let (path, u, v) = and_then-eq-some (B.get_proof_by_pos l.merkle_tree j) _ s in
      let proved =
        P.verify-get_proof_by_pos l.evaluation j value path r
          (ap (λ t. B.get_proof_by_pos t j) (sym made.1) ∙ u) in
      subst
        (λ (o : F × AuthPath).
          (o.0 ≡ evaluate l.poly (offset ⊗ K.pow w j))
          × (B.verify o.1 (B.root l.merkle_tree) j o.0 ≡ true))
        (some_injective v)
        (
          layer_value V B L R order offset w value l j small root made within r,
          ap (λ t. B.verify path (B.root t) j value) made.1 ∙ proved,
        )

  symmetric_lem :
      (order i : ℕ) (offset w : F) (l : FriLayer F Tree) (o : F × AuthPath)
      → suc order < 64
      → B.get_primitive_root_of_unity (suc order) ≡ some w
      → IsLayer B (suc order) offset l
      → open_symmetric S B.get_proof_by_pos i l ≡ some o
      → (o.0 ≡ evaluate l.poly (K.zero ⊖ offset ⊗ K.pow w i))
        × (B.verify o.1 (B.root l.merkle_tree) ((i + 2 ^ suc order / 2) % 2 ^ suc order) o.0 ≡ true)
  unfolding open_symmetric
  symmetric_lem order i offset w l o small root made h =
      elim (if-cases (l.domain_size == 0) _ _ h) [
        | inl (e, taken) ↦ absurd (cc)
        | inr (e, taken) ↦
            let pos : 0 < 2 ^ suc order = ground (arith, made.2) in
            let at =
              ap (λ d. open_layer S B.get_proof_by_pos l ((i + d / 2) % d)) (sym made.2) ∙ taken in
            let (value, path) =
              open_layer_lem (suc order) offset w l ((i + 2 ^ suc order / 2) % 2 ^ suc order) o
                small root made (mod-lt _ pos) at in
            (value ∙ ap (evaluate l.poly) (symmetric_point V B L R order i offset w root), path)
      ]

  next_point :
      (offset w : F) (i : ℕ) → K.pow (offset ⊗ K.pow w i) 2 ≡ offset ⊗ offset ⊗ K.pow (w ⊗ w) i
  unfolding agree
  next_point offset w i =
      let x = var 0 in
      let y = var 1 in
      pow_two (offset ⊗ K.pow w i)
      ∙ ring (offset ∷ K.pow w i ∷ []) (x ⊠ y ⊠ (x ⊠ y)) (x ⊠ x ⊠ (y ⊠ y)) refl
      ∙ ap (λ v. offset ⊗ offset ⊗ v) (sym (pow-square w i))

  -- The symmetric openings are the values of the layers at the opposite points, with paths that
  -- are accepted.
  pub openings_lem :
      (total order k i : ℕ) (offset w : F) (layers : List (FriLayer F Tree))
      (openings : List (F × AuthPath))
      → order + k ≡ total
      → total < 64
      → ((o : ℕ) → order ≡ suc o → B.get_primitive_root_of_unity order ≡ some w)
      → Layered B order offset layers
      → traverse (open_symmetric S B.get_proof_by_pos i) layers ≡ some openings
      → (map (λ (o : F × AuthPath). o.0) openings ≡ open_layers layers (offset ⊗ K.pow w i))
        × PathsAccepted B.verify total i k
            (roots_of_layers layers)
            (map (λ (o : F × AuthPath). o.1) openings)
            (map (λ (o : F × AuthPath). o.0) openings)
  openings_lem total order k i offset w [] openings sum small root made h =
      subst
        (λ openings.
          (map (λ (o : F × AuthPath). o.0) openings ≡ [])
          × PathsAccepted B.verify total i k [] (map (λ (o : F × AuthPath). o.1) openings)
              (map (λ (o : F × AuthPath). o.0) openings))
        (some_injective h) (refl, _)
  openings_lem total zero k i offset w (l ∷ layers) openings sum small root made h = absurd made
  openings_lem total (suc order) k i offset w (l ∷ layers) openings sum small root (made, rest) h =
      let (o, p, q) = and_then-eq-some (open_symmetric S B.get_proof_by_pos i l) _ h in
      let (os, r, s) =
        and_then-eq-some (traverse (open_symmetric S B.get_proof_by_pos i) layers) _ q in
      let here = root order refl in
      let (value, path) = symmetric_lem order i offset w l o (omega arith) here made p in
      let (values, paths) =
        openings_lem total order (suc k) i (offset ⊗ offset) (w ⊗ w) layers os (omega arith) small
          (λ o' e.
            subst (λ n. B.get_primitive_root_of_unity n ≡ some (w ⊗ w)) (sym e)
              (R.square_of_root o' w
                (subst (λ n. B.get_primitive_root_of_unity (suc n) ≡ some w) e here)))
          rest r in
      subst
        (λ openings.
          (map (λ (o : F × AuthPath). o.0) openings ≡ open_layers (l ∷ layers) (offset ⊗ K.pow w i))
          × PathsAccepted B.verify total i k (roots_of_layers (l ∷ layers))
              (map (λ (o : F × AuthPath). o.1) openings) (map (λ (o : F × AuthPath). o.0) openings))
        (some_injective s)
        (
          ap₂ (λ v vs. v ∷ vs) value
              (values ∙ ap (open_layers layers) (sym (next_point offset w i))),
          (
            subst (λ n. B.verify o.1 (B.root l.merkle_tree) ((i + 2 ^ n / 2) % 2 ^ n) o.0 ≡ true)
                {x = suc order} {y = wrapping_sub 32 total k % 64}
                (shift_amount total (suc order) k sum small) path,
            paths,
          ),
        )
