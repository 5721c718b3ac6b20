-- ===== src/Fri/Honest.antt =====
-- A query on an honest FRI commitment.
use native.Mathlib.Nat.{pow-suc}
use lambdaworks_cairo_prover.Prelude.{
  ℕ, suc, ◌^◌, ◌≤◌, ◌≡◌, ◌≢◌, inl, inr, sym, ap, ◌∙◌, arith, Bool, true, some, List, [], ◌∷◌,
  length,
}
use lambdaworks_cairo_prover.Field.{Field, HasInverses, ◌⊖◌}
use lambdaworks_cairo_prover.Field.Laws.{zero_product}
use lambdaworks_cairo_prover.Fri.Fold.{
  evaluate, fold_polynomial, fold_value, fold_value-fold_polynomial,
}
use lambdaworks_cairo_prover.Fri.Commit.{FriLayer, FoldedBy}
use lambdaworks_cairo_prover.Fri.Query.{
  verify_layers, PathsAccepted, open_layers, pow_two, length-fold_polynomial, evaluate-constant,
}

module _ {F : Type 0} ⦃K : Field F⦄ (V : HasInverses K) (two : K.from 2 ≢ K.zero) where
  square-nonzero : (x : F) → x ≢ K.zero → K.pow x 2 ≢ K.zero
  square-nonzero x h e = elim (zero_product V x x (sym (pow_two x) ∙ e)) [
    | inl z ↦ h z
    | inr z ↦ h z
  ]

  folded :
      (p : List F) (beta v x : F)
      → v ≡ evaluate p x
      → x ≢ K.zero
      → fold_value beta x v (evaluate p (K.zero ⊖ x))
        ≡ evaluate (fold_polynomial p beta) (K.pow x 2)
  folded p beta v x h ne =
      ap (λ y. fold_value beta x y (evaluate p (K.zero ⊖ x))) h
      ∙ fold_value-fold_polynomial V p beta x two ne
      ∙ ap (evaluate (fold_polynomial p beta)) (sym (pow_two x))

  module _ {AuthPath Tree : Type 0} (verify : AuthPath → F → ℕ → F → Bool) where
    -- An honest query is accepted: in a field with inverses where two is not zero, if the layers are
    -- folded by the challenges down to the last value, the first polynomial has at most 2 ^ n
    -- coefficients for n layers, the evaluation point is not zero, the opened first value is that of
    -- the first polynomial there, the symmetric openings are those of the layers, and their Merkle
    -- paths are accepted, then the loop of the verifier over the layers returns true.
    pub verify_layers-open_layers :
        (order iota : ℕ) (last_value : F) (layers : List (FriLayer F Tree)) (l : FriLayer F Tree)
        (k : ℕ) (roots : List F) (paths : List AuthPath) (zetas : List F) (v point : F)
        → FoldedBy (l ∷ layers) zetas last_value
        → PathsAccepted verify order iota k roots paths (open_layers (l ∷ layers) point)
        → length l.poly ≤ 2 ^ suc (length layers)
        → point ≢ K.zero
        → v ≡ evaluate l.poly point
        → verify_layers verify order last_value iota k roots paths
            (open_layers (l ∷ layers) point)
            zetas
            v
            point
          ≡ some true
    unfolding verify_layers
    verify_layers-open_layers order iota last_value [] l k [] [] zetas v point hf hp hl ne hv =
        absurd hp
    verify_layers-open_layers order iota last_value [] l k [] (p ∷ paths) zetas v point hf hp hl ne
          hv =
        absurd hp
    verify_layers-open_layers order iota last_value [] l k (r ∷ roots) [] zetas v point hf hp hl ne
          hv =
        absurd hp
    verify_layers-open_layers order iota last_value [] l k (r ∷ roots) (p ∷ paths) [] v point hf hp
          hl ne hv =
        absurd hf
    verify_layers-open_layers order iota last_value [] l k (r ∷ roots) (p ∷ paths) (z ∷ z' ∷ zetas)
          v point hf hp hl ne hv =
        absurd hf
    verify_layers-open_layers order iota last_value [] l k (r ∷ s ∷ roots) (p ∷ []) (z ∷ []) v point
          hf hp hl ne hv =
        absurd hp.1
    verify_layers-open_layers order iota last_value [] l k (r ∷ []) (p ∷ q ∷ paths) (z ∷ []) v point
          hf hp hl ne hv =
        absurd hp.1
    verify_layers-open_layers order iota last_value [] l k (r ∷ s ∷ roots) (p ∷ q ∷ paths) (z ∷ [])
          v point hf hp hl ne hv =
        absurd hp.1
    verify_layers-open_layers order iota last_value [] l k (r ∷ []) (p ∷ []) (z ∷ []) v point hf hp
          hl ne hv =
        let short : length (fold_polynomial l.poly z) ≤ 1 =
          omega (arith, length-fold_polynomial l.poly z, hl) in
        let value =
          folded l.poly z v point hv ne
          ∙ evaluate-constant (fold_polynomial l.poly z) (K.pow point 2) short
          ∙ sym hf in
        rw hp.0 (ap some ((K.beq_iff _ last_value).1 value))
    verify_layers-open_layers order iota last_value (m ∷ layers) l k [] [] zetas v point hf hp hl ne
          hv =
        absurd hp
    verify_layers-open_layers order iota last_value (m ∷ layers) l k [] (p ∷ paths) zetas v point hf
          hp hl ne hv =
        absurd hp
    verify_layers-open_layers order iota last_value (m ∷ layers) l k (r ∷ roots) [] zetas v point hf
          hp hl ne hv =
        absurd hp
    verify_layers-open_layers order iota last_value (m ∷ layers) l k (r ∷ roots) (p ∷ paths) [] v
          point hf hp hl ne hv =
        absurd hf
    verify_layers-open_layers order iota last_value (m ∷ layers) l k (r ∷ roots) (p ∷ paths)
          (z ∷ zetas) v point hf hp hl ne hv =
        let short : length m.poly ≤ 2 ^ suc (length layers) = omega (
          arith,
          ap length hf.0,
          length-fold_polynomial l.poly z,
          hl,
          pow-suc 2 (suc (length layers)),
        ) in
        let value =
          folded l.poly z v point hv ne ∙ ap (λ q. evaluate q (K.pow point 2)) (sym hf.0) in
        rw hp.0 (
          verify_layers-open_layers order iota last_value layers m (suc k) roots paths zetas _
            (K.pow point 2) hf.1 hp.1 short (square-nonzero point ne) value)
