-- ===== src/Air/Cairo/Memory.antt =====
-- What the memory constraints force on the sorted memory columns.
use lambdaworks_cairo_prover.Prelude.{
  ℕ, zero, suc, ◌+◌, ◌≤◌, ◌<◌, ◌≡◌, ◌⊎◌, inl, inr, sym, ap, ◌∙◌, arith, some, List, [], ◌∷◌, length,
  get_elem?, All,
}
use lambdaworks_cairo_prover.Field.{Field, HasInverses, ◌⊕◌, ◌⊖◌}
use lambdaworks_cairo_prover.Field.Laws.{zero_product, eq_of_sub-eq-zero, sub-add_cancel}
use lambdaworks_cairo_prover.Air.Cairo.Constraints.{
  CairoRapChallenges, cell, increasing, consistent, transition_on_rows,
}
use lambdaworks_cairo_prover.Air.Cairo.Cells.{cell-transition_on_rows}

module _ {F : Type 0} ⦃K : Field F⦄ where
  -- A cell of the sorted memory follows another: the same address with the same value, or the next.
  abbrev pub Follows : F × F → F × F → Type 0
  Follows (a, v) (b, w) = ((b ≡ a) × (v ≡ w)) ⊎ (b ≡ a ⊕ K.one)

  abbrev pub Chain : List (F × F) → Type 0
  Chain [] = Unit
  Chain (c ∷ []) = Unit
  Chain (c ∷ d ∷ cells) = Follows c d × Chain (d ∷ cells)

  module _ (V : HasInverses K) where
    next_address : (a b : F) → b ⊖ a ⊖ K.one ≡ K.zero → b ≡ a ⊕ K.one
    next_address a b h =
        sym (sub-add_cancel b a)
        ∙ ap (λ x. x ⊕ a) (eq_of_sub-eq-zero (b ⊖ a) K.one h)
        ∙ K.add_comm K.one a

    Follows_lem :
        (a v b w : F)
        → increasing a b ≡ K.zero
        → consistent v w a b ≡ K.zero
        → Follows (a, v) (b, w)
    unfolding increasing consistent
    Follows_lem a v b w h k = elim (zero_product V (a ⊖ b) (b ⊖ a ⊖ K.one) h) [
      | inr e ↦ inr (next_address a b e)
      | inl same ↦ elim (zero_product V (v ⊖ w) (b ⊖ a ⊖ K.one) k) [
        | inr e ↦ inr (next_address a b e)
        | inl e ↦ inl (sym (eq_of_sub-eq-zero a b same), eq_of_sub-eq-zero v w e)
      ]
    ]

  -- Along a chain the address grows by at most one a step, and the value stays while it does not.
  later :
      (cells : List (F × F)) (j n : ℕ) (a v b w : F)
      → Chain ((a, v) ∷ cells)
      → a ≡ K.from n
      → get_elem? ((a, v) ∷ cells) j ≡ some (b, w)
      → (c : ℕ) × (c ≤ j) × (b ≡ K.from (n + c)) × (c ≡ 0 → v ≡ w)
  later cells zero n a v b w h e g =
      let p : a ≡ b = cc in
      let q : v ≡ w = cc in (0, omega arith, sym p ∙ e ∙ ap K.from (omega arith), λ _. q)
  later [] (suc j) n a v b w h e g = cc
  later ((a', v') ∷ cells) (suc j) n a v b w h e g = elim h.0 [
    | inl same ↦
        let (c, le, p, q) = later cells j n a' v' b w h.1 (same.0 ∙ e) g in
        (c, omega arith, p, λ z. same.1 ∙ q z)
    | inr up ↦
        let (c, le, p, q) =
          later cells j (suc n) a' v' b w h.1 (up ∙ ap (λ x. x ⊕ K.one) e ∙ sym (K.from-suc n)) g in
        (suc c, omega arith, p ∙ ap K.from (omega arith), λ z. absurd (omega arith))
  ]

  in_range :
      (cells : List (F × F)) (j : ℕ) (c : F × F) → get_elem? cells j ≡ some c → j < length cells
  in_range [] j c h = cc
  in_range (x ∷ cells) zero c h = omega arith
  in_range (x ∷ cells) (suc j) c h = omega (arith, in_range cells j c h)

  module _ (B : ℕ) (inj : (m k : ℕ) → m < B → k < B → K.from m ≡ K.from k → m ≡ k) where
    Chain-single_valued :
        (cells : List (F × F)) (n i j : ℕ) (a₀ v₀ a v w : F)
        → Chain ((a₀, v₀) ∷ cells)
        → a₀ ≡ K.from n
        → n + suc (length cells) ≤ B
        → i ≤ j
        → get_elem? ((a₀, v₀) ∷ cells) i ≡ some (a, v)
        → get_elem? ((a₀, v₀) ∷ cells) j ≡ some (a, w)
        → v ≡ w
    Chain-single_valued cells n zero j a₀ v₀ a v w h e bound le p q =
        let (c, below, at, same) = later cells j n a₀ v₀ a w h e q in
        let here : a₀ ≡ a = cc in
        let start : v₀ ≡ v = cc in
        let lt : j < suc (length cells) = in_range ((a₀, v₀) ∷ cells) j (a, w) q in
        let index : n ≡ n + c = inj n (n + c) (omega arith) (omega arith) (sym e ∙ here ∙ at) in
        sym start ∙ same (omega arith)
    Chain-single_valued cells n (suc i) zero a₀ v₀ a v w h e bound le p q = absurd (omega arith)
    Chain-single_valued [] n (suc i) (suc j) a₀ v₀ a v w h e bound le p q = cc
    Chain-single_valued ((a₁, v₁) ∷ cells) n (suc i) (suc j) a₀ v₀ a v w h e bound le p q =
        elim h.0 [
          | inl same ↦
              Chain-single_valued cells n i j a₁ v₁ a v w h.1 (same.0 ∙ e) (omega arith)
                (omega arith) p q
          | inr up ↦
              Chain-single_valued cells (suc n) i j a₁ v₁ a v w h.1
                (up ∙ ap (λ x. x ⊕ K.one) e ∙ sym (K.from-suc n)) (omega arith) (omega arith) p q
        ]

-- The memory constraints, and those of them that the last row is not exempt from.
abbrev memory_constraints : List ℕ
memory_constraints = 31 ∷ 32 ∷ 33 ∷ 34 ∷ 35 ∷ 36 ∷ 37 ∷ 38 ∷ []

abbrev last_memory_constraints : List ℕ
last_memory_constraints = 31 ∷ 32 ∷ 33 ∷ 35 ∷ 36 ∷ 37 ∷ []

module _ {F : Type 0} ⦃K : Field F⦄ where
  -- The sorted memory columns, row after row, as one list of addresses and values.
  abbrev pub sorted_memory : List (List F) → List (F × F)
  sorted_memory [] = []
  sorted_memory (row ∷ rows) =
      (cell row 37, cell row 41)
      ∷ (cell row 38, cell row 42)
      ∷ (cell row 39, cell row 43)
      ∷ (cell row 40, cell row 44)
      ∷ sorted_memory rows

  -- The memory constraints vanish on all rows, the last of which is followed by the row `first`.
  abbrev pub MemoryHolds : CairoRapChallenges F → List F → List (List F) → Type 0
  MemoryHolds ch first [] = Unit
  MemoryHolds ch first (row ∷ []) =
      All (λ k. cell (transition_on_rows row first ch) k ≡ K.zero) last_memory_constraints
  MemoryHolds ch first (row ∷ next ∷ rows) =
      All (λ k. cell (transition_on_rows row next ch) k ≡ K.zero) memory_constraints
      × MemoryHolds ch first (next ∷ rows)

  module _ (V : HasInverses K) (ch : CairoRapChallenges F) (first : List F) where
    MemoryHolds-Chain :
        (rows : List (List F)) → MemoryHolds ch first rows → Chain (sorted_memory rows)
    MemoryHolds-Chain [] h = tt
    MemoryHolds-Chain (row ∷ []) (h31, (h32, (h33, (h35, (h36, (h37, _)))))) =
        let at = λ (k : ℕ). sym (cell-transition_on_rows row first ch k) in
        (
          Follows_lem V _ _ _ _ (at 31 ∙ h31) (at 35 ∙ h35),
          (
            Follows_lem V _ _ _ _ (at 32 ∙ h32) (at 36 ∙ h36),
            (Follows_lem V _ _ _ _ (at 33 ∙ h33) (at 37 ∙ h37), tt),
          ),
        )
    MemoryHolds-Chain (row ∷ next ∷ rows)
          ((h31, (h32, (h33, (h34, (h35, (h36, (h37, (h38, _)))))))), rest) =
        let at = λ (k : ℕ). sym (cell-transition_on_rows row next ch k) in
        (
          Follows_lem V _ _ _ _ (at 31 ∙ h31) (at 35 ∙ h35),
          (
            Follows_lem V _ _ _ _ (at 32 ∙ h32) (at 36 ∙ h36),
            (
              Follows_lem V _ _ _ _ (at 33 ∙ h33) (at 37 ∙ h37),
              (
                Follows_lem V _ _ _ _ (at 34 ∙ h34) (at 38 ∙ h38),
                MemoryHolds-Chain (next ∷ rows) rest,
              ),
            ),
          ),
        )

-- In a field with inverses where the numbers below `B` are different elements: if the memory
-- constraints vanish on all rows of a trace, those that lead from the last row to the first
-- excepted, if the first sorted address is that of a number `n`, and if `n` and the number of cells
-- together are at most `B`, then the sorted memory is a function: any two of its cells with the same
-- address hold the same value.
pub MemoryHolds-single_valued :
    {F : Type 0} ⦃K : Field F⦄ (V : HasInverses K) (B : ℕ) (ch : CairoRapChallenges F)
    (row : List F) (rows : List (List F)) (n i j : ℕ) (a v w : F)
    → ((m k : ℕ) → m < B → k < B → K.from m ≡ K.from k → m ≡ k)
    → MemoryHolds ch row (row ∷ rows)
    → cell row 37 ≡ K.from n
    → n + length (sorted_memory (row ∷ rows)) ≤ B
    → i ≤ j
    → get_elem? (sorted_memory (row ∷ rows)) i ≡ some (a, v)
    → get_elem? (sorted_memory (row ∷ rows)) j ≡ some (a, w)
    → v ≡ w
MemoryHolds-single_valued V B ch row rows n i j a v w inj h e bound le p q =
    let cells =
      (cell row 38, cell row 42)
      ∷ (cell row 39, cell row 43)
      ∷ (cell row 40, cell row 44)
      ∷ sorted_memory rows in
    Chain-single_valued B inj cells n i j (cell row 37) (cell row 41) a v w
      (MemoryHolds-Chain V ch row (row ∷ rows) h) e bound le p q
