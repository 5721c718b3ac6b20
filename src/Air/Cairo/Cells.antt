-- ===== src/Air/Cairo/Cells.antt =====
-- Reading the vector of constraints that `compute_transition` writes cell by cell.
use lambdaworks_cairo_prover.Prelude.{
  ℕ, zero, suc, ◌<◌, ◌≡◌, refl, ap, ◌∙◌, arith, List, [], ◌∷◌, length, get_or, set, take, replicate,
  All, ◌==◌, if◌then◌else◌,
}
use lambdaworks_cairo_prover.Field.{Field}
use lambdaworks_cairo_prover.Air.Cairo.Columns.{num_transition_constraints}
use lambdaworks_cairo_prover.Air.Cairo.Constraints.{
  CairoRapChallenges, cell, bit_constraints, compute_instr_constraints, compute_operand_constraints,
  compute_register_constraints, compute_opcode_constraints, scale_from, enforce_selector,
  increasing, consistent, memory_is_increasing, permutation_step, permutation_argument,
  range_check_step, permutation_argument_range_check, transition_on_rows,
}

module _ {F : Type 0} where
  -- Writes, the first one first, and what they leave at a place.
  abbrev pub sets : List (ℕ × F) → List F → List F
  sets [] cs = cs
  sets ((i, v) ∷ updates) cs = sets updates (set cs i v)

  abbrev pub found : List (ℕ × F) → ℕ → F → F
  found [] k d = d
  found ((i, v) ∷ updates) k d = found updates k (if i == k then v else d)

  length-set : (cs : List F) (i : ℕ) (v : F) → length (set cs i v) ≡ length cs
  length-set [] i v = refl
  length-set (c ∷ cs) zero v = refl
  length-set (c ∷ cs) (suc i) v = ap suc (length-set cs i v)

  pub length-sets : (updates : List (ℕ × F)) (cs : List F) → length (sets updates cs) ≡ length cs
  length-sets [] cs = refl
  length-sets ((i, v) ∷ updates) cs = length-sets updates (set cs i v) ∙ length-set cs i v

  get_or-set :
      (cs : List F) (i k : ℕ) (v d : F)
      → i < length cs
      → get_or (set cs i v) k d ≡ (if i == k then v else get_or cs k d)
  get_or-set [] i k v d h = absurd (omega arith)
  get_or-set (c ∷ cs) zero zero v d h = refl
  get_or-set (c ∷ cs) zero (suc k) v d h = ground arith
  get_or-set (c ∷ cs) (suc i) zero v d h = ground arith
  get_or-set (c ∷ cs) (suc i) (suc k) v d h = get_or-set cs i k v d (omega arith) ∙ (ground arith)

  pub get_or-sets :
      (updates : List (ℕ × F)) (cs : List F) (k n : ℕ) (d : F)
      → length cs ≡ n
      → All (λ (u : ℕ × F). u.0 < n) updates
      → get_or (sets updates cs) k d ≡ found updates k (get_or cs k d)
  get_or-sets [] cs k n d e fits = refl
  get_or-sets ((i, v) ∷ updates) cs k n d e fits =
      get_or-sets updates (set cs i v) k n d (length-set cs i v ∙ e) fits.1
      ∙ ap (found updates k) (get_or-set cs i k v d (omega (arith, e, fits.0)))

module _ {F : Type 0} ⦃K : Field F⦄ where
  length-bit_constraints :
      (i : ℕ) (cs flags : List F) → length (bit_constraints i cs flags) ≡ length cs
  unfolding bit_constraints
  length-bit_constraints i cs [] = refl
  length-bit_constraints i cs (f ∷ flags) =
      length-bit_constraints (suc i) (set cs i _) flags ∙ length-set cs i _

  length-scale_from : (i : ℕ) (s : F) (cs : List F) → length (scale_from i s cs) ≡ length cs
  unfolding scale_from
  length-scale_from i s [] = refl
  length-scale_from i s (c ∷ cs) = ap suc (length-scale_from (suc i) s cs)

  -- The vector after the constraints on the program's columns.
  abbrev pub main_constraints : List F → List F → List F
  main_constraints curr next =
      enforce_selector
        (compute_opcode_constraints
          (compute_register_constraints
            (compute_operand_constraints
              (compute_instr_constraints (replicate num_transition_constraints K.zero) curr) curr)
            curr next)
          curr)
        curr

  length-main_constraints : (curr next : List F) → length (main_constraints curr next) ≡ 49
  unfolding enforce_selector compute_opcode_constraints compute_register_constraints
      compute_operand_constraints compute_instr_constraints
  length-main_constraints curr next =
      length-scale_from 0 _ _
      ∙ length-sets
          ((16, _)
            ∷ (17, _)
            ∷ (18, _)
            ∷ (19, _)
            ∷ (20, _)
            ∷ (21, _)
            ∷ (22, _)
            ∷ (23, _)
            ∷ (24, _)
            ∷ (25, _)
            ∷ (26, _)
            ∷ (27, _)
            ∷ (28, _)
            ∷ (29, _)
            ∷ (30, _)
            ∷ [])
          (bit_constraints 0 (replicate num_transition_constraints K.zero) (take 16 curr))
      ∙ length-bit_constraints 0 (replicate num_transition_constraints K.zero) (take 16 curr)

  -- The writes of the constraints on the auxiliary columns, in their order.
  abbrev pub aux_updates : List F → List F → CairoRapChallenges F → List (ℕ × F)
  aux_updates curr next ch =
      (31, increasing (cell curr 37) (cell curr 38))
      ∷ (32, increasing (cell curr 38) (cell curr 39))
      ∷ (33, increasing (cell curr 39) (cell curr 40))
      ∷ (34, increasing (cell curr 40) (cell next 37))
      ∷ (35, consistent (cell curr 41) (cell curr 42) (cell curr 37) (cell curr 38))
      ∷ (36, consistent (cell curr 42) (cell curr 43) (cell curr 38) (cell curr 39))
      ∷ (37, consistent (cell curr 43) (cell curr 44) (cell curr 39) (cell curr 40))
      ∷ (38, consistent (cell curr 44) (cell next 41) (cell curr 40) (cell next 37))
      ∷ (
        39,
        permutation_step ch.z_memory ch.alpha_memory (cell curr 38) (cell curr 42) (cell curr 46)
            (cell curr 20) (cell curr 24) (cell curr 45),
      )
      ∷ (
        40,
        permutation_step ch.z_memory ch.alpha_memory (cell curr 39) (cell curr 43) (cell curr 47)
            (cell curr 21) (cell curr 25) (cell curr 46),
      )
      ∷ (
        41,
        permutation_step ch.z_memory ch.alpha_memory (cell curr 40) (cell curr 44) (cell curr 48)
            (cell curr 22) (cell curr 26) (cell curr 47),
      )
      ∷ (
        42,
        permutation_step ch.z_memory ch.alpha_memory (cell next 37) (cell next 41) (cell next 45)
            (cell next 19) (cell next 23) (cell curr 48),
      )
      ∷ (43, increasing (cell curr 34) (cell curr 35))
      ∷ (44, increasing (cell curr 35) (cell curr 36))
      ∷ (45, increasing (cell curr 36) (cell next 34))
      ∷ (
        46,
        range_check_step ch.z_range_check (cell curr 35) (cell curr 50) (cell curr 28)
            (cell curr 49),
      )
      ∷ (
        47,
        range_check_step ch.z_range_check (cell curr 36) (cell curr 51) (cell curr 29)
            (cell curr 50),
      )
      ∷ (
        48,
        range_check_step ch.z_range_check (cell next 34) (cell next 49) (cell next 27)
            (cell curr 51),
      )
      ∷ []

  -- A constraint on the auxiliary columns, read from the vector.
  pub cell-transition_on_rows :
      (curr next : List F) (ch : CairoRapChallenges F) (k : ℕ)
      → cell (transition_on_rows curr next ch) k
        ≡ found (aux_updates curr next ch) k (cell (main_constraints curr next) k)
  unfolding transition_on_rows memory_is_increasing permutation_argument
      permutation_argument_range_check
  cell-transition_on_rows curr next ch k =
      get_or-sets (aux_updates curr next ch) (main_constraints curr next) k 49 K.zero
        (length-main_constraints curr next) (omega arith)
