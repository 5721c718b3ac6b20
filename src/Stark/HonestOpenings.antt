-- ===== src/Stark/HonestOpenings.antt =====
-- The openings of the composition polynomial and of the trace that the prover makes (prover.rs) are
-- accepted, and are the values of the polynomials.
use native.Mathlib.Nat.{mod-eq_of_lt}
use lambdaworks_cairo_prover.Prelude.{
  ℕ, ◌%◌, ◌<◌, ◌≡◌, refl, sym, ap, subst, ◌∙◌, arith, inl, inr, true, some, List, All, map, length,
  get_elem?, ◌==◌, if-cases, traverse, and_then-eq-some, some_injective,
}
use lambdaworks_cairo_prover.Field.{Field}
use lambdaworks_cairo_prover.Air.TraceTable.{get_row, new_from_cols}
use lambdaworks_cairo_prover.Air.TraceTable.Made.{get_row-new_from_cols}
use lambdaworks_cairo_prover.Air.Interface.{Air}
use lambdaworks_cairo_prover.Fri.Fold.{evaluate}
use lambdaworks_cairo_prover.Stark.Backend.{
  Backend, Domain, HasTransforms, HasPaths, trailing_zeros,
}
use lambdaworks_cairo_prover.Stark.Proof.{DeepPolynomialOpenings}
use lambdaworks_cairo_prover.Stark.Evaluator.{on_lde_domain, evaluator_evaluate}
use lambdaworks_cairo_prover.Stark.EvaluationTable.{compute_composition_poly}
use lambdaworks_cairo_prover.Stark.Commitments.{Round1, batch_commit}
use lambdaworks_cairo_prover.Stark.Rounds.{
  Round2, commit_composition, round_2_compute_composition_polynomial, open_deep_composition_poly,
}
use lambdaworks_cairo_prover.Stark.Steps.{verify_trace_openings}
use lambdaworks_cairo_prover.Stark.CommittedTrees.{Fits, size, lde_IsRectangular, TreesOf}
use lambdaworks_cairo_prover.Stark.Openings.{
  lde_value, lde_values, verify_trace_openings-get_proof_by_pos,
}

module _ {F Tree AuthPath : Type 0} ⦃K : Field F⦄ (B : Backend F Tree AuthPath)
    (domain : Domain F) where
  -- The checks of the fourth step on the openings, and the values opened.
  abbrev pub Honest :
      {RapChallenges : Type 0}
      → ℕ
      → F
      → Round1 F Tree RapChallenges
      → Round2 F Tree
      → DeepPolynomialOpenings F AuthPath
      → Type 0
  Honest i x r1 r2 o =
      (B.verify o.lde_composition_poly_even_proof r2.composition_poly_even_root i
          o.lde_composition_poly_even_evaluation
        ≡ true)
      × (B.verify o.lde_composition_poly_odd_proof r2.composition_poly_odd_root i
            o.lde_composition_poly_odd_evaluation
          ≡ true)
      × (verify_trace_openings B r1.lde_trace_merkle_roots o.lde_trace_merkle_proofs i
            o.lde_trace_evaluations
          ≡ true)
      × (evaluate r2.composition_poly_even x ≡ o.lde_composition_poly_even_evaluation)
      × (evaluate r2.composition_poly_odd x ≡ o.lde_composition_poly_odd_evaluation)
      × (map (λ p. evaluate p x) r1.trace_polys ≡ o.lde_trace_evaluations)

  -- The trees of the second round are those of the values of both parts.
  abbrev pub HalvesCommitted : Round2 F Tree → Type 0
  HalvesCommitted r2 =
      (on_lde_domain B domain r2.composition_poly_even
        ≡ some r2.lde_composition_poly_even_evaluations)
      × (B.build r2.lde_composition_poly_even_evaluations ≡ r2.composition_poly_even_merkle_tree)
      × (B.root r2.composition_poly_even_merkle_tree ≡ r2.composition_poly_even_root)
      × (on_lde_domain B domain r2.composition_poly_odd
          ≡ some r2.lde_composition_poly_odd_evaluations)
      × (B.build r2.lde_composition_poly_odd_evaluations ≡ r2.composition_poly_odd_merkle_tree)
      × (B.root r2.composition_poly_odd_merkle_tree ≡ r2.composition_poly_odd_root)

  commit_composition-HalvesCommitted :
      (composition_poly : List F) (r2 : Round2 F Tree)
      → commit_composition B composition_poly domain ≡ some r2
      → HalvesCommitted r2
  unfolding commit_composition batch_commit
  commit_composition-HalvesCommitted composition_poly r2 h =
      let (even, odd) = B.even_odd_decomposition composition_poly in
      let (evens, p, q) = and_then-eq-some (on_lde_domain B domain even) _ h in
      let (odds, r, s) = and_then-eq-some (on_lde_domain B domain odd) _ q in
      subst HalvesCommitted (some_injective s) (p, refl, refl, r, refl, refl)

  pub round_2-HalvesCommitted :
      {RawTrace RapChallenges PublicInput T : Type 0}
      (air : Air F RawTrace RapChallenges PublicInput T) (r1 : Round1 F Tree RapChallenges)
      (public_input : PublicInput) (transition_coeffs boundary_coeffs : List (F × F))
      (r2 : Round2 F Tree)
      → round_2_compute_composition_polynomial B air domain r1 public_input transition_coeffs
          boundary_coeffs
        ≡ some r2
      → HalvesCommitted r2
  unfolding round_2_compute_composition_polynomial
  round_2-HalvesCommitted air r1 public_input transition_coeffs boundary_coeffs r2 h =
      let (constraints, p, q) =
        and_then-eq-some (air.boundary_constraints r1.rap_challenges public_input) _ h in
      let (evaluations, r, s) =
        and_then-eq-some
          (evaluator_evaluate B air constraints r1.trace_polys domain.trace_primitive_root
            r1.lde_trace domain transition_coeffs boundary_coeffs r1.rap_challenges)
          _ q in
      commit_composition-HalvesCommitted
        (compute_composition_poly B evaluations domain.coset_offset) r2 s

module _ {F Tree AuthPath : Type 0} ⦃K : Field F⦄ (B : Backend F Tree AuthPath)
    (L : HasTransforms K B) (P : HasPaths B) (domain : Domain F)
    (coset : B.get_powers_of_primitive_root_coset
        (trailing_zeros 64 (size domain))
        (size domain)
        domain.coset_offset
      ≡ some domain.lde_roots_of_unity_coset)
    (i : ℕ) (x : F) (point : get_elem? domain.lde_roots_of_unity_coset i ≡ some x)
    (within : i < length domain.lde_roots_of_unity_coset) where
  path_accepted :
      (path : AuthPath) (leaf : F) (leaves : List F) (tree : Tree) (root : F)
      → B.build leaves ≡ tree
      → B.root tree ≡ root
      → get_elem? leaves i ≡ some leaf
      → B.get_proof_by_pos tree i ≡ some path
      → B.verify path root i leaf ≡ true
  path_accepted path leaf leaves tree root built rooted at given =
      ap (λ r. B.verify path r i leaf) (sym rooted ∙ ap B.root (sym built))
      ∙ P.verify-get_proof_by_pos leaves i leaf path at
          (ap (λ t. B.get_proof_by_pos t i) built ∙ given)

  pub open_deep_composition_poly-Honest :
      {RapChallenges : Type 0} (r1 : Round1 F Tree RapChallenges) (r2 : Round2 F Tree)
      (o : DeepPolynomialOpenings F AuthPath) (evals : List (List F))
      → new_from_cols evals ≡ some r1.lde_trace
      → TreesOf B domain r1.trace_polys evals r1.lde_trace_merkle_trees r1.lde_trace_merkle_roots
      → HalvesCommitted B domain r2
      → All (Fits domain) r1.trace_polys
      → Fits domain r2.composition_poly_even
      → Fits domain r2.composition_poly_odd
      → open_deep_composition_poly B domain r1 r2 i ≡ some o
      → Honest B domain i x r1 r2 o
  unfolding open_deep_composition_poly
  open_deep_composition_poly-Honest r1 r2 o evals table (made, trees, roots)
        (even_made, even_tree, even_root, odd_made, odd_tree, odd_root) fits even_fits odd_fits h =
      let in_range : i % length domain.lde_roots_of_unity_coset ≡ i = mod-eq_of_lt within in
      elim (if-cases (length domain.lde_roots_of_unity_coset == 0) _ _ h) [
        | inl (e, taken) ↦ absurd (cc)
        | inr (e, taken) ↦
            let opened = rw in_range at taken in
            let (even_proof, p₁, q₁) =
              and_then-eq-some (B.get_proof_by_pos r2.composition_poly_even_merkle_tree i) _
                opened in
            let (even, p₂, q₂) =
              and_then-eq-some (get_elem? r2.lde_composition_poly_even_evaluations i) _ q₁ in
            let (odd_proof, p₃, q₃) =
              and_then-eq-some (B.get_proof_by_pos r2.composition_poly_odd_merkle_tree i) _ q₂ in
            let (odd, p₄, q₄) =
              and_then-eq-some (get_elem? r2.lde_composition_poly_odd_evaluations i) _ q₃ in
            let (paths, p₅, q₅) =
              and_then-eq-some
                (traverse (λ tree. B.get_proof_by_pos tree i) r1.lde_trace_merkle_trees) _ q₄ in
            let (row, p₆, q₆) = and_then-eq-some (get_row r1.lde_trace i) _ q₅ in
            let in_table : i < size domain = omega (
              arith,
              L.length-get_powers_of_primitive_root_coset (trailing_zeros 64 (size domain))
                  (size domain) domain.coset_offset domain.lde_roots_of_unity_coset coset,
            ) in
            let row_at : traverse (λ col. get_elem? col i) evals ≡ some row =
              get_row-new_from_cols (size domain) evals r1.lde_trace i
                (lde_IsRectangular B L domain r1.trace_polys evals fits made) table in_table
              ∙ p₆ in
            subst (Honest B domain i x r1 r2) (some_injective q₆) (
              path_accepted even_proof even r2.lde_composition_poly_even_evaluations
                  r2.composition_poly_even_merkle_tree r2.composition_poly_even_root even_tree
                  even_root p₂ p₁,
              path_accepted odd_proof odd r2.lde_composition_poly_odd_evaluations
                  r2.composition_poly_odd_merkle_tree r2.composition_poly_odd_root odd_tree odd_root
                  p₄ p₃,
              ap (λ rs. verify_trace_openings B rs paths i row) (roots ∙ ap (map B.root) trees)
                  ∙ verify_trace_openings-get_proof_by_pos B L P domain coset i x point evals paths
                      row (ap (traverse (λ tree. B.get_proof_by_pos tree i)) (sym trees) ∙ p₅)
                      row_at,
              sym (
                  lde_value B L P domain coset i x point r2.composition_poly_even
                    r2.lde_composition_poly_even_evaluations even even_fits even_made p₂),
              sym (
                  lde_value B L P domain coset i x point r2.composition_poly_odd
                    r2.lde_composition_poly_odd_evaluations odd odd_fits odd_made p₄),
              lde_values B L P domain coset i x point r1.trace_polys evals row fits made row_at,
            )
      ]
