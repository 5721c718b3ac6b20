-- ===== src/Stark/DeepParts.antt =====
-- The DEEP polynomial of the prover at a point, part by part.
use lambdaworks_cairo_prover.Prelude.{
  ℕ, zero, suc, ◌+◌, ◌<◌, ◌≡◌, ◌≢◌, refl, sym, ap, ap₂, ◌∙◌, arith, some, List, [], ◌∷◌, ◌++◌, map,
  drop, ◌*◌, length, length-map, All, range_from, range, length-range_from, and_then,
}
use lambdaworks_cairo_prover.Field.{Field, HasInverses, ◌⊕◌, ◌⊖◌, ◌⊗◌, ◌⊘◌}
use lambdaworks_cairo_prover.Field.Laws.{mul-zero, sub_self}
use lambdaworks_cairo_prover.Field.Ring.{var, ◌⊞◌, ◌⊠◌, ring, agree}
use lambdaworks_cairo_prover.Air.Frame.{frame_row, num_columns, get_trace_evaluations}
use lambdaworks_cairo_prover.Air.Interface.{Air}
use lambdaworks_cairo_prover.Fri.Fold.{evaluate}
use lambdaworks_cairo_prover.Stark.Backend.{Backend, HasPolynomials}
use lambdaworks_cairo_prover.Stark.Rounds.{
  Round2, Round3, compute_deep_composition_poly, deep_trace_terms,
}
use lambdaworks_cairo_prover.Stark.Sampling.{chunks}
use lambdaworks_cairo_prover.Stark.Proof.{StarkProof}
use lambdaworks_cairo_prover.Stark.Verifier.{Challenges}
use lambdaworks_cairo_prover.Stark.Reconstruct.{
  all_columns_terms, reconstruct_deep_composition_poly_evaluation,
}
use lambdaworks_cairo_prover.Stark.OpenedFrame.{frame_of, frame_row-frame_of, num_rows-frame_of}
use lambdaworks_cairo_prover.Stark.Recovered.{get_trace_evaluations-wide}
use lambdaworks_cairo_prover.Stark.DeepTerms.{evaluate-constant, evaluate-quotient}
use lambdaworks_cairo_prover.Stark.Deep.{all_columns_terms-deep_trace_terms}

module _ {F : Type 0} ⦃K : Field F⦄ (polys : List (List F)) (z root : F) where
  abbrev row_at : ℕ → List F
  row_at k = map (λ p. evaluate p (z ⊗ K.pow root k)) polys

  -- The rows of the frame before the row `k`, and those after it.
  split_at :
      (n k start : ℕ)
      → k < n
      → (pre : List (List F)) × (rest : List (List F)) × (get_trace_evaluations evaluate polys z
            (range_from start n)
            root
          ≡ pre ++ (row_at (start + k) ∷ rest))
        × (k ≡ length pre)
        × All (λ (row : List F). length row ≡ length polys) pre
  unfolding get_trace_evaluations
  split_at zero k start h = absurd (omega arith)
  split_at (suc n) zero start h = (
    [],
    get_trace_evaluations evaluate polys z (range_from (suc start) n) root,
    ap (λ j. row_at j ∷ get_trace_evaluations evaluate polys z (range_from (suc start) n) root)
        {x = start} {y = start + 0} (omega arith),
    refl,
    _,
  )
  split_at (suc n) (suc k) start h =
      let (pre, rest, e, long, wide) = split_at n k (suc start) (omega arith) in
      (
        row_at start ∷ pre,
        rest,
        ap (λ l. row_at start ∷ l) e
            ∙ ap (λ j. row_at start ∷ (pre ++ (row_at j ∷ rest))) {x = suc start + k}
                {y = start + suc k} (omega arith),
        ap suc long,
        (length-map polys _, wide),
      )

  length-get_trace_evaluations :
      (offsets : List ℕ)
      → length (get_trace_evaluations evaluate polys z offsets root) ≡ length offsets
  unfolding get_trace_evaluations
  length-get_trace_evaluations offsets = length-map _ _ ∙ length-map offsets _

  frame_rows :
      (n k : ℕ)
      → k < n
      → frame_row
          (frame_of (get_trace_evaluations evaluate polys z (range n) root) (length polys))
          k
        ≡ some (row_at k)
  frame_rows n k h =
      let (pre, rest, e, long, wide) = split_at n k 0 h in
      frame_row-frame_of (get_trace_evaluations evaluate polys z (range n) root) pre rest (row_at k)
        (length polys) k wide (length-map polys _)
        (e ∙ ap (λ j. pre ++ (row_at j ∷ rest)) {x = 0 + k} {y = k} (omega arith)) long

module _ {F Tree AuthPath : Type 0} ⦃K : Field F⦄ (V : HasInverses K) (B : Backend F Tree AuthPath)
    (P : HasPolynomials K B) where
  -- A term of the composition polynomial: `value` is that of `h` at `b`.
  composition_term :
      (h : List F) (gamma b x value : F)
      → value ≡ evaluate h b
      → x ≢ b
      → (evaluate h x ⊖ value) ⊘ (x ⊖ b) ⊗ gamma
        ≡ evaluate (B.ruffini_division (B.poly_mul (gamma ∷ []) (B.poly_sub h (value ∷ []))) b) x
  unfolding agree
  composition_term h gamma b x value at ne =
      let p = B.poly_mul (gamma ∷ []) (B.poly_sub h (value ∷ [])) in
      let less : (y : F) → evaluate p y ≡ gamma ⊗ (evaluate h y ⊖ value) = λ y.
        P.evaluate-poly_mul (gamma ∷ []) (B.poly_sub h (value ∷ [])) y
        ∙ ap₂ (λ a b. a ⊗ b) (evaluate-constant V B P gamma y)
            (P.evaluate-poly_sub h (value ∷ []) y
              ∙ ap (λ v. evaluate h y ⊖ v) (evaluate-constant V B P value y)) in
      let root =
        less b
        ∙ ap (λ v. gamma ⊗ (evaluate h b ⊖ v)) at
        ∙ ap (λ v. gamma ⊗ v) (sub_self (evaluate h b))
        ∙ mul-zero gamma in
      let y = evaluate h x ⊖ value in
      let i = K.inv (x ⊖ b) in
      ap (λ v. v ⊗ gamma) (K.div_def y (x ⊖ b))
      ∙ (let Y = var 0 in
          let I = var 1 in let G = var 2 in ring (y ∷ i ∷ gamma ∷ []) (Y ⊠ I ⊠ G) (G ⊠ Y ⊠ I) refl)
      ∙ sym (K.div_def (gamma ⊗ y) (x ⊖ b))
      ∙ ap (λ v. v ⊘ (x ⊖ b)) (sym (less x))
      ∙ evaluate-quotient V B P p b x root ne

  module _ {RawTrace RapChallenges PublicInput T : Type 0}
      (air : Air F RawTrace RapChallenges PublicInput T) where
    -- The values of the third round, on the offsets 0 .. n - 1.
    abbrev pub third_round : List (List F) → Round2 F Tree → F → F → ℕ → Round3 F
    third_round polys r2 z root n = record {
      trace_ood_evaluations = get_trace_evaluations evaluate polys z (range n) root;
      composition_poly_even_ood_evaluation = evaluate r2.composition_poly_even (z ⊗ z);
      composition_poly_odd_ood_evaluation = evaluate r2.composition_poly_odd (z ⊗ z);
    }

    -- The polynomial is there, and its value is that of the terms that the verifier adds up.
    pub deep_value :
        (polys : List (List F)) (r2 : Round2 F Tree) (z root x : F) (n : ℕ) (gamma gamma_p : F)
        (coefficients : List F)
        → air.context.transition_offsets ≡ range n
        → 0 < length polys
        → x ≢ z ⊗ z
        → ((k : ℕ) → k < n → x ≢ z ⊗ K.pow root k)
        → (deep : List F) × (terms : F) × (compute_deep_composition_poly B air polys r2
              (third_round polys r2 z root n)
              z
              root
              (gamma, gamma_p)
              coefficients
            ≡ some deep)
          × (all_columns_terms
                (frame_of (get_trace_evaluations evaluate polys z (range n) root) (length polys))
                x
                z
                root
                (map (λ p. evaluate p x) polys)
                0
                (length polys)
                (chunks (length polys) n coefficients)
                K.zero
              ≡ some terms)
          × (terms
                ⊕ (evaluate r2.composition_poly_even x ⊖ evaluate r2.composition_poly_even (z ⊗ z))
                  ⊘ (x ⊖ z ⊗ z)
                  ⊗ gamma
                ⊕ (evaluate r2.composition_poly_odd x ⊖ evaluate r2.composition_poly_odd (z ⊗ z))
                  ⊘ (x ⊖ z ⊗ z)
                  ⊗ gamma_p
              ≡ evaluate deep x)
    unfolding compute_deep_composition_poly agree
    deep_value polys r2 z root x n gamma gamma_p coefficients offsets pos ne outside =
        let rows = get_trace_evaluations evaluate polys z (range n) root in
        let even = r2.composition_poly_even in
        let odd = r2.composition_poly_odd in
        let h_1 =
          B.ruffini_division
            (B.poly_mul (gamma ∷ []) (B.poly_sub even (evaluate even (z ⊗ z) ∷ []))) (z ⊗ z) in
        let h_2 =
          B.ruffini_division
            (B.poly_mul (gamma_p ∷ []) (B.poly_sub odd (evaluate odd (z ⊗ z) ∷ []))) (z ⊗ z) in
        let count =
          num_rows-frame_of rows (length polys) pos
            (get_trace_evaluations-wide polys z (range n) root)
          ∙ length-get_trace_evaluations polys z root (range n)
          ∙ length-range_from 0 n in
        let (acc, p, q) =
          all_columns_terms-deep_trace_terms V B P air polys z root x n
            (frame_of rows (length polys)) (frame_rows polys z root n) count outside
            (length-get_trace_evaluations polys z root (range n) ∙ length-range_from 0 n) polys [] 0
            coefficients [] K.zero refl refl refl in
        let a = evaluate acc x in
        let b = evaluate h_1 x in
        let c = evaluate h_2 x in
        (
          B.poly_add (B.poly_add h_1 h_2) acc,
          a,
          ap
                (λ o.
                  and_then (deep_trace_terms B air 0 polys z root rows o coefficients [])
                    λ terms. some (B.poly_add (B.poly_add h_1 h_2) terms))
                offsets
              ∙ ap (λ o. and_then o λ terms. some (B.poly_add (B.poly_add h_1 h_2) terms)) p,
          ap
                (λ l.
                  all_columns_terms (frame_of rows (length polys)) x z root
                    (map (λ p. evaluate p x) polys) 0 (length polys) (chunks (length polys) n l)
                    K.zero)
                (ap (λ m. drop m coefficients) {x = 0} {y = 0 * n} (omega arith))
              ∙ q,
          ap₂ (λ u v. a ⊕ u ⊕ v) (composition_term even gamma (z ⊗ z) x _ refl ne)
                (composition_term odd gamma_p (z ⊗ z) x _ refl ne)
              ∙ (let A = var 0 in
                  let B' = var 1 in
                  let C = var 2 in ring (a ∷ b ∷ c ∷ []) (A ⊞ B' ⊞ C) (B' ⊞ C ⊞ A) refl)
              ∙ ap (λ u. u ⊕ a) (sym (P.evaluate-poly_add h_1 h_2 x))
              ∙ sym (P.evaluate-poly_add (B.poly_add h_1 h_2) acc x),
        )

  pub reconstruct-parts :
      {RapChallenges : Type 0} (root x terms : F) (proof : StarkProof F AuthPath)
      (c : Challenges F RapChallenges)
      → all_columns_terms proof.trace_ood_frame_evaluations x c.z root
          proof.deep_poly_openings.lde_trace_evaluations 0
          (num_columns proof.trace_ood_frame_evaluations)
          c.trace_term_coeffs
          K.zero
        ≡ some terms
      → reconstruct_deep_composition_poly_evaluation root x proof c
        ≡ some (
            terms
            ⊕ (proof.deep_poly_openings.lde_composition_poly_even_evaluation
                ⊖ proof.composition_poly_even_ood_evaluation)
              ⊘ (x ⊖ c.z ⊗ c.z)
              ⊗ c.gamma_even
            ⊕ (proof.deep_poly_openings.lde_composition_poly_odd_evaluation
                ⊖ proof.composition_poly_odd_ood_evaluation)
              ⊘ (x ⊖ c.z ⊗ c.z)
              ⊗ c.gamma_odd)
  unfolding reconstruct_deep_composition_poly_evaluation
  reconstruct-parts root x terms proof c h = rw h refl
