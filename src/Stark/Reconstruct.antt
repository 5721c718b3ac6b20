-- ===== src/Stark/Reconstruct.antt =====
-- verifier.rs: the value of the DEEP polynomial from the openings of the proof.
use lambdaworks_cairo_prover.Prelude.{ℕ, suc, Option, some, List, ◌∷◌, get_elem?, and_then}
use lambdaworks_cairo_prover.Field.{Field, ◌⊕◌, ◌⊖◌, ◌⊗◌, ◌⊘◌}
use lambdaworks_cairo_prover.Air.Frame.{Frame, num_rows, num_columns, frame_row}
use lambdaworks_cairo_prover.Stark.Proof.{StarkProof}
use lambdaworks_cairo_prover.Stark.Verifier.{Challenges}

module _ {F : Type 0} ⦃K : Field F⦄ where
  -- The terms of one column in `reconstruct_deep_composition_poly_evaluation`: the rows from
  -- `row_idx` on, `rows` of them, and their coefficients.
  unfoldable pub column_terms : Frame F → F → F → F → F → ℕ → ℕ → ℕ → List F → F → Option F
  unfolding frame_row
  column_terms frame upsilon_0 z primitive_root opened col_idx row_idx (suc rows) (coeff ∷ coeffs)
        trace_terms =
      and_then (frame_row frame row_idx) λ row. and_then (get_elem? row col_idx) λ value.
        let poly_evaluation = (opened ⊖ value) ⊘ (upsilon_0 ⊖ z ⊗ K.pow primitive_root row_idx) in
        column_terms frame upsilon_0 z primitive_root opened col_idx (suc row_idx) rows coeffs
          (trace_terms ⊕ poly_evaluation ⊗ coeff)
  column_terms frame upsilon_0 z primitive_root opened col_idx row_idx _ _ trace_terms =
      some trace_terms

  -- The columns from `col_idx` on, `columns` of them, and their rows of coefficients; the column is
  -- opened only where it has a term.
  unfoldable pub all_columns_terms :
      Frame F → F → F → F → List F → ℕ → ℕ → List (List F) → F → Option F
  unfolding column_terms
  all_columns_terms frame upsilon_0 z primitive_root opened col_idx (suc columns)
        (coeff_row ∷ coeff_rows) trace_terms =
      and_then (get_elem? opened col_idx) λ value.
        and_then
          (column_terms frame upsilon_0 z primitive_root value col_idx 0 (num_rows frame) coeff_row
            trace_terms)
          λ trace_terms'.
            all_columns_terms frame upsilon_0 z primitive_root opened (suc col_idx) columns
              coeff_rows trace_terms'
  all_columns_terms frame upsilon_0 z primitive_root opened col_idx _ _ trace_terms =
      some trace_terms

  unfoldable pub reconstruct_deep_composition_poly_evaluation :
      {AuthPath RapChallenges : Type 0}
      → F
      → F
      → StarkProof F AuthPath
      → Challenges F RapChallenges
      → Option F
  unfolding all_columns_terms
  reconstruct_deep_composition_poly_evaluation primitive_root upsilon_0 proof challenges =
      let frame = proof.trace_ood_frame_evaluations in
      let openings = proof.deep_poly_openings in
      and_then
        (all_columns_terms frame upsilon_0 challenges.z primitive_root
          openings.lde_trace_evaluations 0 (num_columns frame) challenges.trace_term_coeffs K.zero)
        λ trace_terms.
          let z_squared = challenges.z ⊗ challenges.z in
          let h_1_term =
            (openings.lde_composition_poly_even_evaluation
              ⊖ proof.composition_poly_even_ood_evaluation)
            ⊘ (upsilon_0 ⊖ z_squared) in
          let h_2_term =
            (openings.lde_composition_poly_odd_evaluation
              ⊖ proof.composition_poly_odd_ood_evaluation)
            ⊘ (upsilon_0 ⊖ z_squared) in
          some (trace_terms ⊕ h_1_term ⊗ challenges.gamma_even ⊕ h_2_term ⊗ challenges.gamma_odd)
