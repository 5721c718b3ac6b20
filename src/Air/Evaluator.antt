-- ===== src/Air/Evaluator.antt =====
-- air/constraints/evaluator.rs: the random combination of the constraint evaluations at a point,
-- with the degree adjustments that evaluator.rs and verifier.rs compute for it.
use lambdaworks_cairo_prover.Prelude.{wrapping_sub, ℕ, ◌*◌, List, ◌∷◌, map}
use lambdaworks_cairo_prover.Field.{Field, ◌⊕◌, ◌⊗◌}
use lambdaworks_cairo_prover.Air.Context.{AirContext}

module _ {F : Type 0} ⦃K : Field F⦄ where
  -- The loop over the four zipped slices, which ends with the shortest of them.
  unfoldable pub sum_loop : F → List F → List F → List F → List (F × F) → F
  sum_loop ret (eval ∷ es) (inverse_denominator ∷ is) (degree_adjustment ∷ ds)
        ((alpha, beta) ∷ cs) =
      sum_loop (ret ⊕ eval ⊗ inverse_denominator ⊗ (alpha ⊗ degree_adjustment ⊕ beta)) es is ds cs
  sum_loop ret _ _ _ _ = ret

  unfoldable pub compute_constraint_composition_poly_evaluations_sum :
      List F → List F → List F → List (F × F) → F
  unfolding sum_loop
  compute_constraint_composition_poly_evaluations_sum evaluations inverse_denominators
        degree_adjustments constraint_coeffs =
      sum_loop K.zero evaluations inverse_denominators degree_adjustments constraint_coeffs

  -- The adjustments at the point `d`, one for each transition degree; `bound` is the degree bound
  -- of the composition polynomial.
  unfoldable pub degree_adjustments : AirContext → ℕ → F → List F
  degree_adjustments context bound d =
      map
        (λ transition_degree.
          K.pow d
            (wrapping_sub 64 bound (context.trace_length * wrapping_sub 64 transition_degree 1)))
        context.transition_degrees
