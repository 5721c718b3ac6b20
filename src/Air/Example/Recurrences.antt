-- ===== src/Air/Example/Recurrences.antt =====
-- src/air/example: the traces of the example AIRs. A loop over a vector that reads the values it has
-- pushed last carries these values.
use lambdaworks_cairo_prover.Prelude.{
  ℕ, zero, suc, ◌-◌, Option, some, none, List, [], ◌∷◌, ◌++◌, replicate, set, get_elem?, and_then,
}
use lambdaworks_cairo_prover.Field.{Field, ◌⊕◌, ◌⊗◌}

module _ {F : Type 0} ⦃K : Field F⦄ where
  -- The values that the loop pushes after `before` and `last`, `n` of them.
  unfoldable pub fibonacci_from : F → F → ℕ → List F
  fibonacci_from before last zero = []
  fibonacci_from before last (suc n) = (last ⊕ before) ∷ fibonacci_from last (last ⊕ before) n

  -- `2..trace_length` is empty below 2.
  unfoldable pub fibonacci_column : F × F → ℕ → List F
  unfolding fibonacci_from
  fibonacci_column (a, b) trace_length = a ∷ b ∷ fibonacci_from a b (trace_length - 2)

  unfoldable pub fibonacci_trace : F × F → ℕ → List (List F)
  unfolding fibonacci_column
  fibonacci_trace initial_values trace_length = fibonacci_column initial_values trace_length ∷ []

  -- The two columns after the values `a` and `b`.
  unfoldable pub fibonacci_pairs_from : F → F → ℕ → List F × List F
  fibonacci_pairs_from a b zero = ([], [])
  fibonacci_pairs_from a b (suc n) =
      let new_val = a ⊕ b in
      let (ret1, ret2) = fibonacci_pairs_from new_val (new_val ⊕ b) n in
      (new_val ∷ ret1, (new_val ⊕ b) ∷ ret2)

  unfoldable pub fibonacci_trace_2_columns : F × F → ℕ → List (List F)
  unfolding fibonacci_pairs_from
  fibonacci_trace_2_columns (a, b) trace_length =
      let (ret1, ret2) = fibonacci_pairs_from a b (trace_length - 1) in (a ∷ ret1) ∷ (b ∷ ret2) ∷ []

  unfoldable pub squares_from : F → ℕ → List F
  squares_from last zero = []
  squares_from last (suc n) = (last ⊗ last) ∷ squares_from (last ⊗ last) n

  unfoldable pub quadratic_trace : F → ℕ → List F
  unfolding squares_from
  quadratic_trace initial_value trace_length =
      initial_value ∷ squares_from initial_value (trace_length - 1)

  unfoldable pub dummy_trace : ℕ → List (List F)
  unfolding fibonacci_column
  dummy_trace trace_length =
      replicate trace_length K.one ∷ fibonacci_column (K.one, K.one) trace_length ∷ []

  -- The first and the last value change places in the second column, and both get a 0 at the end;
  -- a length of 0 is a panic, as is one beyond the values.
  unfoldable pub fibonacci_rap_trace : F × F → ℕ → Option (List (List F))
  unfolding fibonacci_column
  fibonacci_rap_trace initial_values zero = none
  fibonacci_rap_trace initial_values (suc n) =
      let fib_seq = fibonacci_column initial_values (suc n) in
      and_then (get_elem? fib_seq n) λ last_value.
        let fib_permuted = set (set fib_seq 0 last_value) n initial_values.0 in
        some ((fib_seq ++ (K.zero ∷ [])) ∷ (fib_permuted ++ (K.zero ∷ [])) ∷ [])
