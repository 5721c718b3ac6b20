-- ===== src/Examples/Validation.antt =====
-- Validation of the Fibonacci trace, the columns of the Fibonacci RAP, and the domains of a proof, over the field of 17 elements.
use lambdaworks_cairo_prover.Prelude.{
  ℕ, zero, suc, ◌+◌, ◌<◌, ◌≤◌, ◌≡◌, ◌↔◌, ◌≢◌, refl, ap, arith, true, some, List, [], ◌∷◌, length,
  get_elem?, from_be_bytes, some_injective,
}
use lambdaworks_cairo_prover.Field.Zmod.{F17, f17, f17-HasInverses, zmod, reduce}
use lambdaworks_cairo_prover.Transcript.{transcript_to_field, sample_z_ood}
use lambdaworks_cairo_prover.Transcript.OutOfDomain.{draw, Outside, sample_z_ood_total}
use lambdaworks_cairo_prover.Air.TraceTable.{TraceTable, new_from_cols}
use lambdaworks_cairo_prover.Air.Example.Recurrences.{fibonacci_trace, fibonacci_rap_trace}
use lambdaworks_cairo_prover.Air.Example.Permuted.{
  Invertible, HasRunningProduct, rap_column-fibonacci_rap_trace,
}
use lambdaworks_cairo_prover.Air.Example.Airs.{fibonacci_air}
use lambdaworks_cairo_prover.Fri.Fold.{evaluate}
use lambdaworks_cairo_prover.Stark.Evaluator.{exemption_poly}
use lambdaworks_cairo_prover.Stark.Exemptions.{exemption_poly-zero}
use lambdaworks_cairo_prover.Stark.Validation.{validate_table}
use lambdaworks_cairo_prover.Stark.Satisfaction.{Satisfied, validate_table-Satisfied}
use lambdaworks_cairo_prover.Stark.ValidFibonacci.{validate_table-fibonacci_trace}
use lambdaworks_cairo_prover.Examples.Backend.{num, backend, backend-HasPolynomials, counter}
use lambdaworks_cairo_prover.Examples.Context.{context, air}

abbrev powers : List F17
powers = num 1 ∷ num 4 ∷ num 16 ∷ num 13 ∷ []

differ : (m n : ℕ) → num m ≡ num n → ((num m).0 ≡ (num n).0)
differ m n e = ap (λ (x : F17). x.0) e

third_only : (j : ℕ) → get_elem? powers j ≡ some (num 16) → j ≡ 2
unfolding f17 zmod reduce
third_only zero h = absurd (omega (arith, differ 1 16 (some_injective h)))
third_only (suc zero) h = absurd (omega (arith, differ 4 16 (some_injective h)))
third_only (suc (suc zero)) h = refl
third_only (suc (suc (suc zero))) h = absurd (omega (arith, differ 13 16 (some_injective h)))
third_only (suc (suc (suc (suc j)))) h = cc

exemption_poly-zero_example :
    (evaluate ⦃K = f17⦄ (exemption_poly ⦃K = f17⦄ backend powers 2) (num 16) ≡ f17.zero)
    ↔ (length powers ≤ 2 + 2)
exemption_poly-zero_example =
    exemption_poly-zero ⦃K = f17⦄ f17-HasInverses backend backend-HasPolynomials powers 2 2 (num 16)
      refl third_only

-- The challenges are the state of the transcript, which grows by five: 1, 6, and so on.
six-Outside : Outside ⦃K = f17⦄ counter (num 1 ∷ []) (num 1 ∷ []) (draw F17 ⦃K = f17⦄ counter 1 1).0
unfolding counter f17 zmod reduce transcript_to_field from_be_bytes
six-Outside = (
  (λ e. absurd (omega (arith, ap (λ (x : F17). x.0) e)), _),
  (λ e. absurd (omega (arith, ap (λ (x : F17). x.0) e)), _),
)

sample_z_ood_total_example :
    (k : ℕ) × (sample_z_ood ⦃K = f17⦄ counter 3 (num 1 ∷ []) (num 1 ∷ []) 1
      ≡ some (draw F17 ⦃K = f17⦄ counter k 1))
    × Outside ⦃K = f17⦄ counter (num 1 ∷ []) (num 1 ∷ []) (draw F17 ⦃K = f17⦄ counter k 1).0
    × ((j : ℕ)
        → j < k
        → ¬ Outside ⦃K = f17⦄ counter (num 1 ∷ []) (num 1 ∷ []) (draw F17 ⦃K = f17⦄ counter j 1).0)
sample_z_ood_total_example =
    sample_z_ood_total ⦃K = f17⦄ counter (num 1 ∷ []) (num 1 ∷ []) 3 1 1 (omega arith) six-Outside

abbrev table : TraceTable F17
table = record { table = num 1 ∷ num 1 ∷ num 2 ∷ num 3 ∷ []; n_cols = 1 }

validate_table-Satisfied_example :
    (validate_table ⦃K = f17⦄ air table _ _ ≡ some true) ↔ Satisfied ⦃K = f17⦄ air table _ _
validate_table-Satisfied_example = validate_table-Satisfied ⦃K = f17⦄ air table _ _

validate_table-fibonacci_trace_example :
    (t : TraceTable F17) × (new_from_cols (fibonacci_trace ⦃K = f17⦄ (f17.one, f17.one) (2 + 2))
      ≡ some t)
    × (validate_table ⦃K = f17⦄ (fibonacci_air ⦃K = f17⦄ {T = ℕ} context) t _ _ ≡ some true)
validate_table-fibonacci_trace_example =
    validate_table-fibonacci_trace ⦃K = f17⦄ ℕ context 2 refl refl refl

abbrev not_perm : List F17
not_perm = num 1 ∷ num 1 ∷ num 2 ∷ num 3 ∷ num 0 ∷ []

abbrev perm : List F17
perm = num 3 ∷ num 1 ∷ num 2 ∷ num 1 ∷ num 0 ∷ []

shifted-nonzero : (m : ℕ) → (f17.add (num m) (num 5)).0 ≢ 0 → f17.add (num m) (num 5) ≢ f17.zero
unfolding f17 zmod reduce
shifted-nonzero m ne e = ne (ap (λ (x : F17). x.0) e)

perm-Invertible : Invertible ⦃K = f17⦄ (num 5) perm
unfolding f17 zmod reduce
perm-Invertible = (
  shifted-nonzero 3 (λ e. absurd (omega (arith, e))),
  (
    shifted-nonzero 1 (λ e. absurd (omega (arith, e))),
    (
      shifted-nonzero 2 (λ e. absurd (omega (arith, e))),
      (
        shifted-nonzero 1 (λ e. absurd (omega (arith, e))),
        (shifted-nonzero 0 (λ e. absurd (omega (arith, e))), _),
      ),
    ),
  ),
)

four_rows : fibonacci_rap_trace ⦃K = f17⦄ (num 1, num 1) (suc 3) ≡ some (not_perm ∷ perm ∷ [])
unfolding f17 zmod reduce fibonacci_rap_trace
four_rows = refl

rap_column-fibonacci_rap_trace_example : HasRunningProduct ⦃K = f17⦄ (num 5) not_perm perm
rap_column-fibonacci_rap_trace_example =
    rap_column-fibonacci_rap_trace ⦃K = f17⦄ f17-HasInverses (num 5) (num 1) (num 1) 3 not_perm perm
      four_rows perm-Invertible
