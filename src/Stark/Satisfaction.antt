-- ===== src/Stark/Satisfaction.antt =====
-- What the validation of a trace decides.
use lambdaworks_cairo_prover.Prelude.{
  ℕ, zero, suc, ◌+◌, ◌<◌, ◌≤◌, ◌≡◌, ◌↔◌, ◌⊎◌, inl, inr, refl, sym, ap, subst, ◌∙◌, arith, Bool,
  true, false, not, ◌&&◌, Bool-cases, some, List, [], ◌∷◌, All, and_then, and_then-eq-some,
  some_injective, ltb, ltb→lt, get_elem?,
}
use lambdaworks_cairo_prover.Field.{Field}
use lambdaworks_cairo_prover.Air.TraceTable.{TraceTable, n_rows, get}
use lambdaworks_cairo_prover.Air.Boundary.{BoundaryConstraint, BoundaryConstraints}
use lambdaworks_cairo_prover.Air.Interface.{Air}
use lambdaworks_cairo_prover.Stark.Validation.{
  check_boundary, check_evaluations, exemption_steps, evaluations_at, check_rows, validate_table,
}

and-eq-true : (a b : Bool) → ((a && b) ≡ true) ↔ ((a ≡ true) × (b ≡ true))
and-eq-true true b = (λ h. (refl, h), λ h. h.1)
and-eq-true false b = (λ h. cc, λ h. cc)

ltb-false→le : (a b : ℕ) → ltb a b ≡ false → b ≤ a
ltb-false→le a b h = ground arith

false-ne-true : ◌≡◌ {A = Bool} false true → ⊥
false-ne-true h = cc

module _ {F : Type 0} ⦃K : Field F⦄ where
  -- Each constrained cell has its value.
  abbrev pub BoundaryHolds : TraceTable F → List (BoundaryConstraint F) → Type 0
  BoundaryHolds trace constraints =
      All (λ (c : BoundaryConstraint F). get trace c.step c.col ≡ some c.value) constraints

  -- Each evaluation from the `i`th on is zero, or its constraint is exempted from the row.
  abbrev pub Vanishes : ℕ → List ℕ → ℕ → List F → Type 0
  Vanishes step steps i [] = Unit
  Vanishes step steps i (eval ∷ evaluations) =
      ((k : ℕ) × (get_elem? steps i ≡ some k) × ((k ≤ step) ⊎ (eval ≡ K.zero)))
      × Vanishes step steps (suc i) evaluations

  check_boundary-BoundaryHolds :
      (trace : TraceTable F) (cs : List (BoundaryConstraint F)) (ret : Bool)
      → (check_boundary trace cs ret ≡ some true) ↔ ((ret ≡ true) × BoundaryHolds trace cs)
  unfolding check_boundary
  check_boundary-BoundaryHolds trace [] ret = (λ h. (some_injective h, _), λ h. ap some h.0)
  check_boundary-BoundaryHolds trace (c ∷ cs) ret = (
    λ h.
        (let (v, p, q) = and_then-eq-some (get trace c.step c.col) _ h in
          let (r, rest) = (check_boundary-BoundaryHolds trace cs (ret && K.beq c.value v)).0 q in
          let (r', e) = (and-eq-true ret (K.beq c.value v)).0 r in
          (r', (p ∙ ap some (sym ((K.beq_iff c.value v).0 e)), rest))),
    λ (r, (here, rest)).
        (let both =
            (and-eq-true ret (K.beq c.value c.value)).1 (r, (K.beq_iff c.value c.value).1 refl) in
          ap (λ o. and_then o λ v. check_boundary trace cs (ret && K.beq c.value v)) here
          ∙ (check_boundary-BoundaryHolds trace cs (ret && K.beq c.value c.value)).1 (both, rest)),
  )

  exempt_or_zero :
      (step k : ℕ) (eval : F)
      → (not (ltb step k && not (K.beq eval K.zero)) ≡ true) ↔ ((k ≤ step) ⊎ (eval ≡ K.zero))
  exempt_or_zero step k eval = elim (Bool-cases (ltb step k)) [
    | inr e ↦ (λ h. inl (ltb-false→le step k e), λ h. rw e refl)
    | inl e ↦ elim (Bool-cases (K.beq eval K.zero)) [
      | inl z ↦ (λ h. inr ((K.beq_iff eval K.zero).0 z), λ h. rw (e, z) refl)
      | inr z ↦ (
        λ h. absurd (false-ne-true (rw (e, z) at h)),
        λ h. elim h [
          | inl le ↦ absurd (omega (arith, le, ltb→lt step k e))
          | inr zero_eval ↦ let t = (K.beq_iff eval K.zero).1 zero_eval in cc
        ],
      )
    ]
  ]

  check_evaluations-Vanishes :
      (step : ℕ) (steps : List ℕ) (i : ℕ) (evals : List F) (ret : Bool)
      → (check_evaluations step steps i evals ret ≡ some true)
        ↔ ((ret ≡ true) × Vanishes step steps i evals)
  unfolding check_evaluations
  check_evaluations-Vanishes step steps i [] ret = (λ h. (some_injective h, _), λ h. ap some h.0)
  check_evaluations-Vanishes step steps i (eval ∷ evals) ret =
      let test = λ (k : ℕ). not (ltb step k && not (K.beq eval K.zero)) in
      (
        λ h.
            (let (k, p, q) = and_then-eq-some (get_elem? steps i) _ h in
              let (r, rest) =
                (check_evaluations-Vanishes step steps (suc i) evals (ret && test k)).0 q in
              let (r', e) = (and-eq-true ret (test k)).0 r in
              (r', ((k, p, (exempt_or_zero step k eval).0 e), rest))),
        λ (r, ((k, p, e), rest)).
            (let both = (and-eq-true ret (test k)).1 (r, (exempt_or_zero step k eval).1 e) in
              ap (λ o. and_then o λ k'. check_evaluations step steps (suc i) evals (ret && test k'))
                p
              ∙ (check_evaluations-Vanishes step steps (suc i) evals (ret && test k)).1
                  (both, rest)),
      )

module _ {F RawTrace RapChallenges PublicInput T : Type 0} ⦃K : Field F⦄
    (air : Air F RawTrace RapChallenges PublicInput T) (trace : TraceTable F)
    (rap_challenges : RapChallenges) where
  -- The transition constraints hold at a row: they evaluate, and each is zero or exempted.
  abbrev pub RowHolds : List ℕ → ℕ → Type 0
  RowHolds steps step =
      (evaluations : List F) × (evaluations_at air trace rap_challenges step ≡ some evaluations)
      × Vanishes step steps 0 evaluations

  all_rows :
      (steps : List ℕ) (step n : ℕ)
      → RowHolds steps step
      → ((i : ℕ) → i < n → RowHolds steps (suc step + i))
      → (i : ℕ) → i < suc n
      → RowHolds steps (step + i)
  all_rows steps step n here rest zero lt =
      subst (RowHolds steps) {x = step} {y = step + 0} (omega arith) here
  all_rows steps step n here rest (suc i) lt =
      subst (RowHolds steps) {x = suc step + i} {y = step + suc i} (omega arith)
        (rest i (omega arith))

  check_rows-RowHolds :
      (steps : List ℕ) (n step : ℕ) (ret : Bool)
      → (check_rows air trace rap_challenges steps step n ret ≡ some true)
        ↔ ((ret ≡ true) × ((i : ℕ) → i < n → RowHolds steps (step + i)))
  unfolding check_rows
  check_rows-RowHolds steps zero step ret =
      (λ h. (some_injective h, λ i lt. absurd (omega arith)), λ h. ap some h.0)
  check_rows-RowHolds steps (suc n) step ret = (
    λ h.
        (let (evals, p, q) = and_then-eq-some (evaluations_at air trace rap_challenges step) _ h in
          let (ret', p', q') = and_then-eq-some (check_evaluations step steps 0 evals ret) _ q in
          let (r, rest) = (check_rows-RowHolds steps n (suc step) ret').0 q' in
          let (r', v) = (check_evaluations-Vanishes step steps 0 evals ret).0 (p' ∙ ap some r) in
          (r', all_rows steps step n (evals, p, v) rest)),
    λ (r, rows).
        (let (evals, p, v) =
            subst (RowHolds steps) {x = step + 0} {y = step} (omega arith) (rows 0 (omega arith)) in
          let rest = (check_rows-RowHolds steps n (suc step) true).1 (
            refl,
            λ i lt.
                subst (RowHolds steps) {x = step + suc i} {y = suc step + i} (omega arith)
                  (rows (suc i) (omega arith)),
          ) in
          ap
            (λ o. and_then o λ evals'.
              and_then (check_evaluations step steps 0 evals' ret)
                λ ret'. check_rows air trace rap_challenges steps (suc step) n ret')
            p
          ∙ ap (λ o. and_then o λ ret'. check_rows air trace rap_challenges steps (suc step) n ret')
              ((check_evaluations-Vanishes step steps 0 evals ret).1 (r, v))
          ∙ rest),
  )

  -- The trace meets every constraint: the boundary constraints evaluate and hold, and at each row the
  -- transition constraints do.
  abbrev pub Satisfied : PublicInput → Type 0
  Satisfied public_input =
      (boundary : BoundaryConstraints F) × (steps : List ℕ) × (air.boundary_constraints
          rap_challenges public_input
        ≡ some boundary)
      × BoundaryHolds trace boundary.constraints
      × (exemption_steps (n_rows trace) air.context.num_transition_constraints
            air.context.transition_exemptions
          ≡ some steps)
      × ((step : ℕ) → step < n_rows trace → RowHolds steps step)

  -- The validation of a trace decides its constraints: it returns true exactly when every boundary
  -- constraint holds, and at every row each transition constraint evaluates to zero or is exempted
  -- from the row, which it is from the number of rows less its exemptions on.
  pub validate_table-Satisfied :
      (public_input : PublicInput)
      → (validate_table air trace public_input rap_challenges ≡ some true) ↔ Satisfied public_input
  unfolding validate_table
  validate_table-Satisfied public_input = (
    λ h.
        (let (boundary, p, q) =
            and_then-eq-some (air.boundary_constraints rap_challenges public_input) _ h in
          let (ret, p₁, q₁) =
            and_then-eq-some (check_boundary trace boundary.constraints true) _ q in
          let (steps, p₂, q₂) =
            and_then-eq-some
              (exemption_steps (n_rows trace) air.context.num_transition_constraints
                air.context.transition_exemptions)
              _ q₁ in
          let (r, rows) = (check_rows-RowHolds steps (n_rows trace) 0 ret).0 q₂ in
          let holds =
            (check_boundary-BoundaryHolds trace boundary.constraints true).0 (p₁ ∙ ap some r) in
          (
            boundary,
            steps,
            p,
            holds.1,
            p₂,
            λ step lt.
                subst (RowHolds steps) {x = 0 + step} {y = step} (omega arith) (rows step lt),
          )),
    λ (boundary, steps, p, holds, p₂, rows).
        ap
          (λ o. and_then o λ b. and_then (check_boundary trace b.constraints true) λ ret.
            and_then
              (exemption_steps (n_rows trace) air.context.num_transition_constraints
                air.context.transition_exemptions)
              λ s. check_rows air trace rap_challenges s 0 (n_rows trace) ret)
          p
        ∙ ap
            (λ o. and_then o λ ret.
              and_then
                (exemption_steps (n_rows trace) air.context.num_transition_constraints
                  air.context.transition_exemptions)
                λ s. check_rows air trace rap_challenges s 0 (n_rows trace) ret)
            ((check_boundary-BoundaryHolds trace boundary.constraints true).1 (refl, holds))
        ∙ ap (λ o. and_then o λ s. check_rows air trace rap_challenges s 0 (n_rows trace) true) p₂
        ∙ (check_rows-RowHolds steps (n_rows trace) 0 true).1 (
          refl,
          λ step lt. subst (RowHolds steps) {x = step} {y = 0 + step} (omega arith) (rows step lt),
        ),
  )
