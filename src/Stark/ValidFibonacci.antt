-- ===== src/Stark/ValidFibonacci.antt =====
-- The trace of air/example/simple_fibonacci.rs, and the validation of air/debug.rs.
use native.Mathlib.Nat.{mod-lt, mod-eq_of_lt}
use lambdaworks_cairo_prover.Prelude.{
  ℕ, zero, suc, ◌+◌, ◌-◌, ◌*◌, ◌%◌, ◌<◌, ◌≤◌, ◌≡◌, ◌⊎◌, refl, sym, ap, ap₂, ◌∙◌, arith, Bool-cases,
  inl, inr, true, ltb, ltb→lt, leb, Option, some, List, [], ◌∷◌, length, drop, get_elem?,
  get_elem?_total, slice, range_from, traverse, flat_traverse, and_then, ◌&&◌, some_injective, ◌==◌,
  false,
}
use lambdaworks_cairo_prover.Field.{Field, ◌⊕◌, ◌⊖◌}
use lambdaworks_cairo_prover.Field.Ring.{var, nil, ◌⊞◌, ◌⊟◌, ring, agree}
use lambdaworks_cairo_prover.Air.TraceTable.{TraceTable, n_rows, new_from_cols, get, get_row}
use lambdaworks_cairo_prover.Air.Frame.{read_from_trace, frame_row}
use lambdaworks_cairo_prover.Air.Context.{AirContext}
use lambdaworks_cairo_prover.Air.Interface.{Air}
use lambdaworks_cairo_prover.Air.Example.Recurrences.{
  fibonacci_from, fibonacci_column, fibonacci_trace,
}
use lambdaworks_cairo_prover.Air.Example.Airs.{fibonacci_air, fibonacci_constraint, frame_cell}
use lambdaworks_cairo_prover.Stark.Validation.{exemption_steps, evaluations_at, validate_table}
use lambdaworks_cairo_prover.Stark.Satisfaction.{validate_table-Satisfied}

module _ {F : Type 0} where
  abbrev single : List F → TraceTable F
  single xs = record { table = xs; n_cols = 1 }

  drop-get_elem? :
      (xs : List F) (i : ℕ) (x : F)
      → get_elem? xs i ≡ some x
      → (rest : List F) × (drop i xs ≡ x ∷ rest) × (i < length xs)
  drop-get_elem? [] i x h = cc
  drop-get_elem? (y ∷ xs) zero x h = (xs, ap (λ v. v ∷ xs) (some_injective h), omega arith)
  drop-get_elem? (y ∷ xs) (suc i) x h =
      let (rest, e, lt) = drop-get_elem? xs i x h in (rest, e, omega arith)

  get_row-single :
      (xs : List F) (i : ℕ) (x : F)
      → get_elem? xs i ≡ some x
      → get_row (single xs) i ≡ some (x ∷ [])
  unfolding get_row slice
  get_row-single xs i x h =
      let (rest, e, lt) = drop-get_elem? xs i x h in
      let fits : (leb (i * 1) (i * 1 + 1) && leb (i * 1 + 1) (length xs)) ≡ true = ground arith in
      let one : i * 1 + 1 - i * 1 ≡ 1 = omega arith in
      let same : i * 1 ≡ i = omega arith in rw (fits, one, same, e) refl

  flat_behind :
      (f : ℕ → Option (List F)) (start : ℕ) (xs : List F)
      → ((i : ℕ) → f (start + i) ≡ and_then (get_elem? xs i) λ v. some (v ∷ []))
      → flat_traverse f (range_from start (length xs)) ≡ some xs
  flat_behind f start [] h = refl
  flat_behind f start (x ∷ xs) h =
      let first : f start ≡ some (x ∷ []) = ap f {x = start} {y = start + 0} (omega arith) ∙ h 0 in
      rw
        (
          first,
          flat_behind f (suc start) xs
              (λ i. ap f {x = suc start + i} {y = start + suc i} (omega arith) ∙ h (suc i)),
        )
        refl

  new_from_cols-single : (xs : List F) → new_from_cols (xs ∷ []) ≡ some (single xs)
  unfolding new_from_cols
  new_from_cols-single xs =
      ap (λ o. and_then o λ table. some (single table))
        (flat_behind (λ row_idx. traverse (λ col. get_elem? col row_idx) (xs ∷ [])) 0 xs
          (λ i.
            ap (λ j. traverse (λ (col : List F). get_elem? col j) (xs ∷ [])) {x = 0 + i} {y = i}
              (omega arith)))

ltb-false→le : (a b : ℕ) → ltb a b ≡ false → b ≤ a
ltb-false→le a b h = ground arith

exemption_two : (m : ℕ) → exemption_steps (m + 2) 1 (2 ∷ []) ≡ some (m ∷ [])
unfolding exemption_steps
exemption_two m =
    let test : ltb (m + 2) 2 ≡ false = ground arith in
    let less : m + 2 - 2 ≡ m = omega arith in rw (test, less) refl

module _ {F : Type 0} ⦃K : Field F⦄ where
  fibonacci_column-step :
      (a b : F) (n i : ℕ) (x y z : F)
      → get_elem? (a ∷ b ∷ fibonacci_from a b n) i ≡ some x
      → get_elem? (a ∷ b ∷ fibonacci_from a b n) (suc i) ≡ some y
      → get_elem? (a ∷ b ∷ fibonacci_from a b n) (suc (suc i)) ≡ some z
      → z ≡ y ⊕ x
  unfolding fibonacci_from
  fibonacci_column-step a b zero zero x y z hx hy hz = cc
  fibonacci_column-step a b zero (suc i) x y z hx hy hz = cc
  fibonacci_column-step a b (suc n) zero x y z hx hy hz =
      sym (some_injective hz) ∙ ap₂ (λ u v. u ⊕ v) (some_injective hy) (some_injective hx)
  fibonacci_column-step a b (suc n) (suc i) x y z hx hy hz =
      fibonacci_column-step b (b ⊕ a) n i x y z hx hy hz

  constraint_value :
      (x y z : F)
      → fibonacci_constraint (record { data_rows = x ∷ y ∷ z ∷ []; row_width = 1 }) 0
        ≡ some (z ⊖ y ⊖ x)
  unfolding fibonacci_constraint frame_cell frame_row slice
  constraint_value x y z = refl

  read_frame :
      (xs : List F) (step : ℕ) (x y z : F)
      → 0 < length xs
      → get_elem? xs ((step + 0 * 1) % length xs) ≡ some x
      → get_elem? xs ((step + 1 * 1) % length xs) ≡ some y
      → get_elem? xs ((step + 2 * 1) % length xs) ≡ some z
      → read_from_trace (single xs) step 1 (0 ∷ 1 ∷ 2 ∷ [])
        ≡ some (record { data_rows = x ∷ y ∷ z ∷ []; row_width = 1 })
  unfolding read_from_trace
  read_frame xs step x y z pos hx hy hz =
      let rows : n_rows (single xs) ≡ length xs = omega arith in
      let test : (length xs == 0) ≡ false = ground arith in
      rw
        (
          rows,
          test,
          get_row-single xs ((step + 0 * 1) % length xs) x hx,
          get_row-single xs ((step + 1 * 1) % length xs) y hy,
          get_row-single xs ((step + 2 * 1) % length xs) z hz,
        )
        refl

  length-fibonacci_from : (a b : F) (m : ℕ) → length (fibonacci_from a b m) ≡ m
  unfolding fibonacci_from
  length-fibonacci_from a b zero = refl
  length-fibonacci_from a b (suc m) = ap suc (length-fibonacci_from b (b ⊕ a) m)

  -- The column of the Fibonacci sequence with n + 2 values.
  abbrev column : ℕ → List F
  column n = K.one ∷ K.one ∷ fibonacci_from K.one K.one n

  -- At each row the constraint evaluates, to zero before the last two.
  column_row :
      (n step : ℕ)
      → step < n + 2
      → (x y z : F) × (read_from_trace (single (column n)) step 1 (0 ∷ 1 ∷ 2 ∷ [])
          ≡ some (record { data_rows = x ∷ y ∷ z ∷ []; row_width = 1 }))
        × ((n ≤ step) ⊎ (z ⊖ y ⊖ x ≡ K.zero))
  unfolding agree
  column_row n step h =
      let xs = column n in
      let len : length xs ≡ n + 2 = omega (arith, length-fibonacci_from K.one K.one n) in
      let pos : 0 < length xs = omega (arith, len) in
      let (x, px) = get_elem?_total xs ((step + 0 * 1) % length xs) (mod-lt _ pos) in
      let (y, py) = get_elem?_total xs ((step + 1 * 1) % length xs) (mod-lt _ pos) in
      let (z, pz) = get_elem?_total xs ((step + 2 * 1) % length xs) (mod-lt _ pos) in
      (
        x,
        y,
        z,
        read_frame xs step x y z pos px py pz,
        elim (Bool-cases (ltb step n)) [
          | inr e ↦ inl (ltb-false→le step n e)
          | inl e ↦
              let lt = ltb→lt step n e in
              let at = λ (k : ℕ) (k' : ℕ) (same : step + k * 1 ≡ k') (lt' : k' < length xs).
                ap (λ m. m % length xs) same ∙ mod-eq_of_lt lt' in
              let hx =
                ap (get_elem? xs) (sym (at 0 step (omega arith) (omega (arith, len, lt)))) ∙ px in
              let hy =
                ap (get_elem? xs) (sym (at 1 (suc step) (omega arith) (omega (arith, len, lt))))
                ∙ py in
              let hz =
                ap (get_elem? xs)
                  (sym (at 2 (suc (suc step)) (omega arith) (omega (arith, len, lt))))
                ∙ pz in
              inr (
                ap (λ v. v ⊖ y ⊖ x) (fibonacci_column-step K.one K.one n step x y z hx hy hz)
                ∙ (let X = var 0 in let Y = var 1 in ring (x ∷ y ∷ []) (Y ⊞ X ⊟ Y ⊟ X) nil refl))
        ],
      )

  -- For a context with the offsets 0, 1 and 2 and one constraint that is exempted from two rows: the
  -- table made of the trace of n + 2 values that starts with two ones passes the validation for the
  -- Fibonacci AIR, so it meets its boundary constraints, and its transition constraint at each row.
  pub validate_table-fibonacci_trace :
      (T : Type 0) (context : AirContext) (n : ℕ)
      → context.transition_offsets ≡ 0 ∷ 1 ∷ 2 ∷ []
      → context.transition_exemptions ≡ 2 ∷ []
      → context.num_transition_constraints ≡ 1
      → (table : TraceTable F) × (new_from_cols (fibonacci_trace (K.one, K.one) (n + 2))
          ≡ some table)
        × (validate_table (fibonacci_air {T = T} context) table _ _ ≡ some true)
  unfolding fibonacci_trace fibonacci_column fibonacci_air evaluations_at get
  validate_table-fibonacci_trace T context n offsets exemptions constraints =
      let air : Air F (List (List F)) Unit Unit T = fibonacci_air {T = T} context in
      let table = single (column n) in
      let long : n_rows table ≡ n + 2 = omega (arith, length-fibonacci_from K.one K.one n) in
      let steps : exemption_steps (n_rows table) context.num_transition_constraints
            context.transition_exemptions
          ≡ some (n ∷ []) =
        ap₂ (λ c e. exemption_steps (n_rows table) c e) constraints exemptions
        ∙ ap (λ r. exemption_steps r 1 (2 ∷ [])) long
        ∙ exemption_two n in
      (
        table,
        ap (λ m. new_from_cols ((K.one ∷ K.one ∷ fibonacci_from K.one K.one m) ∷ []))
              {x = n + 2 - 2} {y = n} (omega arith)
            ∙ new_from_cols-single (column n),
        (validate_table-Satisfied air table _ _).1 (
          _,
          n ∷ [],
          refl,
          (refl, (refl, _)),
          steps,
          λ step lt.
              (let (x, y, z, read, held) = column_row n step (omega (arith, long, lt)) in
                (
                  (z ⊖ y ⊖ x) ∷ [],
                  ap
                        (λ o. and_then (read_from_trace table step 1 o) λ frame.
                          and_then (fibonacci_constraint frame 0)
                            λ constraint. some (constraint ∷ []))
                        offsets
                      ∙ ap
                          (λ o. and_then o λ frame.
                            and_then (fibonacci_constraint frame 0)
                              λ constraint. some (constraint ∷ []))
                          read
                      ∙ ap (λ o. and_then o λ constraint. some (constraint ∷ []))
                          (constraint_value x y z),
                  ((n, refl, held), _),
                )),
        ),
      )
