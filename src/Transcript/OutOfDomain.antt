-- ===== src/Transcript/OutOfDomain.antt =====
-- lib.rs, `sample_z_ood`: the challenge outside both domains.
use lambdaworks_cairo_prover.Prelude.{
  ℕ, zero, suc, ◌<◌, ◌≡◌, ◌≢◌, ◌↔◌, refl, sym, arith, Bool, true, false, ◌||◌, Bool-cases, inl, inr,
  some, List, [], ◌∷◌, All,
}
use lambdaworks_cairo_prover.Field.{Field}
use lambdaworks_cairo_prover.Transcript.{Transcript, transcript_to_field, any_equal, sample_z_ood}

or-eq-false : (a b : Bool) → ((a || b) ≡ false) ↔ ((a ≡ false) × (b ≡ false))
or-eq-false true b = (λ h. cc, λ h. cc)
or-eq-false false b = (λ h. (refl, h), λ h. h.1)

module _ {F T : Type 0} ⦃K : Field F⦄ (S : Transcript T) where
  any_equal-All :
      (value : F) (xs : List F) → (any_equal S value xs ≡ false) ↔ All (λ x. value ≢ x) xs
  unfolding any_equal
  any_equal-All value [] = (λ h. _, λ h. refl)
  any_equal-All value (x ∷ xs) =
      let ih = any_equal-All value xs in
      let either = or-eq-false (K.beq x value) (any_equal S value xs) in
      (
        λ h. (
          λ e. let t = (K.beq_iff x value).1 (sym e) in let f = (either.0 h).0 in cc,
          ih.0 (either.0 h).1,
        ),
        λ h. either.1 (
          elim (Bool-cases (K.beq x value)) [
            | inl e ↦ absurd (h.0 (sym ((K.beq_iff x value).0 e)))
            | inr e ↦ e
          ],
          ih.1 h.1,
        ),
      )

module _ (F : Type 0) {T : Type 0} ⦃K : Field F⦄ (S : Transcript T) where
  -- The challenge that the transcript gives after `n` challenges, and the transcript it leaves.
  abbrev pub draw : ℕ → T → F × T
  draw zero t = transcript_to_field S t
  draw (suc n) t = draw n (transcript_to_field {F = F} S t).1

module _ {F T : Type 0} ⦃K : Field F⦄ (S : Transcript T) (lde trace : List F) where
  abbrev pub Outside : F → Type 0
  Outside z = All (λ x. z ≢ x) lde × All (λ x. z ≢ x) trace

  test-Outside : (z : F) → ((any_equal S z lde || any_equal S z trace) ≡ false) ↔ Outside z
  test-Outside z =
      let either = or-eq-false (any_equal S z lde) (any_equal S z trace) in
      (
        λ e. ((any_equal-All S z lde).0 (either.0 e).0, (any_equal-All S z trace).0 (either.0 e).1),
        λ o. either.1 ((any_equal-All S z lde).1 o.0, (any_equal-All S z trace).1 o.1),
      )

  -- If the first challenge is inside, so are those before the first one outside after it.
  earlier :
      (k : ℕ) (t : T)
      → ¬ Outside (draw F S 0 t).0
      → ((j : ℕ) → j < k → ¬ Outside (draw F S j (draw F S 0 t).1).0)
      → (j : ℕ) → j < suc k
      → ¬ Outside (draw F S j t).0
  earlier k t inside r zero lt = inside
  earlier k t inside r (suc j) lt = r j (omega arith)

  -- The search for z ends: if one of the challenges that the transcript gives within the fuel is in
  -- neither domain, then sample_z_ood returns, and its result is the first such challenge with the
  -- transcript that is left after it.
  pub sample_z_ood_total :
      (fuel n : ℕ) (t : T)
      → n < fuel
      → Outside (draw F S n t).0
      → (k : ℕ) × (sample_z_ood S fuel lde trace t ≡ some (draw F S k t))
        × Outside (draw F S k t).0
        × ((j : ℕ) → j < k → ¬ Outside (draw F S j t).0)
  unfolding sample_z_ood
  sample_z_ood_total zero n t h out = absurd (omega arith)
  sample_z_ood_total (suc fuel) zero t h out =
      (0, rw ((test-Outside (draw F S 0 t).0).1 out) refl, out, λ j lt. absurd (omega arith))
  sample_z_ood_total (suc fuel) (suc n) t h out =
      let value = (draw F S 0 t).0 in
      elim (Bool-cases (any_equal S value lde || any_equal S value trace)) [
        | inr e ↦ (0, rw e refl, (test-Outside value).0 e, λ j lt. absurd (omega arith))
        | inl e ↦
            let (k, p, q, r) = sample_z_ood_total fuel n (draw F S 0 t).1 (omega arith) out in
            let inside : ¬ Outside value = λ o. let f = (test-Outside value).1 o in cc in
            (suc k, rw e p, q, earlier k t inside r)
      ]
