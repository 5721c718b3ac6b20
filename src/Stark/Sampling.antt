-- ===== src/Stark/Sampling.antt =====
-- Appending to the transcript and drawing from it in parts.
use native.Mathlib.Nat.{mul-suc}
use lambdaworks_cairo_prover.Prelude.{
  ℕ, zero, suc, ◌+◌, ◌*◌, ◌≡◌, refl, sym, ap, ap₂, ◌∙◌, arith, List, [], ◌∷◌, ◌++◌, length, take,
  drop, take-append_left, drop-append,
}
use lambdaworks_cairo_prover.Field.{Field}
use lambdaworks_cairo_prover.Transcript.{Transcript, transcript_to_field, batch_sample_challenges}
use lambdaworks_cairo_prover.Stark.Commitments.{append_all}
use lambdaworks_cairo_prover.Stark.Verifier.{sample_rows}

-- A list cut into `rows` lists of `width` elements.
abbrev pub chunks {ℓ} : {A : Type ℓ} → ℕ → ℕ → List A → List (List A)
chunks zero width xs = []
chunks (suc rows) width xs = take width xs ∷ chunks rows width (drop width xs)

pub length-batch_sample_challenges :
    {T : Type 0} (F : Type 0) ⦃K : Field F⦄ (S : Transcript T) (n : ℕ) (t : T)
    → length (batch_sample_challenges {F = F} S n t).0 ≡ n
unfolding batch_sample_challenges
length-batch_sample_challenges F S zero t = refl
length-batch_sample_challenges F S (suc n) t =
    ap suc (length-batch_sample_challenges F S n (transcript_to_field {F = F} S t).1)

module _ {F T : Type 0} ⦃K : Field F⦄ (S : Transcript T) where
  pub append_all-append :
      (xs ys : List F) (t : T) → append_all S (xs ++ ys) t ≡ append_all S ys (append_all S xs t)
  unfolding append_all
  append_all-append [] ys t = refl
  append_all-append (x ∷ xs) ys t = append_all-append xs ys (S.append (K.to_bytes_be x) t)

  pub batch_sample_challenges-add :
      (m n : ℕ) (t : T)
      → batch_sample_challenges {F = F} S (m + n) t ≡ (
          let (xs, t₁) = batch_sample_challenges {F = F} S m t in
          let (ys, t₂) = batch_sample_challenges {F = F} S n t₁ in (xs ++ ys, t₂))
  unfolding batch_sample_challenges
  batch_sample_challenges-add zero n t =
      ap (λ k. batch_sample_challenges {F = F} S k t) {x = 0 + n} {y = n} (omega arith)
  batch_sample_challenges-add (suc m) n t =
      let u = transcript_to_field {F = F} S t in
      ap (λ k. batch_sample_challenges {F = F} S k t) {x = suc m + n} {y = suc (m + n)}
        (omega arith)
      ∙ ap (λ (p : List F × T). (u.0 ∷ p.0, p.1)) (batch_sample_challenges-add m n u.1)

  -- Rows of challenges are the challenges in one batch, cut into rows.
  pub sample_rows-batch_sample_challenges :
      (rows width : ℕ) (t : T)
      → sample_rows {F = F} S rows width t ≡ (
          let (xs, t₁) = batch_sample_challenges {F = F} S (width * rows) t in
          (chunks rows width xs, t₁))
  unfolding sample_rows batch_sample_challenges
  sample_rows-batch_sample_challenges zero width t =
      ap (λ k. (let (xs, t₁) = batch_sample_challenges {F = F} S k t in (chunks zero width xs, t₁)))
        {x = 0} {y = width * 0} (omega arith)
  sample_rows-batch_sample_challenges (suc rows) width t =
      let u = batch_sample_challenges {F = F} S width t in
      let v = batch_sample_challenges {F = F} S (width * rows) u.1 in
      let long = length-batch_sample_challenges F S width t in
      let front : take width (u.0 ++ v.0) ≡ u.0 = take-append_left width u.0 v.0 (sym long) in
      let back : drop width (u.0 ++ v.0) ≡ v.0 =
        ap (λ n. drop n (u.0 ++ v.0)) (sym long) ∙ drop-append u.0 v.0 in
      let split : batch_sample_challenges {F = F} S (width * suc rows) t ≡ (u.0 ++ v.0, v.1) =
        ap (λ k. batch_sample_challenges {F = F} S k t) {x = width * suc rows}
          {y = width + width * rows} (omega (arith, mul-suc width rows))
        ∙ batch_sample_challenges-add width (width * rows) t in
      ap (λ (p : List (List F) × T). (u.0 ∷ p.0, p.1))
        (sample_rows-batch_sample_challenges rows width u.1)
      ∙ ap (λ (p : List F × List F). (p.0 ∷ chunks rows width p.1, v.1)) {x = (u.0, v.0)}
          {y = (take width (u.0 ++ v.0), drop width (u.0 ++ v.0))}
          (ap₂ (λ a b. (a, b)) (sym front) (sym back))
      ∙ ap (λ (p : List F × T). (chunks (suc rows) width p.0, p.1)) (sym split)
