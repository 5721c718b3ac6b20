-- ===== src/Transcript.antt =====
-- lib.rs: challenges drawn from the Fiat-Shamir transcript of lambdaworks-crypto. Its state, `append`
-- and `challenge` are parameters; a challenge has 32 bytes.
pub mod OutOfDomain
use lambdaworks_cairo_prover.Prelude.{
  ℕ, zero, suc, Bool, false, ◌||◌, Option, none, some, List, [], ◌∷◌, take, from_be_bytes,
  if◌then◌else◌,
}
use lambdaworks_cairo_prover.Field.{Field}

pub record Transcript (T : Type 0) : Type 0 where
  pub append : List ℕ → T → T
  pub challenge : T → List ℕ × T

module _ {F T : Type 0} ⦃K : Field F⦄ (S : Transcript T) where
  unfoldable pub transcript_to_field : T → F × T
  transcript_to_field t =
      let (bytes, t') = S.challenge t in (K.from (from_be_bytes 0 (take 8 bytes)), t')

  unfoldable pub batch_sample_challenges : ℕ → T → List F × T
  unfolding transcript_to_field
  batch_sample_challenges zero t = ([], t)
  batch_sample_challenges (suc size) t =
      let (value, t₁) = transcript_to_field t in
      let (values, t₂) = batch_sample_challenges size t₁ in (value ∷ values, t₂)

  unfoldable pub any_equal : F → List F → Bool
  any_equal value [] = false
  any_equal value (x ∷ xs) = K.beq x value || any_equal value xs

  -- The loop, of at most `fuel` rounds.
  unfoldable pub sample_z_ood : ℕ → List F → List F → T → Option (F × T)
  unfolding transcript_to_field any_equal
  sample_z_ood zero lde_roots_of_unity_coset trace_roots_of_unity t = none
  sample_z_ood (suc fuel) lde_roots_of_unity_coset trace_roots_of_unity t =
      let (value, t') = transcript_to_field t in
      let again = sample_z_ood fuel lde_roots_of_unity_coset trace_roots_of_unity t' in
      if any_equal value lde_roots_of_unity_coset || any_equal value trace_roots_of_unity
      then again
      else some (value, t')

-- `transcript_to_usize`, for a word of eight bytes.
unfoldable pub transcript_to_usize : {T : Type 0} → Transcript T → T → ℕ × T
transcript_to_usize S t = let (bytes, t') = S.challenge t in (from_be_bytes 0 (take 8 bytes), t')
