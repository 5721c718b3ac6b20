-- ===== src/Examples/Fri.antt =====
-- FRI over the field of 17 elements: a polynomial of two coefficients in one layer.
use lambdaworks_cairo_prover.Prelude.{
  ℕ, ◌+◌, ◌≡◌, ◌≢◌, refl, ap, arith, Bool, true, List, [], ◌∷◌, some, get_or,
}
use lambdaworks_cairo_prover.Field.Zmod.{F17, f17, f17-HasInverses, zmod, reduce}
use lambdaworks_cairo_prover.Transcript.{Transcript}
use lambdaworks_cairo_prover.Fri.Fold.{
  evaluate, fold_polynomial, fold_value, fold_value-fold_polynomial,
}
use lambdaworks_cairo_prover.Fri.Commit.{
  FriLayer, FoldedBy, roots_of, fri_commit_phase, replay_commit_phase,
}
use lambdaworks_cairo_prover.Fri.Replay.{replay_commit_phase-fri_commit_phase}
use lambdaworks_cairo_prover.Fri.Query.{verify_layers, open_layers}
use lambdaworks_cairo_prover.Fri.Honest.{verify_layers-open_layers}

abbrev num : ℕ → F17
num n = f17.from n

abbrev poly : List F17
poly = num 1 ∷ num 2 ∷ []

two-nonzero : f17.from 2 ≢ f17.zero
unfolding f17 zmod reduce
two-nonzero e = absurd (omega (arith, ap (λ (x : F17). x.0) e))

fold_value-fold_polynomial_example :
    fold_value ⦃K = f17⦄
      (num 3)
      (num 2)
      (evaluate ⦃K = f17⦄ poly (num 2))
      (evaluate ⦃K = f17⦄ poly (f17.sub f17.zero (num 2)))
    ≡ evaluate ⦃K = f17⦄ (fold_polynomial ⦃K = f17⦄ poly (num 3)) (f17.mul (num 2) (num 2))
fold_value-fold_polynomial_example =
    fold_value-fold_polynomial ⦃K = f17⦄ f17-HasInverses poly (num 3) (num 2) two-nonzero
      two-nonzero

-- A transcript that counts what was appended, and trees that are their own evaluations.
abbrev transcript : Transcript ℕ
transcript = record {
  append = λ bytes t. t + 1;
  challenge = λ t. (t ∷ 0 ∷ 0 ∷ 0 ∷ 0 ∷ 0 ∷ 0 ∷ t ∷ [], t + 10);
}

abbrev values_at : List F17 → F17 → ℕ → List F17
values_at p offset size =
    evaluate ⦃K = f17⦄ p offset ∷ evaluate ⦃K = f17⦄ p (f17.sub f17.zero offset) ∷ []

abbrev build : List F17 → List F17
build values = values

abbrev root : List F17 → F17
root values = get_or values 0 (num 0)

replay_commit_phase-fri_commit_phase_example :
    (let (last_value, layers, t₁) =
        fri_commit_phase ⦃K = f17⦄ transcript values_at build root 2
          (num 1 ∷ num 2 ∷ num 3 ∷ [])
          5
          (num 3)
          8 in
      let (zetas, t₂) =
        replay_commit_phase ⦃K = f17⦄ transcript values_at build root
          (roots_of ⦃K = f17⦄ transcript values_at build root layers)
          last_value
          5 in
      (t₂ ≡ t₁) × FoldedBy ⦃K = f17⦄ layers zetas last_value)
replay_commit_phase-fri_commit_phase_example =
    replay_commit_phase-fri_commit_phase ⦃K = f17⦄ transcript values_at build root 2
      (num 1 ∷ num 2 ∷ num 3 ∷ []) 5 (num 3) 8

abbrev layer : FriLayer F17 (List F17)
layer = record {
  poly = poly;
  evaluation = [];
  merkle_tree = [];
  coset_offset = num 3;
  domain_size = 8;
}

abbrev accept : ℕ → F17 → ℕ → F17 → Bool
accept path merkle_root index value = true

verify_layers-open_layers_example :
    verify_layers ⦃K = f17⦄ accept 3
      (get_or (fold_polynomial ⦃K = f17⦄ poly (num 3)) 0 f17.zero)
      1
      0
      (num 4 ∷ [])
      (0 ∷ [])
      (open_layers ⦃K = f17⦄ (layer ∷ []) (num 2))
      (num 3 ∷ [])
      (evaluate ⦃K = f17⦄ poly (num 2))
      (num 2)
    ≡ some true
verify_layers-open_layers_example =
    verify_layers-open_layers ⦃K = f17⦄ f17-HasInverses two-nonzero accept 3 1
      (get_or (fold_polynomial ⦃K = f17⦄ poly (num 3)) 0 f17.zero) [] layer 0 (num 4 ∷ []) (0 ∷ [])
      (num 3 ∷ []) (evaluate ⦃K = f17⦄ poly (num 2)) (num 2) refl (refl, _) (omega arith)
      two-nonzero refl
