-- ===== src/Stark/Consistent.antt =====
-- What the verifier (verifier.rs) rules out: the values that an accepted proof opens are those of the
-- columns that its roots commit to, and they agree with the first layer of FRI.
use lambdaworks_cairo_prover.Prelude.{ℕ, ◌≡◌, true, some, List, [], ◌∷◌, get_elem?, traverse}
use lambdaworks_cairo_prover.Field.{Field, ◌⊕◌, ◌⊗◌}
use lambdaworks_cairo_prover.Transcript.{Transcript}
use lambdaworks_cairo_prover.Air.Interface.{Air}
use lambdaworks_cairo_prover.Stark.Backend.{Backend, Domain}
use lambdaworks_cairo_prover.Stark.Proof.{StarkProof}
use lambdaworks_cairo_prover.Stark.Reconstruct.{reconstruct_deep_composition_poly_evaluation}
use lambdaworks_cairo_prover.Stark.Verifier.{Challenges}
use lambdaworks_cairo_prover.Stark.Steps.{composition_poly_ood_evaluation, verify}

module _ {F Tree AuthPath : Type 0} ⦃K : Field F⦄ (B : Backend F Tree AuthPath) where
  -- The path opens the tree of the leaves at no other value than the leaf itself.
  abbrev pub Binds : AuthPath → List F → Type 0
  Binds path leaves =
      (i : ℕ) (value : F)
      → B.verify path (B.root (B.build leaves)) i value ≡ true
      → get_elem? leaves i ≡ some value

  -- One path for each column, which binds it.
  abbrev pub AllBind : List AuthPath → List (List F) → Type 0
  AllBind [] [] = Unit
  AllBind (path ∷ paths) (column ∷ columns) = Binds path column × AllBind paths columns
  AllBind _ _ = ⊥

  abbrev pub root_of_leaves : List F → F
  root_of_leaves leaves = B.root (B.build leaves)

  module _ {RawTrace RapChallenges PublicInput T : Type 0}
      (air : Air F RawTrace RapChallenges PublicInput T) where
    -- The columns of the trace, both parts of the composition polynomial and the first layer of FRI,
    -- as they are committed, against the proof.
    pub record Consistent (proof : StarkProof F AuthPath) (domain : Domain F)
        (public_input : PublicInput) (challenges : Challenges F RapChallenges)
        (columns : List (List F)) (even odd first : List F) : Type 0 where
      pub iota_0 : ℕ
      pub primitive_root : F
      pub upsilon_0 : F
      pub drawn : get_elem? challenges.iotas 0 ≡ some iota_0
      pub root : B.get_primitive_root_of_unity domain.root_order ≡ some primitive_root
      pub point : get_elem? domain.lde_roots_of_unity_coset iota_0 ≡ some upsilon_0
      pub composed :
          composition_poly_ood_evaluation B air proof domain public_input challenges
          ≡ some (
              proof.composition_poly_even_ood_evaluation
              ⊕ challenges.z ⊗ proof.composition_poly_odd_ood_evaluation)
      pub row :
          traverse (λ column. get_elem? column iota_0) columns
          ≡ some proof.deep_poly_openings.lde_trace_evaluations
      pub even_value :
          get_elem? even iota_0 ≡ some proof.deep_poly_openings.lde_composition_poly_even_evaluation
      pub odd_value :
          get_elem? odd iota_0 ≡ some proof.deep_poly_openings.lde_composition_poly_odd_evaluation
      pub first_value :
          get_elem? first iota_0
          ≡ reconstruct_deep_composition_poly_evaluation primitive_root upsilon_0 proof challenges
