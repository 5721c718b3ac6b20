-- ===== src/Stark/HonestQueries.antt =====
-- The queries of FRI (fri/mod.rs) on honest layers, and the verifier's loop over them (verifier.rs).
use lambdaworks_cairo_prover.Prelude.{
  ℕ, suc, ◌^◌, ◌≤◌, ◌<◌, ◌≡◌, ◌≢◌, refl, subst, arith, inl, inr, true, some, Option, List, [], ◌∷◌,
  map, All, length, get_elem?, some_injective, ◌==◌, traverse, and_then-eq-some, if-cases,
}
use lambdaworks_cairo_prover.Field.{Field, HasInverses, ◌⊗◌}
use lambdaworks_cairo_prover.Field.Laws.{zero_product}
use lambdaworks_cairo_prover.Transcript.{Transcript}
use lambdaworks_cairo_prover.Fri.Commit.{FriLayer, FoldedBy}
use lambdaworks_cairo_prover.Fri.Query.{
  FriDecommitment, PathsAccepted, verify_query_and_sym_openings,
}
use lambdaworks_cairo_prover.Fri.QueryPhase.{
  open_layer, open_symmetric, open_query, sample_iotas, fri_query_phase,
}
use lambdaworks_cairo_prover.Fri.Honest.{verify_layers-open_layers}
use lambdaworks_cairo_prover.Stark.Backend.{Backend, HasTransforms, HasRoots, HasPaths}
use lambdaworks_cairo_prover.Stark.Layers.{Layered, root_power-nonzero}
use lambdaworks_cairo_prover.Stark.Openings.{sample_iotas-bound}
use lambdaworks_cairo_prover.Stark.Steps.{verify_queries}
use lambdaworks_cairo_prover.Stark.HonestLayers.{roots_of_layers, open_layer_lem, openings_lem}

-- What the query phase opens, and where.
pub fri_query_phase-opened :
    {F Tree AuthPath T : Type 0} (S : Transcript T) (get_proof_by_pos : Tree → ℕ → Option AuthPath)
    (n domain_size : ℕ) (first : FriLayer F Tree) (layers : List (FriLayer F Tree)) (t t' : T)
    (query_list : List (FriDecommitment F AuthPath)) (iota_0 : ℕ) (iotas : List ℕ)
    → 0 < domain_size
    → fri_query_phase S get_proof_by_pos n domain_size (first ∷ layers) t
      ≡ some (query_list, iota_0, iotas, t')
    → All (λ i. i < domain_size) iotas
      × (traverse (open_query S get_proof_by_pos first (first ∷ layers)) iotas ≡ some query_list)
unfolding fri_query_phase
fri_query_phase-opened {F} {Tree} {AuthPath} {T} S get_proof_by_pos n domain_size first layers t t'
      query_list iota_0 iotas pos h =
    elim (if-cases (domain_size == 0) _ _ h) [
      | inl (e, taken) ↦ absurd (cc)
      | inr (e, taken) ↦
          let drawn = sample_iotas S domain_size n t in
          let (queries, p, q) =
            and_then-eq-some
              (traverse (open_query S get_proof_by_pos first (first ∷ layers)) drawn.0) _ taken in
          let (i, r, s) = and_then-eq-some (get_elem? drawn.0 0) _ q in
          subst
            (λ (v : List (FriDecommitment F AuthPath) × ℕ × List ℕ × T).
              All (λ i. i < domain_size) v.2
              × (traverse (open_query S get_proof_by_pos first (first ∷ layers)) v.2 ≡ some v.0))
            (some_injective s) (sample_iotas-bound S domain_size n t pos, p)
    ]

module _ {F Tree AuthPath T : Type 0} ⦃K : Field F⦄ (V : HasInverses K)
    (B : Backend F Tree AuthPath) (L : HasTransforms K B) (R : HasRoots K B) (P : HasPaths B)
    (S : Transcript T) where
  point-nonzero :
      (order i : ℕ) (offset w : F)
      → B.get_primitive_root_of_unity (suc order) ≡ some w
      → i < 2 ^ suc order
      → offset ≢ K.zero
      → offset ⊗ K.pow w i ≢ K.zero
  point-nonzero order i offset w root within ne e = elim (zero_product V offset (K.pow w i) e) [
    | inl z ↦ ne z
    | inr z ↦ root_power-nonzero V B L R order i w root within z
  ]

  module _ (two : K.from 2 ≢ K.zero) (order coset_offset : ℕ) (w last : F) (zetas : List F)
      (first : FriLayer F Tree) (layers : List (FriLayer F Tree)) (small : suc order < 64)
      (root : B.get_primitive_root_of_unity (suc order) ≡ some w)
      (offset : K.from coset_offset ≢ K.zero)
      (made : Layered B (suc order) (K.from coset_offset) (first ∷ layers))
      (folds : FoldedBy (first ∷ layers) zetas last)
      (short : length first.poly ≤ 2 ^ suc (length layers)) where
    -- A query of the prover is accepted.
    query_lem :
        (i : ℕ) (d : FriDecommitment F AuthPath)
        → i < 2 ^ suc order
        → open_query S B.get_proof_by_pos first (first ∷ layers) i ≡ some d
        → verify_query_and_sym_openings B.verify
            (suc order)
            coset_offset
            w
            (roots_of_layers V B L R P S (first ∷ layers))
            last
            zetas
            i
            d
          ≡ some true
    unfolding open_query verify_query_and_sym_openings
    query_lem i d within h =
        let point = K.from coset_offset ⊗ K.pow w i in
        let (o, p, q) = and_then-eq-some (open_layer S B.get_proof_by_pos first i) _ h in
        let (openings, r, s) =
          and_then-eq-some (traverse (open_symmetric S B.get_proof_by_pos i) (first ∷ layers)) _
            q in
        let (value, path) =
          open_layer_lem V B L R P S (suc order) (K.from coset_offset) w first i o small root made.0
            within p in
        let (values, paths) =
          openings_lem V B L R P S (suc order) (suc order) 0 i (K.from coset_offset) w
            (first ∷ layers) openings (omega arith) small (λ o e. root) made r in
        let accepted =
          verify_layers-open_layers V two B.verify (suc order) i last layers first 0
            (roots_of_layers V B L R P S (first ∷ layers))
            (map (λ (o : F × AuthPath). o.1) openings) zetas o.0 point folds
            (subst
              (PathsAccepted B.verify (suc order) i 0 (roots_of_layers V B L R P S (first ∷ layers))
                (map (λ (o : F × AuthPath). o.1) openings))
              values paths)
            short (point-nonzero order i (K.from coset_offset) w root within offset) value in
        subst
          (λ d.
            verify_query_and_sym_openings B.verify (suc order) coset_offset w
              (roots_of_layers V B L R P S (first ∷ layers)) last zetas i d
            ≡ some true)
          (some_injective s) (rw (path, values) accepted)

    pub queries_lem :
        (iotas : List ℕ) (query_list : List (FriDecommitment F AuthPath))
        → All (λ i. i < 2 ^ suc order) iotas
        → traverse (open_query S B.get_proof_by_pos first (first ∷ layers)) iotas ≡ some query_list
        → verify_queries B
            (suc order)
            coset_offset
            w
            (roots_of_layers V B L R P S (first ∷ layers))
            last
            zetas
            query_list
            iotas
            true
          ≡ some true
    unfolding verify_queries
    queries_lem [] [] within h = refl
    queries_lem [] (d ∷ query_list) within h = refl
    queries_lem (i ∷ iotas) query_list (within, withins) h =
        let (d, p, q) =
          and_then-eq-some (open_query S B.get_proof_by_pos first (first ∷ layers) i) _ h in
        let (ds, r, s) =
          and_then-eq-some (traverse (open_query S B.get_proof_by_pos first (first ∷ layers)) iotas)
            _ q in
        subst
          (λ query_list.
            verify_queries B (suc order) coset_offset w
              (roots_of_layers V B L R P S (first ∷ layers)) last zetas query_list (i ∷ iotas) true
            ≡ some true)
          (some_injective s) (rw (query_lem i d within p) (queries_lem iotas ds withins r))
