-- ===== src/Stark/Proof.antt =====
-- proof.rs: the proof that the prover sends.
use lambdaworks_cairo_prover.Prelude.{List}
use lambdaworks_cairo_prover.Air.Frame.{Frame}
use lambdaworks_cairo_prover.Fri.Query.{FriDecommitment}

pub record DeepPolynomialOpenings (F AuthPath : Type 0) : Type 0 where
  pub lde_composition_poly_even_proof : AuthPath
  pub lde_composition_poly_even_evaluation : F
  pub lde_composition_poly_odd_proof : AuthPath
  pub lde_composition_poly_odd_evaluation : F
  pub lde_trace_merkle_proofs : List AuthPath
  pub lde_trace_evaluations : List F

pub record StarkProof (F AuthPath : Type 0) : Type 0 where
  pub lde_trace_merkle_roots : List F
  pub trace_ood_frame_evaluations : Frame F
  pub composition_poly_even_root : F
  pub composition_poly_even_ood_evaluation : F
  pub composition_poly_odd_root : F
  pub composition_poly_odd_ood_evaluation : F
  pub fri_layers_merkle_roots : List F
  pub fri_last_value : F
  pub query_list : List (FriDecommitment F AuthPath)
  pub deep_poly_openings : DeepPolynomialOpenings F AuthPath
