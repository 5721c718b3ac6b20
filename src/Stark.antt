-- ===== src/Stark.antt =====
-- The proof: its domains, the rounds of the prover (prover.rs) and the steps of the verifier
-- (verifier.rs).
pub mod Backend
pub mod Proof
pub mod EvaluationTable
pub mod Evaluator
pub mod Exemptions
pub mod Validation
pub mod Satisfaction
pub mod ValidFibonacci
pub mod Commitments
pub mod Rounds
pub mod Prove
pub mod Verifier
pub mod Reconstruct
pub mod Steps
pub mod Sampling
pub mod Committed
pub mod OpenedFrame
pub mod Sessions
pub mod Replay
pub mod Recovered
pub mod RoundFour
pub mod DeepTerms
pub mod Deep
pub mod DeepParts
pub mod DeepValue
pub mod Accepted
pub mod Consistent
pub mod CommittedTrees
pub mod Openings
pub mod HonestOpenings
pub mod Layers
pub mod HonestLayers
pub mod HonestQueries
pub mod StepThree
pub mod StepFour
pub mod HonestVerify
