-- ===== src/Fri.antt =====
-- src/fri and the part of src/verifier.rs that replays and checks it.
pub mod Fold
pub mod Commit
pub mod Replay
pub mod Query
pub mod Honest
pub mod QueryPhase
