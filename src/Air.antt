-- ===== src/Air.antt =====
-- src/air: traces, frames, and the constraints on them.
pub mod TraceTable
pub mod Frame
pub mod Context
pub mod Boundary
pub mod Interface
pub mod Evaluator
pub mod Cairo
pub mod Example
