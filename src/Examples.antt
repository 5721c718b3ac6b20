-- ===== src/Examples.antt =====
-- The theorems at concrete inputs, over the Stark field and the field of 17 elements.
mod Decoding
mod Import
mod Tables
mod Steps
mod Auxiliary
mod Fri
mod Columns
pub mod Polynomials
pub mod Backend
pub mod Context
pub mod Transforms
pub mod Session
pub mod SessionBounds
mod Proofs
mod Queries
mod Binding
mod Validation
mod Runs
