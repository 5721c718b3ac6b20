-- ===== src/Air/Cairo.antt =====
-- air/cairo_air/air.rs: the Cairo AIR.
pub mod Columns
pub mod Constraints
pub mod Instruction
pub mod Operands
pub mod Completeness
pub mod PublicInputs
pub mod MainTrace
pub mod Auxiliary
pub mod Degrees
pub mod Permutation
pub mod Cells
pub mod Memory
pub mod MissingValues
pub mod Sorting
pub mod Registers
pub mod NextRow
