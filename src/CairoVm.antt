-- ===== src/CairoVm.antt =====
-- src/cairo_vm of the crate: instructions, memory, traces, and the execution trace table.
pub mod Words
pub mod Flags
pub mod Offsets
pub mod Memory
pub mod Trace
pub mod ExecutionTrace
