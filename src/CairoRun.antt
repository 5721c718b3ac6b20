-- ===== src/CairoRun.antt =====
-- src/cairo_run: runs of the third-party virtual machine, and the buffers that take what it encodes.
pub mod Layout
pub mod Writers
pub mod Run
pub mod Contents
pub mod Loaded
