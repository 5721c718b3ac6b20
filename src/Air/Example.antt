-- ===== src/Air/Example.antt =====
-- src/air/example: small AIRs, and the traces that satisfy them.
pub mod Recurrences
pub mod Airs
pub mod Rap
pub mod Permuted
