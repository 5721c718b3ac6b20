-- ===== src/Examples/Binding.antt =====
-- The paths of the proof over the field of 17 elements bind what they open: they are the leaves.
use lambdaworks_cairo_prover.Stark.Consistent.{Consistent}
