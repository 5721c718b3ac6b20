-- ===== src/Stark/EvaluationTable.antt =====
-- air/constraints/evaluation_table.rs: the evaluations of the constraints, and their polynomial.
use lambdaworks_cairo_prover.Prelude.{ℕ, List, [], length}
use lambdaworks_cairo_prover.Stark.Backend.{Backend}

pub record ConstraintEvaluationTable (F : Type 0) : Type 0 where
  pub evaluations_acc : List F
  pub trace_length : ℕ

module _ {F : Type 0} where
  abbrev pub constraint_evaluation_table_new : ℕ → List F → ConstraintEvaluationTable F
  constraint_evaluation_table_new _n_cols domain = record {
    evaluations_acc = [];
    trace_length = length domain;
  }

  unfoldable pub compute_composition_poly :
      {Tree AuthPath : Type 0} → Backend F Tree AuthPath → ConstraintEvaluationTable F → F → List F
  compute_composition_poly B evaluation_table offset =
      B.interpolate_offset_fft evaluation_table.evaluations_acc offset
