-- ===== src/Lib.antt =====
-- The prover of Cairo programs.
--
-- src/cairo_vm decodes and loads what a run of the Cairo virtual machine did, and src/air states
-- the constraints on the table made of it.
--
-- Prelude: lists, byte strings, bits and results over the native numbers. Field: the field
-- elements of lambdaworks-math, a record of operations with the laws of a commutative ring;
-- Field.Zmod instantiates it by the integers modulo a number, for the Stark field and F17.
--
-- CairoVm.Words and CairoVm.Flags are src/cairo_vm/instruction_flags.rs (the try_from of each flag
-- group is *_try_from, its to_trace_representation *_trace), CairoVm.Offsets is
-- instruction_offsets.rs, CairoVm.Memory cairo_mem.rs, CairoVm.Trace cairo_trace.rs, and
-- CairoVm.ExecutionTrace execution_trace.rs: build_cairo_execution_trace makes the main table, and
-- its Steps gives the row of one step. CairoRun is src/cairo_run: Layout cairo_layout.rs, Writers
-- vec_writer.rs and file_writer.rs, and Run run.rs with the from_file of cairo_mem.rs and
-- cairo_trace.rs; Contents and Loaded hold proofs. Air.TraceTable is src/air/trace.rs, Air.Frame
-- src/air/frame.rs, and Air.Cairo src/air/cairo_air/air.rs: Columns has its constants, Constraints
-- compute_transition, PublicInputs the public inputs, CairoAIR::new and the boundary constraints,
-- MainTrace the padding and the missing offsets of build_main_trace, Auxiliary the columns of
-- build_auxiliary_trace. The other modules of Air.Cairo hold proofs. Air.Context is
-- src/air/context.rs, Air.Boundary src/air/constraints/boundary.rs and Air.Evaluator the combination
-- of the constraints in src/air/constraints/evaluator.rs. Air.Interface is the trait of
-- src/air/traits.rs as a record, and Air.Example src/air/example: Recurrences has the traces, Airs and
-- Rap the AIRs that fill the record, Permuted proofs on the auxiliary column of fibonacci_rap.rs.
--
-- Transcript is src/lib.rs without the domain, and Transcript.OutOfDomain holds proofs on sample_z_ood.
-- Fri.Fold is src/fri/fri_functions.rs, Fri.Commit src/fri/mod.rs with src/fri/fri_commitment.rs and
-- the replay of the challenges in src/verifier.rs, Fri.QueryPhase fri_query_phase, and Fri.Query
-- verify_query_and_sym_openings of src/verifier.rs.
--
-- Stark composes these to the prover and the verifier of any AIR. Stark.Backend is what they use of
-- other crates, and the domain of src/lib.rs; Stark.EvaluationTable is src/air/constraints/evaluation_table.rs,
-- Stark.Evaluator is ConstraintEvaluator::evaluate and the
-- transition exemptions of src/air/traits.rs; Stark.Validation is src/air/debug.rs. Of src/prover.rs,
-- Commitments is round 1, Rounds the rounds 2 and 3 with the DEEP composition polynomial and its
-- openings, and Prove round 4 and prove; Stark.Proof is src/proof.rs. Of src/verifier.rs, Verifier is
-- step 1, Reconstruct the value of the DEEP composition polynomial that the openings give, and Steps
-- the other steps and verify. The other modules of Stark hold proofs. Examples instantiates the
-- theorems; its backend commits by a value of the polynomial of the leaves and its transcript is a counter.
--
-- A panic is `none` of Option, an error of a Result is `err`. A u64 is a number with its
-- wrap-around written out, an i32 an integer. A hash map is an association list. Loops run over
-- lists and ranges, so they need no fuel; the
-- search for a challenge outside the domain, sample_z_ood, which the source does not bound, has
-- fuel, and no result when it is spent: more fuel than the rejected challenges is enough.
--
-- Not modelled: the third-party virtual machine and the file system, which are parameters of the run of
-- a program, the checks that only a build with assertions makes (an overflow is no panic), and logging. The arithmetic of polynomials, the FFT, the Merkle trees
-- and the transcript are of other crates: fields of the records Backend and Transcript, of which
-- HasPolynomials, HasTransforms, HasRoots and HasPaths state the laws that the theorems use; HasContents states those of a buffered
-- file.
pub mod Prelude
pub mod Field
pub mod CairoVm
pub mod CairoRun
pub mod Transcript
pub mod Air
pub mod Fri
pub mod Stark
mod Examples
