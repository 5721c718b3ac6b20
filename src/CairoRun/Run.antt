-- ===== src/CairoRun/Run.antt =====
-- cairo_run/run.rs: a run of the virtual machine of the crate cairo-vm, whose encoded trace and
-- memory are read back. With it, the two readers of files of src/cairo_vm.
use Prim.Native.String.{String}
use lambdaworks_cairo_prover.Prelude.{
  ℕ, Bool, true, false, Option, none, some, List, [], Result, ok, err, ◌>>=◌, and_then,
}
use lambdaworks_cairo_prover.Field.{Field}
use lambdaworks_cairo_prover.CairoVm.Memory.{
  CairoMemory, CairoImportError, file_error, memory_from_bytes_le,
}
use lambdaworks_cairo_prover.CairoVm.Trace.{CairoTrace, trace_from_bytes_le}
use lambdaworks_cairo_prover.CairoRun.Layout.{CairoLayout, as_str}
use lambdaworks_cairo_prover.CairoRun.Writers.{
  VecWriter, vec_writer_new, vec_writer_write, vec_writer_flush,
}

-- `Result::map_err`
abbrev pub map_err : {E E' A : Type 0} → (E → E') → Result E A → Result E' A
map_err f (err e) = err (f e)
map_err f (ok a) = ok a

-- `Result::unwrap`
abbrev pub unwrap : {E A : Type 0} → Result E A → Option A
unwrap (err e) = none
unwrap (ok a) = some a

-- `std::fs::read`
abbrev pub ReadFile : Type 0 → Type 0
ReadFile IoError = String → Result IoError (List ℕ)

module _ {IoError : Type 0} (read : ReadFile IoError) where
  unfoldable pub memory_from_file :
      {F : Type 0} ⦃K : Field F⦄ → String → Option (Result CairoImportError (CairoMemory F))
  memory_from_file path = elim (map_err (λ e. file_error) (read path)) [
    | err e ↦ some (err e)
    | ok bytes ↦ memory_from_bytes_le bytes
  ]

  unfoldable pub trace_from_file : String → Option (Result CairoImportError CairoTrace)
  trace_from_file path = elim (map_err (λ e. file_error) (read path)) [
    | err e ↦ some (err e)
    | ok bytes ↦ trace_from_bytes_le bytes
  ]

pub record CairoRunConfig : Type 0 where
  pub entrypoint : String
  pub trace_enabled : Bool
  pub relocate_mem : Bool
  pub layout : String
  pub proof_mode : Bool
  pub secure_run : Option Bool

-- What `run_program` calls of cairo-vm. The encoders get the writer's `write`.
pub record VirtualMachine (Runner Vm Trace Memory RunError TraceError EncodeError : Type 0)
    : Type 0 where
  pub cairo_run : List ℕ → CairoRunConfig → Result RunError (Runner × Vm)
  pub get_relocated_trace : Vm → Result TraceError Trace
  pub relocated_memory : Runner → Memory
  pub write_encoded_trace :
      (VecWriter → List ℕ → Result EncodeError VecWriter)
      → Trace
      → VecWriter
      → Result EncodeError VecWriter
  pub write_encoded_memory :
      (VecWriter → List ℕ → Result EncodeError VecWriter)
      → Memory
      → VecWriter
      → Result EncodeError VecWriter
  pub data_len : Runner → ℕ

-- Without the error of the virtual machine, which `run_program` never makes.
pub data RunProgramError (IoError RunError TraceError EncodeError : Type 0) : Type 0 where
  io_error : IoError → RunProgramError IoError RunError TraceError EncodeError
  runner : RunError → RunProgramError IoError RunError TraceError EncodeError
  encode_trace : EncodeError → RunProgramError IoError RunError TraceError EncodeError
  trace : TraceError → RunProgramError IoError RunError TraceError EncodeError

module _ {IoError Runner Vm Trace Memory RunError TraceError EncodeError : Type 0}
    (read : ReadFile IoError)
    (M : VirtualMachine Runner Vm Trace Memory RunError TraceError EncodeError) where
  abbrev pub entrypoint_or_main : Option String → String
  entrypoint_or_main none = "main"
  entrypoint_or_main (some entrypoint) = entrypoint

  unfoldable pub run_config : Option String → CairoLayout → CairoRunConfig
  unfolding as_str
  run_config entrypoint_function layout = record {
    entrypoint = entrypoint_or_main entrypoint_function;
    trace_enabled = true;
    relocate_mem = true;
    layout = as_str layout;
    proof_mode = false;
    secure_run = none;
  }

  -- The encoded trace and memory, with the length of the program's data.
  unfoldable pub encode_run :
      Option String
      → CairoLayout
      → String
      → Result (RunProgramError IoError RunError TraceError EncodeError) (List ℕ × List ℕ × ℕ)
  unfolding run_config vec_writer_write vec_writer_flush
  encode_run entrypoint_function layout filename = do
    program_content ← map_err io_error (read filename)
    (cairo_runner, vm) ←
        map_err runner (M.cairo_run program_content (run_config entrypoint_function layout))
    relocated_trace ← map_err trace (M.get_relocated_trace vm)
    trace_writer ←
        map_err encode_trace
          (M.write_encoded_trace vec_writer_write relocated_trace (vec_writer_new []))
    memory_writer ← map_err encode_trace (
        M.write_encoded_memory vec_writer_write (M.relocated_memory cairo_runner)
          (vec_writer_new []))
    trace_vec ← map_err io_error (vec_writer_flush trace_writer)
    memory_vec ← map_err io_error (vec_writer_flush memory_writer)
    ok (trace_vec.buf_writer, memory_vec.buf_writer, M.data_len cairo_runner)

  -- `none` is the panic of an `unwrap`.
  unfoldable pub run_program :
      {F : Type 0} ⦃K : Field F⦄
      → Option String
      → CairoLayout
      → String
      → Option (
          Result
            (RunProgramError IoError RunError TraceError EncodeError)
            (CairoTrace × CairoMemory F × ℕ))
  unfolding encode_run
  run_program entrypoint_function layout filename =
      elim (encode_run entrypoint_function layout filename) [
        | err e ↦ some (err e)
        | ok (trace_vec, memory_vec, data_len) ↦
            and_then (and_then (memory_from_bytes_le memory_vec) unwrap) λ cairo_mem.
              and_then (and_then (trace_from_bytes_le trace_vec) unwrap)
                λ cairo_trace. some (ok (cairo_trace, cairo_mem, data_len))
      ]
