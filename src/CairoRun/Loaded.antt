-- ===== src/CairoRun/Loaded.antt =====
-- What `run_program` (cairo_run/run.rs) returns of a run that ends well.
use Prim.Native.String.{String}
use lambdaworks_cairo_prover.Prelude.{
  ℕ, ◌^◌, ◌<◌, ◌≡◌, refl, Option, some, List, [], ◌++◌, All, Result, ok,
}
use lambdaworks_cairo_prover.Field.{Field, HasBytes}
use lambdaworks_cairo_prover.CairoVm.Memory.Import.{
  write_cells, insert_all, memory_from_bytes_le-write_cells,
}
use lambdaworks_cairo_prover.CairoVm.Trace.{RegistersState}
use lambdaworks_cairo_prover.CairoVm.Trace.Import.{
  IsWords, write_states, trace_from_bytes_le-write_states,
}
use lambdaworks_cairo_prover.CairoRun.Layout.{CairoLayout}
use lambdaworks_cairo_prover.CairoRun.Writers.{VecWriter, vec_writer_new, vec_writer_write}
use lambdaworks_cairo_prover.CairoRun.Run.{
  ReadFile, VirtualMachine, run_config, encode_run, run_program,
}

-- A `write` that takes all bytes.
abbrev pub Appends : {E : Type 0} → (VecWriter → List ℕ → Result E VecWriter) → Type 0
Appends write =
    (w : VecWriter) (bytes : List ℕ)
    → write w bytes ≡ ok (record { buf_writer = w.buf_writer ++ bytes })

module _ {F Runner Vm Trace Memory RunError TraceError EncodeError : Type 0} (K : Field F)
    (M : VirtualMachine Runner Vm Trace Memory RunError TraceError EncodeError) where
  -- What cairo-vm documents of its encoders: the trace is written as rows of the registers ap, fp
  -- and pc, the memory as rows of an address and a value, all in little-endian order. `rows` and
  -- `cells` are the registers and cells of a trace and a memory.
  pub record HasEncoders (rows : Trace → List RegistersState) (cells : Memory → List (ℕ × F))
      : Type 0 where
    pub write_encoded_trace-Appends :
        (write : VecWriter → List ℕ → Result EncodeError VecWriter) (t : Trace) (w : VecWriter)
        → Appends write
        → M.write_encoded_trace write t w
          ≡ ok (record { buf_writer = w.buf_writer ++ write_states (rows t) })
    pub write_encoded_memory-Appends :
        (write : VecWriter → List ℕ → Result EncodeError VecWriter) (m : Memory) (w : VecWriter)
        → Appends write
        → M.write_encoded_memory write m w
          ≡ ok (record { buf_writer = w.buf_writer ++ write_cells ⦃K = K⦄ (cells m) })

module _ {F IoError Runner Vm Trace Memory RunError TraceError EncodeError : Type 0} ⦃K : Field F⦄
    (B : HasBytes K) (read : ReadFile IoError)
    (M : VirtualMachine Runner Vm Trace Memory RunError TraceError EncodeError)
    (rows : Trace → List RegistersState) (cells : Memory → List (ℕ × F))
    (E : HasEncoders K M rows cells) where
  -- In a field with 32-byte encodings and with the documented encoders: if the file is read, the run
  -- of its content under the configuration ends without error, its trace is there, the registers of
  -- the trace are 64-bit words and so are the addresses of the memory, then `run_program` returns
  -- those registers in order, the map that the memory's cells make, and the length of the data.
  pub run_program-write_encoded :
      (entrypoint_function : Option String) (layout : CairoLayout) (filename : String)
      (program_content : List ℕ) (runner : Runner) (vm : Vm) (relocated_trace : Trace)
      → read filename ≡ ok program_content
      → M.cairo_run program_content (run_config read M entrypoint_function layout) ≡ ok (runner, vm)
      → M.get_relocated_trace vm ≡ ok relocated_trace
      → All IsWords (rows relocated_trace)
      → All (λ (c : ℕ × F). c.0 < 2 ^ 64) (cells (M.relocated_memory runner))
      → run_program read M entrypoint_function layout filename
        ≡ some (
            ok (
              record { rows = rows relocated_trace },
              record { entries = insert_all (cells (M.relocated_memory runner)) [] },
              M.data_len runner,
            ))
  unfolding run_program encode_run vec_writer_write
  run_program-write_encoded entrypoint_function layout filename program_content runner vm
        relocated_trace file ran traced words addresses =
      let encoded : encode_run read M entrypoint_function layout filename
          ≡ ok (
            write_states (rows relocated_trace),
            write_cells (cells (M.relocated_memory runner)),
            M.data_len runner,
          ) =
        rw
          (
            encode_run,
            file,
            ran,
            traced,
            E.write_encoded_trace-Appends vec_writer_write relocated_trace (vec_writer_new [])
                (λ w bytes. refl),
            E.write_encoded_memory-Appends vec_writer_write (M.relocated_memory runner)
                (vec_writer_new []) (λ w bytes. refl),
          )
          refl in
      rw
        (
          run_program,
          encoded,
          memory_from_bytes_le-write_cells B (cells (M.relocated_memory runner)) addresses,
          trace_from_bytes_le-write_states (rows relocated_trace) words,
        )
        refl
