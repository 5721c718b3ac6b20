-- ===== src/Examples/Runs.antt =====
-- cairo_run/run.rs with a machine whose every run has two steps, and cairo_run/file_writer.rs with a
-- file that takes five bytes.
use lambdaworks_cairo_prover.Prelude.{
  ℕ, ◌+◌, ◌≡◌, refl, arith, none, some, List, [], ◌∷◌, ◌++◌, All, length, ◌⊎◌, Bool, true, false,
  Result, leb, ok, err, if◌then◌else◌,
}
use lambdaworks_cairo_prover.Field.Zmod.{Stark252, stark252, stark252-HasBytes}
use lambdaworks_cairo_prover.CairoVm.Memory.Import.{write_cells, insert_all}
use lambdaworks_cairo_prover.CairoVm.Trace.{RegistersState}
use lambdaworks_cairo_prover.CairoVm.Trace.Import.{IsWords, write_states}
use lambdaworks_cairo_prover.CairoRun.Layout.{plain}
use lambdaworks_cairo_prover.CairoRun.Writers.{
  BufWriter, FileWriter, io, file_writer_new, file_writer_write, file_writer_flush,
}
use lambdaworks_cairo_prover.CairoRun.Contents.{
  HasContents, Writes, started, wrote, flushed, Holds, file_writer_write-Writes,
}
use lambdaworks_cairo_prover.CairoRun.Run.{ReadFile, VirtualMachine, run_program}
use lambdaworks_cairo_prover.CairoRun.Loaded.{HasEncoders, run_program-write_encoded}

abbrev states : List RegistersState
states = record { pc = 1; fp = 24; ap = 24 } ∷ record { pc = 3; fp = 24; ap = 25 } ∷ []

abbrev cells : List (ℕ × Stark252)
cells = (1, stark252.from 7) ∷ (2, stark252.from 9) ∷ []

abbrev read : ReadFile Unit
read filename = ok (1 ∷ [])

abbrev machine :
    VirtualMachine
      (List (ℕ × Stark252))
      (List RegistersState)
      (List RegistersState)
      (List (ℕ × Stark252))
      Unit
      Unit
      Unit
machine = record {
  cairo_run = λ program_content config. ok (cells, states);
  get_relocated_trace = λ vm. ok vm;
  relocated_memory = λ runner. runner;
  write_encoded_trace = λ write t w. write w (write_states t);
  write_encoded_memory = λ write m w. write w (write_cells ⦃K = stark252⦄ m);
  data_len = λ runner. 2;
}

machine-HasEncoders : HasEncoders stark252 machine (λ t. t) (λ m. m)
machine-HasEncoders = record {
  write_encoded_trace-Appends = λ write t w appends. appends w (write_states t);
  write_encoded_memory-Appends = λ write m w appends. appends w (write_cells ⦃K = stark252⦄ m);
}

states-IsWords : All IsWords states
states-IsWords = omega arith

run_program-write_encoded_example :
    run_program read machine ⦃K = stark252⦄ none plain "fibonacci.json"
    ≡ some (ok (record { rows = states }, record { entries = insert_all cells [] }, 2))
run_program-write_encoded_example =
    run_program-write_encoded ⦃K = stark252⦄ stark252-HasBytes read machine (λ t. t) (λ m. m)
      machine-HasEncoders none plain "fibonacci.json" (1 ∷ []) cells states states refl refl refl
      states-IsWords (omega arith)

abbrev taken : Bool → List ℕ → List ℕ → List ℕ × Result Unit Unit
taken fits file bytes = if fits then (file ++ bytes, ok _) else (file, err _)

abbrev small_disk : BufWriter (List ℕ) Unit
small_disk = record {
  write_all = λ file bytes. taken (leb (length file + length bytes) 5) file bytes;
  buf_flush = λ file. (file, ok _);
}

taken_lem :
    (fits : Bool) (file bytes : List ℕ)
    → (taken fits file bytes).1 ≡ ok _
    → (taken fits file bytes).0 ≡ file ++ bytes
taken_lem true file bytes h = refl
taken_lem false file bytes h = absurd (cc)

small_disk-HasContents : HasContents small_disk
small_disk-HasContents = record {
  contents = λ file. file;
  contents-write_all = λ file bytes. taken_lem (leb (length file + length bytes) 5) file bytes;
  contents-flush = λ file. refl;
}

abbrev new_writer : FileWriter (List ℕ)
new_writer = file_writer_new small_disk (9 ∷ [])

abbrev after : List ℕ → FileWriter (List ℕ) → FileWriter (List ℕ)
unfolding file_writer_write
after chunk w = (file_writer_write small_disk w chunk).0

abbrev two_writes : FileWriter (List ℕ)
unfolding file_writer_flush
two_writes = after (4 ∷ []) (file_writer_flush small_disk (after (1 ∷ 2 ∷ []) new_writer)).0

two_writes-Writes : Writes small_disk new_writer (1 ∷ 2 ∷ 4 ∷ []) two_writes
unfolding file_writer_write file_writer_flush
two_writes-Writes = wrote (4 ∷ []) (flushed (wrote (1 ∷ 2 ∷ []) started refl)) refl

-- The file of one byte takes three more, and then fails at two.
file_writer_write-Writes_example :
    Holds small_disk small_disk-HasContents new_writer (1 ∷ 2 ∷ 4 ∷ []) two_writes
    × ((((file_writer_write small_disk two_writes (5 ∷ 6 ∷ [])).1 ≡ ok _)
          × Holds small_disk small_disk-HasContents new_writer
              (1 ∷ 2 ∷ 4 ∷ 5 ∷ 6 ∷ [])
              (file_writer_write small_disk two_writes (5 ∷ 6 ∷ [])).0)
        ⊎ ((e : Unit {0}) × ((small_disk.write_all two_writes.buf_writer (5 ∷ 6 ∷ [])).1 ≡ err e)
            × ((file_writer_write small_disk two_writes (5 ∷ 6 ∷ [])).1 ≡ err (io e 3))
            × ((file_writer_write small_disk two_writes (5 ∷ 6 ∷ [])).0.bytes_written ≡ 3)))
file_writer_write-Writes_example =
    file_writer_write-Writes small_disk small_disk-HasContents (9 ∷ []) two_writes (1 ∷ 2 ∷ 4 ∷ [])
      (5 ∷ 6 ∷ []) two_writes-Writes
