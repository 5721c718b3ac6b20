-- ===== src/Examples/Import.antt =====
-- cairo_vm/cairo_mem.rs and cairo_vm/cairo_trace.rs on small files.
use lambdaworks_cairo_prover.Prelude.{
  ℕ, ◌*◌, ◌%◌, ◌≡◌, ◌≢◌, ◌⊎◌, arith, List, [], ◌∷◌, length, All, ok, err, some,
}
use lambdaworks_cairo_prover.Field.Zmod.{Stark252, stark252, stark252-HasBytes}
use lambdaworks_cairo_prover.CairoVm.Memory.{
  CairoMemory, incorrect_number_of_bytes, memory_from_bytes_le,
}
use lambdaworks_cairo_prover.CairoVm.Memory.Import.{
  write_cells, insert_all, memory_from_bytes_le-write_cells, memory_from_bytes_le_total,
}
use lambdaworks_cairo_prover.CairoVm.Trace.{RegistersState, CairoTrace, trace_from_bytes_le}
use lambdaworks_cairo_prover.CairoVm.Trace.Import.{
  IsWords, write_states, trace_from_bytes_le-write_states, trace_from_bytes_le_total,
}

abbrev cells : List (ℕ × Stark252)
cells = (1, stark252.from 0x480680017fff8000) ∷ (2, stark252.from 10) ∷ []

memory_from_bytes_le-write_cells_example :
    memory_from_bytes_le ⦃K = stark252⦄ (write_cells ⦃K = stark252⦄ cells)
    ≡ some (ok (record { entries = insert_all cells [] }))
memory_from_bytes_le-write_cells_example =
    memory_from_bytes_le-write_cells ⦃K = stark252⦄ stark252-HasBytes cells (omega arith)

abbrev short_file : List ℕ
short_file = 1 ∷ 2 ∷ 3 ∷ []

memory_from_bytes_le_total_example :
    ((length short_file % 40 ≡ 0)
      × ((m : CairoMemory Stark252) × (memory_from_bytes_le ⦃K = stark252⦄ short_file
            ≡ some (ok m))))
    ⊎ ((length short_file % 40 ≢ 0)
        × (memory_from_bytes_le ⦃K = stark252⦄ short_file ≡ some (err incorrect_number_of_bytes)))
memory_from_bytes_le_total_example =
    memory_from_bytes_le_total ⦃K = stark252⦄ stark252-HasBytes short_file

abbrev states : List RegistersState
states = record { pc = 1; fp = 24; ap = 24 } ∷ record { pc = 3; fp = 24; ap = 25 } ∷ []

states-IsWords : All IsWords states
states-IsWords = omega arith

trace_from_bytes_le-write_states_example :
    trace_from_bytes_le (write_states states) ≡ some (ok (record { rows = states }))
trace_from_bytes_le-write_states_example = trace_from_bytes_le-write_states states states-IsWords

trace_from_bytes_le_total_example :
    ((length short_file % 24 ≡ 0)
      × ((t : CairoTrace) × (trace_from_bytes_le short_file ≡ some (ok t))
          × (length t.rows * 24 ≡ length short_file)))
    ⊎ ((length short_file % 24 ≢ 0)
        × (trace_from_bytes_le short_file ≡ some (err incorrect_number_of_bytes)))
trace_from_bytes_le_total_example = trace_from_bytes_le_total short_file
