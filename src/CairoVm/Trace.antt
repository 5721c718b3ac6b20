-- ===== src/CairoVm/Trace.antt =====
-- cairo_vm/cairo_trace.rs: the register states of a run, read from their binary file, and the
-- decoded instruction of each.
pub mod Import
use lambdaworks_cairo_prover.Prelude.{
  ℕ, zero, suc, ◌+◌, ◌*◌, ◌/◌, ◌%◌, Option, none, some, List, [], ◌∷◌, length, slice, from_le_bytes,
  Result, ok, err, ok_or, collect, ◌>>=◌, ◌==◌, if◌then◌else◌, and_then,
}
use lambdaworks_cairo_prover.Field.{Field}
use lambdaworks_cairo_prover.CairoVm.Flags.{
  CairoInstructionFlags, Decoded, instruction_not_found, flags_try_from,
}
use lambdaworks_cairo_prover.CairoVm.Offsets.{InstructionOffsets, offsets_new}
use lambdaworks_cairo_prover.CairoVm.Memory.{
  CairoMemory, CairoImportError, incorrect_number_of_bytes, get,
}

pub record RegistersState : Type 0 where
  pub pc : ℕ
  pub fp : ℕ
  pub ap : ℕ

pub record CairoTrace : Type 0 where
  pub rows : List RegistersState

abbrev pub steps : CairoTrace → ℕ
steps t = length t.rows

module _ {F : Type 0} ⦃K : Field F⦄ where
  unfoldable pub instruction_flags_and_offsets :
      CairoMemory F → RegistersState → Decoded (CairoInstructionFlags × InstructionOffsets)
  instruction_flags_and_offsets memory state = do
    instruction ← ok_or instruction_not_found (get memory state.pc)
    flags ← flags_try_from instruction
    ok (flags, offsets_new instruction)

  unfoldable pub flags_and_offsets :
      CairoTrace → CairoMemory F → Decoded (List (CairoInstructionFlags × InstructionOffsets))
  unfolding instruction_flags_and_offsets
  flags_and_offsets t memory = collect (instruction_flags_and_offsets memory) t.rows

abbrev pub trace_row_size : ℕ
trace_row_size = 8 * 3

-- One turn of the loop: `ap`, `fp` and `pc` of the row at index `i`.
unfoldable pub read_state : List ℕ → ℕ → Option RegistersState
unfolding slice from_le_bytes
read_state bytes i = and_then (slice bytes (i * trace_row_size) (i * trace_row_size + 8)) λ ap.
    and_then (slice bytes (i * trace_row_size + 8) (i * trace_row_size + 16)) λ fp.
      and_then (slice bytes (i * trace_row_size + 16) (i * 24 + trace_row_size))
        λ pc. some (record { pc = from_le_bytes pc; fp = from_le_bytes fp; ap = from_le_bytes ap })

-- The loop over the rows from `i` on, `n` of them: the rows that it pushes.
unfoldable pub read_states : List ℕ → ℕ → ℕ → Option (List RegistersState)
unfolding read_state
read_states bytes i zero = some []
read_states bytes i (suc n) =
    and_then (read_state bytes i)
      λ row. and_then (read_states bytes (suc i) n) λ rows. some (row ∷ rows)

-- `none` is a panic.
unfoldable pub trace_from_bytes_le : List ℕ → Option (Result CairoImportError CairoTrace)
unfolding read_states
trace_from_bytes_le bytes =
    let num_rows = length bytes / trace_row_size in
    if length bytes % trace_row_size == 0
    then (and_then (read_states bytes 0 num_rows) λ rows. some (ok (record { rows = rows })))
    else some (err incorrect_number_of_bytes)
