-- ===== src/CairoVm/Trace/Import.antt =====
-- `CairoTrace::from_bytes_le` against the file format: rows of three 64-bit words.
use native.Mathlib.Decide.{ℕ_discrete}
use lambdaworks_cairo_prover.Prelude.{
  ℕ, zero, suc, ◌+◌, ◌*◌, ◌/◌, ◌%◌, ◌^◌, ◌≤◌, ◌<◌, ◌≡◌, ◌≢◌, ◌⊎◌, inl, inr, refl, sym, ap, ◌∙◌,
  arith, some, List, [], ◌∷◌, ◌++◌, append_assoc, length, length-append, All, slice, slice-append,
  slice_total, to_le_bytes, from_le_bytes, length-to_le_bytes, from_le_bytes-to_le_bytes, ok, err,
}
use lambdaworks_cairo_prover.CairoVm.Memory.{incorrect_number_of_bytes}
use lambdaworks_cairo_prover.CairoVm.Trace.{
  RegistersState, CairoTrace, read_state, read_states, trace_from_bytes_le,
}

-- The row of a state in the file, and a file of states.
unfoldable pub write_state : RegistersState → List ℕ
write_state s = to_le_bytes 8 s.ap ++ (to_le_bytes 8 s.fp ++ to_le_bytes 8 s.pc)

unfoldable pub write_states : List RegistersState → List ℕ
unfolding write_state
write_states [] = []
write_states (s ∷ rows) = write_state s ++ write_states rows

-- The registers are 64-bit words.
pub record IsWords (s : RegistersState) : Type 0 where
  pub pc_word : s.pc < 2 ^ 64
  pub fp_word : s.fp < 2 ^ 64
  pub ap_word : s.ap < 2 ^ 64

length-write_state : (s : RegistersState) → length (write_state s) ≡ 24
unfolding write_state
length-write_state s = omega (
  arith,
  length-append (to_le_bytes 8 s.ap) (to_le_bytes 8 s.fp ++ to_le_bytes 8 s.pc),
  length-append (to_le_bytes 8 s.fp) (to_le_bytes 8 s.pc),
  length-to_le_bytes 8 s.ap,
  length-to_le_bytes 8 s.fp,
  length-to_le_bytes 8 s.pc,
)

length-write_states : (rows : List RegistersState) → length (write_states rows) ≡ length rows * 24
unfolding write_states
length-write_states [] = refl
length-write_states (s ∷ rows) = omega (
  arith,
  length-append (write_state s) (write_states rows),
  length-write_state s,
  length-write_states rows,
)

-- The slice behind a prefix, where the list is bracketed otherwise.
slice_part :
    (bytes pre xs ys : List ℕ) (start end : ℕ)
    → bytes ≡ pre ++ (xs ++ ys)
    → start ≡ length pre
    → end ≡ length pre + length xs
    → slice bytes start end ≡ some xs
slice_part bytes pre xs ys start end e p q = rw e (slice-append start end pre xs ys p q)

read_state-write_state :
    (i : ℕ) (pre post : List ℕ) (s : RegistersState)
    → length pre ≡ i * 24
    → IsWords s
    → read_state (pre ++ (write_state s ++ post)) i ≡ some s
unfolding read_state write_state
read_state-write_state i pre post s h w =
    let xs = to_le_bytes 8 s.ap in
    let ys = to_le_bytes 8 s.fp in
    let zs = to_le_bytes 8 s.pc in
    let lx : length xs ≡ 8 = length-to_le_bytes 8 s.ap in
    let ly : length ys ≡ 8 = length-to_le_bytes 8 s.fp in
    let lz : length zs ≡ 8 = length-to_le_bytes 8 s.pc in
    let lxy : length (pre ++ xs) ≡ length pre + length xs = length-append pre xs in
    let bytes = pre ++ ((xs ++ (ys ++ zs)) ++ post) in
    let first : slice bytes (i * 24) (i * 24 + 8) ≡ some xs =
      slice_part bytes pre xs ((ys ++ zs) ++ post) _ _ (simp append_assoc) (omega arith)
        (omega arith) in
    let second : slice bytes (i * 24 + 8) (i * 24 + 16) ≡ some ys =
      slice_part bytes (pre ++ xs) ys (zs ++ post) _ _ (simp append_assoc) (omega arith)
        (omega arith) in
    let third : slice bytes (i * 24 + 16) (i * 24 + 24) ≡ some zs =
      slice_part bytes ((pre ++ xs) ++ ys) zs post _ _ (simp append_assoc)
        (omega (arith, length-append (pre ++ xs) ys))
        (omega (arith, length-append (pre ++ xs) ys)) in
    rw (
      first,
      second,
      third,
      from_le_bytes-to_le_bytes 8 s.ap w.ap_word,
      from_le_bytes-to_le_bytes 8 s.fp w.fp_word,
      from_le_bytes-to_le_bytes 8 s.pc w.pc_word,
    )

read_states-write_states :
    (i : ℕ) (pre : List ℕ) (rows : List RegistersState)
    → length pre ≡ i * 24
    → All IsWords rows
    → read_states (pre ++ write_states rows) i (length rows) ≡ some rows
unfolding read_states write_states
read_states-write_states i pre [] h fits = refl
read_states-write_states i pre (s ∷ rows) h fits =
    let rest : read_states (pre ++ (write_state s ++ write_states rows)) (suc i) (length rows)
        ≡ some rows =
      ap (λ bytes. read_states bytes (suc i) (length rows))
        (sym (append_assoc pre (write_state s) (write_states rows)))
      ∙ read_states-write_states (suc i) (pre ++ write_state s) rows
          (omega (arith, length-append pre (write_state s), length-write_state s)) fits.1 in
    rw (read_state-write_state i pre (write_states rows) s h fits.0, rest)

-- A file written from states of 64-bit registers is read back as those states, in order.
pub trace_from_bytes_le-write_states :
    (rows : List RegistersState)
    → All IsWords rows
    → trace_from_bytes_le (write_states rows) ≡ some (ok (record { rows = rows }))
unfolding trace_from_bytes_le
trace_from_bytes_le-write_states rows fits =
    let whole : length (write_states rows) % 24 ≡ 0 = omega (arith, length-write_states rows) in
    let count : length (write_states rows) / 24 ≡ length rows =
      omega (arith, length-write_states rows) in
    rw (whole, count, read_states-write_states 0 [] rows refl fits)

read_states_total :
    (bytes : List ℕ) (i n : ℕ)
    → (i + n) * 24 ≤ length bytes
    → (rows : List RegistersState) × (read_states bytes i n ≡ some rows) × (length rows ≡ n)
unfolding read_states read_state
read_states_total bytes i zero h = ([], refl, refl)
read_states_total bytes i (suc n) h =
    let (xs, p, _) = slice_total bytes (i * 24) (i * 24 + 8) (omega arith) (omega arith) in
    let (ys, q, _) = slice_total bytes (i * 24 + 8) (i * 24 + 16) (omega arith) (omega arith) in
    let (zs, r, _) = slice_total bytes (i * 24 + 16) (i * 24 + 24) (omega arith) (omega arith) in
    let (rows, e, l) = read_states_total bytes (suc i) n (omega arith) in
    let row : RegistersState = record {
      pc = from_le_bytes zs;
      fp = from_le_bytes ys;
      ap = from_le_bytes xs;
    } in
    (row ∷ rows, rw (p, q, r, e), ap suc l)

-- Reading never panics: it gives one state for every 24 bytes if the length is a multiple of 24,
-- and else the error.
pub trace_from_bytes_le_total :
    (bytes : List ℕ)
    → ((length bytes % 24 ≡ 0)
        × ((t : CairoTrace) × (trace_from_bytes_le bytes ≡ some (ok t))
            × (length t.rows * 24 ≡ length bytes)))
      ⊎ ((length bytes % 24 ≢ 0)
          × (trace_from_bytes_le bytes ≡ some (err incorrect_number_of_bytes)))
unfolding trace_from_bytes_le
trace_from_bytes_le_total bytes = elim (ℕ_discrete (length bytes % 24) 0) [
  | yes h ↦
      let (rows, e, l) = read_states_total bytes 0 (length bytes / 24) (omega arith) in
      inl (h, (record { rows = rows }, rw (h, e), omega arith))
  | no h ↦ inr (h, ground arith)
]
