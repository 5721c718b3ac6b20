-- ===== src/CairoRun/Contents.antt =====
-- What a file holds after the writes and flushes of cairo_run/file_writer.rs.
use lambdaworks_cairo_prover.Prelude.{
  ℕ, ◌+◌, ◌≡◌, ◌⊎◌, inl, inr, refl, sym, ap, ◌∙◌, arith, List, [], ◌++◌, append_assoc, append-nil,
  length-append, length, Result, ok, err,
}
use lambdaworks_cairo_prover.CairoRun.Writers.{
  BufWriter, EncodeError, io, FileWriter, file_writer_new, file_writer_write, file_writer_flush,
}

-- The contents of a file, those still in the buffer included: `write_all` that returns without
-- error has appended all its bytes, and `flush` changes none.
pub record HasContents {W IoError : Type 0} (B : BufWriter W IoError) : Type 0 where
  pub contents : W → List ℕ
  pub contents-write_all :
      (buf : W) (bytes : List ℕ)
      → (B.write_all buf bytes).1 ≡ ok _
      → contents (B.write_all buf bytes).0 ≡ contents buf ++ bytes
  pub contents-flush : (buf : W) → contents (B.buf_flush buf).0 ≡ contents buf

outcome_cases : {E : Type 0} (r : Result E Unit) → ((e : E) × (r ≡ err e)) ⊎ (r ≡ ok _)
outcome_cases (err e) = inl (e, refl)
outcome_cases (ok done) = inr refl

module _ {W IoError : Type 0} (B : BufWriter W IoError) where
  -- The writers that writes without error and flushes reach from a first one, with the bytes given to
  -- the writes in their order.
  pub data Writes (start : FileWriter W) : List ℕ → FileWriter W → Type 0 where
    started : Writes start [] start
    wrote :
        {w : FileWriter W} {bytes : List ℕ} (chunk : List ℕ)
        → Writes start bytes w
        → (file_writer_write B w chunk).1 ≡ ok _
        → Writes start (bytes ++ chunk) (file_writer_write B w chunk).0
    flushed :
        {w : FileWriter W} {bytes : List ℕ}
        → Writes start bytes w
        → Writes start bytes (file_writer_flush B w).0

  -- Both branches of a write.
  file_writer_write_ok :
      (w : FileWriter W) (chunk : List ℕ)
      → (B.write_all w.buf_writer chunk).1 ≡ ok _
      → file_writer_write B w chunk ≡ (
        record {
          buf_writer = (B.write_all w.buf_writer chunk).0;
          bytes_written = w.bytes_written + length chunk;
        },
        ok _,
      )
  unfolding file_writer_write
  file_writer_write_ok w chunk fine = rw (file_writer_write, fine) refl

  file_writer_write_err :
      (w : FileWriter W) (chunk : List ℕ) (e : IoError)
      → (B.write_all w.buf_writer chunk).1 ≡ err e
      → file_writer_write B w chunk
        ≡ (record w { buf_writer = (B.write_all w.buf_writer chunk).0 }, err (io e w.bytes_written))
  unfolding file_writer_write
  file_writer_write_err w chunk e failed = rw (file_writer_write, failed) refl

  file_writer_flush_lem :
      (w : FileWriter W)
      → (file_writer_flush B w).0 ≡ record w { buf_writer = (B.buf_flush w.buf_writer).0 }
  unfolding file_writer_flush
  file_writer_flush_lem w = refl

  ok-ne-err : {E : Type 0} (r : Result E Unit) (e : E) → r ≡ err e → r ≡ ok _ → ⊥
  ok-ne-err (err e') e h h' = cc
  ok-ne-err (ok done) e h h' = cc

  module _ (L : HasContents B) where
    -- The file holds the bytes after those that it held, and they are counted.
    abbrev pub Holds : FileWriter W → List ℕ → FileWriter W → Type 0
    Holds start bytes w =
        (L.contents w.buf_writer ≡ L.contents start.buf_writer ++ bytes)
        × (w.bytes_written ≡ start.bytes_written + length bytes)

    wrote-Holds :
        (start w : FileWriter W) (bytes chunk : List ℕ)
        → Holds start bytes w
        → (B.write_all w.buf_writer chunk).1 ≡ ok _
        → Holds start (bytes ++ chunk) (file_writer_write B w chunk).0
    wrote-Holds start w bytes chunk (held, count) fine =
        let made =
          ap (λ (r : FileWriter W × Result (EncodeError IoError) Unit). r.0)
            (file_writer_write_ok w chunk fine) in
        (
          ap (λ (v : FileWriter W). L.contents v.buf_writer) made
              ∙ L.contents-write_all w.buf_writer chunk fine
              ∙ ap (λ l. l ++ chunk) held
              ∙ append_assoc (L.contents start.buf_writer) bytes chunk,
          ap (λ (v : FileWriter W). v.bytes_written) made
              ∙ omega (arith, count, length-append bytes chunk),
        )

    Writes-Holds :
        {start w : FileWriter W} {bytes : List ℕ} → Writes start bytes w → Holds start bytes w
    Writes-Holds {start} started = (sym (append-nil (L.contents start.buf_writer)), omega arith)
    Writes-Holds {start} (wrote {w} {bytes} chunk before fine) =
        elim (outcome_cases (B.write_all w.buf_writer chunk).1) [
          | inl (e, failed) ↦ absurd (
              ok-ne-err (file_writer_write B w chunk).1 (io e w.bytes_written)
                (ap (λ (r : FileWriter W × Result (EncodeError IoError) Unit). r.1)
                  (file_writer_write_err w chunk e failed))
                fine)
          | inr taken ↦ wrote-Holds start w bytes chunk (Writes-Holds before) taken
        ]
    Writes-Holds {start} (flushed {w} {bytes} before) =
        let (held, count) = Writes-Holds before in
        let made = file_writer_flush_lem w in
        (
          ap (λ (v : FileWriter W). L.contents v.buf_writer) made
              ∙ L.contents-flush w.buf_writer
              ∙ held,
          ap (λ (v : FileWriter W). v.bytes_written) made ∙ count,
        )

    -- With a buffered file whose `write_all` appends its bytes where it returns without error and whose
    -- flush leaves its contents: after any writes without error and flushes of a new writer, the file
    -- holds what it held at first and then the bytes of the writes in their order, and their number is
    -- counted. A further write either is without error and adds its bytes to both, or `write_all` failed
    -- with the error that is returned, with the number of the bytes written before it, and the count
    -- stays.
    pub file_writer_write-Writes :
        (buf : W) (w : FileWriter W) (bytes chunk : List ℕ)
        → Writes (file_writer_new B buf) bytes w
        → Holds (file_writer_new B buf) bytes w
          × ((((file_writer_write B w chunk).1 ≡ ok _)
                × Holds (file_writer_new B buf) (bytes ++ chunk) (file_writer_write B w chunk).0)
              ⊎ ((e : IoError) × ((B.write_all w.buf_writer chunk).1 ≡ err e)
                  × ((file_writer_write B w chunk).1 ≡ err (io e (length bytes)))
                  × ((file_writer_write B w chunk).0.bytes_written ≡ length bytes)))
    file_writer_write-Writes buf w bytes chunk before =
        let held = Writes-Holds before in
        (
          held,
          elim (outcome_cases (B.write_all w.buf_writer chunk).1) [
            | inl (e, failed) ↦
                let count : w.bytes_written ≡ length bytes = omega (arith, held.1) in
                let broken = file_writer_write_err w chunk e failed in
                inr (
                  e,
                  failed,
                  ap (λ (r : FileWriter W × Result (EncodeError IoError) Unit). r.1) broken
                      ∙ ap (λ n. err (io e n)) count,
                  ap (λ (r : FileWriter W × Result (EncodeError IoError) Unit). r.0.bytes_written)
                        broken
                      ∙ count,
                )
            | inr fine ↦ inl (
              ap (λ (r : FileWriter W × Result (EncodeError IoError) Unit). r.1)
                  (file_writer_write_ok w chunk fine),
              wrote-Holds (file_writer_new B buf) w bytes chunk held fine,
            )
          ],
        )
