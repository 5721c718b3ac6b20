-- ===== src/CairoRun/Writers.antt =====
-- cairo_run/vec_writer.rs and cairo_run/file_writer.rs: the writers that bincode encodes into. A
-- vector takes every write; what a buffered file does with one is a parameter.
use lambdaworks_cairo_prover.Prelude.{ℕ, ◌+◌, List, ◌++◌, length, Result, ok, err}

pub record VecWriter : Type 0 where
  pub buf_writer : List ℕ

abbrev pub vec_writer_new : List ℕ → VecWriter
vec_writer_new vec = record { buf_writer = vec }

unfoldable pub vec_writer_write : {E : Type 0} → VecWriter → List ℕ → Result E VecWriter
vec_writer_write w bytes = ok (record { buf_writer = w.buf_writer ++ bytes })

-- `flush` of a vector does nothing.
unfoldable pub vec_writer_flush : {E : Type 0} → VecWriter → Result E VecWriter
vec_writer_flush w = ok w

-- `std::io::BufWriter` of a file: the writer afterwards, with the error if there is one.
pub record BufWriter (W IoError : Type 0) : Type 0 where
  pub write_all : W → List ℕ → W × Result IoError Unit
  pub buf_flush : W → W × Result IoError Unit

-- The error of bincode for a failed write.
pub data EncodeError (IoError : Type 0) : Type 0 where
  io : IoError → ℕ → EncodeError IoError

pub record FileWriter (W : Type 0) : Type 0 where
  pub buf_writer : W
  pub bytes_written : ℕ

module _ {W IoError : Type 0} (B : BufWriter W IoError) where
  abbrev pub file_writer_new : W → FileWriter W
  file_writer_new buf_writer = record { buf_writer = buf_writer; bytes_written = 0 }

  -- The sum does not overflow: the bytes of a file are fewer than 2 ^ 64.
  unfoldable pub file_writer_write :
      FileWriter W → List ℕ → FileWriter W × Result (EncodeError IoError) Unit
  file_writer_write w bytes =
      let (buf_writer, outcome) = B.write_all w.buf_writer bytes in
      elim outcome [
        | err e ↦ (record w { buf_writer = buf_writer }, err (io e w.bytes_written))
        | ok done ↦ (
          record { buf_writer = buf_writer; bytes_written = w.bytes_written + length bytes },
          ok done,
        )
      ]

  unfoldable pub file_writer_flush : FileWriter W → FileWriter W × Result IoError Unit
  file_writer_flush w =
      let (buf_writer, outcome) = B.buf_flush w.buf_writer in
      (record w { buf_writer = buf_writer }, outcome)
