-- ===== src/P2p/Streams/Closed.antt =====
-- A stream for a job that the other peer closes before it has the response:
-- src/p2p/stream/job_connection.rs with `write_cbor` of src/util/cbor.rs.
use derouter.Base.{ℕ, List, Outcome, ◌>>=◌, length}
use derouter.Util.Cbor.{IoError, u32_be_bytes}

module _ {S : Type 0} (write_all : S → List ℕ → Outcome IoError S) where
  -- The four bytes of the length of `buf` and then `buf`.
  abbrev pub sent_frame : List ℕ → S → Outcome IoError S
  sent_frame buf stream = do
    started ← write_all stream (u32_be_bytes (length buf))
    write_all started buf
