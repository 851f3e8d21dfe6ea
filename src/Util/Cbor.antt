-- ===== src/Util/Cbor.antt =====
-- src/util/cbor.rs: CBOR values on a stream, each after its length as a big-endian u32. The encoder
-- and the decoder are serde_cbor's, the writer is the stream's.
pub mod Frame
pub mod Stream
use derouter.Base.{
  ℕ, zero, suc, ◌+◌, List, [], ◌∷◌, Option, none, some, length, Outcome, ok, err, panic, ◌>>=◌,
}
use Prim.Native.Nat.{◌*◌, ◌/◌, ◌%◌, ◌^◌}

-- `write_u32` of a number below 2 ^ 32, most significant byte first.
abbrev pub u32_be_bytes : ℕ → List ℕ
u32_be_bytes n = n / 2 ^ 24 ∷ n / 2 ^ 16 % 256 ∷ n / 2 ^ 8 % 256 ∷ n % 256 ∷ []

abbrev pub from_be_bytes : ℕ → List ℕ → ℕ
from_be_bytes acc [] = acc
from_be_bytes acc (b ∷ bs) = from_be_bytes (acc * 256 + b) bs

pub data IoError : Type 0 where
  io_error : IoError

-- serde_cbor::Error: of the encoder, or an io::Error that `?` has turned into one.
pub data WriteError : Type 0 where
  encoding : WriteError
  from_io : IoError → WriteError

-- `?` on an io::Error, by `From<io::Error> for serde_cbor::Error`.
abbrev pub question_mark {ℓ} : {W : Type ℓ} → Outcome IoError W → Outcome WriteError W
question_mark (ok w) = ok w
question_mark (err e) = err (from_io e)
question_mark panic = panic

-- `buf.len() as u32` wraps around.
module _ {ℓ κ} {W : Type ℓ} {U : Type κ} (write_all : W → List ℕ → Outcome IoError W)
    (to_vec : U → Option (List ℕ)) where
  unfoldable pub write_cbor : W → U → Outcome WriteError (Outcome IoError W)
  write_cbor writer value = elim (to_vec value) [
    | none ↦ err encoding
    | some buf ↦ do
      started ← question_mark (write_all writer (u32_be_bytes (length buf % 2 ^ 32)))
      written ← question_mark (write_all started buf)
      ok (ok written)
  ]

-- The bytes that the stream still gives before it ends; `none` is the error of a stream that ends
-- too early.
unfoldable pub read_exact : ℕ → List ℕ → Option (List ℕ × List ℕ)
read_exact zero input = some ([], input)
read_exact (suc n) [] = none
read_exact (suc n) (b ∷ input) = elim (read_exact n input) [
  | none ↦ none
  | some (front, rest) ↦ some (b ∷ front, rest)
]

pub data ReadError : Type 0 where
  unexpected_eof : ReadError
  invalid_data : ReadError

module _ {κ} {U : Type κ} (from_slice : List ℕ → Option U) where
  -- What is left of the stream comes with the value. Where even the length is cut off nothing is left.
  unfoldable pub read_cbor : List ℕ → Outcome ReadError (Option U × List ℕ)
  read_cbor input = elim (read_exact 4 input) [
    | none ↦ ok (none, [])
    | some (len_buf, rest) ↦ elim (read_exact (from_be_bytes 0 len_buf) rest) [
      | none ↦ err unexpected_eof
      | some (buffer, left) ↦ elim (from_slice buffer) [
        | none ↦ err invalid_data
        | some value ↦ ok (some value, left)
      ]
    ]
  ]
