-- ===== src/Util/Cbor/Frame.antt =====
-- src/util/cbor.rs: what one side reads of what the other has written.
use derouter.Base.{
  ℕ, zero, suc, ◌+◌, ◌<◌, ◌≡◌, refl, ap, sym, ◌∙◌, ◌↔◌, List, [], ◌∷◌, ◌++◌, Option, none, some,
  arith, length, Outcome, ok, err,
}
use Prim.Native.Nat.{◌%◌, ◌^◌}
use derouter.Util.Cbor.{
  IoError, u32_be_bytes, from_be_bytes, write_cbor, read_exact, read_cbor, unexpected_eof,
  ReadError, WriteError,
}

-- A stream that takes all bytes.
abbrev pub append_all : List ℕ → List ℕ → Outcome IoError (List ℕ)
append_all output bytes = ok (output ++ bytes)

be_bytes : (n : ℕ) → n < 2 ^ 32 → from_be_bytes 0 (u32_be_bytes n) ≡ n
be_bytes n h = omega arith

pub read_exact-append :
    (front rest : List ℕ) → read_exact (length front) (front ++ rest) ≡ some (front, rest)
unfolding read_exact
read_exact-append [] rest = refl
read_exact-append (b ∷ front) rest = rw (read_exact-append front rest) refl

pub read_exact_short : (n : ℕ) (input : List ℕ) → length input < n → read_exact n input ≡ none
unfolding read_exact
read_exact_short zero input h = absurd (omega arith)
read_exact_short (suc n) [] h = refl
read_exact_short (suc n) (b ∷ input) h = rw (read_exact_short n input (omega arith)) refl

-- What is made of the bytes after a length.
abbrev pub after_header :
    {U : Type 0} → (List ℕ → Option U) → List ℕ → ℕ → Outcome ReadError (Option U × List ℕ)
after_header from_slice rest n = elim (read_exact n rest) [
  | none ↦ err unexpected_eof
  | some (buffer, left) ↦ elim (from_slice buffer) [
    | none ↦ err ReadError.invalid_data
    | some value ↦ ok (some value, left)
  ]
]

-- The four bytes of a length are read, and then as many bytes as they say.
pub read_header :
    {U : Type 0} (from_slice : List ℕ → Option U) (n : ℕ) (rest : List ℕ)
    → n < 2 ^ 32
    → read_cbor from_slice (u32_be_bytes n ++ rest) ≡ after_header from_slice rest n
unfolding read_cbor
read_header from_slice n rest h =
    unfold read_exact in ap (after_header from_slice rest) (be_bytes n h)

pub length-append : (xs ys : List ℕ) → length (xs ++ ys) ≡ length xs + length ys
length-append [] ys = omega arith
length-append (x ∷ xs) ys = omega (arith, length-append xs ys)

pub append_assoc : (xs ys zs : List ℕ) → (xs ++ ys) ++ zs ≡ xs ++ (ys ++ zs)
append_assoc [] ys zs = refl
append_assoc (x ∷ xs) ys zs = ap (λ l. x ∷ l) (append_assoc xs ys zs)

-- The bytes of a value after its length.
abbrev pub frame : List ℕ → List ℕ
frame buf = u32_be_bytes (length buf) ++ buf

write_cbor-wrapped :
    {U : Type 0} (to_vec : U → Option (List ℕ)) (output : List ℕ) (value : U) (buf : List ℕ)
    → to_vec value ≡ some buf
    → write_cbor append_all to_vec output value
      ≡ ok (ok (output ++ (u32_be_bytes (length buf % 2 ^ 32) ++ buf)))
unfolding write_cbor
write_cbor-wrapped to_vec output value buf e =
    rw (write_cbor, e)
      (ap (λ (l : List ℕ). ok (ok l))
        (append_assoc output (u32_be_bytes (length buf % 2 ^ 32)) buf))

pub write_cbor-frame :
    {U : Type 0} (to_vec : U → Option (List ℕ)) (output : List ℕ) (value : U) (buf : List ℕ)
    → to_vec value ≡ some buf
    → length buf < 2 ^ 32
    → write_cbor append_all to_vec output value ≡ ok (ok (output ++ frame buf))
write_cbor-frame to_vec output value buf e small =
    let same : length buf % 2 ^ 32 ≡ length buf = omega (arith, small) in
    write_cbor-wrapped to_vec output value buf e
    ∙ ap (λ (n : ℕ). ok (ok (output ++ (u32_be_bytes n ++ buf)))) same

-- What is read of a written value: of its bytes, the first ones.
pub record ReadsFront {U : Type 0} (from_slice : List ℕ → Option U) (front back rest : List ℕ)
    (out : Outcome WriteError (Outcome IoError (List ℕ))) : Type 0 where
  pub written : List ℕ
  pub returns : out ≡ ok (ok written)
  pub read : read_cbor from_slice (written ++ rest) ≡ elim (from_slice front) [
    | none ↦ err ReadError.invalid_data
    | some value ↦ ok (some value, back ++ rest)
  ]
  pub whole : (back ≡ []) ↔ (length (front ++ back) < 2 ^ 32)

-- Whatever the length of an encoded value, `write_cbor` writes it with success to a stream that takes
-- all bytes. A reader of what was written decodes the first bytes of the value, as many as the length is
-- modulo 2 ^ 32, and leaves the others on the stream: all of the value is read just where its length is
-- below 2 ^ 32.
pub read_cbor-wraps :
    {U : Type 0} (to_vec : U → Option (List ℕ)) (from_slice : List ℕ → Option U) (value : U)
    (front back rest : List ℕ)
    → to_vec value ≡ some (front ++ back)
    → length front ≡ length (front ++ back) % 2 ^ 32
    → ReadsFront from_slice front back rest (write_cbor append_all to_vec [] value)
read_cbor-wraps to_vec from_slice value front back rest enc e = record {
  written = u32_be_bytes (length (front ++ back) % 2 ^ 32) ++ (front ++ back);
  returns = write_cbor-wrapped to_vec [] value (front ++ back) enc;
  read =
      ap
        (λ (l : List ℕ). read_cbor from_slice (u32_be_bytes (length (front ++ back) % 2 ^ 32) ++ l))
        (append_assoc front back rest)
      ∙ read_header from_slice (length (front ++ back) % 2 ^ 32) (front ++ (back ++ rest))
          (omega arith)
      ∙ ap (after_header from_slice (front ++ (back ++ rest))) (sym e)
      ∙ rw (after_header, read_exact-append front (back ++ rest)) refl;
  whole = (
    λ nothing. ground (arith, e, nothing, length-append front back),
    λ small. empty back (omega (arith, e, length-append front back)),
  );
}
  where
    empty : (l : List ℕ) → length l ≡ 0 → l ≡ []
    empty [] h = refl
    empty (x ∷ l) h = absurd (omega arith)
