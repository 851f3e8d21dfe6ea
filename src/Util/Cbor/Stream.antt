-- ===== src/Util/Cbor/Stream.antt =====
-- src/util/cbor.rs: values written and read one after the other, and a stream that ends early.
use derouter.Base.{
  ℕ, zero, suc, ◌+◌, ◌<◌, ◌≤◌, ◌≡◌, refl, ap, sym, ◌∙◌, ◌⊎◌, inl, inr, panic, ◌>>=◌, List, [], ◌∷◌,
  ◌++◌, Option, none, some, arith, length, Outcome, ok, err,
}
use Prim.Native.Nat.{◌^◌}
use native.Mathlib.Decide.{dec_lt}
use derouter.Util.Cbor.{
  IoError, write_cbor, read_exact, read_cbor, unexpected_eof, ReadError, WriteError,
}
use derouter.Util.Cbor.Frame.{
  append_all, frame, after_header, write_cbor-frame, read_header, read_exact-append,
  read_exact_short, length-append, append_assoc,
}

-- The values are encoded as these bytes, which decode to them, each below the bound of a u32.
abbrev pub AreEncoded : {U : Type 0} → (U → Option (List ℕ)) → (List ℕ → Option U) → List U → Type 0
AreEncoded to_vec from_slice [] = Unit
AreEncoded to_vec from_slice (value ∷ values) =
    ((buf : List ℕ) × ((to_vec value ≡ some buf)
        × ((from_slice buf ≡ some value) × (length buf < 2 ^ 32))))
    × AreEncoded to_vec from_slice values

-- The values are written one by one.
unfoldable pub write_each :
    {U : Type 0}
    → (U → Option (List ℕ))
    → List ℕ
    → List U
    → Outcome WriteError (Outcome IoError (List ℕ))
write_each to_vec output [] = ok (ok output)
write_each to_vec output (value ∷ values) = elim (write_cbor append_all to_vec output value) [
  | ok (ok written) ↦ write_each to_vec written values
  | ok (err e) ↦ ok (err e)
  | ok panic ↦ panic
  | err e ↦ err e
  | panic ↦ panic
]

-- `while let Some(value) = next_cbor()?`, on fuel.
unfoldable pub read_each :
    {U : Type 0} → ℕ → (List ℕ → Option U) → List ℕ → Outcome ReadError (List U)
read_each zero from_slice input = ok []
read_each (suc fuel) from_slice input = elim (read_cbor from_slice input) [
  | err e ↦ err e
  | panic ↦ panic
  | ok (none, left) ↦ ok []
  | ok (some value, left) ↦ do values ← read_each fuel from_slice left; ok (value ∷ values)
]

-- The bytes on the stream, and what is read of them.
pub record Carries {U : Type 0} (to_vec : U → Option (List ℕ)) (from_slice : List ℕ → Option U)
    (values : List U) : Type 0 where
  pub bytes : List ℕ
  pub written : (output : List ℕ) → write_each to_vec output values ≡ ok (ok (output ++ bytes))
  pub read : (fuel : ℕ) → length values < fuel → read_each fuel from_slice bytes ≡ ok values

append-nil : (xs : List ℕ) → xs ++ [] ≡ xs
append-nil [] = refl
append-nil (x ∷ xs) = ap (λ l. x ∷ l) (append-nil xs)

read_cbor-frame :
    {U : Type 0} (from_slice : List ℕ → Option U) (buf rest : List ℕ) {value : U}
    → from_slice buf ≡ some value
    → length buf < 2 ^ 32
    → read_cbor from_slice (frame buf ++ rest) ≡ ok (some value, rest)
read_cbor-frame from_slice buf rest d small =
    read_header from_slice (length buf) (buf ++ rest) small
    ∙ rw (after_header, read_exact-append buf rest, d) refl

read_nothing :
    {U : Type 0} (from_slice : List ℕ → Option U) (fuel : ℕ)
    → 0 < fuel
    → read_each fuel from_slice [] ≡ ok []
unfolding read_each read_cbor read_exact
read_nothing from_slice zero h = absurd (omega arith)
read_nothing from_slice (suc fuel) h = refl

read_more :
    {U : Type 0} (from_slice : List ℕ → Option U) (value : U) (values : List U) (buf bytes : List ℕ)
    → from_slice buf ≡ some value
    → length buf < 2 ^ 32
    → ((fuel : ℕ) → length values < fuel → read_each fuel from_slice bytes ≡ ok values)
    → (fuel : ℕ) → length (value ∷ values) < fuel
    → read_each fuel from_slice (frame buf ++ bytes) ≡ ok (value ∷ values)
unfolding read_each
read_more from_slice value values buf bytes d small rest zero h = absurd (omega arith)
read_more from_slice value values buf bytes d small rest (suc fuel) h =
    ground (arith, read_cbor-frame from_slice buf bytes d small, rest fuel)

-- Values that serde_cbor encodes and decodes again, each in less than 2 ^ 32 bytes, can be written
-- one after the other, and the reader gets back the same values in the same order, and then the end of
-- the stream.
pub read_each-write_each :
    {U : Type 0} (to_vec : U → Option (List ℕ)) (from_slice : List ℕ → Option U) (values : List U)
    → AreEncoded to_vec from_slice values
    → Carries to_vec from_slice values
unfolding write_each read_each
read_each-write_each to_vec from_slice [] enc = record {
  bytes = [];
  written = λ output. ap (λ (l : List ℕ). ok (ok l)) (sym (append-nil output));
  read = read_nothing from_slice;
}
read_each-write_each to_vec from_slice (value ∷ values) ((buf, (e, (d, small))), enc) =
    let c = read_each-write_each to_vec from_slice values enc in
    record {
      bytes = frame buf ++ c.bytes;
      written = λ output.
          rw (write_each, write_cbor-frame to_vec output value buf e small)
            (c.written (output ++ frame buf)
              ∙ ap (λ (l : List ℕ). ok (ok l)) (append_assoc output (frame buf) c.bytes));
      read = read_more from_slice value values buf c.bytes d small c.read;
    }

length-frame : (buf : List ℕ) → length (frame buf) ≡ 4 + length buf
length-frame buf = omega arith

-- A header of which fewer than four bytes have come.
read_cbor_no_header :
    {U : Type 0} (from_slice : List ℕ → Option U) (input : List ℕ)
    → length input < 4
    → read_cbor from_slice input ≡ ok (none, [])
unfolding read_cbor
read_cbor_no_header from_slice input h = rw (read_cbor, read_exact_short 4 input h) refl

-- Of a list that starts with four elements, a front of four or more starts with them too.
cut_header :
    (p q r s x : ℕ) (front back buf : List ℕ)
    → ◌≡◌ {A = List ℕ} (p ∷ q ∷ r ∷ s ∷ buf) (front ++ (x ∷ back))
    → 4 ≤ length front
    → (rest : List ℕ) × ((front ≡ p ∷ q ∷ r ∷ s ∷ rest) × (buf ≡ rest ++ (x ∷ back)))
cut_header p q r s x (a ∷ (b ∷ (c ∷ (d ∷ rest)))) back buf e h =
    (rest, (ground (arith, e), ground (arith, e)))
cut_header p q r s x [] back buf e h = absurd (omega arith)
cut_header p q r s x (a ∷ []) back buf e h = absurd (omega arith)
cut_header p q r s x (a ∷ (b ∷ [])) back buf e h = absurd (omega arith)
cut_header p q r s x (a ∷ (b ∷ (c ∷ []))) back buf e h = absurd (omega arith)

-- A stream that ends within a frame of less than 2 ^ 32 bytes gives no value: within the four bytes
-- of the length the end of the stream, and behind them an error.
pub read_cbor_cut :
    {U : Type 0} (from_slice : List ℕ → Option U) (buf front : List ℕ) (x : ℕ) (back : List ℕ)
    → length buf < 2 ^ 32
    → frame buf ≡ front ++ (x ∷ back)
    → ((length front < 4) × (read_cbor from_slice front ≡ ok (none, [])))
      ⊎ ((4 ≤ length front) × (read_cbor from_slice front ≡ err unexpected_eof))
read_cbor_cut from_slice buf front x back small e = elim (dec_lt (length front) 4) [
  | yes few ↦ inl (few, read_cbor_no_header from_slice front few)
  | no many ↦
      let n = length buf in
      let (rest, (split, left)) = cut_header _ _ _ _ x front back buf e (omega (arith, many)) in
      let shorter : length rest < n =
        omega (arith, ap length left, length-append rest (x ∷ back)) in
      inr (
        omega (arith, many),
        ap (read_cbor from_slice) split
            ∙ read_header from_slice (n) rest (omega arith)
            ∙ rw (after_header, read_exact_short (n) rest (omega (arith, shorter, small))) refl,
      )
]
