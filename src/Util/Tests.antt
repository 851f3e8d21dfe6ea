-- ===== src/Util/Tests.antt =====
-- Runs of src/util/cbor.rs, with bytes as the values.
use derouter.Base.{
  ℕ, ◌<◌, ◌≡◌, ◌⊎◌, refl, List, [], ◌∷◌, Option, none, some, arith, length, ok, err, if◌then◌else◌,
  ltb, ◌≤◌,
}
use derouter.Util.Cbor.{read_cbor, unexpected_eof}
use derouter.Util.Cbor.Stream.{Carries, read_each-write_each, read_cbor_cut, AreEncoded}

abbrev to_vec : ℕ → Option (List ℕ)
to_vec n = if ltb n 256 then some (n ∷ []) else none

abbrev from_slice : List ℕ → Option ℕ
from_slice [] = none
from_slice (b ∷ []) = some b
from_slice (b ∷ (c ∷ bs)) = none

abbrev values : List ℕ
values = 3 ∷ 7 ∷ []

values-AreEncoded : AreEncoded to_vec from_slice values
values-AreEncoded =
    ((3 ∷ [], (refl, (refl, omega arith))), ((7 ∷ [], (refl, (refl, omega arith))), tt))

read_each-write_each_example : Carries to_vec from_slice values
read_each-write_each_example = read_each-write_each to_vec from_slice values values-AreEncoded

abbrev cut_off : List ℕ
cut_off = 0 ∷ 0 ∷ 0 ∷ 2 ∷ 7 ∷ []

read_cbor_cut_example :
    ((length cut_off < 4) × (read_cbor from_slice cut_off ≡ ok (none, [])))
    ⊎ ((4 ≤ length cut_off) × (read_cbor from_slice cut_off ≡ err unexpected_eof))
read_cbor_cut_example = read_cbor_cut from_slice (7 ∷ 8 ∷ []) cut_off 8 [] (omega arith) refl
