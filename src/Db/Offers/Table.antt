-- ===== src/Db/Offers/Table.antt =====
-- The snapshots table as a partial map from offers to their active rows: what disabling, inserting
-- and upserting do to it, and that they keep the unique indexes.
use derouter.Base.{
  ℕ, ◌≡◌, refl, Bool, true, false, ◌&&◌, ◌||◌, inl, inr, none, some, List, [], ◌∷◌, arith,
  Bool-cases, find_first, any, any-update_where, update_where, ◌==◌, nat_eq, text_eq, ==_iff,
  if◌then◌else◌, find_first-holds,
}
use derouter.Db.{OfferSnapshotRow}
use derouter.Db.Rowids.{HasUniqueIds, HasUniqueIds-update_where, by_id, by_id-found}
use derouter.Db.Offers.{OfferKey, key_of, key_eq, is_active, active_row, set_active}

-- Two rows that a unique index does not allow together.
abbrev pub clash : OfferSnapshotRow → OfferSnapshotRow → Bool
clash r s =
    (key_of r == key_of s) && ((r.protocol_payload == s.protocol_payload) || (r.active && s.active))

abbrev pub IsIndexed : List OfferSnapshotRow → Type 0
IsIndexed [] = Unit
IsIndexed (r ∷ rs) = (any (clash r) rs ≡ false) × IsIndexed rs

-- The rowids are unique, and so are the values of the two unique indexes.
pub record IsTable (rows : List OfferSnapshotRow) : Type 0 where
  pub ids : HasUniqueIds (λ (r : OfferSnapshotRow). r.rowid) rows
  pub indexed : IsIndexed rows

abbrev disabled : ℕ → OfferSnapshotRow → OfferSnapshotRow
disabled id r = if r.rowid == id then record r { active = false } else r

clash_mono :
    (k p a b a' b' : Bool)
    → (a ≡ false → a' ≡ false)
    → (b ≡ false → b' ≡ false)
    → (k && (p || (a && b))) ≡ false
    → (k && (p || (a' && b'))) ≡ false
clash_mono k p a b a' b' ha hb h = ground arith

clash-disabled :
    (id : ℕ) (r s : OfferSnapshotRow)
    → clash r s ≡ false
    → clash (disabled id r) (disabled id s) ≡ false
clash-disabled id r s h = go (r.rowid == id) (s.rowid == id)
  where
    k : Bool
    k = key_of r == key_of s

    p : Bool
    p = r.protocol_payload == s.protocol_payload

    go :
        (b c : Bool)
        → clash
            (if b then record r { active = false } else r)
            (if c then record s { active = false } else s)
          ≡ false
    go true true = clash_mono k p r.active s.active false false (λ _. refl) (λ _. refl) h
    go true false = clash_mono k p r.active s.active false s.active (λ _. refl) (λ e. e) h
    go false true = clash_mono k p r.active s.active r.active false (λ e. e) (λ _. refl) h
    go false false = h

any-disabled :
    (id : ℕ) (r : OfferSnapshotRow) (rs : List OfferSnapshotRow)
    → any (clash r) rs ≡ false
    → any (clash (disabled id r)) (set_active id false rs) ≡ false
unfolding set_active
any-disabled id r rs h =
    any-update_where (clash r) (clash (disabled id r)) _ _ rs (clash-disabled id r) h

disable-IsIndexed :
    (id : ℕ) (rs : List OfferSnapshotRow) → IsIndexed rs → IsIndexed (set_active id false rs)
unfolding set_active update_where
disable-IsIndexed id [] h = tt
disable-IsIndexed id (r ∷ rs) h = (any-disabled id r rs h.0, disable-IsIndexed id rs h.1)

pub disable-IsTable :
    (id : ℕ) (rs : List OfferSnapshotRow) → IsTable rs → IsTable (set_active id false rs)
unfolding set_active
disable-IsTable id rs t = record {
  ids = HasUniqueIds-update_where (λ (r : OfferSnapshotRow). r.rowid) _ _ rs (λ r. refl) t.ids;
  indexed = disable-IsIndexed id rs t.indexed;
}

abbrev pub rowid_of : OfferSnapshotRow → ℕ
rowid_of r = r.rowid

pub set_active-absent :
    (id : ℕ) (b : Bool) (rs : List OfferSnapshotRow)
    → by_id rowid_of id rs ≡ none
    → set_active id b rs ≡ rs
unfolding set_active update_where find_first
set_active-absent id b [] h = refl
set_active-absent id b (r ∷ rs) h = ground (arith, set_active-absent id b rs)

pub active_row-cons :
    (s : OfferSnapshotRow) (rs : List OfferSnapshotRow) (k : OfferKey)
    → active_row (s ∷ rs) k ≡ (if is_active k s then some s else active_row rs k)
unfolding active_row find_first
active_row-cons s rs k = refl

pub set_active-cons :
    (id : ℕ) (b : Bool) (s : OfferSnapshotRow) (rs : List OfferSnapshotRow)
    → set_active id b (s ∷ rs)
      ≡ (if s.rowid == id then record s { active = b } else s) ∷ set_active id b rs
unfolding set_active update_where
set_active-cons id b s rs = refl

-- No other row of an active row's offer is active.
pub active_once :
    (s : OfferSnapshotRow) (rs : List OfferSnapshotRow) (k : OfferKey)
    → any (clash s) rs ≡ false
    → s.active ≡ true
    → key_of s ≡ k
    → active_row rs k ≡ none
unfolding any active_row find_first
active_once s [] k h a e = refl
active_once s (t ∷ rs) k h a e =
    ground (arith, ==_iff (key_of s) (key_of t), ==_iff (key_of t) k, active_once s rs k)

pub active_row-nil : (k : OfferKey) → active_row [] k ≡ none
unfolding active_row find_first
active_row-nil k = refl

pub active_row-by_id :
    (rows : List OfferSnapshotRow) (k : OfferKey) (r : OfferSnapshotRow)
    → HasUniqueIds rowid_of rows
    → active_row rows k ≡ some r
    → by_id rowid_of r.rowid rows ≡ some r
unfolding active_row
active_row-by_id rows k r u h = by_id-found rowid_of (is_active k) rows r u h

-- A row that is found is active and of the offer.
pub active_row-holds :
    (rows : List OfferSnapshotRow) (k : OfferKey) {r : OfferSnapshotRow}
    → active_row rows k ≡ some r
    → (key_of r ≡ k) × (r.active ≡ true)
unfolding active_row
active_row-holds rows k {r} h =
    ground (arith, find_first-holds (is_active k) rows {a = r} h, ==_iff (key_of r) k)

-- Disabling the active row of an offer leaves the offer with no active row, and every other offer
-- with the one it had.
pub active_row-disable :
    (rows : List OfferSnapshotRow) (k j : OfferKey) (r : OfferSnapshotRow)
    → IsTable rows
    → active_row rows k ≡ some r
    → active_row (set_active r.rowid false rows) j ≡ (if k == j then none else active_row rows j)
active_row-disable [] k j r t h = absurd (ground (arith, active_row-nil k, h))
active_row-disable (s ∷ rs) k j r t h = elim (Bool-cases (s.rowid == r.rowid)) [
  | inl same ↦ rw (set_active-cons r.rowid false s rs) (
      ground (
        arith,
        same,
        active_row-cons s rs k,
        active_row-cons s rs j,
        active_row-cons (record s { active = false }) (set_active r.rowid false rs) j,
        set_active-absent r.rowid false rs,
        t.ids.0,
        active_row-by_id rs k r t.ids.1,
        active_once s rs k t.indexed.0,
        ==_iff (key_of s) k,
        ==_iff (key_of s) j,
        ==_iff k j,
      ))
  | inr other ↦ rw (set_active-cons r.rowid false s rs) (
      ground (
        arith,
        other,
        active_row-cons s rs k,
        active_row-cons s rs j,
        active_row-cons s (set_active r.rowid false rs) j,
        active_row-disable rs k j r (record { ids = t.ids.1; indexed = t.indexed.1 }),
        ==_iff (key_of s) k,
        ==_iff (key_of s) j,
        ==_iff k j,
      ))
]
