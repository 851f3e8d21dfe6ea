-- ===== src/Db/Offers/Enable.antt =====
-- Enabling a disabled snapshot, and inserting one, on a table with no active row of the offer.
use derouter.Base.{
  ℕ, ◌≡◌, refl, Bool, true, false, ◌&&◌, ◌||◌, not, inl, inr, none, some, List, [], ◌∷◌, arith,
  Bool-cases, find_first, any, any-or, any_of_none, any-update_where, update_where, ◌==◌, nat_eq,
  text_eq, ==_iff, if◌then◌else◌,
}
use derouter.Db.{OfferSnapshotRow}
use derouter.Db.Rowids.{HasUniqueIds, by_id}
use derouter.Db.Offers.{OfferKey, key_of, key_eq, is_active, active_row, set_active}
use derouter.Db.Offers.Table.{
  clash, IsIndexed, rowid_of, active_row-cons, set_active-cons, set_active-absent,
}

abbrev pub enabled : ℕ → OfferSnapshotRow → OfferSnapshotRow
enabled id r = if r.rowid == id then record r { active = true } else r

-- The rows of the list that are `id` are of the offer `k`.
abbrev pub AllOf : ℕ → OfferKey → List OfferSnapshotRow → Type 0
AllOf id k rs = any (λ t. (t.rowid == id) && not (key_of t == k)) rs ≡ false

-- What keeps the enabled rows `s` and `t` from clashing.
abbrev apart : ℕ → OfferKey → OfferSnapshotRow → OfferSnapshotRow → Bool
apart id k s t =
    (clash s t || is_active k t)
    || (((t.rowid == id) && not (key_of t == k)) || (t.rowid == s.rowid))

clash-enabled :
    (id : ℕ) (k : OfferKey) (s t : OfferSnapshotRow)
    → is_active k s ≡ false
    → ((s.rowid == id) && not (key_of s == k)) ≡ false
    → apart id k s t ≡ false
    → clash (enabled id s) (enabled id t) ≡ false
clash-enabled id k s t a b h =
    ground (arith, ==_iff (key_of s) k, ==_iff (key_of t) k, ==_iff (key_of s) (key_of t))

AllOf-head :
    (id : ℕ) (k : OfferKey) (s : OfferSnapshotRow) (rs : List OfferSnapshotRow)
    → AllOf id k (s ∷ rs)
    → ((s.rowid == id) && not (key_of s == k)) ≡ false
unfolding any
AllOf-head id k s rs h = ground arith

AllOf-tail :
    (id : ℕ) (k : OfferKey) (s : OfferSnapshotRow) (rs : List OfferSnapshotRow)
    → AllOf id k (s ∷ rs)
    → AllOf id k rs
unfolding any
AllOf-tail id k s rs h = ground arith

AllOf-none :
    (id : ℕ) (k : OfferKey) (rs : List OfferSnapshotRow)
    → by_id rowid_of id rs ≡ none
    → AllOf id k rs
AllOf-none id k rs h =
    any_of_none (λ t. t.rowid == id) (λ t. (t.rowid == id) && not (key_of t == k)) rs
      (λ t e. ground (arith, e)) h

no_row_with_id :
    (id : ℕ) (rs : List OfferSnapshotRow)
    → by_id rowid_of id rs ≡ none
    → any (λ t. t.rowid == id) rs ≡ false
no_row_with_id id rs h = any_of_none (λ t. t.rowid == id) (λ t. t.rowid == id) rs (λ a e. e) h

pub no_active :
    (k : OfferKey) (rs : List OfferSnapshotRow)
    → active_row rs k ≡ none
    → any (is_active k) rs ≡ false
unfolding active_row
no_active k rs h = any_of_none (is_active k) (is_active k) rs (λ a e. e) h

pub enable-IsIndexed :
    (id : ℕ) (k : OfferKey) (rs : List OfferSnapshotRow)
    → HasUniqueIds rowid_of rs
    → IsIndexed rs
    → active_row rs k ≡ none
    → AllOf id k rs
    → IsIndexed (set_active id true rs)
unfolding set_active update_where
enable-IsIndexed id k [] u x a o = tt
enable-IsIndexed id k (s ∷ rs) u x a o =
    let free : active_row rs k ≡ none = ground (arith, active_row-cons s rs k) in
    let off : is_active k s ≡ false = ground (arith, active_row-cons s rs k) in
    let alone : by_id rowid_of s.rowid rs ≡ none = ground (arith, u.0) in
    let rest = AllOf-tail id k s rs o in
    (
      any-update_where (apart id k s) (clash (enabled id s)) (λ r. r.rowid == id)
          (λ r. record r { active = true }) rs
          (λ t. clash-enabled id k s t off (AllOf-head id k s rs o))
          (any-or (λ t. clash s t || is_active k t)
            (λ t. ((t.rowid == id) && not (key_of t == k)) || (t.rowid == s.rowid)) rs
            (any-or (clash s) (is_active k) rs x.0 (no_active k rs free))
            (any-or (λ t. (t.rowid == id) && not (key_of t == k)) (λ t. t.rowid == s.rowid) rs rest
              (no_row_with_id s.rowid rs alone))),
      enable-IsIndexed id k rs u.1 x.1 free rest,
    )

-- Enabling the row `r` makes it the active row of its offer and changes no other offer.
pub active_row-enable :
    (rows : List OfferSnapshotRow) (k j : OfferKey) (r : OfferSnapshotRow)
    → HasUniqueIds rowid_of rows
    → active_row rows k ≡ none
    → by_id rowid_of r.rowid rows ≡ some r
    → key_of r ≡ k
    → active_row (set_active r.rowid true rows) j
      ≡ (if k == j then some (record r { active = true }) else active_row rows j)
unfolding find_first
active_row-enable [] k j r u a b e = absurd (ground (arith, b))
active_row-enable (s ∷ rs) k j r u a b e = elim (Bool-cases (s.rowid == r.rowid)) [
  | inl same ↦ rw (set_active-cons r.rowid true s rs) (
      ground (
        arith,
        same,
        active_row-cons s rs k,
        active_row-cons s rs j,
        active_row-cons (record s { active = true }) (set_active r.rowid true rs) j,
        set_active-absent r.rowid true rs,
        u.0,
        ==_iff (key_of s) j,
        ==_iff k j,
      ))
  | inr other ↦ rw (set_active-cons r.rowid true s rs) (
      ground (
        arith,
        other,
        active_row-cons s rs k,
        active_row-cons s rs j,
        active_row-cons s (set_active r.rowid true rs) j,
        active_row-enable rs k j r u.1,
        ==_iff (key_of s) k,
        ==_iff (key_of s) j,
        ==_iff k j,
      ))
]

-- A row found by its payload is the only one with its rowid, and of the offer.
pub AllOf-found :
    (k : OfferKey) (rs : List OfferSnapshotRow) (r : OfferSnapshotRow)
    → HasUniqueIds rowid_of rs
    → by_id rowid_of r.rowid rs ≡ some r
    → key_of r ≡ k
    → AllOf r.rowid k rs
unfolding any find_first
AllOf-found k [] r u b e = refl
AllOf-found k (s ∷ rs) r u b e = elim (Bool-cases (s.rowid == r.rowid)) [
  | inl same ↦ ground (arith, same, u.0, AllOf-none r.rowid k rs, ==_iff (key_of s) k)
  | inr other ↦ ground (arith, other, AllOf-found k rs r u.1)
]
