-- ===== src/Db/Offers/Place.antt =====
-- Upserts and insertions for an offer with no active row (src/db/offers.rs, and the statements of
-- src/p2p/gossipsub/heartbeat/handle.rs).
use derouter.Base.{
  ℕ, String, ◌≡◌, refl, Bool, true, false, ◌&&◌, not, inl, inr, none, some, List, [], ◌∷◌, ◌++◌,
  arith, Outcome, ok, Option-cases, any, any-append_one, any_head, any_tail, subst, any_of_none,
  ◌==◌, nat_eq, text_eq, ==_iff, if◌then◌else◌, find_first-holds,
}
use derouter.Db.{OfferSnapshotRow}
use derouter.Db.Rowids.{
  HasUniqueIds, HasUniqueIds-append, HasUniqueIds-update_where, by_id, by_id-found,
}
use derouter.Db.Offers.{
  OfferKey, key_of, key_eq, is_active, has_payload, active_row, payload_row, set_active,
  new_snapshot, next_snapshot, insert_snapshot, enable, upsert_on_any, upsert_on_payload,
}
use derouter.Db.Offers.Table.{clash, IsIndexed, IsTable, rowid_of, active_row-cons, active_row-nil}
use derouter.Db.Offers.Enable.{active_row-enable, enable-IsIndexed, AllOf-found, no_active}

-- The call returns a rowid and a table with both unique indexes, in which the active row of the
-- offer has that rowid and the payload, and every other offer has the active row it had.
pub record Places (rows : List OfferSnapshotRow) (k : OfferKey) (payload : String)
    (out : Outcome ⊥ (ℕ × List OfferSnapshotRow)) : Type 0 where
  pub row : OfferSnapshotRow
  pub rows' : List OfferSnapshotRow
  pub returns : out ≡ ok (row.rowid, rows')
  pub offer : key_of row ≡ k
  pub payload_of : row.protocol_payload ≡ payload
  pub table : IsTable rows'
  pub actives :
      (j : OfferKey) → active_row rows' j ≡ (if k == j then some row else active_row rows j)

payload_row-holds :
    (rows : List OfferSnapshotRow) (k : OfferKey) (payload : String) (r : OfferSnapshotRow)
    → payload_row rows k payload ≡ some r
    → (key_of r ≡ k) × (r.protocol_payload ≡ payload)
unfolding payload_row
payload_row-holds rows k payload r h = ground (
  arith,
  find_first-holds (has_payload k payload) rows {a = r} h,
  ==_iff (key_of r) k,
  ==_iff r.protocol_payload payload,
)

payload_row-by_id :
    (rows : List OfferSnapshotRow) (k : OfferKey) (payload : String) (r : OfferSnapshotRow)
    → HasUniqueIds rowid_of rows
    → payload_row rows k payload ≡ some r
    → by_id rowid_of r.rowid rows ≡ some r
unfolding payload_row
payload_row-by_id rows k payload r u h = by_id-found rowid_of (has_payload k payload) rows r u h

no_clash : (r : OfferSnapshotRow) → any (clash r) [] ≡ false
unfolding any
no_clash r = refl

clash_new :
    (s : OfferSnapshotRow) (id : ℕ) (k : OfferKey) (payload : String)
    → is_active k s ≡ false
    → has_payload k payload s ≡ false
    → clash s (new_snapshot id k payload) ≡ false
clash_new s id k payload a p = ground arith

pub nothing_else :
    (k : OfferKey) (r : OfferSnapshotRow) (rows : List OfferSnapshotRow)
    → any (is_active k) rows ≡ false
    → any (λ q. is_active k q && not (q.rowid == r.rowid)) rows ≡ false
unfolding any
nothing_else k r [] h = refl
nothing_else k r (s ∷ rows) h = ground (arith, nothing_else k r rows)

-- No row clashes with a new one where no row of the offer is active or has the payload.
append-IsIndexed :
    (rows : List OfferSnapshotRow) (id : ℕ) (k : OfferKey) (payload : String)
    → IsIndexed rows
    → any (is_active k) rows ≡ false
    → any (has_payload k payload) rows ≡ false
    → IsIndexed (rows ++ new_snapshot id k payload ∷ [])
append-IsIndexed [] id k payload x a p = (no_clash (new_snapshot id k payload), tt)
append-IsIndexed (s ∷ rs) id k payload x a p = (
  any-append_one (clash s) rs (new_snapshot id k payload) x.0 (
      clash_new s id k payload (any_head (is_active k) s rs a)
        (any_head (has_payload k payload) s rs p)),
  append-IsIndexed rs id k payload x.1 (any_tail (is_active k) s rs a)
      (any_tail (has_payload k payload) s rs p),
)

active_row-append :
    (rows : List OfferSnapshotRow) (id : ℕ) (k j : OfferKey) (payload : String)
    → active_row rows k ≡ none
    → active_row (rows ++ new_snapshot id k payload ∷ []) j
      ≡ (if k == j then some (new_snapshot id k payload) else active_row rows j)
active_row-append [] id k j payload a =
    ground (arith, active_row-cons (new_snapshot id k payload) [] j, active_row-nil j)
active_row-append (s ∷ rs) id k j payload a = ground (
  arith,
  active_row-cons s rs k,
  active_row-cons s rs j,
  active_row-cons s (rs ++ new_snapshot id k payload ∷ []) j,
  active_row-append rs id k j payload,
  ==_iff (key_of s) k,
  ==_iff (key_of s) j,
  ==_iff k j,
)

pub insert-Places :
    (rows : List OfferSnapshotRow) (k : OfferKey) (payload : String)
    → IsTable rows
    → active_row rows k ≡ none
    → payload_row rows k payload ≡ none
    → Places rows k payload (insert_snapshot rows k payload)
unfolding insert_snapshot payload_row
insert-Places rows k payload t a p = record {
  row = new_snapshot (next_snapshot rows) k payload;
  rows' = rows ++ new_snapshot (next_snapshot rows) k payload ∷ [];
  returns = ground (arith, a, p);
  offer = refl;
  payload_of = refl;
  table = record {
    ids =
        HasUniqueIds-append rowid_of (new_snapshot (next_snapshot rows) k payload) rows refl t.ids;
    indexed =
        append-IsIndexed rows (next_snapshot rows) k payload t.indexed (no_active k rows a)
          (any_of_none (has_payload k payload) (has_payload k payload) rows (λ r e. e) p);
  };
  actives = λ j. active_row-append rows (next_snapshot rows) k j payload a;
}

enable-Places :
    (rows : List OfferSnapshotRow) (k : OfferKey) (payload : String) (r : OfferSnapshotRow)
    → IsTable rows
    → active_row rows k ≡ none
    → payload_row rows k payload ≡ some r
    → Places rows k payload (enable rows k r)
unfolding enable set_active
enable-Places rows k payload r t a p =
    let (offer, same) = payload_row-holds rows k payload r p in
    let by = payload_row-by_id rows k payload r t.ids p in
    record {
      row = record r { active = true };
      rows' = set_active r.rowid true rows;
      returns = ground (arith, nothing_else k r rows (no_active k rows a));
      offer = offer;
      payload_of = same;
      table = record {
        ids =
            HasUniqueIds-update_where rowid_of (λ s. s.rowid == r.rowid)
              (λ s. record s { active = true }) rows (λ s. refl) t.ids;
        indexed =
            enable-IsIndexed r.rowid k rows t.ids t.indexed a (AllOf-found k rows r t.ids by offer);
      };
      actives = λ j. active_row-enable rows k j r t.ids a by offer;
    }

-- With no active row of the offer, the upsert that names no conflict target places the payload,
-- whichever index is checked first.
pub upsert_on_any-Places :
    (main_first : Bool) (rows : List OfferSnapshotRow) (k : OfferKey) (payload : String)
    → IsTable rows
    → active_row rows k ≡ none
    → Places rows k payload (upsert_on_any main_first rows k payload)
unfolding upsert_on_any
upsert_on_any-Places main_first rows k payload t a =
    elim (Option-cases (payload_row rows k payload)) [
      | inl p ↦
          subst (Places rows k payload) (ground (arith, a, p)) (insert-Places rows k payload t a p)
      | inr (r, p) ↦
          subst (Places rows k payload) (ground (arith, a, p))
            (enable-Places rows k payload r t a p)
    ]

-- So does the upsert whose conflict target is the payload's index.
pub upsert_on_payload-Places :
    (rows : List OfferSnapshotRow) (k : OfferKey) (payload : String)
    → IsTable rows
    → active_row rows k ≡ none
    → Places rows k payload (upsert_on_payload rows k payload)
unfolding upsert_on_payload
upsert_on_payload-Places rows k payload t a = elim (Option-cases (payload_row rows k payload)) [
  | inl p ↦
      subst (Places rows k payload) (ground (arith, a, p)) (insert-Places rows k payload t a p)
  | inr (r, p) ↦
      subst (Places rows k payload) (ground (arith, a, p)) (enable-Places rows k payload r t a p)
]
