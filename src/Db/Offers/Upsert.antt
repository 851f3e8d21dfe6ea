-- ===== src/Db/Offers/Upsert.antt =====
-- `upsert` and `find` of src/db/offers.rs together, as src/p2p/.../provide.rs calls them.
use derouter.Base.{
  ℕ, String, ◌≡◌, ◌≢◌, refl, ap, Bool, true, false, ◌&&◌, not, inl, inr, Option, none, some, List,
  [], ◌∷◌, arith, Outcome, ok, err, panic, Bool-cases, find_first, any, ◌==◌, nat_eq, text_eq,
  ==_refl, ==_iff,
}
use derouter.Dto.{PeerId, OfferSnapshot}
use derouter.Db.{OfferSnapshotRow, Database}
use derouter.Db.Rowids.{by_id}
use derouter.Db.Offers.{
  OfferKey, key_of, key_eq, is_active, active_row, payload_row, set_active, enable, upsert_on_any,
  upsert, find, to_snapshot,
}
use derouter.Db.Offers.Table.{
  IsTable, rowid_of, active_row-cons, active_row-nil, active_row-by_id, active_row-holds,
  active_once, set_active-cons, set_active-absent,
}
use derouter.Db.Offers.Enable.{no_active}
use derouter.Db.Offers.Place.{upsert_on_any-Places, nothing_else}

abbrev pub triple : PeerId → String → String → OfferKey
triple provider_peer_id offer_id protocol_id = record {
  provider_peer_id = provider_peer_id;
  protocol_id = protocol_id;
  offer_id = offer_id;
}

abbrev pub active_snapshot : ℕ → PeerId → String → String → String → OfferSnapshot
active_snapshot id provider_peer_id offer_id protocol_id payload = record {
  snapshot_id = id;
  active = true;
  provider_peer_id = provider_peer_id;
  protocol_id = protocol_id;
  offer_id = offer_id;
  protocol_payload = payload;
}

-- `find` on the rowid that `upsert` returned, in the database that it left.
abbrev pub upsert_then_find :
    Bool → Database → PeerId → String → String → String → Outcome ⊥ (ℕ × Option OfferSnapshot)
upsert_then_find main_first db provider_peer_id offer_id protocol_id payload =
    elim (upsert main_first db provider_peer_id offer_id protocol_id payload) [
      | ok (id, db') ↦ ok (id, find db' id)
      | err e ↦ absurd e
      | panic ↦ panic
    ]

-- Setting a row active that is active changes nothing.
set_active-same :
    (rows : List OfferSnapshotRow) (r : OfferSnapshotRow)
    → by_id rowid_of r.rowid rows ≡ some r
    → r.active ≡ true
    → IsTable rows
    → set_active r.rowid true rows ≡ rows
unfolding find_first
set_active-same [] r h a t = ground (arith, h)
set_active-same (s ∷ rs) r h a t = elim (Bool-cases (s.rowid == r.rowid)) [
  | inl same ↦
      rw (set_active-cons r.rowid true s rs)
        (ground (arith, same, h, a, t.ids.0, set_active-absent r.rowid true rs))
  | inr other ↦ rw (set_active-cons r.rowid true s rs) (
      ground (
        arith,
        other,
        h,
        set_active-same rs r (ground (arith, other, h)) a
            (record { ids = t.ids.1; indexed = t.indexed.1 }),
      ))
]

-- An active row has no other active row of its offer beside it.
none_beside :
    (rows : List OfferSnapshotRow) (k : OfferKey) (r : OfferSnapshotRow)
    → IsTable rows
    → active_row rows k ≡ some r
    → any (λ q. is_active k q && not (q.rowid == r.rowid)) rows ≡ false
unfolding any
none_beside [] k r t h = refl
none_beside (s ∷ rs) k r t h = elim (Bool-cases (is_active k s)) [
  | inl on ↦
      let free : active_row rs k ≡ none =
        active_once s rs k t.indexed.0 (ground (arith, on))
          (ground (arith, on, ==_iff (key_of s) k)) in
      ground (
        arith,
        on,
        h,
        active_row-cons s rs k,
        nothing_else k r rs,
        no_active k rs free,
        ==_refl s.rowid,
      )
  | inr off ↦ ground (
    arith,
    off,
    h,
    active_row-cons s rs k,
    none_beside rs k r (record { ids = t.ids.1; indexed = t.indexed.1 }),
  )
]

snapshot_of_row :
    (r : OfferSnapshotRow) (provider_peer_id offer_id protocol_id payload : String)
    → key_of r ≡ triple provider_peer_id offer_id protocol_id
    → r.active ≡ true
    → r.protocol_payload ≡ payload
    → to_snapshot r ≡ active_snapshot r.rowid provider_peer_id offer_id protocol_id payload
snapshot_of_row r provider_peer_id offer_id protocol_id payload k a p = ground (
  arith,
  ap (λ (j : OfferKey). j.provider_peer_id) k,
  ap (λ (j : OfferKey). j.protocol_id) k,
  ap (λ (j : OfferKey). j.offer_id) k,
)

-- When no snapshot of the offer is active, `upsert` returns the rowid under which `find` gives the
-- active snapshot of the offer with the payload that was asked for.
pub upsert-find :
    (main_first : Bool) (db : Database) (provider_peer_id offer_id protocol_id payload : String)
    → IsTable db.offer_snapshots
    → active_row db.offer_snapshots (triple provider_peer_id offer_id protocol_id) ≡ none
    → (id : ℕ) × (upsert_then_find main_first db provider_peer_id offer_id protocol_id payload
        ≡ ok (id, some (active_snapshot id provider_peer_id offer_id protocol_id payload)))
unfolding upsert find
upsert-find main_first db provider_peer_id offer_id protocol_id payload t free =
    let k = triple provider_peer_id offer_id protocol_id in
    let p = upsert_on_any-Places main_first db.offer_snapshots k payload t free in
    let now : active_row p.rows' k ≡ some p.row = ground (arith, p.actives k, ==_refl k) in
    (
      p.row.rowid,
      ground (
        arith,
        p.returns,
        active_row-by_id p.rows' k p.row p.table.ids now,
        snapshot_of_row p.row provider_peer_id offer_id protocol_id payload p.offer
            (active_row-holds p.rows' k now).1 p.payload_of,
      ),
    )

other_payload :
    (rows : List OfferSnapshotRow) (k : OfferKey) (payload : String) (r : OfferSnapshotRow)
    → active_row rows k ≡ some r
    → payload_row rows k payload ≡ none
    → r.protocol_payload ≢ payload
unfolding payload_row find_first
other_payload [] k payload r h n = ground (arith, h, active_row-nil k)
other_payload (s ∷ rs) k payload r h n = ground (
  arith,
  h,
  active_row-cons s rs k,
  other_payload rs k payload r,
  ==_iff s.protocol_payload payload,
)

-- When a snapshot `r` of the offer is active and none has the payload that is asked for, `upsert`
-- does not insert the payload: it returns the rowid of `r`, under which `find` still gives the old
-- snapshot, whose payload is another.
pub upsert_stale :
    (main_first : Bool) (db : Database) (provider_peer_id offer_id protocol_id payload : String)
    (r : OfferSnapshotRow)
    → IsTable db.offer_snapshots
    → active_row db.offer_snapshots (triple provider_peer_id offer_id protocol_id) ≡ some r
    → payload_row db.offer_snapshots (triple provider_peer_id offer_id protocol_id) payload ≡ none
    → (upsert_then_find main_first db provider_peer_id offer_id protocol_id payload
        ≡ ok (r.rowid, some (to_snapshot r)))
      × (r.protocol_payload ≢ payload)
unfolding upsert upsert_on_any enable find
upsert_stale main_first db provider_peer_id offer_id protocol_id payload r t h n =
    let k = triple provider_peer_id offer_id protocol_id in
    let by = active_row-by_id db.offer_snapshots k r t.ids h in
    (
      ground (
        arith,
        h,
        n,
        none_beside db.offer_snapshots k r t h,
        set_active-same db.offer_snapshots r by (active_row-holds db.offer_snapshots k h).1 t,
        by,
      ),
      other_payload db.offer_snapshots k payload r h n,
    )
