-- ===== src/Db/Offers.antt =====
-- src/db/offers.rs, and the statements on `offer_snapshots` that it shares with
-- src/p2p/gossipsub/heartbeat/handle.rs: look up, disable, insert and upsert a snapshot.
-- The unique indexes of src/db/migrations/002-create_offer_snapshots are part of the statements.
pub mod Table
pub mod Enable
pub mod Place
pub mod Upsert
mod Tests
use derouter.Base.{
  ℕ, String, Bool, true, false, ◌&&◌, ◌||◌, not, Option, none, some, List, [], ◌∷◌, ◌++◌, ◌==◌,
  nat_eq, Keyed, ◌≡◌, ◌↔◌, arith, text_eq, find_first, any, select, update_where, Outcome, ok, err,
  panic, is_some, or_else, map_option, map, ==_iff, if◌then◌else◌,
}
use derouter.Dto.{PeerId, OfferSnapshot}
use derouter.Db.{OfferSnapshotRow, PeerRow, Database, next_rowid}

-- The triple that names an offer in the network.
pub record OfferKey : Type 0 where
  pub provider_peer_id : PeerId
  pub protocol_id : String
  pub offer_id : String

unfoldable pub key_beq : OfferKey → OfferKey → Bool
key_beq a b =
    (a.provider_peer_id == b.provider_peer_id)
    && ((a.protocol_id == b.protocol_id) && (a.offer_id == b.offer_id))

pub key_beq_iff : (a b : OfferKey) → (key_beq a b ≡ true) ↔ (a ≡ b)
unfolding key_beq
key_beq_iff a b = ground (
  arith,
  ==_iff a.provider_peer_id b.provider_peer_id,
  ==_iff a.protocol_id b.protocol_id,
  ==_iff a.offer_id b.offer_id,
)

instance abbrev pub key_eq : Keyed OfferKey
key_eq = record { same = key_beq; same_iff = key_beq_iff }

abbrev pub key_of : OfferSnapshotRow → OfferKey
key_of r = record {
  provider_peer_id = r.provider_peer_id;
  protocol_id = r.protocol_id;
  offer_id = r.offer_id;
}

-- The rows that hold a new active row's value in idx_offer_snapshots_main_active, and in
-- idx_offer_snapshots_protocol_payload.
abbrev pub is_active : OfferKey → OfferSnapshotRow → Bool
is_active k r = (key_of r == k) && r.active

abbrev pub has_payload : OfferKey → String → OfferSnapshotRow → Bool
has_payload k payload r = (key_of r == k) && (r.protocol_payload == payload)

unfoldable pub active_row : List OfferSnapshotRow → OfferKey → Option OfferSnapshotRow
active_row rows k = find_first (is_active k) rows

unfoldable pub payload_row : List OfferSnapshotRow → OfferKey → String → Option OfferSnapshotRow
payload_row rows k payload = find_first (has_payload k payload) rows

-- UPDATE offer_snapshots SET active = ?2 WHERE ROWID = ?1
unfoldable pub set_active : ℕ → Bool → List OfferSnapshotRow → List OfferSnapshotRow
set_active id b rows = update_where (λ r. r.rowid == id) (λ r. record r { active = b }) rows

abbrev pub new_snapshot : ℕ → OfferKey → String → OfferSnapshotRow
new_snapshot id k payload = record {
  rowid = id;
  provider_peer_id = k.provider_peer_id;
  protocol_id = k.protocol_id;
  offer_id = k.offer_id;
  protocol_payload = payload;
  active = true;
}

abbrev pub next_snapshot : List OfferSnapshotRow → ℕ
next_snapshot rows = next_rowid (λ (r : OfferSnapshotRow). r.rowid) rows

-- DO UPDATE SET active = 1 on the row `r`. Where another row of the offer is active the update
-- violates the index, and `unwrap` panics.
unfoldable pub enable :
    List OfferSnapshotRow → OfferKey → OfferSnapshotRow → Outcome ⊥ (ℕ × List OfferSnapshotRow)
enable rows k r =
    if any (λ q. is_active k q && not (q.rowid == r.rowid)) rows
    then panic
    else ok (r.rowid, set_active r.rowid true rows)

-- INSERT; a conflict is an error, and `unwrap` panics.
unfoldable pub insert_snapshot :
    List OfferSnapshotRow → OfferKey → String → Outcome ⊥ (ℕ × List OfferSnapshotRow)
insert_snapshot rows k payload =
    if is_some (active_row rows k) || is_some (payload_row rows k payload)
    then panic
    else ok (next_snapshot rows, rows ++ new_snapshot (next_snapshot rows) k payload ∷ [])

-- INSERT … ON CONFLICT (…, protocol_payload) DO UPDATE SET active = 1 RETURNING ROWID
unfoldable pub upsert_on_payload :
    List OfferSnapshotRow → OfferKey → String → Outcome ⊥ (ℕ × List OfferSnapshotRow)
unfolding enable insert_snapshot
upsert_on_payload rows k payload = elim (payload_row rows k payload) [
  | none ↦ insert_snapshot rows k payload
  | some r ↦ enable rows k r
]

-- INSERT … ON CONFLICT DO UPDATE SET active = 1 RETURNING ROWID. With no conflict target the update
-- is of the row that the violated index holds. Where both indexes are violated SQLite takes the one
-- that it checks first: `main_first` says whether that is idx_offer_snapshots_main_active.
unfoldable pub upsert_on_any :
    Bool → List OfferSnapshotRow → OfferKey → String → Outcome ⊥ (ℕ × List OfferSnapshotRow)
unfolding enable insert_snapshot
upsert_on_any main_first rows k payload =
    let main = active_row rows k in
    let same = payload_row rows k payload in
    elim (if main_first then or_else main same else or_else same main) [
      | none ↦ insert_snapshot rows k payload
      | some r ↦ enable rows k r
    ]

-- INSERT INTO peers (peer_id) … ON CONFLICT DO NOTHING
unfoldable pub ensure_peer : PeerId → List PeerRow → List PeerRow
ensure_peer peer peers =
    if any (λ (p : PeerRow). p.peer_id == peer) peers
    then peers
    else peers
      ++ record {
        peer_id = peer;
        provider_name = none;
        provider_teaser = none;
        provider_description = none;
        their_provider_updated_at = none;
        our_provider_updated_at = none;
        their_latest_heartbeat_timestamp = none;
        our_latest_heartbeat_timestamp = none;
      }
        ∷ []

-- `upsert`: the rowid of the snapshot, and the new database.
unfoldable pub upsert :
    Bool → Database → PeerId → String → String → String → Outcome ⊥ (ℕ × Database)
unfolding ensure_peer
upsert main_first db provider_peer_id offer_id protocol_id protocol_payload =
    let k : OfferKey = record {
      provider_peer_id = provider_peer_id;
      protocol_id = protocol_id;
      offer_id = offer_id;
    } in
    elim (upsert_on_any main_first db.offer_snapshots k protocol_payload) [
      | ok (id, rows) ↦
          ok (
            id,
            record db { peers = ensure_peer provider_peer_id db.peers; offer_snapshots = rows },
          )
      | err e ↦ absurd e
      | panic ↦ panic
    ]

abbrev pub to_snapshot : OfferSnapshotRow → OfferSnapshot
to_snapshot r = record {
  snapshot_id = r.rowid;
  active = r.active;
  provider_peer_id = r.provider_peer_id;
  protocol_id = r.protocol_id;
  offer_id = r.offer_id;
  protocol_payload = r.protocol_payload;
}

unfoldable pub find : Database → ℕ → Option OfferSnapshot
find db id = map_option to_snapshot (find_first (λ r. r.rowid == id) db.offer_snapshots)

-- `?n IN rarray(…)`, for an optional filter.
abbrev pub passes : Option (List String) → String → Bool
passes none t = true
passes (some ts) t = any (λ u. u == t) ts

-- `scan` is the order in which SQLite visits the rows: no query of offers has an ORDER BY.
unfoldable pub query_active_offers :
    (List OfferSnapshotRow → List OfferSnapshotRow)
    → Database
    → Option (List String)
    → Option (List PeerId)
    → List OfferSnapshot
query_active_offers scan db protocol_ids provider_peer_ids = map to_snapshot (
    select
      (λ r.
        r.active
        && (passes protocol_ids r.protocol_id && passes provider_peer_ids r.provider_peer_id))
      (scan db.offer_snapshots))

unfoldable pub query_offer_snapshots_by_rowid :
    (List OfferSnapshotRow → List OfferSnapshotRow) → Database → List ℕ → List OfferSnapshot
query_offer_snapshots_by_rowid scan db ids =
    map to_snapshot (select (λ r. any (λ n. n == r.rowid) ids) (scan db.offer_snapshots))
