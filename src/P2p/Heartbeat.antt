-- ===== src/P2p/Heartbeat.antt =====
-- src/p2p/gossipsub/heartbeat/handle.rs: what a node does with a heartbeat of another peer.
-- The transaction is committed only where the handler returns `ok`. `now` is the local clock: the
-- handler's CURRENT_TIMESTAMP and `Utc::now()`. The rows that the first loop visits are those that
-- are active when it starts; SQLite may let its cursor meet a row that the loop itself has inserted,
-- and such a row has the incoming payload, for which the loop's body does nothing.
pub mod Announce
pub mod Reconcile
pub mod Sync
pub mod Replay
pub mod Enter
pub mod NewPeer
use derouter.Base.{
  ℕ, String, Bool, true, false, ◌&&◌, Option, none, some, List, [], ◌∷◌, ◌++◌, map, ◌==◌, text_eq,
  find_first, select, update_where, Outcome, ok, err, panic, ◌>>=◌, is_some, if◌then◌else◌,
}
use derouter.Base.Int.{ℤ, pos, cmp_ℤ, leb_ℤ}
use derouter.Base.Maps.{Map}
use Prim.Native.Nat.{Ordering}
use derouter.Dto.{PeerId, DateTime, OfferSnapshot, OfferRemoved, ProviderHeartbeat, ProviderRecord}
use derouter.State.{RpcEvent, offer_removed, offer_updated, provider_heartbeat, provider_updated}
use derouter.Db.{PeerRow, OfferSnapshotRow, Database}
use derouter.Db.Offers.{
  OfferKey, key_of, active_row, set_active, insert_snapshot, upsert_on_payload, upsert_on_any,
}
use derouter.P2p.Proto.{ProviderOffer, Offers, ProviderDetails, Heartbeat, get_offer}

pub data HeartbeatError : Type 0 where
  outdated_timestamp provider_went_back : HeartbeatError

-- What the loops over the offers change: the table, `updated_offers` and `removed_offers`.
pub record Work : Type 0 where
  pub rows : List OfferSnapshotRow
  pub updated_offers : List OfferSnapshot
  pub removed_offers : List OfferRemoved

abbrev pub offer_key : PeerId → String → String → OfferKey
offer_key source protocol_id offer_id = record {
  provider_peer_id = source;
  protocol_id = protocol_id;
  offer_id = offer_id;
}

abbrev pub snapshot : PeerId → String → String → String → ℕ → OfferSnapshot
snapshot source protocol_id offer_id payload rowid = record {
  snapshot_id = rowid;
  active = true;
  provider_peer_id = source;
  protocol_id = protocol_id;
  offer_id = offer_id;
  protocol_payload = payload;
}

-- `updated_offers.push(…)`, with the table that the statement leaves.
abbrev pub reported : Work → PeerId → String → String → String → ℕ → List OfferSnapshotRow → Work
reported w source protocol_id offer_id payload rowid rows = record w {
  rows = rows;
  updated_offers = w.updated_offers ++ snapshot source protocol_id offer_id payload rowid ∷ [];
}

-- Takes the result of a statement on the table, and reports the snapshot as updated.
abbrev pub report :
    Work
    → PeerId
    → String
    → String
    → String
    → Outcome ⊥ (ℕ × List OfferSnapshotRow)
    → Outcome HeartbeatError Work
report w source protocol_id offer_id payload panic = panic
report w source protocol_id offer_id payload (err e) = absurd e
report w source protocol_id offer_id payload (ok (rowid, rows)) =
    ok (reported w source protocol_id offer_id payload rowid rows)

-- The snapshot is disabled, and reported as removed.
abbrev pub dropped : PeerId → OfferSnapshotRow → Work → Work
dropped source r w = record w {
  rows = set_active r.rowid false w.rows;
  removed_offers =
      w.removed_offers
      ++ record {
        snapshot_id = r.rowid;
        provider_peer_id = source;
        protocol_id = r.protocol_id;
        offer_id = r.offer_id;
      }
        ∷ [];
}

-- One round of the loop over the active snapshots of the peer.
unfoldable pub reconcile : PeerId → Offers → OfferSnapshotRow → Work → Outcome HeartbeatError Work
reconcile source offers r w = elim (get_offer offers r.protocol_id r.offer_id) [
  | some incoming ↦
      if incoming.protocol_payload == r.protocol_payload
      then ok w
      else report w source r.protocol_id r.offer_id incoming.protocol_payload (
          upsert_on_payload (set_active r.rowid false w.rows)
            (offer_key source r.protocol_id r.offer_id) incoming.protocol_payload)
  | none ↦ ok (dropped source r w)
]

unfoldable pub reconcile_all :
    PeerId → Offers → List OfferSnapshotRow → Work → Outcome HeartbeatError Work
reconcile_all source offers [] w = ok w
reconcile_all source offers (r ∷ rs) w = do
  w' ← reconcile source offers r w
  reconcile_all source offers rs w'

-- One round of the loops over the incoming offers.
unfoldable pub announce :
    Bool → PeerId → String → String → ProviderOffer → Work → Outcome HeartbeatError Work
announce main_first source protocol_id offer_id offer w =
    if is_some (active_row w.rows (offer_key source protocol_id offer_id))
    then ok w
    else report w source protocol_id offer_id offer.protocol_payload (
        upsert_on_any main_first w.rows (offer_key source protocol_id offer_id)
          offer.protocol_payload)

-- The round of the loops that enters the offers of a new peer.
unfoldable pub enter : PeerId → String → String → ProviderOffer → Work → Outcome HeartbeatError Work
enter source protocol_id offer_id offer w =
    report w source protocol_id offer_id offer.protocol_payload
      (insert_snapshot w.rows (offer_key source protocol_id offer_id) offer.protocol_payload)

-- `for (offer_id, offer) in offers_by_protocol`
unfoldable pub each_offer :
    (String → String → ProviderOffer → Work → Outcome HeartbeatError Work)
    → String
    → Map String ProviderOffer
    → Work
    → Outcome HeartbeatError Work
each_offer body protocol_id [] w = ok w
each_offer body protocol_id ((offer_id, offer) ∷ m) w = do
  w' ← body protocol_id offer_id offer w
  each_offer body protocol_id m w'

-- `for (protocol_id, offers_by_protocol) in provider_details.offers`
unfoldable pub each_protocol :
    (String → String → ProviderOffer → Work → Outcome HeartbeatError Work)
    → Offers
    → Work
    → Outcome HeartbeatError Work
each_protocol body [] w = ok w
each_protocol body ((protocol_id, m) ∷ rest) w = do
  w' ← each_offer body protocol_id m w
  each_protocol body rest w'

abbrev pub is_peer : PeerId → PeerRow → Bool
is_peer source p = p.peer_id == source

-- The rows of the first loop's SELECT.
abbrev pub active_of : PeerId → OfferSnapshotRow → Bool
active_of source r = (r.provider_peer_id == source) && r.active

abbrev pub work_on : Database → Work
work_on db = record { rows = db.offer_snapshots; updated_offers = []; removed_offers = [] }

-- The loops of the branch in which the provider was updated.
unfoldable pub sync_offers : Bool → PeerId → Offers → Database → Outcome HeartbeatError Work
sync_offers main_first source offers db = do
  w ← reconcile_all source offers (select (active_of source) db.offer_snapshots) (work_on db)
  each_protocol (announce main_first source) offers w

-- The statements on `peers`, as changes of the peer's row.
abbrev pub beat : Heartbeat → DateTime → PeerRow → PeerRow
beat heartbeat now p = record p {
  their_latest_heartbeat_timestamp = some heartbeat.timestamp;
  our_latest_heartbeat_timestamp = some now;
}

abbrev pub describe : ProviderDetails → Heartbeat → DateTime → PeerRow → PeerRow
describe details heartbeat now p = record p {
  provider_name = details.name;
  provider_teaser = details.teaser;
  provider_description = details.description;
  their_provider_updated_at = some details.updated_at;
  our_provider_updated_at = some now;
  their_latest_heartbeat_timestamp = some heartbeat.timestamp;
  our_latest_heartbeat_timestamp = some now;
}

abbrev pub new_peer : PeerId → ProviderDetails → Heartbeat → DateTime → PeerRow
new_peer source details heartbeat now = record {
  peer_id = source;
  provider_name = details.name;
  provider_teaser = details.teaser;
  provider_description = details.description;
  their_provider_updated_at = some details.updated_at;
  our_provider_updated_at = some now;
  their_latest_heartbeat_timestamp = some heartbeat.timestamp;
  our_latest_heartbeat_timestamp = some now;
}

abbrev pub provider_record : PeerId → ProviderDetails → DateTime → ProviderRecord
provider_record source details now = record {
  peer_id = source;
  name = details.name;
  teaser = details.teaser;
  description = details.description;
  updated_at = now;
  latest_heartbeat_at = now;
}

-- `unwrap_or(*TIME_ZERO)`
abbrev pub or_time_zero : Option DateTime → DateTime
or_time_zero none = pos 0
or_time_zero (some t) = t

-- The heartbeat is not newer than the one stored.
abbrev pub is_outdated : PeerRow → Heartbeat → Bool
is_outdated p heartbeat = elim p.their_latest_heartbeat_timestamp [
  | none ↦ false
  | some stored ↦ leb_ℤ heartbeat.timestamp stored
]

-- The events of the loops, in the order in which they are sent.
abbrev pub offer_events : Work → List RpcEvent
offer_events w = map offer_removed w.removed_offers ++ map offer_updated w.updated_offers

-- A known peer, with provider details.
handle_details :
    Bool
    → Database
    → PeerId
    → Heartbeat
    → DateTime
    → PeerRow
    → ProviderDetails
    → Outcome HeartbeatError (Database × List RpcEvent)
handle_details main_first db source heartbeat now peer details =
    elim (cmp_ℤ details.updated_at (or_time_zero peer.their_provider_updated_at)) [
      | Ordering.lt ↦ err provider_went_back
      | Ordering.eq ↦ ok (
        record db { peers = update_where (is_peer source) (beat heartbeat now) db.peers },
        provider_heartbeat (record { peer_id = source; latest_heartbeat_at = now }) ∷ [],
      )
      | Ordering.gt ↦ do
        w ← sync_offers main_first source details.offers db
        ok (
          record db {
            peers = update_where (is_peer source) (describe details heartbeat now) db.peers;
            offer_snapshots = w.rows;
          },
          provider_updated (provider_record source details now) ∷ offer_events w,
        )
    ]

-- A new peer, with provider details.
handle_new_peer :
    Database
    → PeerId
    → Heartbeat
    → DateTime
    → ProviderDetails
    → Outcome HeartbeatError (Database × List RpcEvent)
handle_new_peer db source heartbeat now details = do
  w ← each_protocol (enter source) details.offers (work_on db)
  ok (
    record db {
      peers = db.peers ++ new_peer source details heartbeat now ∷ [];
      offer_snapshots = w.rows;
    },
    offer_events w,
  )

unfoldable pub handle_heartbeat :
    Bool
    → Database
    → PeerId
    → Heartbeat
    → DateTime
    → Outcome HeartbeatError (Database × List RpcEvent)
unfolding handle_details handle_new_peer
handle_heartbeat main_first db source heartbeat now = elim (find_first (is_peer source) db.peers) [
  | some peer ↦
      if is_outdated peer heartbeat then err outdated_timestamp else (elim heartbeat.provider [
        | some details ↦ handle_details main_first db source heartbeat now peer details
        | none ↦ ok (db, [])
      ])
  | none ↦ elim heartbeat.provider [
    | some details ↦ handle_new_peer db source heartbeat now details
    | none ↦ ok (db, [])
  ]
]
