-- ===== src/P2p/Heartbeat/Replay.antt =====
-- src/p2p/gossipsub/heartbeat/handle.rs: the whole handler, on a heartbeat with provider details.
use derouter.Base.{
  ◌≡◌, refl, Bool, true, false, inl, inr, none, some, List, [], ◌∷◌, ◌++◌, arith, Outcome, ok, err,
  Option-cases, ◌==◌, text_eq, ==_refl, if◌then◌else◌, map_option, find_first, update_where-found,
  find_first-append, update_where,
}
use derouter.Base.Int.{cmp_ℤ, leb_ℤ}
use derouter.Base.Maps.{HasUniqueKeys}
use Prim.Native.Nat.{Ordering}
use derouter.Dto.{PeerId, DateTime}
use derouter.State.{RpcEvent, provider_updated}
use derouter.Db.{PeerRow, Database}
use derouter.Db.Offers.{OfferKey}
use derouter.Db.Offers.Table.{IsTable}
use derouter.P2p.Proto.{Offers, ProviderDetails, Heartbeat, get_offer, payload_of}
use derouter.P2p.Heartbeat.{
  HeartbeatError, outdated_timestamp, is_peer, is_outdated, or_time_zero, describe, beat, new_peer,
  handle_heartbeat, provider_record, offer_events,
}
use derouter.P2p.Heartbeat.Announce.{payload_at}
use derouter.P2p.Heartbeat.Sync.{sync_offers-agrees}

-- The handler returns a database whose row of the peer is `peer`, whose table of offers has its
-- indexes, and whose active snapshots of `source` are those of the heartbeat, the other Providers'
-- payloads being kept.
pub record Agrees (db : Database) (source : PeerId) (offers : Offers) (peer : PeerRow)
    (out : Outcome HeartbeatError (Database × List RpcEvent)) : Type 0 where
  pub db' : Database
  pub events : List RpcEvent
  pub returns : out ≡ ok (db', events)
  pub stored : find_first (is_peer source) db'.peers ≡ some peer
  pub table : IsTable db'.offer_snapshots
  pub payloads :
      (j : OfferKey)
      → payload_at db'.offer_snapshots j ≡ (
          if source == j.provider_peer_id
          then map_option payload_of (get_offer offers j.protocol_id j.offer_id)
          else payload_at db.offer_snapshots j)

-- A heartbeat of a known peer that is newer than the stored one and has newer provider details is
-- handled with no failure. The row of the peer is the described one, the table of offers has both
-- unique indexes, the active snapshots of the peer are the offers of the heartbeat, payload by
-- payload, and the active payloads of every other Provider are what they were. The table had the
-- indexes before, and no protocol stands twice in the heartbeat.
pub handle_heartbeat-Agrees :
    (main_first : Bool) (db : Database) (source : PeerId) (heartbeat : Heartbeat) (now : DateTime)
    (peer : PeerRow) (details : ProviderDetails)
    → IsTable db.offer_snapshots
    → HasUniqueKeys details.offers
    → find_first (is_peer source) db.peers ≡ some peer
    → is_outdated peer heartbeat ≡ false
    → heartbeat.provider ≡ some details
    → cmp_ℤ details.updated_at (or_time_zero peer.their_provider_updated_at) ≡ Ordering.gt
    → Agrees db source details.offers
        (describe details heartbeat now peer)
        (handle_heartbeat main_first db source heartbeat now)
unfolding handle_heartbeat
handle_heartbeat-Agrees main_first db source heartbeat now peer details t u found fresh d newer =
    let s = sync_offers-agrees main_first source details.offers db t u in
    record {
      db' = record db {
        peers = update_where (is_peer source) (describe details heartbeat now) db.peers;
        offer_snapshots = s.work.rows;
      };
      events = provider_updated (provider_record source details now) ∷ offer_events s.work;
      returns = ground (arith, found, fresh, d, newer, s.returns);
      stored =
          update_where-found (is_peer source) (describe details heartbeat now) db.peers (λ p. refl)
            found;
      table = s.table;
      payloads = s.payloads;
    }

peer_after :
    (db : Database) (source : PeerId) (f : PeerRow → PeerRow) (peer : PeerRow)
    → ((p : PeerRow) → (f p).peer_id ≡ p.peer_id)
    → find_first (is_peer source) db.peers ≡ some peer
    → find_first (is_peer source) (update_where (is_peer source) f db.peers) ≡ some (f peer)
peer_after db source f peer same found =
    update_where-found (is_peer source) f db.peers (λ p. rw (same p)) found

pub appended :
    (peers : List PeerRow) (source : PeerId) (new : PeerRow)
    → find_first (is_peer source) peers ≡ none
    → is_peer source new ≡ true
    → find_first (is_peer source) (peers ++ new ∷ []) ≡ some new
unfolding find_first
appended peers source new absent e =
    ground (arith, find_first-append (is_peer source) peers (new ∷ []))

-- After a heartbeat with provider details was accepted, the row of the peer holds its timestamp.
accepted_timestamp :
    (main_first : Bool) (db db' : Database) (source : PeerId) (heartbeat : Heartbeat)
    (now : DateTime) (details : ProviderDetails) (events : List RpcEvent)
    → heartbeat.provider ≡ some details
    → handle_heartbeat main_first db source heartbeat now ≡ ok (db', events)
    → map_option
        (λ (p : PeerRow). p.their_latest_heartbeat_timestamp)
        (find_first (is_peer source) db'.peers)
      ≡ some (some heartbeat.timestamp)
unfolding handle_heartbeat
accepted_timestamp main_first db db' source heartbeat now details events d h =
    elim (Option-cases (find_first (is_peer source) db.peers)) [
      | inl absent ↦ ground (
        arith,
        absent,
        appended db.peers source (new_peer source details heartbeat now),
        ==_refl source,
      )
      | inr (peer, found) ↦ ground (
        arith,
        found,
        peer_after db source (beat heartbeat now) peer (λ p. refl),
        peer_after db source (describe details heartbeat now) peer (λ p. refl),
      )
    ]

-- The row of the peer has this timestamp, so a heartbeat that is not newer is refused.
stale_refused :
    (main_first : Bool) (db : Database) (source : PeerId) (heartbeat : Heartbeat) (now : DateTime)
    (t : DateTime)
    → map_option
        (λ (p : PeerRow). p.their_latest_heartbeat_timestamp)
        (find_first (is_peer source) db.peers)
      ≡ some (some t)
    → leb_ℤ heartbeat.timestamp t ≡ true
    → handle_heartbeat main_first db source heartbeat now ≡ err outdated_timestamp
unfolding handle_heartbeat
stale_refused main_first db source heartbeat now t h older = ground (arith, h, older)

-- Once a heartbeat with provider details was accepted from a peer, every heartbeat of the peer whose
-- timestamp is not larger is refused as outdated: the same one replayed, and any sent before it.
pub handle_heartbeat_replay :
    (main_first : Bool) (db db' : Database) (source : PeerId) (heartbeat old : Heartbeat)
    (now later : DateTime) (details : ProviderDetails) (events : List RpcEvent)
    → heartbeat.provider ≡ some details
    → handle_heartbeat main_first db source heartbeat now ≡ ok (db', events)
    → leb_ℤ old.timestamp heartbeat.timestamp ≡ true
    → handle_heartbeat main_first db' source old later ≡ err outdated_timestamp
handle_heartbeat_replay main_first db db' source heartbeat old now later details events d h older =
    stale_refused main_first db' source old later heartbeat.timestamp
      (accepted_timestamp main_first db db' source heartbeat now details events d h) older
