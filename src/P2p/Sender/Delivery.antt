-- ===== src/P2p/Sender/Delivery.antt =====
-- The heartbeat of src/p2p/gossipsub/heartbeat/send.rs, handled by a node that receives it
-- (src/p2p/gossipsub/heartbeat/handle.rs).
use derouter.Base.{
  ◌≡◌, refl, sym, ap, ◌∙◌, Bool, false, Option, some, List, [], ◌∷◌, arith, text_eq, Outcome, ok,
  inl, inr, ◌==◌, if◌then◌else◌, map_option, find_first, update_where,
}
use derouter.Base.Int.{ℤ, cmp_ℤ}
use derouter.Base.Maps.{HasUniqueKeys, HasUniqueNested}
use Prim.Native.Nat.{Ordering}
use derouter.Dto.{PeerId, DateTime}
use derouter.State.{RpcEvent, provider_heartbeat}
use derouter.Db.{PeerRow, Database}
use derouter.Db.Offers.{OfferKey}
use derouter.Db.Offers.Table.{IsTable}
use derouter.P2p.Proto.{
  ProviderDetails, Heartbeat, Offers, payload_of, timestamp_of, from_timestamp, ts_seconds, on_wire,
}
use derouter.P2p.Heartbeat.{
  HeartbeatError, beat, is_peer, is_outdated, or_time_zero, handle_heartbeat,
}
use derouter.P2p.Heartbeat.Announce.{payload_at}
use derouter.P2p.Heartbeat.Replay.{handle_heartbeat-Agrees}
use derouter.Rpc.Provide.{ProviderState, find_offer}
use derouter.Rpc.Provide.Keys.{AreModules}
use derouter.Rpc.Provide.Sync.{IsSynced}
use derouter.P2p.Sender.{ProviderConfig, PublishError, message, after_publish, maybe_send_heartbeat}
use derouter.P2p.Sender.Message.{offered, maybe_send_heartbeat-Sends}

unique_outer : (offers : Offers) → HasUniqueNested offers → HasUniqueKeys offers
unique_outer [] u = tt
unique_outer ((a, m) ∷ rest) (x, (y, u)) = (x, unique_outer rest u)

published :
    (sent heartbeat : Heartbeat) (r : Option PublishError)
    → after_publish sent r ≡ ok (some heartbeat)
    → sent ≡ heartbeat
published sent heartbeat r h = ground (arith, h)

-- The receiver's active payloads of the sender are what `find_offer` finds at the sender.
pub record Mirrors (db : Database) (source : PeerId) (p : ProviderState)
    (out : Outcome HeartbeatError (Database × List RpcEvent)) : Type 0 where
  pub db' : Database
  pub events : List RpcEvent
  pub returns : out ≡ ok (db', events)
  pub payloads :
      (j : OfferKey)
      → payload_at db'.offer_snapshots j ≡ (
          if source == j.provider_peer_id
          then map_option payload_of (offered (find_offer p j.protocol_id j.offer_id))
          else payload_at db.offer_snapshots j)

-- A heartbeat that a Provider has published, whose maps agree and have no key twice, is handled with
-- no failure by a node that knows the Provider and decodes it, where its time in whole seconds is later
-- than that of the last one, and the time of the provider's last update in whole seconds is later than
-- the stored one. After it the node's active payloads of the Provider are just those that `find_offer`
-- finds at the Provider, and every other Provider keeps its own.
pub heartbeat-Mirrors :
    (publish : Heartbeat → Option PublishError) (config : ProviderConfig) (p : ProviderState)
    (now : DateTime) (heartbeat : Heartbeat) (main_first : Bool) (db : Database) (source : PeerId)
    (later : DateTime) (peer : PeerRow)
    → IsSynced p
    → AreModules p.modules
    → maybe_send_heartbeat publish config p now ≡ ok (some heartbeat)
    → IsTable db.offer_snapshots
    → find_first (is_peer source) db.peers ≡ some peer
    → is_outdated peer (on_wire heartbeat) ≡ false
    → cmp_ℤ (ts_seconds p.last_updated_at) (or_time_zero peer.their_provider_updated_at)
      ≡ Ordering.gt
    → Mirrors db source p (handle_heartbeat main_first db source (on_wire heartbeat) later)
heartbeat-Mirrors publish config p now heartbeat main_first db source later peer s u sent t found
      fresh newer =
    elim (maybe_send_heartbeat-Sends publish config p now s u) [
      | inl (nothing, n) ↦ absurd (ground (arith, nothing, sent))
      | inr g ↦
          let built = message config p now g.offers in
          let same : built ≡ heartbeat =
            published built heartbeat (publish built) (ground (arith, g.returns, sent)) in
          let details : ProviderDetails = record {
            name = config.name;
            teaser = config.teaser;
            description = config.description;
            offers = g.offers;
            updated_at = ts_seconds p.last_updated_at;
          } in
          let a =
            handle_heartbeat-Agrees main_first db source (on_wire heartbeat) later peer details t
              (unique_outer g.offers g.unique) found fresh
              (ap (λ h. (on_wire h).provider) (sym same)) newer in
          record {
            db' = a.db';
            events = a.events;
            returns = a.returns;
            payloads = λ j. a.payloads j ∙ rw g.exact refl;
          }
    ]

cmp_ℤ-same : (a : ℤ) → cmp_ℤ a a ≡ Ordering.eq
cmp_ℤ-same a = ground arith

-- A heartbeat whose provider details have the time that is stored changes no snapshot.
unchanged_snapshots :
    (main_first : Bool) (db : Database) (source : PeerId) (heartbeat : Heartbeat) (later : DateTime)
    (peer : PeerRow) (details : ProviderDetails)
    → find_first (is_peer source) db.peers ≡ some peer
    → is_outdated peer heartbeat ≡ false
    → heartbeat.provider ≡ some details
    → cmp_ℤ details.updated_at (or_time_zero peer.their_provider_updated_at) ≡ Ordering.eq
    → (db' : Database) × (events : List RpcEvent) × (handle_heartbeat main_first db source heartbeat
          later
        ≡ ok (db', events))
      × (db'.offer_snapshots ≡ db.offer_snapshots)
unfolding handle_heartbeat
unchanged_snapshots main_first db source heartbeat later peer details found fresh h e = (
  record db { peers = update_where (is_peer source) (beat heartbeat later) db.peers },
  provider_heartbeat (record { peer_id = source; latest_heartbeat_at = later }) ∷ [],
  ground (arith, found, fresh, h, e),
  refl,
)

-- Where the provider state was last updated in the same second as the update that a node has stored of
-- the Provider, a heartbeat that the Provider has published since is handled with no failure, but changes
-- no snapshot: offers that were provided or withdrawn in the rest of that second are not mirrored.
pub same_second-unmirrored :
    (publish : Heartbeat → Option PublishError) (config : ProviderConfig) (p : ProviderState)
    (now stored : DateTime) (heartbeat : Heartbeat) (main_first : Bool) (db : Database)
    (source : PeerId) (later : DateTime) (peer : PeerRow)
    → IsSynced p
    → AreModules p.modules
    → maybe_send_heartbeat publish config p now ≡ ok (some heartbeat)
    → find_first (is_peer source) db.peers ≡ some peer
    → is_outdated peer (on_wire heartbeat) ≡ false
    → peer.their_provider_updated_at ≡ some (ts_seconds stored)
    → timestamp_of p.last_updated_at ≡ timestamp_of stored
    → (db' : Database) × (events : List RpcEvent) × (handle_heartbeat main_first db source
          (on_wire heartbeat)
          later
        ≡ ok (db', events))
      × (db'.offer_snapshots ≡ db.offer_snapshots)
same_second-unmirrored publish config p now stored heartbeat main_first db source later peer s u
      sent found fresh known second =
    elim (maybe_send_heartbeat-Sends publish config p now s u) [
      | inl (nothing, n) ↦ absurd (ground (arith, nothing, sent))
      | inr g ↦
          let built = message config p now g.offers in
          let same : built ≡ heartbeat =
            published built heartbeat (publish built) (ground (arith, g.returns, sent)) in
          let details : ProviderDetails = record {
            name = config.name;
            teaser = config.teaser;
            description = config.description;
            offers = g.offers;
            updated_at = ts_seconds p.last_updated_at;
          } in
          let equal : ts_seconds p.last_updated_at ≡ ts_seconds stored = ap from_timestamp second in
          let stored_time = ap or_time_zero known in
          unchanged_snapshots main_first db source (on_wire heartbeat) later peer details found
            fresh (ap (λ h. (on_wire h).provider) (sym same))
            (ap (λ t. cmp_ℤ (ts_seconds p.last_updated_at) t) (stored_time ∙ sym equal)
              ∙ cmp_ℤ-same (ts_seconds p.last_updated_at))
    ]
