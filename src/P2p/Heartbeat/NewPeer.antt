-- ===== src/P2p/Heartbeat/NewPeer.antt =====
-- src/p2p/gossipsub/heartbeat/handle.rs: the first heartbeat of a peer.
use derouter.Base.{
  ◌≡◌, refl, Bool, true, false, none, some, List, [], ◌∷◌, ◌++◌, arith, any, find_first, ◌==◌,
  text_eq, ==_iff, ==_refl,
}
use derouter.Dto.{PeerId, DateTime}
use derouter.Db.{OfferSnapshotRow, Database}
use derouter.Db.Offers.{OfferKey, key_eq, key_beq}
use derouter.Db.Offers.Table.{IsTable}
use derouter.P2p.Proto.{ProviderDetails, Heartbeat, Offers}
use derouter.P2p.Heartbeat.{is_peer, new_peer, work_on, offer_events, handle_heartbeat}
use derouter.P2p.Heartbeat.Announce.{incoming}
use derouter.P2p.Heartbeat.Enter.{Vacant, Unknown, UniqueOffers, Vacant-active, each_protocol-Gains}
use derouter.P2p.Heartbeat.Replay.{Agrees, appended}

-- No snapshot of the Provider is stored.
abbrev pub HasNoOffers : PeerId → List OfferSnapshotRow → Type 0
HasNoOffers source rows = any (λ r. r.provider_peer_id == source) rows ≡ false

none_stored :
    (source : PeerId) (rows : List OfferSnapshotRow) (j : OfferKey)
    → HasNoOffers source rows
    → (source == j.provider_peer_id) ≡ true
    → Vacant rows j
unfolding any key_beq
none_stored source [] j h e = refl
none_stored source (r ∷ rows) j h e = ground (
  arith,
  h,
  e,
  none_stored source rows j,
  ==_iff r.provider_peer_id source,
  ==_iff source j.provider_peer_id,
  ==_iff r.provider_peer_id j.provider_peer_id,
)

all-Unknown :
    (source : PeerId) (rows : List OfferSnapshotRow) (offers : Offers)
    → HasNoOffers source rows
    → Unknown rows (incoming source offers)
all-Unknown source rows offers h j s = none_stored source rows j h (ground (arith, s))

-- The first heartbeat of a peer that has provider details is handled with no failure. The peer is
-- stored, the table of offers has both unique indexes, the active snapshots of the peer are the offers
-- of the heartbeat, payload by payload, and the active payloads of every other Provider are what they
-- were. The table had the indexes and no snapshot of the peer, and the heartbeat names no offer twice.
pub new_peer-Agrees :
    (main_first : Bool) (db : Database) (source : PeerId) (heartbeat : Heartbeat) (now : DateTime)
    (details : ProviderDetails)
    → IsTable db.offer_snapshots
    → UniqueOffers details.offers
    → HasNoOffers source db.offer_snapshots
    → find_first (is_peer source) db.peers ≡ none
    → heartbeat.provider ≡ some details
    → Agrees db source details.offers
        (new_peer source details heartbeat now)
        (handle_heartbeat main_first db source heartbeat now)
unfolding handle_heartbeat
new_peer-Agrees main_first db source heartbeat now details t u empty absent d =
    let g =
      each_protocol-Gains source details.offers (work_on db) u t
        (all-Unknown source db.offer_snapshots details.offers empty) in
    record {
      db' = record db {
        peers = db.peers ++ new_peer source details heartbeat now ∷ [];
        offer_snapshots = g.work.rows;
      };
      events = offer_events g.work;
      returns = ground (arith, absent, d, g.returns);
      stored =
          appended db.peers source (new_peer source details heartbeat now) absent (==_refl source);
      table = g.table;
      payloads = λ j. ground (
        arith,
        g.payloads j,
        none_stored source db.offer_snapshots j empty,
        Vacant-active db.offer_snapshots j,
      );
    }
