-- ===== src/P2p/Tests.antt =====
-- Runs of the heartbeat handler (src/p2p/gossipsub/heartbeat/handle.rs).
use derouter.Base.{
  ◌≡◌, refl, true, none, some, [], ◌∷◌, ok, err, find_first, any, update_where, nat_eq, text_eq,
}
use derouter.Base.Int.{pos}
use derouter.Base.Maps.{HasUniqueKeys, lookup}
use derouter.State.{RpcEvent}
use derouter.Db.{PeerRow, OfferSnapshotRow, Database}
use derouter.Db.Offers.Table.{IsTable}
use derouter.P2p.Proto.{ProviderDetails, Heartbeat}
use derouter.P2p.Heartbeat.Enter.{UniqueOffers}
use derouter.P2p.Heartbeat.NewPeer.{HasNoOffers, new_peer-Agrees}
use derouter.P2p.Heartbeat.{new_peer, is_peer, describe, handle_heartbeat, outdated_timestamp}
use derouter.P2p.Heartbeat.Replay.{Agrees, handle_heartbeat-Agrees, handle_heartbeat_replay}

abbrev details : ProviderDetails
details = record {
  name = some "P";
  teaser = none;
  description = none;
  offers = ("openai", ("gpt", record { protocol_payload = "new" }) ∷ []) ∷ [];
  updated_at = pos 20;
}

abbrev heartbeat : Heartbeat
heartbeat = record { provider = some details; timestamp = pos 21 }

abbrev peer : PeerRow
peer = record {
  peer_id = "provider";
  provider_name = none;
  provider_teaser = none;
  provider_description = none;
  their_provider_updated_at = some (pos 10);
  our_provider_updated_at = none;
  their_latest_heartbeat_timestamp = some (pos 11);
  our_latest_heartbeat_timestamp = none;
}

abbrev offer : OfferSnapshotRow
offer = record {
  rowid = 1;
  provider_peer_id = "provider";
  protocol_id = "openai";
  offer_id = "gpt";
  protocol_payload = "old";
  active = true;
}

abbrev known : Database
known = record { peers = peer ∷ []; offer_snapshots = offer ∷ []; service_jobs = [] }

known-IsTable : IsTable known.offer_snapshots
unfolding find_first any
known-IsTable = record { ids = (refl, tt); indexed = (refl, tt) }

unique_protocols : HasUniqueKeys details.offers
unfolding lookup
unique_protocols = (refl, tt)

is_known : find_first (is_peer "provider") known.peers ≡ some peer
unfolding find_first
is_known = refl

handle_heartbeat-Agrees_example :
    Agrees known "provider" details.offers
      (describe details heartbeat (pos 22) peer)
      (handle_heartbeat true known "provider" heartbeat (pos 22))
handle_heartbeat-Agrees_example =
    handle_heartbeat-Agrees true known "provider" heartbeat (pos 22) peer details known-IsTable
      unique_protocols is_known refl refl refl

-- The heartbeat repeats the details that are stored.
abbrev beat_again : Heartbeat
beat_again = record { provider = some (record details { updated_at = pos 10 }); timestamp = pos 21 }

abbrev beaten : Database
beaten = record known {
  peers =
      record peer {
        their_latest_heartbeat_timestamp = some (pos 21);
        our_latest_heartbeat_timestamp = some (pos 22);
      }
      ∷ [];
}

accepted :
    handle_heartbeat true known "provider" beat_again (pos 22)
    ≡ ok (
      beaten,
      RpcEvent.provider_heartbeat (record { peer_id = "provider"; latest_heartbeat_at = pos 22 })
          ∷ [],
    )
unfolding handle_heartbeat find_first update_where
accepted = refl

handle_heartbeat_replay_example :
    handle_heartbeat true beaten "provider" beat_again (pos 30) ≡ err outdated_timestamp
handle_heartbeat_replay_example =
    handle_heartbeat_replay true known beaten "provider" beat_again beat_again (pos 22) (pos 30)
      (record details { updated_at = pos 10 })
      (RpcEvent.provider_heartbeat (record { peer_id = "provider"; latest_heartbeat_at = pos 22 })
        ∷ [])
      refl accepted refl

abbrev nothing_known : Database
nothing_known = record { peers = []; offer_snapshots = []; service_jobs = [] }

nothing_known-IsTable : IsTable nothing_known.offer_snapshots
nothing_known-IsTable = record { ids = tt; indexed = tt }

unique_offers : UniqueOffers details.offers
unfolding lookup
unique_offers = (refl, ((refl, tt), tt))

no_offers : HasNoOffers "provider" nothing_known.offer_snapshots
unfolding any
no_offers = refl

is_new : find_first (is_peer "provider") nothing_known.peers ≡ none
unfolding find_first
is_new = refl

new_peer-Agrees_example :
    Agrees nothing_known "provider" details.offers
      (new_peer "provider" details heartbeat (pos 22))
      (handle_heartbeat true nothing_known "provider" heartbeat (pos 22))
new_peer-Agrees_example =
    new_peer-Agrees true nothing_known "provider" heartbeat (pos 22) details nothing_known-IsTable
      unique_offers no_offers is_new refl
