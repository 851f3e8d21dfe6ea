-- ===== src/P2p/Sender/Tests.antt =====
-- Runs of the sender of heartbeats (src/p2p/gossipsub/heartbeat/send.rs).
use derouter.Base.{
  String, List, ◌≡◌, ◌⊎◌, refl, true, false, Option, none, some, [], ◌∷◌, text_eq, nat_eq, ok,
  find_first, any,
}
use derouter.Base.Int.{pos}
use derouter.Base.Maps.{lookup, insert}
use derouter.Db.{PeerRow, OfferSnapshotRow, Database}
use derouter.Db.Offers.Table.{IsTable}
use derouter.P2p.Proto.{Heartbeat, on_wire}
use derouter.P2p.Heartbeat.{handle_heartbeat, is_peer, is_outdated}
use derouter.Rpc.Provide.{ProviderState, find_offer}
use derouter.Rpc.Provide.Sync.{IsSynced}
use derouter.State.{RpcEvent}
use derouter.Rpc.Provide.Tests.{providing, providing-IsSynced, providing-AreModules}
use derouter.P2p.Sender.{
  ProviderConfig, PublishError, maybe_send_heartbeat, any_offers, gather_modules, gather_protocols,
  gather_offers,
}
use derouter.P2p.Sender.Message.{Sends, maybe_send_heartbeat-Sends}
use derouter.P2p.Sender.Delivery.{Mirrors, heartbeat-Mirrors, same_second-unmirrored}

abbrev config : ProviderConfig
config = record { name = some "P"; teaser = none; description = none }

abbrev published : Heartbeat → Option PublishError
published heartbeat = none

maybe_send_heartbeat-Sends_example :
    ((maybe_send_heartbeat published config providing (pos 21) ≡ ok none)
      × ((a b : String) → find_offer providing a b ≡ ok none))
    ⊎ Sends published config providing
        (pos 21)
        (maybe_send_heartbeat published config providing (pos 21))
maybe_send_heartbeat-Sends_example =
    maybe_send_heartbeat-Sends published config providing (pos 21) providing-IsSynced
      providing-AreModules

abbrev heartbeat : Heartbeat
heartbeat = record {
  provider = some (record {
    name = some "P";
    teaser = none;
    description = none;
    offers = ("openai", ("gpt", record { protocol_payload = "new" }) ∷ []) ∷ [];
    updated_at = pos 20000000000;
  });
  timestamp = pos 21500000000;
}

-- The provider state at 20 seconds.
abbrev at_20 : ProviderState
at_20 = record providing { last_updated_at = pos 20000000000 }

at_20-IsSynced : IsSynced at_20
at_20-IsSynced = record { agree = providing-IsSynced.agree; fresh = providing-IsSynced.fresh }

sent : maybe_send_heartbeat published config at_20 (pos 21500000000) ≡ ok (some heartbeat)
unfolding maybe_send_heartbeat any_offers gather_modules gather_protocols gather_offers lookup
    insert
sent = refl

abbrev peer : PeerRow
peer = record {
  peer_id = "provider";
  provider_name = none;
  provider_teaser = none;
  provider_description = none;
  their_provider_updated_at = some (pos 10000000000);
  our_provider_updated_at = none;
  their_latest_heartbeat_timestamp = some (pos 11000000000);
  our_latest_heartbeat_timestamp = none;
}

abbrev old_offer : OfferSnapshotRow
old_offer = record {
  rowid = 1;
  provider_peer_id = "provider";
  protocol_id = "openai";
  offer_id = "gpt";
  protocol_payload = "old";
  active = true;
}

abbrev receiver : Database
receiver = record { peers = peer ∷ []; offer_snapshots = old_offer ∷ []; service_jobs = [] }

receiver-IsTable : IsTable receiver.offer_snapshots
unfolding find_first any
receiver-IsTable = record { ids = (refl, tt); indexed = (refl, tt) }

known : find_first (is_peer "provider") receiver.peers ≡ some peer
unfolding find_first
known = refl

fresh : is_outdated peer (on_wire heartbeat) ≡ false
fresh = refl

heartbeat-Mirrors_example :
    Mirrors receiver "provider" at_20
      (handle_heartbeat true receiver "provider" (on_wire heartbeat) (pos 22000000000))
heartbeat-Mirrors_example =
    heartbeat-Mirrors published config at_20 (pos 21500000000) heartbeat true receiver "provider"
      (pos 22000000000) peer at_20-IsSynced providing-AreModules sent receiver-IsTable known fresh
      refl

-- A receiver that has stored the update at 20 seconds, while the provider state was updated 0.8 seconds
-- later.
abbrev at_20_8 : ProviderState
at_20_8 = record providing { last_updated_at = pos 20800000000 }

at_20_8-IsSynced : IsSynced at_20_8
at_20_8-IsSynced = record { agree = providing-IsSynced.agree; fresh = providing-IsSynced.fresh }

abbrev later_heartbeat : Heartbeat
later_heartbeat = record {
  provider = some (record {
    name = some "P";
    teaser = none;
    description = none;
    offers = ("openai", ("gpt", record { protocol_payload = "new" }) ∷ []) ∷ [];
    updated_at = pos 20800000000;
  });
  timestamp = pos 21500000000;
}

later_sent :
    maybe_send_heartbeat published config at_20_8 (pos 21500000000) ≡ ok (some later_heartbeat)
unfolding maybe_send_heartbeat any_offers gather_modules gather_protocols gather_offers lookup
    insert
later_sent = refl

abbrev peer_at_20 : PeerRow
peer_at_20 = record peer { their_provider_updated_at = some (pos 20000000000) }

abbrev receiver_at_20 : Database
receiver_at_20 = record receiver { peers = peer_at_20 ∷ [] }

known_at_20 : find_first (is_peer "provider") receiver_at_20.peers ≡ some peer_at_20
unfolding find_first
known_at_20 = refl

same_second-unmirrored_example :
    (db' : Database) × (events : List RpcEvent) × (handle_heartbeat true receiver_at_20 "provider"
        (on_wire later_heartbeat)
        (pos 22000000000)
      ≡ ok (db', events))
    × (db'.offer_snapshots ≡ receiver_at_20.offer_snapshots)
same_second-unmirrored_example =
    same_second-unmirrored published config at_20_8 (pos 21500000000) (pos 20000000000)
      later_heartbeat true receiver_at_20 "provider" (pos 22000000000) peer_at_20 at_20_8-IsSynced
      providing-AreModules later_sent known_at_20 refl refl refl
