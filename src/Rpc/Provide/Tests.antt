-- ===== src/Rpc/Provide/Tests.antt =====
-- Runs of the cleanup of a connection (src/rpc/connection.rs), and of connections that provide an
-- offer and close.
use derouter.Base.{
  ◌≡◌, refl, true, none, some, [], ◌∷◌, arith, nat_eq, text_eq, is_some, ok, find_first, any,
}
use derouter.Base.Int.{pos}
use derouter.Base.Maps.{lookup, insert, nested, insert_nested}
use derouter.Db.{Database}
use derouter.Rpc.Provide.{
  ProviderState, close_connection, Served, provided, handle_provider_provide_request,
}
use derouter.Db.Offers.{upsert, upsert_on_any, active_row, payload_row}
use derouter.Rpc.Provide.Keys.{AreModules}
use derouter.Rpc.Provide.Sync.{IsSynced}
use derouter.Rpc.Provide.Close.{Closes, close_connection-Closes}
use derouter.Rpc.Provide.Sessions.Serve.{CanServe, NodeSteps-CanServe}
use derouter.Rpc.Provide.Sessions.{Node, NodeSteps, started, then_step, opened, requested, session}

-- One module that provides one offer.
abbrev pub providing : ProviderState
providing = record {
  module_ids_counter = 1;
  modules =
      (
        0,
        record {
          offers =
              ("openai", ("gpt", record { snapshot_rowid = 1; protocol_payload = "new" }) ∷ [])
              ∷ [];
        },
      )
      ∷ [];
  offers_module_map = ("openai", ("gpt", 0) ∷ []) ∷ [];
  last_updated_at = pos 20;
}

pub providing-IsSynced : IsSynced providing
unfolding nested lookup
providing-IsSynced = record { agree = λ id a b. ground arith; fresh = λ id h. ground (arith, h) }

pub providing-AreModules : AreModules providing.modules
unfolding lookup
providing-AreModules = (refl, ((refl, ((refl, tt), tt)), (tt, tt)))

there : is_some (lookup 0 providing.modules) ≡ true
unfolding lookup
there = refl

close_connection-Closes_example : Closes providing 0 (close_connection (pos 30) providing (some 0))
close_connection-Closes_example =
    close_connection-Closes (pos 30) providing 0 providing-IsSynced providing-AreModules there

abbrev new_node : Node
new_node = record {
  provider = record {
    module_ids_counter = 0;
    modules = [];
    offers_module_map = [];
    last_updated_at = pos 1;
  };
  connections = [];
  db = record { peers = []; offer_snapshots = []; service_jobs = [] };
}

abbrev pub stored : Database
stored = record {
  peers =
      record {
        peer_id = "me";
        provider_name = none;
        provider_teaser = none;
        provider_description = none;
        their_provider_updated_at = none;
        our_provider_updated_at = none;
        their_latest_heartbeat_timestamp = none;
        our_latest_heartbeat_timestamp = none;
      }
      ∷ [];
  offer_snapshots =
      record {
        rowid = 1;
        provider_peer_id = "me";
        protocol_id = "openai";
        offer_id = "gpt";
        protocol_payload = "new";
        active = true;
      }
      ∷ [];
  service_jobs = [];
}

abbrev serving : Served
serving = record { provider = providing; provider_module_id = some 0; db = stored }

vacant : lookup 7 new_node.connections ≡ none
unfolding lookup
vacant = refl

abbrev connected : Node
connected = record new_node { connections = insert 7 none new_node.connections }

open_now : lookup 7 connected.connections ≡ some none
unfolding lookup insert
open_now = refl

served_now :
    handle_provider_provide_request true "me" (pos 20) (session connected none) "openai" "gpt" "new"
    ≡ ok (provided, serving)
unfolding handle_provider_provide_request lookup insert nested insert_nested upsert upsert_on_any
    active_row find_first payload_row any
served_now = refl

abbrev history : NodeSteps (record {
  provider = providing;
  connections = insert 7 (some 0) connected.connections;
  db = stored;
})
history = then_step (then_step (started {n = new_node} refl refl refl) (opened 7 vacant)) (
    requested true "me" (pos 20) 7 none "openai" "gpt" "new" provided serving open_now (omega arith)
      served_now)

NodeSteps-CanServe_example : CanServe (record {
  provider = providing;
  connections = insert 7 (some 0) connected.connections;
  db = stored;
})
NodeSteps-CanServe_example = NodeSteps-CanServe history
