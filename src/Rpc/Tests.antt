-- ===== src/Rpc/Tests.antt =====
-- Runs of the subscriptions and of the provided offers (src/rpc).
use derouter.Base.{
  ℕ, ◌≡◌, ◌↔◌, inr, refl, true, false, ◌&&◌, none, some, [], ◌∷◌, arith, ok, if◌then◌else◌, any,
  find_first, map, select, nat_eq, text_eq, ◌==◌, is_none,
}
use derouter.Base.Int.{pos}
use derouter.Base.Maps.{lookup, nested, HasUniqueKeys}
use derouter.State.{RpcEvent, offer_updated}
use derouter.Db.{OfferSnapshotRow, Database, empty_database}
use derouter.Db.Offers.{
  to_snapshot, query_active_offers, upsert, upsert_on_any, active_row, payload_row,
}
use derouter.Rpc.Subscriptions.{
  Connection, active_offers, active_providers, subscribe, handle_cancel_subscription_request,
  cancelled, subscribed,
}
use derouter.Rpc.Subscriptions.Filters.{gets_frame, query_active_offers-frame_for}
use derouter.Rpc.Subscriptions.Delivery.{
  asked, delivered, wanted, handle_event-exact, IsConnection, subscribe-delivers, cancel-delivers,
}
use derouter.Rpc.Provide.{ProviderState, Served, handle_provider_provide_request}
use derouter.Rpc.Provide.Sync.{IsSynced}
use derouter.Rpc.Provide.Request.{Provides, handle_provide-Provides}

abbrev connection : Connection
connection = record {
  subscriptions_counter = 1;
  subscriptions = (0, active_offers (some ("openai" ∷ [])) none) ∷ [];
}

abbrev event : RpcEvent
event = offer_updated (record {
  snapshot_id = 1;
  active = true;
  provider_peer_id = "provider";
  protocol_id = "openai";
  offer_id = "gpt";
  protocol_payload = "{}";
})

connection_unique : HasUniqueKeys connection.subscriptions
unfolding lookup
connection_unique = (refl, tt)

connection-IsConnection : IsConnection connection
unfolding lookup
connection-IsConnection = record { unique = (refl, tt); below = λ n h. ground (arith, h) }

handle_event-exact_example : delivered connection event 0 ≡ wanted connection.subscriptions event 0
handle_event-exact_example = handle_event-exact connection event 0 connection_unique

subscribe-delivers_example :
    (id : ℕ) × (((subscribe connection active_providers).0 ≡ subscribed id)
      × ((lookup id connection.subscriptions ≡ none)
          × (IsConnection (subscribe connection active_providers).1
              × (delivered (subscribe connection active_providers).1 event 0 ≡ (
                  if id == 0
                  then asked event 0 active_providers
                  else delivered connection event 0)))))
subscribe-delivers_example =
    subscribe-delivers connection active_providers event 0 connection-IsConnection (omega arith)

-- The subscription to cancel.
abbrev disused : ℕ
disused = 0

cancel-delivers_example :
    IsConnection (handle_cancel_subscription_request connection disused).1
    × ((delivered (handle_cancel_subscription_request connection disused).1 event 0
          ≡ (if disused == 0 then [] else delivered connection event 0))
        × (((handle_cancel_subscription_request connection disused).0 ≡ cancelled)
            ↔ (is_none (lookup disused connection.subscriptions) ≡ false)))
cancel-delivers_example = cancel-delivers connection disused event 0 connection-IsConnection

-- An active snapshot and one that is not.
abbrev two_rows : Database
two_rows = record empty_database {
  offer_snapshots =
      record {
        rowid = 1;
        provider_peer_id = "provider";
        protocol_id = "openai";
        offer_id = "gpt";
        protocol_payload = "{}";
        active = true;
      }
      ∷ (record {
        rowid = 2;
        provider_peer_id = "provider";
        protocol_id = "other";
        offer_id = "gpt";
        protocol_payload = "{}";
        active = false;
      }
          ∷ []);
}

query_active_offers-frame_for_example :
    query_active_offers (λ rows. rows) two_rows (some ("openai" ∷ [])) none
    ≡ map to_snapshot (
        select
          (λ (r : OfferSnapshotRow). r.active && gets_frame (some ("openai" ∷ [])) none r)
          two_rows.offer_snapshots)
query_active_offers-frame_for_example =
    query_active_offers-frame_for (λ rows. rows) two_rows (some ("openai" ∷ [])) none (inr refl)

abbrev no_offers : ProviderState
no_offers = record {
  module_ids_counter = 0;
  modules = [];
  offers_module_map = [];
  last_updated_at = pos 1;
}

no_offers-IsSynced : IsSynced no_offers
unfolding nested lookup
no_offers-IsSynced = record { agree = λ id a b. ground arith; fresh = λ id h. refl }

abbrev idle : Served
idle = record { provider = no_offers; provider_module_id = none; db = empty_database }

abbrev gpt : Database
gpt = record empty_database {
  peers =
      record {
        peer_id = "me";
        provider_name = none;
        provider_teaser = none;
        provider_description = none;
        their_provider_updated_at = none;
        our_provider_updated_at = none;
        their_latest_heartbeat_timestamp = none;
        our_latest_heartbeat_timestamp = none;
      }
      ∷ [];
  offer_snapshots =
      record {
        rowid = 1;
        provider_peer_id = "me";
        protocol_id = "openai";
        offer_id = "gpt";
        protocol_payload = "{}";
        active = true;
      }
      ∷ [];
}

upserted : upsert true empty_database "me" "gpt" "openai" "{}" ≡ ok (1, gpt)
unfolding upsert upsert_on_any active_row find_first payload_row any
upserted = refl

nothing_provided : nested "openai" "gpt" no_offers.offers_module_map ≡ none
unfolding nested lookup
nothing_provided = refl

handle_provide-Provides_example :
    Provides idle "openai" "gpt" "{}" 1 gpt
      (handle_provider_provide_request true "me" (pos 2) idle "openai" "gpt" "{}")
handle_provide-Provides_example =
    handle_provide-Provides true "me" (pos 2) idle "openai" "gpt" "{}" 1 gpt no_offers-IsSynced tt
      (omega arith) nothing_provided upserted
