-- ===== src/Rpc/Provide.antt =====
-- The offers that the modules of a node provide: `ProviderState` of src/state.rs, the request that
-- provides an offer (src/rpc/procedure/provider/provide.rs), and the cleanup when a connection closes
-- (the end of src/rpc/connection.rs). The channels of a module are left out.
pub mod Keys
pub mod Sync
pub mod Request
pub mod Close
pub mod Sessions
pub mod Tests
use derouter.Base.{
  ℕ, String, Bool, Option, none, some, List, [], ◌∷◌, ◌+◌, nat_eq, text_eq, is_some, Outcome, ok,
  err, panic, ◌>>=◌, if◌then◌else◌,
}
use derouter.Base.Maps.{Map, lookup, insert, remove, nested, insert_nested}
use Prim.Native.Nat.{◌%◌, ◌^◌}
use derouter.Dto.{PeerId, DateTime}
use derouter.Db.{Database}
use derouter.Db.Offers.{upsert}

pub record ProvidedOffer : Type 0 where
  pub snapshot_rowid : ℕ
  pub protocol_payload : String

pub record ProviderModuleState : Type 0 where
  pub offers : Map String (Map String ProvidedOffer)

pub record ProviderState : Type 0 where
  pub module_ids_counter : ℕ
  pub modules : Map ℕ ProviderModuleState
  pub offers_module_map : Map String (Map String ℕ)
  pub last_updated_at : DateTime

-- The module's ID stands for the module itself.
unfoldable pub find_offer : ProviderState → String → String → Outcome ⊥ (Option (ℕ × ProvidedOffer))
find_offer provider protocol_id offer_id =
    elim (nested protocol_id offer_id provider.offers_module_map) [
      | none ↦ ok none
      | some module_id ↦ elim (lookup module_id provider.modules) [
        | none ↦ panic
        | some m ↦ elim (nested protocol_id offer_id m.offers) [
          | none ↦ panic
          | some offer ↦ ok (some (module_id, offer))
        ]
      ]
    ]

pub data ProviderProvideResponse : Type 0 where
  provided : ProviderProvideResponse
  duplicate_offer : String → String → ProviderProvideResponse

-- What the request changes: the provider state, the connection's `provider_module_id`, the database.
pub record Served : Type 0 where
  pub provider : ProviderState
  pub provider_module_id : Option ℕ
  pub db : Database

abbrev pub empty_module : ProviderModuleState
empty_module = record { offers = [] }

-- The connection's module, created if it has none; `unwrap_none` panics where the ID is taken.
unfoldable pub own_module :
    ProviderState → Option ℕ → Outcome ⊥ ((ℕ × ProviderModuleState) × ProviderState)
own_module provider (some module_id) = elim (lookup module_id provider.modules) [
  | none ↦ panic
  | some m ↦ ok ((module_id, m), provider)
]
own_module provider none =
    let module_id = provider.module_ids_counter in
    if is_some (lookup module_id provider.modules)
    then panic
    else ok (
      (module_id, empty_module),
      record provider {
        module_ids_counter = (module_id + 1) % 2 ^ 32;
        modules = insert module_id empty_module provider.modules;
      },
    )

-- The offer enters the module's `offers` and the provider's `offers_module_map`.
abbrev pub enter_offer :
    ProviderState
    → ℕ
    → ProviderModuleState
    → String
    → String
    → ProvidedOffer
    → DateTime
    → ProviderState
enter_offer provider module_id m protocol_id offer_id offer now = record provider {
  modules =
      insert module_id (record { offers = insert_nested protocol_id offer_id offer m.offers })
        provider.modules;
  offers_module_map = insert_nested protocol_id offer_id module_id provider.offers_module_map;
  last_updated_at = now;
}

unfoldable pub handle_provider_provide_request :
    Bool
    → PeerId
    → DateTime
    → Served
    → String
    → String
    → String
    → Outcome ⊥ (ProviderProvideResponse × Served)
unfolding own_module
handle_provider_provide_request main_first our_peer_id now s protocol_id offer_id protocol_payload =
    if is_some (nested protocol_id offer_id s.provider.offers_module_map)
    then ok (duplicate_offer protocol_id offer_id, s)
    else (do
      ((module_id, m), provider) ← own_module s.provider s.provider_module_id
      (rowid, db) ← upsert main_first s.db our_peer_id offer_id protocol_id protocol_payload
      if is_some (nested protocol_id offer_id m.offers)
          then panic
          else ok (
            provided,
            record {
              provider =
                  enter_offer provider module_id m protocol_id offer_id
                    (record { snapshot_rowid = rowid; protocol_payload = protocol_payload }) now;
              provider_module_id = some module_id;
              db = db;
            },
          ))

-- `for offer_id in module_offers_by_protocol.keys()`; a missing offer is a failed `unwrap`.
unfoldable pub remove_offers : Map String ProvidedOffer → Map String ℕ → Outcome ⊥ (Map String ℕ)
remove_offers [] by_protocol = ok by_protocol
remove_offers ((offer_id, offer) ∷ rest) by_protocol =
    let after = remove_offers rest (remove offer_id by_protocol) in
    if is_some (lookup offer_id by_protocol) then after else panic

-- What is left of one protocol is stored, or the protocol removed where nothing is left.
abbrev store_rest : String → Map String ℕ → Map String (Map String ℕ) → Map String (Map String ℕ)
store_rest protocol_id [] m = remove protocol_id m
store_rest protocol_id (entry ∷ rest) m = insert protocol_id (entry ∷ rest) m

-- `for (protocol_id, module_offers_by_protocol) in &module.offers`
unfoldable pub remove_protocols :
    Map String (Map String ProvidedOffer)
    → Map String (Map String ℕ)
    → Outcome ⊥ (Map String (Map String ℕ))
remove_protocols [] m = ok m
remove_protocols ((protocol_id, offers) ∷ rest) m = elim (lookup protocol_id m) [
  | none ↦ panic
  | some by_protocol ↦ do
    left ← remove_offers offers by_protocol
    remove_protocols rest (store_rest protocol_id left m)
]

-- The end of `handle_connection`.
unfoldable pub close_connection : DateTime → ProviderState → Option ℕ → Outcome ⊥ ProviderState
close_connection now provider none = ok provider
close_connection now provider (some module_id) = elim (lookup module_id provider.modules) [
  | none ↦ panic
  | some m ↦ do
    by_offer ← remove_protocols m.offers provider.offers_module_map
    ok (record provider {
      modules = remove module_id provider.modules;
      offers_module_map = by_offer;
      last_updated_at = now;
    })
]
