-- ===== src/Rpc/Provide/Sessions.antt =====
-- The RPC connections of a node together: each has at most one module in the provider state of
-- src/state.rs, provides offers under it (src/rpc/procedure/provider/provide.rs), and takes it out
-- when it closes (the end of `handle_connection` in src/rpc/connection.rs).
pub mod Requests
pub mod Steps
pub mod Serve
use derouter.Base.{
  ℕ, ◌+◌, ◌<◌, String, ◌≡◌, refl, sym, ap, subst, ◌∙◌, Bool, Bool-cases, true, false, ◌⊎◌, inl, inr,
  Option, none, some, [], ◌∷◌, arith, text_eq, nat_eq, is_some, Outcome, ok, err, panic,
  Option-cases, Outcome-cases, ◌==◌, ==_iff, if◌then◌else◌,
}
use derouter.Base.Maps.{Map, lookup, insert, remove, nested, lookup-insert, lookup-remove}
use Prim.Native.Nat.{◌^◌}
use derouter.Dto.{PeerId, DateTime}
use derouter.Db.{Database}
use derouter.Db.Offers.{upsert}
use derouter.Rpc.Provide.{
  ProviderState, find_offer, ProviderProvideResponse, provided, duplicate_offer, Served,
  ProvidedOffer, handle_provider_provide_request, close_connection,
}
use derouter.Rpc.Provide.Keys.{AreModules}
use derouter.Rpc.Provide.Sync.{IsSynced, IsOwned, held, find_offer-held}
use derouter.Rpc.Provide.Request.{Provides, handle_provide-Provides}
use derouter.Rpc.Provide.Close.{Closes, close_connection-Closes}

-- `connections` has the `provider_module_id` of each open connection.
pub record Node : Type 0 where
  pub provider : ProviderState
  pub connections : Map ℕ (Option ℕ)
  pub db : Database

abbrev pub session : Node → Option ℕ → Served
session n mine = record { provider = n.provider; provider_module_id = mine; db = n.db }

-- The lock on the provider state makes each request and each cleanup one step. A request whose
-- snapshot the database does not take panics the task of its connection, and is no step.
pub data NodeStep : Node → Node → Type 0 where
  opened :
      {n : Node} (c : ℕ)
      → lookup c n.connections ≡ none
      → NodeStep n (record n { connections = insert c none n.connections })
  requested :
      {n : Node} (main_first : Bool) (our_peer_id : PeerId) (now : DateTime) (c : ℕ)
      (mine : Option ℕ) (protocol_id offer_id payload : String) (answer : ProviderProvideResponse)
      (served : Served)
      → lookup c n.connections ≡ some mine
      → n.provider.module_ids_counter + 1 < 2 ^ 32
      → handle_provider_provide_request main_first our_peer_id now
          (session n mine)
          protocol_id
          offer_id
          payload
        ≡ ok (answer, served)
      → NodeStep n (record {
        provider = served.provider;
        connections = insert c served.provider_module_id n.connections;
        db = served.db;
      })
  closed :
      {n : Node} (now : DateTime) (c : ℕ) (mine : Option ℕ) (after : ProviderState)
      → lookup c n.connections ≡ some mine
      → close_connection now n.provider mine ≡ ok after
      → NodeStep n (record n { provider = after; connections = remove c n.connections })

pub record IsNode (n : Node) : Type 0 where
  pub synced : IsSynced n.provider
  pub keyed : AreModules n.provider.modules
  pub owned :
      (c id : ℕ)
      → lookup c n.connections ≡ some (some id)
      → is_some (lookup id n.provider.modules) ≡ true
  pub apart :
      (c d id : ℕ)
      → lookup c n.connections ≡ some (some id)
      → lookup d n.connections ≡ some (some id)
      → c ≡ d

pub data NodeSteps : Node → Type 0 where
  started :
      {n : Node}
      → n.provider.modules ≡ []
      → n.provider.offers_module_map ≡ []
      → n.connections ≡ []
      → NodeSteps n
  then_step : {n m : Node} → NodeSteps n → NodeStep n m → NodeSteps m
