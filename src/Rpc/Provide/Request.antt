-- ===== src/Rpc/Provide/Request.antt =====
-- The request that provides an offer (src/rpc/procedure/provider/provide.rs), and `find_offer` of
-- src/state.rs after it.
use derouter.Base.{
  ℕ, ◌+◌, ◌<◌, String, ◌≡◌, refl, Bool, ◌&&◌, none, some, arith, nat_eq, text_eq, ◌==◌, ==_iff,
  Outcome, ok, false, ◌⊎◌, if◌then◌else◌, inl, inr, Option-cases,
}
use derouter.Base.Maps.{lookup, nested, insert_nested, lookup-insert}
use Prim.Native.Nat.{◌^◌}
use derouter.Dto.{PeerId, DateTime}
use derouter.Db.{Database}
use derouter.Db.Offers.{upsert}
use derouter.Rpc.Provide.{
  ProvidedOffer, ProviderModuleState, ProviderState, find_offer, ProviderProvideResponse, provided,
  Served, enter_offer, handle_provider_provide_request,
}
use derouter.Rpc.Provide.Keys.{AreModules, AreModules-insert, AreModules-lookup, enter_module}
use derouter.Rpc.Provide.Sync.{
  IsSynced, IsOwned, own_module-Owned, held, enter_offer-IsSynced, find_offer-enter_offer,
  same_find_offer,
}

-- The request is answered with success, the maps agree, the connection has a module, its own from
-- before or a new one, every other module stays, and `find_offer` finds the offer in the connection's
-- module, with the rowid and the payload, and every other offer as before.
pub record Provides (s : Served) (protocol_id offer_id payload : String) (rowid : ℕ) (db : Database)
    (out : Outcome ⊥ (ProviderProvideResponse × Served)) : Type 0 where
  pub served : Served
  pub module_id : ℕ
  pub returns : out ≡ ok (provided, served)
  pub synced : IsSynced served.provider
  pub owned : IsOwned served.provider served.provider_module_id
  pub stored : served.db ≡ db
  pub keyed : AreModules s.provider.modules → AreModules served.provider.modules
  pub others :
      (j : ℕ)
      → (j == module_id) ≡ false
      → lookup j served.provider.modules ≡ lookup j s.provider.modules
  pub mine : served.provider_module_id ≡ some module_id
  pub whose :
      (s.provider_module_id ≡ some module_id)
      ⊎ ((s.provider_module_id ≡ none) × (module_id ≡ s.provider.module_ids_counter))
  pub finds :
      (a b : String)
      → find_offer served.provider a b ≡ (
          if (protocol_id == a) && (offer_id == b)
          then ok (some (module_id, record { snapshot_rowid = rowid; protocol_payload = payload }))
          else find_offer s.provider a b)

nothing_own :
    (p : ProviderState) (id : ℕ) (m : ProviderModuleState) (a b : String)
    → IsSynced p
    → nested a b p.offers_module_map ≡ none
    → held p id a b ≡ none
nothing_own p id m a b s h = elim (Option-cases (held p id a b)) [
  | inl e ↦ e
  | inr (offer, e) ↦ absurd (ground (arith, e, h, (s.agree id a b).1))
]

-- A request for an offer that no module provides, whose snapshot the database takes, is answered with
-- success, with no panic. After it `find_offer` finds the offer in the module of the connection, with
-- the payload and the snapshot's rowid, and every other offer as before; the maps agree, the other
-- modules are as they were, and the connection keeps its module, or has a new one under the value of
-- the counter. The maps agreed before, a module ID of the connection was a module's, and the u32
-- counter of modules is not about to wrap around.
pub handle_provide-Provides :
    (main_first : Bool) (our_peer_id : PeerId) (now : DateTime) (s : Served)
    (protocol_id offer_id payload : String) (rowid : ℕ) (db : Database)
    → IsSynced s.provider
    → IsOwned s.provider s.provider_module_id
    → s.provider.module_ids_counter + 1 < 2 ^ 32
    → nested protocol_id offer_id s.provider.offers_module_map ≡ none
    → upsert main_first s.db our_peer_id offer_id protocol_id payload ≡ ok (rowid, db)
    → Provides s protocol_id offer_id payload rowid db
        (handle_provider_provide_request main_first our_peer_id now s protocol_id offer_id payload)
unfolding handle_provider_provide_request
handle_provide-Provides main_first our_peer_id now s protocol_id offer_id payload rowid db synced
      owned small n u =
    let o = own_module-Owned s.provider s.provider_module_id synced owned small in
    let offer : ProvidedOffer = record { snapshot_rowid = rowid; protocol_payload = payload } in
    let before : IsSynced o.state = record {
      agree = λ id a b. ground (arith, o.same_map, o.same_held id a b, synced.agree id a b);
      fresh = o.free;
    } in
    let none_yet : nested protocol_id offer_id o.state.offers_module_map ≡ none =
      ground (arith, o.same_map, n) in
    let unheld = nothing_own o.state o.id o.own protocol_id offer_id before none_yet in
    record {
      served = record {
        provider = enter_offer o.state o.id o.own protocol_id offer_id offer now;
        provider_module_id = some o.id;
        db = db;
      };
      module_id = o.id;
      returns = ground (arith, n, o.returns, u, unheld, o.there);
      synced =
          enter_offer-IsSynced o.state o.id o.own protocol_id offer_id offer now before o.there
            none_yet;
      owned = ground (
        arith,
        lookup-insert o.id o.id
            (record { offers = insert_nested protocol_id offer_id offer o.own.offers })
            o.state.modules,
      );
      stored = refl;
      keyed = λ u.
          AreModules-insert o.id
            (record { offers = insert_nested protocol_id offer_id offer o.own.offers })
            o.state.modules
            (enter_module protocol_id offer_id offer o.own.offers
              (AreModules-lookup o.id o.state.modules (o.keyed u) o.there))
            (o.keyed u);
      others = λ j h. ground (
        arith,
        h,
        o.others j,
        ==_iff o.id j,
        ==_iff j o.id,
        lookup-insert o.id j
            (record { offers = insert_nested protocol_id offer_id offer o.own.offers })
            o.state.modules,
      );
      mine = refl;
      whose = o.whose;
      finds = λ a b. ground (
        arith,
        find_offer-enter_offer o.state o.id o.own protocol_id offer_id offer now a b o.there,
        same_find_offer s.provider o.state a b o.same_map (λ j. o.same_held j a b),
      );
    }
