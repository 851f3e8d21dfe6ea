-- ===== src/Rpc/Provide/Sessions/Serve.antt =====
-- What a node can always do for its connections (src/rpc/connection.rs).
use derouter.Base.{
  ℕ, ◌+◌, ◌<◌, String, ◌≡◌, refl, Bool, inl, inr, Option, none, some, arith, text_eq, nat_eq, ok,
  Option-cases,
}
use derouter.Base.Maps.{lookup, nested}
use Prim.Native.Nat.{◌^◌}
use derouter.Dto.{PeerId, DateTime}
use derouter.Db.{Database}
use derouter.Db.Offers.{upsert}
use derouter.Rpc.Provide.{
  ProviderState, find_offer, ProviderProvideResponse, provided, duplicate_offer, Served,
  ProvidedOffer, handle_provider_provide_request, close_connection,
}
use derouter.Rpc.Provide.Sync.{IsOwned, find_offer-held}
use derouter.Rpc.Provide.Request.{handle_provide-Provides}
use derouter.Rpc.Provide.Close.{close_connection-Closes}
use derouter.Rpc.Provide.Sessions.{Node, session, IsNode, NodeSteps}
use derouter.Rpc.Provide.Sessions.Requests.{IsOwned-by}
use derouter.Rpc.Provide.Sessions.Steps.{NodeSteps-IsNode}

-- What an open connection can do next.
pub record CanServe (n : Node) : Type 0 where
  pub closes :
      (now : DateTime) (c : ℕ) (mine : Option ℕ)
      → lookup c n.connections ≡ some mine
      → (after : ProviderState) × (close_connection now n.provider mine ≡ ok after)
  pub answers :
      (main_first : Bool) (our_peer_id : PeerId) (now : DateTime) (c : ℕ) (mine : Option ℕ)
      (protocol_id offer_id payload : String) (rowid : ℕ) (db : Database)
      → lookup c n.connections ≡ some mine
      → n.provider.module_ids_counter + 1 < 2 ^ 32
      → upsert main_first n.db our_peer_id offer_id protocol_id payload ≡ ok (rowid, db)
      → (result : ProviderProvideResponse × Served) × (handle_provider_provide_request main_first
            our_peer_id now
            (session n mine)
            protocol_id
            offer_id
            payload
          ≡ ok result)
  pub finds :
      (protocol_id offer_id : String)
      → (found : Option (ℕ × ProvidedOffer)) × (find_offer n.provider protocol_id offer_id
          ≡ ok found)

closing :
    (now : DateTime) {n : Node} (mine : Option ℕ)
    → IsNode n
    → IsOwned n.provider mine
    → (after : ProviderState) × (close_connection now n.provider mine ≡ ok after)
unfolding close_connection
closing now {n} none i o = (n.provider, refl)
closing now {n} (some id) i o =
    let g = close_connection-Closes now n.provider id i.synced i.keyed o in (g.after, g.returns)

-- In every state that the connections of a node can reach by opening, providing offers and closing,
-- `find_offer` returns, the cleanup of each open connection returns, and each request of an open
-- connection that provides an offer is answered, where the database takes the offer's snapshot and
-- the u32 counter of modules is not about to wrap around.
pub NodeSteps-CanServe : {n : Node} → NodeSteps n → CanServe n
unfolding handle_provider_provide_request close_connection
NodeSteps-CanServe {n} steps =
    let i = NodeSteps-IsNode steps in
    record {
      closes = λ now c mine h. closing now mine i (IsOwned-by n c mine i h);
      answers = λ main_first our_peer_id now c mine protocol_id offer_id payload rowid db h small u.
          elim (Option-cases (nested protocol_id offer_id n.provider.offers_module_map)) [
            | inr (id, e) ↦
                ((duplicate_offer protocol_id offer_id, session n mine), ground (arith, e))
            | inl e ↦
                let g =
                  handle_provide-Provides main_first our_peer_id now (session n mine) protocol_id
                    offer_id payload rowid db i.synced (IsOwned-by n c mine i h) small e u in
                ((provided, g.served), g.returns)
          ];
      finds = λ a b. elim (find_offer-held n.provider a b i.synced) [
        | inl (e, none_yet) ↦ (none, e)
        | inr (id, (offer, (e, there))) ↦ (some (id, offer), e)
      ];
    }
