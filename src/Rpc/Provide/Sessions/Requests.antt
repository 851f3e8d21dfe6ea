-- ===== src/Rpc/Provide/Sessions/Requests.antt =====
-- A request that provides an offer (src/rpc/procedure/provider/provide.rs), among other connections.
use derouter.Base.{
  ℕ, ◌+◌, ◌<◌, String, ◌≡◌, sym, ap, subst, ◌∙◌, Bool, Bool-cases, true, ◌⊎◌, inl, inr, Option,
  none, some, arith, text_eq, nat_eq, is_some, Outcome, ok, Option-cases, Outcome-cases, ◌==◌,
  ==_iff,
}
use derouter.Base.Maps.{lookup, nested}
use Prim.Native.Nat.{◌^◌}
use derouter.Dto.{PeerId, DateTime}
use derouter.Db.{Database}
use derouter.Db.Offers.{upsert}
use derouter.Rpc.Provide.{ProviderProvideResponse, Served, handle_provider_provide_request}
use derouter.Rpc.Provide.Keys.{AreModules}
use derouter.Rpc.Provide.Sync.{IsSynced, IsOwned}
use derouter.Rpc.Provide.Request.{Provides, handle_provide-Provides}
use derouter.Rpc.Provide.Sessions.{Node, session, IsNode}

pub IsOwned-by :
    (n : Node) (c : ℕ) (mine : Option ℕ)
    → IsNode n
    → lookup c n.connections ≡ some mine
    → IsOwned n.provider mine
IsOwned-by n c none i h = tt
IsOwned-by n c (some id) i h = i.owned c id h

-- A request that is answered changed nothing, or provided its offer.
answered :
    (main_first : Bool) (our_peer_id : PeerId) (now : DateTime) (s : Served)
    (protocol_id offer_id payload : String) (answer : ProviderProvideResponse) (served : Served)
    → handle_provider_provide_request main_first our_peer_id now s protocol_id offer_id payload
      ≡ ok (answer, served)
    → (served ≡ s)
      ⊎ ((nested protocol_id offer_id s.provider.offers_module_map ≡ none)
          × ((rowid : ℕ) × ((db : Database) × (upsert main_first s.db our_peer_id offer_id
                    protocol_id payload
                  ≡ ok (rowid, db)))))
unfolding handle_provider_provide_request
answered main_first our_peer_id now s protocol_id offer_id payload answer served h =
    elim (Option-cases (nested protocol_id offer_id s.provider.offers_module_map)) [
      | inr (id, e) ↦ inl (ground (arith, h, e))
      | inl e ↦
          elim (Outcome-cases (upsert main_first s.db our_peer_id offer_id protocol_id payload)) [
            | inl ((rowid, db), u) ↦ inr (e, (rowid, (db, u)))
            | inr (inl (never, u)) ↦ elim never [ ]
            | inr (inr u) ↦ absurd (ground (arith, h, e, u))
          ]
    ]

-- What a request keeps of the other connections' modules.
pub record Keeps (n : Node) (c : ℕ) (mine : Option ℕ) (served : Served) : Type 0 where
  pub synced : IsSynced served.provider
  pub keyed : AreModules served.provider.modules
  pub own :
      (id : ℕ)
      → served.provider_module_id ≡ some id
      → (is_some (lookup id served.provider.modules) ≡ true)
        × ((d : ℕ) → lookup d n.connections ≡ some (some id) → c ≡ d)
  pub others :
      (d id : ℕ)
      → lookup d n.connections ≡ some (some id)
      → is_some (lookup id served.provider.modules) ≡ true

provided-Keeps :
    (n : Node) (c : ℕ) (mine : Option ℕ) (protocol_id offer_id payload : String) (rowid : ℕ)
    (db : Database) (served : Served) {out : Outcome ⊥ (ProviderProvideResponse × Served)}
    → IsNode n
    → lookup c n.connections ≡ some mine
    → (g : Provides (session n mine) protocol_id offer_id payload rowid db out) → g.served ≡ served
    → Keeps n c mine served
provided-Keeps n c mine protocol_id offer_id payload rowid db served i here g e =
    subst (Keeps n c mine) e (record {
      synced = g.synced;
      keyed = g.keyed i.keyed;
      own = λ id h. (
        ground (arith, h, g.mine, g.owned),
        λ d there. elim g.whose [
          | inl w ↦ i.apart c d id (ground (arith, here, w, h, g.mine)) there
          | inr (w, new) ↦ absurd (
              ground (
                arith,
                h,
                g.mine,
                new,
                i.owned d id there,
                i.synced.fresh n.provider.module_ids_counter,
              ))
        ],
      );
      others = λ d id there. elim (Bool-cases (id == g.module_id)) [
        | inl same ↦ ground (arith, g.mine, g.owned, ==_iff id g.module_id, same)
        | inr other ↦ ground (arith, g.others id other, i.owned d id there)
      ];
    })

pub request-Keeps :
    (main_first : Bool) (our_peer_id : PeerId) (now : DateTime) (n : Node) (c : ℕ) (mine : Option ℕ)
    (protocol_id offer_id payload : String) (answer : ProviderProvideResponse) (served : Served)
    → IsNode n
    → lookup c n.connections ≡ some mine
    → n.provider.module_ids_counter + 1 < 2 ^ 32
    → handle_provider_provide_request main_first our_peer_id now
        (session n mine)
        protocol_id
        offer_id
        payload
      ≡ ok (answer, served)
    → Keeps n c mine served
request-Keeps main_first our_peer_id now n c mine protocol_id offer_id payload answer served i here
      small h =
    elim (answered main_first our_peer_id now (session n mine) protocol_id offer_id payload answer
      served h) [
        | inl same ↦ subst (Keeps n c mine) (sym same) (record {
          synced = i.synced;
          keyed = i.keyed;
          own = λ id e.
              let there = i.owned c id (here ∙ ap some e) in
              (there, λ d f. i.apart c d id (here ∙ ap some e) f);
          others = i.owned;
        })
        | inr (fresh, (rowid, (db, u))) ↦
            let g =
              handle_provide-Provides main_first our_peer_id now (session n mine) protocol_id
                offer_id payload rowid db i.synced (IsOwned-by n c mine i here) small fresh u in
            provided-Keeps n c mine protocol_id offer_id payload rowid db served i here g
              (ground (arith, g.returns, h))
      ]
