-- ===== src/Rpc/Provide/Sessions/Steps.antt =====
-- The steps of the connections keep what the provider state of src/state.rs promises.
use derouter.Base.{
  ℕ, ◌≡◌, sym, subst, Bool-cases, inl, inr, none, some, [], arith, text_eq, nat_eq, Outcome, ◌==◌,
  ==_iff,
}
use derouter.Base.Maps.{lookup, remove, nested, lookup-insert, lookup-remove}
use derouter.Rpc.Provide.{ProviderState, close_connection}
use derouter.Rpc.Provide.Keys.{AreModules}
use derouter.Rpc.Provide.Close.{Closes, close_connection-Closes}
use derouter.Rpc.Provide.Sessions.{
  Node, NodeStep, opened, requested, closed, IsNode, NodeSteps, started, then_step,
}
use derouter.Rpc.Provide.Sessions.Requests.{request-Keeps}

closed_none :
    (n : Node) (c : ℕ) (after : ProviderState)
    → IsNode n
    → n.provider ≡ after
    → IsNode (record n { provider = after; connections = remove c n.connections })
closed_none n c after i e =
    subst
      (λ (p : ProviderState).
        IsNode (record n { provider = p; connections = remove c n.connections }))
      e
      (record {
        synced = i.synced;
        keyed = i.keyed;
        owned = λ d id h. i.owned d id (ground (arith, h, lookup-remove c d n.connections));
        apart = λ d x id h g.
            i.apart d x id (ground (arith, h, lookup-remove c d n.connections))
              (ground (arith, g, lookup-remove c x n.connections));
      })

closed_some :
    (n : Node) (c id : ℕ) (after : ProviderState) {out : Outcome ⊥ ProviderState}
    → IsNode n
    → lookup c n.connections ≡ some (some id)
    → (g : Closes n.provider id out) → g.after ≡ after
    → IsNode (record n { provider = after; connections = remove c n.connections })
closed_some n c id after i here g e =
    subst
      (λ (p : ProviderState).
        IsNode (record n { provider = p; connections = remove c n.connections }))
      e
      (record {
        synced = g.synced;
        keyed = g.keyed;
        owned = λ d j h. ground (
          arith,
          h,
          here,
          lookup-remove c d n.connections,
          i.owned d j,
          g.modules j,
          i.apart c d j,
          ==_iff c d,
          ==_iff id j,
        );
        apart = λ d x j h f.
            i.apart d x j (ground (arith, h, lookup-remove c d n.connections))
              (ground (arith, f, lookup-remove c x n.connections));
      })

-- A request, the opening and the closing of a connection keep the invariant.
pub NodeStep-IsNode : (n m : Node) → NodeStep n m → IsNode n → IsNode m
NodeStep-IsNode n _ (opened c vacant) i = record {
  synced = i.synced;
  keyed = i.keyed;
  owned = λ d id h. i.owned d id (ground (arith, h, lookup-insert c d none n.connections));
  apart = λ d e id h g.
      i.apart d e id (ground (arith, h, lookup-insert c d none n.connections))
        (ground (arith, g, lookup-insert c e none n.connections));
}
NodeStep-IsNode n _
      (requested main_first our_peer_id now c mine protocol_id offer_id payload answer served here
        small h)
      i =
    let k =
      request-Keeps main_first our_peer_id now n c mine protocol_id offer_id payload answer served i
        here small h in
    record {
      synced = k.synced;
      keyed = k.keyed;
      owned = λ d id e. elim (Bool-cases (c == d)) [
        | inl same ↦
            (k.own id (
              ground (arith, e, same, lookup-insert c d served.provider_module_id n.connections))).0
        | inr other ↦
            k.others d id
              (ground (arith, e, other, lookup-insert c d served.provider_module_id n.connections))
      ];
      apart = λ d e id f g. ground (
        arith,
        f,
        g,
        i.apart d e id,
        λ (p : served.provider_module_id ≡ some id). (k.own id p).1 d,
        λ (p : served.provider_module_id ≡ some id). (k.own id p).1 e,
        ==_iff c d,
        ==_iff c e,
        lookup-insert c d served.provider_module_id n.connections,
        lookup-insert c e served.provider_module_id n.connections,
      );
    }
NodeStep-IsNode n _ (closed now c none after here h) i =
    closed_none n c after i (unfold close_connection in ground (arith, h))
NodeStep-IsNode n _ (closed now c (some id) after here h) i =
    let g = close_connection-Closes now n.provider id i.synced i.keyed (i.owned c id here) in
    closed_some n c id after i here g (ground (arith, g.returns, h))

started-IsNode :
    (n : Node)
    → n.provider.modules ≡ []
    → n.provider.offers_module_map ≡ []
    → n.connections ≡ []
    → IsNode n
unfolding lookup nested
started-IsNode n m o c = record {
  synced = record { agree = λ id a b. ground (arith, m, o); fresh = λ id h. ground (arith, m) };
  keyed = subst AreModules (sym m) tt;
  owned = λ d id h. absurd (ground (arith, c, h));
  apart = λ d e id h g. absurd (ground (arith, c, h));
}

-- In every state that the connections of a node can reach by opening, providing offers and closing,
-- the maps agree, no key stands twice, and no two connections share a module.
pub NodeSteps-IsNode : {n : Node} → NodeSteps n → IsNode n
NodeSteps-IsNode {n} (started m o c) = started-IsNode n m o c
NodeSteps-IsNode (then_step {n} {m} steps step) = NodeStep-IsNode n m step (NodeSteps-IsNode steps)
