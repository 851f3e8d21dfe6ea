-- ===== src/P2p/Outbound/Answers.antt =====
-- Which answers a task that waits in `response_tx_map` of src/p2p.rs gets.
use derouter.Base.{
  ℕ, ◌≡◌, ◌≢◌, refl, ◌∙◌, true, false, ◌==◌, Bool-cases, ==_iff, ==_refl, nat_eq, none, some, List,
  [], ◌∷◌, arith, any, is_none, Outcome, ok, Option-cases, inl, inr, ◌⊎◌,
}
use derouter.Base.Maps.{lookup, insert, remove, lookup-insert, lookup-remove}
use derouter.Rpc.Consumer.{Reply, outbound_failure}
use derouter.P2p.Outbound.{
  Outbound, OutboundEvent, requested, response, failed, handle_outbound_event, run,
}
use derouter.P2p.Outbound.Settled.{
  given, starts, ending, IsExchange, IsSettled, answered_by, run-Stays,
}

-- The sender waits for the answer to this request only, and has got none.
record IsWaiting (request_id tx : ℕ) (n : Outbound) : Type 0 where
  waits : lookup request_id n.response_tx_map ≡ some tx
  only : (i : ℕ) → lookup i n.response_tx_map ≡ some tx → i ≡ request_id
  nothing_yet : given tx n.sent ≡ []

IsWaiting-requested :
    (request_id tx i t : ℕ) (n : Outbound)
    → starts request_id tx (requested i t) ≡ false
    → IsWaiting request_id tx n
    → IsWaiting request_id tx (record n { response_tx_map = insert i t n.response_tx_map })
IsWaiting-requested request_id tx i t n other w = record {
  waits = ground (arith, other, w.waits, lookup-insert i request_id t n.response_tx_map);
  only = λ j h.
      w.only j (ground (arith, h, other, ==_iff t tx, lookup-insert i j t n.response_tx_map));
  nothing_yet = w.nothing_yet;
}

-- The answer to another request goes to another sender.
IsWaiting-answered :
    (request_id tx i t : ℕ) (reply : Reply) (n : Outbound)
    → lookup i n.response_tx_map ≡ some t
    → (i == request_id) ≡ false
    → IsWaiting request_id tx n
    → IsWaiting request_id tx (answered_by i t reply n)
unfolding given
IsWaiting-answered request_id tx i t reply n e other w = record {
  waits = ground (arith, other, w.waits, lookup-remove i request_id n.response_tx_map);
  only = λ j h. w.only j (ground (arith, h, lookup-remove i j n.response_tx_map));
  nothing_yet = ground (arith, other, e, w.only i, w.nothing_yet, ==_iff t tx, ==_iff i request_id);
}

-- The answer to the request goes to the sender, which has it then.
IsWaiting-IsSettled :
    (request_id tx i t : ℕ) (reply : Reply) (n : Outbound)
    → lookup i n.response_tx_map ≡ some t
    → (i == request_id) ≡ true
    → IsWaiting request_id tx n
    → IsSettled request_id tx (answered_by i t reply n)
      × (given tx (answered_by i t reply n).sent ≡ reply ∷ [])
unfolding given
IsWaiting-IsSettled request_id tx i t reply n e this w = (
  record {
    no_request = ground (arith, this, lookup-remove i request_id n.response_tx_map);
    no_sender = λ j h. absurd (
        ground (
          arith,
          h,
          this,
          w.only j,
          ==_iff i request_id,
          ==_iff i j,
          lookup-remove i j n.response_tx_map,
        ));
  },
  ground (arith, e, this, w.waits, w.nothing_yet, ==_iff i request_id, ==_refl tx),
)

-- The events are handled with no panic. The sender is given just what ends its request, at most one
-- answer, and the request is in the map just while it has none.
pub record Answers (request_id tx : ℕ) (events : List OutboundEvent) (out : Outcome ⊥ Outbound)
    : Type 0 where
  pub after : Outbound
  pub returns : out ≡ ok after
  pub same : given tx after.sent ≡ ending request_id events
  pub once :
      ((given tx after.sent ≡ []) × (lookup request_id after.response_tx_map ≡ some tx))
      ⊎ ((reply : Reply) × ((given tx after.sent ≡ reply ∷ [])
            × (lookup request_id after.response_tx_map ≡ none)))

-- The request ends with this event, and the run goes on from there.
answers_now :
    (events : List OutboundEvent) (request_id tx i t : ℕ) (reply : Reply) (n : Outbound)
    → lookup i n.response_tx_map ≡ some t
    → (i == request_id) ≡ true
    → IsWaiting request_id tx n
    → any (starts request_id tx) events ≡ false
    → IsExchange (remove i n.response_tx_map) events
    → (after : Outbound) × ((run events (answered_by i t reply n) ≡ ok after)
        × ((given tx after.sent ≡ reply ∷ [])
            × ((lookup request_id after.response_tx_map ≡ none) × (ending request_id events ≡ []))))
answers_now events request_id tx i t reply n e this w q x =
    let (s, one) = IsWaiting-IsSettled request_id tx i t reply n e this w in
    let g = run-Stays events request_id tx (answered_by i t reply n) s q x in
    (g.after, (g.returns, (g.same ∙ one, (g.settled.no_request, g.no_ending))))

-- The answer to this request or to another one first.
answered_by-Answers :
    (events : List OutboundEvent) (request_id tx i : ℕ) (reply : Reply) (n : Outbound)
    → IsWaiting request_id tx n
    → is_none (lookup i n.response_tx_map) ≡ false
    → any (starts request_id tx) events ≡ false
    → IsExchange (remove i n.response_tx_map) events
    → ((t : ℕ)
        → IsWaiting request_id tx (answered_by i t reply n)
        → Answers request_id tx events (run events (answered_by i t reply n)))
    → Answers request_id tx (response i reply ∷ events) (run (response i reply ∷ events) n)
unfolding run handle_outbound_event ending
answered_by-Answers events request_id tx i reply n w x q left rest =
    elim (Option-cases (lookup i n.response_tx_map)) [
      | inl e ↦ absurd (ground (arith, e, x))
      | inr (t, e) ↦ elim (Bool-cases (i == request_id)) [
        | inl this ↦
            let (after, (r, (one, (gone, none_left)))) =
              answers_now events request_id tx i t reply n e this w q left in
            record {
              after = after;
              returns = ground (arith, e, r);
              same = ground (arith, this, one, none_left);
              once = inr (reply, (one, gone));
            }
        | inr other ↦
            let g = rest t (IsWaiting-answered request_id tx i t reply n e other w) in
            record {
              after = g.after;
              returns = ground (arith, e, g.returns);
              same = ground (arith, other, g.same);
              once = g.once;
            }
      ]
    ]

run-Answers :
    (events : List OutboundEvent) (request_id tx : ℕ) (n : Outbound)
    → IsWaiting request_id tx n
    → any (starts request_id tx) events ≡ false
    → IsExchange n.response_tx_map events
    → Answers request_id tx events (run events n)
unfolding run handle_outbound_event ending any
run-Answers [] request_id tx n w q x = record {
  after = n;
  returns = refl;
  same = w.nothing_yet;
  once = inl (w.nothing_yet, w.waits);
}
run-Answers (requested i t ∷ events) request_id tx n w q x =
    let g =
      run-Answers events request_id tx (record n { response_tx_map = insert i t n.response_tx_map })
        (IsWaiting-requested request_id tx i t n (ground (arith, q)) w) (ground (arith, q)) x.1 in
    record { after = g.after; returns = g.returns; same = g.same; once = g.once }
run-Answers (response i reply ∷ events) request_id tx n w q x =
    answered_by-Answers events request_id tx i reply n w x.0 (ground (arith, q)) x.1 (λ t w'.
      run-Answers events request_id tx (answered_by i t reply n) w' (ground (arith, q)) x.1)
run-Answers (failed i ∷ events) request_id tx n w q x =
    let g =
      answered_by-Answers events request_id tx i outbound_failure n w x.0 (ground (arith, q)) x.1
        (λ t w'.
          run-Answers events request_id tx (answered_by i t outbound_failure n) w'
            (ground (arith, q)) x.1) in
    record { after = g.after; returns = g.returns; same = g.same; once = g.once }

-- A request is sent with an ID and a sender that are in use for no other request, and the events that
-- follow start no other with either. Where libp2p ends requests that were sent and have not ended, and
-- only those, the events are handled with no panic: the sender is given just what ends its own
-- request, at most one answer, and the request is in the map just while it has none.
pub run-requested :
    (events : List OutboundEvent) (request_id tx : ℕ) (n : Outbound)
    → ((i : ℕ) → lookup i n.response_tx_map ≢ some tx)
    → given tx n.sent ≡ []
    → any (starts request_id tx) events ≡ false
    → IsExchange n.response_tx_map (requested request_id tx ∷ events)
    → Answers request_id tx events (run (requested request_id tx ∷ events) n)
unfolding run handle_outbound_event
run-requested events request_id tx n fresh nothing q x =
    run-Answers events request_id tx
      (record n { response_tx_map = insert request_id tx n.response_tx_map })
      (record {
        waits =
            ground
              (arith, lookup-insert request_id request_id tx n.response_tx_map, ==_refl request_id);
        only = λ i h. ground (
          arith,
          h,
          fresh i,
          lookup-insert request_id i tx n.response_tx_map,
          ==_iff request_id i,
        );
        nothing_yet = nothing;
      })
      q x.1
