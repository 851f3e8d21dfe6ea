-- ===== src/P2p/Outbound/Settled.antt =====
-- A task that waits for no request in `response_tx_map` of src/p2p.rs any more gets no answer.
use derouter.Base.{
  ℕ, ◌≡◌, ◌≢◌, refl, Bool, false, ◌||◌, ◌==◌, ==_iff, nat_eq, none, some, List, [], ◌∷◌, arith, any,
  is_none, Outcome, ok, Option-cases, inl, inr, if◌then◌else◌,
}
use derouter.Base.Maps.{Map, lookup, insert, remove, lookup-insert, lookup-remove}
use derouter.Rpc.Consumer.{Reply, outbound_failure}
use derouter.P2p.Outbound.{
  Outbound, OutboundEvent, requested, response, failed, handle_outbound_event, run,
}

-- The answers that a sender was given.
unfoldable pub given : ℕ → List (ℕ × Reply) → List Reply
given tx [] = []
given tx ((other, reply) ∷ sent) =
    let rest = given tx sent in if other == tx then reply ∷ rest else rest

-- Whether an event starts the request with this ID, or one on whose answer this sender waits.
abbrev pub starts : ℕ → ℕ → OutboundEvent → Bool
starts request_id tx (requested i t) = (i == request_id) || (t == tx)
starts request_id tx (response i reply) = false
starts request_id tx (failed i) = false

-- How libp2p ends the request, in these events.
unfoldable pub ending : ℕ → List OutboundEvent → List Reply
ending request_id [] = []
ending request_id (requested i t ∷ events) = ending request_id events
ending request_id (response i reply ∷ events) =
    let rest = ending request_id events in if i == request_id then reply ∷ rest else rest
ending request_id (failed i ∷ events) =
    let rest = ending request_id events in if i == request_id then outbound_failure ∷ rest else rest

-- What libp2p's documentation says: a request that was sent, and only such a one, ends at most once, in
-- a response or a failure. The map has the requests that were sent and have not ended.
abbrev pub IsExchange : Map ℕ ℕ → List OutboundEvent → Type 0
IsExchange pending [] = Unit
IsExchange pending (requested i t ∷ events) =
    (lookup i pending ≡ none) × IsExchange (insert i t pending) events
IsExchange pending (response i reply ∷ events) =
    (is_none (lookup i pending) ≡ false) × IsExchange (remove i pending) events
IsExchange pending (failed i ∷ events) =
    (is_none (lookup i pending) ≡ false) × IsExchange (remove i pending) events

-- No request waits with this sender, and none with this ID.
pub record IsSettled (request_id tx : ℕ) (n : Outbound) : Type 0 where
  pub no_request : lookup request_id n.response_tx_map ≡ none
  pub no_sender : (i : ℕ) → lookup i n.response_tx_map ≢ some tx

-- The state after an answer that goes to the sender `t`.
abbrev pub answered_by : ℕ → ℕ → Reply → Outbound → Outbound
answered_by i t reply n = record {
  response_tx_map = remove i n.response_tx_map;
  sent = (t, reply) ∷ n.sent;
}

pub IsSettled-answered :
    (request_id tx i t : ℕ) (reply : Reply) (n : Outbound)
    → lookup i n.response_tx_map ≡ some t
    → IsSettled request_id tx n
    → IsSettled request_id tx (answered_by i t reply n)
      × (given tx (answered_by i t reply n).sent ≡ given tx n.sent)
unfolding given
IsSettled-answered request_id tx i t reply n e s = (
  record {
    no_request = ground (arith, s.no_request, lookup-remove i request_id n.response_tx_map);
    no_sender = λ j h. s.no_sender j (ground (arith, h, lookup-remove i j n.response_tx_map));
  },
  ground (arith, e, s.no_sender i, ==_iff t tx),
)

IsSettled-requested :
    (request_id tx i t : ℕ) (n : Outbound)
    → starts request_id tx (requested i t) ≡ false
    → IsSettled request_id tx n
    → IsSettled request_id tx (record n { response_tx_map = insert i t n.response_tx_map })
IsSettled-requested request_id tx i t n other s = record {
  no_request = ground (arith, other, s.no_request, lookup-insert i request_id t n.response_tx_map);
  no_sender = λ j h.
      absurd (
        ground
          (arith, h, other, s.no_sender j, ==_iff t tx, lookup-insert i j t n.response_tx_map));
}

-- The run goes on from a state in which the sender has its answers: it gets no more.
pub record Stays (request_id tx : ℕ) (answers : List Reply) (events : List OutboundEvent)
    (out : Outcome ⊥ Outbound) : Type 0 where
  pub after : Outbound
  pub returns : out ≡ ok after
  pub same : given tx after.sent ≡ answers
  pub settled : IsSettled request_id tx after
  pub no_ending : ending request_id events ≡ []

-- The answer to another request first.
answered_by-Stays :
    (events : List OutboundEvent) (request_id tx i : ℕ) (reply : Reply) (n : Outbound)
    → IsSettled request_id tx n
    → is_none (lookup i n.response_tx_map) ≡ false
    → ((t : ℕ)
        → IsSettled request_id tx (answered_by i t reply n)
        → Stays request_id tx
            (given tx (answered_by i t reply n).sent)
            events
            (run events (answered_by i t reply n)))
    → Stays request_id tx
        (given tx n.sent)
        (response i reply ∷ events)
        (run (response i reply ∷ events) n)
unfolding run handle_outbound_event ending
answered_by-Stays events request_id tx i reply n s x rest =
    elim (Option-cases (lookup i n.response_tx_map)) [
      | inl e ↦ absurd (ground (arith, e, x))
      | inr (t, e) ↦
          let (s', same) = IsSettled-answered request_id tx i t reply n e s in
          let g = rest t s' in
          record {
            after = g.after;
            returns = ground (arith, e, g.returns);
            same = ground (arith, same, g.same);
            settled = g.settled;
            no_ending = ground (arith, e, s.no_request, g.no_ending, ==_iff i request_id);
          }
    ]

pub run-Stays :
    (events : List OutboundEvent) (request_id tx : ℕ) (n : Outbound)
    → IsSettled request_id tx n
    → any (starts request_id tx) events ≡ false
    → IsExchange n.response_tx_map events
    → Stays request_id tx (given tx n.sent) events (run events n)
unfolding run handle_outbound_event ending any
run-Stays [] request_id tx n s q x = record {
  after = n;
  returns = refl;
  same = refl;
  settled = s;
  no_ending = refl;
}
run-Stays (requested i t ∷ events) request_id tx n s q x =
    let g =
      run-Stays events request_id tx (record n { response_tx_map = insert i t n.response_tx_map })
        (IsSettled-requested request_id tx i t n (ground (arith, q)) s) (ground (arith, q)) x.1 in
    record {
      after = g.after;
      returns = g.returns;
      same = g.same;
      settled = g.settled;
      no_ending = g.no_ending;
    }
run-Stays (response i reply ∷ events) request_id tx n s q x =
    answered_by-Stays events request_id tx i reply n s x.0
      (λ t s'. run-Stays events request_id tx (answered_by i t reply n) s' (ground (arith, q)) x.1)
run-Stays (failed i ∷ events) request_id tx n s q x =
    let g = answered_by-Stays events request_id tx i outbound_failure n s x.0 (λ t s'.
      run-Stays events request_id tx (answered_by i t outbound_failure n) s' (ground (arith, q))
        x.1) in
    record {
      after = g.after;
      returns = g.returns;
      same = g.same;
      settled = g.settled;
      no_ending = g.no_ending;
    }
