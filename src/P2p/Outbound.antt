-- ===== src/P2p/Outbound.antt =====
-- The outbound requests of a node: `response_tx_map` of `Node` in src/p2p.rs, its loop there, and the
-- two events of src/p2p/reqres.rs that end a request. Request IDs are libp2p's; a number stands for the
-- sender of the channel on which a task waits for the answer.
pub mod Settled
pub mod Answers
mod Tests
use derouter.Base.{
  ℕ, Bool, false, ◌==◌, nat_eq, Option, none, some, List, [], ◌∷◌, Outcome, ok, panic, ◌>>=◌,
  if◌then◌else◌,
}
use derouter.Base.Maps.{Map, lookup, insert, remove}
use derouter.Rpc.Consumer.{Reply, outbound_failure}

-- `sent` has the answers that were put into channels, the last one first.
pub record Outbound : Type 0 where
  pub response_tx_map : Map ℕ ℕ
  pub sent : List (ℕ × Reply)

pub data OutboundEvent : Type 0 where
  requested : ℕ → ℕ → OutboundEvent
  response : ℕ → Reply → OutboundEvent
  failed : ℕ → OutboundEvent

-- `response_tx_map.remove(&request_id).expect(…)`, and the answer goes to that sender.
abbrev pub send_answer : ℕ → Reply → Outbound → Outcome ⊥ Outbound
send_answer request_id reply n = elim (lookup request_id n.response_tx_map) [
  | none ↦ panic
  | some tx ↦ ok (record {
    response_tx_map = remove request_id n.response_tx_map;
    sent = (tx, reply) ∷ n.sent;
  })
]

unfoldable pub handle_outbound_event : OutboundEvent → Outbound → Outcome ⊥ Outbound
handle_outbound_event (requested request_id tx) n =
    ok (record n { response_tx_map = insert request_id tx n.response_tx_map })
handle_outbound_event (response request_id reply) n = send_answer request_id reply n
handle_outbound_event (failed request_id) n = send_answer request_id outbound_failure n

unfoldable pub run : List OutboundEvent → Outbound → Outcome ⊥ Outbound
run [] n = ok n
run (e ∷ events) n = do later ← handle_outbound_event e n; run events later
