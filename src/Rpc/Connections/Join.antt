-- ===== src/Rpc/Connections/Join.antt =====
-- What becomes of a stream that waits for its client (src/rpc/connection.rs).
use derouter.Base.{
  ℕ, ◌+◌, ◌<◌, ◌≡◌, ◌≢◌, ◌∙◌, refl, false, none, some, List, [], ◌∷◌, arith, any, length, nat_eq,
  ◌==◌, ==_iff, ==_refl, Option-cases, inl, inr,
}
use derouter.Base.Maps.{lookup, remove, lookup-insert, lookup-remove}
use Prim.Native.Nat.{◌%◌, ◌^◌}
use derouter.Rpc.Connections.{
  JobConnections, ConnectionEvent, registered, requested, register, join, happens, run, asks_for,
}

-- `j` registrations after the one with this ID, the next one gets another ID.
another_id :
    (id j n : ℕ) → id < 2 ^ 64 → j + 1 < 2 ^ 64 → n ≡ (id + j) % 2 ^ 64 → (n + 1) % 2 ^ 64 ≢ id
another_id id j n h k e = omega arith

next_id : (id j n : ℕ) → n ≡ (id + j) % 2 ^ 64 → (n + 1) % 2 ^ 64 ≡ (id + (j + 1)) % 2 ^ 64
next_id id j n e = omega arith

module _ {S : Type 0} where
  -- The stream waits under its ID, and the counter is `j` registrations further.
  record Waits (id j : ℕ) (stream : S) (c : JobConnections S) : Type 0 where
    counter : c.future_connection_counter ≡ (id + j) % 2 ^ 64
    waits : lookup id c.future_connections ≡ some stream

  registered-Waits :
      (id j : ℕ) (stream other : S) (c : JobConnections S)
      → id < 2 ^ 64
      → j + 1 < 2 ^ 64
      → Waits id j stream c
      → Waits id (j + 1) stream (register other c).1
  registered-Waits id j stream other c h k w =
      let new = (c.future_connection_counter + 1) % 2 ^ 64 in
      record {
        counter = next_id id j c.future_connection_counter w.counter;
        waits = ground (
          arith,
          w.waits,
          lookup-insert new id other c.future_connections,
          another_id id j c.future_connection_counter h k w.counter,
          ==_iff new id,
        );
      }

  join-Waits :
      (id j other : ℕ) (stream : S) (c : JobConnections S)
      → (other == id) ≡ false
      → Waits id j stream c
      → Waits id j stream (join other c)
  unfolding join
  join-Waits id j other stream c n w = elim (Option-cases (lookup other c.future_connections)) [
    | inl e ↦ rw (join, e) w
    | inr (s, e) ↦ record {
      counter = ground (arith, e, w.counter);
      waits = ground (arith, e, w.waits, n, lookup-remove other id c.future_connections);
    }
  ]

  run-Waits :
      (events : List (ConnectionEvent S)) (id j : ℕ) (stream : S) (c : JobConnections S)
      → id < 2 ^ 64
      → j + length events < 2 ^ 64
      → any (asks_for id) events ≡ false
      → Waits id j stream c
      → lookup id (run events c).future_connections ≡ some stream
  unfolding run happens any
  run-Waits [] id j stream c h k n w = w.waits
  run-Waits (registered other ∷ events) id j stream c h k n w =
      run-Waits events id (j + 1) stream (register other c).1 h (omega arith) (ground (arith, n))
        (registered-Waits id j stream other c h (omega arith) w)
  run-Waits (requested other ∷ events) id j stream c h k n w =
      run-Waits events id j stream (join other c) h (omega arith) (ground (arith, n))
        (join-Waits id j other stream c (ground (arith, n)) w)

  -- A stream that was registered is joined to the Yamux stream that names the ID of the registration,
  -- after any fewer than 2 ^ 64 - 1 other registrations and requests that name other IDs. It is joined
  -- once: after that no stream waits under the ID, and a request that names it again changes nothing.
  pub join-run-register :
      (stream : S) (events : List (ConnectionEvent S)) (c : JobConnections S)
      → length events + 1 < 2 ^ 64
      → any (asks_for (register stream c).0) events ≡ false
      → let id = (register stream c).0 in
        let joined = join id (run events (register stream c).1) in
        (lookup id joined.opened_connections ≡ some stream)
        × ((lookup id joined.future_connections ≡ none) × (join id joined ≡ joined))
  unfolding join
  join-run-register stream events c h n =
      let id = (register stream c).0 in
      let before = run events (register stream c).1 in
      let first : Waits id 0 stream (register stream c).1 = record {
        counter = omega arith;
        waits = ground (arith, lookup-insert id id stream c.future_connections, ==_refl id);
      } in
      let there : lookup id before.future_connections ≡ some stream =
        run-Waits events id 0 stream (register stream c).1 (omega arith) (omega arith) n first in
      let gone : lookup id (remove id before.future_connections) ≡ none =
        lookup-remove id id before.future_connections ∙ rw (==_refl id) refl in
      (
        ground (arith, there, lookup-insert id id stream before.opened_connections, ==_refl id),
        (ground (arith, there, gone), ground (arith, there, gone)),
      )
