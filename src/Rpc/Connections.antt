-- ===== src/Rpc/Connections.antt =====
-- The job connections of a client in src/rpc/connection.rs: streams of peers wait in
-- `future_connections` for the client to open a Yamux stream with their ID, and are joined to it then.
-- The counter and the map are shared with the provider state of the client's module. `S` stands for
-- the streams, the rest of the closure copies bytes.
pub mod Join
mod Tests
use derouter.Base.{
  ℕ, suc, ◌+◌, Bool, true, false, ◌||◌, Option, none, some, List, [], ◌∷◌, nat_eq, ◌==◌,
}
use derouter.Base.Maps.{Map, lookup, insert, remove}
use Prim.Native.Nat.{◌%◌, ◌^◌}

pub record JobConnections {ℓ} (S : Type ℓ) : Type ℓ where
  pub future_connection_counter : ℕ
  pub future_connections : Map ℕ S
  pub opened_connections : Map ℕ S

pub data ConnectionEvent {ℓ} (S : Type ℓ) : Type ℓ where
  registered : S → ConnectionEvent S
  requested : ℕ → ConnectionEvent S

module _ {ℓ} {S : Type ℓ} where
  -- `*connection_id += 1`, and the stream waits under that ID.
  abbrev pub register : S → JobConnections S → ℕ × JobConnections S
  register stream c =
      let connection_id = (c.future_connection_counter + 1) % 2 ^ 64 in
      (
        connection_id,
        record c {
          future_connection_counter = connection_id;
          future_connections = insert connection_id stream c.future_connections;
        },
      )

  -- A Yamux stream that names a connection ID; an unknown ID is only logged.
  unfoldable pub join : ℕ → JobConnections S → JobConnections S
  join connection_id c = elim (lookup connection_id c.future_connections) [
    | none ↦ c
    | some stream ↦ record c {
      future_connections = remove connection_id c.future_connections;
      opened_connections = insert connection_id stream c.opened_connections;
    }
  ]

  unfoldable pub happens : ConnectionEvent S → JobConnections S → JobConnections S
  happens (registered stream) c = (register stream c).1
  happens (requested connection_id) c = join connection_id c

  unfoldable pub run : List (ConnectionEvent S) → JobConnections S → JobConnections S
  run [] c = c
  run (e ∷ events) c = run events (happens e c)

  abbrev pub asks_for : ℕ → ConnectionEvent S → Bool
  asks_for id (registered stream) = false
  asks_for id (requested other) = other == id
