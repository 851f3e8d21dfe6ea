-- ===== src/Rpc/Connections/Tests.antt =====
-- A run of the job connections of src/rpc/connection.rs, with numbers as the streams.
use derouter.Base.{ℕ, ◌≡◌, refl, false, none, some, List, [], ◌∷◌, arith, any, nat_eq}
use derouter.Base.Maps.{lookup}
use derouter.Rpc.Connections.{
  JobConnections, ConnectionEvent, registered, requested, register, join, run, asks_for,
}
use derouter.Rpc.Connections.Join.{join-run-register}

abbrev nothing : JobConnections ℕ
nothing = record { future_connection_counter = 0; future_connections = []; opened_connections = [] }

abbrev meanwhile : List (ConnectionEvent ℕ)
meanwhile = registered 8 ∷ requested 5 ∷ []

others : any (asks_for (register 7 nothing).0) meanwhile ≡ false
unfolding any
others = refl

join-run-register_example :
    let id = (register 7 nothing).0 in
    let joined = join id (run meanwhile (register 7 nothing).1) in
    (lookup id joined.opened_connections ≡ some 7)
    × ((lookup id joined.future_connections ≡ none) × (join id joined ≡ joined))
join-run-register_example = join-run-register 7 meanwhile nothing (omega arith) others
