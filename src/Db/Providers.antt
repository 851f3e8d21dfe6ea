-- ===== src/Db/Providers.antt =====
-- src/db/providers.rs: the queries on the table of peers.
use derouter.Base.{
  Bool, false, ◌&&◌, Option, none, some, List, [], ◌∷◌, map, Outcome, ok, panic, ◌>>=◌, select, any,
  is_some, ◌==◌, text_eq, if◌then◌else◌,
}
use derouter.Base.Int.{leb_ℤ}
use derouter.Dto.{PeerId, DateTime, ProviderRecord}
use derouter.Db.{PeerRow, Database}

-- `row.get` of a NULL into a `DateTime` is an error, and the `unwrap` of the row panics.
abbrev pub time_column : Option DateTime → Outcome ⊥ DateTime
time_column none = panic
time_column (some t) = ok t

-- `query_map`, one row.
abbrev pub to_provider : PeerRow → Outcome ⊥ ProviderRecord
to_provider p = do
  updated_at ← time_column p.our_provider_updated_at
  latest_heartbeat_at ← time_column p.our_latest_heartbeat_timestamp
  ok (record {
    peer_id = p.peer_id;
    name = p.provider_name;
    teaser = p.provider_teaser;
    description = p.provider_description;
    updated_at = updated_at;
    latest_heartbeat_at = latest_heartbeat_at;
  })

unfoldable pub providers_in : List PeerId → List PeerRow → Outcome ⊥ (List ProviderRecord)
providers_in ids [] = ok []
providers_in ids (p ∷ peers) =
    let rest = providers_in ids peers in
    if any (λ id. id == p.peer_id) ids then (do r ← to_provider p; rs ← rest; ok (r ∷ rs)) else rest

-- `scan` is the order in which SQLite visits the rows: neither query has an ORDER BY.
unfoldable pub query_providers_by_peer_id :
    (List PeerRow → List PeerRow) → Database → List PeerId → Outcome ⊥ (List ProviderRecord)
query_providers_by_peer_id scan db ids = providers_in ids (scan db.peers)

-- `our_latest_heartbeat_timestamp >= datetime('now', …)`, which no NULL is.
abbrev pub is_recent : DateTime → Option DateTime → Bool
is_recent since none = false
is_recent since (some t) = leb_ℤ since t

-- `since` is what SQLite computes for `datetime('now', '-60 seconds')`.
unfoldable pub query_active_providers :
    (List PeerRow → List PeerRow) → Database → DateTime → List PeerId
query_active_providers scan db since =
    map (λ (p : PeerRow). p.peer_id)
      (select
        (λ p. is_some p.our_provider_updated_at && is_recent since p.our_latest_heartbeat_timestamp)
        (scan db.peers))
