-- ===== src/Db/Jobs/QueryAll.antt =====
-- `query_jobs` of src/db/service_jobs/query_all.rs: the jobs that pass all filters that are given.
use derouter.Base.{
  ℕ, String, Bool, true, ◌&&◌, Option, none, some, List, [], ◌∷◌, Outcome, ok, panic, take, is_none,
  ltb, if◌then◌else◌,
}
use derouter.Base.Int.{ℤ, pos, negsuc}
use derouter.Dto.{PeerId, JobRecord}
use derouter.Db.{OfferSnapshotRow, ServiceJobRow, Database}
use derouter.Db.Jobs.{snapshot_of, to_record}
use derouter.Db.Offers.{passes}

pub record JobFilters : Type 0 where
  pub rowid_cursor : Option ℤ
  pub protocol_ids : Option (List String)
  pub provider_peer_ids : Option (List PeerId)
  pub consumer_peer_ids : Option (List PeerId)

-- `service_jobs.rowid > ?1`: every rowid is larger than a negative number.
abbrev pub after_cursor : Option ℤ → ℕ → Bool
after_cursor none rowid = true
after_cursor (some (pos cursor)) rowid = ltb cursor rowid
after_cursor (some (negsuc cursor)) rowid = true

-- The WHERE clause, on a row of the join.
abbrev pub is_asked : JobFilters → ServiceJobRow → OfferSnapshotRow → Bool
is_asked f j s =
    after_cursor f.rowid_cursor j.rowid
    && (passes f.protocol_ids s.protocol_id
        && (passes f.provider_peer_ids s.provider_peer_id
            && passes f.consumer_peer_ids j.consumer_peer_id))

-- The rows of the join that pass, as records.
unfoldable pub asked_in : Database → JobFilters → List ServiceJobRow → List JobRecord
asked_in db f [] = []
asked_in db f (j ∷ js) =
    let rest = asked_in db f js in
    elim (snapshot_of db j) [
      | none ↦ rest
      | some s ↦ if is_asked f j s then to_record j s ∷ rest else rest
    ]

-- A negative LIMIT is none.
abbrev pub limited {ℓ} : {A : Type ℓ} → ℤ → List A → List A
limited (pos n) rows = take n rows
limited (negsuc n) rows = rows

-- Nothing stands behind WHERE.
abbrev pub has_no_filter : JobFilters → Bool
has_no_filter f =
    is_none f.rowid_cursor
    && (is_none f.protocol_ids && (is_none f.provider_peer_ids && is_none f.consumer_peer_ids))

-- `scan` is the order in which SQLite visits the rows: the statement has no ORDER BY. With nothing
-- behind WHERE the statement does not parse, and the `unwrap` of `prepare_cached` panics.
unfoldable pub query_jobs :
    (List ServiceJobRow → List ServiceJobRow)
    → Database
    → JobFilters
    → ℤ
    → Outcome ⊥ (List JobRecord)
query_jobs scan db f limit =
    if has_no_filter f then panic else ok (limited limit (asked_in db f (scan db.service_jobs)))
