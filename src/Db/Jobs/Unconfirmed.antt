-- ===== src/Db/Jobs/Unconfirmed.antt =====
-- `query_unconfirmed_jobs` of src/db/service_jobs/query_all.rs: the signed jobs that the Consumer
-- still has to send to their Providers.
use derouter.Base.{
  ℕ, String, Bool, ◌&&◌, Option, none, some, List, [], ◌∷◌, ◌==◌, text_eq, Outcome, ok, panic,
  is_some, is_none, ◌>>=◌, if◌then◌else◌,
}
use derouter.Dto.{PeerId}
use derouter.Db.{OfferSnapshotRow, ServiceJobRow, Database}
use derouter.Db.Jobs.{snapshot_of}

pub record UnconfirmedJob : Type 0 where
  pub rowid : ℕ
  pub provider_peer_id : PeerId
  pub provider_job_id : String
  pub hash : List ℕ
  pub consumer_signature : List ℕ

-- The WHERE clause.
abbrev pub is_unconfirmed : PeerId → ServiceJobRow → Bool
is_unconfirmed consumer j =
    (j.consumer_peer_id == consumer)
    && (is_some j.consumer_signature && is_none j.signature_confirmed_at_local)

-- `row.get` of a NULL into a `Vec<u8>` is an error, and its `unwrap` panics.
abbrev pub column : Option (List ℕ) → Outcome ⊥ (List ℕ)
column none = panic
column (some bytes) = ok bytes

to_unconfirmed : ServiceJobRow → OfferSnapshotRow → Outcome ⊥ UnconfirmedJob
to_unconfirmed j s = do
  hash ← column j.hash
  consumer_signature ← column j.consumer_signature
  ok (record {
    rowid = j.rowid;
    provider_peer_id = s.provider_peer_id;
    provider_job_id = j.provider_job_id;
    hash = hash;
    consumer_signature = consumer_signature;
  })

-- The rows of the join, read one by one.
unfoldable pub unconfirmed_in :
    Database → PeerId → List ServiceJobRow → Outcome ⊥ (List UnconfirmedJob)
unfolding to_unconfirmed
unconfirmed_in db consumer [] = ok []
unconfirmed_in db consumer (j ∷ js) =
    let rest = unconfirmed_in db consumer js in
    if is_unconfirmed consumer j
    then (elim (snapshot_of db j) [
      | none ↦ rest
      | some s ↦ do u ← to_unconfirmed j s; us ← rest; ok (u ∷ us)
    ])
    else rest

-- `scan` is the order in which SQLite visits the rows: the statement has no ORDER BY.
unfoldable pub query_unconfirmed_jobs :
    (List ServiceJobRow → List ServiceJobRow) → Database → PeerId → Outcome ⊥ (List UnconfirmedJob)
query_unconfirmed_jobs scan db consumer = unconfirmed_in db consumer (scan db.service_jobs)
