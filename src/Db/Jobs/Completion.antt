-- ===== src/Db/Jobs/Completion.antt =====
-- What the completions of a job do, on the Provider's and on the Consumer's side.
use derouter.Base.{
  ℕ, String, ◌≡◌, ◌≢◌, refl, ◌∙◌, inl, inr, Option, none, some, arith, List, ok, panic,
  Option-cases, map_option, ==_refl, ==_iff, text_eq, nat_eq,
}
use derouter.Base.Int.{ℤ}
use derouter.Dto.{PeerId, DateTime, JobRecord}
use derouter.Db.{OfferSnapshotRow, ServiceJobRow, Database, update_job}
use derouter.Db.Rowids.{HasUniqueIds, by_id-found}
use derouter.Db.Jobs.{
  Primitives, hash_job, is_job, row_by_job_id, find_by_job_id, find_by_rowid, to_record,
  snapshot_of,
}
use derouter.Db.Jobs.Consumer.{consumer_complete_job, consumer_payload, set_signed}
use derouter.Db.Jobs.Provider.{provider_complete_job, set_completed}
use derouter.Db.Jobs.Lookup.{
  KeepsKey, updated_row, row_snapshot, find_by_job_id_lem, find_by_rowid_lem,
  row_by_rowid-update_job, snapshot_of-update_job, find_by_job_id-missing,
}

-- No two jobs have one rowid.
abbrev pub UniqueJobs : Database → Type 0
UniqueJobs db = HasUniqueIds (λ (j : ServiceJobRow). j.rowid) db.service_jobs

-- After an update of the row that was found, both lookups read the new row.
module _ (db : Database) (f : ServiceJobRow → ServiceJobRow) (keeps : KeepsKey f)
    (provider : PeerId) (id : String) (j : ServiceJobRow) (s : OfferSnapshotRow)
    (found : row_by_job_id db provider id ≡ some j) (snapshot : snapshot_of db j ≡ some s) where
  snapshot_after : snapshot_of (update_job j.rowid f db) (f j) ≡ some s
  snapshot_after = rw (snapshot_of-update_job db j.rowid f (f j), keeps.snapshot j) snapshot

  pub find_by_job_id-after :
      find_by_job_id (update_job j.rowid f db) provider id ≡ some (to_record (f j) s)
  find_by_job_id-after =
      find_by_job_id_lem (update_job j.rowid f db) provider id (f j) s
        (updated_row db f keeps provider id j found) snapshot_after

  pub find_by_rowid-after :
      UniqueJobs db → find_by_rowid (update_job j.rowid f db) j.rowid ≡ some (to_record (f j) s)
  find_by_rowid-after unique =
      find_by_rowid_lem (update_job j.rowid f db) j.rowid (f j) s
        (row_by_rowid-update_job db f keeps j.rowid j.rowid
          ∙ rw
              (by_id-found (λ (r : ServiceJobRow). r.rowid) (is_job db provider id) db.service_jobs
                j unique found)
              (rw (==_refl j.rowid)))
        snapshot_after

module _ (x : Primitives) (db : Database) (provider : PeerId) (id : String)
    (balance_delta private_payload : Option String) (public_payload : String) (now : ℤ)
    (unique : UniqueJobs db) where
  abbrev completed : ServiceJobRow → ServiceJobRow
  completed = set_completed balance_delta public_payload private_payload now

  completed-KeepsKey : KeepsKey completed
  completed-KeepsKey = record { rowid = λ j. refl; snapshot = λ j. refl; job_id = λ j. refl }

  -- `provider_complete_job` does not panic: the job it has updated can be read back.
  pub provider_complete_job-ne-panic :
      provider_complete_job x db provider id balance_delta private_payload public_payload now
      ≢ panic
  unfolding provider_complete_job
  provider_complete_job-ne-panic h = elim (Option-cases (row_by_job_id db provider id)) [
    | inl e ↦ ground (arith, e)
    | inr (j, e) ↦
        let (s, e', _, _) = row_snapshot db provider id j e in
        ground
          (arith, find_by_rowid-after db completed completed-KeepsKey provider id j s e e' unique)
  ]

  -- If `provider_complete_job` succeeds, the job had neither a reason nor a synchronised completion
  -- time; its row then has the given values, and the returned record is what a query reads.
  pub provider_complete_job-ok :
      (job : JobRecord) (db' : Database)
      → provider_complete_job x db provider id balance_delta private_payload public_payload now
        ≡ ok (job, db')
      → (j : ServiceJobRow) × (row_by_job_id db provider id ≡ some j)
        × (j.reason ≡ none)
        × (j.completed_at_sync ≡ none)
        × (db' ≡ update_job j.rowid completed db)
        × (row_by_job_id db' provider id ≡ some (completed j))
        × (find_by_job_id db' provider id ≡ some job)
  unfolding provider_complete_job
  provider_complete_job-ok job db' h = elim (Option-cases (row_by_job_id db provider id)) [
    | inl e ↦ absurd (ground (arith, e))
    | inr (j, e) ↦
        let (s, e', _, _) = row_snapshot db provider id j e in
        let read =
          find_by_rowid-after db completed completed-KeepsKey provider id j s e e' unique in
        let queried = find_by_job_id-after db completed completed-KeepsKey provider id j s e e' in
        let row = updated_row db completed completed-KeepsKey provider id j e in
        (
          j,
          e,
          ground arith,
          ground arith,
          ground (arith, read),
          ground (arith, read, row),
          ground (arith, read, queried),
        )
  ]

module _ (x : Primitives) (db : Database) (consumer provider : PeerId) (id : String)
    (balance_delta : Option String) (public_payload : String) (private_payload : Option String)
    (completed_at_sync : ℤ) (sign_fn : List ℕ → List ℕ) (now : DateTime) where
  abbrev signed : JobRecord → ServiceJobRow → ServiceJobRow
  signed job =
      let delta = map_option x.hex_encode balance_delta in
      let hash = hash_job x (consumer_payload x job delta public_payload completed_at_sync) in
      set_signed delta public_payload private_payload now completed_at_sync hash (sign_fn hash)

  signed-KeepsKey : (job : JobRecord) → KeepsKey (signed job)
  signed-KeepsKey job = record { rowid = λ j. refl; snapshot = λ j. refl; job_id = λ j. refl }

  -- If `consumer_complete_job` succeeds, the job was the Consumer's own, with neither a reason nor a
  -- local completion time; its row then holds the hash of the completed job with the signature of
  -- that hash, and the returned record is what a query reads.
  pub consumer_complete_job-ok :
      (job : JobRecord) (db' : Database)
      → consumer_complete_job x db consumer provider id balance_delta public_payload private_payload
          completed_at_sync sign_fn now
        ≡ ok (job, db')
      → (j : ServiceJobRow) × (s : OfferSnapshotRow) × (row_by_job_id db provider id ≡ some j)
        × (snapshot_of db j ≡ some s)
        × (j.consumer_peer_id ≡ consumer)
        × (j.reason ≡ none)
        × (j.completed_at_local ≡ none)
        × (db' ≡ update_job j.rowid (signed (to_record j s)) db)
        × (row_by_job_id db' provider id ≡ some (signed (to_record j s) j))
        × (find_by_job_id db' provider id ≡ some job)
  unfolding consumer_complete_job
  consumer_complete_job-ok job db' h = elim (Option-cases (row_by_job_id db provider id)) [
    | inl e ↦ absurd (ground (arith, e, find_by_job_id-missing db provider id e))
    | inr (j, e) ↦
        let (s, e', _, _) = row_snapshot db provider id j e in
        let read = find_by_job_id_lem db provider id j s e e' in
        let f = signed (to_record j s) in
        let keeps = signed-KeepsKey (to_record j s) in
        let queried = find_by_job_id-after db f keeps provider id j s e e' in
        let row = updated_row db f keeps provider id j e in
        (
          j,
          s,
          e,
          e',
          (==_iff j.consumer_peer_id consumer).0 (ground (arith, read)),
          ground (arith, read),
          ground (arith, read),
          ground (arith, read),
          ground (arith, read, row),
          ground (arith, read, queried),
        )
  ]
