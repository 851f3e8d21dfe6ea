-- ===== src/Db/Jobs/Stored.antt =====
-- What the operations on a job in src/db/service_jobs leave in the database, column by column.
use derouter.Base.{
  ℕ, String, ◌≡◌, ◌≢◌, refl, Option, none, some, List, ok, map_option, or_else, text_eq, nat_eq,
}
use derouter.Base.Int.{ℤ}
use derouter.Dto.{PeerId, DateTime, JobRecord}
use derouter.Db.{OfferSnapshotRow, ServiceJobRow, Database, update_job}
use derouter.Db.Jobs.{
  Primitives, hash_job, row_by_job_id, row_by_rowid, find_by_job_id, to_record, snapshot_of,
}
use derouter.Db.Jobs.Lookup.{KeepsKey, other_row}
use derouter.Db.Jobs.Consumer.{consumer_complete_job, consumer_payload}
use derouter.Db.Jobs.Provider.{provider_complete_job}
use derouter.Db.Jobs.Completion.{UniqueJobs, provider_complete_job-ok, consumer_complete_job-ok}

-- Two rows that differ at most in the columns of a completion: the two payloads, the balance delta,
-- the two times, the hash and the signature.
abbrev uncompleted : ServiceJobRow → ServiceJobRow
uncompleted j = record j {
  balance_delta = none;
  public_payload = none;
  private_payload = none;
  completed_at_local = none;
  completed_at_sync = none;
  hash = none;
  consumer_signature = none;
}

-- The job's row becomes another one, and nothing else in the database changes.
pub record Replaces (provider : PeerId) (id : String) (db db' : Database) (j j' : ServiceJobRow)
    : Type 0 where
  pub before : row_by_job_id db provider id ≡ some j
  pub after : row_by_job_id db' provider id ≡ some j'
  pub others : (k : ℕ) → k ≢ j.rowid → row_by_rowid db' k ≡ row_by_rowid db k
  pub snapshots : db'.offer_snapshots ≡ db.offer_snapshots
  pub peers : db'.peers ≡ db.peers

update_job-Replaces :
    (provider : PeerId) (id : String) (db db' : Database) (f : ServiceJobRow → ServiceJobRow)
    (j : ServiceJobRow)
    → KeepsKey f
    → db' ≡ update_job j.rowid f db
    → row_by_job_id db provider id ≡ some j
    → row_by_job_id db' provider id ≡ some (f j)
    → Replaces provider id db db' j (f j)
unfolding update_job
update_job-Replaces provider id db db' f j keeps e b a = record {
  before = b;
  after = a;
  others = λ k ne. rw e (other_row db f keeps k j.rowid ne);
  snapshots = rw e refl;
  peers = rw e refl;
}

-- The columns of a completion by the Provider.
pub record IsCompleted (balance_delta private_payload : Option String) (public_payload : String)
    (now : ℤ) (j j' : ServiceJobRow) : Type 0 where
  pub not_failed : j.reason ≡ none
  pub not_completed : j.completed_at_sync ≡ none
  pub delta : j'.balance_delta ≡ balance_delta
  pub public_text : j'.public_payload ≡ some public_payload
  pub private_text : j'.private_payload ≡ or_else private_payload j.private_payload
  pub time : j'.completed_at_sync ≡ some now
  pub local_time : j'.completed_at_local ≡ j.completed_at_local
  pub same_hash : j'.hash ≡ j.hash
  pub same_signature : j'.consumer_signature ≡ j.consumer_signature
  pub rest : uncompleted j' ≡ uncompleted j

-- Where `provider_complete_job` succeeds, the job was neither failed nor completed. Its row then has the
-- balance delta and the public payload that were given, the private payload if one was given and the
-- old one if not, and the time of completion; each other column of it, each other job, and the other
-- tables are as they were. The record that is returned is what a query of the job then reads. No two
-- jobs had one rowid.
pub provider_complete_job-stored :
    (x : Primitives) (db : Database) (provider : PeerId) (id : String)
    (balance_delta private_payload : Option String) (public_payload : String) (now : ℤ)
    (job : JobRecord) (db' : Database)
    → UniqueJobs db
    → provider_complete_job x db provider id balance_delta private_payload public_payload now
      ≡ ok (job, db')
    → (j : ServiceJobRow) × (j' : ServiceJobRow) × Replaces provider id db db' j j'
      × IsCompleted balance_delta private_payload public_payload now j j'
      × (find_by_job_id db' provider id ≡ some job)
provider_complete_job-stored x db provider id balance_delta private_payload public_payload now job
      db' unique h =
    let (j, e, r, c, u, a, q) =
      provider_complete_job-ok x db provider id balance_delta private_payload public_payload now
        unique job db' h in
    (
      j,
      _,
      update_job-Replaces provider id db db' _ j
          (record { rowid = λ j. refl; snapshot = λ j. refl; job_id = λ j. refl }) u e a,
      record {
        not_failed = r;
        not_completed = c;
        delta = refl;
        public_text = refl;
        private_text = refl;
        time = refl;
        local_time = refl;
        same_hash = refl;
        same_signature = refl;
        rest = refl;
      },
      q,
    )

-- The columns of a completion by the Consumer. The balance delta is encoded to hex.
pub record IsSigned (x : Primitives) (consumer : PeerId)
    (balance_delta private_payload : Option String) (public_payload : String)
    (completed_at_sync : ℤ) (sign_fn : List ℕ → List ℕ) (now : DateTime) (s : OfferSnapshotRow)
    (j j' : ServiceJobRow) : Type 0 where
  pub own : j.consumer_peer_id ≡ consumer
  pub not_failed : j.reason ≡ none
  pub not_completed : j.completed_at_local ≡ none
  pub delta : j'.balance_delta ≡ map_option x.hex_encode balance_delta
  pub public_text : j'.public_payload ≡ some public_payload
  pub private_text : j'.private_payload ≡ or_else private_payload j.private_payload
  pub time : j'.completed_at_sync ≡ some completed_at_sync
  pub local_time : j'.completed_at_local ≡ some now
  pub hash : List ℕ
  pub hashed :
      hash
      ≡ hash_job x
          (consumer_payload x (to_record j s) j'.balance_delta public_payload completed_at_sync)
  pub has_hash : j'.hash ≡ some hash
  pub has_signature : j'.consumer_signature ≡ some (sign_fn hash)
  pub rest : uncompleted j' ≡ uncompleted j

-- Where `consumer_complete_job` succeeds, the job was the Consumer's own, neither failed nor completed.
-- Its row then has the balance delta in hex, the public payload, the private payload if one was given
-- and the old one if not, both times, the hash of the job with just these values, and the signature of
-- that hash; each other column of it, each other job, and the other tables are as they were. The record
-- that is returned is what a query of the job then reads.
pub consumer_complete_job-stored :
    (x : Primitives) (db : Database) (consumer provider : PeerId) (id : String)
    (balance_delta : Option String) (public_payload : String) (private_payload : Option String)
    (completed_at_sync : ℤ) (sign_fn : List ℕ → List ℕ) (now : DateTime) (job : JobRecord)
    (db' : Database)
    → consumer_complete_job x db consumer provider id balance_delta public_payload private_payload
        completed_at_sync sign_fn now
      ≡ ok (job, db')
    → (j : ServiceJobRow) × (j' : ServiceJobRow) × (s : OfferSnapshotRow) × Replaces provider id db
        db' j j'
      × (snapshot_of db j ≡ some s)
      × IsSigned x consumer balance_delta private_payload public_payload completed_at_sync sign_fn
          now s j j'
      × (find_by_job_id db' provider id ≡ some job)
consumer_complete_job-stored x db consumer provider id balance_delta public_payload private_payload
      completed_at_sync sign_fn now job db' h =
    let (j, s, e, e', own, r, c, u, a, q) =
      consumer_complete_job-ok x db consumer provider id balance_delta public_payload
        private_payload completed_at_sync sign_fn now job db' h in
    (
      j,
      _,
      s,
      update_job-Replaces provider id db db' _ j
          (record { rowid = λ j. refl; snapshot = λ j. refl; job_id = λ j. refl }) u e a,
      e',
      record {
        own = own;
        not_failed = r;
        not_completed = c;
        delta = refl;
        public_text = refl;
        private_text = refl;
        time = refl;
        local_time = refl;
        hash = _;
        hashed = refl;
        has_hash = refl;
        has_signature = refl;
        rest = refl;
      },
      q,
    )
