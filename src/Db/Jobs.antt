-- ===== src/Db/Jobs.antt =====
-- src/db/service_jobs.rs, service_jobs/get.rs and service_jobs/create.rs: job hashing, lookups, and
-- the insertion of a job. The other operations on a job stand in the child modules.
pub mod Fail
pub mod Consumer
pub mod Provider
pub mod ConfirmationError
pub mod Lookup
pub mod Failure
pub mod Completion
pub mod Stored
pub mod Agreement
pub mod Confirmation
pub mod Unconfirmed
pub mod QueryAll
pub mod Validity
pub mod Steps
pub mod Preservation
pub mod Total
pub mod Ambiguity
pub mod Tests
use derouter.Base.{
  ℕ, String, Bool, true, false, ◌&&◌, Option, none, some, List, [], ◌∷◌, ◌++◌, ◌==◌, nat_eq,
  text_eq, find_first, update_where, Outcome, ok, panic, is_some, if◌then◌else◌,
}
use derouter.Base.Int.{ℤ}
use derouter.Dto.{PeerId, DateTime, Currency, code, JobRecord}
use derouter.Db.{OfferSnapshotRow, ServiceJobRow, Database, next_rowid}

-- What the program takes from other crates: SHA-256, `hex::encode`, the U256 parser, the decoder
-- of a public key and the check of a signature by it, and the bytes of a peer ID, a text and an
-- integer's decimal text.
pub record Primitives : Type 1 where
  pub sha256 : List ℕ → List ℕ
  pub hex_encode : String → String
  pub parse_u256 : String → Bool
  pub PublicKey : Type 0
  pub try_decode_protobuf : List ℕ → Option PublicKey
  pub verify : PublicKey → List ℕ → List ℕ → Bool
  pub peer_id_bytes : PeerId → List ℕ
  pub bytes : String → List ℕ
  pub decimal_bytes : ℤ → List ℕ

pub record JobHashingPayload : Type 0 where
  pub consumer_peer_id : PeerId
  pub provider_peer_id : PeerId
  pub protocol_id : String
  pub offer_payload : String
  pub currency : String
  pub provider_job_id : String
  pub job_created_at_sync : ℤ
  pub job_public_payload : String
  pub job_completed_at_sync : ℤ
  pub balance_delta : Option String

module _ (x : Primitives) where
  abbrev delta_bytes : Option String → List ℕ
  delta_bytes none = []
  delta_bytes (some d) = x.bytes d

  -- What the updates of the hasher feed into it, in their order.
  hash_input : JobHashingPayload → List ℕ
  hash_input job =
      x.peer_id_bytes job.consumer_peer_id
      ++ (x.peer_id_bytes job.provider_peer_id
          ++ (x.bytes job.protocol_id
              ++ (x.bytes job.offer_payload
                  ++ (x.bytes job.currency
                      ++ (x.bytes job.provider_job_id
                          ++ (x.decimal_bytes job.job_created_at_sync
                              ++ (x.bytes job.job_public_payload
                                  ++ (x.decimal_bytes job.job_completed_at_sync
                                      ++ delta_bytes job.balance_delta))))))))

  unfoldable pub hash_job : JobHashingPayload → List ℕ
  unfolding hash_input
  hash_job job = x.sha256 (hash_input job)

  -- True if the code returns `Ok`.
  unfoldable pub validate_balance_delta : String → Currency → Bool
  validate_balance_delta d Currency.polygon = x.parse_u256 d

-- JOIN offer_snapshots ON offer_snapshots.rowid = service_jobs.offer_snapshot_rowid
abbrev pub snapshot_of : Database → ServiceJobRow → Option OfferSnapshotRow
snapshot_of db j = find_first (λ s. s.rowid == j.offer_snapshot_rowid) db.offer_snapshots

abbrev pub to_record : ServiceJobRow → OfferSnapshotRow → JobRecord
to_record j s = record {
  job_rowid = j.rowid;
  provider_job_id = j.provider_job_id;
  provider_peer_id = s.provider_peer_id;
  consumer_peer_id = j.consumer_peer_id;
  offer_id = s.offer_id;
  offer_snapshot_rowid = s.rowid;
  offer_protocol_id = s.protocol_id;
  offer_payload = s.protocol_payload;
  offer_active = s.active;
  currency = j.currency;
  balance_delta = j.balance_delta;
  public_payload = j.public_payload;
  private_payload = j.private_payload;
  reason = j.reason;
  reason_class = j.reason_class;
  created_at_local = j.created_at_local;
  created_at_sync = j.created_at_sync;
  completed_at_local = j.completed_at_local;
  completed_at_sync = j.completed_at_sync;
  signature_confirmed_at_local = j.signature_confirmed_at_local;
  confirmation_error = j.confirmation_error;
}

abbrev pub joined : ServiceJobRow → Option OfferSnapshotRow → Option JobRecord
joined j none = none
joined j (some s) = some (to_record j s)

abbrev pub record_of : Database → Option ServiceJobRow → Option JobRecord
record_of db none = none
record_of db (some j) = joined j (snapshot_of db j)

abbrev pub row_by_rowid : Database → ℕ → Option ServiceJobRow
row_by_rowid db id = find_first (λ j. j.rowid == id) db.service_jobs

unfoldable pub find_by_rowid : Database → ℕ → Option JobRecord
find_by_rowid db id = record_of db (row_by_rowid db id)

abbrev pub provided_by : PeerId → Option OfferSnapshotRow → Bool
provided_by provider none = false
provided_by provider (some s) = s.provider_peer_id == provider

-- WHERE offer_snapshots.provider_peer_id = ?1 AND service_jobs.provider_job_id = ?2
abbrev pub is_job : Database → PeerId → String → ServiceJobRow → Bool
is_job db provider id j = provided_by provider (snapshot_of db j) && (j.provider_job_id == id)

-- The queries read one row of the join. Job IDs are UUIDs; of rows with one ID the first one stands
-- for the row that SQLite visits first.
abbrev pub row_by_job_id : Database → PeerId → String → Option ServiceJobRow
row_by_job_id db provider id = find_first (is_job db provider id) db.service_jobs

unfoldable pub find_by_job_id : Database → PeerId → String → Option JobRecord
find_by_job_id db provider id = record_of db (row_by_job_id db provider id)

-- The row that `create_job` inserts; `now` is the column's default, CURRENT_TIMESTAMP.
abbrev pub new_job :
    ℕ → ℕ → PeerId → Currency → Option String → String → ℤ → DateTime → ServiceJobRow
new_job rowid snapshot consumer currency args id created_at_sync now = record {
  rowid = rowid;
  offer_snapshot_rowid = snapshot;
  consumer_peer_id = consumer;
  currency = currency;
  job_args = args;
  provider_job_id = id;
  private_payload = none;
  reason = none;
  reason_class = none;
  created_at_local = now;
  created_at_sync = created_at_sync;
  completed_at_local = none;
  completed_at_sync = none;
  public_payload = none;
  balance_delta = none;
  hash = none;
  consumer_signature = none;
  signature_confirmed_at_local = none;
  confirmation_error = none;
}

-- The new database and the rowid of the job. A snapshot that is not there violates the foreign key
-- of the table, and `execute(…).unwrap()` panics.
unfoldable pub create_job :
    Database
    → ℕ
    → PeerId
    → Currency
    → Option String
    → String
    → ℤ
    → DateTime
    → Outcome ⊥ (Database × ℕ)
create_job db snapshot consumer currency args id created_at_sync now =
    let rowid = next_rowid (λ (j : ServiceJobRow). j.rowid) db.service_jobs in
    let job = new_job rowid snapshot consumer currency args id created_at_sync now in
    if is_some (snapshot_of db job)
    then ok (record db { service_jobs = db.service_jobs ++ job ∷ [] }, rowid)
    else panic
