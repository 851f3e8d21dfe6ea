-- ===== src/Db.antt =====
-- The SQLite tables of src/db/migrations. A table is the list of its rows in the order of insertion,
-- which is the order of their rowids: the program deletes no row.
-- A rowid is a number from 1 on, as SQLite assigns them; a negative i64 names no row.
pub mod Rowids
pub mod Offers
pub mod Providers
pub mod Jobs
use derouter.Base.{ℕ, suc, String, Bool, Option, List, [], ◌∷◌, max, ◌==◌, nat_eq, update_where}
use derouter.Base.Int.{ℤ}
use derouter.Dto.{PeerId, DateTime, Currency}

-- 001-create_peers
pub record PeerRow : Type 0 where
  pub peer_id : PeerId
  pub provider_name : Option String
  pub provider_teaser : Option String
  pub provider_description : Option String
  pub their_provider_updated_at : Option DateTime
  pub our_provider_updated_at : Option DateTime
  pub their_latest_heartbeat_timestamp : Option DateTime
  pub our_latest_heartbeat_timestamp : Option DateTime

-- 002-create_offer_snapshots
pub record OfferSnapshotRow : Type 0 where
  pub rowid : ℕ
  pub provider_peer_id : PeerId
  pub protocol_id : String
  pub offer_id : String
  pub protocol_payload : String
  pub active : Bool

-- 003-create_service_jobs. The currency column is written from a `Currency` only.
pub record ServiceJobRow : Type 0 where
  pub rowid : ℕ
  pub offer_snapshot_rowid : ℕ
  pub consumer_peer_id : PeerId
  pub currency : Currency
  pub job_args : Option String
  pub provider_job_id : String
  pub private_payload : Option String
  pub reason : Option String
  pub reason_class : Option ℤ
  pub created_at_local : DateTime
  pub created_at_sync : ℤ
  pub completed_at_local : Option DateTime
  pub completed_at_sync : Option ℤ
  pub public_payload : Option String
  pub balance_delta : Option String
  pub hash : Option (List ℕ)
  pub consumer_signature : Option (List ℕ)
  pub signature_confirmed_at_local : Option DateTime
  pub confirmation_error : Option String

pub record Database : Type 0 where
  pub peers : List PeerRow
  pub offer_snapshots : List OfferSnapshotRow
  pub service_jobs : List ServiceJobRow

abbrev pub empty_database : Database
empty_database = record { peers = []; offer_snapshots = []; service_jobs = [] }

-- The largest of the given rowids.
abbrev pub max_rowid {ℓ} : {A : Type ℓ} → (A → ℕ) → List A → ℕ
max_rowid id [] = 0
max_rowid id (r ∷ rs) = max (id r) (max_rowid id rs)

-- A new row gets the number after the largest rowid of its table.
abbrev pub next_rowid {ℓ} : {A : Type ℓ} → (A → ℕ) → List A → ℕ
next_rowid id rs = suc (max_rowid id rs)

-- UPDATE service_jobs SET … WHERE rowid = ?1
unfoldable pub update_job : ℕ → (ServiceJobRow → ServiceJobRow) → Database → Database
update_job id f db = record db {
  service_jobs = update_where (λ j. j.rowid == id) f db.service_jobs;
}
