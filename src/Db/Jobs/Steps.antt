-- ===== src/Db/Jobs/Steps.antt =====
-- The operations of src/db/service_jobs as steps, and their histories.
use derouter.Base.{ℕ, String, ◌≡◌, refl, Option, List, arith, ok}
use derouter.Base.Int.{ℤ}
use derouter.Dto.{PeerId, DateTime, Currency, JobRecord}
use derouter.Db.{ServiceJobRow, OfferSnapshotRow, Database, update_job}
use derouter.Db.Rowids.{HasUniqueIds-update_where}
use derouter.Db.Jobs.{Primitives, create_job}
use derouter.Db.Jobs.Fail.{fail_job, set_failed}
use derouter.Db.Jobs.Consumer.{
  consumer_complete_job, consumer_confirm_job, set_confirmed, set_signed,
}
use derouter.Db.Jobs.Provider.{
  provider_complete_job, provider_confirm_job, set_completed, set_verified,
}
use derouter.Db.Jobs.ConfirmationError.{set_job_confirmation_error, set_error}
use derouter.Db.Jobs.Lookup.{KeepsKey}
use derouter.Db.Jobs.Validity.{IsValidJob, IsValidJobs, All-update_where}

-- An operation that changes the table. The operations that return an error change nothing.
pub data JobStep (x : Primitives) (db db' : Database) : Type 0 where
  create :
      (snapshot : ℕ) (consumer : PeerId) (currency : Currency) (args : Option String) (id : String)
      (created_at_sync : ℤ) (now : DateTime) (rowid : ℕ)
      → create_job db snapshot consumer currency args id created_at_sync now ≡ ok (db', rowid)
      → JobStep x db db'
  fail :
      (provider : PeerId) (id reason : String) (reason_class : Option ℤ) (p : Option String)
      (now : DateTime)
      → fail_job db provider id reason reason_class p now ≡ ok db'
      → JobStep x db db'
  consumer_complete :
      (consumer provider : PeerId) (id : String) (d : Option String) (public_payload : String)
      (p : Option String) (t : ℤ) (sign_fn : List ℕ → List ℕ) (now : DateTime) (job : JobRecord)
      → consumer_complete_job x db consumer provider id d public_payload p t sign_fn now
        ≡ ok (job, db')
      → JobStep x db db'
  consumer_confirm :
      (rowid : ℕ) (now : DateTime) (job : JobRecord)
      → consumer_confirm_job db rowid now ≡ ok (job, db')
      → JobStep x db db'
  provider_complete :
      (provider : PeerId) (id : String) (d p : Option String) (public_payload : String) (t : ℤ)
      (job : JobRecord)
      → provider_complete_job x db provider id d p public_payload t ≡ ok (job, db')
      → JobStep x db db'
  provider_confirm :
      (consumer provider : PeerId) (id : String) (hash key signature : List ℕ) (now : DateTime)
      → provider_confirm_job x db consumer provider id hash key signature now ≡ ok db'
      → JobStep x db db'
  confirmation_error :
      (rowid : ℕ) (e : String) → db' ≡ (set_job_confirmation_error db rowid e).1 → JobStep x db db'

pub data JobSteps (x : Primitives) (db : Database) : Database → Type 0 where
  here : JobSteps x db db
  next : {db' db'' : Database} → JobSteps x db db' → JobStep x db' db'' → JobSteps x db db''

-- An update of one row that keeps rows valid keeps the table valid.
pub record KeepsValid (f : ServiceJobRow → ServiceJobRow) : Type 0 where
  pub keys : KeepsKey f
  pub rows :
      (snapshots : List OfferSnapshotRow) (j : ServiceJobRow)
      → IsValidJob snapshots j
      → IsValidJob snapshots (f j)

pub update_job-IsValidJobs :
    (db : Database) (id : ℕ) (f : ServiceJobRow → ServiceJobRow)
    → KeepsValid f
    → IsValidJobs db
    → IsValidJobs (update_job id f db)
unfolding update_job
update_job-IsValidJobs db id f k v = record {
  unique =
      HasUniqueIds-update_where (λ (j : ServiceJobRow). j.rowid) _ f db.service_jobs k.keys.rowid
        v.unique;
  valid =
      All-update_where (IsValidJob db.offer_snapshots) _ f db.service_jobs
        (k.rows db.offer_snapshots) v.valid;
}

same_keys :
    {f : ServiceJobRow → ServiceJobRow}
    → ((j : ServiceJobRow) → (f j).rowid ≡ j.rowid)
    → ((j : ServiceJobRow) → (f j).offer_snapshot_rowid ≡ j.offer_snapshot_rowid)
    → ((j : ServiceJobRow) → (f j).provider_job_id ≡ j.provider_job_id)
    → KeepsKey f
same_keys a b c = record { rowid = a; snapshot = b; job_id = c }

pub set_failed-KeepsValid :
    (r : String) (c : Option ℤ) (p : Option String) (t : DateTime) → KeepsValid (set_failed r c p t)
set_failed-KeepsValid r c p t = record {
  keys = same_keys (λ j. refl) (λ j. refl) (λ j. refl);
  rows = λ ss j v. record {
    offered = v.offered;
    hashed = v.hashed;
    described = v.described;
    timed = λ _. refl;
  };
}

pub set_signed-KeepsValid :
    (d : Option String) (pub_ : String) (p : Option String) (now : DateTime) (t : ℤ) (h s : List ℕ)
    → KeepsValid (set_signed d pub_ p now t h s)
set_signed-KeepsValid d pub_ p now t h s = record {
  keys = same_keys (λ j. refl) (λ j. refl) (λ j. refl);
  rows = λ ss j v. record {
    offered = v.offered;
    hashed = λ _. refl;
    described = λ _. refl;
    timed = λ _. refl;
  };
}

pub set_confirmed-KeepsValid : (now : DateTime) → KeepsValid (set_confirmed now)
set_confirmed-KeepsValid now = record {
  keys = same_keys (λ j. refl) (λ j. refl) (λ j. refl);
  rows = λ ss j v. record {
    offered = v.offered;
    hashed = λ e. absurd (ground (arith, e));
    described = v.described;
    timed = v.timed;
  };
}

pub set_completed-KeepsValid :
    (d : Option String) (pub_ : String) (p : Option String) (t : ℤ)
    → KeepsValid (set_completed d pub_ p t)
set_completed-KeepsValid d pub_ p t = record {
  keys = same_keys (λ j. refl) (λ j. refl) (λ j. refl);
  rows = λ ss j v. record {
    offered = v.offered;
    hashed = v.hashed;
    described = λ _. refl;
    timed = v.timed;
  };
}

pub set_verified-KeepsValid : (s : List ℕ) (now : DateTime) → KeepsValid (set_verified s now)
set_verified-KeepsValid s now = record {
  keys = same_keys (λ j. refl) (λ j. refl) (λ j. refl);
  rows = λ ss j v. record {
    offered = v.offered;
    hashed = λ e. absurd (ground (arith, e));
    described = v.described;
    timed = v.timed;
  };
}

pub set_error-KeepsValid : (e : String) → KeepsValid (set_error e)
set_error-KeepsValid e = record {
  keys = same_keys (λ j. refl) (λ j. refl) (λ j. refl);
  rows = λ ss j v. record {
    offered = v.offered;
    hashed = v.hashed;
    described = v.described;
    timed = v.timed;
  };
}
