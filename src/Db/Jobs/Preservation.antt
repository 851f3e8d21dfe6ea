-- ===== src/Db/Jobs/Preservation.antt =====
-- The invariant of the jobs table along the histories of its operations (src/db/service_jobs).
use derouter.Base.{
  ℕ, String, ◌≡◌, refl, sym, subst, inl, inr, Option, List, arith, ok, Option-cases, is_some, true,
  ◌++◌, [], ◌∷◌,
}
use derouter.Base.Int.{ℤ}
use derouter.Dto.{PeerId, DateTime, Currency, JobRecord}
use derouter.Db.{ServiceJobRow, Database, update_job, next_rowid}
use derouter.Db.Rowids.{HasUniqueIds-append}
use derouter.Db.Jobs.{Primitives, new_job, create_job, snapshot_of, find_by_job_id}
use derouter.Db.Jobs.Consumer.{consumer_confirm_job, set_confirmed}
use derouter.Db.Jobs.Provider.{provider_confirm_job, set_verified}
use derouter.Db.Jobs.ConfirmationError.{set_job_confirmation_error}
use derouter.Db.Jobs.Failure.{fail_job_inv}
use derouter.Db.Jobs.Completion.{provider_complete_job-ok, consumer_complete_job-ok}
use derouter.Db.Jobs.Validity.{IsValidJob, IsValidJobs, All-append}
use derouter.Db.Jobs.Steps.{
  JobStep, JobSteps, create, fail, consumer_complete, consumer_confirm, provider_complete,
  provider_confirm, confirmation_error, here, next, update_job-IsValidJobs, set_failed-KeepsValid,
  set_signed-KeepsValid, set_confirmed-KeepsValid, set_completed-KeepsValid,
  set_verified-KeepsValid, set_error-KeepsValid,
}

create_job-IsValidJobs :
    (db : Database) (snapshot : ℕ) (consumer : PeerId) (currency : Currency) (args : Option String)
    (id : String) (created_at_sync : ℤ) (now : DateTime) (db' : Database) (rowid : ℕ)
    → create_job db snapshot consumer currency args id created_at_sync now ≡ ok (db', rowid)
    → IsValidJobs db
    → IsValidJobs db'
unfolding create_job
create_job-IsValidJobs db snapshot consumer currency args id created_at_sync now db' rowid h v =
    let n = next_rowid (λ (j : ServiceJobRow). j.rowid) db.service_jobs in
    let job = new_job n snapshot consumer currency args id created_at_sync now in
    let offered : is_some (snapshot_of db job) ≡ true = ground (arith, h) in
    let e : db' ≡ record db { service_jobs = db.service_jobs ++ job ∷ [] } = ground (arith, h) in
    subst IsValidJobs (sym e) (record {
      unique =
          HasUniqueIds-append (λ (j : ServiceJobRow). j.rowid) job db.service_jobs refl v.unique;
      valid = All-append (IsValidJob db.offer_snapshots) db.service_jobs job v.valid (record {
        offered = offered;
        hashed = λ p. absurd (ground (arith, p));
        described = λ p. absurd (ground (arith, p));
        timed = λ p. absurd (ground (arith, p));
      });
    })

provider_confirm_job_inv :
    (x : Primitives) (db db' : Database) (consumer provider : PeerId) (id : String)
    (hash key signature : List ℕ) (now : DateTime)
    → provider_confirm_job x db consumer provider id hash key signature now ≡ ok db'
    → (n : ℕ) × (db' ≡ update_job n (set_verified signature now) db)
unfolding provider_confirm_job
provider_confirm_job_inv x db db' consumer provider id hash key signature now h =
    elim (Option-cases (find_by_job_id db provider id)) [
      | inl e ↦ absurd (ground (arith, e))
      | inr (job, e) ↦ (job.job_rowid, ground (arith, e))
    ]

pub consumer_confirm_job_inv :
    (db db' : Database) (rowid : ℕ) (now : DateTime) (job : JobRecord)
    → consumer_confirm_job db rowid now ≡ ok (job, db')
    → db' ≡ update_job rowid (set_confirmed now) db
unfolding consumer_confirm_job
consumer_confirm_job_inv db db' rowid now job h = ground arith

set_job_confirmation_error-IsValidJobs :
    (db : Database) (rowid : ℕ) (e : String)
    → IsValidJobs db
    → IsValidJobs (set_job_confirmation_error db rowid e).1
unfolding set_job_confirmation_error
set_job_confirmation_error-IsValidJobs db rowid e v =
    ground (arith, update_job-IsValidJobs db rowid _ (set_error-KeepsValid e) v)

-- One operation on the jobs table keeps `IsValidJobs`.
pub JobStep-IsValidJobs :
    (x : Primitives) (db db' : Database) → JobStep x db db' → IsValidJobs db → IsValidJobs db'
JobStep-IsValidJobs x db db' (create s c u a i t n r h) v =
    create_job-IsValidJobs db s c u a i t n db' r h v
JobStep-IsValidJobs x db db' (fail p i r c q n h) v =
    let (j, _, _, _, e) = fail_job_inv db p i r c q n db' h in
    subst IsValidJobs (sym e)
      (update_job-IsValidJobs db j.rowid _ (set_failed-KeepsValid r c q n) v)
JobStep-IsValidJobs x db db' (consumer_complete c p i d b q t f n job h) v =
    let (j, _, _, _, _, _, _, e, _, _) =
      consumer_complete_job-ok x db c p i d b q t f n job db' h in
    subst IsValidJobs (sym e)
      (update_job-IsValidJobs db j.rowid _ (set_signed-KeepsValid _ b q n t _ _) v)
JobStep-IsValidJobs x db db' (consumer_confirm r n job h) v =
    subst IsValidJobs (sym (consumer_confirm_job_inv db db' r n job h))
      (update_job-IsValidJobs db r _ (set_confirmed-KeepsValid n) v)
JobStep-IsValidJobs x db db' (provider_complete p i d q b t job h) v =
    let (j, _, _, _, e, _, _) = provider_complete_job-ok x db p i d q b t v.unique job db' h in
    subst IsValidJobs (sym e)
      (update_job-IsValidJobs db j.rowid _ (set_completed-KeepsValid d b q t) v)
JobStep-IsValidJobs x db db' (provider_confirm c p i hash k s n h) v =
    let (r, e) = provider_confirm_job_inv x db db' c p i hash k s n h in
    subst IsValidJobs (sym e) (update_job-IsValidJobs db r _ (set_verified-KeepsValid s n) v)
JobStep-IsValidJobs x db db' (confirmation_error r e h) v =
    subst IsValidJobs (sym h) (set_job_confirmation_error-IsValidJobs db r e v)

-- A table of jobs that is well-formed stays so through every history of operations on jobs: rowids
-- are unique, every job refers to a snapshot, a signature that waits for its confirmation has its
-- hash, a completed job has its public payload, and a failed job has a local completion time.
pub JobSteps-IsValidJobs :
    {x : Primitives} {db db' : Database} → IsValidJobs db → JobSteps x db db' → IsValidJobs db'
JobSteps-IsValidJobs v here = v
JobSteps-IsValidJobs {x} v (next {db' = d} {db'' = e} steps step) =
    JobStep-IsValidJobs x d e step (JobSteps-IsValidJobs v steps)
