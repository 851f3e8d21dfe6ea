-- ===== src/Db/Jobs/Fail.antt =====
-- src/db/service_jobs/fail.rs
use derouter.Base.{ℕ, String, Option, none, some, Outcome, ok, err, panic, is_some, if◌then◌else◌}
use derouter.Base.Int.{ℤ}
use derouter.Dto.{PeerId, DateTime}
use derouter.Db.{ServiceJobRow, Database, update_job}
use derouter.Db.Jobs.{row_by_job_id}

pub data FailJobError : Type 0 where
  invalid_job_id already_completed : FailJobError
  already_failed : String → Option ℤ → FailJobError

-- The SET clause of the update.
abbrev pub set_failed : String → Option ℤ → Option String → DateTime → ServiceJobRow → ServiceJobRow
set_failed reason reason_class private_payload now j = record j {
  reason = some reason;
  reason_class = reason_class;
  private_payload = private_payload;
  completed_at_local = some now;
}

-- The checks on the job before the update; the rowid of a job that may be failed.
may_fail : Option ServiceJobRow → Outcome FailJobError ℕ
may_fail none = err invalid_job_id
may_fail (some job) = elim job.reason [
  | some reason ↦ err (already_failed reason job.reason_class)
  | none ↦ if is_some job.completed_at_local then err already_completed else ok job.rowid
]

unfoldable pub fail_job :
    Database
    → PeerId
    → String
    → String
    → Option ℤ
    → Option String
    → DateTime
    → Outcome FailJobError Database
unfolding may_fail
fail_job db provider id reason reason_class private_payload now =
    elim (may_fail (row_by_job_id db provider id)) [
      | ok rowid ↦ ok (update_job rowid (set_failed reason reason_class private_payload now) db)
      | err e ↦ err e
      | panic ↦ panic
    ]
