-- ===== src/Db/Jobs/ConfirmationError.antt =====
-- src/db/service_jobs/set_confirmation_error.rs
use derouter.Base.{ℕ, String, none, some, is_some, if◌then◌else◌}
use derouter.Db.{ServiceJobRow, Database, update_job}
use derouter.Db.Jobs.{row_by_rowid}

pub data SetJobConfirmationErrorResult : Type 0 where
  ok invalid_job_id already_confirmed : SetJobConfirmationErrorResult

abbrev pub set_error : String → ServiceJobRow → ServiceJobRow
set_error e j = record j { confirmation_error = some e }

unfoldable pub set_job_confirmation_error :
    Database → ℕ → String → SetJobConfirmationErrorResult × Database
set_job_confirmation_error db job_rowid e = elim (row_by_rowid db job_rowid) [
  | none ↦ (invalid_job_id, db)
  | some job ↦
      if is_some job.signature_confirmed_at_local
      then (already_confirmed, db)
      else (ok, update_job job_rowid (set_error e) db)
]
