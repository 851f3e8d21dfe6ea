-- ===== src/Rpc/Settle.antt =====
-- src/rpc/procedure/fail_job.rs and src/rpc/procedure/provider/complete_job.rs: the requests that
-- settle a job, from either side and from the Provider. The clock is an argument.
use derouter.Base.{String, Option, none, some, Outcome, ok, err, panic}
use derouter.Base.Int.{ℤ}
use derouter.Dto.{PeerId, DateTime}
use derouter.Db.{Database}
use derouter.Db.Jobs.{Primitives}
use derouter.Db.Jobs.Fail.{FailJobError, fail_job}
use derouter.Db.Jobs.Provider.{ProviderCompleteJobError, provider_complete_job}

pub data FailJobResponse : Type 0 where
  failed job_not_found already_completed : FailJobResponse
  already_failed : String → Option ℤ → FailJobResponse

unfoldable pub handle_fail_job_request :
    Database
    → PeerId
    → String
    → String
    → Option ℤ
    → Option String
    → DateTime
    → Outcome ⊥ (FailJobResponse × Database)
handle_fail_job_request db provider_peer_id provider_job_id reason reason_class private_payload
      now =
    elim (fail_job db provider_peer_id provider_job_id reason reason_class private_payload now) [
      | ok db' ↦ ok (failed, db')
      | err FailJobError.invalid_job_id ↦ ok (FailJobResponse.job_not_found, db)
      | err FailJobError.already_completed ↦ ok (FailJobResponse.already_completed, db)
      | err (FailJobError.already_failed r c) ↦ ok (FailJobResponse.already_failed r c, db)
      | panic ↦ panic
    ]

pub data ProviderCompleteJobResponse : Type 0 where
  completed : ℤ → ProviderCompleteJobResponse
  job_not_found invalid_balance_delta : ProviderCompleteJobResponse
  already_completed : ℤ → ProviderCompleteJobResponse
  already_failed : String → Option ℤ → ProviderCompleteJobResponse

-- `job_record.completed_at_sync.unwrap()`
abbrev pub completed_at : Option ℤ → Database → Outcome ⊥ (ProviderCompleteJobResponse × Database)
completed_at none db = panic
completed_at (some completed_at_sync) db = ok (completed completed_at_sync, db)

module _ (x : Primitives) where
  unfoldable pub handle_provider_complete_job_request :
      Database
      → PeerId
      → String
      → Option String
      → Option String
      → String
      → ℤ
      → Outcome ⊥ (ProviderCompleteJobResponse × Database)
  handle_provider_complete_job_request db provider_peer_id provider_job_id balance_delta
        private_payload public_payload now =
      elim (provider_complete_job x db provider_peer_id provider_job_id balance_delta
        private_payload public_payload now) [
          | ok (job_record, db') ↦ completed_at job_record.completed_at_sync db'
          | err ProviderCompleteJobError.job_not_found ↦
              ok (ProviderCompleteJobResponse.job_not_found, db)
          | err ProviderCompleteJobError.invalid_balance_delta ↦
              ok (ProviderCompleteJobResponse.invalid_balance_delta, db)
          | err (ProviderCompleteJobError.already_failed r c) ↦
              ok (ProviderCompleteJobResponse.already_failed r c, db)
          | err (ProviderCompleteJobError.already_completed t) ↦
              ok (ProviderCompleteJobResponse.already_completed t, db)
          | panic ↦ panic
        ]
