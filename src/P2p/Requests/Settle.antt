-- ===== src/P2p/Requests/Settle.antt =====
-- What the Consumer does with the Provider's answer to a confirmation
-- (src/p2p/job_confirmation_scheduler.rs).
use derouter.Base.{
  String, ◌≡◌, ◌≢◌, inl, inr, sym, subst, none, some, arith, List, [], ◌∷◌, ok, err, panic,
  Outcome-cases, is_some, true, nat_eq, text_eq,
}
use derouter.Dto.{DateTime, JobRecord}
use derouter.State.{RpcEvent, job_updated}
use derouter.Db.{ServiceJobRow, Database}
use derouter.Db.Jobs.{row_by_rowid}
use derouter.Db.Jobs.Consumer.{
  ConsumerConfirmJobError, already_confirmed, consumer_confirm_job, set_confirmed,
}
use derouter.Db.Jobs.Unconfirmed.{UnconfirmedJob}
use derouter.Db.Jobs.Validity.{IsValidJobs}
use derouter.Db.Jobs.Preservation.{consumer_confirm_job_inv}
use derouter.Db.Jobs.Total.{consumer_confirm_job-ne-panic, confirmed_row}
use derouter.P2p.Requests.{
  ConfirmJobResponse, confirmed, Answer, confirm_job, other_response, outbound_failure, store_error,
  confirm_job_answered,
}
use derouter.P2p.Requests.Confirm.{store_error-ok}

module _ (debug_text : ConfirmJobResponse → String) (db : Database) (u : UnconfirmedJob)
    (now : DateTime) (v : IsValidJobs db) (j : ServiceJobRow)
    (there : row_by_rowid db u.rowid ≡ some j) (signed : is_some j.consumer_signature ≡ true) where
  -- The only error that the confirmation of a signed job can have.
  only_error :
      (b : ConsumerConfirmJobError)
      → consumer_confirm_job db u.rowid now ≡ err b
      → (b ≡ already_confirmed) × (is_some j.signature_confirmed_at_local ≡ true)
  unfolding consumer_confirm_job
  only_error b e = (ground (arith, e, there, signed), ground (arith, e, there, signed))

  -- A job that the Consumer has signed and not yet confirmed becomes confirmed when the Provider
  -- answers so: one event is sent for it, and its row has the time of the confirmation and no error.
  pub confirm_job_answered-settles :
      j.signature_confirmed_at_local ≡ none
      → (job : JobRecord) × ((db' : Database) × ((confirm_job_answered debug_text db u now
                (confirm_job confirmed)
              ≡ ok (job_updated job ∷ [], db'))
            × (row_by_rowid db' u.rowid ≡ some (set_confirmed now j))))
  unfolding confirm_job_answered
  confirm_job_answered-settles open_ = elim (Outcome-cases (consumer_confirm_job db u.rowid now)) [
    | inl ((job, db'), e) ↦ (
      job,
      (
        db',
        (
          ground (arith, e),
          subst (λ d. row_by_rowid d u.rowid ≡ some (set_confirmed now j))
              (sym (consumer_confirm_job_inv db db' u.rowid now job e))
              (confirmed_row db v u.rowid now j there),
        ),
      ),
    )
    | inr (inl (b, e)) ↦ absurd (ground (arith, only_error b e, open_))
    | inr (inr e) ↦ absurd (consumer_confirm_job-ne-panic db v u.rowid now e)
  ]

  not_stored : (error : String) → store_error {A = List RpcEvent} db u.rowid error [] ≢ panic
  not_stored error h =
      ground (arith, h, there, store_error-ok {A = List RpcEvent} db u.rowid error [])

  -- Whatever the Provider answers, or if nothing comes back at all, the Consumer does not panic on a
  -- job that it has signed.
  pub confirm_job_answered-ne-panic :
      (answer : Answer) → confirm_job_answered debug_text db u now answer ≢ panic
  unfolding confirm_job_answered
  confirm_job_answered-ne-panic outbound_failure h = ground (arith, h)
  confirm_job_answered-ne-panic other_response h = not_stored _ h
  confirm_job_answered-ne-panic (confirm_job confirmed) h =
      elim (Outcome-cases (consumer_confirm_job db u.rowid now)) [
        | inl ((job, db'), e) ↦ ground (arith, e, h)
        | inr (inl (b, e)) ↦ ground (arith, e, h, only_error b e)
        | inr (inr e) ↦ consumer_confirm_job-ne-panic db v u.rowid now e
      ]
  confirm_job_answered-ne-panic (confirm_job ConfirmJobResponse.job_not_found) h = not_stored _ h
  confirm_job_answered-ne-panic (confirm_job ConfirmJobResponse.not_completed_yet) h =
      not_stored _ h
  confirm_job_answered-ne-panic (confirm_job ConfirmJobResponse.already_failed) h = not_stored _ h
  confirm_job_answered-ne-panic (confirm_job ConfirmJobResponse.invalid_public_key) h =
      not_stored _ h
  confirm_job_answered-ne-panic (confirm_job ConfirmJobResponse.invalid_signature) h =
      not_stored _ h
  confirm_job_answered-ne-panic (confirm_job ConfirmJobResponse.unexpected_response) h =
      not_stored _ h
  confirm_job_answered-ne-panic (confirm_job (ConfirmJobResponse.hash_mismatch e)) h =
      not_stored _ h
  confirm_job_answered-ne-panic (confirm_job ConfirmJobResponse.already_confirmed) h =
      ground (arith, h)
