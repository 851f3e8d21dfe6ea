-- ===== src/P2p/Scheduler/Tests.antt =====
-- A run of the confirmation of a job (src/p2p/job_confirmation_scheduler.rs).
use derouter.Base.{
  ℕ, String, ◌≡◌, refl, none, some, List, [], find_first, update_where, nat_eq, text_eq,
}
use derouter.Base.Int.{pos}
use derouter.Db.{update_job}
use derouter.Db.Jobs.{row_by_rowid, row_by_job_id, to_record}
use derouter.Db.Jobs.Agreement.{SameJob}
use derouter.Db.Jobs.Unconfirmed.{UnconfirmedJob}
use derouter.Db.Jobs.Tests.{
  plain, sign, offer, job, one_job, job_hash, completed_row, completed_db, signed_row, signed_db,
  signed_db-IsValidJobs, provider_completes, consumer_completes, one_id, found, of_offer, verifies,
}
use derouter.P2p.Requests.{ConfirmJobResponse}
use derouter.P2p.Scheduler.{confirm_request, confirm_job}
use derouter.P2p.Scheduler.Settlement.{IsRowOf, Settles, ask_provider, completed_jobs_settle}

abbrev mismatch : List ℕ → List ℕ → String
mismatch got expected = "Hash mismatch"

abbrev debug : ConfirmJobResponse → String
debug response = "error"

abbrev unconfirmed : UnconfirmedJob
unconfirmed = record {
  rowid = 1;
  provider_peer_id = "provider";
  provider_job_id = "job";
  hash = job_hash;
  consumer_signature = sign job_hash;
}

signed_found : row_by_job_id signed_db "provider" "job" ≡ some signed_row
unfolding update_job update_where find_first
signed_found = refl

signed_there : row_by_rowid signed_db 1 ≡ some signed_row
unfolding update_job update_where find_first
signed_there = refl

same : SameJob job offer job offer
same = record {
  consumer = refl;
  provider = refl;
  protocol = refl;
  payload = refl;
  currency = refl;
  job_id = refl;
  created = refl;
}

is_row : IsRowOf unconfirmed "provider" "job" signed_row
is_row = record {
  rowid = refl;
  peer = refl;
  job_id = refl;
  hash = refl;
  signature = refl;
  unconfirmed = refl;
}

completed_jobs_settle_example :
    Settles plain mismatch completed_db "consumer" "provider" 1
      (confirm_request unconfirmed [])
      (pos 8)
      (pos 9)
      unconfirmed
      signed_row
      (confirm_job debug
        (ask_provider plain mismatch completed_db "provider" "consumer" (pos 8))
        signed_db
        unconfirmed
        []
        (pos 9))
completed_jobs_settle_example =
    completed_jobs_settle plain mismatch debug one_job one_job "consumer" "provider" "job" job offer
      job offer (some "10") "result" none none (pos 7) sign [] tt (pos 7) (pos 8) (pos 9)
      (to_record completed_row offer) (to_record signed_row offer) completed_db signed_db
      unconfirmed signed_row one_id found of_offer found of_offer same refl refl verifies
      provider_completes consumer_completes signed_db-IsValidJobs signed_found signed_there is_row
