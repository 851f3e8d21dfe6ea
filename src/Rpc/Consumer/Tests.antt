-- ===== src/Rpc/Consumer/Tests.antt =====
-- Runs of the requests of a client that buys jobs (src/rpc/procedure/consumer).
use derouter.Base.{
  ◌≡◌, refl, true, none, some, [], ◌∷◌, arith, ok, find_first, nat_eq, text_eq, ◌==◌, update_where,
}
use derouter.Base.Int.{pos}
use derouter.Base.Maps.{lookup, nested}
use derouter.Dto.{Currency}
use derouter.Db.{Database, OfferSnapshotRow, update_job}
use derouter.Db.Offers.{to_snapshot}
use derouter.Db.Jobs.{row_by_job_id, create_job, new_job, validate_balance_delta, find_by_rowid}
use derouter.P2p.Requests.{created, accepted, handle_create_job_request, create_for}
use derouter.Rpc.Provide.{find_offer}
use derouter.Rpc.Provide.Tests.{providing, stored}
use derouter.Db.Jobs.Completion.{UniqueJobs}
use derouter.Db.Jobs.Provider.{set_completed, provider_complete_job}
use derouter.Db.Jobs.Tests.{plain, job, one_job}
use derouter.Rpc.Settle.{completed, handle_provider_complete_job_request}
use derouter.Rpc.Consumer.Complete.{ask_job, get_job-complete_job}
use derouter.Rpc.Consumer.{
  handle_consumer_get_job_request, job_state, request_for, handle_consumer_create_job_request,
}
use derouter.Rpc.Consumer.Create.{IsRecorded, IsOnBothSides, ask_provider, create_job-IsOnBothSides}

abbrev snapshot : OfferSnapshotRow
snapshot = record {
  rowid = 1;
  provider_peer_id = "me";
  protocol_id = "openai";
  offer_id = "gpt";
  protocol_payload = "new";
  active = true;
}

abbrev with_job : Database
with_job = record stored {
  service_jobs = new_job 1 1 "consumer" Currency.polygon none "job" (pos 5) (pos 6) ∷ [];
}

stored_there :
    find_first (λ (r : OfferSnapshotRow). r.rowid == 1) stored.offer_snapshots ≡ some snapshot
unfolding find_first
stored_there = refl

recorded : IsRecorded providing stored "me" "openai" "gpt" snapshot
unfolding find_offer nested lookup find_first
recorded m o h = ground (arith, h)

no_job : row_by_job_id stored "me" "job" ≡ none
unfolding find_first
no_job = refl

created_there :
    handle_create_job_request providing stored "consumer"
      (request_for (to_snapshot snapshot) Currency.polygon none)
      "job"
      (pos 5)
      (pos 6)
      accepted
    ≡ ok (created "job" (pos 5), with_job)
unfolding handle_create_job_request create_for find_offer nested lookup create_job find_first
created_there = refl

create_job-IsOnBothSides_example : IsOnBothSides with_job "me" "job" snapshot snapshot (
    handle_consumer_create_job_request
      (ask_provider providing stored "consumer" "me" "job" (pos 5) (pos 6) accepted stored)
      stored
      "consumer"
      1
      Currency.polygon
      none
      (pos 7))
create_job-IsOnBothSides_example =
    create_job-IsOnBothSides providing stored with_job stored stored "consumer" "me" 1
      Currency.polygon none "job" (pos 5) (pos 6) (pos 7) accepted snapshot snapshot snapshot
      stored_there refl refl stored_there (refl, (refl, refl)) recorded no_job no_job created_there

one_id : UniqueJobs one_job
unfolding find_first
one_id = (refl, tt)

abbrev completed_job : Database
completed_job = record one_job {
  service_jobs = set_completed (some "10") "result" none (pos 7) job ∷ [];
}

completes :
    handle_provider_complete_job_request plain one_job "provider" "job"
      (some "10")
      none
      "result"
      (pos 7)
    ≡ ok (completed (pos 7), completed_job)
unfolding handle_provider_complete_job_request provider_complete_job find_first
    validate_balance_delta find_by_rowid update_job update_where
completes = refl

job_there : row_by_job_id one_job "provider" "job" ≡ some job
unfolding find_first
job_there = refl

get_job-complete_job_example :
    (pos 7 ≡ pos 7)
    × (handle_consumer_get_job_request
          (ask_job completed_job "provider" "consumer")
          "provider"
          "job"
        ≡ job_state (some "result") (some "10") job.created_at_sync (some (pos 7)))
get_job-complete_job_example =
    get_job-complete_job plain one_job completed_job "provider" "consumer" "job" (some "10") none
      "result" (pos 7) (pos 7) job one_id job_there refl completes
