-- ===== src/P2p/Requests/Tests.antt =====
-- Runs of the handlers of src/p2p/reqres and of the Consumer's confirmation.
use derouter.Base.{
  ==_iff, ℕ, String, ◌≡◌, ◌≢◌, ◌⊎◌, ◌↔◌, refl, none, some, List, [], ◌∷◌, arith, ok, find_first,
  nat_eq, text_eq,
}
use derouter.Base.Int.{pos}
use derouter.Base.Maps.{lookup, nested}
use derouter.Dto.{Currency}
use derouter.Db.{Database}
use derouter.Db.Jobs.{find_by_job_id, to_record, create_job}
use derouter.Db.Jobs.Provider.{provider_confirm_job}
use derouter.Db.Jobs.Tests.{
  plain, sign, offer, job, one_job, no_jobs, job_hash, signed_db, signed_db-IsValidJobs,
}
use derouter.Rpc.Provide.{ProviderState, ProvidedOffer, find_offer}
use derouter.P2p.Requests.{
  CreateJobRequest, CreateJobResponse, ConfirmJobRequest, ConfirmJobResponse, confirmed,
  GetJobResponse, accepted, handle_create_job_request, create_for, handle_get_job_request,
  handle_confirm_job_request,
}
use derouter.P2p.Requests.Authorization.{
  stranger_learns_nothing, handle_create_job-exact, IsAccepted,
}
use derouter.P2p.Requests.Confirm.{handle_confirm_job-exact}

abbrev request : ConfirmJobRequest
request = record {
  provider_job_id = "job";
  job_hash = job_hash;
  consumer_public_key = [];
  consumer_signature = sign job_hash;
}

abbrev mismatch : List ℕ → List ℕ → String
mismatch got expected = "Hash mismatch"

is_there : find_by_job_id one_job "provider" "job" ≡ some (to_record job offer)
unfolding find_by_job_id find_first
is_there = refl

another_peer : job.consumer_peer_id ≢ "stranger"
another_peer h = ground (arith, h, ==_iff {A = String} "consumer" "stranger")

stranger_learns_nothing_example :
    (handle_get_job_request one_job "provider" "stranger" "job" ≡ GetJobResponse.job_not_found)
    × (handle_confirm_job_request plain mismatch one_job "provider" "stranger" request (pos 9)
        ≡ ok (ConfirmJobResponse.job_not_found, one_job))
stranger_learns_nothing_example =
    stranger_learns_nothing plain mismatch one_job "provider" "stranger" request (pos 9)
      (to_record job offer) is_there another_peer

abbrev provider : ProviderState
provider = record {
  module_ids_counter = 1;
  modules =
      (
        0,
        record {
          offers =
              ("openai", ("gpt", record { snapshot_rowid = 1; protocol_payload = "{}" }) ∷ []) ∷ [];
        },
      )
      ∷ [];
  offers_module_map = ("openai", ("gpt", 0) ∷ []) ∷ [];
  last_updated_at = pos 1;
}

abbrev create_request : CreateJobRequest
create_request = record {
  protocol_id = "openai";
  offer_id = "gpt";
  offer_payload = "{}";
  currency = Currency.polygon;
  job_args = none;
}

creates :
    handle_create_job_request provider no_jobs "consumer" create_request "job"
      (pos 5)
      (pos 6)
      accepted
    ≡ ok (CreateJobResponse.created "job" (pos 5), one_job)
unfolding handle_create_job_request create_for find_offer nested lookup create_job find_first
creates = refl

handle_create_job-exact_example :
    ((module_id : ℕ) × ((o : ProvidedOffer) × ((rowid : ℕ) × ((find_offer provider "openai" "gpt"
              ≡ ok (some (module_id, o)))
            × ((o.protocol_payload ≡ "{}")
                × ((accepted ≡ accepted)
                    × ((CreateJobResponse.created "job" (pos 5)
                          ≡ CreateJobResponse.created "job" (pos 5))
                        × (create_job no_jobs o.snapshot_rowid "consumer" Currency.polygon none
                              "job"
                              (pos 5)
                              (pos 6)
                            ≡ ok (one_job, rowid)))))))))
    ⊎ (¬ (IsAccepted provider create_request accepted)
        × ((CreateJobResponse.created "job" (pos 5) ≢ CreateJobResponse.created "job" (pos 5))
            × (one_job ≡ no_jobs)))
handle_create_job-exact_example =
    handle_create_job-exact provider no_jobs "consumer" create_request "job" (pos 5) (pos 6)
      accepted (CreateJobResponse.created "job" (pos 5)) one_job creates

handle_confirm_job-exact_example :
    (response : ConfirmJobResponse) × ((db' : Database) × ((handle_confirm_job_request plain
            mismatch signed_db "provider" "consumer" request
            (pos 9)
          ≡ ok (response, db'))
        × ((response ≡ confirmed) ↔ (
            provider_confirm_job plain signed_db "consumer" "provider" "job" job_hash []
              (sign job_hash)
              (pos 9)
            ≡ ok db'))))
handle_confirm_job-exact_example =
    handle_confirm_job-exact plain mismatch signed_db "provider" "consumer" request (pos 9)
      signed_db-IsValidJobs
