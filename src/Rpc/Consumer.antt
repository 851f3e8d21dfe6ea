-- ===== src/Rpc/Consumer.antt =====
-- src/rpc/procedure/consumer/create_job.rs, get_job.rs and complete_job.rs: what a connection does
-- for a client that buys jobs. A handler returns the response that stands in the frame it sends. The
-- answer of the Provider, the clock and the signing of a hash are arguments.
pub mod Create
pub mod Complete
mod Tests
use derouter.Base.{
  ℕ, String, Bool, true, false, not, Option, none, some, List, [], ◌∷◌, ◌⊎◌, inl, inr, Outcome, ok,
  err, panic, ◌>>=◌, if◌then◌else◌,
}
use derouter.Base.Int.{ℤ}
use derouter.Dto.{PeerId, DateTime, Currency, OfferSnapshot}
use derouter.State.{RpcEvent, job_updated}
use derouter.Db.{Database}
use derouter.Db.Offers
use derouter.Db.Jobs
use derouter.Db.Jobs.{Primitives}
use derouter.Db.Jobs.Consumer.{ConsumerCompleteJobError, consumer_complete_job}
use derouter.P2p.Requests.{CreateJobRequest, CreateJobResponse, GetJobResponse, ConfirmJobResponse}

-- src/p2p/reqres.rs: a response of the peer, or the failure of the request.
pub data Reply : Type 0 where
  create_job : CreateJobResponse → Reply
  get_job : GetJobResponse → Reply
  confirm_job : ConfirmJobResponse → Reply
  outbound_failure : Reply

pub data ConsumerCreateJobResponse : Type 0 where
  created_by : PeerId → String → ConsumerCreateJobResponse
  local_offer_not_found provider_unreacheable provider_invalid_response provider_offer_not_found
        provider_offer_payload_mismatch provider_busy :
      ConsumerCreateJobResponse
  invalid_job_args : String → ConsumerCreateJobResponse

-- The request that is sent to the Provider of the snapshot.
abbrev pub request_for : OfferSnapshot → Currency → Option String → CreateJobRequest
request_for snapshot currency job_args = record {
  protocol_id = snapshot.protocol_id;
  offer_id = snapshot.offer_id;
  offer_payload = snapshot.protocol_payload;
  currency = currency;
  job_args = job_args;
}

-- The task that waits for the answer; `db` is the database when the answer comes.
unfoldable pub create_job_answered :
    Database
    → PeerId
    → ℕ
    → OfferSnapshot
    → Currency
    → Option String
    → DateTime
    → Reply
    → Outcome ⊥ (ConsumerCreateJobResponse × Database)
create_job_answered db consumer snapshot_id snapshot currency job_args now reply = elim reply [
  | create_job (CreateJobResponse.created job_id created_at_sync) ↦ do
    (db', rowid) ←
        Jobs.create_job db snapshot_id consumer currency job_args job_id created_at_sync now
    ok (created_by snapshot.provider_peer_id job_id, db')
  | create_job CreateJobResponse.offer_not_found ↦ ok (provider_offer_not_found, db)
  | create_job CreateJobResponse.offer_payload_mismatch ↦ ok (provider_offer_payload_mismatch, db)
  | create_job (CreateJobResponse.invalid_job_args e) ↦
      ok (ConsumerCreateJobResponse.invalid_job_args e, db)
  | create_job CreateJobResponse.busy ↦ ok (provider_busy, db)
  | get_job answer ↦ ok (provider_invalid_response, db)
  | confirm_job answer ↦ ok (provider_invalid_response, db)
  | outbound_failure ↦ ok (provider_unreacheable, db)
]

-- `ask` sends a request to a peer and gives the answer, with the database at that time.
unfoldable pub handle_consumer_create_job_request :
    (PeerId → CreateJobRequest → Reply × Database)
    → Database
    → PeerId
    → ℕ
    → Currency
    → Option String
    → DateTime
    → Outcome ⊥ (ConsumerCreateJobResponse × Database)
handle_consumer_create_job_request ask db consumer snapshot_id currency job_args now =
    elim (Offers.find db snapshot_id) [
      | none ↦ ok (local_offer_not_found, db)
      | some snapshot ↦
          if not snapshot.active
          then ok (local_offer_not_found, db)
          else (let (reply, later) =
                ask snapshot.provider_peer_id (request_for snapshot currency job_args) in
              create_job_answered later consumer snapshot_id snapshot currency job_args now reply)
    ]

pub data ConsumerGetJobResponse : Type 0 where
  job_state : Option String → Option String → ℤ → Option ℤ → ConsumerGetJobResponse
  provider_unreacheable job_not_found : ConsumerGetJobResponse

unfoldable pub handle_consumer_get_job_request :
    (PeerId → String → Reply) → PeerId → String → ConsumerGetJobResponse
handle_consumer_get_job_request ask provider_peer_id provider_job_id =
    elim (ask provider_peer_id provider_job_id) [
      | get_job
            (GetJobResponse.found public_payload balance_delta created_at_sync completed_at_sync) ↦
          job_state public_payload balance_delta created_at_sync completed_at_sync
      | get_job GetJobResponse.job_not_found ↦ ConsumerGetJobResponse.job_not_found
      | create_job answer ↦ ConsumerGetJobResponse.provider_unreacheable
      | confirm_job answer ↦ ConsumerGetJobResponse.provider_unreacheable
      | outbound_failure ↦ ConsumerGetJobResponse.provider_unreacheable
    ]

pub data ConsumerCompleteJobResponse : Type 0 where
  completed invalid_job_id invalid_consumer_peer_id already_completed invalid_balance_delta :
      ConsumerCompleteJobResponse
  already_failed : String → Option ℤ → ConsumerCompleteJobResponse

-- The response, the database, the event, and whether `job_completion_notify` wakes its waiters.
pub record Completed : Type 0 where
  pub response : ConsumerCompleteJobResponse
  pub db : Database
  pub events : List RpcEvent
  pub notified : Bool

abbrev pub refused : Database → ConsumerCompleteJobResponse → Completed
refused db response = record { response = response; db = db; events = []; notified = false }

module _ (x : Primitives) where
  unfoldable pub handle_consumer_complete_job_request :
      Database
      → PeerId
      → PeerId
      → String
      → Option String
      → String
      → Option String
      → ℤ
      → (List ℕ → List ℕ)
      → DateTime
      → Outcome ⊥ Completed
  handle_consumer_complete_job_request db our_peer_id provider_peer_id provider_job_id balance_delta
        public_payload private_payload completed_at_sync sign now =
      elim (consumer_complete_job x db our_peer_id provider_peer_id provider_job_id balance_delta
        public_payload private_payload completed_at_sync sign now) [
          | ok (job_record, db') ↦ ok (record {
            response = completed;
            db = db';
            events = job_updated job_record ∷ [];
            notified = true;
          })
          | err ConsumerCompleteJobError.invalid_job_id ↦
              ok (refused db ConsumerCompleteJobResponse.invalid_job_id)
          | err ConsumerCompleteJobError.consumer_peer_id_mismatch ↦
              ok (refused db invalid_consumer_peer_id)
          | err (ConsumerCompleteJobError.already_failed reason reason_class) ↦
              ok (refused db (ConsumerCompleteJobResponse.already_failed reason reason_class))
          | err ConsumerCompleteJobError.already_completed ↦
              ok (refused db ConsumerCompleteJobResponse.already_completed)
          | err ConsumerCompleteJobError.invalid_balance_delta ↦
              ok (refused db ConsumerCompleteJobResponse.invalid_balance_delta)
          | panic ↦ panic
        ]
