-- ===== src/P2p/Requests.antt =====
-- src/p2p/proto/request_response.rs, the handlers of src/p2p/reqres, and what the Consumer does with
-- the answer to a confirmation (`confirm_job` of src/p2p/job_confirmation_scheduler.rs).
-- A handler returns the response and the database. The new UUID, the clock, the answer of the
-- provider module and the texts made by `format!` are arguments.
pub mod Authorization
pub mod Confirm
pub mod Settle
mod Tests
use derouter.Base.{
  ℕ, String, Option, none, some, List, [], ◌∷◌, ◌==◌, text_eq, Outcome, ok, err, panic, ◌>>=◌,
  if◌then◌else◌,
}
use derouter.Base.Int.{ℤ}
use derouter.Dto.{PeerId, DateTime, Currency}
use derouter.State.{RpcEvent, job_updated}
use derouter.Db.{Database}
use derouter.Db.Jobs.{Primitives, find_by_job_id, create_job}
use derouter.Db.Jobs.ConfirmationError.{SetJobConfirmationErrorResult, set_job_confirmation_error}
use derouter.Db.Jobs.ConfirmationError
use derouter.Db.Jobs.Provider.{ProviderConfirmJobError, provider_confirm_job}
use derouter.Db.Jobs.Consumer.{ConsumerConfirmJobError, consumer_confirm_job}
use derouter.Db.Jobs.Unconfirmed.{UnconfirmedJob}
use derouter.Rpc.Provide.{ProviderState, ProvidedOffer, find_offer}

pub record CreateJobRequest : Type 0 where
  pub protocol_id : String
  pub offer_id : String
  pub offer_payload : String
  pub currency : Currency
  pub job_args : Option String

pub record ConfirmJobRequest : Type 0 where
  pub provider_job_id : String
  pub job_hash : List ℕ
  pub consumer_public_key : List ℕ
  pub consumer_signature : List ℕ

pub data CreateJobResponse : Type 0 where
  created : String → ℤ → CreateJobResponse
  offer_not_found offer_payload_mismatch busy : CreateJobResponse
  invalid_job_args : String → CreateJobResponse

pub data GetJobResponse : Type 0 where
  found : Option String → Option String → ℤ → Option ℤ → GetJobResponse
  job_not_found : GetJobResponse

pub data ConfirmJobResponse : Type 0 where
  confirmed job_not_found not_completed_yet already_failed invalid_public_key invalid_signature
        already_confirmed unexpected_response :
      ConfirmJobResponse
  hash_mismatch : List ℕ → ConfirmJobResponse

-- The answer of the provider module (`ProviderCreateJobResponse`), another frame, or none, where the
-- module's connection has dropped the sender.
pub data ModuleAnswer : Type 0 where
  accepted busy unexpected dropped : ModuleAnswer
  invalid_job_args : String → ModuleAnswer

-- What the node answers to the request when the offer was found.
unfoldable pub create_for :
    Database
    → PeerId
    → CreateJobRequest
    → String
    → ℤ
    → DateTime
    → ProvidedOffer
    → ModuleAnswer
    → Outcome ⊥ (CreateJobResponse × Database)
create_for db from_peer_id request provider_job_id created_at_sync now offer answer =
    if offer.protocol_payload == request.offer_payload
    then (elim answer [
      | ModuleAnswer.accepted ↦ do
        (db', rowid) ←
            create_job db offer.snapshot_rowid from_peer_id request.currency request.job_args
              provider_job_id created_at_sync now
        ok (created provider_job_id created_at_sync, db')
      | ModuleAnswer.busy ↦ ok (CreateJobResponse.busy, db)
      | ModuleAnswer.invalid_job_args e ↦ ok (CreateJobResponse.invalid_job_args e, db)
      | ModuleAnswer.unexpected ↦ ok (CreateJobResponse.busy, db)
      | ModuleAnswer.dropped ↦ panic
    ])
    else ok (offer_payload_mismatch, db)

unfoldable pub handle_create_job_request :
    ProviderState
    → Database
    → PeerId
    → CreateJobRequest
    → String
    → ℤ
    → DateTime
    → ModuleAnswer
    → Outcome ⊥ (CreateJobResponse × Database)
unfolding create_for
handle_create_job_request provider db from_peer_id request provider_job_id created_at_sync now
      answer =
    do
      offer ← find_offer provider request.protocol_id request.offer_id
      elim offer [
        | none ↦ ok (offer_not_found, db)
        | some (module_id, o) ↦
            create_for db from_peer_id request provider_job_id created_at_sync now o answer
      ]

unfoldable pub handle_get_job_request : Database → PeerId → PeerId → String → GetJobResponse
handle_get_job_request db our_peer_id from_peer_id provider_job_id =
    elim (find_by_job_id db our_peer_id provider_job_id) [
      | none ↦ GetJobResponse.job_not_found
      | some job ↦
          if from_peer_id == job.consumer_peer_id
          then found job.public_payload job.balance_delta job.created_at_sync job.completed_at_sync
          else GetJobResponse.job_not_found
    ]

-- Stores the error of the job; `unreachable!` panics.
unfoldable pub store_error {ℓ} : {A : Type ℓ} → Database → ℕ → String → A → Outcome ⊥ (A × Database)
store_error db rowid error answer =
    let (result, db') = set_job_confirmation_error db rowid error in
    elim result [
      | ConfirmationError.ok ↦ ok (answer, db')
      | ConfirmationError.invalid_job_id ↦ panic
      | ConfirmationError.already_confirmed ↦ ok (answer, db')
    ]

module _ (x : Primitives) (mismatch_text : List ℕ → List ℕ → String) where
  -- What an error of `provider_confirm_job` is answered with.
  unfoldable pub answer_error :
      Database
      → ConfirmJobRequest
      → ProviderConfirmJobError
      → Outcome ⊥ (ConfirmJobResponse × Database)
  answer_error db request e = elim e [
    | ProviderConfirmJobError.job_not_found ↦ ok (ConfirmJobResponse.job_not_found, db)
    | ProviderConfirmJobError.consumer_peer_id_mismatch ↦ ok (ConfirmJobResponse.job_not_found, db)
    | ProviderConfirmJobError.already_confirmed ↦ ok (ConfirmJobResponse.already_confirmed, db)
    | ProviderConfirmJobError.already_failed ↦ ok (ConfirmJobResponse.already_failed, db)
    | ProviderConfirmJobError.not_completed_yet ↦ ok (ConfirmJobResponse.not_completed_yet, db)
    | ProviderConfirmJobError.public_key_decoding_failed ↦
        ok (ConfirmJobResponse.invalid_public_key, db)
    | ProviderConfirmJobError.hash_mismatch rowid expected ↦
        store_error db rowid (mismatch_text request.job_hash expected)
          (ConfirmJobResponse.hash_mismatch expected)
    | ProviderConfirmJobError.signature_verification_failed rowid ↦
        store_error db rowid "Signature verification failed" ConfirmJobResponse.invalid_signature
  ]

  unfoldable pub handle_confirm_job_request :
      Database
      → PeerId
      → PeerId
      → ConfirmJobRequest
      → DateTime
      → Outcome ⊥ (ConfirmJobResponse × Database)
  unfolding answer_error
  handle_confirm_job_request db our_peer_id from_peer_id request now =
      elim (provider_confirm_job x db from_peer_id our_peer_id request.provider_job_id
        request.job_hash request.consumer_public_key request.consumer_signature now) [
          | ok db' ↦ ok (confirmed, db')
          | err e ↦ answer_error db request e
          | panic ↦ panic
        ]

-- The Provider's answer to a request of the Consumer: another response, or none at all.
pub data Answer : Type 0 where
  confirm_job : ConfirmJobResponse → Answer
  other_response outbound_failure : Answer

module _ (debug_text : ConfirmJobResponse → String) where
  unfoldable pub confirm_job_answered :
      Database → UnconfirmedJob → DateTime → Answer → Outcome ⊥ (List RpcEvent × Database)
  unfolding store_error
  confirm_job_answered db job now outbound_failure = ok ([], db)
  confirm_job_answered db job now other_response =
      store_error db job.rowid (debug_text unexpected_response) []
  confirm_job_answered db job now (confirm_job confirmed) =
      elim (consumer_confirm_job db job.rowid now) [
        | ok (job_record, db') ↦ ok (job_updated job_record ∷ [], db')
        | err ConsumerConfirmJobError.invalid_job_id ↦ panic
        | err ConsumerConfirmJobError.not_signed_yet ↦ panic
        | err ConsumerConfirmJobError.already_confirmed ↦ ok ([], db)
        | panic ↦ panic
      ]
  confirm_job_answered db job now (confirm_job ConfirmJobResponse.already_confirmed) = ok ([], db)
  confirm_job_answered db job now (confirm_job response) =
      store_error db job.rowid (debug_text response) []
