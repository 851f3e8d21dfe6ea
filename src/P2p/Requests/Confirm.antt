-- ===== src/P2p/Requests/Confirm.antt =====
-- The confirmation of a job over the network: the Provider's answer (src/p2p/reqres/confirm_job.rs)
-- and what the Consumer does with it (src/p2p/job_confirmation_scheduler.rs).
use derouter.Base.{
  ℕ, String, ◌≡◌, ◌≢◌, ◌↔◌, inl, inr, refl, arith, List, ok, err, Outcome-cases, Option-cases,
  is_some, true, nat_eq, text_eq,
}
use derouter.Dto.{PeerId, DateTime}
use derouter.Db.{ServiceJobRow, Database}
use derouter.Db.Rowids.{by_id-found}
use derouter.Db.Jobs.{Primitives, is_job, row_by_rowid, row_by_job_id}
use derouter.Db.Jobs.ConfirmationError.{set_job_confirmation_error}
use derouter.Db.Jobs.Lookup.{row_snapshot, find_by_job_id_lem, find_by_job_id-missing}
use derouter.Db.Jobs.Provider.{ProviderConfirmJobError, provider_confirm_job}
use derouter.Db.Jobs.Validity.{IsValidJobs}
use derouter.Db.Jobs.Total.{provider_confirm_job-ne-panic}
use derouter.P2p.Requests.{
  ConfirmJobRequest, ConfirmJobResponse, confirmed, store_error, answer_error,
  handle_confirm_job_request,
}

-- An error is stored for a row that is there.
pub store_error-ok {ℓ} :
    {A : Type ℓ} (db : Database) (rowid : ℕ) (error : String) (a : A)
    → is_some (row_by_rowid db rowid) ≡ true
    → store_error db rowid error a ≡ ok (a, (set_job_confirmation_error db rowid error).1)
unfolding store_error set_job_confirmation_error
store_error-ok db rowid error a h = elim (Option-cases (row_by_rowid db rowid)) [
  | inl e ↦ absurd (ground (arith, e, h))
  | inr (j, e) ↦ ground (arith, e)
]

-- The rowid that an error of the check carries is that of a row.
mismatch_names :
    (x : Primitives) (db : Database) (consumer provider : PeerId) (id : String)
    (hash key signature : List ℕ) (now : DateTime) (rowid : ℕ) (expected : List ℕ)
    → IsValidJobs db
    → provider_confirm_job x db consumer provider id hash key signature now
      ≡ err (ProviderConfirmJobError.hash_mismatch rowid expected)
    → is_some (row_by_rowid db rowid) ≡ true
unfolding provider_confirm_job
mismatch_names x db consumer provider id hash key signature now rowid expected v h =
    elim (Option-cases (row_by_job_id db provider id)) [
      | inl n ↦ absurd (ground (arith, n, find_by_job_id-missing db provider id n))
      | inr (j, f) ↦
          let (s, g, _, _) = row_snapshot db provider id j f in
          let row =
            by_id-found (λ (r : ServiceJobRow). r.rowid) (is_job db provider id) db.service_jobs j
              v.unique f in
          ground (arith, find_by_job_id_lem db provider id j s f g, row)
    ]

signature_names :
    (x : Primitives) (db : Database) (consumer provider : PeerId) (id : String)
    (hash key signature : List ℕ) (now : DateTime) (rowid : ℕ)
    → IsValidJobs db
    → provider_confirm_job x db consumer provider id hash key signature now
      ≡ err (ProviderConfirmJobError.signature_verification_failed rowid)
    → is_some (row_by_rowid db rowid) ≡ true
unfolding provider_confirm_job
signature_names x db consumer provider id hash key signature now rowid v h =
    elim (Option-cases (row_by_job_id db provider id)) [
      | inl n ↦ absurd (ground (arith, n, find_by_job_id-missing db provider id n))
      | inr (j, f) ↦
          let (s, g, _, _) = row_snapshot db provider id j f in
          let row =
            by_id-found (λ (r : ServiceJobRow). r.rowid) (is_job db provider id) db.service_jobs j
              v.unique f in
          ground (arith, find_by_job_id_lem db provider id j s f g, row)
    ]

-- Every error of the check is answered, and not by a confirmation.
answered :
    (x : Primitives) (mismatch_text : List ℕ → List ℕ → String) (db : Database)
    (from_peer_id our_peer_id : PeerId) (request : ConfirmJobRequest) (now : DateTime)
    (e : ProviderConfirmJobError)
    → IsValidJobs db
    → provider_confirm_job x db from_peer_id our_peer_id request.provider_job_id request.job_hash
        request.consumer_public_key request.consumer_signature now
      ≡ err e
    → (response : ConfirmJobResponse) × ((db' : Database) × ((answer_error x mismatch_text db
              request e
            ≡ ok (response, db'))
          × (response ≢ confirmed)))
unfolding answer_error
answered x mismatch_text db from our request now ProviderConfirmJobError.job_not_found v h =
    (ConfirmJobResponse.job_not_found, (db, (refl, λ c. ground (arith, c))))
answered x mismatch_text db from our request now ProviderConfirmJobError.consumer_peer_id_mismatch v
      h =
    (ConfirmJobResponse.job_not_found, (db, (refl, λ c. ground (arith, c))))
answered x mismatch_text db from our request now ProviderConfirmJobError.not_completed_yet v h =
    (ConfirmJobResponse.not_completed_yet, (db, (refl, λ c. ground (arith, c))))
answered x mismatch_text db from our request now ProviderConfirmJobError.already_failed v h =
    (ConfirmJobResponse.already_failed, (db, (refl, λ c. ground (arith, c))))
answered x mismatch_text db from our request now ProviderConfirmJobError.already_confirmed v h =
    (ConfirmJobResponse.already_confirmed, (db, (refl, λ c. ground (arith, c))))
answered x mismatch_text db from our request now ProviderConfirmJobError.public_key_decoding_failed
      v h =
    (ConfirmJobResponse.invalid_public_key, (db, (refl, λ c. ground (arith, c))))
answered x mismatch_text db from our request now
      (ProviderConfirmJobError.hash_mismatch rowid expected) v h =
    (
      ConfirmJobResponse.hash_mismatch expected,
      (
        _,
        (
          store_error-ok db rowid (mismatch_text request.job_hash expected)
              (ConfirmJobResponse.hash_mismatch expected)
              (mismatch_names x db from our request.provider_job_id request.job_hash
                request.consumer_public_key request.consumer_signature now rowid expected v h),
          λ c. ground (arith, c),
        ),
      ),
    )
answered x mismatch_text db from our request now
      (ProviderConfirmJobError.signature_verification_failed rowid) v h =
    (
      ConfirmJobResponse.invalid_signature,
      (
        _,
        (
          store_error-ok db rowid "Signature verification failed"
              ConfirmJobResponse.invalid_signature
              (signature_names x db from our request.provider_job_id request.job_hash
                request.consumer_public_key request.consumer_signature now rowid v h),
          λ c. ground (arith, c),
        ),
      ),
    )

-- On a valid table the handler of a confirmation never panics: it answers each of the errors too. It
-- answers that the job is confirmed exactly where `provider_confirm_job` accepts the signature.
pub handle_confirm_job-exact :
    (x : Primitives) (mismatch_text : List ℕ → List ℕ → String) (db : Database)
    (our_peer_id from_peer_id : PeerId) (request : ConfirmJobRequest) (now : DateTime)
    → IsValidJobs db
    → (response : ConfirmJobResponse) × ((db' : Database) × ((handle_confirm_job_request x
              mismatch_text db our_peer_id from_peer_id request now
            ≡ ok (response, db'))
          × ((response ≡ confirmed) ↔ (
              provider_confirm_job x db from_peer_id our_peer_id request.provider_job_id
                request.job_hash request.consumer_public_key request.consumer_signature now
              ≡ ok db'))))
unfolding handle_confirm_job_request
handle_confirm_job-exact x mismatch_text db our_peer_id from_peer_id request now v =
    elim (Outcome-cases (
      provider_confirm_job x db from_peer_id our_peer_id request.provider_job_id request.job_hash
        request.consumer_public_key request.consumer_signature now)) [
          | inl (db', e) ↦ (confirmed, (db', (ground (arith, e), ground (arith, e))))
          | inr (inr e) ↦ absurd (
              provider_confirm_job-ne-panic db v x from_peer_id our_peer_id request.provider_job_id
                request.job_hash request.consumer_public_key request.consumer_signature now e)
          | inr (inl (b, e)) ↦
              let (response, (db', (a, other))) =
                answered x mismatch_text db from_peer_id our_peer_id request now b v e in
              (response, (db', (ground (arith, e, a), ground (arith, e, other))))
        ]
