-- ===== src/Db/Jobs/Provider.antt =====
-- src/db/service_jobs/provider: the Provider completes a job, and confirms the Consumer's signature.
use derouter.Base.{
  ℕ, String, not, Option, none, some, List, ◌==◌, text_eq, bytes_eq, Outcome, ok, err, panic, ◌>>=◌,
  is_some, map_option, or_else, if◌then◌else◌,
}
use derouter.Base.Int.{ℤ}
use derouter.Dto.{PeerId, DateTime, code, JobRecord}
use derouter.Db.{ServiceJobRow, Database, update_job}
use derouter.Db.Jobs.{
  Primitives, JobHashingPayload, hash_job, row_by_job_id, find_by_rowid, find_by_job_id,
}
use derouter.Db.Jobs.Consumer.{bad_delta}

pub data ProviderCompleteJobError : Type 0 where
  job_not_found invalid_balance_delta : ProviderCompleteJobError
  already_completed : ℤ → ProviderCompleteJobError
  already_failed : String → Option ℤ → ProviderCompleteJobError

pub data ProviderConfirmJobError : Type 0 where
  job_not_found consumer_peer_id_mismatch not_completed_yet already_failed already_confirmed
        public_key_decoding_failed :
      ProviderConfirmJobError
  hash_mismatch : ℕ → List ℕ → ProviderConfirmJobError
  signature_verification_failed : ℕ → ProviderConfirmJobError

-- The SET clause of the completion.
abbrev pub set_completed :
    Option String → String → Option String → ℤ → ServiceJobRow → ServiceJobRow
set_completed delta public_payload private_payload completed_at_sync j = record j {
  balance_delta = delta;
  public_payload = some public_payload;
  private_payload = or_else private_payload j.private_payload;
  completed_at_sync = some completed_at_sync;
}

-- The SET clause of the confirmation.
abbrev pub set_verified : List ℕ → DateTime → ServiceJobRow → ServiceJobRow
set_verified signature now j = record j {
  consumer_signature = some signature;
  signature_confirmed_at_local = some now;
  confirmation_error = none;
}

-- `find_by_rowid(…).unwrap()`
unwrap_record :
    Database → Option JobRecord → Outcome ProviderCompleteJobError (JobRecord × Database)
unwrap_record db none = panic
unwrap_record db (some job) = ok (job, db)

-- `Option::unwrap`
abbrev unwrap {ℓ κ} : {E : Type ℓ} {A : Type κ} → Option A → Outcome E A
unwrap none = panic
unwrap (some a) = ok a

module _ (x : Primitives) where
  -- The checks on the job before the update; the rowid of a job that may be completed.
  may_complete : Option String → Option ServiceJobRow → Outcome ProviderCompleteJobError ℕ
  may_complete delta none = err job_not_found
  may_complete delta (some job) = elim job.reason [
    | some reason ↦ err (already_failed reason job.reason_class)
    | none ↦ elim job.completed_at_sync [
      | some completed_at_sync ↦ err (already_completed completed_at_sync)
      | none ↦ if bad_delta x delta job.currency then err invalid_balance_delta else ok job.rowid
    ]
  ]

  -- `now` is the clock's timestamp, which becomes `completed_at_sync`.
  unfoldable pub provider_complete_job :
      Database
      → PeerId
      → String
      → Option String
      → Option String
      → String
      → ℤ
      → Outcome ProviderCompleteJobError (JobRecord × Database)
  unfolding may_complete unwrap_record
  provider_complete_job db provider id balance_delta private_payload public_payload now =
      elim (may_complete balance_delta (row_by_job_id db provider id)) [
        | ok rowid ↦
            let db' =
              update_job rowid (set_completed balance_delta public_payload private_payload now)
                db in
            unwrap_record db' (find_by_rowid db' rowid)
        | err e ↦ err e
        | panic ↦ panic
      ]

  -- The checks on the job before its hash is computed.
  checked : PeerId → Option JobRecord → Outcome ProviderConfirmJobError JobRecord
  checked consumer none = err job_not_found
  checked consumer (some job) =
      if not (job.consumer_peer_id == consumer)
      then err consumer_peer_id_mismatch
      else if is_some job.signature_confirmed_at_local
      then err already_confirmed
      else if not (is_some job.completed_at_sync)
      then err not_completed_yet
      else if is_some job.reason
      then err already_failed
      else ok job

  -- The payload that the Provider hashes. It encodes the stored balance delta to hex, and takes the
  -- job ID from the request.
  abbrev pub provider_payload : JobRecord → String → String → ℤ → JobHashingPayload
  provider_payload job id public_payload completed_at_sync = record {
    consumer_peer_id = job.consumer_peer_id;
    provider_peer_id = job.provider_peer_id;
    protocol_id = job.offer_protocol_id;
    offer_payload = job.offer_payload;
    currency = code job.currency;
    provider_job_id = id;
    job_created_at_sync = job.created_at_sync;
    job_public_payload = public_payload;
    job_completed_at_sync = completed_at_sync;
    balance_delta = map_option x.hex_encode job.balance_delta;
  }

  expected_hash : String → JobRecord → Outcome ProviderConfirmJobError (List ℕ)
  expected_hash id job = do
    public_payload ← unwrap job.public_payload
    completed_at_sync ← unwrap job.completed_at_sync
    ok (hash_job x (provider_payload job id public_payload completed_at_sync))

  -- The comparison of the hashes, and the check of the signature by the Consumer's key.
  verified : ℕ → List ℕ → List ℕ → List ℕ → List ℕ → Outcome ProviderConfirmJobError (Unit {0})
  verified rowid job_hash expected public_key signature =
      if not (job_hash == expected)
      then err (hash_mismatch rowid expected)
      else elim (x.try_decode_protobuf public_key) [
        | none ↦ err public_key_decoding_failed
        | some key ↦
            if x.verify key job_hash signature
            then ok tt
            else err (signature_verification_failed rowid)
      ]

  unfoldable pub provider_confirm_job :
      Database
      → PeerId
      → PeerId
      → String
      → List ℕ
      → List ℕ
      → List ℕ
      → DateTime
      → Outcome ProviderConfirmJobError Database
  unfolding checked expected_hash verified
  provider_confirm_job db consumer provider id job_hash public_key signature now = do
    job ← checked consumer (find_by_job_id db provider id)
    expected ← expected_hash id job
    _ ← verified job.job_rowid job_hash expected public_key signature
    ok (update_job job.job_rowid (set_verified signature now) db)
