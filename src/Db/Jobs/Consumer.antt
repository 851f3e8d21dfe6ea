-- ===== src/Db/Jobs/Consumer.antt =====
-- src/db/service_jobs/consumer: the Consumer completes and signs a job, and marks it as confirmed.
use derouter.Base.{
  ℕ, String, Bool, false, not, Option, none, some, List, ◌==◌, text_eq, Outcome, ok, err, panic,
  is_some, map_option, or_else, if◌then◌else◌,
}
use derouter.Base.Int.{ℤ}
use derouter.Dto.{PeerId, DateTime, Currency, code, JobRecord}
use derouter.Db.{ServiceJobRow, Database, update_job}
use derouter.Db.Jobs.{
  Primitives, JobHashingPayload, hash_job, validate_balance_delta, row_by_rowid, find_by_rowid,
  find_by_job_id,
}

pub data ConsumerCompleteJobError : Type 0 where
  invalid_job_id consumer_peer_id_mismatch already_completed invalid_balance_delta :
      ConsumerCompleteJobError
  already_failed : String → Option ℤ → ConsumerCompleteJobError

pub data ConsumerConfirmJobError : Type 0 where
  invalid_job_id not_signed_yet already_confirmed : ConsumerConfirmJobError

-- The SET clause of the completion.
abbrev pub set_signed :
    Option String
    → String
    → Option String
    → DateTime
    → ℤ
    → List ℕ
    → List ℕ
    → ServiceJobRow
    → ServiceJobRow
set_signed delta public_payload private_payload now completed_at_sync hash signature j = record j {
  balance_delta = delta;
  public_payload = some public_payload;
  private_payload = or_else private_payload j.private_payload;
  completed_at_local = some now;
  completed_at_sync = some completed_at_sync;
  hash = some hash;
  consumer_signature = some signature;
}

-- The SET clause of the confirmation.
abbrev pub set_confirmed : DateTime → ServiceJobRow → ServiceJobRow
set_confirmed now j = record j {
  signature_confirmed_at_local = some now;
  confirmation_error = none;
}

module _ (x : Primitives) where
  -- A balance delta is given and does not parse.
  abbrev pub bad_delta : Option String → Currency → Bool
  bad_delta none c = false
  bad_delta (some d) c = not (validate_balance_delta x d c)

  -- The checks on the job, in their order.
  checked : PeerId → Option String → Option JobRecord → Outcome ConsumerCompleteJobError JobRecord
  checked consumer delta none = err invalid_job_id
  checked consumer delta (some job) =
      if not (job.consumer_peer_id == consumer)
      then err consumer_peer_id_mismatch
      else elim job.reason [
        | some reason ↦ err (already_failed reason job.reason_class)
        | none ↦
            if is_some job.completed_at_local
            then err already_completed
            else if bad_delta delta job.currency
            then err invalid_balance_delta
            else ok job
      ]

  -- The payload that the Consumer hashes: `delta` is hex encoded already.
  abbrev pub consumer_payload : JobRecord → Option String → String → ℤ → JobHashingPayload
  consumer_payload job delta public_payload completed_at_sync = record {
    consumer_peer_id = job.consumer_peer_id;
    provider_peer_id = job.provider_peer_id;
    protocol_id = job.offer_protocol_id;
    offer_payload = job.offer_payload;
    currency = code job.currency;
    provider_job_id = job.provider_job_id;
    job_created_at_sync = job.created_at_sync;
    job_public_payload = public_payload;
    job_completed_at_sync = completed_at_sync;
    balance_delta = delta;
  }

  -- The record that the call returns: the one read before the update, with the new values.
  abbrev completed_record :
      Option String → String → Option String → DateTime → ℤ → JobRecord → JobRecord
  completed_record delta public_payload private_payload now completed_at_sync job = record job {
    balance_delta = delta;
    public_payload = some public_payload;
    private_payload = or_else private_payload job.private_payload;
    completed_at_local = some now;
    completed_at_sync = some completed_at_sync;
  }

  unfoldable pub consumer_complete_job :
      Database
      → PeerId
      → PeerId
      → String
      → Option String
      → String
      → Option String
      → ℤ
      → (List ℕ → List ℕ)
      → DateTime
      → Outcome ConsumerCompleteJobError (JobRecord × Database)
  unfolding checked
  consumer_complete_job db consumer provider id balance_delta public_payload private_payload
        completed_at_sync sign_fn now =
      elim (checked consumer balance_delta (find_by_job_id db provider id)) [
        | ok job ↦
            let delta = map_option x.hex_encode balance_delta in
            let hash = hash_job x (consumer_payload job delta public_payload completed_at_sync) in
            ok (
              completed_record delta public_payload private_payload now completed_at_sync job,
              update_job job.job_rowid
                  (set_signed delta public_payload private_payload now completed_at_sync hash
                    (sign_fn hash))
                  db,
            )
        | err e ↦ err e
        | panic ↦ panic
      ]

-- The checks on the job before the update.
may_confirm : Option ServiceJobRow → Outcome ConsumerConfirmJobError (Unit {0})
may_confirm none = err invalid_job_id
may_confirm (some job) =
    if is_some job.signature_confirmed_at_local
    then err already_confirmed
    else if is_some job.consumer_signature
    then ok tt
    else err not_signed_yet

-- `find_by_rowid(…).unwrap()`
unwrap_record : Database → Option JobRecord → Outcome ConsumerConfirmJobError (JobRecord × Database)
unwrap_record db none = panic
unwrap_record db (some job) = ok (job, db)

unfoldable pub consumer_confirm_job :
    Database → ℕ → DateTime → Outcome ConsumerConfirmJobError (JobRecord × Database)
unfolding may_confirm unwrap_record
consumer_confirm_job db job_rowid now = elim (may_confirm (row_by_rowid db job_rowid)) [
  | ok _ ↦
      let db' = update_job job_rowid (set_confirmed now) db in
      unwrap_record db' (find_by_rowid db' job_rowid)
  | err e ↦ err e
  | panic ↦ panic
]
