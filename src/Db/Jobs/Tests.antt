-- ===== src/Db/Jobs/Tests.antt =====
-- Runs of the job operations of src/db/service_jobs on small databases.
use derouter.Base.{
  if◌then◌else◌, ℕ, String, ◌≡◌, ◌≢◌, refl, true, Option, none, some, List, [], ◌∷◌, ok, err,
  find_first, update_where, bytes_eq, ==_refl, ◌==◌, nat_eq, text_eq,
}
use derouter.Base.Int.{ℤ, pos}
use derouter.Dto.{PeerId, DateTime, Currency}
use derouter.Db.{OfferSnapshotRow, ServiceJobRow, Database, update_job}
use derouter.Db.Rowids.{HasUniqueIds}
use derouter.Db.Jobs.{
  Primitives, JobHashingPayload, validate_balance_delta, find_by_rowid, hash_job, row_by_job_id,
  find_by_job_id, snapshot_of, to_record, new_job, create_job,
}
use derouter.Db.Jobs.Fail.{already_failed, fail_job, set_failed}
use derouter.Db.Jobs.Consumer.{
  consumer_complete_job, consumer_payload, set_signed, consumer_confirm_job,
}
use derouter.Db.Jobs.Consumer
use derouter.Db.Jobs.Provider.{
  provider_complete_job, provider_confirm_job, provider_payload, set_completed, set_verified,
  already_confirmed,
}
use derouter.Db.Jobs.Provider
use derouter.Db.Jobs.Failure.{fail_job_final}
use derouter.Db.Jobs.Ambiguity.{hash_job_ambiguous}
use derouter.Db.Jobs.Stored.{
  Replaces, IsCompleted, provider_complete_job-stored, IsSigned, consumer_complete_job-stored,
}
use derouter.Db.Jobs.Confirmation.{provider_confirm_job-ok, confirmed_job_may_fail}
use derouter.Db.Jobs.Validity.{IsValidJobs}
use derouter.Db.Jobs.Steps.{create, consumer_complete, here, next}
use derouter.Db.Jobs.Preservation.{JobSteps-IsValidJobs}

-- A hash that is its input, and a signature that is the hash after a mark.
abbrev pub plain : Primitives
plain = record {
  sha256 = λ xs. xs;
  hex_encode = λ t. t;
  parse_u256 = λ t. true;
  PublicKey = Unit;
  try_decode_protobuf = λ xs. some tt;
  verify = λ key h s. s == 9 ∷ h;
  peer_id_bytes = λ p. 1 ∷ [];
  bytes = λ t. 2 ∷ [];
  decimal_bytes = λ n. 3 ∷ [];
}

abbrev pub sign : List ℕ → List ℕ
sign h = 9 ∷ h

abbrev pub offer : OfferSnapshotRow
offer = record {
  rowid = 1;
  provider_peer_id = "provider";
  protocol_id = "openai";
  offer_id = "gpt";
  protocol_payload = "{}";
  active = true;
}

abbrev pub job : ServiceJobRow
job = new_job 1 1 "consumer" Currency.polygon none "job" (pos 5) (pos 6)

abbrev pub one_job : Database
one_job = record { peers = []; offer_snapshots = offer ∷ []; service_jobs = job ∷ [] }

abbrev pub no_jobs : Database
no_jobs = record { peers = []; offer_snapshots = offer ∷ []; service_jobs = [] }

-- The Provider's side, after the completion and after the confirmation.
abbrev pub completed_row : ServiceJobRow
completed_row = set_completed (some "10") "result" none (pos 7) job

abbrev pub completed_db : Database
completed_db = update_job 1 (set_completed (some "10") "result" none (pos 7)) one_job

-- The hash that both sides compute.
abbrev pub job_hash : List ℕ
job_hash =
    hash_job plain (consumer_payload plain (to_record job offer) (some "10") "result" (pos 7))

abbrev confirmed_db : Database
confirmed_db = update_job 1 (set_verified (sign job_hash) (pos 8)) completed_db

-- The Consumer's side, after the completion.
abbrev pub signed_row : ServiceJobRow
signed_row = set_signed (some "10") "result" none (pos 7) (pos 7) job_hash (sign job_hash) job

abbrev pub signed_db : Database
signed_db =
    update_job 1 (set_signed (some "10") "result" none (pos 7) (pos 7) job_hash (sign job_hash))
      one_job

pub provider_completes :
    provider_complete_job plain one_job "provider" "job" (some "10") none "result" (pos 7)
    ≡ ok (to_record completed_row offer, completed_db)
unfolding provider_complete_job update_job find_first validate_balance_delta find_by_rowid
    update_where
provider_completes = refl

pub consumer_completes :
    consumer_complete_job plain one_job "consumer" "provider" "job"
      (some "10")
      "result"
      none
      (pos 7)
      sign
      (pos 7)
    ≡ ok (to_record signed_row offer, signed_db)
unfolding consumer_complete_job find_by_job_id find_first validate_balance_delta
consumer_completes = refl

provider_confirms :
    provider_confirm_job plain completed_db "consumer" "provider" "job" job_hash []
      (sign job_hash)
      (pos 8)
    ≡ ok confirmed_db
unfolding provider_confirm_job update_job hash_job find_by_job_id find_first update_where
provider_confirms = refl

pub one_id : HasUniqueIds (λ (j : ServiceJobRow). j.rowid) one_job.service_jobs
unfolding find_first
one_id = (refl, tt)

pub found : row_by_job_id one_job "provider" "job" ≡ some job
unfolding find_first
found = refl

pub of_offer : snapshot_of one_job job ≡ some offer
unfolding find_first
of_offer = refl

pub verifies : (h : List ℕ) → (sign h == 9 ∷ h) ≡ true
verifies h = ==_refl (sign h)

provider_complete_job-stored_example :
    (j : ServiceJobRow) × (j' : ServiceJobRow) × Replaces "provider" "job" one_job completed_db j j'
    × IsCompleted (some "10") none "result" (pos 7) j j'
    × (find_by_job_id completed_db "provider" "job" ≡ some (to_record completed_row offer))
provider_complete_job-stored_example =
    provider_complete_job-stored plain one_job "provider" "job" (some "10") none "result" (pos 7)
      (to_record completed_row offer) completed_db one_id provider_completes

consumer_complete_job-stored_example :
    (j : ServiceJobRow) × (j' : ServiceJobRow) × (s : OfferSnapshotRow) × Replaces "provider" "job"
      one_job signed_db j j'
    × (snapshot_of one_job j ≡ some s)
    × IsSigned plain "consumer" (some "10") none "result" (pos 7) sign (pos 7) s j j'
    × (find_by_job_id signed_db "provider" "job" ≡ some (to_record signed_row offer))
consumer_complete_job-stored_example =
    consumer_complete_job-stored plain one_job "consumer" "provider" "job" (some "10") "result" none
      (pos 7) sign (pos 7) (to_record signed_row offer) signed_db consumer_completes

provider_confirm_job-ok_example :
    (j : ServiceJobRow) × (s : OfferSnapshotRow) × (row_by_job_id completed_db "provider" "job"
      ≡ some j)
    × (snapshot_of completed_db j ≡ some s)
    × (j.consumer_peer_id ≡ "consumer")
    × (j.signature_confirmed_at_local ≡ none)
    × (j.reason ≡ none)
    × ((public_payload : String) × (completed_at_sync : ℤ) × (j.public_payload
          ≡ some public_payload)
        × (j.completed_at_sync ≡ some completed_at_sync)
        × (job_hash
            ≡ hash_job plain
                (provider_payload plain (to_record j s) "job" public_payload completed_at_sync)))
    × ((key : plain.PublicKey) × (plain.try_decode_protobuf [] ≡ some key)
        × (plain.verify key job_hash (sign job_hash) ≡ true))
    × (row_by_job_id confirmed_db "provider" "job" ≡ some (set_verified (sign job_hash) (pos 8) j))
provider_confirm_job-ok_example =
    provider_confirm_job-ok plain completed_db "consumer" "provider" "job" job_hash []
      (sign job_hash) (pos 8) confirmed_db provider_confirms

confirmed_job_may_fail_example :
    fail_job confirmed_db "provider" "job" "late" (some (pos 1)) none (pos 9)
    ≡ ok (update_job 1 (set_failed "late" (some (pos 1)) none (pos 9)) confirmed_db)
confirmed_job_may_fail_example =
    confirmed_job_may_fail plain one_job completed_db confirmed_db "consumer" "provider" "job"
      (some "10") none "result" (pos 7) (to_record completed_row offer) job_hash [] (sign job_hash)
      (pos 8) job "late" (some (pos 1)) none (pos 9) one_id found refl provider_completes
      provider_confirms

abbrev failed_db : Database
failed_db = update_job 1 (set_failed "no GPU" none none (pos 6)) one_job

fails : fail_job one_job "provider" "job" "no GPU" none none (pos 6) ≡ ok failed_db
unfolding fail_job find_first
fails = refl

fail_job_final_example :
    (j : ServiceJobRow) × (row_by_job_id failed_db "provider" "job" ≡ some j)
    × ((r : String) (c : Option ℤ) (p : Option String) (t : DateTime)
        → fail_job failed_db "provider" "job" r c p t ≡ err (already_failed "no GPU" none))
    × ((d p : Option String) (public_payload : String) (t : ℤ)
        → provider_complete_job plain failed_db "provider" "job" d p public_payload t
          ≡ err (Provider.already_failed "no GPU" none))
    × ((d : Option String) (public_payload : String) (p : Option String) (completed_at_sync : ℤ)
          (sign_fn : List ℕ → List ℕ) (t : DateTime)
        → consumer_complete_job plain failed_db j.consumer_peer_id "provider" "job" d public_payload
            p completed_at_sync sign_fn t
          ≡ err (Consumer.already_failed "no GPU" none))
    × ((consumer : PeerId) (h k s : List ℕ) (t : DateTime) (db'' : Database)
        → provider_confirm_job plain failed_db consumer "provider" "job" h k s t ≢ ok db'')
fail_job_final_example =
    fail_job_final plain one_job "provider" "job" "no GPU" none none (pos 6) failed_db fails

pub created :
    create_job no_jobs 1 "consumer" Currency.polygon none "job" (pos 5) (pos 6) ≡ ok (one_job, 1)
unfolding create_job find_first
created = refl

no_jobs-IsValidJobs : IsValidJobs no_jobs
no_jobs-IsValidJobs = record { unique = tt; valid = tt }

JobSteps-IsValidJobs_example : IsValidJobs signed_db
JobSteps-IsValidJobs_example =
    JobSteps-IsValidJobs {x = plain} {db = no_jobs} {db' = signed_db} no_jobs-IsValidJobs (
      next (next here (create 1 "consumer" Currency.polygon none "job" (pos 5) (pos 6) 1 created)) (
        consumer_complete "consumer" "provider" "job" (some "10") "result" none (pos 7) sign (pos 7)
          (to_record signed_row offer) consumer_completes))

pub signed_db-IsValidJobs : IsValidJobs signed_db
unfolding update_job update_where find_first
signed_db-IsValidJobs = record {
  unique = one_id;
  valid =
      (record { offered = refl; hashed = λ _. refl; described = λ _. refl; timed = λ _. refl }, tt);
}

-- Two signed jobs, which SQLite visits in the other order.
abbrev two_signed : Database
two_signed = record signed_db {
  service_jobs = signed_row ∷ (record signed_row { rowid = 2; provider_job_id = "job2" } ∷ []);
}

abbrev backwards : List ServiceJobRow → List ServiceJobRow
backwards (a ∷ (b ∷ rest)) = b ∷ (a ∷ rest)
backwards js = js

-- Texts of the letters a and b.
abbrev spell : String → List ℕ
spell t =
    if t == "ab"
    then 97 ∷ 98 ∷ []
    else if t == "a"
    then 97 ∷ []
    else if t == "b"
    then 98 ∷ []
    else []

abbrev spelled : Primitives
spelled = record plain { bytes = spell }

abbrev ab_job : JobHashingPayload
ab_job =
    consumer_payload spelled
      (to_record job (record offer { protocol_id = "a"; protocol_payload = "b" })) none "result"
      (pos 7)

hash_job_ambiguous_example :
    hash_job spelled (record ab_job { protocol_id = "ab"; offer_payload = "" })
    ≡ hash_job spelled ab_job
hash_job_ambiguous_example = hash_job_ambiguous spelled ab_job "ab" "" refl
