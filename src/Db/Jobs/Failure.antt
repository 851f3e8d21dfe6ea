-- ===== src/Db/Jobs/Failure.antt =====
-- `fail_job`, and the other operations on a failed job (src/db/service_jobs).
use derouter.Base.{
  ℕ, String, ◌≡◌, ◌≢◌, refl, inl, inr, Option, none, some, arith, List, ok, err, Option-cases,
  ==_refl, text_eq,
}
use derouter.Base.Int.{ℤ}
use derouter.Dto.{PeerId, DateTime}
use derouter.Db.{ServiceJobRow, Database, update_job}
use derouter.Db.Jobs.{Primitives, row_by_rowid, row_by_job_id}
use derouter.Db.Jobs.Fail.{already_failed, set_failed, fail_job}
use derouter.Db.Jobs.Consumer.{consumer_complete_job}
use derouter.Db.Jobs.Consumer
use derouter.Db.Jobs.Provider.{provider_complete_job, provider_confirm_job}
use derouter.Db.Jobs.Provider
use derouter.Db.Jobs.Lookup.{KeepsKey, updated_row, other_row, row_snapshot, find_by_job_id_lem}

module _ (db : Database) (provider : PeerId) (id reason : String) (reason_class : Option ℤ)
    (private_payload : Option String) (now : DateTime) where
  abbrev failed : ServiceJobRow → ServiceJobRow
  failed = set_failed reason reason_class private_payload now

  failed-KeepsKey : KeepsKey failed
  failed-KeepsKey = record { rowid = λ j. refl; snapshot = λ j. refl; job_id = λ j. refl }

  pub fail_job_inv :
      (db' : Database)
      → fail_job db provider id reason reason_class private_payload now ≡ ok db'
      → (j : ServiceJobRow) × (row_by_job_id db provider id ≡ some j)
        × (j.reason ≡ none)
        × (j.completed_at_local ≡ none)
        × (db' ≡ update_job j.rowid failed db)
  unfolding fail_job
  fail_job_inv db' h = elim (Option-cases (row_by_job_id db provider id)) [
    | inl e ↦ absurd (ground (arith, e))
    | inr (j, e) ↦ (j, e, ground (arith, e), ground (arith, e), ground (arith, e))
  ]

  -- If `fail_job` succeeds, then the job was there with neither a failure reason nor a local
  -- completion time; afterwards its row has the given reason, class and private payload and the
  -- local time, and every other row is as it was.
  pub fail_job-ok :
      (db' : Database)
      → fail_job db provider id reason reason_class private_payload now ≡ ok db'
      → (j : ServiceJobRow) × (row_by_job_id db provider id ≡ some j)
        × (j.reason ≡ none)
        × (j.completed_at_local ≡ none)
        × (row_by_job_id db' provider id
            ≡ some (set_failed reason reason_class private_payload now j))
        × ((n : ℕ) → n ≢ j.rowid → row_by_rowid db' n ≡ row_by_rowid db n)
  fail_job-ok db' h =
      let (j, e, r, c, u) = fail_job_inv db' h in
      (
        j,
        e,
        r,
        c,
        rw u (updated_row db failed failed-KeepsKey provider id j e),
        λ n ne. rw u (other_row db failed failed-KeepsKey n j.rowid ne),
      )

-- Every operation refuses a job whose row has a reason.
module _ (db : Database) (provider : PeerId) (id : String) (j : ServiceJobRow) (r : String)
    (found : row_by_job_id db provider id ≡ some j) (reason : j.reason ≡ some r) where
  pub fail_job-refuses :
      (reason' : String) (reason_class : Option ℤ) (private_payload : Option String)
      (now : DateTime)
      → fail_job db provider id reason' reason_class private_payload now
        ≡ err (already_failed r j.reason_class)
  unfolding fail_job
  fail_job-refuses reason' reason_class private_payload now = ground arith

  pub provider_complete_job-refuses :
      (x : Primitives) (balance_delta private_payload : Option String) (public_payload : String)
      (now : ℤ)
      → provider_complete_job x db provider id balance_delta private_payload public_payload now
        ≡ err (Provider.already_failed r j.reason_class)
  unfolding provider_complete_job
  provider_complete_job-refuses x balance_delta private_payload public_payload now = ground arith

  pub consumer_complete_job-refuses :
      (x : Primitives) (balance_delta : Option String) (public_payload : String)
      (private_payload : Option String) (completed_at_sync : ℤ) (sign_fn : List ℕ → List ℕ)
      (now : DateTime)
      → consumer_complete_job x db j.consumer_peer_id provider id balance_delta public_payload
          private_payload completed_at_sync sign_fn now
        ≡ err (Consumer.already_failed r j.reason_class)
  unfolding consumer_complete_job
  consumer_complete_job-refuses x balance_delta public_payload private_payload completed_at_sync
        sign_fn now =
      let (s, e, _, _) = row_snapshot db provider id j found in
      ground (arith, find_by_job_id_lem db provider id j s found e, ==_refl j.consumer_peer_id)

  pub provider_confirm_job-refuses :
      (x : Primitives) (consumer : PeerId) (job_hash public_key signature : List ℕ) (now : DateTime)
      (db' : Database)
      → provider_confirm_job x db consumer provider id job_hash public_key signature now ≢ ok db'
  unfolding provider_confirm_job
  provider_confirm_job-refuses x consumer job_hash public_key signature now db' h =
      let (s, e, _, _) = row_snapshot db provider id j found in
      ground (arith, find_by_job_id_lem db provider id j s found e)

-- Once `fail_job` has succeeded, the same job can be neither failed again nor completed by its
-- Consumer or its Provider: each call reports the stored reason and class. Nor is it ever confirmed
-- by the Provider.
pub fail_job_final :
    (x : Primitives) (db : Database) (provider : PeerId) (id reason : String)
    (reason_class : Option ℤ) (private_payload : Option String) (now : DateTime) (db' : Database)
    → fail_job db provider id reason reason_class private_payload now ≡ ok db'
    → (j : ServiceJobRow) × (row_by_job_id db' provider id ≡ some j)
      × ((r : String) (c : Option ℤ) (p : Option String) (t : DateTime)
          → fail_job db' provider id r c p t ≡ err (already_failed reason reason_class))
      × ((d p : Option String) (public_payload : String) (t : ℤ)
          → provider_complete_job x db' provider id d p public_payload t
            ≡ err (Provider.already_failed reason reason_class))
      × ((d : Option String) (public_payload : String) (p : Option String) (completed_at_sync : ℤ)
            (sign_fn : List ℕ → List ℕ) (t : DateTime)
          → consumer_complete_job x db' j.consumer_peer_id provider id d public_payload p
              completed_at_sync sign_fn t
            ≡ err (Consumer.already_failed reason reason_class))
      × ((consumer : PeerId) (h k s : List ℕ) (t : DateTime) (db'' : Database)
          → provider_confirm_job x db' consumer provider id h k s t ≢ ok db'')
fail_job_final x db provider id reason reason_class private_payload now db' h =
    let (j, _, _, _, e, _) =
      fail_job-ok db provider id reason reason_class private_payload now db' h in
    let j' = set_failed reason reason_class private_payload now j in
    (
      j',
      e,
      fail_job-refuses db' provider id j' reason e refl,
      provider_complete_job-refuses db' provider id j' reason e refl x,
      consumer_complete_job-refuses db' provider id j' reason e refl x,
      provider_confirm_job-refuses db' provider id j' reason e refl x,
    )
