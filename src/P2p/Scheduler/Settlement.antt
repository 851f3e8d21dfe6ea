-- ===== src/P2p/Scheduler/Settlement.antt =====
-- A job from its completion on both sides to its confirmation on both sides: src/db/service_jobs,
-- src/p2p/reqres/confirm_job.rs at the Provider, src/p2p/job_confirmation_scheduler.rs at the Consumer.
use derouter.Base.{
  ℕ, String, ◌≡◌, sym, ap, ◌∙◌, true, Option, none, some, arith, List, [], ◌∷◌, Outcome, ok, err,
  panic, ◌==◌, ==_refl, text_eq, if◌then◌else◌, some_unique,
}
use derouter.Base.Int.{ℤ}
use derouter.Dto.{PeerId, DateTime, JobRecord}
use derouter.State.{RpcEvent, job_updated}
use derouter.Db.{ServiceJobRow, OfferSnapshotRow, Database, update_job}
use derouter.Db.Jobs.{Primitives, row_by_rowid, row_by_job_id, snapshot_of}
use derouter.Db.Jobs.Agreement.{SameJob, completions_agree}
use derouter.Db.Jobs.Completion.{UniqueJobs}
use derouter.Db.Jobs.Consumer.{consumer_complete_job}
use derouter.Db.Jobs.Provider.{provider_complete_job, provider_confirm_job, set_verified}
use derouter.Db.Jobs.Unconfirmed.{UnconfirmedJob}
use derouter.Db.Jobs.Validity.{IsValidJobs}
use derouter.P2p.Requests.{
  ConfirmJobRequest, ConfirmJobResponse, confirmed, Answer, outbound_failure,
  handle_confirm_job_request,
}
use derouter.P2p.Requests.Settle.{confirm_job_answered-settles}
use derouter.P2p.Scheduler.{confirm_request, confirm_job}

-- The Provider's answer to a confirmation; another peer does not answer.
abbrev pub ask_provider :
    (x : Primitives)
    → (List ℕ → List ℕ → String)
    → Database
    → PeerId
    → PeerId
    → DateTime
    → PeerId
    → ConfirmJobRequest
    → Answer
ask_provider x mismatch_text dp provider consumer later target request =
    if target == provider
    then (elim (handle_confirm_job_request x mismatch_text dp provider consumer request later) [
      | ok (response, dp') ↦ Answer.confirm_job response
      | err e ↦ outbound_failure
      | panic ↦ outbound_failure
    ])
    else outbound_failure

-- The job that the query of unconfirmed jobs gives for a row.
pub record IsRowOf (u : UnconfirmedJob) (provider : PeerId) (id : String) (j : ServiceJobRow)
    : Type 0 where
  pub rowid : u.rowid ≡ j.rowid
  pub peer : u.provider_peer_id ≡ provider
  pub job_id : u.provider_job_id ≡ id
  pub hash : j.hash ≡ some u.hash
  pub signature : j.consumer_signature ≡ some u.consumer_signature
  pub unconfirmed : j.signature_confirmed_at_local ≡ none

-- The Provider accepts and stores the signature, and the Consumer marks the job as confirmed.
pub record Settles (x : Primitives) (mismatch_text : List ℕ → List ℕ → String) (dp' : Database)
    (consumer provider : PeerId) (rowid : ℕ) (request : ConfirmJobRequest) (later now : DateTime)
    (u : UnconfirmedJob) (j : ServiceJobRow) (out : Outcome ⊥ (List RpcEvent × Database))
    : Type 0 where
  pub accepts :
      handle_confirm_job_request x mismatch_text dp' provider consumer request later
      ≡ ok (
        confirmed,
        update_job rowid
            (λ (r : ServiceJobRow). record r {
              consumer_signature = some u.consumer_signature;
              signature_confirmed_at_local = some later;
              confirmation_error = none;
            })
            dp',
      )
  pub job : JobRecord
  pub db' : Database
  pub returns : out ≡ ok (job_updated job ∷ [], db')
  pub marked :
      row_by_rowid db' u.rowid
      ≡ some (record j { signature_confirmed_at_local = some now; confirmation_error = none })

-- With the hash and the signature of the row the Provider's handler accepts the request.
accepted :
    (x : Primitives) (mismatch_text : List ℕ → List ℕ → String) (dp : Database)
    (consumer provider : PeerId) (id : String) (public_key hash signature : List ℕ)
    (later : DateTime) (u : UnconfirmedJob) (after : Database)
    → u.provider_job_id ≡ id
    → u.hash ≡ hash
    → u.consumer_signature ≡ signature
    → provider_confirm_job x dp consumer provider id hash public_key signature later ≡ ok after
    → handle_confirm_job_request x mismatch_text dp provider consumer
        (confirm_request u public_key)
        later
      ≡ ok (confirmed, after)
unfolding handle_confirm_job_request
accepted x mismatch_text dp consumer provider id public_key hash signature later u after i h s e =
    let same : provider_confirm_job x dp consumer provider u.provider_job_id u.hash public_key
          u.consumer_signature later
        ≡ ok after =
      rw (i, h, s) e in
    ground (arith, same)

-- Where the Provider and the Consumer have completed one job with the same balance delta, public
-- payload and time of completion, and the Consumer's task sends its unconfirmed row of the job to the
-- Provider, the Provider answers with success and stores the signature as confirmed, and the Consumer
-- then marks its row as confirmed and sends one event. The Consumer's key decodes and verifies what the
-- Consumer signs, its table of jobs is well-formed, and the Provider had not confirmed the job before.
pub completed_jobs_settle :
    (x : Primitives) (mismatch_text : List ℕ → List ℕ → String)
    (debug_text : ConfirmJobResponse → String) (dp dc : Database) (consumer provider : PeerId)
    (id : String) (jp : ServiceJobRow) (sp : OfferSnapshotRow) (jc : ServiceJobRow)
    (sc : OfferSnapshotRow) (delta : Option String) (public_payload : String) (p q : Option String)
    (t : ℤ) (sign_fn : List ℕ → List ℕ) (public_key : List ℕ) (key : x.PublicKey)
    (completed_at later now : DateTime) (rp rc : JobRecord) (dp' dc' : Database)
    (u : UnconfirmedJob) (j : ServiceJobRow)
    → UniqueJobs dp
    → row_by_job_id dp provider id ≡ some jp
    → snapshot_of dp jp ≡ some sp
    → row_by_job_id dc provider id ≡ some jc
    → snapshot_of dc jc ≡ some sc
    → SameJob jp sp jc sc
    → jp.signature_confirmed_at_local ≡ none
    → x.try_decode_protobuf public_key ≡ some key
    → ((h : List ℕ) → x.verify key h (sign_fn h) ≡ true)
    → provider_complete_job x dp provider id delta p public_payload t ≡ ok (rp, dp')
    → consumer_complete_job x dc consumer provider id delta public_payload q t sign_fn completed_at
      ≡ ok (rc, dc')
    → IsValidJobs dc'
    → row_by_job_id dc' provider id ≡ some j
    → row_by_rowid dc' u.rowid ≡ some j
    → IsRowOf u provider id j
    → Settles x mismatch_text dp' consumer provider jp.rowid
        (confirm_request u public_key)
        later
        now
        u
        j
        (confirm_job debug_text
          (ask_provider x mismatch_text dp' provider consumer later)
          dc'
          u
          public_key
          now)
unfolding confirm_job
completed_jobs_settle x mismatch_text debug_text dp dc consumer provider id jp sp jc sc delta
      public_payload p q t sign_fn public_key key completed_at later now rp rc dp' dc' u j unique fp
      sp_of fc sc_of same unconfirmed decodes verifies hp hc valid fj there row =
    let (j₁, hash, e₁, h₁, s₁, c₁) =
      completions_agree x dp dc consumer provider id jp sp jc sc delta public_payload p q t sign_fn
        public_key key completed_at later rp rc dp' dc' unique fp sp_of fc sc_of same unconfirmed
        decodes verifies hp hc in
    let one : j₁ ≡ j = some_unique e₁ fj in
    let same_hash : u.hash ≡ hash =
      some_unique row.hash (ap (λ (r : ServiceJobRow). r.hash) (sym one) ∙ h₁) in
    let same_signature : u.consumer_signature ≡ sign_fn hash =
      some_unique row.signature (ap (λ (r : ServiceJobRow). r.consumer_signature) (sym one) ∙ s₁) in
    let after : Database = update_job jp.rowid (set_verified (sign_fn hash) later) dp' in
    let yes_ =
      accepted x mismatch_text dp' consumer provider id public_key hash (sign_fn hash) later u after
        row.job_id same_hash same_signature c₁ in
    let (job, (db', (e, m))) =
      confirm_job_answered-settles debug_text dc' u now valid j there
        (ground (arith, row.signature)) row.unconfirmed in
    record {
      accepts =
          yes_
          ∙ ap (λ (s : List ℕ). ok (confirmed, update_job jp.rowid (set_verified s later) dp'))
              (sym same_signature);
      job = job;
      db' = db';
      returns = ground (arith, row.peer, ==_refl provider, yes_, e);
      marked = m;
    }
