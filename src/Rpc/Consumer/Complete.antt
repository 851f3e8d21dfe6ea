-- ===== src/Rpc/Consumer/Complete.antt =====
-- A job that the Provider completes (src/rpc/procedure/provider/complete_job.rs), queried by the
-- Consumer (src/rpc/procedure/consumer/get_job.rs, src/p2p/reqres/get_job.rs).
use derouter.Base.{
  String, ◌≡◌, sym, ap, subst, ◌∙◌, Option, some, inl, inr, arith, ok, ◌==◌, ==_refl, ==_iff,
  text_eq, Outcome-cases, Option-cases, if◌then◌else◌, some_unique,
}
use derouter.Base.Int.{ℤ}
use derouter.Dto.{PeerId, JobRecord}
use derouter.Db.{Database, ServiceJobRow, OfferSnapshotRow}
use derouter.Db.Jobs.{Primitives, row_by_job_id, find_by_job_id, snapshot_of, to_record}
use derouter.Db.Jobs.Completion.{UniqueJobs, provider_complete_job-ok}
use derouter.Db.Jobs.Provider.{provider_complete_job}
use derouter.P2p.Requests.{handle_get_job_request}
use derouter.Rpc.Consumer.{Reply, job_state, handle_consumer_get_job_request}
use derouter.Rpc.Settle.{completed, handle_provider_complete_job_request}

-- The Provider's answer to a query of the Consumer; another peer does not answer.
abbrev pub ask_job : Database → PeerId → PeerId → PeerId → String → Reply
ask_job db provider consumer target id =
    if target == provider
    then Reply.get_job (handle_get_job_request db provider consumer id)
    else Reply.outbound_failure

-- A record that was found is that of the row that was found.
record_of_row :
    (db : Database) (provider : PeerId) (id : String) (row : ServiceJobRow) (job : JobRecord)
    → row_by_job_id db provider id ≡ some row
    → find_by_job_id db provider id ≡ some job
    → (s : OfferSnapshotRow) × (to_record row s ≡ job)
unfolding find_by_job_id
record_of_row db provider id row job r f = elim (Option-cases (snapshot_of db row)) [
  | inl e ↦ absurd (ground (arith, r, f, e))
  | inr (s, e) ↦ (s, ground (arith, r, f, e))
]

-- The answer to the query of a job that was found.
answered :
    (db : Database) (provider consumer : PeerId) (id : String) (job : JobRecord)
    → find_by_job_id db provider id ≡ some job
    → job.consumer_peer_id ≡ consumer
    → handle_consumer_get_job_request (ask_job db provider consumer) provider id
      ≡ job_state job.public_payload job.balance_delta job.created_at_sync job.completed_at_sync
unfolding handle_consumer_get_job_request handle_get_job_request
answered db provider consumer id job f mine =
    ground (arith, f, mine, ==_refl provider, ==_iff consumer job.consumer_peer_id)

states :
    {p q d e : Option String} {c k : ℤ} {f g : Option ℤ}
    → p ≡ q
    → d ≡ e
    → c ≡ k
    → f ≡ g
    → job_state p d c f ≡ job_state q e k g
states h i j k = cc

-- After a client of the Provider was told that it completed a job, the Consumer of the job that
-- queries it gets the payload and the balance delta of the completion, the job's time of creation, and
-- the time of completion that the Provider's client was told, which is the time of the request. No two
-- jobs have one rowid.
pub get_job-complete_job :
    (x : Primitives) (db db' : Database) (provider consumer : PeerId) (id : String)
    (delta private_payload : Option String) (public_payload : String) (now t : ℤ)
    (j : ServiceJobRow)
    → UniqueJobs db
    → row_by_job_id db provider id ≡ some j
    → j.consumer_peer_id ≡ consumer
    → handle_provider_complete_job_request x db provider id delta private_payload public_payload now
      ≡ ok (completed t, db')
    → (t ≡ now)
      × (handle_consumer_get_job_request (ask_job db' provider consumer) provider id
          ≡ job_state (some public_payload) delta j.created_at_sync (some t))
unfolding handle_provider_complete_job_request
get_job-complete_job x db db' provider consumer id delta private_payload public_payload now t j
      unique found mine h =
    elim (Outcome-cases
      (provider_complete_job x db provider id delta private_payload public_payload now)) [
        | inl ((job, after), e) ↦
            let (j₁, e₁, r₁, c₁, u₁, f₁, q₁) =
              provider_complete_job-ok x db provider id delta private_payload public_payload now
                unique job after e in
            let same : j₁ ≡ j = some_unique e₁ found in
            let (s, is_job) = record_of_row after provider id _ job f₁ q₁ in
            let time = ap (λ (r : JobRecord). r.completed_at_sync) is_job in
            let same_time : t ≡ now = ground (arith, h, e, time) in
            let same_db : after ≡ db' = ground (arith, h, e, time) in
            let buyer : job.consumer_peer_id ≡ consumer =
              sym (ap (λ (r : JobRecord). r.consumer_peer_id) is_job)
              ∙ ap (λ (r : ServiceJobRow). r.consumer_peer_id) same
              ∙ mine in
            let told =
              subst
                (λ (d : Database).
                  handle_consumer_get_job_request (ask_job d provider consumer) provider id
                  ≡ job_state job.public_payload job.balance_delta job.created_at_sync
                      job.completed_at_sync)
                same_db (answered after provider consumer id job q₁ buyer) in
            (
              same_time,
              told
                  ∙ states (sym (ap (λ (r : JobRecord). r.public_payload) is_job))
                      (sym (ap (λ (r : JobRecord). r.balance_delta) is_job))
                      (sym (ap (λ (r : JobRecord). r.created_at_sync) is_job)
                        ∙ ap (λ (r : ServiceJobRow). r.created_at_sync) same)
                      (sym time ∙ ap some (sym same_time)),
            )
        | inr (inl (error, e)) ↦ absurd (ground (arith, h, e))
        | inr (inr e) ↦ absurd (ground (arith, h, e))
      ]
