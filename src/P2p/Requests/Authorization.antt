-- ===== src/P2p/Requests/Authorization.antt =====
-- Who learns of a job, and who makes one (src/p2p/reqres).
use derouter.Base.{
  ℕ, String, ◌≡◌, ◌≢◌, ◌⊎◌, inl, inr, refl, none, some, arith, List, ok, Outcome-cases, Bool-cases,
  ◌==◌, text_eq, ==_iff,
}
use derouter.Base.Int.{ℤ}
use derouter.Dto.{PeerId, DateTime, JobRecord}
use derouter.Db.{Database}
use derouter.Db.Jobs.{Primitives, find_by_job_id, create_job}
use derouter.Db.Jobs.Provider.{provider_confirm_job}
use derouter.Rpc.Provide.{ProviderState, ProvidedOffer, find_offer}
use derouter.P2p.Requests.{
  CreateJobRequest, CreateJobResponse, created, ConfirmJobRequest, ConfirmJobResponse,
  GetJobResponse, ModuleAnswer, accepted, handle_create_job_request, create_for,
  handle_get_job_request, handle_confirm_job_request,
}

-- A peer that is not the Consumer of the job gets, to a query and to a confirmation alike, the
-- answer for a job that is not there, and the database is left as it was.
pub stranger_learns_nothing :
    (x : Primitives) (mismatch_text : List ℕ → List ℕ → String) (db : Database)
    (our_peer_id from_peer_id : PeerId) (request : ConfirmJobRequest) (now : DateTime)
    (job : JobRecord)
    → find_by_job_id db our_peer_id request.provider_job_id ≡ some job
    → job.consumer_peer_id ≢ from_peer_id
    → (handle_get_job_request db our_peer_id from_peer_id request.provider_job_id
        ≡ GetJobResponse.job_not_found)
      × (handle_confirm_job_request x mismatch_text db our_peer_id from_peer_id request now
          ≡ ok (ConfirmJobResponse.job_not_found, db))
unfolding handle_get_job_request handle_confirm_job_request provider_confirm_job
stranger_learns_nothing x mismatch_text db our_peer_id from_peer_id request now job found other = (
  ground (arith, found, other, ==_iff from_peer_id job.consumer_peer_id),
  ground (arith, found, other, ==_iff job.consumer_peer_id from_peer_id),
)

-- The job was created with the rowid and the answer carries its ID, or nothing was created.
abbrev CreatedOrNot :
    Database
    → PeerId
    → CreateJobRequest
    → String
    → ℤ
    → DateTime
    → ProvidedOffer
    → ModuleAnswer
    → CreateJobResponse
    → Database
    → Type 0
CreatedOrNot db from_peer_id request id t now o answer response db' =
    ((rowid : ℕ) × ((o.protocol_payload ≡ request.offer_payload)
        × ((answer ≡ accepted)
            × ((response ≡ created id t)
                × (create_job db o.snapshot_rowid from_peer_id request.currency request.job_args id
                      t now
                    ≡ ok (db', rowid))))))
    ⊎ (¬ ((o.protocol_payload ≡ request.offer_payload) × (answer ≡ accepted))
        × ((response ≢ created id t) × (db' ≡ db)))

create_for-exact :
    (db : Database) (from_peer_id : PeerId) (request : CreateJobRequest) (id : String) (t : ℤ)
    (now : DateTime) (o : ProvidedOffer) (answer : ModuleAnswer) (response : CreateJobResponse)
    (db' : Database)
    → create_for db from_peer_id request id t now o answer ≡ ok (response, db')
    → CreatedOrNot db from_peer_id request id t now o answer response db'
unfolding create_for
create_for-exact db from_peer_id request id t now o accepted response db' h =
    elim (Bool-cases (o.protocol_payload == request.offer_payload)) [
      | inr e ↦ inr (
        λ h'. ground (arith, e, h'.0, ==_iff o.protocol_payload request.offer_payload),
        (ground (arith, e), ground (arith, e)),
      )
      | inl e ↦
          elim (Outcome-cases (
            create_job db o.snapshot_rowid from_peer_id request.currency request.job_args id t
              now)) [
                | inl ((d, rowid), c) ↦ inl (
                  rowid,
                  (
                    (==_iff o.protocol_payload request.offer_payload).0 e,
                    (refl, (ground (arith, e, c), ground (arith, e, c))),
                  ),
                )
                | inr (inl (b, c)) ↦ absurd b
                | inr (inr c) ↦ absurd (ground (arith, e, c))
              ]
    ]
create_for-exact db from_peer_id request id t now o ModuleAnswer.busy response db' h =
    inr (λ h'. ground (arith, h'.1), (ground arith, ground arith))
create_for-exact db from_peer_id request id t now o ModuleAnswer.dropped response db' h =
    inr (λ h'. ground (arith, h'.1), (ground (arith, h), ground (arith, h)))
create_for-exact db from_peer_id request id t now o ModuleAnswer.unexpected response db' h =
    inr (λ h'. ground (arith, h'.1), (ground arith, ground arith))
create_for-exact db from_peer_id request id t now o (ModuleAnswer.invalid_job_args e) response db'
      h =
    inr (λ h'. ground (arith, h'.1), (ground arith, ground arith))

-- The node provides the offer with the payload that the request names, and its module accepts.
abbrev pub IsAccepted : ProviderState → CreateJobRequest → ModuleAnswer → Type 0
IsAccepted provider request answer =
    (module_id : ℕ) × ((o : ProvidedOffer) × ((find_offer provider request.protocol_id
            request.offer_id
          ≡ ok (some (module_id, o)))
        × ((o.protocol_payload ≡ request.offer_payload) × (answer ≡ accepted))))

not_accepted :
    (provider : ProviderState) (request : CreateJobRequest) (answer : ModuleAnswer) (m : ℕ)
    (o : ProvidedOffer)
    → find_offer provider request.protocol_id request.offer_id ≡ ok (some (m, o))
    → ¬ ((o.protocol_payload ≡ request.offer_payload) × (answer ≡ accepted))
    → ¬ (IsAccepted provider request answer)
not_accepted provider request answer m o e no_ (n, (o', (f, (p, a)))) =
    no_ (ground (arith, e, f, p), a)

-- Whatever the node answers to a request for a job, one of two things holds. Either the node provides
-- the offer with the payload that the request names, its module accepted, the job was created under
-- the offer's snapshot, and the answer carries its ID. Or one of these conditions fails, the answer
-- carries no such job, and the database is as it was.
pub handle_create_job-exact :
    (provider : ProviderState) (db : Database) (from_peer_id : PeerId) (request : CreateJobRequest)
    (id : String) (t : ℤ) (now : DateTime) (answer : ModuleAnswer) (response : CreateJobResponse)
    (db' : Database)
    → handle_create_job_request provider db from_peer_id request id t now answer
      ≡ ok (response, db')
    → ((module_id : ℕ) × ((o : ProvidedOffer) × ((rowid : ℕ) × ((find_offer provider
                  request.protocol_id request.offer_id
                ≡ ok (some (module_id, o)))
              × ((o.protocol_payload ≡ request.offer_payload)
                  × ((answer ≡ accepted)
                      × ((response ≡ created id t)
                          × (create_job db o.snapshot_rowid from_peer_id request.currency
                                request.job_args id t now
                              ≡ ok (db', rowid)))))))))
      ⊎ (¬ (IsAccepted provider request answer) × ((response ≢ created id t) × (db' ≡ db)))
unfolding handle_create_job_request
handle_create_job-exact provider db from_peer_id request id t now answer response db' h =
    elim (Outcome-cases (find_offer provider request.protocol_id request.offer_id)) [
      | inl (none, e) ↦
          inr (λ (m, (o, (f, r))). ground (arith, e, f), (ground (arith, e), ground (arith, e)))
      | inl (some (module_id, o), e) ↦
          elim (create_for-exact db from_peer_id request id t now o answer response db'
            (ground (arith, e))) [
              | inl (rowid, (p, (a, (r, c)))) ↦ inl (module_id, (o, (rowid, (e, (p, (a, (r, c)))))))
              | inr (no_, same) ↦ inr (not_accepted provider request answer module_id o e no_, same)
            ]
      | inr (inl (b, e)) ↦ absurd b
      | inr (inr e) ↦ absurd (ground (arith, e))
    ]
