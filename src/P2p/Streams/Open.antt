-- ===== src/P2p/Streams/Open.antt =====
-- A stream for a job from both sides: src/rpc/procedure/consumer/open_job_connection.rs and
-- src/p2p/stream/job_connection.rs.
use derouter.Base.{
  ℕ, String, ◌≡◌, ◌≢◌, ◌⊎◌, refl, sym, ap, ◌∙◌, none, some, Option, arith, inl, inr, ok, err, panic,
  Outcome-cases, Option-cases, Bool-cases, ◌==◌, ==_iff, text_eq, if◌then◌else◌,
}
use derouter.Dto.{PeerId, JobRecord}
use derouter.Db.{Database}
use derouter.Db.Jobs.{find_by_job_id}
use derouter.Rpc.Provide.{ProviderState, ProvidedOffer, find_offer}
use derouter.Rpc.Connections.{JobConnections, register}
use derouter.P2p.Streams.{
  accepted, job_not_found, job_expired, busy, another_error, PrepareAnswer, prepared, no_such_job,
  module_busy, unexpected, dropped, prepare, job_connection_response,
  ConsumerOpenJobConnectionResponse, opened, HeadRead, not_opened, eof, read_error, head,
  head_answered, handle_consumer_open_job_connection_request,
}

-- The Provider has the job, of this Consumer, provides its offer, and the module is prepared.
pub record Accepts (p : ProviderState) (db : Database) (consumer provider : PeerId) (id : String)
    (answer : PrepareAnswer) : Type 0 where
  pub job : JobRecord
  pub module_id : ℕ
  pub offer : ProvidedOffer
  pub nonce : String
  pub found : find_by_job_id db provider id ≡ some job
  pub buyer : job.consumer_peer_id ≡ consumer
  pub provided : find_offer p job.offer_protocol_id job.offer_id ≡ ok (some (module_id, offer))
  pub is_prepared : answer ≡ prepared nonce

prepare-accepted :
    (m : ℕ) (answer : PrepareAnswer) (payload : Option (ℕ × String))
    → prepare m answer ≡ (accepted, payload)
    → (nonce : String) × (answer ≡ prepared nonce)
prepare-accepted m (prepared nonce) payload h = (nonce, refl)
prepare-accepted m no_such_job payload h = absurd (ground (arith, h))
prepare-accepted m module_busy payload h = absurd (ground (arith, h))
prepare-accepted m unexpected payload h = absurd (ground (arith, h))
prepare-accepted m dropped payload h = absurd (ground (arith, h))

response-Accepts :
    (p : ProviderState) (db : Database) (consumer provider : PeerId) (id : String)
    (answer : PrepareAnswer) (payload : Option (ℕ × String))
    → job_connection_response p db consumer provider id answer ≡ ok (accepted, payload)
    → Accepts p db consumer provider id answer
unfolding job_connection_response
response-Accepts p db consumer provider id answer payload h =
    elim (Option-cases (find_by_job_id db provider id)) [
      | inl e ↦ absurd (ground (arith, h, e))
      | inr (job, e) ↦ elim (Bool-cases (consumer == job.consumer_peer_id)) [
        | inr other ↦ absurd (ground (arith, h, e, other))
        | inl same ↦ elim (Outcome-cases (find_offer p job.offer_protocol_id job.offer_id)) [
          | inl (none, f) ↦ absurd (ground (arith, h, e, same, f))
          | inl (some (m, o), f) ↦
              let (nonce, a) = prepare-accepted m answer payload (ground (arith, h, e, same, f)) in
              record {
                job = job;
                module_id = m;
                offer = o;
                nonce = nonce;
                found = e;
                buyer = sym ((==_iff consumer job.consumer_peer_id).0 same);
                provided = f;
                is_prepared = a;
              }
          | inr (inl (never, f)) ↦ elim never [ ]
          | inr (inr f) ↦ absurd (ground (arith, h, e, same, f))
        ]
      ]
    ]

module _ {S : Type 0} where
  -- What the Consumer reads of a stream to the Provider; where the Provider's task panics the stream
  -- ends.
  abbrev pub open_to :
      ProviderState
      → Database
      → PeerId
      → PeerId
      → PrepareAnswer
      → S
      → PeerId
      → String
      → S × HeadRead
  open_to p db consumer provider answer stream target id =
      if target == provider
      then (elim (job_connection_response p db consumer provider id answer) [
        | ok (response, payload) ↦ (stream, head response)
        | err e ↦ (stream, eof)
        | panic ↦ (stream, eof)
      ])
      else (stream, not_opened)

  -- A connection is opened just on the accepting response.
  head_cases :
      (stream : S) (read : HeadRead) (c c' : JobConnections S)
      (response : ConsumerOpenJobConnectionResponse)
      → head_answered stream read c ≡ (response, c')
      → ((n : ℕ) × ((response ≡ opened n)
            × ((register stream c ≡ (n, c')) × (read ≡ head accepted))))
        ⊎ (((n : ℕ) → response ≢ opened n) × (c' ≡ c))
  unfolding head_answered
  head_cases stream not_opened c c' response h =
      inr (λ n e. ground (arith, h, e), ground (arith, h))
  head_cases stream eof c c' response h = inr (λ n e. ground (arith, h, e), ground (arith, h))
  head_cases stream (read_error x) c c' response h =
      inr (λ n e. ground (arith, h, e), ground (arith, h))
  head_cases stream (head accepted) c c' response h = inl (
    (register stream c).0,
    (
      ground (arith, h),
      (
        ap (λ (q : JobConnections S). ((register stream c).0, q))
            (ap (λ (r : ConsumerOpenJobConnectionResponse × JobConnections S). r.1) h),
        refl,
      ),
    ),
  )
  head_cases stream (head job_not_found) c c' response h =
      inr (λ n e. ground (arith, h, e), ground (arith, h))
  head_cases stream (head job_expired) c c' response h =
      inr (λ n e. ground (arith, h, e), ground (arith, h))
  head_cases stream (head busy) c c' response h =
      inr (λ n e. ground (arith, h, e), ground (arith, h))
  head_cases stream (head (another_error x)) c c' response h =
      inr (λ n e. ground (arith, h, e), ground (arith, h))

  open_accepted :
      (p : ProviderState) (db : Database) (consumer provider : PeerId) (answer : PrepareAnswer)
      (stream : S) (target : PeerId) (id : String)
      → (open_to p db consumer provider answer stream target id).1 ≡ head accepted
      → (payload : Option (ℕ × String)) × (job_connection_response p db consumer provider id answer
          ≡ ok (accepted, payload))
  open_accepted p db consumer provider answer stream target id h =
      elim (Outcome-cases (job_connection_response p db consumer provider id answer)) [
        | inl ((response, payload), e) ↦ (payload, ground (arith, h, e))
        | inr (inl (never, e)) ↦ elim never [ ]
        | inr (inr e) ↦ absurd (ground (arith, h, e))
      ]

  open_stream-eq :
      (p : ProviderState) (db : Database) (consumer provider : PeerId) (answer : PrepareAnswer)
      (stream : S) (target : PeerId) (id : String)
      → (open_to p db consumer provider answer stream target id).0 ≡ stream
  open_stream-eq p db consumer provider answer stream target id =
      elim (Outcome-cases (job_connection_response p db consumer provider id answer)) [
        | inl ((response, payload), e) ↦ ground (arith, e)
        | inr (inl (never, e)) ↦ elim never [ ]
        | inr (inr e) ↦ ground (arith, e)
      ]

  -- Either the client is told of a connection, and then the Provider has the job, its Consumer is the
  -- peer that asks, it provides the job's offer and the module is prepared, and the connection's
  -- ID is that of the stream's registration. Or the client is told of none, and nothing is registered.
  pub open_job_connection-Accepts :
      (p : ProviderState) (dp dc : Database) (consumer provider : PeerId) (id : String)
      (answer : PrepareAnswer) (stream : S) (c c' : JobConnections S)
      (response : ConsumerOpenJobConnectionResponse) (job : JobRecord)
      → find_by_job_id dc provider id ≡ some job
      → handle_consumer_open_job_connection_request
          (open_to p dp consumer provider answer stream)
          dc
          provider
          id
          c
        ≡ (response, c')
      → ((n : ℕ) × ((response ≡ opened n)
            × ((register stream c ≡ (n, c'))
                × Accepts p dp consumer provider job.provider_job_id answer)))
        ⊎ (((n : ℕ) → response ≢ opened n) × (c' ≡ c))
  unfolding handle_consumer_open_job_connection_request
  open_job_connection-Accepts p dp dc consumer provider id answer stream c c' response job found h =
      let at =
        open_to p dp consumer provider answer stream job.provider_peer_id job.provider_job_id in
      let same =
        open_stream-eq p dp consumer provider answer stream job.provider_peer_id
          job.provider_job_id in
      let here : head_answered stream at.1 c ≡ (response, c') =
        ap (λ (s : S). head_answered s at.1 c) (sym same) ∙ ground (arith, h, found) in
      elim (head_cases stream at.1 c c' response here) [
        | inr nothing ↦ inr nothing
        | inl (n, (e, (r, a))) ↦
            let (payload, ready) =
              open_accepted p dp consumer provider answer stream job.provider_peer_id
                job.provider_job_id a in
            inl (
              n,
              (
                e,
                (
                  r,
                  response-Accepts p dp consumer provider job.provider_job_id answer payload ready,
                ),
              ),
            )
      ]
