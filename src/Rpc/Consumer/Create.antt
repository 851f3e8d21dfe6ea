-- ===== src/Rpc/Consumer/Create.antt =====
-- The request for a job from both sides: src/rpc/procedure/consumer/create_job.rs at the Consumer, and
-- src/p2p/reqres/create_job.rs at the Provider.
use derouter.Base.{
  ℕ, String, ◌≡◌, refl, subst, sym, ◌∙◌, true, Option, none, some, [], ◌∷◌, ◌++◌, inl, inr, arith,
  Outcome, ok, err, panic, if◌then◌else◌, find_first, find_first-append, ◌==◌, ==_refl, text_eq,
  nat_eq,
}
use derouter.Base.Int.{ℤ}
use derouter.Dto.{PeerId, DateTime, Currency}
use derouter.Db.{Database, ServiceJobRow, OfferSnapshotRow, next_rowid}
use derouter.Db.Offers
use derouter.Db.Offers.{to_snapshot}
use derouter.Db.Jobs.{create_job, new_job, snapshot_of, is_job, row_by_job_id}
use derouter.Db.Jobs.Agreement.{SameJob}
use derouter.P2p.Requests.{CreateJobRequest, created, ModuleAnswer, handle_create_job_request}
use derouter.P2p.Requests.Authorization.{handle_create_job-exact}
use derouter.Rpc.Provide.{ProviderState, ProvidedOffer, find_offer}
use derouter.Rpc.Consumer.{
  Reply, ConsumerCreateJobResponse, request_for, created_by, create_job_answered,
  handle_consumer_create_job_request,
}

-- The row of the new job, found by the Provider and the job's ID.
record Found (db' : Database) (provider : PeerId) (id : String) (j : ServiceJobRow)
    (s : OfferSnapshotRow) : Type 0 where
  row : row_by_job_id db' provider id ≡ some j
  snapshot : snapshot_of db' j ≡ some s

create_job-Found :
    (db db' : Database) (snapshot_id rowid : ℕ) (consumer provider : PeerId) (currency : Currency)
    (args : Option String) (id : String) (t : ℤ) (now : DateTime) (s : OfferSnapshotRow)
    → create_job db snapshot_id consumer currency args id t now ≡ ok (db', rowid)
    → find_first (λ (r : OfferSnapshotRow). r.rowid == snapshot_id) db.offer_snapshots ≡ some s
    → s.provider_peer_id ≡ provider
    → row_by_job_id db provider id ≡ none
    → Found db' provider id (new_job rowid snapshot_id consumer currency args id t now) s
unfolding create_job
create_job-Found db db' snapshot_id rowid consumer provider currency args id t now s h e by new =
    let n = next_rowid (λ (j : ServiceJobRow). j.rowid) db.service_jobs in
    let j = new_job n snapshot_id consumer currency args id t now in
    let after = record db { service_jobs = db.service_jobs ++ j ∷ [] } in
    let same_db : after ≡ db' = ground (arith, h, e) in
    let same_id : n ≡ rowid = ground (arith, h, e) in
    let passes : is_job db provider id j ≡ true =
      ground (arith, e, by, ==_refl provider, ==_refl id) in
    let here : row_by_job_id after provider id ≡ some j =
      find_first-append (is_job db provider id) db.service_jobs (j ∷ [])
      ∙ unfold find_first in ground (arith, new, passes) in
    subst
      (λ (d : Database).
        Found d provider id (new_job rowid snapshot_id consumer currency args id t now) s)
      same_db
      (subst
        (λ (k : ℕ).
          Found after provider id (new_job k snapshot_id consumer currency args id t now) s)
        same_id (record { row = here; snapshot = e }))

-- A snapshot that is there lets `create_job` return.
created_later :
    (db : Database) (n : ℕ) (consumer : PeerId) (currency : Currency) (args : Option String)
    (id : String) (t : ℤ) (now : DateTime) (s : OfferSnapshotRow)
    → find_first (λ (r : OfferSnapshotRow). r.rowid == n) db.offer_snapshots ≡ some s
    → (rowid : ℕ) × ((db' : Database) × (create_job db n consumer currency args id t now
          ≡ ok (db', rowid)))
unfolding create_job
created_later db n consumer currency args id t now s e =
    let rowid = next_rowid (λ (j : ServiceJobRow). j.rowid) db.service_jobs in
    (
      rowid,
      (
        record db {
          service_jobs = db.service_jobs ++ new_job rowid n consumer currency args id t now ∷ [];
        },
        ground (arith, e),
      ),
    )

-- The Provider's answer to a request; another peer does not answer.
abbrev pub ask_provider :
    ProviderState
    → Database
    → PeerId
    → PeerId
    → String
    → ℤ
    → DateTime
    → ModuleAnswer
    → Database
    → PeerId
    → CreateJobRequest
    → Reply × Database
ask_provider p dp consumer provider id t now answer later target request =
    if target == provider
    then (elim (handle_create_job_request p dp consumer request id t now answer) [
      | ok (response, dp') ↦ (Reply.create_job response, later)
      | err e ↦ (Reply.outbound_failure, later)
      | panic ↦ (Reply.outbound_failure, later)
    ])
    else (Reply.outbound_failure, later)

-- The snapshot under which the Provider provides an offer is of the offer and has its payload.
abbrev pub IsRecorded :
    ProviderState → Database → PeerId → String → String → OfferSnapshotRow → Type 0
IsRecorded p db provider protocol_id offer_id s =
    (m : ℕ) (o : ProvidedOffer)
    → find_offer p protocol_id offer_id ≡ ok (some (m, o))
    → (find_first (λ (r : OfferSnapshotRow). r.rowid == o.snapshot_rowid) db.offer_snapshots
        ≡ some s)
      × ((s.provider_peer_id ≡ provider)
          × ((s.protocol_id ≡ protocol_id) × (s.protocol_payload ≡ o.protocol_payload)))

-- The Consumer's client is told of the job, and the rows of the two sides tell of one job.
pub record IsOnBothSides (dp' : Database) (provider : PeerId) (id : String)
    (sp sc : OfferSnapshotRow) (out : Outcome ⊥ (ConsumerCreateJobResponse × Database))
    : Type 0 where
  pub dc' : Database
  pub jp : ServiceJobRow
  pub jc : ServiceJobRow
  pub returns : out ≡ ok (created_by provider id, dc')
  pub provider_row : row_by_job_id dp' provider id ≡ some jp
  pub provider_snapshot : snapshot_of dp' jp ≡ some sp
  pub consumer_row : row_by_job_id dc' provider id ≡ some jc
  pub consumer_snapshot : snapshot_of dc' jc ≡ some sc
  pub same : SameJob jp sp jc sc

-- Where the Provider answers a Consumer's request for a job with a new job, the Consumer's client is
-- told of the job, and both databases have a row of it, found by the Provider and the job's ID, with the
-- same Consumer, Provider, protocol, payload, currency, ID and time of creation. The Consumer's
-- snapshot is active and names the Provider, its offer is the same when the answer comes, the Provider
-- has recorded its own offer, and neither side had a job of that ID.
pub create_job-IsOnBothSides :
    (p : ProviderState) (dp dp' dc later : Database) (consumer provider : PeerId) (n : ℕ)
    (currency : Currency) (args : Option String) (id : String) (t : ℤ) (nowp nowc : DateTime)
    (answer : ModuleAnswer) (sp s sc : OfferSnapshotRow)
    → find_first (λ (r : OfferSnapshotRow). r.rowid == n) dc.offer_snapshots ≡ some s
    → s.active ≡ true
    → s.provider_peer_id ≡ provider
    → find_first (λ (r : OfferSnapshotRow). r.rowid == n) later.offer_snapshots ≡ some sc
    → (sc.provider_peer_id ≡ provider)
      × ((sc.protocol_id ≡ s.protocol_id) × (sc.protocol_payload ≡ s.protocol_payload))
    → IsRecorded p dp provider s.protocol_id s.offer_id sp
    → row_by_job_id dp provider id ≡ none
    → row_by_job_id later provider id ≡ none
    → handle_create_job_request p dp consumer
        (request_for (to_snapshot s) currency args)
        id
        t
        nowp
        answer
      ≡ ok (created id t, dp')
    → IsOnBothSides dp' provider id sp sc (
        handle_consumer_create_job_request
          (ask_provider p dp consumer provider id t nowp answer later)
          dc
          consumer
          n
          currency
          args
          nowc)
unfolding handle_consumer_create_job_request create_job_answered Offers.find
create_job-IsOnBothSides p dp dp' dc later consumer provider n currency args id t nowp nowc answer
      sp s sc found active by still kept recorded newp newc h =
    elim (handle_create_job-exact p dp consumer (request_for (to_snapshot s) currency args) id t
      nowp answer (created id t) dp' h) [
        | inr (no_, (other, same)) ↦ absurd (other refl)
        | inl (m, (o, (rowid, (offer, (payload, (accepted, (r, c))))))) ↦
            let (sp_row, (sp_by, (sp_protocol, sp_payload))) = recorded m o offer in
            let fp =
              create_job-Found dp dp' o.snapshot_rowid rowid consumer provider currency args id t
                nowp sp c sp_row sp_by newp in
            let (k, (dc', made)) =
              created_later later n consumer currency args id t nowc sc still in
            let fc =
              create_job-Found later dc' n k consumer provider currency args id t nowc sc made still
                kept.0 newc in
            record {
              dc' = dc';
              jp = new_job rowid o.snapshot_rowid consumer currency args id t nowp;
              jc = new_job k n consumer currency args id t nowc;
              returns = ground (arith, found, active, by, h, made, ==_refl provider);
              provider_row = fp.row;
              provider_snapshot = fp.snapshot;
              consumer_row = fc.row;
              consumer_snapshot = fc.snapshot;
              same = record {
                consumer = refl;
                provider = sp_by ∙ sym kept.0;
                protocol = sp_protocol ∙ sym kept.1.0;
                payload = sp_payload ∙ payload ∙ sym kept.1.1;
                currency = refl;
                job_id = refl;
                created = refl;
              };
            }
      ]
