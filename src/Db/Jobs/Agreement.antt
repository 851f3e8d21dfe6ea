-- ===== src/Db/Jobs/Agreement.antt =====
-- The hashes that the Provider and the Consumer compute for a completed job
-- (src/db/service_jobs/{consumer,provider}).
use derouter.Base.{
  ℕ, String, ◌≡◌, refl, sym, ap, subst, ◌∙◌, true, Option, none, some, arith, List, ok, some_unique,
  map_option, ==_refl, ==_iff, text_eq, bytes_eq, nat_eq,
}
use derouter.Base.Int.{ℤ}
use derouter.Dto.{PeerId, DateTime, JobRecord}
use derouter.Db.{OfferSnapshotRow, ServiceJobRow, Database, update_job}
use derouter.Db.Jobs.{Primitives, hash_job, row_by_job_id, to_record, snapshot_of}
use derouter.Db.Jobs.Consumer.{consumer_complete_job, consumer_payload, set_signed}
use derouter.Db.Jobs.Provider.{
  provider_complete_job, provider_confirm_job, provider_payload, set_completed, set_verified,
}
use derouter.Db.Jobs.Lookup.{row_snapshot, find_by_job_id_lem, snapshot_of-update_job}
use derouter.Db.Jobs.Completion.{UniqueJobs, provider_complete_job-ok, consumer_complete_job-ok}

-- The row of a job in the Provider's database and the one in the Consumer's tell of one job.
pub record SameJob (jp : ServiceJobRow) (sp : OfferSnapshotRow) (jc : ServiceJobRow)
    (sc : OfferSnapshotRow) : Type 0 where
  pub consumer : jp.consumer_peer_id ≡ jc.consumer_peer_id
  pub provider : sp.provider_peer_id ≡ sc.provider_peer_id
  pub protocol : sp.protocol_id ≡ sc.protocol_id
  pub payload : sp.protocol_payload ≡ sc.protocol_payload
  pub currency : jp.currency ≡ jc.currency
  pub job_id : jp.provider_job_id ≡ jc.provider_job_id
  pub created : jp.created_at_sync ≡ jc.created_at_sync

module _ (x : Primitives) (db : Database) (consumer provider : PeerId) (id : String)
    (j : ServiceJobRow) (s : OfferSnapshotRow) (found : row_by_job_id db provider id ≡ some j)
    (snapshot : snapshot_of db j ≡ some s) (public_payload : String) (completed_at_sync : ℤ)
    (mine : j.consumer_peer_id ≡ consumer) (no_reason : j.reason ≡ none)
    (unconfirmed : j.signature_confirmed_at_local ≡ none)
    (with_payload : j.public_payload ≡ some public_payload)
    (is_completed : j.completed_at_sync ≡ some completed_at_sync) where
  abbrev expected : List ℕ
  expected = hash_job x (provider_payload x (to_record j s) id public_payload completed_at_sync)

  -- The Provider's check passes on the expected hash and a signature that the key verifies.
  pub provider_confirm_job-accepts :
      (public_key signature : List ℕ) (key : x.PublicKey) (now : DateTime)
      → x.try_decode_protobuf public_key ≡ some key
      → x.verify key expected signature ≡ true
      → provider_confirm_job x db consumer provider id expected public_key signature now
        ≡ ok (update_job j.rowid (set_verified signature now) db)
  unfolding provider_confirm_job
  provider_confirm_job-accepts public_key signature key now decodes verifies = ground (
    arith,
    find_by_job_id_lem db provider id j s found snapshot,
    ==_iff j.consumer_peer_id consumer,
    ==_refl expected,
  )

-- With the same balance delta, public payload and completion time both sides hash one payload.
payloads_agree :
    (x : Primitives) (jp : ServiceJobRow) (sp : OfferSnapshotRow) (jc : ServiceJobRow)
    (sc : OfferSnapshotRow) (delta : Option String) (public_payload : String) (t : ℤ)
    (private_payload : Option String)
    → SameJob jp sp jc sc
    → provider_payload x
        (to_record (set_completed delta public_payload private_payload t jp) sp)
        jp.provider_job_id
        public_payload
        t
      ≡ consumer_payload x (to_record jc sc) (map_option x.hex_encode delta) public_payload t
payloads_agree x jp sp jc sc delta public_payload t private_payload same = rw (
  same.consumer, same.provider, same.protocol, same.payload, same.currency, same.job_id,
  same.created,
)

signed_at :
    (x : Primitives) (delta : Option String) (public_payload : String) (q : Option String)
    (now : DateTime) (t : ℤ) (sign_fn : List ℕ → List ℕ) {j jc : ServiceJobRow}
    {s sc : OfferSnapshotRow}
    → j ≡ jc
    → s ≡ sc
    → let d = map_option x.hex_encode delta in
      let row = λ (r : ServiceJobRow) (o : OfferSnapshotRow).
        let h = hash_job x (consumer_payload x (to_record r o) d public_payload t) in
        set_signed d public_payload q now t h (sign_fn h) r in
      some (row j s) ≡ some (row jc sc)
signed_at x delta public_payload q now t sign_fn e f = λ i.
    let d = map_option x.hex_encode delta in
    let h = hash_job x (consumer_payload x (to_record (e i) (f i)) d public_payload t) in
    some (set_signed d public_payload q now t h (sign_fn h) (e i))

-- The Provider completes a job that its Consumer has not confirmed, and the Consumer completes the
-- same job with the same balance delta, public payload and synchronised completion time. Then the
-- Consumer's row holds a hash and a signature with which the Provider confirms the job, provided
-- that the Consumer's key decodes and verifies what the Consumer's `sign_fn` signs.
pub completions_agree :
    (x : Primitives) (dp dc : Database) (consumer provider : PeerId) (id : String)
    (jp : ServiceJobRow) (sp : OfferSnapshotRow) (jc : ServiceJobRow) (sc : OfferSnapshotRow)
    (delta : Option String) (public_payload : String) (p q : Option String) (t : ℤ)
    (sign_fn : List ℕ → List ℕ) (public_key : List ℕ) (key : x.PublicKey) (now later : DateTime)
    (rp rc : JobRecord) (dp' dc' : Database)
    → UniqueJobs dp
    → row_by_job_id dp provider id ≡ some jp
    → snapshot_of dp jp ≡ some sp
    → row_by_job_id dc provider id ≡ some jc
    → snapshot_of dc jc ≡ some sc
    → SameJob jp sp jc sc
    → jp.signature_confirmed_at_local ≡ none
    → x.try_decode_protobuf public_key ≡ some key
    → ((h : List ℕ) → x.verify key h (sign_fn h) ≡ true)
    → provider_complete_job x dp provider id delta p public_payload t ≡ ok (rp, dp')
    → consumer_complete_job x dc consumer provider id delta public_payload q t sign_fn now
      ≡ ok (rc, dc')
    → (j : ServiceJobRow) × (hash : List ℕ) × (row_by_job_id dc' provider id ≡ some j)
      × (j.hash ≡ some hash)
      × (j.consumer_signature ≡ some (sign_fn hash))
      × (provider_confirm_job x dp' consumer provider id hash public_key (sign_fn hash) later
          ≡ ok (update_job jp.rowid (set_verified (sign_fn hash) later) dp'))
completions_agree x dp dc consumer provider id jp sp jc sc delta public_payload p q t sign_fn
      public_key key now later rp rc dp' dc' unique fp sp_of fc sc_of same unconfirmed decodes
      verifies hp hc =
    let (j₁, e₁, r₁, _, u₁, f₁, _) =
      provider_complete_job-ok x dp provider id delta p public_payload t unique rp dp' hp in
    let (j₂, s₂, e₂, g₂, c₂, _, _, _, f₂, _) =
      consumer_complete_job-ok x dc consumer provider id delta public_payload q t sign_fn now rc dc'
        hc in
    let one : j₁ ≡ jp = some_unique e₁ fp in
    let two : j₂ ≡ jc = some_unique e₂ fc in
    let three : s₂ ≡ sc = some_unique (ap (snapshot_of dc) (sym two) ∙ g₂) sc_of in
    let done = set_completed delta public_payload p t in
    let updated : dp' ≡ update_job jp.rowid done dp =
      u₁ ∙ ap (λ (j : ServiceJobRow). update_job j.rowid done dp) one in
    let named : jp.provider_job_id ≡ id = (row_snapshot dp provider id jp fp).3 in
    let hash =
      hash_job x
        (consumer_payload x (to_record jc sc) (map_option x.hex_encode delta) public_payload t) in
    let signed =
      set_signed (map_option x.hex_encode delta) public_payload q now t hash (sign_fn hash) in
    let signed_row : row_by_job_id dc' provider id ≡ some (signed jc) =
      f₂ ∙ signed_at x delta public_payload q now t sign_fn two three in
    let agree : hash_job x (provider_payload x (to_record (done jp) sp) id public_payload t)
        ≡ hash =
      ap (hash_job x) (
        subst
          (λ n.
            provider_payload x (to_record (done jp) sp) n public_payload t
            ≡ consumer_payload x (to_record jc sc) (map_option x.hex_encode delta) public_payload t)
          named (payloads_agree x jp sp jc sc delta public_payload t p same)) in
    let accepted =
      provider_confirm_job-accepts x dp' consumer provider id (done jp) sp
        (f₁ ∙ ap (λ j. some (done j)) one)
        (subst (λ d. snapshot_of d (done jp) ≡ some sp) (sym updated)
          (snapshot_of-update_job dp jp.rowid done (done jp) ∙ sp_of))
        public_payload t
        (same.consumer ∙ ap (λ (j : ServiceJobRow). j.consumer_peer_id) (sym two) ∙ c₂)
        (ap (λ (j : ServiceJobRow). j.reason) (sym one) ∙ r₁) unconfirmed refl refl public_key
        (sign_fn hash) key later decodes (rw agree (verifies hash)) in
    (signed jc, hash, signed_row, refl, refl, rw agree at accepted)
