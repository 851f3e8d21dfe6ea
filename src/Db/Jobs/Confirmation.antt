-- ===== src/Db/Jobs/Confirmation.antt =====
-- What the confirmations of a job do, on the Provider's and on the Consumer's side, and what
-- `fail_job` does to a job that the Provider has completed or confirmed.
use derouter.Base.{
  ℕ, String, ◌≡◌, refl, sym, ap, ◌∙◌, true, inl, inr, Option, none, some, arith, List, ok, err,
  some_unique, Option-cases, is_some, ==_iff, text_eq, bytes_eq, nat_eq,
}
use derouter.Base.Int.{ℤ}
use derouter.Dto.{PeerId, DateTime, JobRecord}
use derouter.Db.{OfferSnapshotRow, ServiceJobRow, Database, update_job}
use derouter.Db.Jobs.{Primitives, hash_job, row_by_job_id, to_record, snapshot_of}
use derouter.Db.Jobs.Fail.{set_failed, fail_job}
use derouter.Db.Jobs.Provider.{
  provider_complete_job, provider_confirm_job, provider_payload, set_completed, set_verified,
  already_confirmed,
}
use derouter.Db.Jobs.Lookup.{
  KeepsKey, updated_row, row_snapshot, find_by_job_id_lem, find_by_job_id-missing,
}
use derouter.Db.Jobs.Completion.{UniqueJobs, provider_complete_job-ok}

set_verified-KeepsKey :
    (signature : List ℕ) (now : DateTime) → KeepsKey (set_verified signature now)
set_verified-KeepsKey signature now = record {
  rowid = λ j. refl;
  snapshot = λ j. refl;
  job_id = λ j. refl;
}

refuses_confirmed :
    (x : Primitives) (consumer provider : PeerId) (id : String) (db : Database) (j : ServiceJobRow)
    → row_by_job_id db provider id ≡ some j
    → j.consumer_peer_id ≡ consumer
    → is_some j.signature_confirmed_at_local ≡ true
    → (hash key signature : List ℕ) (now : DateTime)
    → provider_confirm_job x db consumer provider id hash key signature now ≡ err already_confirmed
unfolding provider_confirm_job
refuses_confirmed x consumer provider id db j e c done hash key signature now =
    let (s, e', _, _) = row_snapshot db provider id j e in
    ground (arith, find_by_job_id_lem db provider id j s e e', ==_iff j.consumer_peer_id consumer)

module _ (x : Primitives) (db : Database) (consumer provider : PeerId) (id : String)
    (job_hash public_key signature : List ℕ) (now : DateTime) where
  -- If `provider_confirm_job` succeeds, the job is the sender's, unconfirmed, completed and not
  -- failed; the hash sent is the hash of the stored job, the key decodes and verifies the signature
  -- of that hash; and the job's row then holds the signature, the confirmation time and no error.
  pub provider_confirm_job-ok :
      (db' : Database)
      → provider_confirm_job x db consumer provider id job_hash public_key signature now ≡ ok db'
      → (j : ServiceJobRow) × (s : OfferSnapshotRow) × (row_by_job_id db provider id ≡ some j)
        × (snapshot_of db j ≡ some s)
        × (j.consumer_peer_id ≡ consumer)
        × (j.signature_confirmed_at_local ≡ none)
        × (j.reason ≡ none)
        × ((public_payload : String) × (completed_at_sync : ℤ) × (j.public_payload
              ≡ some public_payload)
            × (j.completed_at_sync ≡ some completed_at_sync)
            × (job_hash
                ≡ hash_job x
                    (provider_payload x (to_record j s) id public_payload completed_at_sync)))
        × ((key : x.PublicKey) × (x.try_decode_protobuf public_key ≡ some key)
            × (x.verify key job_hash signature ≡ true))
        × (row_by_job_id db' provider id
            ≡ some (record j {
              consumer_signature = some signature;
              signature_confirmed_at_local = some now;
              confirmation_error = none;
            }))
  unfolding provider_confirm_job
  provider_confirm_job-ok db' h = elim (Option-cases (row_by_job_id db provider id)) [
    | inl e ↦ absurd (ground (arith, e, find_by_job_id-missing db provider id e))
    | inr (j, e) ↦
        let (s, e', _, _) = row_snapshot db provider id j e in
        let read = find_by_job_id_lem db provider id j s e e' in
        let row =
          updated_row db (set_verified signature now) (set_verified-KeepsKey signature now) provider
            id j e in
        (
          j,
          s,
          e,
          e',
          (==_iff j.consumer_peer_id consumer).0 (ground (arith, read)),
          ground (arith, read),
          ground (arith, read),
          elim (Option-cases j.public_payload) [
            | inl e₁ ↦ absurd (ground (arith, read, e₁))
            | inr (p, e₁) ↦ elim (Option-cases j.completed_at_sync) [
              | inl e₂ ↦ absurd (ground (arith, read, e₂))
              | inr (t, e₂) ↦ (
                p,
                t,
                e₁,
                e₂,
                (==_iff job_hash (hash_job x (provider_payload x (to_record j s) id p t))).0
                    (ground (arith, read)),
              )
            ]
          ],
          elim (Option-cases (x.try_decode_protobuf public_key)) [
            | inl e₁ ↦ absurd (ground (arith, read, e₁))
            | inr (k, e₁) ↦ (k, e₁, ground (arith, read))
          ],
          ground (arith, read, row),
        )
  ]

  -- After a confirmation the same Consumer's second confirmation is refused as already made.
  pub provider_confirm_job_twice :
      (db' : Database) (hash' key' signature' : List ℕ) (now' : DateTime)
      → provider_confirm_job x db consumer provider id job_hash public_key signature now ≡ ok db'
      → provider_confirm_job x db' consumer provider id hash' key' signature' now'
        ≡ err already_confirmed
  provider_confirm_job_twice db' hash' key' signature' now' h =
      let (j, s, _, _, c, _, _, _, _, row) = provider_confirm_job-ok db' h in
      refuses_confirmed x consumer provider id db' (set_verified signature now j) row c refl hash'
        key' signature' now'

-- `fail_job` tests only the reason and the local completion time, whatever else the row holds.
fail_job-accepts :
    (db : Database) (provider : PeerId) (id reason : String) (reason_class : Option ℤ)
    (private_payload : Option String) (now : DateTime) (j : ServiceJobRow)
    → row_by_job_id db provider id ≡ some j
    → j.reason ≡ none
    → j.completed_at_local ≡ none
    → fail_job db provider id reason reason_class private_payload now
      ≡ ok (update_job j.rowid (set_failed reason reason_class private_payload now) db)
unfolding fail_job
fail_job-accepts db provider id reason reason_class private_payload now j e r c = ground arith

-- A job that the Provider has completed with `provider_complete_job`, and whose Consumer's signature
-- it has then confirmed, can still be marked as failed: where the row had no local completion time,
-- `fail_job` succeeds, although both a completion and a confirmation are recorded.
pub confirmed_job_may_fail :
    (x : Primitives) (db db' db'' : Database) (consumer provider : PeerId) (id : String)
    (delta private_payload : Option String) (public_payload : String) (t : ℤ) (job : JobRecord)
    (hash key signature : List ℕ) (now : DateTime) (j : ServiceJobRow) (reason : String)
    (reason_class : Option ℤ) (p : Option String) (later : DateTime)
    → UniqueJobs db
    → row_by_job_id db provider id ≡ some j
    → j.completed_at_local ≡ none
    → provider_complete_job x db provider id delta private_payload public_payload t ≡ ok (job, db')
    → provider_confirm_job x db' consumer provider id hash key signature now ≡ ok db''
    → fail_job db'' provider id reason reason_class p later
      ≡ ok (update_job j.rowid (set_failed reason reason_class p later) db'')
confirmed_job_may_fail x db db' db'' consumer provider id delta private_payload public_payload t job
      hash key signature now j reason reason_class p later unique found open_ completed confirmed =
    let (j₁, e₁, r₁, _, _, f₁, _) =
      provider_complete_job-ok x db provider id delta private_payload public_payload t unique job
        db' completed in
    let (j₂, _, e₂, _, _, _, r₂, _, _, f₂) =
      provider_confirm_job-ok x db' consumer provider id hash key signature now db'' confirmed in
    let one = some_unique e₁ found in
    let two : j₂ ≡ set_completed delta public_payload private_payload t j =
      some_unique e₂
        (f₁ ∙ ap (λ r. some (set_completed delta public_payload private_payload t r)) one) in
    rw (ap (λ (r : ServiceJobRow). r.rowid) (sym two)) (
      fail_job-accepts db'' provider id reason reason_class p later (set_verified signature now j₂)
        f₂ r₂ (ap (λ (r : ServiceJobRow). r.completed_at_local) two ∙ open_))
