-- ===== src/Db/Jobs/Total.antt =====
-- Panics and the query of unconfirmed jobs on a valid table (src/db/service_jobs).
use derouter.Base.{
  ℕ, String, ◌≡◌, ◌≢◌, refl, ◌∙◌, Bool, inl, inr, some, List, [], ◌∷◌, arith, panic, Option-cases,
  Bool-cases, subst, found_head, found_tail, find_first, ◌==◌, nat_eq, text_eq, ==_refl,
}
use derouter.Dto.{PeerId, DateTime}
use derouter.Db.{OfferSnapshotRow, ServiceJobRow, Database, update_job}
use derouter.Db.Jobs.{Primitives, snapshot_of, row_by_rowid, row_by_job_id, is_job}
use derouter.Db.Jobs.Consumer.{consumer_confirm_job, set_confirmed}
use derouter.Db.Jobs.Provider.{provider_confirm_job}
use derouter.Db.Jobs.Lookup.{
  row_snapshot, find_by_job_id_lem, find_by_job_id-missing, find_by_rowid_lem,
  row_by_rowid-update_job, snapshot_of-update_job, rowid_of_row,
}
use derouter.Db.Jobs.Unconfirmed.{UnconfirmedJob}
use derouter.Db.Jobs.Validity.{IsValidJob, IsValidJobs, All}

All-found {ℓ κ} :
    {A : Type ℓ} (P : A → Type κ) (p : A → Bool) (xs : List A) (a : A)
    → All P xs
    → find_first p xs ≡ some a
    → P a
unfolding find_first
All-found P p [] a h e = absurd (ground (arith, e))
All-found P p (x ∷ xs) a h e = elim (Bool-cases (p x)) [
  | inl t ↦ subst P (found_head p x xs a t e) h.0
  | inr f ↦ All-found P p xs a h.1 (found_tail p x xs a f e)
]

module _ (db : Database) (v : IsValidJobs db) where
  -- `provider_confirm_job` does not panic on a valid table.
  pub provider_confirm_job-ne-panic :
      (x : Primitives) (consumer provider : PeerId) (id : String) (hash key signature : List ℕ)
      (now : DateTime)
      → provider_confirm_job x db consumer provider id hash key signature now ≢ panic
  unfolding provider_confirm_job
  provider_confirm_job-ne-panic x consumer provider id hash key signature now h =
      elim (Option-cases (row_by_job_id db provider id)) [
        | inl e ↦ ground (arith, e, find_by_job_id-missing db provider id e)
        | inr (j, e) ↦
            let (s, e', _, _) = row_snapshot db provider id j e in
            let valid =
              All-found (IsValidJob db.offer_snapshots) (is_job db provider id) db.service_jobs j
                v.valid e in
            ground (arith, find_by_job_id_lem db provider id j s e e', valid.described)
      ]

  pub confirmed_row :
      (rowid : ℕ) (now : DateTime) (j : ServiceJobRow)
      → row_by_rowid db rowid ≡ some j
      → row_by_rowid (update_job rowid (set_confirmed now) db) rowid ≡ some (set_confirmed now j)
  confirmed_row rowid now j e =
      row_by_rowid-update_job db (set_confirmed now)
        (record { rowid = λ j. refl; snapshot = λ j. refl; job_id = λ j. refl }) rowid rowid
      ∙ rw e (
          rw
            (rowid_of_row db (set_confirmed now)
              (record { rowid = λ j. refl; snapshot = λ j. refl; job_id = λ j. refl }) rowid j e)
            (rw (==_refl rowid)))

  -- `consumer_confirm_job` does not panic on a valid table.
  pub consumer_confirm_job-ne-panic :
      (rowid : ℕ) (now : DateTime) → consumer_confirm_job db rowid now ≢ panic
  unfolding consumer_confirm_job
  consumer_confirm_job-ne-panic rowid now h = elim (Option-cases (row_by_rowid db rowid)) [
    | inl e ↦ ground (arith, e)
    | inr (j, e) ↦
        let valid =
          All-found (IsValidJob db.offer_snapshots) (λ r. r.rowid == rowid) db.service_jobs j
            v.valid e in
        elim (Option-cases (snapshot_of db j)) [
          | inl e' ↦ ground (arith, e', valid.offered)
          | inr (s, e') ↦ ground (
            arith,
            e,
            find_by_rowid_lem (update_job rowid (set_confirmed now) db) rowid (set_confirmed now j)
                s (confirmed_row rowid now j e)
                (snapshot_of-update_job db rowid (set_confirmed now) (set_confirmed now j) ∙ e'),
          )
        ]
  ]

-- What is sent for a row: its job ID, hash and signature, to the Provider of its snapshot.
pub record Sends (db : Database) (j : ServiceJobRow) (u : UnconfirmedJob) : Type 0 where
  pub rowid : u.rowid ≡ j.rowid
  pub job_id : u.provider_job_id ≡ j.provider_job_id
  pub hash : j.hash ≡ some u.hash
  pub signature : j.consumer_signature ≡ some u.consumer_signature
  pub snapshot : OfferSnapshotRow
  pub of_snapshot : snapshot_of db j ≡ some snapshot
  pub target : u.provider_peer_id ≡ snapshot.provider_peer_id

-- The two lists agree one by one.
abbrev pub All₂ {ℓ κ} : {A : Type ℓ} {B : Type κ} → (A → B → Type 0) → List A → List B → Type 0
All₂ R [] [] = Unit
All₂ R [] (y ∷ ys) = ⊥
All₂ R (x ∷ xs) [] = ⊥
All₂ R (x ∷ xs) (y ∷ ys) = R x y × All₂ R xs ys
