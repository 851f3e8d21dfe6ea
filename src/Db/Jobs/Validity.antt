-- ===== src/Db/Jobs/Validity.antt =====
-- The invariant of the jobs table (src/db/service_jobs).
use derouter.Base.{
  ◌≡◌, Bool, true, ◌&&◌, List, [], ◌∷◌, ◌++◌, is_some, is_none, ◌==◌, nat_eq, find_first,
  update_where, false, if◌then◌else◌,
}
use derouter.Db.{ServiceJobRow, Database, OfferSnapshotRow}
use derouter.Db.Rowids.{HasUniqueIds}

-- A job row between two operations.
pub record IsValidJob (snapshots : List OfferSnapshotRow) (j : ServiceJobRow) : Type 0 where
  -- the foreign key
  pub offered :
      is_some (find_first (λ (s : OfferSnapshotRow). s.rowid == j.offer_snapshot_rowid) snapshots)
      ≡ true
  -- a signature that waits for its confirmation has its hash
  pub hashed :
      (is_some j.consumer_signature && is_none j.signature_confirmed_at_local) ≡ true
      → is_some j.hash ≡ true
  -- a completed job has its public payload
  pub described : is_some j.completed_at_sync ≡ true → is_some j.public_payload ≡ true
  -- a failed job has a local completion time
  pub timed : is_some j.reason ≡ true → is_some j.completed_at_local ≡ true

abbrev pub All {ℓ κ} : {A : Type ℓ} → (A → Type κ) → List A → Type κ
All P [] = Unit
All P (r ∷ rs) = P r × All P rs

pub All-append {ℓ κ} :
    {A : Type ℓ} (P : A → Type κ) (xs : List A) (y : A) → All P xs → P y → All P (xs ++ y ∷ [])
All-append P [] y h hy = (hy, tt)
All-append P (x ∷ xs) y h hy = (h.0, All-append P xs y h.1 hy)

pub All-update_where {ℓ κ} :
    {A : Type ℓ} (P : A → Type κ) (q : A → Bool) (f : A → A) (xs : List A)
    → ((a : A) → P a → P (f a))
    → All P xs
    → All P (update_where q f xs)
unfolding update_where
All-update_where P q f [] keep h = tt
All-update_where P q f (x ∷ xs) keep h = (
  (elim (q x) as (λ b. P (if b then f x else x)) [ true ↦ keep x h.0 | false ↦ h.0 ]),
  All-update_where P q f xs keep h.1,
)

pub record IsValidJobs (db : Database) : Type 0 where
  pub unique : HasUniqueIds (λ (j : ServiceJobRow). j.rowid) db.service_jobs
  pub valid : All (IsValidJob db.offer_snapshots) db.service_jobs
