-- ===== src/Db/Jobs/Lookup.antt =====
-- Lookups of a job row across an update of one row.
use derouter.Base.{
  ℕ, String, ◌≡◌, ◌≢◌, refl, true, Option, none, some, arith, ◌==◌, nat_eq, text_eq, ==_refl,
  ==_iff, find_first-holds, find_first-update_where, map_option, if◌then◌else◌, and_left, and_right,
}
use mathlib.Core.Bool.{false≢true}
use derouter.Dto.{PeerId}
use derouter.Db.{OfferSnapshotRow, ServiceJobRow, Database, update_job}
use derouter.Db.Jobs.{
  snapshot_of, is_job, provided_by, to_record, joined, record_of, find_by_rowid, find_by_job_id,
  row_by_rowid, row_by_job_id,
}

-- The update leaves alone the columns by which rows are found.
pub record KeepsKey (f : ServiceJobRow → ServiceJobRow) : Type 0 where
  pub rowid : (j : ServiceJobRow) → (f j).rowid ≡ j.rowid
  pub snapshot : (j : ServiceJobRow) → (f j).offer_snapshot_rowid ≡ j.offer_snapshot_rowid
  pub job_id : (j : ServiceJobRow) → (f j).provider_job_id ≡ j.provider_job_id

module _ (db : Database) (f : ServiceJobRow → ServiceJobRow) (keeps : KeepsKey f) where
  is_job-keeps :
      (provider : PeerId) (k : String) (j : ServiceJobRow)
      → is_job db provider k (f j) ≡ is_job db provider k j
  is_job-keeps provider k j = rw (keeps.snapshot j, keeps.job_id j)

  pub row_by_job_id-update_job :
      (provider : PeerId) (k : String) (id : ℕ)
      → row_by_job_id (update_job id f db) provider k
        ≡ map_option (λ j. if j.rowid == id then f j else j) (row_by_job_id db provider k)
  unfolding update_job
  row_by_job_id-update_job provider k id =
      find_first-update_where (is_job db provider k) (λ j. j.rowid == id) f db.service_jobs
        (is_job-keeps provider k)

  pub row_by_rowid-update_job :
      (n id : ℕ)
      → row_by_rowid (update_job id f db) n
        ≡ map_option (λ j. if j.rowid == id then f j else j) (row_by_rowid db n)
  unfolding update_job
  row_by_rowid-update_job n id =
      find_first-update_where (λ j. j.rowid == n) (λ j. j.rowid == id) f db.service_jobs
        (λ j. rw (keeps.rowid j))

  -- The row that is found is the row that is updated.
  pub updated_row :
      (provider : PeerId) (k : String) (j : ServiceJobRow)
      → row_by_job_id db provider k ≡ some j
      → row_by_job_id (update_job j.rowid f db) provider k ≡ some (f j)
  updated_row provider k j h =
      rw (row_by_job_id-update_job provider k j.rowid, h) (rw (==_refl j.rowid))

  pub rowid_of_row : (n : ℕ) (j : ServiceJobRow) → row_by_rowid db n ≡ some j → j.rowid ≡ n
  rowid_of_row n j h = (==_iff j.rowid n).0 (find_first-holds (λ j. j.rowid == n) db.service_jobs h)

  -- The other rows stay as they are.
  pub other_row : (n id : ℕ) → n ≢ id → row_by_rowid (update_job id f db) n ≡ row_by_rowid db n
  other_row n id ne = rw (row_by_rowid-update_job n id) (go (row_by_rowid db n) refl)
    where
      go :
          (o : Option ServiceJobRow)
          → row_by_rowid db n ≡ o
          → map_option (λ j. if j.rowid == id then f j else j) o ≡ o
      go none e = refl
      go (some j) e = ground (arith, rowid_of_row n j e)

provided_by-some :
    (provider : PeerId) (o : Option OfferSnapshotRow)
    → provided_by provider o ≡ true
    → (s : OfferSnapshotRow) × (o ≡ some s) × (s.provider_peer_id ≡ provider)
provided_by-some provider none h = absurd (false≢true h)
provided_by-some provider (some s) h = (s, refl, (==_iff s.provider_peer_id provider).0 h)

-- A row that is found has a snapshot of the provider, and the job ID.
pub row_snapshot :
    (db : Database) (provider : PeerId) (k : String) (j : ServiceJobRow)
    → row_by_job_id db provider k ≡ some j
    → (s : OfferSnapshotRow) × (snapshot_of db j ≡ some s)
      × (s.provider_peer_id ≡ provider)
      × (j.provider_job_id ≡ k)
row_snapshot db provider k j h =
    let found = find_first-holds (is_job db provider k) db.service_jobs h in
    let (s, e, p) =
      provided_by-some provider (snapshot_of db j)
        (and_left (provided_by provider (snapshot_of db j)) (j.provider_job_id == k) found) in
    (
      s,
      e,
      p,
      (==_iff j.provider_job_id k).0
          (and_right (provided_by provider (snapshot_of db j)) (j.provider_job_id == k) found),
    )

pub find_by_job_id_lem :
    (db : Database) (provider : PeerId) (k : String) (j : ServiceJobRow) (s : OfferSnapshotRow)
    → row_by_job_id db provider k ≡ some j
    → snapshot_of db j ≡ some s
    → find_by_job_id db provider k ≡ some (to_record j s)
unfolding find_by_job_id
find_by_job_id_lem db provider k j s h e = rw (h, record_of) (rw (e, joined))

pub find_by_rowid_lem :
    (db : Database) (id : ℕ) (j : ServiceJobRow) (s : OfferSnapshotRow)
    → row_by_rowid db id ≡ some j
    → snapshot_of db j ≡ some s
    → find_by_rowid db id ≡ some (to_record j s)
unfolding find_by_rowid
find_by_rowid_lem db id j s h e = rw (h, record_of) (rw (e, joined))

pub offer_snapshots-update_job :
    (db : Database) (id : ℕ) (f : ServiceJobRow → ServiceJobRow)
    → (update_job id f db).offer_snapshots ≡ db.offer_snapshots
unfolding update_job
offer_snapshots-update_job db id f = refl

pub snapshot_of-update_job :
    (db : Database) (id : ℕ) (f : ServiceJobRow → ServiceJobRow) (j : ServiceJobRow)
    → snapshot_of (update_job id f db) j ≡ snapshot_of db j
unfolding update_job
snapshot_of-update_job db id f j = refl

pub find_by_job_id-missing :
    (db : Database) (provider : PeerId) (k : String)
    → row_by_job_id db provider k ≡ none
    → find_by_job_id db provider k ≡ none
unfolding find_by_job_id
find_by_job_id-missing db provider k h = rw (h, record_of)
