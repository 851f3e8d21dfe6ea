-- ===== src/Rpc/Queries/Jobs.antt =====
-- src/rpc/procedure/query/jobs.rs with src/db/service_jobs/query_all.rs: one page, and the page after it.
use derouter.Base.{
  ℕ, zero, suc, ◌<◌, ◌≤◌, ◌≡◌, refl, ap, ◌∙◌, Bool, true, false, ◌&&◌, inl, inr, Option, none, some,
  List, [], ◌∷◌, arith, ok, length, take, length-take-le, select, any, leb, text_eq, nat_eq, ◌⊎◌,
  subst, sym, Bool-cases, and_left,
}
use derouter.Base.Int.{ℤ, pos, negsuc, pos_part}
use derouter.Dto.{JobRecord}
use derouter.Db.{ServiceJobRow, Database}
use derouter.Db.Jobs.{snapshot_of, to_record}
use derouter.Db.Jobs.QueryAll.{JobFilters, after_cursor, asked_in, query_jobs, has_no_filter}
use derouter.Db.Offers.{passes}
use derouter.Rpc.Queries.{jobs, handle_jobs_query_request}

-- All jobs, as the records that the client gets.
unfoldable pub records : Database → List ServiceJobRow → List JobRecord
records db [] = []
records db (j ∷ js) =
    let rest = records db js in
    elim (snapshot_of db j) [ none ↦ rest | some s ↦ to_record j s ∷ rest ]

-- The filters, on a record.
abbrev pub is_wanted : JobFilters → JobRecord → Bool
is_wanted f r =
    after_cursor f.rowid_cursor r.job_rowid
    && (passes f.protocol_ids r.offer_protocol_id
        && (passes f.provider_peer_ids r.provider_peer_id
            && passes f.consumer_peer_ids r.consumer_peer_id))

asked_in-select :
    (db : Database) (f : JobFilters) (js : List ServiceJobRow)
    → asked_in db f js ≡ select (is_wanted f) (records db js)
unfolding asked_in records select
asked_in-select db f [] = refl
asked_in-select db f (j ∷ js) = ground (arith, asked_in-select db f js)

-- A query of jobs that is answered with a page has a filter and a limit from 1 to 100, and the page
-- has the first jobs, as many as the limit at most, of those whose records pass all filters, in the
-- order in which the rows are visited.
pub handle_jobs_query-page :
    (scan : List ServiceJobRow → List ServiceJobRow) (db : Database) (f : JobFilters) (limit : ℤ)
    (page : List JobRecord)
    → handle_jobs_query_request scan db f limit ≡ ok (jobs page)
    → (has_no_filter f ≡ false)
      × ((1 ≤ pos_part limit)
          × ((pos_part limit ≤ 100)
              × ((length page ≤ pos_part limit)
                  × (page
                      ≡ take
                          (pos_part limit)
                          (select (is_wanted f) (records db (scan db.service_jobs)))))))
unfolding handle_jobs_query_request query_jobs
handle_jobs_query-page scan db f (pos n) page h = ground (
  arith,
  h,
  length-take-le n (select (is_wanted f) (records db (scan db.service_jobs))),
  asked_in-select db f (scan db.service_jobs),
)
handle_jobs_query-page scan db f (negsuc n) page h = absurd (ground (arith, h))

-- The records come in the order of their rowids.
abbrev pub IsAscending : List JobRecord → Type 0
IsAscending [] = Unit
IsAscending (r ∷ rs) = (any (λ x. leb x.job_rowid r.job_rowid) rs ≡ false) × IsAscending rs

abbrev pub drop {ℓ} : {A : Type ℓ} → ℕ → List A → List A
drop zero xs = xs
drop (suc n) [] = []
drop (suc n) (x ∷ xs) = drop n xs

abbrev pub last {ℓ} : {A : Type ℓ} → List A → Option A
last [] = none
last (x ∷ []) = some x
last (x ∷ y ∷ xs) = last (y ∷ xs)

-- The filters with the cursor at the last job of a page.
abbrev pub next : JobFilters → JobRecord → JobFilters
next f r = record f { rowid_cursor = some (pos r.job_rowid) }

last-cons :
    {A : Type 0} (x : A) (xs : List A) {l : A}
    → last (x ∷ xs) ≡ some l
    → (last xs ≡ some l) ⊎ ((xs ≡ []) × (x ≡ l))
last-cons x [] e = inr (refl, ground (arith, e))
last-cons x (y ∷ xs) e = inl e

drop_nothing : {A : Type 0} (n : ℕ) (xs : List A) → take n xs ≡ [] → drop n xs ≡ xs
drop_nothing zero xs e = refl
drop_nothing (suc n) [] e = refl
drop_nothing (suc n) (x ∷ xs) e = absurd (ground (arith, e))

select_in :
    {A : Type 0} (p : A → Bool) (x : A) (xs : List A)
    → p x ≡ true
    → select p (x ∷ xs) ≡ x ∷ select p xs
unfolding select
select_in p x xs e = rw e refl

select_out :
    {A : Type 0} (p : A → Bool) (x : A) (xs : List A)
    → p x ≡ false
    → select p (x ∷ xs) ≡ select p xs
unfolding select
select_out p x xs e = rw e refl

all_later :
    (k : ℕ) (r : JobRecord) (rs : List JobRecord)
    → any (λ (x : JobRecord). leb x.job_rowid k) (r ∷ rs) ≡ false
    → (k < r.job_rowid) × (any (λ (x : JobRecord). leb x.job_rowid k) rs ≡ false)
unfolding any
all_later k r rs h = ground (arith, h)

last_later :
    (p : JobRecord → Bool) (n k : ℕ) (rs : List JobRecord) {l : JobRecord}
    → any (λ (x : JobRecord). leb x.job_rowid k) rs ≡ false
    → last (take n (select p rs)) ≡ some l
    → k < l.job_rowid
last_later p zero k rs h e = absurd (ground (arith, e))
last_later p (suc n) k [] h e = unfold select in absurd (ground (arith, e))
last_later p (suc n) k (r ∷ rs) {l} h e = elim (Bool-cases (p r)) [
  | inl in_it ↦ elim (last-cons r (take n (select p rs)) (rw (select_in p r rs in_it) at e)) [
    | inl t ↦ last_later p n k rs (all_later k r rs h).1 t
    | inr (nil, same) ↦ subst (λ (x : JobRecord). k < x.job_rowid) same (all_later k r rs h).0
  ]
  | inr out ↦ last_later p (suc n) k rs (all_later k r rs h).1 (rw (select_out p r rs out) at e)
]

no_earlier :
    (f : JobFilters) (l : JobRecord) (rs : List JobRecord)
    → after_cursor f.rowid_cursor l.job_rowid ≡ true
    → any (λ x. leb x.job_rowid l.job_rowid) rs ≡ false
    → select (is_wanted (next f l)) rs ≡ select (is_wanted f) rs
unfolding select any
no_earlier f l [] c h = refl
no_earlier f l (r ∷ rs) c h = ground (arith, h, c, no_earlier f l rs c)

earlier_unwanted :
    (f : JobFilters) (r l : JobRecord) → r.job_rowid < l.job_rowid → is_wanted (next f l) r ≡ false
earlier_unwanted f r l h = ground (arith, h)

wanted_later :
    (f : JobFilters) (r : JobRecord)
    → is_wanted f r ≡ true
    → after_cursor f.rowid_cursor r.job_rowid ≡ true
wanted_later f r h = and_left (after_cursor f.rowid_cursor r.job_rowid) _ h

not_itself : (f : JobFilters) (r : JobRecord) → is_wanted (next f r) r ≡ false
not_itself f r = ground arith

-- Of records in the order of their rowids, those that pass the filters with the cursor at the last
-- job of a page are those that pass the filters themselves, less the page: no job is missed and none
-- comes twice.
pub next_page :
    (f : JobFilters) (n : ℕ) (rs : List JobRecord) (l : JobRecord)
    → IsAscending rs
    → last (take n (select (is_wanted f) rs)) ≡ some l
    → select (is_wanted (next f l)) rs ≡ drop n (select (is_wanted f) rs)
next_page f zero rs l asc e = absurd (ground (arith, e))
next_page f (suc n) [] l asc e = unfold select in absurd (ground (arith, e))
next_page f (suc n) (r ∷ rs) l (asc, rest) e = elim (Bool-cases (is_wanted f r)) [
  | inl in_it ↦
      elim (last-cons r (take n (select (is_wanted f) rs))
        (rw (select_in (is_wanted f) r rs in_it) at e)) [
          | inl t ↦
              select_out (is_wanted (next f l)) r rs
                (earlier_unwanted f r l (last_later (is_wanted f) n r.job_rowid rs asc t))
              ∙ next_page f n rs l rest t
              ∙ ap (drop (suc n)) (sym (select_in (is_wanted f) r rs in_it))
          | inr (nil, same) ↦
              subst
                (λ (x : JobRecord).
                  select (is_wanted (next f x)) (r ∷ rs)
                  ≡ drop (suc n) (select (is_wanted f) (r ∷ rs)))
                same
                (select_out (is_wanted (next f r)) r rs (not_itself f r)
                  ∙ no_earlier f r rs (wanted_later f r in_it) asc
                  ∙ sym (drop_nothing n (select (is_wanted f) rs) nil)
                  ∙ ap (drop (suc n)) (sym (select_in (is_wanted f) r rs in_it)))
        ]
  | inr out ↦
      let t : last (take (suc n) (select (is_wanted f) rs)) ≡ some l =
        rw (select_out (is_wanted f) r rs out) at e in
      select_out (is_wanted (next f l)) r rs
        (earlier_unwanted f r l (last_later (is_wanted f) (suc n) r.job_rowid rs asc t))
      ∙ next_page f (suc n) rs l rest t
      ∙ ap (drop (suc n)) (sym (select_out (is_wanted f) r rs out))
]

-- Where the rows are visited in the order of their rowids, and a query of jobs was answered with a
-- page that is not empty, the query with the same filters and the cursor at the last job of the page,
-- with any limit from 1 to 100, is answered with the jobs that follow: all that pass the filters, less
-- as many as the first limit, and of these the first ones.
pub handle_jobs_query-next :
    (scan : List ServiceJobRow → List ServiceJobRow) (db : Database) (f : JobFilters) (n m : ℕ)
    (page : List JobRecord) (l : JobRecord)
    → IsAscending (records db (scan db.service_jobs))
    → handle_jobs_query_request scan db f (pos n) ≡ ok (jobs page)
    → last page ≡ some l
    → 1 ≤ m
    → m ≤ 100
    → handle_jobs_query_request scan db (next f l) (pos m)
      ≡ ok (jobs (take m (drop n (select (is_wanted f) (records db (scan db.service_jobs))))))
unfolding handle_jobs_query_request query_jobs
handle_jobs_query-next scan db f n m page l asc h e lo hi =
    let all = records db (scan db.service_jobs) in
    let p = handle_jobs_query-page scan db f (pos n) page h in
    let same : page ≡ take n (select (is_wanted f) all) = p.1.1.1.1 in
    let after = next_page f n all l asc (ap last (sym same) ∙ e) in
    ground (arith, lo, hi, after, asked_in-select db (next f l) (scan db.service_jobs))
