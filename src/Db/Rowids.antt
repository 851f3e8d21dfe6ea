-- ===== src/Db/Rowids.antt =====
-- Rowids are unique in a table: SQLite gives a new row the number after the largest.
use derouter.Base.{
  ℕ, ◌<◌, ◌≡◌, refl, Bool, true, Option, none, some, List, [], ◌∷◌, ◌++◌, arith, ◌==◌, nat_eq,
  ==_iff, find_first, update_where, find_first-update_where, find_first-append, is_none,
}
use derouter.Db.{max_rowid, next_rowid}

module _ {ℓ} {A : Type ℓ} (id : A → ℕ) where
  -- The first row with the given rowid.
  abbrev pub by_id : ℕ → List A → Option A
  by_id n rs = find_first (λ r. id r == n) rs

  abbrev pub HasUniqueIds : List A → Type 0
  HasUniqueIds [] = Unit
  HasUniqueIds (r ∷ rs) = (is_none (by_id (id r) rs) ≡ true) × HasUniqueIds rs

  pub by_id-found :
      (p : A → Bool) (rs : List A) (r : A)
      → HasUniqueIds rs
      → find_first p rs ≡ some r
      → by_id (id r) rs ≡ some r
  unfolding find_first
  by_id-found p [] r u h = ground arith
  by_id-found p (q ∷ rs) r u h = ground (arith, by_id-found p rs r u.1, ==_iff (id q) (id r))

  pub HasUniqueIds-update_where :
      (q : A → Bool) (f : A → A) (rs : List A)
      → ((r : A) → id (f r) ≡ id r)
      → HasUniqueIds rs
      → HasUniqueIds (update_where q f rs)
  unfolding update_where
  HasUniqueIds-update_where q f [] keep u = tt
  HasUniqueIds-update_where q f (r ∷ rs) keep u = ground (
    arith,
    keep r,
    find_first-update_where (λ s. id s == id r) q f rs (λ s. rw (keep s)),
    HasUniqueIds-update_where q f rs keep u.1,
  )

  by_id-large : (n : ℕ) (rs : List A) → max_rowid id rs < n → by_id n rs ≡ none
  unfolding find_first
  by_id-large n [] h = refl
  by_id-large n (r ∷ rs) h = ground (arith, by_id-large n rs)

  unique_append :
      (new : A) (rs : List A)
      → by_id (id new) rs ≡ none
      → HasUniqueIds rs
      → HasUniqueIds (rs ++ new ∷ [])
  unfolding find_first
  unique_append new [] h u = ground arith
  unique_append new (r ∷ rs) h u =
      ground (arith, find_first-append (λ s. id s == id r) rs (new ∷ []), unique_append new rs)

  pub HasUniqueIds-append :
      (new : A) (rs : List A)
      → id new ≡ next_rowid id rs
      → HasUniqueIds rs
      → HasUniqueIds (rs ++ new ∷ [])
  HasUniqueIds-append new rs e u = unique_append new rs (by_id-large (id new) rs (omega arith)) u
