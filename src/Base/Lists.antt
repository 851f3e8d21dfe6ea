-- ===== src/Base/Lists.antt =====
-- Lists searched, filtered and updated by Boolean tests, as the SQL statements do with tables.
use Prim.Native.Nat.{ℕ, zero, suc, ◌≤◌}
use mathlib.Core.Path.{◌≡◌, refl}
use mathlib.Core.Bool.{Bool, true, false, ◌||◌}
use mathlib.Core.List.{List, [], ◌∷◌, ◌++◌}
use mathlib.Core.Option.{Option, none, some}
use native.Mathlib.Omega.{arith}
use derouter.Base.Tests.{if◌then◌else◌, map_option}

module _ {ℓ} {A : Type ℓ} where
  abbrev pub length : List A → ℕ
  length [] = 0
  length (x ∷ xs) = suc (length xs)

  abbrev pub take : ℕ → List A → List A
  take zero xs = []
  take (suc n) [] = []
  take (suc n) (x ∷ xs) = x ∷ take n xs

  -- The first row that passes the test.
  unfoldable pub find_first : (A → Bool) → List A → Option A
  find_first p [] = none
  find_first p (x ∷ xs) = if p x then some x else find_first p xs

  unfoldable pub any : (A → Bool) → List A → Bool
  any p [] = false
  any p (x ∷ xs) = p x || any p xs

  unfoldable pub select : (A → Bool) → List A → List A
  select p [] = []
  select p (x ∷ xs) = let rest = select p xs in if p x then x ∷ rest else rest

  -- UPDATE … WHERE p.
  unfoldable pub update_where : (A → Bool) → (A → A) → List A → List A
  update_where p f [] = []
  update_where p f (x ∷ xs) = (if p x then f x else x) ∷ update_where p f xs

  pub length-take-le : (n : ℕ) (xs : List A) → length (take n xs) ≤ n
  length-take-le zero xs = omega arith
  length-take-le (suc n) [] = omega arith
  length-take-le (suc n) (x ∷ xs) = omega (arith, length-take-le n xs)

  -- An update that no test of `p` sees maps the row that `p` finds.
  pub find_first-update_where :
      (p q : A → Bool) (f : A → A) (xs : List A)
      → ((a : A) → p (f a) ≡ p a)
      → find_first p (update_where q f xs)
        ≡ map_option (λ a. if q a then f a else a) (find_first p xs)
  unfolding find_first update_where
  find_first-update_where p q f [] h = refl
  find_first-update_where p q f (x ∷ xs) h = ground (arith, h x, find_first-update_where p q f xs h)

  pub find_first-holds :
      (p : A → Bool) (xs : List A) {a : A} → find_first p xs ≡ some a → p a ≡ true
  unfolding find_first
  find_first-holds p [] h = ground arith
  find_first-holds p (x ∷ xs) {a} h = ground (arith, find_first-holds p xs {a = a})

  pub find_first-append :
      (p : A → Bool) (xs ys : List A)
      → find_first p (xs ++ ys)
        ≡ (elim (find_first p xs) [ none ↦ find_first p ys | some a ↦ some a ])
  unfolding find_first
  find_first-append p [] ys = refl
  find_first-append p (x ∷ xs) ys = ground (arith, find_first-append p xs ys)

  pub found_head :
      (p : A → Bool) (x : A) (xs : List A) (a : A)
      → p x ≡ true
      → find_first p (x ∷ xs) ≡ some a
      → x ≡ a
  unfolding find_first
  found_head p x xs a t e = ground arith

  pub found_tail :
      (p : A → Bool) (x : A) (xs : List A) (a : A)
      → p x ≡ false
      → find_first p (x ∷ xs) ≡ some a
      → find_first p xs ≡ some a
  unfolding find_first
  found_tail p x xs a f e = ground arith

  -- What no row passes, no updated row passes, if the update makes no row pass.
  pub any-update_where :
      (p q c : A → Bool) (f : A → A) (xs : List A)
      → ((a : A) → p a ≡ false → q (if c a then f a else a) ≡ false)
      → any p xs ≡ false
      → any q (update_where c f xs) ≡ false
  unfolding any update_where
  any-update_where p q c f [] h e = refl
  any-update_where p q c f (x ∷ xs) h e = ground (arith, h x, any-update_where p q c f xs h)

  pub any-or :
      (p q : A → Bool) (xs : List A)
      → any p xs ≡ false
      → any q xs ≡ false
      → any (λ a. p a || q a) xs ≡ false
  unfolding any
  any-or p q [] h g = refl
  any-or p q (x ∷ xs) h g = ground (arith, any-or p q xs)

  pub any_of_none :
      (p q : A → Bool) (xs : List A)
      → ((a : A) → p a ≡ false → q a ≡ false)
      → find_first p xs ≡ none
      → any q xs ≡ false
  unfolding any find_first
  any_of_none p q [] h e = refl
  any_of_none p q (x ∷ xs) h e = ground (arith, h x, any_of_none p q xs h)

  pub any-append_one :
      (p : A → Bool) (xs : List A) (y : A)
      → any p xs ≡ false
      → p y ≡ false
      → any p (xs ++ y ∷ []) ≡ false
  unfolding any
  any-append_one p [] y h e = ground arith
  any-append_one p (x ∷ xs) y h e = ground (arith, any-append_one p xs y)

  pub any_last : (p : A → Bool) (xs : List A) (y : A) → p y ≡ true → any p (xs ++ y ∷ []) ≡ true
  unfolding any
  any_last p [] y h = ground (arith, h)
  any_last p (x ∷ xs) y h = ground (arith, any_last p xs y h)

  pub any_head : (p : A → Bool) (x : A) (xs : List A) → any p (x ∷ xs) ≡ false → p x ≡ false
  unfolding any
  any_head p x xs h = ground arith

  pub any_tail : (p : A → Bool) (x : A) (xs : List A) → any p (x ∷ xs) ≡ false → any p xs ≡ false
  unfolding any
  any_tail p x xs h = ground arith

  -- The row that `p` finds is changed by an update of the rows that pass `p`.
  pub update_where-found :
      (p : A → Bool) (f : A → A) (xs : List A) {a : A}
      → ((a : A) → p (f a) ≡ p a)
      → find_first p xs ≡ some a
      → find_first p (update_where p f xs) ≡ some (f a)
  unfolding find_first update_where
  update_where-found p f [] h e = ground arith
  update_where-found p f (x ∷ xs) {a} h e = ground (arith, h x, update_where-found p f xs {a = a} h)
