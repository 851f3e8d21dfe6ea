-- ===== src/Base/Maps.antt =====
-- HashMap as an association list. The order of the entries stands for the order in which the map
-- would be iterated; `insert` replaces the value of a key that is there.
use mathlib.Core.Path.{◌≡◌, refl}
use mathlib.Core.List.{List, [], ◌∷◌}
use mathlib.Core.Bool.{Bool, true, false, ◌&&◌}
use mathlib.Core.Option.{Option, none, some}
use native.Mathlib.Omega.{arith}
use derouter.Base.Tests.{Keyed, ◌==◌, if◌then◌else◌, is_none, Bool-cases}
use mathlib.Core.Logic.{inl, inr}
use mathlib.Core.Path.{subst}

abbrev pub Map {ℓ κ} : Type ℓ → Type κ → Type (ℓ ⊔ κ)
Map K V = List (K × V)

module _ {ℓ κ} {K : Type ℓ} {V : Type κ} ⦃keyed : Keyed K⦄ where
  unfoldable pub lookup : K → Map K V → Option V
  lookup key [] = none
  lookup key ((at, value) ∷ rest) = if at == key then some value else lookup key rest

  unfoldable pub remove : K → Map K V → Map K V
  remove key [] = []
  remove key ((at, value) ∷ rest) =
      let left = remove key rest in if at == key then left else (at, value) ∷ left

  pub lookup-remove :
      (key other : K) (m : Map K V)
      → lookup other (remove key m) ≡ (if key == other then none else lookup other m)
  unfolding lookup remove
  lookup-remove key other [] = ground arith
  lookup-remove key other ((at, value) ∷ rest) = ground (
    arith,
    keyed.same_iff key other,
    keyed.same_iff at key,
    keyed.same_iff at other,
    lookup-remove key other rest,
  )

  unfoldable pub insert : K → V → Map K V → Map K V
  insert key new [] = (key, new) ∷ []
  insert key new ((at, value) ∷ rest) =
      if at == key then (key, new) ∷ rest else (at, value) ∷ insert key new rest

  pub lookup-insert :
      (key other : K) (new : V) (m : Map K V)
      → lookup other (insert key new m) ≡ (if key == other then some new else lookup other m)
  unfolding lookup insert
  lookup-insert key other new [] = refl
  lookup-insert key other new ((at, value) ∷ rest) = ground (
    arith,
    keyed.same_iff at key,
    keyed.same_iff at other,
    keyed.same_iff key other,
    lookup-insert key other new rest,
  )

  -- No key stands twice, as in a HashMap.
  abbrev pub HasUniqueKeys : Map K V → Type 0
  HasUniqueKeys [] = Unit
  HasUniqueKeys ((k, v) ∷ m) = (is_none (lookup k m) ≡ true) × HasUniqueKeys m

  pub HasUniqueKeys-insert :
      (k : K) (v : V) (m : Map K V) → HasUniqueKeys m → HasUniqueKeys (insert k v m)
  unfolding lookup insert
  HasUniqueKeys-insert k v [] u = ground arith
  HasUniqueKeys-insert k v ((j, w) ∷ m) u = ground (
    arith,
    u.0,
    u.1,
    HasUniqueKeys-insert k v m u.1,
    lookup-insert k j v m,
    keyed.same_iff k j,
    keyed.same_iff j k,
  )

  pub HasUniqueKeys-remove : (k : K) (m : Map K V) → HasUniqueKeys m → HasUniqueKeys (remove k m)
  unfolding lookup remove
  HasUniqueKeys-remove k [] u = tt
  HasUniqueKeys-remove k ((j, w) ∷ m) u =
      ground (arith, u.0, HasUniqueKeys-remove k m u.1, lookup-remove k j m, keyed.same_iff k j)

-- Maps of maps: `m.get(k).and_then(|m| m.get(j))`, and the two insertions that enter a value.
module _ {ℓ κ μ} {K : Type ℓ} {J : Type κ} {V : Type μ} ⦃keyed : Keyed K⦄ ⦃d : Keyed J⦄ where
  unfoldable pub nested : K → J → Map K (Map J V) → Option V
  nested k j m = elim (lookup k m) [ none ↦ none | some inner ↦ lookup j inner ]

  unfoldable pub insert_nested : K → J → V → Map K (Map J V) → Map K (Map J V)
  insert_nested k j v m =
      insert k (insert j v (elim (lookup k m) [ none ↦ [] | some inner ↦ inner ])) m

  pub nested-insert_nested :
      (k k' : K) (j j' : J) (v : V) (m : Map K (Map J V))
      → nested k' j' (insert_nested k j v m)
        ≡ (if (k == k') && (j == j') then some v else nested k' j' m)
  unfolding nested insert_nested lookup
  nested-insert_nested k k' j j' v m =
      let inner : Map J V = elim (lookup k m) [ none ↦ [] | some i ↦ i ] in
      ground (
        arith,
        lookup-insert k k' (insert j v inner) m,
        lookup-insert j j' v inner,
        keyed.same_iff k k',
      )

  -- No key stands twice, neither in the outer map nor in an inner one.
  abbrev pub HasUniqueNested : Map K (Map J V) → Type (κ ⊔ μ)
  HasUniqueNested [] = Unit
  HasUniqueNested ((k, inner) ∷ m) =
      (is_none (lookup k m) ≡ true) × (HasUniqueKeys inner × HasUniqueNested m)

  pub HasUniqueNested-lookup :
      (k : K) (m : Map K (Map J V)) {inner : Map J V}
      → HasUniqueNested m
      → lookup k m ≡ some inner
      → HasUniqueKeys inner
  unfolding lookup
  HasUniqueNested-lookup k [] u e = absurd (ground (arith, e))
  HasUniqueNested-lookup k ((j, i) ∷ m) {inner} (u, (v, w)) e = elim (Bool-cases (j == k)) [
    | inl at ↦ subst HasUniqueKeys (ground (arith, at, e)) v
    | inr other ↦ HasUniqueNested-lookup k m w (ground (arith, other, e))
  ]

  pub HasUniqueNested-insert :
      (k : K) (inner : Map J V) (m : Map K (Map J V))
      → HasUniqueKeys inner
      → HasUniqueNested m
      → HasUniqueNested (insert k inner m)
  unfolding lookup insert
  HasUniqueNested-insert k inner [] v u = (refl, (v, tt))
  HasUniqueNested-insert k inner ((j, i) ∷ m) v (u, (w, x)) =
      choose (j == k) refl (HasUniqueNested-insert k inner m v x)
    where
      choose :
          (b : Bool)
          → (j == k) ≡ b
          → HasUniqueNested (insert k inner m)
          → HasUniqueNested (if b then (k, inner) ∷ m else (j, i) ∷ insert k inner m)
      choose true e rest = (ground (arith, u, keyed.same_iff j k, e), (v, x))
      choose false e rest = (
        ground (arith, u, e, lookup-insert k j inner m, keyed.same_iff k j, keyed.same_iff j k),
        (w, rest),
      )
