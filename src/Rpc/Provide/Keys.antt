-- ===== src/Rpc/Provide/Keys.antt =====
-- What src/state.rs gets from its maps being HashMaps, and from the offers being entered one by one:
-- no key stands twice, and a protocol that stands in a module has an offer.
use derouter.Base.{
  ℕ, String, ◌≡◌, refl, subst, Bool, true, false, none, some, [], ◌∷◌, arith, text_eq, nat_eq,
  is_none, ◌==◌, ==_iff, if◌then◌else◌, inl, inr, Bool-cases, Option-cases,
}
use derouter.Base.Maps.{
  Map, lookup, insert, remove, lookup-insert, lookup-remove, insert_nested, HasUniqueKeys-insert,
  HasUniqueNested, HasUniqueNested-insert, HasUniqueNested-lookup,
}
use derouter.Rpc.Provide.{ProvidedOffer, ProviderModuleState}

abbrev pub HasContents : Map String (Map String ProvidedOffer) → Type 0
HasContents [] = Unit
HasContents ((protocol_id, []) ∷ rest) = ⊥
HasContents ((protocol_id, offer ∷ offers) ∷ rest) = HasContents rest

abbrev pub AreModules : Map ℕ ProviderModuleState → Type 0
AreModules [] = Unit
AreModules ((id, m) ∷ rest) =
    (is_none (lookup id rest) ≡ true)
    × (HasUniqueNested m.offers × (HasContents m.offers × AreModules rest))

pub AreModules-lookup :
    (id : ℕ) (modules : Map ℕ ProviderModuleState) {m : ProviderModuleState}
    → AreModules modules
    → lookup id modules ≡ some m
    → HasUniqueNested m.offers × HasContents m.offers
unfolding lookup
AreModules-lookup id [] u h = absurd (ground (arith, h))
AreModules-lookup id ((j, n) ∷ rest) {m} (k, (y, (c, u))) h = elim (Bool-cases (j == id)) [
  | inl at ↦
      subst (λ (x : ProviderModuleState). HasUniqueNested x.offers × HasContents x.offers)
        (ground (arith, at, h)) (y, c)
  | inr other ↦ AreModules-lookup id rest u (ground (arith, other, h))
]

AreModules-at :
    (id : ℕ) (m : ProviderModuleState) (j : ℕ) (n : ProviderModuleState)
    (rest : Map ℕ ProviderModuleState)
    → HasUniqueNested m.offers × HasContents m.offers
    → AreModules ((j, n) ∷ rest)
    → AreModules (insert id m rest)
    → (b : Bool) → (j == id) ≡ b
    → AreModules (if b then (id, m) ∷ rest else (j, n) ∷ insert id m rest)
AreModules-at id m j n rest (y, c) (k, (z, (d, u))) v true e =
    (ground (arith, k, ==_iff j id, e), (y, (c, u)))
AreModules-at id m j n rest (y, c) (k, (z, (d, u))) v false e =
    (ground (arith, k, e, lookup-insert id j m rest, ==_iff id j, ==_iff j id), (z, (d, v)))

pub AreModules-insert :
    (id : ℕ) (m : ProviderModuleState) (modules : Map ℕ ProviderModuleState)
    → HasUniqueNested m.offers × HasContents m.offers
    → AreModules modules
    → AreModules (insert id m modules)
unfolding lookup insert
AreModules-insert id m [] (y, c) u = (refl, (y, (c, tt)))
AreModules-insert id m ((j, n) ∷ rest) h (k, (z, (d, u))) =
    AreModules-at id m j n rest h (k, (z, (d, u))) (AreModules-insert id m rest h u) (j == id) refl

AreModules-keep :
    (id j : ℕ) (n : ProviderModuleState) (rest : Map ℕ ProviderModuleState)
    → AreModules ((j, n) ∷ rest)
    → AreModules (remove id rest)
    → (b : Bool) → (j == id) ≡ b
    → AreModules (if b then remove id rest else (j, n) ∷ remove id rest)
AreModules-keep id j n rest u v true e = v
AreModules-keep id j n rest (k, (z, (d, u))) v false e =
    (ground (arith, k, lookup-remove id j rest), (z, (d, v)))

pub AreModules-remove :
    (id : ℕ) (modules : Map ℕ ProviderModuleState)
    → AreModules modules
    → AreModules (remove id modules)
unfolding remove
AreModules-remove id [] u = tt
AreModules-remove id ((j, n) ∷ rest) (k, (z, (d, u))) =
    AreModules-keep id j n rest (k, (z, (d, u))) (AreModules-remove id rest u) (j == id) refl

HasContents-at :
    (a b : String) (offer : ProvidedOffer) (inner : Map String ProvidedOffer)
    (rest : Map String (Map String ProvidedOffer))
    → HasContents rest
    → HasContents ((a, insert b offer inner) ∷ rest)
unfolding insert
HasContents-at a b offer [] rest c = c
HasContents-at a b offer ((x, o) ∷ inner) rest c = ground (arith, c)

HasContents-insert :
    (a b : String) (offer : ProvidedOffer) (inner : Map String ProvidedOffer)
    (offers : Map String (Map String ProvidedOffer))
    → HasContents offers
    → HasContents (insert a (insert b offer inner) offers)
unfolding insert
HasContents-insert a b offer inner [] c = HasContents-at a b offer inner [] tt
HasContents-insert a b offer inner ((x, []) ∷ rest) c = elim c [ ]
HasContents-insert a b offer inner ((x, o ∷ os) ∷ rest) c =
    choose (x == a) (HasContents-insert a b offer inner rest c)
  where
    choose :
        (t : Bool)
        → HasContents (insert a (insert b offer inner) rest)
        → HasContents (
            if t
            then (a, insert b offer inner) ∷ rest
            else (x, o ∷ os) ∷ insert a (insert b offer inner) rest)
    choose true r = HasContents-at a b offer inner rest c
    choose false r = r

-- An offer that is entered into a module leaves it a module.
pub enter_module :
    (a b : String) (offer : ProvidedOffer) (offers : Map String (Map String ProvidedOffer))
    → HasUniqueNested offers × HasContents offers
    → HasUniqueNested (insert_nested a b offer offers)
      × HasContents (insert_nested a b offer offers)
unfolding insert_nested
enter_module a b offer offers (u, c) = elim (Option-cases (lookup a offers)) [
  | inl e ↦ (
    rw e (
        HasUniqueNested-insert a (insert b offer []) offers (HasUniqueKeys-insert b offer [] tt) u),
    HasContents-insert a b offer (elim (lookup a offers) [ none ↦ [] | some inner ↦ inner ]) offers
        c,
  )
  | inr (inner, e) ↦ (
    rw e (
        HasUniqueNested-insert a (insert b offer inner) offers
          (HasUniqueKeys-insert b offer inner (HasUniqueNested-lookup a offers u e)) u),
    HasContents-insert a b offer (elim (lookup a offers) [ none ↦ [] | some inner ↦ inner ]) offers
        c,
  )
]
