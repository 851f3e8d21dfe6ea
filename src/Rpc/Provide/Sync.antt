-- ===== src/Rpc/Provide/Sync.antt =====
-- "Synchronized with the provider's `offers_module_map`" (src/state.rs): when the two maps agree.
use derouter.Base.{
  ℕ, ◌+◌, ◌<◌, ◌≤◌, String, ◌≡◌, ◌↔◌, ◌⊎◌, refl, true, ◌&&◌, Option, none, some, arith, nat_eq,
  text_eq, ◌==◌, ==_iff, is_some, false, ok, if◌then◌else◌, inl, inr, Option-cases,
}
use derouter.Base.Maps.{lookup, insert, nested, insert_nested, nested-insert_nested, lookup-insert}
use Prim.Native.Nat.{◌%◌, ◌^◌}
use derouter.Dto.{DateTime}
use derouter.Rpc.Provide.Keys.{AreModules, AreModules-insert}
use derouter.Rpc.Provide.{
  ProvidedOffer, ProviderModuleState, ProviderState, find_offer, empty_module, own_module,
  enter_offer,
}

-- The offer that the module `id` holds under the two IDs.
abbrev pub held : ProviderState → ℕ → String → String → Option ProvidedOffer
held p id protocol_id offer_id = elim (lookup id p.modules) [
  | none ↦ none
  | some m ↦ nested protocol_id offer_id m.offers
]

-- An offer maps to a module just where the module holds it, and the IDs from the counter on are free.
pub record IsSynced (p : ProviderState) : Type 0 where
  pub agree :
      (id : ℕ) (protocol_id offer_id : String)
      → (nested protocol_id offer_id p.offers_module_map ≡ some id)
        ↔ (is_some (held p id protocol_id offer_id) ≡ true)
  pub fresh : (id : ℕ) → p.module_ids_counter ≤ id → lookup id p.modules ≡ none

-- The connection's module ID, if it has one, is that of a module.
abbrev pub IsOwned : ProviderState → Option ℕ → Type 0
IsOwned p none = Unit
IsOwned p (some id) = is_some (lookup id p.modules) ≡ true

-- What `find_offer` returns is what the module that the offer maps to holds, and it never panics.
pub find_offer-held :
    (p : ProviderState) (protocol_id offer_id : String)
    → IsSynced p
    → ((find_offer p protocol_id offer_id ≡ ok none)
        × (nested protocol_id offer_id p.offers_module_map ≡ none))
      ⊎ ((id : ℕ) × ((offer : ProvidedOffer) × ((find_offer p protocol_id offer_id
                ≡ ok (some (id, offer)))
              × (held p id protocol_id offer_id ≡ some offer))))
unfolding find_offer
find_offer-held p protocol_id offer_id s =
    elim (Option-cases (nested protocol_id offer_id p.offers_module_map)) [
      | inl e ↦ inl (ground (arith, e), e)
      | inr (id, e) ↦ elim (Option-cases (held p id protocol_id offer_id)) [
        | inl h ↦ absurd (ground (arith, h, e, (s.agree id protocol_id offer_id).0))
        | inr (offer, h) ↦ inr (id, (offer, (ground (arith, h, e), h)))
      ]
    ]

-- The module that the connection gets, and the state before its offer is entered.
pub record Owned (p : ProviderState) (module_id : Option ℕ) : Type 0 where
  pub id : ℕ
  pub own : ProviderModuleState
  pub state : ProviderState
  pub returns : own_module p module_id ≡ ok ((id, own), state)
  pub there : lookup id state.modules ≡ some own
  pub same_map : state.offers_module_map ≡ p.offers_module_map
  pub same_held : (j : ℕ) (a b : String) → held state j a b ≡ held p j a b
  pub free : (j : ℕ) → state.module_ids_counter ≤ j → lookup j state.modules ≡ none
  pub keyed : AreModules p.modules → AreModules state.modules
  pub others : (j : ℕ) → (j == id) ≡ false → lookup j state.modules ≡ lookup j p.modules
  pub whose : (module_id ≡ some id) ⊎ ((module_id ≡ none) × (id ≡ p.module_ids_counter))

nothing_held : (a b : String) → nested a b empty_module.offers ≡ none
unfolding nested lookup
nothing_held a b = refl

pub own_module-Owned :
    (p : ProviderState) (module_id : Option ℕ)
    → IsSynced p
    → IsOwned p module_id
    → p.module_ids_counter + 1 < 2 ^ 32
    → Owned p module_id
unfolding own_module
own_module-Owned p (some id) s o small = elim (Option-cases (lookup id p.modules)) [
  | inl e ↦ absurd (ground (arith, e, o))
  | inr (m, e) ↦ record {
    id = id;
    own = m;
    state = p;
    returns = ground (arith, e);
    there = e;
    same_map = refl;
    same_held = λ j a b. refl;
    free = s.fresh;
    keyed = λ u. u;
    others = λ j h. refl;
    whose = inl refl;
  }
]
own_module-Owned p none s o small =
    let id = p.module_ids_counter in
    let new = record p {
      module_ids_counter = (id + 1) % 2 ^ 32;
      modules = insert id empty_module p.modules;
    } in
    record {
      id = id;
      own = empty_module;
      state = new;
      returns = ground (arith, s.fresh id);
      there = ground (arith, lookup-insert id id empty_module p.modules);
      same_map = refl;
      same_held = λ j a b.
          ground (arith, lookup-insert id j empty_module p.modules, nothing_held a b, s.fresh id);
      free = λ j h. ground (arith, small, h, lookup-insert id j empty_module p.modules, s.fresh j);
      keyed = λ u. AreModules-insert id empty_module p.modules (tt, tt) u;
      others = λ j h.
          ground (arith, h, lookup-insert id j empty_module p.modules, ==_iff id j, ==_iff j id);
      whose = inr (refl, refl);
    }

pub held-enter_offer :
    (p : ProviderState) (id : ℕ) (m : ProviderModuleState) (protocol_id offer_id : String)
    (offer : ProvidedOffer) (now : DateTime) (j : ℕ) (a b : String)
    → lookup id p.modules ≡ some m
    → held (enter_offer p id m protocol_id offer_id offer now) j a b
      ≡ (if (id == j) && ((protocol_id == a) && (offer_id == b)) then some offer else held p j a b)
held-enter_offer p id m protocol_id offer_id offer now j a b h = ground (
  arith,
  h,
  lookup-insert id j (record { offers = insert_nested protocol_id offer_id offer m.offers })
      p.modules,
  nested-insert_nested protocol_id a offer_id b offer m.offers,
)

-- An offer that is entered where none was keeps the maps in agreement.
pub enter_offer-IsSynced :
    (p : ProviderState) (id : ℕ) (m : ProviderModuleState) (protocol_id offer_id : String)
    (offer : ProvidedOffer) (now : DateTime)
    → IsSynced p
    → lookup id p.modules ≡ some m
    → nested protocol_id offer_id p.offers_module_map ≡ none
    → IsSynced (enter_offer p id m protocol_id offer_id offer now)
enter_offer-IsSynced p id m protocol_id offer_id offer now s h none_yet = record {
  agree = λ j a b. ground (
    arith,
    held-enter_offer p id m protocol_id offer_id offer now j a b h,
    nested-insert_nested protocol_id a offer_id b id p.offers_module_map,
    s.agree j a b,
    none_yet,
    ==_iff protocol_id a,
    ==_iff offer_id b,
  );
  fresh = λ j small. ground (
    arith,
    small,
    h,
    s.fresh j,
    lookup-insert id j (record { offers = insert_nested protocol_id offer_id offer m.offers })
        p.modules,
  );
}

pub find_offer-enter_offer :
    (p : ProviderState) (id : ℕ) (m : ProviderModuleState) (protocol_id offer_id : String)
    (offer : ProvidedOffer) (now : DateTime) (a b : String)
    → lookup id p.modules ≡ some m
    → find_offer (enter_offer p id m protocol_id offer_id offer now) a b
      ≡ (if (protocol_id == a) && (offer_id == b) then ok (some (id, offer)) else find_offer p a b)
unfolding find_offer
find_offer-enter_offer p id m protocol_id offer_id offer now a b h =
    elim (Option-cases (nested a b p.offers_module_map)) [
      | inl e ↦ ground (
        arith,
        e,
        h,
        lookup-insert id id (record { offers = insert_nested protocol_id offer_id offer m.offers })
            p.modules,
        nested-insert_nested protocol_id a offer_id b offer m.offers,
        nested-insert_nested protocol_id a offer_id b id p.offers_module_map,
      )
      | inr (j, e) ↦ ground (
        arith,
        e,
        h,
        lookup-insert id id (record { offers = insert_nested protocol_id offer_id offer m.offers })
            p.modules,
        lookup-insert id j (record { offers = insert_nested protocol_id offer_id offer m.offers })
            p.modules,
        nested-insert_nested protocol_id a offer_id b offer m.offers,
        nested-insert_nested protocol_id a offer_id b id p.offers_module_map,
      )
    ]

pub same_find_offer :
    (p q : ProviderState) (a b : String)
    → q.offers_module_map ≡ p.offers_module_map
    → ((j : ℕ) → held q j a b ≡ held p j a b)
    → find_offer q a b ≡ find_offer p a b
unfolding find_offer
same_find_offer p q a b m h = elim (Option-cases (nested a b p.offers_module_map)) [
  | inl e ↦ ground (arith, m, e)
  | inr (j, e) ↦ ground (arith, m, e, h j)
]
