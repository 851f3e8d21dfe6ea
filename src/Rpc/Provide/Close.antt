-- ===== src/Rpc/Provide/Close.antt =====
-- The cleanup of a connection that closes: the end of `handle_connection` in src/rpc/connection.rs.
use derouter.Base.{
  ℕ, String, ◌≡◌, refl, true, none, some, [], ◌∷◌, arith, text_eq, nat_eq, is_some, Outcome, ok,
  inl, inr, Option-cases, ◌==◌, ==_iff, if◌then◌else◌,
}
use derouter.Base.Maps.{
  Map, lookup, remove, nested, lookup-insert, lookup-remove, HasUniqueKeys, HasUniqueNested,
}
use derouter.Dto.{DateTime}
use derouter.Rpc.Provide.{
  ProvidedOffer, ProviderState, find_offer, remove_offers, store_rest, remove_protocols,
  close_connection,
}
use derouter.Rpc.Provide.Keys.{AreModules, HasContents, AreModules-lookup, AreModules-remove}
use derouter.Rpc.Provide.Sync.{IsSynced, held}

-- The offers of one protocol are taken out, and all of them were there.
record Removes (provided : Map String ProvidedOffer) (m : Map String ℕ)
    (out : Outcome ⊥ (Map String ℕ)) : Type 0 where
  left : Map String ℕ
  returns : out ≡ ok left
  holds : (b : String) → lookup b left ≡ (if is_some (lookup b provided) then none else lookup b m)

remove_offers-Removes :
    (provided : Map String ProvidedOffer) (m : Map String ℕ)
    → HasUniqueKeys provided
    → ((b : String) → is_some (lookup b provided) ≡ true → is_some (lookup b m) ≡ true)
    → Removes provided m (remove_offers provided m)
unfolding remove_offers lookup
remove_offers-Removes [] m u there = record { left = m; returns = refl; holds = λ b. refl }
remove_offers-Removes ((offer_id, offer) ∷ rest) m u there =
    let g =
      remove_offers-Removes rest (remove offer_id m) u.1
        (λ b s. ground (arith, s, lookup-remove offer_id b m, there b, u.0, ==_iff offer_id b)) in
    record {
      left = g.left;
      returns = ground (arith, there offer_id, ==_iff offer_id offer_id, g.returns);
      holds = λ b. ground (arith, g.holds b, lookup-remove offer_id b m, ==_iff offer_id b);
    }

nested-store_rest :
    (a x y : String) (left : Map String ℕ) (m : Map String (Map String ℕ))
    → nested x y (store_rest a left m) ≡ (if a == x then lookup y left else nested x y m)
unfolding nested lookup
nested-store_rest a x y [] m = ground (arith, lookup-remove a x m)
nested-store_rest a x y (entry ∷ rest) m = ground (arith, lookup-insert a x (entry ∷ rest) m)

-- The offers of some protocols are taken out.
record RemovesNested (provided : Map String (Map String ProvidedOffer))
    (m : Map String (Map String ℕ)) (out : Outcome ⊥ (Map String (Map String ℕ))) : Type 0 where
  left : Map String (Map String ℕ)
  returns : out ≡ ok left
  holds :
      (a b : String)
      → nested a b left ≡ (if is_some (nested a b provided) then none else nested a b m)

AreIn : Map String (Map String ProvidedOffer) → Map String (Map String ℕ) → Type 0
AreIn provided m =
    (a b : String) → is_some (nested a b provided) ≡ true → is_some (nested a b m) ≡ true

remove_protocols-Removes :
    (provided : Map String (Map String ProvidedOffer)) (m : Map String (Map String ℕ))
    → HasUniqueNested provided
    → HasContents provided
    → AreIn provided m
    → RemovesNested provided m (remove_protocols provided m)
unfolding remove_protocols nested lookup AreIn
remove_protocols-Removes [] m u c there = record { left = m; returns = refl; holds = λ a b. refl }
remove_protocols-Removes ((a, []) ∷ rest) m u c there = elim c [ ]
remove_protocols-Removes ((a, (b, offer) ∷ others) ∷ rest) m (x, (y, u)) c there =
    elim (Option-cases (lookup a m)) [
      | inl e ↦ absurd (ground (arith, e, there a b, ==_iff a a, ==_iff b b))
      | inr (by_protocol, e) ↦
          let here =
            remove_offers-Removes ((b, offer) ∷ others) by_protocol y
              (λ z s. ground (arith, s, e, there a z, ==_iff a a)) in
          let g = remove_protocols-Removes rest (store_rest a here.left m) u c (λ z w s.
            ground (arith, s, nested-store_rest a z w here.left m, there z w, x, ==_iff a z)) in
          record {
            left = g.left;
            returns = ground (arith, e, here.returns, g.returns);
            holds = λ z w. ground (
              arith,
              e,
              g.holds z w,
              here.holds w,
              nested-store_rest a z w here.left m,
              x,
              ==_iff a z,
            );
          }
    ]

held_after :
    (p q : ProviderState) (id j : ℕ) (a b : String)
    → q.modules ≡ remove id p.modules
    → held q j a b ≡ (if id == j then none else held p j a b)
held_after p q id j a b e = ground (arith, e, lookup-remove id j p.modules)

-- The module is gone and the others stay, the maps agree, and `find_offer` finds what it found
-- before, but for the offers that the module held.
pub record Closes (p : ProviderState) (id : ℕ) (out : Outcome ⊥ ProviderState) : Type 0 where
  pub after : ProviderState
  pub returns : out ≡ ok after
  pub synced : IsSynced after
  pub keyed : AreModules after.modules
  pub modules : (j : ℕ) → lookup j after.modules ≡ (if id == j then none else lookup j p.modules)
  pub finds :
      (a b : String)
      → find_offer after a b ≡ (if is_some (held p id a b) then ok none else find_offer p a b)

module _ (p q : ProviderState) (id : ℕ) (s : IsSynced p) (modules : q.modules ≡ remove id p.modules)
    (counter : q.module_ids_counter ≡ p.module_ids_counter)
    (owners : (a b : String)
      → nested a b q.offers_module_map
        ≡ (if is_some (held p id a b) then none else nested a b p.offers_module_map)) where
  after-IsSynced : IsSynced q
  after-IsSynced = record {
    agree = λ j a b. ground (
      arith,
      owners a b,
      held_after p q id j a b modules,
      s.agree j a b,
      s.agree id a b,
      ==_iff id j,
    );
    fresh = λ j h. ground (arith, modules, counter, h, lookup-remove id j p.modules, s.fresh j);
  }

  after-finds :
      (a b : String)
      → find_offer q a b ≡ (if is_some (held p id a b) then ok none else find_offer p a b)
  unfolding find_offer
  after-finds a b = elim (Option-cases (nested a b p.offers_module_map)) [
    | inl e ↦ ground (arith, owners a b, e)
    | inr (j, e) ↦ ground (
      arith,
      owners a b,
      e,
      held_after p q id j a b modules,
      s.agree j a b,
      s.agree id a b,
      ==_iff id j,
    )
  ]

-- A connection that closes and has a module takes the module and its offers out, with no panic. The
-- maps agree after it, no key stands twice, every other module stays, and `find_offer` finds what it
-- found before, but for the offers of the module, which it finds no more. The maps agreed before, and
-- no key stood twice.
pub close_connection-Closes :
    (now : DateTime) (p : ProviderState) (id : ℕ)
    → IsSynced p
    → AreModules p.modules
    → is_some (lookup id p.modules) ≡ true
    → Closes p id (close_connection now p (some id))
unfolding close_connection
close_connection-Closes now p id s u here = elim (Option-cases (lookup id p.modules)) [
  | inl e ↦ absurd (ground (arith, e, here))
  | inr (m, e) ↦
      let (y, c) = AreModules-lookup id p.modules u e in
      let g =
        remove_protocols-Removes m.offers p.offers_module_map y c
          (unfold AreIn in λ a b h. ground (arith, h, e, s.agree id a b)) in
      let after = record p {
        modules = remove id p.modules;
        offers_module_map = g.left;
        last_updated_at = now;
      } in
      let owners : (a b : String)
          → nested a b g.left
            ≡ (if is_some (held p id a b) then none else nested a b p.offers_module_map) =
        λ a b. ground (arith, g.holds a b, e) in
      record {
        after = after;
        returns = ground (arith, e, g.returns);
        synced = after-IsSynced p after id s refl refl owners;
        keyed = AreModules-remove id p.modules u;
        modules = λ j. lookup-remove id j p.modules;
        finds = after-finds p after id s refl refl owners;
      }
]
