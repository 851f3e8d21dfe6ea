-- ===== src/P2p/Sender/Gather.antt =====
-- src/p2p/gossipsub/heartbeat/send.rs: the three loops that gather the offers.
use derouter.Base.{
  ℕ, String, ◌≡◌, refl, true, Option, none, [], ◌∷◌, arith, text_eq, nat_eq, is_some, Outcome, ok,
  or_else, map_option, inl, inr, Option-cases, ==_iff,
}
use derouter.Base.Maps.{
  Map, lookup, insert, nested, lookup-insert, HasUniqueKeys, HasUniqueKeys-insert, HasUniqueNested,
  HasUniqueNested-insert, HasUniqueNested-lookup,
}
use derouter.P2p.Proto.{ProviderOffer, Offers}
use derouter.Rpc.Provide.{ProvidedOffer, ProviderModuleState}
use derouter.Rpc.Provide.Keys.{AreModules}
use derouter.P2p.Sender.{announced, by_protocol, gather_offers, gather_protocols, gather_modules}

-- The offers of one protocol are added to those that are there.
pub record Gathers (provided : Map String ProvidedOffer) (m : Map String ProviderOffer)
    (out : Outcome ⊥ (Map String ProviderOffer)) : Type 0 where
  pub all : Map String ProviderOffer
  pub returns : out ≡ ok all
  pub unique : HasUniqueKeys all
  pub holds :
      (b : String) → lookup b all ≡ or_else (map_option announced (lookup b provided)) (lookup b m)

gather_offers-Gathers :
    (provided : Map String ProvidedOffer) (m : Map String ProviderOffer)
    → HasUniqueKeys provided
    → HasUniqueKeys m
    → ((b : String) → is_some (lookup b provided) ≡ true → lookup b m ≡ none)
    → Gathers provided m (gather_offers provided m)
unfolding gather_offers lookup
gather_offers-Gathers [] m u v apart = record {
  all = m;
  returns = refl;
  unique = v;
  holds = λ b. refl;
}
gather_offers-Gathers ((offer_id, offer) ∷ rest) m u v apart =
    let new = announced offer in
    let g =
      gather_offers-Gathers rest (insert offer_id new m) u.1 (HasUniqueKeys-insert offer_id new m v)
        (λ b s.
          ground (arith, s, lookup-insert offer_id b new m, apart b, u.0, ==_iff offer_id b)) in
    record {
      all = g.all;
      returns = ground (arith, apart offer_id, ==_iff offer_id offer_id, g.returns);
      unique = g.unique;
      holds =
          λ b. ground (arith, g.holds b, lookup-insert offer_id b new m, u.0, ==_iff offer_id b);
    }

-- The offers of some protocols are added to those that are there.
pub record GathersNested (provided : Map String (Map String ProvidedOffer)) (offers : Offers)
    (out : Outcome ⊥ Offers) : Type 0 where
  pub all : Offers
  pub returns : out ≡ ok all
  pub unique : HasUniqueNested all
  pub holds :
      (a b : String)
      → nested a b all ≡ or_else (map_option announced (nested a b provided)) (nested a b offers)

unique_by_protocol :
    (a : String) (offers : Offers) → HasUniqueNested offers → HasUniqueKeys (by_protocol a offers)
unique_by_protocol a offers u = elim (Option-cases (lookup a offers)) [
  | inl e ↦ ground (arith, e)
  | inr (m, e) ↦ ground (arith, e, HasUniqueNested-lookup a offers u e)
]

gather_protocols-Gathers :
    (provided : Map String (Map String ProvidedOffer)) (offers : Offers)
    → HasUniqueNested provided
    → HasUniqueNested offers
    → ((a b : String) → is_some (nested a b provided) ≡ true → nested a b offers ≡ none)
    → GathersNested provided offers (gather_protocols provided offers)
unfolding gather_protocols nested lookup
gather_protocols-Gathers [] offers u v apart = record {
  all = offers;
  returns = refl;
  unique = v;
  holds = λ a b. refl;
}
gather_protocols-Gathers ((protocol_id, inner) ∷ rest) offers (x, (y, u)) v apart =
    let here =
      gather_offers-Gathers inner (by_protocol protocol_id offers) y
        (unique_by_protocol protocol_id offers v)
        (λ b s. ground (arith, s, apart protocol_id b, ==_iff protocol_id protocol_id)) in
    let g =
      gather_protocols-Gathers rest (insert protocol_id here.all offers) u
        (HasUniqueNested-insert protocol_id here.all offers here.unique v)
        (λ a b s. ground (
          arith,
          s,
          lookup-insert protocol_id a here.all offers,
          apart a b,
          x,
          ==_iff protocol_id a,
        )) in
    record {
      all = g.all;
      returns = ground (arith, here.returns, g.returns);
      unique = g.unique;
      holds = λ a b. ground (
        arith,
        g.holds a b,
        here.holds b,
        lookup-insert protocol_id a here.all offers,
        x,
        ==_iff protocol_id a,
      );
    }

-- What the first module that has the offer holds.
abbrev pub held_by_any : String → String → Map ℕ ProviderModuleState → Option ProvidedOffer
held_by_any a b [] = none
held_by_any a b ((id, m) ∷ rest) = or_else (nested a b m.offers) (held_by_any a b rest)

-- No two modules hold one offer.
abbrev pub HasOneHolder : Map ℕ ProviderModuleState → Type 0
HasOneHolder [] = Unit
HasOneHolder ((id, m) ∷ rest) =
    ((a b : String) → is_some (nested a b m.offers) ≡ true → held_by_any a b rest ≡ none)
    × HasOneHolder rest

-- The offers of all modules are added to those that are there.
pub record GathersAll (modules : Map ℕ ProviderModuleState) (offers : Offers)
    (out : Outcome ⊥ Offers) : Type 0 where
  pub all : Offers
  pub returns : out ≡ ok all
  pub unique : HasUniqueNested all
  pub holds :
      (a b : String)
      → nested a b all
        ≡ or_else (map_option announced (held_by_any a b modules)) (nested a b offers)

pub gather_modules-Gathers :
    (modules : Map ℕ ProviderModuleState) (offers : Offers)
    → HasOneHolder modules
    → AreModules modules
    → HasUniqueNested offers
    → ((a b : String) → is_some (held_by_any a b modules) ≡ true → nested a b offers ≡ none)
    → GathersAll modules offers (gather_modules modules offers)
unfolding gather_modules
gather_modules-Gathers [] offers one u v apart = record {
  all = offers;
  returns = refl;
  unique = v;
  holds = λ a b. refl;
}
gather_modules-Gathers ((id, m) ∷ rest) offers (x, one) (k, (y, (c, u))) v apart =
    let here =
      gather_protocols-Gathers m.offers offers y v (λ a b s. ground (arith, s, apart a b)) in
    let g =
      gather_modules-Gathers rest here.all one u here.unique
        (λ a b s. ground (arith, s, here.holds a b, apart a b, x a b)) in
    record {
      all = g.all;
      returns = ground (arith, here.returns, g.returns);
      unique = g.unique;
      holds = λ a b. ground (arith, g.holds a b, here.holds a b, x a b);
    }
