-- ===== src/P2p/Sender/Message.antt =====
-- src/p2p/gossipsub/heartbeat/send.rs: the message as a whole, against `find_offer` of src/state.rs.
use derouter.Base.{
  ℕ, String, ◌≡◌, refl, true, false, Option, none, some, [], ◌∷◌, arith, text_eq, nat_eq, is_some,
  Outcome, ok, err, panic, ◌⊎◌, inl, inr, Option-cases, Bool-cases, ==_iff, map_option,
}
use derouter.Base.Maps.{Map, lookup, nested}
use derouter.Dto.{DateTime}
use derouter.P2p.Proto.{ProviderOffer, Heartbeat, Offers, get_offer}
use derouter.P2p.Heartbeat.Enter.{UniqueOffers}
use derouter.Rpc.Provide.{ProvidedOffer, ProviderModuleState, ProviderState, find_offer}
use derouter.Rpc.Provide.Keys.{AreModules, HasContents}
use derouter.Rpc.Provide.Sync.{IsSynced, find_offer-held}
use derouter.P2p.Sender.{
  ProviderConfig, PublishError, announced, any_offers, message, after_publish, maybe_send_heartbeat,
}
use derouter.P2p.Sender.Gather.{held_by_any, HasOneHolder, gather_modules-Gathers}

abbrev held_in : Map ℕ ProviderModuleState → ℕ → String → String → Option ProvidedOffer
held_in modules id a b = elim (lookup id modules) [ none ↦ none | some m ↦ nested a b m.offers ]

holder :
    (a b : String) (modules : Map ℕ ProviderModuleState) {offer : ProvidedOffer}
    → AreModules modules
    → held_by_any a b modules ≡ some offer
    → (id : ℕ) × (held_in modules id a b ≡ some offer)
unfolding lookup
holder a b [] {offer} u h = absurd (ground arith)
holder a b ((id, m) ∷ rest) {offer} (k, (y, (c, u))) h = elim (Option-cases (nested a b m.offers)) [
  | inr (o, e) ↦ (id, ground (arith, e, h, ==_iff id id))
  | inl e ↦
      let (j, there) = holder a b rest {offer = offer} u (ground (arith, e, h)) in
      (j, ground (arith, there, k, ==_iff id j))
]

unheld :
    (a b : String) (modules : Map ℕ ProviderModuleState) (id : ℕ)
    → held_by_any a b modules ≡ none
    → held_in modules id a b ≡ none
unfolding lookup
unheld a b [] id h = refl
unheld a b ((j, m) ∷ rest) id h = ground (arith, h, unheld a b rest id)

one_holder :
    (modules : Map ℕ ProviderModuleState) (owners : Map String (Map String ℕ))
    → AreModules modules
    → ((id : ℕ) (a b : String)
        → is_some (held_in modules id a b) ≡ true
        → nested a b owners ≡ some id)
    → HasOneHolder modules
unfolding lookup
one_holder [] owners u own = tt
one_holder ((id, m) ∷ rest) owners (k, (y, (c, u))) own = (
  λ a b s. elim (Option-cases (held_by_any a b rest)) [
    | inl e ↦ e
    | inr (o, e) ↦
        let (j, there) = holder a b rest u e in
        absurd (ground (arith, there, s, k, own id a b, own j a b, ==_iff id j, ==_iff id id))
  ],
  one_holder rest owners u (λ j a b s. ground (arith, s, k, own j a b, ==_iff id j)),
)

nothing_held :
    (a b : String) (modules : Map ℕ ProviderModuleState)
    → any_offers modules ≡ false
    → held_by_any a b modules ≡ none
unfolding any_offers nested lookup
nothing_held a b [] h = refl
nothing_held a b ((id, m) ∷ rest) h = ground (arith, h, nothing_held a b rest)

first_offer :
    (offers : Map String (Map String ProvidedOffer))
    → HasContents offers
    → (offers ≡ []) ⊎ ((a : String) × ((b : String) × (is_some (nested a b offers) ≡ true)))
unfolding nested lookup
first_offer [] c = inl refl
first_offer ((a, []) ∷ rest) c = elim c [ ]
first_offer ((a, (b, o) ∷ others) ∷ rest) c = inr (a, (b, ground (arith, ==_iff a a, ==_iff b b)))

-- A first offer, where there is any.
something_held :
    (modules : Map ℕ ProviderModuleState)
    → AreModules modules
    → any_offers modules ≡ true
    → (a : String) × ((b : String) × (is_some (held_by_any a b modules) ≡ true))
unfolding any_offers nested lookup
something_held [] u h = absurd (ground (arith, h))
something_held ((id, m) ∷ rest) (k, (y, (c, u))) h = elim (first_offer m.offers c) [
  | inr (a, (b, s)) ↦ (a, (b, ground (arith, s)))
  | inl e ↦
      let (a, (b, s)) = something_held rest u (ground (arith, h, e)) in (a, (b, ground (arith, s)))
]

-- What the heartbeat gives for an offer that `find_offer` answers with this.
abbrev pub offered : Outcome ⊥ (Option (ℕ × ProvidedOffer)) → Option ProviderOffer
offered (ok (some (id, offer))) = some (announced offer)
offered (ok none) = none
offered (err e) = none
offered panic = none

found_by_any :
    (p : ProviderState) (a b : String)
    → IsSynced p
    → AreModules p.modules
    → offered (find_offer p a b) ≡ map_option announced (held_by_any a b p.modules)
unfolding find_offer
found_by_any p a b s u = elim (Option-cases (held_by_any a b p.modules)) [
  | inr (offer, e) ↦
      let (id, there) = holder a b p.modules u e in ground (arith, e, there, (s.agree id a b).1)
  | inl e ↦ elim (Option-cases (nested a b p.offers_module_map)) [
    | inl n ↦ ground (arith, e, n)
    | inr (id, n) ↦ absurd (ground (arith, e, n, (s.agree id a b).0, unheld a b p.modules id e))
  ]
]

-- The outcome is that of the publishing of one heartbeat, in which no offer stands twice, and which
-- has just the offers that `find_offer` finds, with their payloads, and at least one of them.
pub record Sends (publish : Heartbeat → Option PublishError) (config : ProviderConfig)
    (p : ProviderState) (now : DateTime) (out : Outcome PublishError (Option Heartbeat))
    : Type 0 where
  pub offers : Offers
  pub returns :
      out ≡ after_publish (message config p now offers) (publish (message config p now offers))
  pub unique : UniqueOffers offers
  pub exact : (a b : String) → get_offer offers a b ≡ offered (find_offer p a b)
  pub protocol_id : String
  pub offer_id : String
  pub not_empty : is_some (get_offer offers protocol_id offer_id) ≡ true

-- On a provider state whose maps agree, whose maps have no key twice and whose protocols have
-- offers, no heartbeat is sent where `find_offer` finds nothing at all. Otherwise the outcome is that
-- of publishing one heartbeat, never a panic: no offer stands twice in it, it has just the offers that
-- `find_offer` finds, with their payloads, and at least one of them.
pub maybe_send_heartbeat-Sends :
    (publish : Heartbeat → Option PublishError) (config : ProviderConfig) (p : ProviderState)
    (now : DateTime)
    → IsSynced p
    → AreModules p.modules
    → ((maybe_send_heartbeat publish config p now ≡ ok none)
        × ((a b : String) → find_offer p a b ≡ ok none))
      ⊎ Sends publish config p now (maybe_send_heartbeat publish config p now)
unfolding maybe_send_heartbeat get_offer nested
maybe_send_heartbeat-Sends publish config p now s u = elim (Bool-cases (any_offers p.modules)) [
  | inl some_offers ↦
      let g =
        gather_modules-Gathers p.modules []
          (one_holder p.modules p.offers_module_map u (λ id a b h. (s.agree id a b).1 h)) u tt
          (λ a b h. unfold lookup in refl) in
      let (x, (y, h)) = something_held p.modules u some_offers in
      inr (record {
        offers = g.all;
        returns = ground (arith, some_offers, g.returns);
        unique = g.unique;
        exact = λ a b. unfold lookup in ground (arith, g.holds a b, found_by_any p a b s u);
        protocol_id = x;
        offer_id = y;
        not_empty = unfold lookup in ground (arith, g.holds x y, h);
      })
  | inr no_offers ↦ inl (
    ground (arith, no_offers),
    λ a b. elim (find_offer-held p a b s) [
      | inl (e, n) ↦ e
      | inr (id, (offer, (e, h))) ↦
          absurd (ground (arith, h, unheld a b p.modules id (nothing_held a b p.modules no_offers)))
    ],
  )
]
