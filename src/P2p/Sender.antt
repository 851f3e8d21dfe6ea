-- ===== src/P2p/Sender.antt =====
-- src/p2p/gossipsub/heartbeat/send.rs: the heartbeat that a node builds from what its modules
-- provide, and what becomes of it when it is published. `publish` is libp2p's, with the
-- encoding of the message by serde_cbor, which takes every heartbeat.
pub mod Gather
pub mod Message
pub mod Delivery
mod Tests
use derouter.Base.{
  ℕ, String, Bool, true, false, Option, none, some, [], ◌∷◌, text_eq, is_some, Outcome, ok, err,
  panic, ◌>>=◌, if◌then◌else◌,
}
use derouter.Base.Maps.{Map, lookup, insert}
use derouter.Dto.{DateTime}
use derouter.P2p.Proto.{ProviderOffer, ProviderDetails, Heartbeat, Offers}
use derouter.Rpc.Provide.{ProvidedOffer, ProviderModuleState, ProviderState}

pub record ProviderConfig : Type 0 where
  pub name : Option String
  pub teaser : Option String
  pub description : Option String

pub data PublishError : Type 0 where
  signing_error : PublishError
  message_too_large : PublishError
  transform_failed : PublishError
  duplicate : PublishError
  insufficient_peers : PublishError
  all_queues_full : PublishError

-- The loop that sets `any_offers`: only the outer map of a module is looked at.
unfoldable pub any_offers : Map ℕ ProviderModuleState → Bool
any_offers [] = false
any_offers ((id, m) ∷ rest) =
    let later = any_offers rest in elim m.offers [ [] ↦ later | entry ∷ entries ↦ true ]

abbrev pub announced : ProvidedOffer → ProviderOffer
announced offer = record { protocol_payload = offer.protocol_payload }

-- `for (offer_id, provided_offer)`: an offer that is already there is a failed `unwrap_none`.
unfoldable pub gather_offers :
    Map String ProvidedOffer → Map String ProviderOffer → Outcome ⊥ (Map String ProviderOffer)
gather_offers [] by_protocol = ok by_protocol
gather_offers ((offer_id, offer) ∷ rest) by_protocol =
    let after = gather_offers rest (insert offer_id (announced offer) by_protocol) in
    if is_some (lookup offer_id by_protocol) then panic else after

-- `heartbeat_offers.get_mut(protocol_id)`, an empty map where there is none.
abbrev pub by_protocol : String → Offers → Map String ProviderOffer
by_protocol protocol_id offers = elim (lookup protocol_id offers) [ none ↦ [] | some m ↦ m ]

-- `for (protocol_id, provided_offers_by_protocol) in &module.offers`
unfoldable pub gather_protocols : Map String (Map String ProvidedOffer) → Offers → Outcome ⊥ Offers
gather_protocols [] offers = ok offers
gather_protocols ((protocol_id, provided) ∷ rest) offers = do
  m ← gather_offers provided (by_protocol protocol_id offers)
  gather_protocols rest (insert protocol_id m offers)

-- `for module in provider_lock.modules.values()`
unfoldable pub gather_modules : Map ℕ ProviderModuleState → Offers → Outcome ⊥ Offers
gather_modules [] offers = ok offers
gather_modules ((id, m) ∷ rest) offers = do
  after ← gather_protocols m.offers offers
  gather_modules rest after

abbrev pub message : ProviderConfig → ProviderState → DateTime → Offers → Heartbeat
message config provider now offers = record {
  provider = some (record {
    name = config.name;
    teaser = config.teaser;
    description = config.description;
    offers = offers;
    updated_at = provider.last_updated_at;
  });
  timestamp = now;
}

-- What the publishing of a message gives: nothing, or an error that is returned or only logged.
abbrev pub after_publish : Heartbeat → Option PublishError → Outcome PublishError (Option Heartbeat)
after_publish sent none = ok (some sent)
after_publish sent (some PublishError.insufficient_peers) = ok none
after_publish sent (some PublishError.all_queues_full) = ok none
after_publish sent (some error) = err error

-- A panic of the loops is one of the function.
abbrev pub lift_panic {ℓ} : {A : Type ℓ} → Outcome ⊥ A → Outcome PublishError A
lift_panic (ok a) = ok a
lift_panic (err e) = elim e [ ]
lift_panic panic = panic

-- The heartbeat that was published stands for the unit of `Ok(Some(()))`.
unfoldable pub maybe_send_heartbeat :
    (Heartbeat → Option PublishError)
    → ProviderConfig
    → ProviderState
    → DateTime
    → Outcome PublishError (Option Heartbeat)
maybe_send_heartbeat publish config provider now =
    if any_offers provider.modules
    then (do
      offers ← lift_panic (gather_modules provider.modules [])
      let sent = message config provider now offers
      after_publish sent (publish sent))
    else ok none
