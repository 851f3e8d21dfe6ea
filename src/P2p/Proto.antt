-- ===== src/P2p/Proto.antt =====
-- src/p2p/proto/gossipsub.rs: the heartbeat that a Provider publishes.
use derouter.Base.{String, Option, none, some, text_eq}
use derouter.Base.Maps.{Map, lookup}
use derouter.Base.{◌+◌, map_option}
use derouter.Base.Int.{ℤ, pos, negsuc}
use Prim.Native.Nat.{◌*◌, ◌/◌, ◌^◌}
use derouter.Dto.{DateTime}

pub record ProviderOffer : Type 0 where
  pub protocol_payload : String

-- `{ ProtocolId => { OfferId => Offer } }`
abbrev pub Offers : Type 0
Offers = Map String (Map String ProviderOffer)

pub record ProviderDetails : Type 0 where
  pub name : Option String
  pub teaser : Option String
  pub description : Option String
  pub offers : Offers
  pub updated_at : DateTime

pub record Heartbeat : Type 0 where
  pub provider : Option ProviderDetails
  pub timestamp : DateTime

-- `offers.get(protocol_id).and_then(|map| map.get(offer_id))`
unfoldable pub get_offer : Offers → String → String → Option ProviderOffer
get_offer offers protocol_id offer_id = elim (lookup protocol_id offers) [
  | none ↦ none
  | some m ↦ lookup offer_id m
]

-- The payload that the heartbeat of `source` gives for an offer.
abbrev pub payload_of : ProviderOffer → String
payload_of o = o.protocol_payload

-- `DateTime::timestamp`, rounded down to whole seconds, and `DateTime::from_timestamp`.
abbrev pub timestamp_of : DateTime → ℤ
timestamp_of (pos n) = pos (n / 10 ^ 9)
timestamp_of (negsuc n) = negsuc (n / 10 ^ 9)

abbrev pub from_timestamp : ℤ → DateTime
from_timestamp (pos s) = pos (s * 10 ^ 9)
from_timestamp (negsuc s) = negsuc (s * 10 ^ 9 + 999999999)

-- `#[serde(with = "chrono::serde::ts_seconds")]`: what is read of a time that was written.
abbrev pub ts_seconds : DateTime → DateTime
ts_seconds t = from_timestamp (timestamp_of t)

abbrev details_on_wire : ProviderDetails → ProviderDetails
details_on_wire d = record d { updated_at = ts_seconds d.updated_at }

-- The heartbeat that a peer decodes of the bytes of one: all of it but the fractions of seconds.
abbrev pub on_wire : Heartbeat → Heartbeat
on_wire h = record {
  provider = map_option details_on_wire h.provider;
  timestamp = ts_seconds h.timestamp;
}
