-- ===== src/Dto.antt =====
-- src/dto.rs: the records that the node hands to its RPC clients.
-- A peer ID is its base58 text. A `DateTime` is its timestamp in nanoseconds. The program compares
-- times, and writes those of a heartbeat in whole seconds (P2p/Proto).
use derouter.Base.{ℕ, String, Bool, Option}
use derouter.Base.Int.{ℤ}

abbrev pub PeerId : Type 0
PeerId = String

abbrev pub DateTime : Type 0
DateTime = ℤ

pub data Currency : Type 0 where
  polygon : Currency

pub code : Currency → String
code polygon = "POL"

pub record ProviderHeartbeat : Type 0 where
  pub peer_id : PeerId
  pub latest_heartbeat_at : DateTime

pub record ProviderRecord : Type 0 where
  pub peer_id : PeerId
  pub name : Option String
  pub teaser : Option String
  pub description : Option String
  pub updated_at : DateTime
  pub latest_heartbeat_at : DateTime

pub record OfferSnapshot : Type 0 where
  pub snapshot_id : ℕ
  pub active : Bool
  pub provider_peer_id : PeerId
  pub protocol_id : String
  pub offer_id : String
  pub protocol_payload : String

pub record OfferRemoved : Type 0 where
  pub snapshot_id : ℕ
  pub provider_peer_id : PeerId
  pub protocol_id : String
  pub offer_id : String

pub record JobRecord : Type 0 where
  pub job_rowid : ℕ
  pub provider_job_id : String
  pub provider_peer_id : PeerId
  pub consumer_peer_id : PeerId
  pub offer_id : String
  pub offer_snapshot_rowid : ℕ
  pub offer_protocol_id : String
  pub offer_payload : String
  pub offer_active : Bool
  pub currency : Currency
  pub balance_delta : Option String
  pub public_payload : Option String
  pub private_payload : Option String
  pub reason : Option String
  pub reason_class : Option ℤ
  pub created_at_local : DateTime
  pub created_at_sync : ℤ
  pub completed_at_local : Option DateTime
  pub completed_at_sync : Option ℤ
  pub signature_confirmed_at_local : Option DateTime
  pub confirmation_error : Option String
