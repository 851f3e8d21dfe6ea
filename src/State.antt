-- ===== src/State.antt =====
-- src/state.rs: the events that the node broadcasts to its RPC connections.
use derouter.Dto.{OfferRemoved, OfferSnapshot, ProviderHeartbeat, ProviderRecord, JobRecord}

pub data RpcEvent : Type 0 where
  offer_removed : OfferRemoved → RpcEvent
  offer_updated : OfferSnapshot → RpcEvent
  provider_heartbeat : ProviderHeartbeat → RpcEvent
  provider_updated : ProviderRecord → RpcEvent
  job_updated : JobRecord → RpcEvent
