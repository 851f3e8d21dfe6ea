-- ===== src/Rpc.antt =====
-- src/rpc: what a node does for its RPC clients.
pub mod Subscriptions
pub mod Provide
pub mod Queries
pub mod Consumer
pub mod Settle
pub mod Connections
pub mod ProviderLock
mod Tests
