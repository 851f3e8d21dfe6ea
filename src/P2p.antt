-- ===== src/P2p.antt =====
-- src/p2p: the messages that nodes exchange.
pub mod Proto
pub mod Heartbeat
pub mod Requests
pub mod Sender
pub mod Peers
pub mod Outbound
pub mod Scheduler
pub mod Streams
mod Tests
