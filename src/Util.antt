-- ===== src/Util.antt =====
-- src/util: what the streams between nodes and modules share.
pub mod Cbor
mod Tests
