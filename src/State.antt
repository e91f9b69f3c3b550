-- ===== src/State.antt =====
-- crates/bitcord-core/src/state: the in-memory message log, read markers and presence.
pub mod MessageLog
pub mod ReadState
pub mod Presence
