-- ===== src/Community/Sync.antt =====
-- crates/bitcord-core/src/api/event_processor/manifest_handler.rs: the full manifest that a peer sends.
pub mod Keys
pub mod Tables
pub mod Replay
pub mod Follow
pub mod Handler
pub mod Frames
pub mod Rosters
pub mod Effects
pub mod Kept
pub mod Waiting
pub mod Returns
