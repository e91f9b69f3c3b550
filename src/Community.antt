-- ===== src/Community.antt =====
-- crates/bitcord-core/src/api/event_processor and the models it works on: how a node's community
-- state changes with the events that arrive on a community's gossip topic.
pub mod Model
pub mod NodeStore
pub mod AppState
pub mod Member
pub mod Joining
pub mod Manifest
pub mod Frame
pub mod History
pub mod Message
pub mod Channel
pub mod Sync
