-- ===== src/Node/Requests.antt =====
-- crates/bitcord-core/src/node/handler.rs: the requests of a client, in groups.
pub mod Join
pub mod Messages
pub mod Manifests
pub mod Lookups
