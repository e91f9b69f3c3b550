-- ===== src/Peer.antt =====
-- crates/bitcord-core/src/network/peer_manager.rs, connection_manager.rs and crates/bitcord-core/src/resource.
pub mod PeerManager
pub mod Connection
pub mod Limits
