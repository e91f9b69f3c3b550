-- ===== src/Dht.antt =====
-- crates/bitcord-dht: node identifiers and the XOR metric, the k-bucket routing table, and the
-- records that the table node keeps, with their expiry.
pub mod NodeId
pub mod Routing
pub mod Kademlia
