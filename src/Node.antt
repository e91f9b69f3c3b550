-- ===== src/Node.antt =====
-- crates/bitcord-core/src/node: what a hosting node keeps.
pub mod Keys
pub mod Table
pub mod Store
pub mod Registry
pub mod Protocol
pub mod Session
pub mod Requests
pub mod Handler
pub mod Streams
