-- ===== src/Lib.antt =====
-- BitCord: a decentralised chat whose nodes keep the state of their communities themselves and
-- change it on signed gossip.
--
-- The parts and the files that model them:
--
-- Community: crates/bitcord-core/src/api/event_processor/community_handler.rs, with
-- `remove_community_local` of api/mod.rs and the records of crates/bitcord-core/src/model. Model
-- has the records and the bytes that are signed; AppState the state that the handlers share, the
-- tables on disk and the commands and pushes that they send; Member `handle_member_joined`,
-- `handle_member_left` and `handle_member_role_updated`; Joining `handle_community_joined` and the
-- manifests of channels; Manifest the other branches of `handle_community_message`; History the
-- messages one after another. Frame, Member/Effects, Member/Authority, Manifest/Effects and the
-- children of History are proofs. Message and Channel are api/event_processor/channel_handler.rs:
-- Message what a new message does, Channel `handle_channel_message` with edits, deletions and key
-- rotations, and `handle_channel_history_received`; the children of Channel are proofs. NodeStore
-- is the node's database as these handlers see it. Sync is
-- api/event_processor/manifest_handler.rs: Keys the channel keys that a manifest brings, Tables
-- what it writes, Replay the messages that waited for a key, Follow what the node sends then,
-- Handler `handle_manifest_received`; Frames, Rosters, Effects, Kept, Waiting and Returns are
-- proofs. The handlers work on the one AppState, which holds the message log of State.
--
-- Dht: crates/bitcord-dht/src/routing.rs and crates/bitcord-core/src/dht/kademlia.rs. NodeId has
-- the XOR metric and the bucket index; Routing `KBucket` and `DhtState` with every method that
-- changes it; Kademlia the iterative lookups over the state.
--
-- State: crates/bitcord-core/src/state. MessageLog (message_log.rs), ReadState (read_state.rs)
-- and Presence (presence.rs). The channel handlers write the message log, the community handlers
-- read its length.
--
-- Node: crates/bitcord-core/src/node/store.rs, the database of a hosting node. Table is the
-- interface to the tables of redb with the laws of its documentation; Keys the big-endian
-- numbers of the keys; Store the message logs, the mailboxes, the removal and the retention;
-- Registry the metadata, the peers and the enumerations. Rows, Log, Since, Retention, Refines
-- and Meta are proofs. The handlers see this database as Community/NodeStore, a list in the
-- order of the numbers.
--
-- Requests of clients: crates/bitcord-core/src/node/handler.rs. Node/Protocol has the requests,
-- answers and pushes of network/protocol.rs; Session the session of a connection, what the
-- requests share with the node (`NodeServices`), the filter of the push relay and the
-- certificates of crypto/certificate.rs; Requests the handlers in groups, on the database of
-- Node/Store and the DHT state of Dht/Routing; Handler `dispatch` and the requests of a
-- connection; Streams the frames and the request loop. Handler/Outcomes lists what a request can
-- come to, and the other children of Handler are proofs over that list.
--
-- Dm: crates/bitcord-core/src/api/event_processor/dm_handler.rs, on the part of the handlers' state
-- that it uses. Dm has `handle_dm_received` and the messages one after another; Dm/Replay is a
-- proof.
--
-- Peer: PeerManager is crates/bitcord-core/src/network/peer_manager.rs; Connection the state and
-- the reconnection of connection_manager.rs beside it; Limits has the decisions of
-- connection_limiter.rs, storage.rs and bandwidth.rs of crates/bitcord-core/src/resource.
--
-- Prelude: Boolean tests, lists over native numbers, association lists for hash maps (Map) and
-- the stable sort (Sort). Tests runs the parts on concrete inputs.
--
-- Conventions. A method that changes its object returns the new state, with its result beside it.
-- Locks are not modelled, but for the one that Sync holds while it replays messages: each method
-- holds its lock for its whole body, and the messages of the communities are handled one after
-- another in one task. A request of a client is one step on its session and the node. A clock is
-- an argument. The maps of the program are keyed by the text of identifiers; printing is
-- injective, so the model keys them by the identifiers' bytes. Ed25519, SHA-256, postcard, key
-- wrapping and the parser of addresses are the fields of `Env`, with the decryption and decoding
-- of messages, and the theorems assume nothing of them. The tables of redb and the codec of the
-- node's store are parameters whose laws are named (IsLawful, IsFaithful, IsMetaFaithful); Tests
-- has tables and a codec that keep them. Remote calls of the lookups are functions from the
-- address to the answer.
--
-- Bounds and fuel. `throttle` runs on fuel, and as much fuel as bytes is enough. A lookup runs
-- for the 8 rounds of the source. 64-bit additions that can wrap are written with their modulus;
-- sequence numbers of the message log are the lengths of lists in memory. The numbers of a key
-- are below 2^64, and a theorem on an append asks that the last is not the greatest.
--
-- Not modelled: the transport (QUIC, TLS, mDNS, NAT), the RPC server, cryptography and key
-- storage, the events of peers, start-up, the desktop app. Failures of writes to the database or
-- to disk, which the handlers ignore.
pub mod Prelude
pub mod State
pub mod Dht
pub mod Community
pub mod Dm
pub mod Peer
pub mod Node
pub mod Tests
