-- ===== src/Node/Session.antt =====
-- crates/bitcord-core/src/node/handler.rs and node/mod.rs: the session of a connection and what its
-- requests share with the node. `pushes` lists what was sent to the push channel, `joined` the
-- `NotifyCommunityJoined` commands, and `mailboxes` the keys for which `register_mailbox` was
-- started, each in the order of the sends.
use bit_cord.Prelude.{
  ℕ, Bool, ◌&&◌, Bytes, String, List, [], ◌∷◌, ◌++◌, Option, none, some, any, is_some, leb, ◌==◌,
  nat_eq, list_eq,
}
use bit_cord.Community.Model.{Env, le_bytes}
use bit_cord.Community.NodeStore.{HostingCert}
use bit_cord.Dht.Routing.{NodeAddr, DhtState}
use bit_cord.Node.Store.{Codec, NodeDb}
use bit_cord.Node.Protocol.{NodePush, NodeResponse}

pub record ClientSession : Type 0 where
  pub client_pk : Option Bytes
  pub joined_communities : List Bytes

-- `ClientSession::default`
abbrev pub new_session : ClientSession
new_session = record { client_pk = none; joined_communities = [] }

abbrev pub is_authenticated : ClientSession → Bool
is_authenticated sess = is_some sess.client_pk

abbrev pub has_joined : ClientSession → Bytes → Bool
has_joined sess community_pk = any (λ pk. pk == community_pk) sess.joined_communities

abbrev pub PushPayload : Type 0
PushPayload = Option Bytes × NodePush

pub record NodeServices (T : Type 0) : Type 0 where
  pub store : NodeDb T
  pub dht : Option DhtState
  pub node_pk : Bytes
  pub join_password : Option String
  pub pushes : List PushPayload
  pub joined : List (Bytes × Bytes)
  pub mailboxes : List Bytes

-- What the handler uses of other crates, beside what `Env` has: the strict verification of Ed25519,
-- postcard's encoding of an address and the database's codec.
pub record NodeEnv : Type 0 where
  pub env : Env
  pub codec : Codec
  pub verify_strict : Bytes → Bytes → Bytes → Bool
  pub addr_bytes : NodeAddr → Bytes

-- What a request finds outside: the client's address, the monotonic clock, the wall clock in seconds
-- and in milliseconds, the identifier that is generated for a message, and the random bytes with
-- which each write to the database is encrypted.
pub record Moment : Type 0 where
  pub remote_addr : NodeAddr
  pub instant : ℕ
  pub unix : ℕ
  pub now_ms : ℕ
  pub message_id : String
  pub random : ℕ → Bytes

-- A request changes the session and the services, and is answered.
abbrev pub Answer : Type 0 → Type 0
Answer T = (ClientSession × NodeServices T) × NodeResponse

-- The filter of the push relay.
abbrev pub should_send : ClientSession → PushPayload → Bool
should_send sess (some cpk, push) = has_joined sess cpk
should_send sess (none, push) = is_authenticated sess

abbrev pub send_push : {T : Type 0} → NodeServices T → Option Bytes → NodePush → NodeServices T
send_push sv filter push = record sv { pushes = sv.pushes ++ (filter, push) ∷ [] }

-- crypto/certificate.rs: `HostingCert::signable`
abbrev pub cert_message : HostingCert → Bytes
cert_message cert = cert.community_pk ++ (cert.node_pk ++ le_bytes 8 cert.expires_at)

-- `HostingCert::verify`, with the seconds of the wall clock.
abbrev pub cert_verify : Env → ℕ → HostingCert → Bytes → Bool
cert_verify env unix cert community_pk =
    community_pk == cert.community_pk
    && env.verify community_pk (cert_message cert) cert.signature
    && leb unix cert.expires_at
