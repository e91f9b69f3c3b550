-- ===== src/Node/Protocol.antt =====
-- crates/bitcord-core/src/network/protocol.rs: what a client asks a node, what the node answers and
-- what it pushes. The frames are QUIC's and postcard's.
use bit_cord.Prelude.{ℕ, Bytes, String, List, Option}
use bit_cord.Prelude.Map.{Map}
use bit_cord.State.MessageLog.{LogEntry}
use bit_cord.Community.Model.{MembershipRecord, SignedManifest, ChannelManifest}
use bit_cord.Community.NodeStore.{HostingCert}
use bit_cord.Dht.Routing.{NodeAddr, CommunityPeerRecord}
use bit_cord.Node.Store.{DmEnvelope}

-- `StorePeerInfo`
pub record PeerInfoRequest : Type 0 where
  pub peer_id : Bytes
  pub ed25519_pk : Bytes
  pub x25519_pk : Bytes
  pub addr : NodeAddr
  pub display_name : String
  pub sig_r : Bytes
  pub sig_s : Bytes

-- `PushManifest`
pub record ManifestPush : Type 0 where
  pub community_pk : Bytes
  pub manifest : SignedManifest
  pub channels : List ChannelManifest
  pub channel_keys : Map Bytes Bytes
  pub members : List MembershipRecord

-- The fields stand in the order of the source: for `authenticate` the key, the two halves of the
-- signature and the nonce; for the messages the community, the channel, the nonce and the
-- ciphertext or the number from which on.
pub data ClientRequest : Type 0 where
  authenticate : Bytes → Bytes → Bytes → Bytes → ClientRequest
  join_community : HostingCert → Option Bytes → Option String → ClientRequest
  send_message : Bytes → Bytes → Bytes → Bytes → ClientRequest
  get_messages : Bytes → Bytes → ℕ → ClientRequest
  send_dm : Bytes → DmEnvelope → ClientRequest
  get_dms : ℕ → ClientRequest
  fetch_manifest : Bytes → ClientRequest
  find_node : Bytes → ClientRequest
  store_dht_record : Bytes → NodeAddr → ClientRequest
  heartbeat : ClientRequest
  gossip : String → Bytes → ClientRequest
  push_manifest : ManifestPush → ClientRequest
  push_history : Bytes → Bytes → List LogEntry → ClientRequest
  store_community_peer : Bytes → Bytes → NodeAddr → ClientRequest
  find_community_peers : Bytes → ClientRequest
  store_peer_info : PeerInfoRequest → ClientRequest
  find_peer_info : Bytes → ClientRequest

-- An error has its code; its text is left out.
pub data NodeResponse : Type 0 where
  authenticated : Bytes → NodeResponse
  message_ack : ℕ → NodeResponse
  messages : List LogEntry → NodeResponse
  dm_ack : ℕ → NodeResponse
  dms : List LogEntry → NodeResponse
  manifest :
      SignedManifest → List ChannelManifest → Map Bytes Bytes → List MembershipRecord → NodeResponse
  closest_peers : List (Bytes × NodeAddr) → Option NodeAddr → NodeResponse
  dht_ack gossip_ack push_ack community_peer_ack peer_info_ack : NodeResponse
  community_peers : List CommunityPeerRecord → NodeResponse
  peer_info : Bytes → NodeAddr → String → NodeResponse
  error : ℕ → NodeResponse

-- The third text of a gossip message is its source's; the handler sends no `Presence`.
pub data NodePush : Type 0 where
  new_message : Bytes → LogEntry → NodePush
  new_dm : LogEntry → Bytes → NodePush
  presence : Bytes → ℕ → NodePush
  gossip_message : String → String → Bytes → NodePush
