-- ===== src/Community/AppState.antt =====
-- crates/bitcord-core/src/api/mod.rs: the state that the event handlers share, what they send and
-- save, and `remove_community_local`. A handler takes each lock for one read or one write; the
-- handlers run one after another in the task that reads the events, so a handler is one function on
-- the state. `save_table` is the write of a table's contents to `disk`; `out` lists the commands to
-- the network task and the pushes to the clients, in the order in which they were sent.
use bit_cord.Prelude.{
  ℕ, String, Bool, Bytes, List, [], ◌∷◌, ◌++◌, Option, none, some, keep, map, ◌==◌, nat_eq, list_eq,
  map_some,
}
use bit_cord.Prelude.Map.{Map, get, insert, remove, values}
use bit_cord.Dht.Routing.{NodeAddr}
use bit_cord.State.MessageLog.{MessageLog}
use bit_cord.Community.Model.{Role, MembershipRecord, SignedManifest, ChannelManifest}
use bit_cord.Community.NodeStore.{CommunityMeta, NodeStore, store_remove_community}

pub data UserStatus : Type 0 where
  online idle do_not_disturb invisible offline : UserStatus

pub record DmPeerInfo : Type 0 where
  pub display_name : Bytes
  pub x25519_public_key : Bytes

pub record PeerSummary : Type 0 where
  pub peer_id : Bytes
  pub is_admin : Bool

pub data Topic : Type 0 where
  community_topic channel_topic : Bytes → Topic

pub data NetworkCommand : Type 0 where
  subscribe unsubscribe : Topic → NetworkCommand
  publish_channel_manifest : Topic → ChannelManifest → NetworkCommand
  publish_member_joined : Topic → MembershipRecord → NetworkCommand
  fetch_manifest : Bytes → Bytes → Bytes → NetworkCommand
  fetch_channel_history : Bytes → Bytes → Bytes → Bytes → ℕ → NetworkCommand
  dial : NodeAddr → Bytes → Bytes → Option Bytes → Bytes → NetworkCommand

pub record MessageEventData : Type 0 where
  pub message_id : Bytes
  pub channel_id : Bytes
  pub community_id : Bytes
  pub author_id : Bytes
  pub author_name : Option Bytes
  pub timestamp : ℕ
  pub body : Option Bytes

-- The progress of a synchronisation in percent.
pub data PushEvent : Type 0 where
  community_deleted community_manifest_updated : Bytes → ℕ → PushEvent
  channel_deleted : Bytes → Bytes → PushEvent
  member_joined member_left : Bytes → Bytes → Bytes → PushEvent
  member_role_updated : Bytes → Bytes → Role → PushEvent
  presence_changed : Bytes → UserStatus → ℕ → PushEvent
  sync_progress : Bytes → ℕ → PushEvent
  channel_history_synced : Bytes → Bytes → PushEvent
  message_new message_edited : MessageEventData → PushEvent
  message_deleted : Bytes → Bytes → Bytes → PushEvent
  reaction_updated : String → Bytes → Bytes → List (String × List String) → PushEvent

pub data Effect : Type 0 where
  command : NetworkCommand → Effect
  push : PushEvent → Effect

-- The tables in the data directory.
pub record Disk : Type 0 where
  pub communities : Map Bytes SignedManifest
  pub members : Map Bytes (Map Bytes MembershipRecord)
  pub channels : Map Bytes ChannelManifest
  pub channel_keys : Map Bytes Bytes
  pub previous_channel_keys : Map Bytes Bytes
  pub hosting_passwords : Map Bytes Bytes
  pub dm_peers : Map Bytes DmPeerInfo

pub record AppState : Type 0 where
  pub own_user_id : Bytes
  pub own_pk : Bytes
  pub communities : Map Bytes SignedManifest
  pub members : Map Bytes (Map Bytes MembershipRecord)
  pub bans : Map Bytes (List Bytes)
  pub channels : Map Bytes ChannelManifest
  pub channel_keys : Map Bytes Bytes
  pub previous_channel_keys : Map Bytes Bytes
  pub hosting_passwords : Map Bytes Bytes
  pub seed_fingerprints : Map Bytes Bytes
  pub dm_peers : Map Bytes DmPeerInfo
  pub presence : Map Bytes UserStatus
  pub connected_peers : Map Bytes (List PeerSummary)
  pub pending_manifest_syncs : List Bytes
  pub pending_rotation_messages : Map Bytes (List (Bytes × Bytes))
  pub message_log : MessageLog
  pub node_store : Option NodeStore
  pub disk : Disk
  pub out : List Effect

-- `broadcaster.send(event)`
abbrev pub broadcast : AppState → PushEvent → AppState
broadcast s e = record s { out = s.out ++ push e ∷ [] }

-- `swarm_cmd_tx.send(command)`, whose result the handlers drop.
abbrev pub send : AppState → NetworkCommand → AppState
send s c = record s { out = s.out ++ command c ∷ [] }

-- A write under the lock, with the `save_table` that follows it.
abbrev pub set_members : AppState → Map Bytes (Map Bytes MembershipRecord) → AppState
set_members s m = record s { members = m; disk = record s.disk { members = m } }

abbrev pub set_communities : AppState → Map Bytes SignedManifest → AppState
set_communities s m = record s { communities = m; disk = record s.disk { communities = m } }

abbrev pub set_channels : AppState → Map Bytes ChannelManifest → AppState
set_channels s m = record s { channels = m; disk = record s.disk { channels = m } }

abbrev pub set_channel_keys : AppState → Map Bytes Bytes → AppState
set_channel_keys s m = record s { channel_keys = m; disk = record s.disk { channel_keys = m } }

abbrev pub set_previous_keys : AppState → Map Bytes Bytes → AppState
set_previous_keys s m = record s {
  previous_channel_keys = m;
  disk = record s.disk { previous_channel_keys = m };
}

abbrev pub set_passwords : AppState → Map Bytes Bytes → AppState
set_passwords s m = record s {
  hosting_passwords = m;
  disk = record s.disk { hosting_passwords = m };
}

abbrev pub set_dm_peers : AppState → Map Bytes DmPeerInfo → AppState
set_dm_peers s m = record s { dm_peers = m; disk = record s.disk { dm_peers = m } }

abbrev pub set_meta : AppState → NodeStore → Bytes → CommunityMeta → AppState
set_meta s store pk meta = record s {
  node_store = some (record store { meta = insert store.meta pk meta });
}

abbrev pub public_key_of : AppState → Bytes → Option Bytes
public_key_of s community_id =
    map_some (λ (m : SignedManifest). m.manifest.public_key) (get s.communities community_id)

abbrev pub remove_all : {V : Type 0} → Map Bytes V → List Bytes → Map Bytes V
remove_all m [] = m
remove_all m (k ∷ ks) = remove_all (remove m k) ks

abbrev pub unsubscribe_channels : AppState → List Bytes → AppState
unsubscribe_channels s [] = s
unsubscribe_channels s (c ∷ cs) = unsubscribe_channels (send s (unsubscribe (channel_topic c))) cs

abbrev pub clean_node_store : Option Bytes → AppState → AppState
clean_node_store none s = s
clean_node_store (some pk) s = record s {
  node_store = map_some (λ st. store_remove_community st pk) s.node_store;
}

abbrev pub channel_ids_of : AppState → Bytes → List Bytes
channel_ids_of s community_id =
    map (λ (c : ChannelManifest). c.id)
      (keep (λ (c : ChannelManifest). c.community_id == community_id) (values s.channels))

unfoldable pub remove_community_local : AppState → Bytes → AppState
remove_community_local s community_id =
    let channel_ids = channel_ids_of s community_id in
    let community_pk = public_key_of s community_id in
    let s1 = set_communities s (remove s.communities community_id) in
    let s2 = set_members s1 (remove s1.members community_id) in
    let s3 = set_channels s2 (remove_all s2.channels channel_ids) in
    let s4 = set_channel_keys s3 (remove_all s3.channel_keys channel_ids) in
    let s5 = set_passwords s4 (remove s4.hosting_passwords community_id) in
    let s6 = clean_node_store community_pk s5 in
    unsubscribe_channels (send s6 (unsubscribe (community_topic community_id))) channel_ids
