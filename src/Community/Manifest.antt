-- ===== src/Community/Manifest.antt =====
-- crates/bitcord-core/src/api/event_processor/community_handler.rs: the branches of
-- `handle_community_message` for manifests and presence, and the dispatch.
pub mod Effects
use bit_cord.Prelude.{
  ℕ, ◌+◌, ◌%◌, ◌^◌, Bool, true, false, not, ◌&&◌, Bytes, List, [], ◌∷◌, ◌++◌, Option, none, some,
  any, find, keep, update_first, or_else, is_some, ltb, map, ◌==◌, if◌then◌else◌, nat_eq, list_eq,
  map_some,
}
use bit_cord.Prelude.Map.{Map, get, insert, remove, values, contains_key}
use bit_cord.State.MessageLog.{len}
use bit_cord.Community.Model.{
  Env, MembershipRecord, MemberLeftPayload, MemberRoleUpdatedPayload, PresenceHeartbeatPayload,
  CommunityManifest, SignedManifest, ChannelManifest, is_signature, heartbeat_message,
  manifest_verify,
}
use bit_cord.Community.AppState.{
  AppState, PeerSummary, UserStatus, online, idle, do_not_disturb, invisible, offline,
  community_topic, channel_topic, subscribe, unsubscribe, fetch_manifest, fetch_channel_history,
  dial, community_deleted, community_manifest_updated, channel_deleted, presence_changed,
  sync_progress, broadcast, send, set_communities, set_channels, set_channel_keys,
  set_previous_keys, set_meta, public_key_of, remove_all, unsubscribe_channels,
  remove_community_local,
}
use bit_cord.Community.NodeStore.{next_seq, last_seq, NodeStore, CommunityMeta}
use bit_cord.Community.Member.{
  handle_member_joined, handle_member_left, handle_member_role_updated, zero_signature,
}
use bit_cord.Community.Joining.{contains, queue_sync, handle_channel_manifest}

abbrev pub subscribe_channels : AppState → List Bytes → AppState
subscribe_channels s [] = s
subscribe_channels s (c ∷ cs) = subscribe_channels (send s (subscribe (channel_topic c))) cs

abbrev pub push_deleted : Bytes → AppState → List Bytes → AppState
push_deleted community_id s [] = s
push_deleted community_id s (c ∷ cs) =
    push_deleted community_id (broadcast s (channel_deleted c community_id)) cs

unfoldable pub store_manifest : AppState → SignedManifest → AppState
store_manifest s new = elim s.node_store [
  | none ↦ s
  | some store ↦ elim (get store.meta new.manifest.public_key) [
    | none ↦ s
    | some meta ↦ set_meta s store new.manifest.public_key (record meta { manifest = some new })
  ]
]

abbrev without : List Bytes → List Bytes → List Bytes
without gone xs = keep (λ id. not (contains gone id)) xs

-- Channels that the new manifest does not list any more.
unfoldable pub drop_channels : AppState → Bytes → List Bytes → AppState
drop_channels s community_id [] = s
drop_channels s community_id (c ∷ cs) =
    let s1 = unsubscribe_channels s (c ∷ cs) in
    let s2 = set_channels s1 (remove_all s1.channels (c ∷ cs)) in
    push_deleted community_id s2 (c ∷ cs)

abbrev first_seed : List Bytes → Bytes
first_seed [] = []
first_seed (x ∷ xs) = x

abbrev zero_fingerprint : Bytes
zero_fingerprint =
    let eight : Bytes = 0 ∷ 0 ∷ 0 ∷ 0 ∷ 0 ∷ 0 ∷ 0 ∷ 0 ∷ [] in eight ++ eight ++ eight ++ eight

-- A changed seed node is dialled, with the fingerprint that is pinned for it.
unfoldable pub dial_new_seed : Env → AppState → CommunityManifest → List Bytes → AppState
dial_new_seed env s new old_seed_nodes =
    let new_seed = first_seed new.seed_nodes in
    if not (new_seed == []) && not (new_seed == first_seed old_seed_nodes)
    then elim (env.parse_addr new_seed) [
      | none ↦ s
      | some addr ↦ send s (
          dial addr new.public_key new.id (get s.hosting_passwords new.id)
            (or_else (get s.seed_fingerprints new_seed) zero_fingerprint))
    ]
    else s

-- The peer that sent the update is asked for the full manifest; without one it is queued.
abbrev pub ask : AppState → Option Bytes → CommunityManifest → AppState
ask s none m = queue_sync s m.id
ask s (some src) m = send s (fetch_manifest src m.id m.public_key)

-- A newer manifest of a community that the node is in.
unfoldable pub apply_manifest :
    Env → AppState → SignedManifest → SignedManifest → Option Bytes → AppState
unfolding store_manifest drop_channels dial_new_seed
apply_manifest env s current new source =
    let m = new.manifest in
    let old_ids = current.manifest.channel_ids in
    let s1 = set_communities s (insert s.communities m.id new) in
    let s2 = subscribe_channels (store_manifest s1 new) (without old_ids m.channel_ids) in
    let s3 = drop_channels s2 m.id (without m.channel_ids old_ids) in
    let s4 = ask s3 source m in
    broadcast (dial_new_seed env s4 m current.manifest.seed_nodes)
      (community_manifest_updated m.id m.version)

unfoldable pub handle_manifest_update : Env → AppState → SignedManifest → Option Bytes → AppState
unfolding manifest_verify apply_manifest
handle_manifest_update env s new source =
    if not (manifest_verify env new) then s else elim (get s.communities new.manifest.id) [
      | none ↦ s
      | some current ↦
          if not (ltb current.manifest.version new.manifest.version)
          then s
          else if new.manifest.deleted
          then broadcast (remove_community_local s new.manifest.id)
              (community_deleted new.manifest.id new.manifest.version)
          else apply_manifest env s current new source
    ]

abbrev all_members : Map Bytes (Map Bytes MembershipRecord) → List MembershipRecord
all_members [] = []
all_members ((c, ms) ∷ rest) = values ms ++ all_members rest

abbrev read_status : Bytes → UserStatus
read_status t =
    if t == b'o' ∷ b'n' ∷ b'l' ∷ b'i' ∷ b'n' ∷ b'e' ∷ []
    then online
    else if t == b'i' ∷ b'd' ∷ b'l' ∷ b'e' ∷ []
    then idle
    else if t
        == b'd' ∷ b'o' ∷ b'_' ∷ b'n' ∷ b'o' ∷ b't' ∷ b'_' ∷ b'd' ∷ b'i' ∷ b's' ∷ b't' ∷ b'u' ∷ b'r'
          ∷ b'b' ∷ []
    then do_not_disturb
    else if t == b'i' ∷ b'n' ∷ b'v' ∷ b'i' ∷ b's' ∷ b'i' ∷ b'b' ∷ b'l' ∷ b'e' ∷ []
    then invisible
    else offline

unfoldable pub handle_presence_heartbeat : Env → AppState → PresenceHeartbeatPayload → AppState
handle_presence_heartbeat env s hb =
    elim (find (λ (m : MembershipRecord). m.user_id == hb.user_id) (all_members s.members)) [
      | none ↦ s
      | some m ↦
          let sig : Bytes = if is_signature hb.signature then hb.signature else zero_signature in
          if not (env.verify m.public_key (heartbeat_message env hb) sig)
          then s
          else let status = read_status hb.status in
            broadcast (record s { presence = insert s.presence hb.user_id status })
              (presence_changed hb.user_id status hb.timestamp)
    ]

-- The events that `handle_community_message` decodes, with `unused` for those that it ignores and
-- for data that does not decode.
pub data CommunityEvent : Type 0 where
  channel_manifest_broadcast : ChannelManifest → CommunityEvent
  manifest_update : SignedManifest → CommunityEvent
  member_joined : MembershipRecord → CommunityEvent
  member_left : MemberLeftPayload → CommunityEvent
  member_role_updated : MemberRoleUpdatedPayload → CommunityEvent
  presence_heartbeat : PresenceHeartbeatPayload → CommunityEvent
  unused : CommunityEvent

unfoldable pub handle_community_message : Env → AppState → CommunityEvent → Option Bytes → AppState
handle_community_message env s (channel_manifest_broadcast m) source =
    handle_channel_manifest env s m
handle_community_message env s (manifest_update m) source = handle_manifest_update env s m source
handle_community_message env s (member_joined r) source = handle_member_joined env s r
handle_community_message env s (member_left p) source = handle_member_left env s p
handle_community_message env s (member_role_updated p) source = handle_member_role_updated env s p
handle_community_message env s (presence_heartbeat hb) source = handle_presence_heartbeat env s hb
handle_community_message env s unused source = s
