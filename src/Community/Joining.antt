-- ===== src/Community/Joining.antt =====
-- crates/bitcord-core/src/api/event_processor/community_handler.rs: `handle_community_joined`, and the
-- branch of `handle_community_message` for the manifest of a channel.
use bit_cord.Prelude.{
  ℕ, Bool, false, Bytes, List, [], ◌∷◌, ◌++◌, Option, none, some, any, find, update_first, or_else,
  ◌==◌, if◌then◌else◌, nat_eq, list_eq, map_some,
}
use bit_cord.Prelude.Map.{get, insert, contains_key}
use bit_cord.State.MessageLog.{len}
use bit_cord.Community.Model.{Env, SignedManifest, ChannelManifest}
use bit_cord.Community.AppState.{
  AppState, PeerSummary, community_topic, channel_topic, subscribe, fetch_channel_history,
  sync_progress, broadcast, send, set_communities, set_channels, set_channel_keys,
  set_previous_keys, set_meta, public_key_of,
}
use bit_cord.Community.NodeStore.{next_seq, last_seq, CommunityMeta}
use bit_cord.Community.Member.{zero_signature}

abbrev has_id : Bytes → Bytes → Bool
has_id id x = x == id

abbrev pub contains : List Bytes → Bytes → Bool
contains xs id = any (has_id id) xs

-- `if !pending.contains(&id) { pending.push(id) }`
abbrev pub queue_sync : AppState → Bytes → AppState
queue_sync s id =
    if contains s.pending_manifest_syncs id
    then s
    else record s { pending_manifest_syncs = s.pending_manifest_syncs ++ id ∷ [] }

-- "Syncing...": an entry without a signature, so that a peer can be asked for the manifest.
abbrev pub placeholder : ℕ → Bytes → Bytes → SignedManifest
placeholder now community_pk community_id = record {
  manifest = record {
    id = community_id;
    name = b'S' ∷ b'y' ∷ b'n' ∷ b'c' ∷ b'i' ∷ b'n' ∷ b'g' ∷ b'.' ∷ b'.' ∷ b'.' ∷ [];
    description = [];
    public_key = community_pk;
    created_at = now;
    admin_ids = [];
    channel_ids = [];
    seed_nodes = [];
    version = 0;
    deleted = false;
  };
  signature = zero_signature;
}

load_joined : AppState → ℕ → Bytes → Bytes → Option CommunityMeta → AppState
load_joined s now community_pk community_id none = s
load_joined s now community_pk community_id (some meta) =
    if contains_key s.communities community_id then s else elim meta.manifest [
      | some manifest ↦ set_communities s (insert s.communities community_id manifest)
      | none ↦
          let held = placeholder now community_pk community_id in
          queue_sync (record s { communities = insert s.communities community_id held })
            community_id
    ]

unfoldable pub handle_community_joined : AppState → ℕ → Bytes → Bytes → AppState
unfolding load_joined
handle_community_joined s now community_pk community_id =
    let s' = send s (subscribe (community_topic community_id)) in
    elim s'.node_store [
      | none ↦ s'
      | some store ↦ load_joined s' now community_pk community_id (get store.meta community_pk)
    ]

-- A new channel key; the one that it replaces is kept for messages still under it.
unfoldable pub install_key : AppState → Bytes → Bytes → AppState
install_key s ch_id key =
    let keep_old : Option Bytes → AppState = λ o. elim o [
      | none ↦ s
      | some old ↦
          if old == key then s else set_previous_keys s (insert s.previous_channel_keys ch_id old)
    ] in
    let s' = keep_old (get s.channel_keys ch_id) in
    set_channel_keys s' (insert s'.channel_keys ch_id key)

abbrev first : List PeerSummary → Option PeerSummary
first [] = none
first (p ∷ ps) = some p

-- The admin peer if one is connected, else any peer of the community.
abbrev pub history_peer : AppState → Bytes → Option Bytes
history_peer s community_id =
    let peers : List PeerSummary = or_else (get s.connected_peers community_id) [] in
    map_some (λ (p : PeerSummary). p.peer_id)
      (elim (find (λ (p : PeerSummary). p.is_admin) peers) [ some p ↦ some p | none ↦ first peers ])

abbrev pub since_seq : Env → AppState → Bytes → Bytes → ℕ
since_seq env s community_pk ch_id = elim s.node_store [
  | some store ↦ next_seq (last_seq store community_pk ch_id)
  | none ↦ len s.message_log (env.id_text ch_id)
]

unfoldable pub catch_up : Env → AppState → Bytes → Bytes → Bytes → AppState
catch_up env s community_pk community_id ch_id = elim (history_peer s community_id) [
  | none ↦ s
  | some peer_id ↦ send (broadcast s (sync_progress ch_id 0)) (
      fetch_channel_history peer_id community_id community_pk ch_id
        (since_seq env s community_pk ch_id))
]

-- The node's own wrapped key, if the manifest has one and it unwraps.
unfoldable pub unwrap_own : Env → AppState → Bytes → ChannelManifest → AppState
unfolding install_key catch_up
unwrap_own env s community_pk m = elim (get m.encrypted_channel_key s.own_user_id) [
  | none ↦ s
  | some wrapped ↦ elim (env.unwrap_key wrapped) [
    | none ↦ s
    | some key ↦ catch_up env (install_key s m.id key) community_pk m.community_id m.id
  ]
]

unfoldable pub store_channel : AppState → Bytes → ChannelManifest → AppState
store_channel s community_pk m = elim s.node_store [
  | none ↦ s
  | some store ↦ elim (get store.meta community_pk) [
    | none ↦ s
    | some meta ↦
        let same : ChannelManifest → Bool = λ c. c.id == m.id in
        let channels =
          or_else (update_first same (λ _. m) meta.channels) (meta.channels ++ m ∷ []) in
        set_meta s store community_pk (record meta { channels = channels })
  ]
]

unfoldable pub handle_channel_manifest : Env → AppState → ChannelManifest → AppState
unfolding unwrap_own store_channel
handle_channel_manifest env s m = elim (public_key_of s m.community_id) [
  | none ↦ s
  | some pk ↦
      let s1 = set_channels s (insert s.channels m.id m) in
      let s2 = unwrap_own env s1 pk m in
      send (store_channel s2 pk m) (subscribe (channel_topic m.id))
]
