-- ===== src/Community/Sync/Replay.antt =====
-- crates/bitcord-core/src/api/event_processor/manifest_handler.rs: the messages that waited for a new
-- channel key. `none` is a replay that never returns: it waits for a lock that the handler holds.
use bit_cord.Prelude.{
  Bool, false, not, ◌&&◌, Bytes, List, [], ◌∷◌, Option, none, some, any, find, or_else, is_some,
  ◌==◌, if◌then◌else◌, nat_eq, list_eq,
}
use bit_cord.Prelude.Map.{get, remove, contains_key}
use bit_cord.Community.Model.{Env, ChannelEvent, new_message, channel_key_rotation}
use bit_cord.Community.AppState.{AppState, PeerSummary, fetch_manifest, send, public_key_of}
use bit_cord.Community.Joining.{contains}
use bit_cord.Community.Message.{decrypt_either}
use bit_cord.Community.Channel.{rotation_is_signed, is_newer_channel, handle_channel_message}
use bit_cord.Community.Sync.Tables.{Received, ids_of}

-- A message takes the lock of the waiting messages if it does not decrypt, a rotation if it is accepted.
abbrev pub waits : Env → AppState → ChannelEvent → Bool
waits env s (new_message raw) = elim (get s.channels raw.channel_id) [
  | none ↦ false
  | some ch ↦ elim (get s.channel_keys raw.channel_id) [
    | none ↦ false
    | some key ↦ not (
        is_some (
          decrypt_either env key (get s.previous_channel_keys raw.channel_id) raw.nonce
            raw.ciphertext))
  ]
]
waits env s (channel_key_rotation p) = elim (public_key_of s p.new_manifest.community_id) [
  | none ↦ false
  | some pk ↦
      rotation_is_signed env pk p
      && is_newer_channel (get s.channels p.new_manifest.id) p.new_manifest
]
waits env s event = false

abbrev pub takes_lock : Env → AppState → Bytes → Bool
takes_lock env s payload = elim (env.decode_event payload) [
  | none ↦ false
  | some event ↦ waits env s event
]

-- The messages that waited for a channel's new key, while the lock of the waiting messages is held.
unfoldable pub replay : Env → AppState → List (Bytes × Bytes) → Option AppState
unfolding handle_channel_message rotation_is_signed
replay env s [] = some s
replay env s ((topic, payload) ∷ rest) =
    let after = replay env (handle_channel_message env s topic payload) rest in
    if takes_lock env s payload then none else after

unfoldable pub drain : Env → AppState → List Bytes → Option AppState
unfolding replay
drain env s [] = some s
drain env s (c ∷ cs) = elim (get s.pending_rotation_messages c) [
  | none ↦ drain env s cs
  | some waiting ↦
      let s' = record s { pending_rotation_messages = remove s.pending_rotation_messages c } in
      elim (replay env s' waiting) [ none ↦ none | some s'' ↦ drain env s'' cs ]
]

abbrev pub other_peer : AppState → Bytes → Bytes → Option PeerSummary
other_peer s id peer =
    find (λ (p : PeerSummary). not (p.peer_id == peer)) (or_else (get s.connected_peers id) [])

-- A rotation whose key has not come is asked for at another peer.
unfoldable pub retry_rotations : AppState → Received → List Bytes → AppState
retry_rotations s r rotated =
    let stale : Bytes → Bool =
      λ c. contains_key s.pending_rotation_messages c && not (contains rotated c) in
    let id = r.manifest.manifest.id in
    if any stale (ids_of r.channels)
    then elim (other_peer s id r.from_peer) [
      | none ↦ s
      | some p ↦ send s (fetch_manifest p.peer_id id r.manifest.manifest.public_key)
    ]
    else s
