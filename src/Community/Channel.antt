-- ===== src/Community/Channel.antt =====
-- crates/bitcord-core/src/api/event_processor/channel_handler.rs: messages, edits, deletions and key
-- rotations on a channel's topic, and the history that a peer sends.
pub mod Frames
pub mod Accepts
pub mod Edits
pub mod History
pub mod Unique
pub mod Rotation
pub mod Replay
use bit_cord.Prelude.{
  ℕ, Bool, true, false, not, ◌&&◌, Bytes, String, string_eq, List, [], ◌∷◌, ◌++◌, Option, none,
  some, update_first, or_else, is_some, ltb, ◌==◌, if◌then◌else◌, nat_eq, list_eq, map_some,
}
use bit_cord.Prelude.Map.{Map, get, insert, contains_key}
use bit_cord.State.MessageLog.{
  LogEntry, MessageLog, append, append_entry, get_entry, edit, tombstone, react, unreact,
  get_reactions,
}
use bit_cord.Community.Model.{
  Env, MembershipRecord, ChannelManifest, SignedManifest, MessageContent, text_content,
  reaction_content, RawMessage, EditMessagePayload, DeleteMessagePayload, ChannelKeyRotationPayload,
  ChannelEvent, new_message, channel_key_rotation, edit_message, delete_message, ignored,
  raw_verify, is_signature,
}
use bit_cord.Community.AppState.{
  AppState, MessageEventData, fetch_manifest, message_new, message_edited, message_deleted,
  reaction_updated, sync_progress, channel_history_synced, broadcast, send, set_channels,
  public_key_of,
}
use bit_cord.Community.NodeStore.{append_message}
use bit_cord.Community.Member.{members_of}
use bit_cord.Community.Message.{
  apply_reaction, author_key, buffer, decrypt_either, entry_of, handle_new_message, log_message,
  name_of, notify, persist_message, store_message, verify_and_store,
}
use bit_cord.Community.Joining.{history_peer, store_channel}

-- The entry of a message whose author is the one named.
abbrev pub authored : MessageLog → String → String → String → Bool
authored log ch id author = elim (get_entry log ch id) [
  | none ↦ false
  | some e ↦ e.author_id == author
]

abbrev body_of : Option MessageContent → Option Bytes
body_of none = none
body_of (some (text_content body files reply edited)) = some body
body_of (some (reaction_content target emoji is_add)) = none

abbrev new_body : Env → AppState → EditMessagePayload → Option Bytes
new_body env s p = elim (get s.channel_keys p.channel_id) [
  | none ↦ none
  | some key ↦ elim (env.decrypt_message key p.new_nonce p.new_ciphertext) [
    | none ↦ none
    | some plain ↦ body_of (env.decode_content plain)
  ]
]

unfoldable pub notify_edited : Env → AppState → EditMessagePayload → AppState
notify_edited env s p = elim (get s.channels p.channel_id) [
  | none ↦ s
  | some ch ↦ broadcast s (
      message_edited (record {
        message_id = p.message_id;
        channel_id = p.channel_id;
        community_id = ch.community_id;
        author_id = p.author_id;
        author_name = name_of s ch.community_id p.author_id;
        timestamp = p.timestamp;
        body = new_body env s p;
      }))
]

unfoldable pub handle_edit_message : Env → AppState → EditMessagePayload → AppState
unfolding notify_edited
handle_edit_message env s p =
    let ch = env.id_text p.channel_id in
    let id = env.id_text p.message_id in
    if not (authored s.message_log ch id (env.id_text p.author_id))
    then s
    else let (log, found) = edit s.message_log ch id p.new_nonce p.new_ciphertext in
      if not found then s else notify_edited env (record s { message_log = log }) p

unfoldable pub notify_deleted : AppState → DeleteMessagePayload → AppState
notify_deleted s p = elim (get s.channels p.channel_id) [
  | none ↦ s
  | some ch ↦ broadcast s (message_deleted p.message_id p.channel_id ch.community_id)
]

unfoldable pub handle_delete_message : Env → AppState → DeleteMessagePayload → AppState
unfolding notify_deleted
handle_delete_message env s p =
    let ch = env.id_text p.channel_id in
    let id = env.id_text p.message_id in
    if not (authored s.message_log ch id (env.id_text p.author_id))
    then s
    else let (log, found) = tombstone s.message_log ch id in
      if not found then s else notify_deleted (record s { message_log = log }) p

-- The signature of a rotation, against the key of the community's manifest.
unfoldable pub rotation_is_signed : Env → Bytes → ChannelKeyRotationPayload → Bool
rotation_is_signed env pk p =
    env.valid_key pk
    && (is_signature p.signature && env.verify pk (env.channel_bytes p.new_manifest) p.signature)

abbrev pub is_newer_channel : Option ChannelManifest → ChannelManifest → Bool
is_newer_channel none new = false
is_newer_channel (some current) new = ltb current.version new.version

-- `pending.entry(channel_id).or_default()`
abbrev pub expect_rotation : AppState → Bytes → AppState
expect_rotation s ch_id =
    if contains_key s.pending_rotation_messages ch_id
    then s
    else record s { pending_rotation_messages = insert s.pending_rotation_messages ch_id [] }

abbrev pub fetch_from_peer : AppState → Bytes → Bytes → AppState
fetch_from_peer s community_id pk = elim (history_peer s community_id) [
  | none ↦ s
  | some peer_id ↦ send s (fetch_manifest peer_id community_id pk)
]

unfoldable pub handle_channel_key_rotation : Env → AppState → ChannelKeyRotationPayload → AppState
unfolding rotation_is_signed store_channel
handle_channel_key_rotation env s p =
    let m = p.new_manifest in
    elim (public_key_of s m.community_id) [
      | none ↦ s
      | some pk ↦
          if not (rotation_is_signed env pk p)
          then s
          else if not (is_newer_channel (get s.channels m.id) m)
          then s
          else let s1 = store_channel (set_channels s (insert s.channels m.id m)) pk m in
            fetch_from_peer (expect_rotation s1 m.id) m.community_id pk
    ]

abbrev pub decrypted_content : Env → Option Bytes → Bytes → Bytes → Option MessageContent
decrypted_content env none nonce ciphertext = none
decrypted_content env (some key) nonce ciphertext =
    elim (env.decrypt_message key nonce ciphertext) [
      | none ↦ none
      | some plain ↦ env.decode_content plain
    ]

-- One entry of a history.
unfoldable pub integrate_entry : Env → Bytes → Bytes → Option Bytes → AppState → LogEntry → AppState
unfolding apply_reaction persist_message
integrate_entry env community_id ch_id key s e =
    let ch = env.id_text ch_id in
    if is_some (get_entry s.message_log ch e.message_id)
    then s
    else let content = decrypted_content env key e.nonce e.ciphertext in
      let log = append_entry (apply_reaction s.message_log content e.author_id) ch e in
      persist_message (record s { message_log = log }) community_id ch_id e

unfoldable pub integrate : Env → Bytes → Bytes → Option Bytes → AppState → List LogEntry → AppState
unfolding integrate_entry
integrate env community_id ch_id key s [] = s
integrate env community_id ch_id key s (e ∷ es) =
    integrate env community_id ch_id key (integrate_entry env community_id ch_id key s e) es

-- A channel id that does not parse does not reach this model, whose ids are bytes.
unfoldable pub handle_channel_history : Env → AppState → Bytes → Bytes → List LogEntry → AppState
unfolding integrate
handle_channel_history env s community_id ch_id entries =
    let s1 = integrate env community_id ch_id (get s.channel_keys ch_id) s entries in
    broadcast (broadcast s1 (sync_progress ch_id 100)) (channel_history_synced ch_id community_id)

unfoldable pub handle_channel_event : Env → AppState → Bytes → Bytes → ChannelEvent → AppState
handle_channel_event env s topic payload (new_message raw) =
    handle_new_message env s topic payload raw
handle_channel_event env s topic payload (channel_key_rotation p) =
    handle_channel_key_rotation env s p
handle_channel_event env s topic payload (edit_message p) = handle_edit_message env s p
handle_channel_event env s topic payload (delete_message p) = handle_delete_message env s p
handle_channel_event env s topic payload ignored = s

unfoldable pub handle_channel_message : Env → AppState → Bytes → Bytes → AppState
unfolding handle_channel_event
handle_channel_message env s topic payload = elim (env.decode_event payload) [
  | none ↦ s
  | some event ↦ handle_channel_event env s topic payload event
]
