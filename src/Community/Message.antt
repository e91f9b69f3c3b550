-- ===== src/Community/Message.antt =====
-- crates/bitcord-core/src/api/event_processor/channel_handler.rs: a message that arrives on a channel's
-- topic, from its decryption to the notification of the clients.
use bit_cord.Prelude.{
  false, not, Bytes, String, string_eq, [], ◌∷◌, ◌++◌, Option, none, some, is_some, if◌then◌else◌,
  nat_eq, list_eq, map_some,
}
use bit_cord.Prelude.Map.{get, insert}
use bit_cord.State.MessageLog.{
  LogEntry, MessageLog, append, get_entry, react, unreact, get_reactions,
}
use bit_cord.Community.Model.{
  Env, MembershipRecord, MessageContent, text_content, reaction_content, RawMessage, raw_verify,
}
use bit_cord.Community.AppState.{AppState, message_new, reaction_updated, broadcast, public_key_of}
use bit_cord.Community.NodeStore.{append_message}
use bit_cord.Community.Member.{members_of}

-- With the current key, else with the key before it.
abbrev pub decrypt_either : Env → Bytes → Option Bytes → Bytes → Bytes → Option Bytes
decrypt_either env key previous nonce ciphertext = elim (env.decrypt_message key nonce ciphertext) [
  | some plain ↦ some plain
  | none ↦ elim previous [ none ↦ none | some old ↦ env.decrypt_message old nonce ciphertext ]
]

-- A message that does not decrypt waits for the new key if a rotation is under way.
unfoldable pub buffer : AppState → Bytes → Bytes → Bytes → AppState
buffer s ch_id topic payload = elim (get s.pending_rotation_messages ch_id) [
  | none ↦ s
  | some waiting ↦ record s {
    pending_rotation_messages =
        insert s.pending_rotation_messages ch_id (waiting ++ (topic, payload) ∷ []);
  }
]

abbrev pub author_key : AppState → Bytes → Bytes → Option Bytes
author_key s community_id author_id =
    map_some (λ (m : MembershipRecord). m.public_key) (get (members_of s community_id) author_id)

abbrev pub name_of : AppState → Bytes → Bytes → Option Bytes
name_of s community_id user_id =
    map_some (λ (m : MembershipRecord). m.display_name) (get (members_of s community_id) user_id)

-- A reaction changes the reactions of the log, any other content does not.
unfoldable pub apply_reaction : MessageLog → Option MessageContent → String → MessageLog
apply_reaction log none author = log
apply_reaction log (some (text_content body files reply edited)) author = log
apply_reaction log (some (reaction_content target emoji is_add)) author =
    if is_add then (react log target emoji author).0 else (unreact log target emoji author).0

abbrev pub entry_of : Env → RawMessage → LogEntry
entry_of env raw = record {
  seq = 0;
  nonce = raw.nonce;
  ciphertext = raw.ciphertext;
  message_id = env.id_text raw.id;
  author_id = env.id_text raw.author_id;
  timestamp_ms = raw.timestamp;
  deleted = false;
}

unfoldable pub log_message : Env → MessageLog → RawMessage → Option MessageContent → MessageLog
unfolding apply_reaction
log_message env log raw content =
    let author = env.id_text raw.author_id in
    (append (apply_reaction log content author) (env.id_text raw.channel_id) (env.id_text raw.id)
      author raw.timestamp raw.nonce raw.ciphertext).1

unfoldable pub persist_message : AppState → Bytes → Bytes → LogEntry → AppState
persist_message s community_id ch_id e = elim s.node_store [
  | none ↦ s
  | some store ↦ elim (public_key_of s community_id) [
    | none ↦ s
    | some pk ↦ record s { node_store = some (append_message store pk ch_id e) }
  ]
]

unfoldable pub notify : Env → AppState → Bytes → RawMessage → Option MessageContent → AppState
notify env s community_id raw (some (reaction_content target emoji is_add)) =
    broadcast s
      (reaction_updated target raw.channel_id community_id (get_reactions s.message_log target))
notify env s community_id raw _ = broadcast s (
    message_new (record {
      message_id = raw.id;
      channel_id = raw.channel_id;
      community_id = community_id;
      author_id = raw.author_id;
      author_name = name_of s community_id raw.author_id;
      timestamp = raw.timestamp;
      body = none;
    }))

unfoldable pub store_message :
    Env → AppState → Bytes → RawMessage → Option MessageContent → AppState
unfolding log_message persist_message notify
store_message env s community_id raw content =
    let s1 = record s { message_log = log_message env s.message_log raw content } in
    notify env (persist_message s1 community_id raw.channel_id (entry_of env raw)) community_id raw
      content

-- The checks on a decrypted message: its author is a member who has signed it, and it is not there.
unfoldable pub verify_and_store : Env → AppState → Bytes → RawMessage → Bytes → AppState
unfolding raw_verify store_message
verify_and_store env s community_id raw plain = elim (author_key s community_id raw.author_id) [
  | none ↦ s
  | some pk ↦
      if not (raw_verify env raw pk)
      then s
      else if is_some (get_entry s.message_log (env.id_text raw.channel_id) (env.id_text raw.id))
      then s
      else store_message env s community_id raw (env.decode_content plain)
]

-- `topic` and `data` are what the message was decoded from.
unfoldable pub handle_new_message : Env → AppState → Bytes → Bytes → RawMessage → AppState
unfolding buffer verify_and_store
handle_new_message env s topic payload raw = elim (get s.channels raw.channel_id) [
  | none ↦ s
  | some ch ↦ elim (get s.channel_keys raw.channel_id) [
    | none ↦ s
    | some key ↦
        elim (decrypt_either env key (get s.previous_channel_keys raw.channel_id) raw.nonce
          raw.ciphertext) [
            | none ↦ buffer s raw.channel_id topic payload
            | some plain ↦ verify_and_store env s ch.community_id raw plain
          ]
  ]
]
