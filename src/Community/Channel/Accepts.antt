-- ===== src/Community/Channel/Accepts.antt =====
-- When a message is stored, and what a read of the log sees of it.
use bit_cord.Prelude.{
  ◌≡◌, refl, ◌∙◌, ap, Bool, true, false, not, ◌&&◌, Bytes, String, string_eq, Option, none, some,
  is_some, ◌==◌, if◌then◌else◌, arith, inl, inr, Option-cases, Bool-cases, nat_eq, list_eq,
}
use bit_cord.Prelude.Map.{get}
use bit_cord.State.MessageLog.{LogEntry, MessageLog, get_entry}
use bit_cord.State.MessageLog.Append.{
  first_of, appended, append-eq, get_entry-append_entry, react-channels, unreact-channels,
  get_entry-channels,
}
use bit_cord.Community.Model.{
  Env, MessageContent, text_content, reaction_content, RawMessage, raw_verify,
}
use bit_cord.Community.AppState.{AppState}
use bit_cord.Community.Message.{
  decrypt_either, buffer, author_key, apply_reaction, log_message, entry_of, persist_message,
  notify, store_message, verify_and_store, handle_new_message,
}

-- The content of a message that the node can read, in the community of its channel.
abbrev pub readable : Env → AppState → RawMessage → Option (Bytes × Bytes)
readable env s raw = elim (get s.channels raw.channel_id) [
  | none ↦ none
  | some ch ↦ elim (get s.channel_keys raw.channel_id) [
    | none ↦ none
    | some key ↦
        elim (decrypt_either env key (get s.previous_channel_keys raw.channel_id) raw.nonce
          raw.ciphertext) [ none ↦ none | some plain ↦ some (ch.community_id, plain) ]
  ]
]

-- The author of the message is a member of the community and has signed it.
abbrev pub is_authored : Env → AppState → Bytes → RawMessage → Bool
is_authored env s community_id raw = elim (author_key s community_id raw.author_id) [
  | none ↦ false
  | some pk ↦ raw_verify env raw pk
]

abbrev pub is_stored : Env → AppState → RawMessage → Bool
is_stored env s raw =
    is_some (get_entry s.message_log (env.id_text raw.channel_id) (env.id_text raw.id))

abbrev pub accepts_message : Env → AppState → RawMessage → Bool
accepts_message env s raw = elim (readable env s raw) [
  | none ↦ false
  | some (community_id, plain) ↦ is_authored env s community_id raw && not (is_stored env s raw)
]

pub persist-log :
    (s : AppState) (community_id ch_id : Bytes) (e : LogEntry)
    → (persist_message s community_id ch_id e).message_log ≡ s.message_log
unfolding persist_message
persist-log s community_id ch_id e = ground arith

notify-log :
    (env : Env) (s : AppState) (community_id : Bytes) (raw : RawMessage)
    (content : Option MessageContent)
    → (notify env s community_id raw content).message_log ≡ s.message_log
unfolding notify
notify-log env s community_id raw none = refl
notify-log env s community_id raw (some (text_content body files reply edited)) = refl
notify-log env s community_id raw (some (reaction_content target emoji is_add)) = refl

pub store_message-log :
    (env : Env) (s : AppState) (community_id : Bytes) (raw : RawMessage)
    (content : Option MessageContent)
    → (store_message env s community_id raw content).message_log
      ≡ log_message env s.message_log raw content
unfolding store_message
store_message-log env s community_id raw content =
    notify-log env _ community_id raw content
    ∙ persist-log _ community_id raw.channel_id (entry_of env raw)

buffer-log :
    (s : AppState) (ch_id topic payload : Bytes)
    → (buffer s ch_id topic payload).message_log ≡ s.message_log
unfolding buffer
buffer-log s ch_id topic payload = ground arith

pub apply_reaction-channels :
    (log : MessageLog) (content : Option MessageContent) (author : String)
    → (apply_reaction log content author).channels ≡ log.channels
unfolding apply_reaction
apply_reaction-channels log none author = refl
apply_reaction-channels log (some (text_content body files reply edited)) author = refl
apply_reaction-channels log (some (reaction_content target emoji true)) author =
    react-channels log target emoji author
apply_reaction-channels log (some (reaction_content target emoji false)) author =
    unreact-channels log target emoji author

verify_and_store-log :
    (env : Env) (s : AppState) (community_id : Bytes) (raw : RawMessage) (plain : Bytes)
    → (verify_and_store env s community_id raw plain).message_log ≡ (
        if is_authored env s community_id raw && not (is_stored env s raw)
        then log_message env s.message_log raw (env.decode_content plain)
        else s.message_log)
unfolding verify_and_store
verify_and_store-log env s community_id raw plain =
    ground (arith, store_message-log env s community_id raw (env.decode_content plain))

abbrev pub content_of : Env → AppState → RawMessage → Option MessageContent
content_of env s raw = elim (readable env s raw) [
  | none ↦ none
  | some (community_id, plain) ↦ env.decode_content plain
]

-- The log after a message, on every branch of the handler.
pub handle_new_message-log :
    (env : Env) (s : AppState) (topic payload : Bytes) (raw : RawMessage)
    → (handle_new_message env s topic payload raw).message_log ≡ (
        if accepts_message env s raw
        then log_message env s.message_log raw (content_of env s raw)
        else s.message_log)
unfolding handle_new_message verify_and_store
handle_new_message-log env s topic payload raw =
    elim (Option-cases (get s.channels raw.channel_id)) [
      | inl c ↦ rw (handle_new_message, accepts_message, content_of, readable, c) refl
      | inr (ch, c) ↦ elim (Option-cases (get s.channel_keys raw.channel_id)) [
        | inl k ↦ rw (handle_new_message, accepts_message, content_of, readable, c, k) refl
        | inr (key, k) ↦
            elim (Option-cases (
              decrypt_either env key (get s.previous_channel_keys raw.channel_id) raw.nonce
                raw.ciphertext)) [
                  | inl d ↦
                      rw (handle_new_message, accepts_message, content_of, readable, c, k, d)
                        (buffer-log s raw.channel_id topic payload)
                  | inr (plain, d) ↦
                      rw (handle_new_message, accepts_message, content_of, readable, c, k, d)
                        (verify_and_store-log env s ch.community_id raw plain)
                ]
      ]
    ]

first_of-none : (o : Option LogEntry) → o ≡ first_of o none
first_of-none none = refl
first_of-none (some e) = refl

-- The entry that a stored message makes.
abbrev pub entry_made : Env → AppState → RawMessage → LogEntry
entry_made env s raw =
    let ch = env.id_text raw.channel_id in
    let author = env.id_text raw.author_id in
    appended (apply_reaction s.message_log (content_of env s raw) author) ch (env.id_text raw.id)
      author raw.timestamp raw.nonce raw.ciphertext

get_entry-log_message :
    (env : Env) (s : AppState) (raw : RawMessage) (c j : String)
    → get_entry (log_message env s.message_log raw (content_of env s raw)) c j
      ≡ first_of (get_entry s.message_log c j) (
          if env.id_text raw.channel_id == c && env.id_text raw.id == j
          then some (entry_made env s raw)
          else none)
unfolding log_message
get_entry-log_message env s raw c j =
    let author = env.id_text raw.author_id in
    let ch = env.id_text raw.channel_id in
    let log = apply_reaction s.message_log (content_of env s raw) author in
    ap (λ l. get_entry l c j)
      (append-eq log ch (env.id_text raw.id) author raw.timestamp raw.nonce raw.ciphertext)
    ∙ get_entry-append_entry log ch c j (entry_made env s raw)
    ∙ ap
        (λ o.
          first_of o
            (if ch == c && env.id_text raw.id == j then some (entry_made env s raw) else none))
        (get_entry-channels log s.message_log c j
          (apply_reaction-channels s.message_log (content_of env s raw) author))

-- After a message on a channel's topic, a lookup of any id in any channel finds what it found before
-- the message, and where it found nothing it finds the message's own entry (its nonce, ciphertext,
-- author and time) if the message has been accepted and the id and the channel are its own.
pub get_entry-handle_new_message :
    (env : Env) (s : AppState) (topic payload : Bytes) (raw : RawMessage) (c j : String)
    → get_entry (handle_new_message env s topic payload raw).message_log c j
      ≡ first_of (get_entry s.message_log c j) (
          if accepts_message env s raw
            && (env.id_text raw.channel_id == c && env.id_text raw.id == j)
          then some (entry_made env s raw)
          else none)
get_entry-handle_new_message env s topic payload raw c j =
    ap (λ l. get_entry l c j) (handle_new_message-log env s topic payload raw)
    ∙ elim (Bool-cases (accepts_message env s raw)) [
      | inl t ↦ rw t (get_entry-log_message env s raw c j)
      | inr f ↦ rw f (first_of-none (get_entry s.message_log c j))
    ]

pub stored_is_refused :
    (env : Env) (s : AppState) (raw : RawMessage)
    → is_stored env s raw ≡ true
    → accepts_message env s raw ≡ false
stored_is_refused env s raw h = elim (Option-cases (readable env s raw)) [
  | inl r ↦ rw (accepts_message, r) refl
  | inr ((community_id, plain), r) ↦ rw (accepts_message, r) (ground (arith, h))
]

is_some-first_of :
    (o : Option LogEntry) (b : Bool) (e : LogEntry)
    → b ≡ true
    → is_some (first_of o (if b then some e else none)) ≡ true
is_some-first_of none b e h = rw h refl
is_some-first_of (some x) b e h = refl

pub accepted_is_stored :
    (env : Env) (s : AppState) (topic payload : Bytes) (raw : RawMessage)
    → accepts_message env s raw ≡ true
    → is_some (
        get_entry
          (handle_new_message env s topic payload raw).message_log
          (env.id_text raw.channel_id)
          (env.id_text raw.id))
      ≡ true
accepted_is_stored env s topic payload raw ok =
    let ch = env.id_text raw.channel_id in
    let id = env.id_text raw.id in
    ap is_some (get_entry-handle_new_message env s topic payload raw ch id)
    ∙ is_some-first_of (get_entry s.message_log ch id) _ _
        (ground (arith, ok, string_eq.beq_iff ch ch, string_eq.beq_iff id id))
