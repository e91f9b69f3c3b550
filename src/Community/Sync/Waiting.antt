-- ===== src/Community/Sync/Waiting.antt =====
-- The messages that waited for a key of the channels of a received manifest: which of them can be
-- read, and what reading one leaves of the keys and of the others.
use bit_cord.Prelude.{
  ◌≡◌, refl, ◌∙◌, Bool, true, false, not, Bytes, List, [], Option, none, some, is_some, or_else,
  arith, Option-cases, inl, inr, nat_eq, list_eq, if_cases, not_cases, elim_cases,
}
use bit_cord.Prelude.Map.{Map, get}
use bit_cord.State.MessageLog.{get_entry}
use bit_cord.State.MessageLog.{LogEntry}
use bit_cord.Community.Model.{
  Env, ChannelManifest, RawMessage, raw_verify, MessageContent, text_content, reaction_content,
  ChannelEvent, new_message,
}
use bit_cord.Community.AppState.{AppState, public_key_of}
use bit_cord.Community.Message.{
  decrypt_either, author_key, entry_of, log_message, persist_message, notify, store_message,
  verify_and_store, handle_new_message,
}
use bit_cord.Community.Channel.{handle_channel_event, handle_channel_message}
use bit_cord.Community.Sync.Replay.{waits, takes_lock}

-- The channels, their keys and the keys before those.
abbrev pub Keyring : Type 0
Keyring = Map Bytes ChannelManifest × Map Bytes Bytes × Map Bytes Bytes

abbrev pub keyring : AppState → Keyring
keyring s = (s.channels, s.channel_keys, s.previous_channel_keys)

-- A message of a channel that the node has, with a key: such a message can wait for another key.
abbrev pub IsMessage : Env → Keyring → Bytes × Bytes → Type 0
IsMessage env (channels, keys, previous) (topic, payload) =
    (raw : RawMessage) × (env.decode_event payload ≡ some (new_message raw))
    × ((ch : ChannelManifest) × (get channels raw.channel_id ≡ some ch))
    × ((key : Bytes) × (get keys raw.channel_id ≡ some key))

-- A message that decrypts with the key of its channel or the key before it.
abbrev opens : Env → Keyring → ChannelEvent → Bool
opens env (channels, keys, previous) (new_message raw) = elim (get keys raw.channel_id) [
  | none ↦ false
  | some key ↦
      is_some (decrypt_either env key (get previous raw.channel_id) raw.nonce raw.ciphertext)
]
opens env k event = false

abbrev pub can_read : Env → Keyring → Bytes × Bytes → Bool
can_read env k (topic, payload) = elim (env.decode_event payload) [
  | none ↦ false
  | some event ↦ opens env k event
]

abbrev pub waiting_for : AppState → Bytes → List (Bytes × Bytes)
waiting_for s c = or_else (get s.pending_rotation_messages c) []

-- A state with the keyring and the waiting messages of another.
abbrev pub SameKeys : AppState → AppState → Type 0
SameKeys s t = (keyring t ≡ keyring s) × (t.pending_rotation_messages ≡ s.pending_rotation_messages)

pub SameKeys-trans : (s t u : AppState) → SameKeys s t → SameKeys t u → SameKeys s u
SameKeys-trans s t u h k = (k.0 ∙ h.0, k.1 ∙ h.1)

SameKeys-persist :
    (s : AppState) (c ch : Bytes) (e : LogEntry) → SameKeys s (persist_message s c ch e)
unfolding persist_message
SameKeys-persist s c ch e =
    elim_cases (SameKeys s) s.node_store _ _ (λ n. (refl, refl))
      (λ store n.
        elim_cases (SameKeys s) (public_key_of s c) _ _ (λ k. (refl, refl)) (λ pk k. (refl, refl)))

SameKeys-notify :
    (env : Env) (s : AppState) (c : Bytes) (raw : RawMessage) (content : Option MessageContent)
    → SameKeys s (notify env s c raw content)
unfolding notify
SameKeys-notify env s c raw none = (refl, refl)
SameKeys-notify env s c raw (some (text_content a b d e)) = (refl, refl)
SameKeys-notify env s c raw (some (reaction_content a b d)) = (refl, refl)

SameKeys-store :
    (env : Env) (s : AppState) (c : Bytes) (raw : RawMessage) (content : Option MessageContent)
    → SameKeys s (store_message env s c raw content)
unfolding store_message
SameKeys-store env s c raw content =
    let s1 : AppState = record s { message_log = log_message env s.message_log raw content } in
    let s2 = persist_message s1 c raw.channel_id (entry_of env raw) in
    let first : SameKeys s s2 = SameKeys-persist s1 c raw.channel_id (entry_of env raw) in
    SameKeys-trans s s2 (notify env s2 c raw content) first (SameKeys-notify env s2 c raw content)

SameKeys-verify :
    (env : Env) (s : AppState) (c : Bytes) (raw : RawMessage) (plain : Bytes)
    → SameKeys s (verify_and_store env s c raw plain)
unfolding verify_and_store
SameKeys-verify env s c raw plain =
    elim_cases (SameKeys s) (author_key s c raw.author_id) _ _ (λ n. (refl, refl))
      (λ pk n.
        not_cases (SameKeys s) (raw_verify env raw pk) _ _ (λ h. (refl, refl))
          (λ h.
            if_cases (SameKeys s)
              (is_some (get_entry s.message_log (env.id_text raw.channel_id) (env.id_text raw.id)))
              _ _ (λ k. (refl, refl)) (λ k. SameKeys-store env s c raw (env.decode_content plain))))

-- With a known channel and key, only a message that cannot be read takes the lock, and one that can
-- be read leaves the keys and the waiting messages.
pub message-SameKeys :
    (env : Env) (s : AppState) (topic payload : Bytes)
    → IsMessage env (keyring s) (topic, payload)
    → (takes_lock env s payload ≡ not (can_read env (keyring s) (topic, payload)))
      × (can_read env (keyring s) (topic, payload) ≡ true
          → SameKeys s (handle_channel_message env s topic payload))
unfolding handle_channel_message handle_channel_event handle_new_message
message-SameKeys env s topic payload (raw, decoded, (ch, is_ch), (key, is_key)) =
    elim (Option-cases (
      decrypt_either env key (get s.previous_channel_keys raw.channel_id) raw.nonce
        raw.ciphertext)) [
          | inl d ↦ (
            rw (takes_lock, can_read, decoded, waits, opens, is_ch, is_key, d) refl,
            λ h. ground (arith, rw (can_read, decoded, opens, is_key, d) at h),
          )
          | inr (plain, d) ↦ (
            rw (takes_lock, can_read, decoded, waits, opens, is_ch, is_key, d) refl,
            λ h.
                rw
                  (
                    handle_channel_message, handle_channel_event, handle_new_message, decoded,
                    is_ch, is_key, d,
                  )
                  (SameKeys-verify env s ch.community_id raw plain),
          )
        ]
