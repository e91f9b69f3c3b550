-- ===== src/Community/Channel/Unique.antt =====
-- The ids of the log stay unique in every channel under all that arrives on a channel's topic and
-- under the histories of peers.
use bit_cord.Prelude.{
  ◌≡◌, refl, ◌∙◌, Bool, true, false, Bytes, String, List, [], ◌∷◌, Option, none, some, is_some, sym,
  if◌then◌else◌, arith, inl, inr, Option-cases, Bool-cases, or_else, nat_eq, list_eq, subst,
  string_eq,
}
use bit_cord.Prelude.Map.{Map, get}
use bit_cord.State.MessageLog.{LogEntry, MessageLog, get_entry, append_entry}
use bit_cord.State.MessageLog.Append.{append-eq, get_entry-channels}
use bit_cord.State.MessageLog.Unique.{NoRepeat, IsUnique, append_entry-IsUnique, edit-IsUnique}
use bit_cord.Community.Model.{
  Env, MessageContent, RawMessage, ChannelEvent, new_message, channel_key_rotation, edit_message,
  delete_message, ignored,
}
use bit_cord.Community.AppState.{AppState}
use bit_cord.Community.Channel.{
  decrypted_content, integrate_entry, integrate, handle_channel_history, handle_channel_event,
  handle_channel_message,
}
use bit_cord.Community.Message.{apply_reaction, log_message, handle_new_message}
use bit_cord.Community.Channel.Accepts.{
  apply_reaction-channels, handle_new_message-log, accepts_message, is_stored, entry_made,
  content_of, stored_is_refused,
}
use bit_cord.Community.Channel.Edits.{handle_edit_message-log, handle_delete_message-log}
use bit_cord.Community.Channel.History.{integrate_entry-log}
use bit_cord.Community.Channel.Rotation.{channels-rotation}

-- Uniqueness is about the channels alone.
channels-IsUnique :
    (log log' : MessageLog) → log.channels ≡ log'.channels → IsUnique log' → IsUnique log
channels-IsUnique log log' same h =
    subst (λ (cs : Map String (List LogEntry)). (ch : String) → NoRepeat (or_else (get cs ch) []))
      (sym same) h

if-IsUnique :
    (b : Bool) (log log' : MessageLog)
    → IsUnique log
    → IsUnique log'
    → IsUnique (if b then log else log')
if-IsUnique true log log' h h' = h
if-IsUnique false log log' h h' = h'

absent : (o : Option LogEntry) → is_some o ≡ false → o ≡ none
absent none h = refl
absent (some e) h = ground (arith, h)

accepted_is_new :
    (env : Env) (s : AppState) (raw : RawMessage)
    → accepts_message env s raw ≡ true
    → is_stored env s raw ≡ false
accepted_is_new env s raw ok = elim (Bool-cases (is_stored env s raw)) [
  | inl t ↦ ground (arith, ok, stored_is_refused env s raw t)
  | inr f ↦ f
]

-- A reaction, then an entry whose id is not there.
reacted-IsUnique :
    (log : MessageLog) (content : Option MessageContent) (author ch : String) (e : LogEntry)
    → is_some (get_entry log ch e.message_id) ≡ false
    → IsUnique log
    → IsUnique (append_entry (apply_reaction log content author) ch e)
reacted-IsUnique log content author ch e new h =
    let same = apply_reaction-channels log content author in
    let log' = apply_reaction log content author in
    append_entry-IsUnique log' ch e
      (get_entry-channels log' log ch e.message_id same
        ∙ absent (get_entry log ch e.message_id) new)
      (channels-IsUnique log' log same h)

handle_new_message-IsUnique :
    (env : Env) (s : AppState) (topic payload : Bytes) (raw : RawMessage)
    → IsUnique s.message_log
    → IsUnique (handle_new_message env s topic payload raw).message_log
unfolding log_message
handle_new_message-IsUnique env s topic payload raw h =
    rw (handle_new_message-log) (elim (Bool-cases (accepts_message env s raw)) [
      | inl t ↦
          let new = accepted_is_new env s raw t in
          rw t (
            rw append-eq (
              reacted-IsUnique s.message_log (content_of env s raw) (env.id_text raw.author_id)
                (env.id_text raw.channel_id) (entry_made env s raw) new h))
      | inr f ↦ rw f h
    ])

handle_channel_event-IsUnique :
    (env : Env) (s : AppState) (topic payload : Bytes) (event : ChannelEvent)
    → IsUnique s.message_log
    → IsUnique (handle_channel_event env s topic payload event).message_log
unfolding handle_channel_event
handle_channel_event-IsUnique env s topic payload (new_message raw) h =
    handle_new_message-IsUnique env s topic payload raw h
handle_channel_event-IsUnique env s topic payload (channel_key_rotation p) h =
    rw ((channels-rotation env s p).1) h
handle_channel_event-IsUnique env s topic payload (edit_message p) h =
    rw (handle_edit_message-log) (
      if-IsUnique _ _ _
        (edit-IsUnique s.message_log (env.id_text p.channel_id) (env.id_text p.message_id)
          p.new_nonce p.new_ciphertext h).0
        h)
handle_channel_event-IsUnique env s topic payload (delete_message p) h =
    rw (handle_delete_message-log) (
      if-IsUnique _ _ _
        (edit-IsUnique s.message_log (env.id_text p.channel_id) (env.id_text p.message_id) [] []
          h).1
        h)
handle_channel_event-IsUnique env s topic payload ignored h = h

integrate_entry-IsUnique :
    (env : Env) (community_id ch_id : Bytes) (key : Option Bytes) (s : AppState) (e : LogEntry)
    → IsUnique s.message_log
    → IsUnique (integrate_entry env community_id ch_id key s e).message_log
integrate_entry-IsUnique env community_id ch_id key s e h =
    rw (integrate_entry-log)
      (elim (Bool-cases (is_some (get_entry s.message_log (env.id_text ch_id) e.message_id))) [
        | inl t ↦ rw t h
        | inr f ↦ rw f (
            reacted-IsUnique s.message_log (decrypted_content env key e.nonce e.ciphertext)
              e.author_id (env.id_text ch_id) e f h)
      ])

integrate-IsUnique :
    (env : Env) (community_id ch_id : Bytes) (key : Option Bytes) (s : AppState)
    (es : List LogEntry)
    → IsUnique s.message_log
    → IsUnique (integrate env community_id ch_id key s es).message_log
unfolding integrate
integrate-IsUnique env community_id ch_id key s [] h = h
integrate-IsUnique env community_id ch_id key s (e ∷ es) h =
    integrate-IsUnique env community_id ch_id key (integrate_entry env community_id ch_id key s e)
      es (integrate_entry-IsUnique env community_id ch_id key s e h)

-- What the network brings for a channel: the bytes of an event, or a peer's history.
pub data Arrival : Type 0 where
  event : Bytes → Bytes → Arrival
  history : Bytes → Bytes → List LogEntry → Arrival

abbrev pub arrive : Env → AppState → Arrival → AppState
arrive env s (event topic payload) = handle_channel_message env s topic payload
arrive env s (history community_id ch_id es) = handle_channel_history env s community_id ch_id es

abbrev pub arrive_all : Env → AppState → List Arrival → AppState
arrive_all env s [] = s
arrive_all env s (a ∷ rest) = arrive_all env (arrive env s a) rest

arrive-IsUnique :
    (env : Env) (s : AppState) (a : Arrival)
    → IsUnique s.message_log
    → IsUnique (arrive env s a).message_log
unfolding handle_channel_message handle_channel_history
arrive-IsUnique env s (event topic payload) h = elim (Option-cases (env.decode_event payload)) [
  | inl n ↦ rw (handle_channel_message, n) h
  | inr (e, n) ↦
      rw (handle_channel_message, n) (handle_channel_event-IsUnique env s topic payload e h)
]
arrive-IsUnique env s (history community_id ch_id es) h =
    integrate-IsUnique env community_id ch_id (get s.channel_keys ch_id) s es h

-- In whatever order messages, edits, deletions, rotations, bytes that do not decode and histories of
-- peers arrive, no two entries of a channel get the same message id if none have it before.
pub arrive_all-IsUnique :
    (env : Env) (s : AppState) (rest : List Arrival)
    → IsUnique s.message_log
    → IsUnique (arrive_all env s rest).message_log
arrive_all-IsUnique env s [] h = h
arrive_all-IsUnique env s (a ∷ rest) h =
    arrive_all-IsUnique env (arrive env s a) rest (arrive-IsUnique env s a h)
