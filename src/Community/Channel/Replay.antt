-- ===== src/Community/Channel/Replay.antt =====
-- A message that has been accepted stays in the log, whatever arrives on the channels' topics.
use bit_cord.Prelude.{
  ◌≡◌, refl, ◌∙◌, ap, Bool, true, ◌&&◌, Bytes, String, List, [], ◌∷◌, Option, none, some, is_some,
  map_some, ◌==◌, if◌then◌else◌, arith, inl, inr, Option-cases, nat_eq, list_eq, string_eq,
  if_cases,
}
use bit_cord.State.MessageLog.{LogEntry, MessageLog, get_entry}
use bit_cord.State.MessageLog.Append.{first_of}
use bit_cord.Community.Model.{
  Env, RawMessage, ChannelEvent, new_message, channel_key_rotation, edit_message, delete_message,
  ignored,
}
use bit_cord.Community.AppState.{AppState}
use bit_cord.Community.Message.{handle_new_message}
use bit_cord.Community.Channel.{handle_channel_event, handle_channel_message}
use bit_cord.Community.Channel.Accepts.{
  accepts_message, is_stored, get_entry-handle_new_message, handle_new_message-log,
  stored_is_refused, accepted_is_stored,
}
use bit_cord.Community.Channel.Edits.{
  get_entry-handle_edit_message, get_entry-handle_delete_message,
}
use bit_cord.Community.Channel.History.{get_entry-handle_channel_history}
use bit_cord.Community.Channel.Rotation.{channels-rotation}
use bit_cord.Community.Channel.Unique.{Arrival, event, history, arrive, arrive_all}

-- The log has an entry with the id in the channel.
abbrev pub Holds : AppState → String → String → Type 0
Holds s c j = is_some (get_entry s.message_log c j) ≡ true

first_of-some : (o p : Option LogEntry) → is_some o ≡ true → is_some (first_of o p) ≡ true
first_of-some none p h = ground (arith, h)
first_of-some (some e) p h = refl

map_some-some : (f : LogEntry → LogEntry) (o : Option LogEntry) → is_some (map_some f o) ≡ is_some o
map_some-some f none = refl
map_some-some f (some e) = refl

-- An entry that is changed in its place is still there.
changed-some :
    (log : MessageLog) (f : LogEntry → LogEntry) (allowed : Bool) (ch id c j : String)
    → is_some (get_entry log c j) ≡ true
    → is_some (
        if allowed && (ch == c && id == j)
        then map_some f (get_entry log ch id)
        else get_entry log c j)
      ≡ true
changed-some log f allowed ch id c j h =
    if_cases (λ o. is_some o ≡ true) (allowed && (ch == c && id == j)) _ _
      (λ t.
        let is_c : ch ≡ c = (string_eq.beq_iff ch c).0 (ground (arith, t)) in
        let is_j : id ≡ j = (string_eq.beq_iff id j).0 (ground (arith, t)) in
        map_some-some f (get_entry log ch id)
        ∙ ap (λ x. is_some (get_entry log x id)) is_c
        ∙ ap (λ x. is_some (get_entry log c x)) is_j
        ∙ h)
      (λ f. h)

event-Holds :
    (env : Env) (s : AppState) (topic payload : Bytes) (e : ChannelEvent) (c j : String)
    → Holds s c j
    → Holds (handle_channel_event env s topic payload e) c j
unfolding handle_channel_event
event-Holds env s topic payload (new_message raw) c j h =
    ap is_some (get_entry-handle_new_message env s topic payload raw c j)
    ∙ first_of-some (get_entry s.message_log c j) _ h
event-Holds env s topic payload (channel_key_rotation p) c j h =
    ap (λ log. is_some (get_entry log c j)) (channels-rotation env s p).1 ∙ h
event-Holds env s topic payload (edit_message p) c j h =
    ap is_some (get_entry-handle_edit_message env s p c j)
    ∙ changed-some s.message_log _ _ (env.id_text p.channel_id) (env.id_text p.message_id) c j h
event-Holds env s topic payload (delete_message p) c j h =
    ap is_some (get_entry-handle_delete_message env s p c j)
    ∙ changed-some s.message_log _ _ (env.id_text p.channel_id) (env.id_text p.message_id) c j h
event-Holds env s topic payload ignored c j h = h

arrive-Holds :
    (env : Env) (s : AppState) (a : Arrival) (c j : String)
    → Holds s c j
    → Holds (arrive env s a) c j
unfolding handle_channel_message
arrive-Holds env s (event topic payload) c j h = elim (Option-cases (env.decode_event payload)) [
  | inl n ↦ rw (handle_channel_message, n) h
  | inr (e, n) ↦ rw (handle_channel_message, n) (event-Holds env s topic payload e c j h)
]
arrive-Holds env s (history community_id ch_id es) c j h =
    ap is_some (get_entry-handle_channel_history env s community_id ch_id es c j)
    ∙ first_of-some (get_entry s.message_log c j) _ h

arrive_all-Holds :
    (env : Env) (s : AppState) (rest : List Arrival) (c j : String)
    → Holds s c j
    → Holds (arrive_all env s rest) c j
arrive_all-Holds env s [] c j h = h
arrive_all-Holds env s (a ∷ rest) c j h =
    arrive_all-Holds env (arrive env s a) rest c j (arrive-Holds env s a c j h)

-- A message that has been accepted has an entry in the log after whatever arrives next of messages,
-- edits, deletions, rotations, bytes that do not decode and histories of peers; and a message of its
-- id and channel that comes then, the same again or another, changes no entry and no reaction.
pub handle_new_message-replay :
    (env : Env) (s : AppState) (topic payload topic' payload' : Bytes) (raw raw' : RawMessage)
    (rest : List Arrival)
    → accepts_message env s raw ≡ true
    → raw'.id ≡ raw.id
    → raw'.channel_id ≡ raw.channel_id
    → Holds
        (arrive_all env (handle_new_message env s topic payload raw) rest)
        (env.id_text raw.channel_id)
        (env.id_text raw.id)
      × ((handle_new_message env
            (arrive_all env (handle_new_message env s topic payload raw) rest)
            topic'
            payload'
            raw').message_log
          ≡ (arrive_all env (handle_new_message env s topic payload raw) rest).message_log)
handle_new_message-replay env s topic payload topic' payload' raw raw' rest ok same_id same_ch =
    let s' = arrive_all env (handle_new_message env s topic payload raw) rest in
    let held =
      arrive_all-Holds env (handle_new_message env s topic payload raw) rest
        (env.id_text raw.channel_id) (env.id_text raw.id)
        (accepted_is_stored env s topic payload raw ok) in
    let stored : is_stored env s' raw' ≡ true = rw (same_id, same_ch) held in
    (
      held,
      handle_new_message-log env s' topic' payload' raw'
          ∙ rw (stored_is_refused env s' raw' stored) refl,
    )
