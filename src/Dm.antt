-- ===== src/Dm.antt =====
-- crates/bitcord-core/src/api/event_processor/dm_handler.rs: `handle_dm_received`, with `DmPayload` of
-- crypto/dm.rs. Other crates and the cryptography are the fields of `DmEnv`.
pub mod Replay
use bit_cord.Prelude.{
  ℕ, Bool, not, Bytes, String, List, [], ◌∷◌, ◌++◌, Option, none, some, any, or_else, ◌==◌,
  if◌then◌else◌, nat_eq, list_eq, string_eq,
}
use bit_cord.Prelude.Map.{Map, get, insert}
use bit_cord.State.MessageLog.{LogEntry}
use bit_cord.Node.Store.{DmEnvelope}

pub record DmPayload : Type 0 where
  pub body : String
  pub reply_to : Option String
  pub id : String

pub record DmMessageInfo : Type 0 where
  pub id : String
  pub peer_id : String
  pub author_id : String
  pub timestamp : ℕ
  pub body : String
  pub reply_to : Option String
  pub edited_at : Option ℕ

-- The conversations, the table on disk and the pushes to the frontend.
pub record DmState : Type 0 where
  pub dms : Map String (List DmMessageInfo)
  pub disk : Map String (List DmMessageInfo)
  pub pushes : List DmMessageInfo

-- The node's X25519 key, postcard, the opening of an envelope with that key, UTF-8 and the clock's range.
pub record DmEnv : Type 0 where
  pub local_x25519_pk : Bytes
  pub decode_envelope : Bytes → Option DmEnvelope
  pub open_dm : DmEnvelope → Option Bytes
  pub decode_payload : Bytes → Option DmPayload
  pub from_utf8 : Bytes → Option String
  pub from_timestamp_millis : ℕ → Option ℕ

-- What is read of a message: an older client sends a text alone.
pub record Plain : Type 0 where
  pub body : String
  pub reply_to : Option String
  pub payload_id : Option String

abbrev pub read_plain : DmEnv → Bytes → Option Plain
read_plain env plaintext = elim (env.decode_payload plaintext) [
  | some p ↦ some (record {
    body = p.body;
    reply_to = p.reply_to;
    payload_id = if p.id == "" then none else some p.id;
  })
  | none ↦ elim (env.from_utf8 plaintext) [
    | some text ↦ some (record { body = text; reply_to = none; payload_id = none })
    | none ↦ none
  ]
]

abbrev pub read_dm : DmEnv → Bytes → Option Plain
read_dm env ciphertext = elim (env.decode_envelope ciphertext) [
  | none ↦ none
  | some envelope ↦ elim (env.open_dm envelope) [
    | none ↦ none
    | some plaintext ↦ read_plain env plaintext
  ]
]

-- The id that the sender has assigned, if there is one.
abbrev pub message_of : DmEnv → ℕ → LogEntry → Plain → DmMessageInfo
message_of env now entry p = record {
  id = or_else p.payload_id entry.message_id;
  peer_id = entry.author_id;
  author_id = entry.author_id;
  timestamp = or_else (env.from_timestamp_millis entry.timestamp_ms) now;
  body = p.body;
  reply_to = p.reply_to;
  edited_at = none;
}

abbrev pub conversation : DmState → String → List DmMessageInfo
conversation s peer = or_else (get s.dms peer) []

abbrev pub has_message_id : String → DmMessageInfo → Bool
has_message_id id m = m.id == id

-- A message whose id the conversation has already is not delivered again.
unfoldable pub deliver : DmState → DmMessageInfo → DmState
deliver s msg =
    let dms = insert s.dms msg.author_id (conversation s msg.author_id ++ msg ∷ []) in
    if any (has_message_id msg.id) (conversation s msg.author_id)
    then s
    else record { dms = dms; disk = dms; pushes = s.pushes ++ msg ∷ [] }

unfoldable pub handle_dm_received : DmEnv → ℕ → DmState → LogEntry → Bytes → DmState
unfolding deliver
handle_dm_received env now s entry recipient_pk =
    if not (recipient_pk == env.local_x25519_pk) then s else elim (read_dm env entry.ciphertext) [
      | none ↦ s
      | some p ↦ deliver s (message_of env now entry p)
    ]

-- A direct message as it arrives: the time, the entry and the recipient's key.
abbrev pub Arrival : Type 0
Arrival = ℕ × LogEntry × Bytes

unfoldable pub receive_all : DmEnv → DmState → List Arrival → DmState
unfolding handle_dm_received
receive_all env s [] = s
receive_all env s ((now, entry, recipient_pk) ∷ rest) =
    receive_all env (handle_dm_received env now s entry recipient_pk) rest
