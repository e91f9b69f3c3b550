-- ===== src/Tests/Dm.antt =====
-- A direct message to this node, and another that arrives after it.
use bit_cord.Prelude.{◌≡◌, refl, false, [], ◌∷◌, none, some, length, nat_eq, list_eq, string_eq}
use bit_cord.Prelude.Map.{get, insert}
use bit_cord.State.MessageLog.{LogEntry}
use bit_cord.Dm.{DmState, DmEnv, Plain, deliver, handle_dm_received, receive_all}
use bit_cord.Dm.Replay.{Has, handle_dm_received-replay}

-- The ciphertext is the envelope's, and its payload has the id "m".
abbrev env : DmEnv
env = record {
  local_x25519_pk = 3 ∷ [];
  decode_envelope =
      λ b. some (record { sender_pk = 1 ∷ []; ephem_pk = 2 ∷ []; nonce = []; ciphertext = b });
  open_dm = λ e. some e.ciphertext;
  decode_payload = λ b. some (record { body = "hi"; reply_to = none; id = "m" });
  from_utf8 = λ b. none;
  from_timestamp_millis = λ t. some t;
}

abbrev entry : LogEntry
entry = record {
  seq = 0;
  nonce = [];
  ciphertext = 1 ∷ [];
  message_id = "n";
  author_id = "alice";
  timestamp_ms = 5;
  deleted = false;
}

abbrev plain : Plain
plain = record { body = "hi"; reply_to = none; payload_id = some "m" }

abbrev empty : DmState
empty = record { dms = []; disk = []; pushes = [] }

abbrev from_bob : LogEntry
from_bob = record entry { author_id = "bob" }

delivered_once :
    length
      (receive_all env empty
        ((0, entry, 3 ∷ []) ∷ (1, from_bob, 3 ∷ []) ∷ (2, entry, 3 ∷ []) ∷ [])).pushes
    ≡ 2
unfolding receive_all handle_dm_received deliver get insert
delivered_once = refl

handle_dm_received-replay_example :
    Has (receive_all env empty ((0, entry, 3 ∷ []) ∷ (1, from_bob, 3 ∷ []) ∷ [])) "alice" "m"
    × (handle_dm_received env 2
          (receive_all env empty ((0, entry, 3 ∷ []) ∷ (1, from_bob, 3 ∷ []) ∷ []))
          entry
          (3 ∷ [])
        ≡ receive_all env empty ((0, entry, 3 ∷ []) ∷ (1, from_bob, 3 ∷ []) ∷ []))
handle_dm_received-replay_example =
    handle_dm_received-replay env 0 2 empty entry (3 ∷ []) plain ((1, from_bob, 3 ∷ []) ∷ []) refl
      refl
