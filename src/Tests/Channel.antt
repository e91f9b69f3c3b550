-- ===== src/Tests/Channel.antt =====
-- A channel with a message of Bob's, a second message, an edit, a rotation and a peer's history. A
-- key decrypts what has the key as its nonce.
use bit_cord.Prelude.{
  List, ℕ, ◌≡◌, refl, false, ◌==◌, Bytes, String, [], ◌∷◌, some, nat_eq, list_eq, if◌then◌else◌,
  string_eq,
}
use bit_cord.Prelude.Map.{get, insert}
use bit_cord.State.MessageLog.{LogEntry, get_entry, rewrite, mark_deleted}
use bit_cord.State.MessageLog.Unique.{IsUnique}
use bit_cord.Community.Model.{
  Env, text, ChannelManifest, RawMessage, raw_verify, EditMessagePayload, DeleteMessagePayload,
  ChannelKeyRotationPayload,
}
use bit_cord.Community.AppState.{AppState}
use bit_cord.Community.Channel.{
  handle_edit_message, handle_delete_message, handle_channel_key_rotation, handle_channel_history,
  rotation_is_signed,
}
use bit_cord.Community.Message.{handle_new_message}
use bit_cord.Community.Channel.Accepts.{get_entry-handle_new_message, entry_made}
use bit_cord.Community.Channel.Edits.{
  get_entry-handle_edit_message, get_entry-handle_delete_message,
}
use bit_cord.Community.Channel.History.{get_entry-handle_channel_history}
use bit_cord.Community.Channel.Replay.{Holds, handle_new_message-replay}
use bit_cord.Community.Channel.Unique.{Arrival, event, history, arrive_all, arrive_all-IsUnique}
use bit_cord.Community.Channel.Rotation.{channels-rotation, late_message_waits}
use bit_cord.Tests.Community.{env, club, bob, peopled, times}

abbrev text_of : Bytes → String
text_of b =
    if b == 20 ∷ []
    then "m20"
    else if b == 21 ∷ []
    then "m21"
    else if b == bob
    then "bob"
    else "other"

abbrev pub texts : Env
texts = record env { id_text = text_of }

abbrev pub hall : ℕ → ChannelManifest
hall version = record {
  id = 7 ∷ [];
  community_id = club;
  name = [];
  kind = text;
  encrypted_channel_key = [];
  created_at = 0;
  version = version;
}

-- Alice's node with the channel, its key and no messages.
abbrev quiet : AppState
quiet = record peopled { channels = (7 ∷ [], hall 1) ∷ []; channel_keys = (7 ∷ [], 5 ∷ []) ∷ [] }

abbrev pub sent : Bytes → Bytes → RawMessage
sent id nonce = record {
  id = id;
  channel_id = 7 ∷ [];
  author_id = bob;
  timestamp = 6;
  nonce = nonce;
  ciphertext = 42 ∷ [];
  signature = times 64 2;
}

abbrev hello : RawMessage
hello = sent (20 ∷ []) (5 ∷ [])

-- With Bob's message.
abbrev noisy : AppState
noisy = handle_new_message texts quiet [] [] hello

get_entry-handle_new_message_example :
    get_entry noisy.message_log "other" "m20" ≡ some (entry_made texts quiet hello)
unfolding get get_entry raw_verify
get_entry-handle_new_message_example =
    get_entry-handle_new_message texts quiet [] [] hello "other" "m20"

abbrev stored : LogEntry
stored = record {
  seq = 0;
  nonce = 5 ∷ [];
  ciphertext = 42 ∷ [];
  message_id = "m20";
  author_id = "bob";
  timestamp_ms = 6;
  deleted = false;
}

-- Bytes of an event and a history that come after Bob's message.
abbrev then_on : List Arrival
then_on = event (1 ∷ []) [] ∷ history club (7 ∷ []) (stored ∷ []) ∷ []

handle_new_message-replay_example :
    Holds (arrive_all texts noisy then_on) "other" "m20"
    × ((handle_new_message texts
          (arrive_all texts noisy then_on)
          (1 ∷ [])
          []
          (sent (20 ∷ []) (6 ∷ []))).message_log
        ≡ (arrive_all texts noisy then_on).message_log)
unfolding get get_entry raw_verify
handle_new_message-replay_example =
    handle_new_message-replay texts quiet [] [] (1 ∷ []) [] hello (sent (20 ∷ []) (6 ∷ [])) then_on
      refl refl refl

-- With Bob's message in the log.
abbrev holding : AppState
holding = record quiet {
  message_log = record { channels = ("other", stored ∷ []) ∷ []; reactions = [] };
}

-- An edit in Bob's name that nobody has signed.
abbrev forged : EditMessagePayload
forged = record {
  message_id = 20 ∷ [];
  channel_id = 7 ∷ [];
  author_id = bob;
  new_ciphertext = 66 ∷ [];
  new_nonce = 5 ∷ [];
  signature = [];
  timestamp = 7;
}

get_entry-handle_edit_message_example :
    get_entry (handle_edit_message texts holding forged).message_log "other" "m20"
    ≡ some (rewrite (5 ∷ []) (66 ∷ []) stored)
unfolding get get_entry
get_entry-handle_edit_message_example =
    get_entry-handle_edit_message texts holding forged "other" "m20"

abbrev forged_deletion : DeleteMessagePayload
forged_deletion = record {
  message_id = 20 ∷ [];
  channel_id = 7 ∷ [];
  author_id = bob;
  signature = [];
  timestamp = 7;
}

get_entry-handle_delete_message_example :
    get_entry (handle_delete_message texts holding forged_deletion).message_log "other" "m20"
    ≡ some (mark_deleted stored)
unfolding get get_entry
get_entry-handle_delete_message_example =
    get_entry-handle_delete_message texts holding forged_deletion "other" "m20"

abbrev later : LogEntry
later = record stored { seq = 1; message_id = "m21" }

get_entry-handle_channel_history_example :
    get_entry
      (handle_channel_history texts holding club
        (7 ∷ [])
        (record stored { ciphertext = [] } ∷ later ∷ [])).message_log
      "other"
      "m20"
    ≡ some stored
unfolding get get_entry
get_entry-handle_channel_history_example =
    get_entry-handle_channel_history texts holding club (7 ∷ [])
      (record stored { ciphertext = [] } ∷ later ∷ []) "other" "m20"

arrive_all-IsUnique_example :
    IsUnique
      (arrive_all texts quiet
        (history club (7 ∷ []) (stored ∷ stored ∷ []) ∷ event [] [] ∷ [])).message_log
unfolding get
arrive_all-IsUnique_example =
    arrive_all-IsUnique texts quiet
      (history club (7 ∷ []) (stored ∷ stored ∷ []) ∷ event [] [] ∷ []) (λ ch. tt)

abbrev rotation : ChannelKeyRotationPayload
rotation = record { new_manifest = hall 2; signature = times 64 1 }

channels-rotation_example :
    ((handle_channel_key_rotation texts quiet rotation).channels ≡ (7 ∷ [], hall 2) ∷ [])
    × ((handle_channel_key_rotation texts quiet rotation).message_log ≡ quiet.message_log)
unfolding get insert rotation_is_signed
channels-rotation_example = channels-rotation texts quiet rotation

late_message_waits_example :
    get
      (handle_new_message texts
        (handle_channel_key_rotation texts quiet rotation)
        []
        (1 ∷ [])
        (sent (22 ∷ []) (6 ∷ []))).pending_rotation_messages
      (7 ∷ [])
    ≡ some (([], 1 ∷ []) ∷ [])
unfolding get rotation_is_signed
late_message_waits_example =
    late_message_waits texts quiet rotation [] (1 ∷ []) (sent (22 ∷ []) (6 ∷ [])) (5 ∷ []) refl refl
      refl refl
