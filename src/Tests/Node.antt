-- ===== src/Tests/Node.antt =====
-- A database in memory with a community's channel of two messages, under a toy codec that writes an
-- entry as its number.
use bit_cord.Prelude.{
  bytes_le, ℕ, ◌<◌, ◌≡◌, ◌^◌, refl, true, false, Bytes, [], ◌∷◌, ◌++◌, Option, none, some, keep,
  leb, nat_eq, list_eq, arith,
}
use bit_cord.Prelude.Map.{get, insert}
use bit_cord.State.MessageLog.{LogEntry}
use bit_cord.Community.NodeStore.{CommunityMeta}
use bit_cord.Community.NodeStore as HandlerStore
use bit_cord.Community.NodeStore.{NodeStore, store_entries}
use bit_cord.Node.Store.Refines.{append_message-refines}
use bit_cord.Node.Keys.{to_be_bytes, from_be_bytes, from_be_bytes-to_be_bytes}
use bit_cord.Node.Table.{Tables, IsLawful, Items, put, within, other_key, last_item}
use bit_cord.Node.Store.{
  Codec, NodeDb, log_key, repeat_byte, read_values, log_range, append_message, get_messages,
  enforce_retention, open_entry,
}
use bit_cord.Node.Store.Rows.{IsRow, IsLog, NextFits}
use bit_cord.Node.Store.Log.{IsFaithful, IsLogs, numbered, append_message-get_messages}
use bit_cord.Node.Store.Since.{get_messages-since}
use bit_cord.Node.Store.Retention.{enforce_retention-newest}

abbrev pub memory : Tables Items
memory = record {
  empty = [];
  insert = λ t k v. put k v t;
  remove = λ t k. keep (other_key k) t;
  get = λ t k. get t k;
  range = λ t low high. keep (within low high) t;
  iter = λ t. t;
}

pub memory-IsLawful : IsLawful memory
memory-IsLawful = record {
  iter-empty = refl;
  iter-insert = λ t k v. refl;
  iter-remove = λ t k. refl;
  get-iter = λ t k. refl;
  range-iter = λ t low high. refl;
}

abbrev pub letter : LogEntry
letter = record {
  seq = 0;
  nonce = 5 ∷ [];
  ciphertext = 42 ∷ [];
  message_id = "m20";
  author_id = "bob";
  timestamp_ms = 6;
  deleted = false;
}

-- The numbers stand for entries with the contents of one entry.
abbrev read_number : LogEntry → Bytes → Option LogEntry
read_number e (n ∷ []) = some (numbered e n)
read_number e _ = none

abbrev pub pk : Bytes
pk = repeat_byte 32 1

abbrev pub chan : Bytes
chan = repeat_byte 16 2

abbrev hosted : CommunityMeta
hosted = record {
  cert = record { community_pk = pk; node_pk = pk; expires_at = 0; signature = [] };
  manifest = none;
  channels = [];
  channel_keys = [];
  members = [];
}

abbrev pub toy_of : LogEntry → Codec
toy_of e = record {
  entry_bytes = λ e'. some (e'.seq ∷ []);
  read_entry = read_number e;
  meta_bytes = λ m. some (0 ∷ []);
  read_meta = λ b. some hosted;
  peer_bytes = λ p. none;
  read_peer = λ b. none;
  envelope_bytes = λ e. none;
  encrypt_bytes = λ key random plain. some plain;
  decrypt_bytes = λ key blob. some blob;
  peer_id_text = λ b. "peer";
}

abbrev toy : Codec
toy = toy_of letter

abbrev pub two_letters : NodeDb Items
two_letters = record {
  log = (log_key pk chan 0, 0 ∷ []) ∷ (log_key pk chan 1, 1 ∷ []) ∷ [];
  mail = [];
  meta = [];
  dht_peers = [];
  key = some (9 ∷ []);
}

letter-IsRow :
    (e : LogEntry) (n : ℕ)
    → n < 256 ^ 8
    → IsRow 48 (open_entry memory (toy_of e) two_letters) (log_key pk chan n, n ∷ [])
letter-IsRow e n small = record {
  prefix = pk ++ chan;
  number = n;
  entry = numbered e n;
  length_prefix = refl;
  fits = small;
  key_is = refl;
  opens = refl;
  numbered = refl;
}

pub two_letters-IsLog :
    (e : LogEntry) → IsLog 48 (open_entry memory (toy_of e) two_letters) two_letters.log
unfolding bytes_le to_be_bytes
two_letters-IsLog e =
    (((refl, tt), (tt, tt)), (letter-IsRow e 0 (omega arith), (letter-IsRow e 1 (omega arith), tt)))

pub letter-IsFaithful : (e : LogEntry) → IsFaithful (toy_of e) e
letter-IsFaithful e = record {
  entry_read_back = λ seq. (seq ∷ [], refl, refl);
  cipher_read_back = λ key random plain. (plain, refl, refl);
}

pub last_number_fits :
    (e : LogEntry) → NextFits 48 (last_item (log_range memory (toy_of e) two_letters pk chan 0))
unfolding to_be_bytes from_be_bytes bytes_le
last_number_fits e = omega arith

append_message-get_messages_example :
    (seq : ℕ) × (db' : NodeDb Items) × (append_message memory toy two_letters [] pk chan letter
      ≡ some (seq, db'))
    × IsLogs memory toy db'
    × (db'.mail ≡ [])
    × (get_messages memory toy db' pk chan 0
        ≡ some (numbered letter 0 ∷ numbered letter 1 ∷ numbered letter seq ∷ []))
unfolding get_messages read_values to_be_bytes bytes_le
append_message-get_messages_example =
    append_message-get_messages memory toy memory-IsLawful two_letters [] pk chan letter pk chan
      (letter-IsFaithful letter) (two_letters-IsLog letter, (tt, tt)) refl refl refl refl
      (last_number_fits letter)

get_messages-since_example :
    get_messages memory toy two_letters pk chan 1 ≡ some (numbered letter 1 ∷ [])
unfolding get_messages read_values to_be_bytes bytes_le
get_messages-since_example =
    get_messages-since memory toy memory-IsLawful two_letters pk chan 1 (two_letters-IsLog letter)
      refl refl (omega arith)

enforce_retention-newest_example :
    (log_range memory toy (enforce_retention memory toy two_letters pk chan 1) pk chan 0
      ≡ (log_key pk chan 1, 1 ∷ []) ∷ [])
    × (leb 1 1 ≡ true)
unfolding to_be_bytes bytes_le
enforce_retention-newest_example =
    enforce_retention-newest memory toy memory-IsLawful two_letters pk chan 1 pk chan
      (two_letters-IsLog letter) refl refl refl refl

from_be_bytes-to_be_bytes_example : from_be_bytes 0 (to_be_bytes 8 258) ≡ 258
from_be_bytes-to_be_bytes_example = from_be_bytes-to_be_bytes 8 258 (omega arith)

-- The handlers' list of the same two messages.
abbrev listed : NodeStore
listed = record {
  meta = [];
  log = (pk, (chan, numbered letter 0 ∷ numbered letter 1 ∷ []) ∷ []) ∷ [];
}

listed-two_letters :
    get_messages memory toy two_letters pk chan 0 ≡ some (store_entries listed pk chan)
unfolding get_messages read_values to_be_bytes bytes_le get
listed-two_letters = refl

append_message-refines_example :
    (seq : ℕ) × (db' : NodeDb Items) × (append_message memory toy two_letters [] pk chan letter
      ≡ some (seq, db'))
    × (seq ≡ 2)
    × (get_messages memory toy db' pk chan 0
        ≡ some (numbered letter 0 ∷ numbered letter 1 ∷ numbered letter 2 ∷ []))
unfolding HandlerStore.append_message get insert
append_message-refines_example =
    append_message-refines memory toy memory-IsLawful two_letters listed [] pk chan letter pk chan
      (letter-IsFaithful letter) (two_letters-IsLog letter, (tt, tt)) refl refl refl refl
      (last_number_fits letter) listed-two_letters listed-two_letters
