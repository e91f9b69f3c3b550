-- ===== src/Node/Store.antt =====
-- crates/bitcord-core/src/node/store.rs: the database of a hosting node, over the tables of `redb`.
-- A method that fails returns `none`, and its transaction changes nothing. Failures of the database
-- itself are not modelled.
pub mod Rows
pub mod Log
pub mod Since
pub mod Retention
pub mod Refines
pub mod Apart
use bit_cord.Prelude.{
  ℕ, zero, suc, ◌+◌, ◌-◌, ◌%◌, ◌^◌, Bool, true, false, not, Bytes, String, List, [], ◌∷◌, ◌++◌,
  Option, none, some, length, take, drop, leb, ltb, ◌==◌, if◌then◌else◌, nat_eq, list_eq, map, keep,
}
use bit_cord.Prelude.Map.{Map, get, values}
use bit_cord.State.MessageLog.{LogEntry}
use bit_cord.Community.Model.{MembershipRecord}
use bit_cord.Community.NodeStore.{CommunityMeta}
use bit_cord.Dht.Routing.{CommunityPeerRecord}
use bit_cord.Node.Keys.{to_be_bytes, from_be_bytes}
use bit_cord.Node.Table.{Tables, Items, last_item}

-- crypto/dm.rs
pub record DmEnvelope : Type 0 where
  pub sender_pk : Bytes
  pub ephem_pk : Bytes
  pub nonce : Bytes
  pub ciphertext : Bytes

-- What the store uses of other crates: postcard, XChaCha20-Poly1305 with the random nonce as an
-- argument, and the hexadecimal SHA-256 of a key.
pub record Codec : Type 0 where
  pub entry_bytes : LogEntry → Option Bytes
  pub read_entry : Bytes → Option LogEntry
  pub meta_bytes : CommunityMeta → Option Bytes
  pub read_meta : Bytes → Option CommunityMeta
  pub peer_bytes : CommunityPeerRecord → Option Bytes
  pub read_peer : Bytes → Option CommunityPeerRecord
  pub envelope_bytes : DmEnvelope → Option Bytes
  pub encrypt_bytes : Bytes → Bytes → Bytes → Option Bytes
  pub decrypt_bytes : Bytes → Bytes → Option Bytes
  pub peer_id_text : Bytes → String

pub record NodeDb (T : Type 0) : Type 0 where
  pub log : T
  pub mail : T
  pub meta : T
  pub dht_peers : T
  pub key : Option Bytes

abbrev pub repeat_byte : ℕ → ℕ → Bytes
repeat_byte zero b = []
repeat_byte (suc n) b = b ∷ repeat_byte n b

abbrev pub u64_max : ℕ
u64_max = 2 ^ 64 - 1

-- The keys are arrays of fixed sizes: 32 bytes for a public key, 16 for a channel.
abbrev pub log_key : Bytes → Bytes → ℕ → Bytes
log_key community_pk chan seq = (community_pk ++ chan) ++ to_be_bytes 8 seq

abbrev pub mail_key : Bytes → ℕ → Bytes
mail_key user_pk seq = user_pk ++ to_be_bytes 8 seq

-- The number at the end of a key whose first part has the given length.
abbrev pub seq_at : ℕ → Bytes → ℕ
seq_at start k = from_be_bytes 0 (take 8 (drop start k))

-- `range(..).next_back()`, and the number after it; the addition wraps.
abbrev pub next_after : ℕ → Option (Bytes × Bytes) → ℕ
next_after start none = 0
next_after start (some (k, v)) =
    if leb (start + 8) (length k) then (seq_at start k + 1) % 2 ^ 64 else 0

-- `item?` and the decoding of each value; the first that fails ends the loop.
unfoldable pub read_values : {A : Type 0} → (Bytes → Option A) → Items → Option (List A)
read_values read [] = some []
read_values read (item ∷ m) =
    let rest = read_values read m in
    elim (read item.1) [
      | none ↦ none
      | some a ↦ elim rest [ none ↦ none | some as' ↦ some (a ∷ as') ]
    ]

abbrev pub total_size : Items → ℕ
total_size [] = 0
total_size (item ∷ m) = length item.1 + total_size m

module _ {T : Type 0} (R : Tables T) (X : Codec) where
  abbrev pub encrypt : NodeDb T → Bytes → Bytes → Option Bytes
  encrypt db random plain = elim db.key [
    | none ↦ some plain
    | some k ↦ X.encrypt_bytes k random plain
  ]

  abbrev pub decrypt : NodeDb T → Bytes → Option Bytes
  decrypt db blob = elim db.key [ none ↦ some blob | some k ↦ X.decrypt_bytes k blob ]

  -- `encrypt(to_allocvec(entry))`
  abbrev pub seal_entry : NodeDb T → Bytes → LogEntry → Option Bytes
  seal_entry db random e = elim (X.entry_bytes e) [
    | none ↦ none
    | some plain ↦ encrypt db random plain
  ]

  abbrev pub open_entry : NodeDb T → Bytes → Option LogEntry
  open_entry db blob = elim (decrypt db blob) [ none ↦ none | some plain ↦ X.read_entry plain ]

  abbrev pub log_range : NodeDb T → Bytes → Bytes → ℕ → Items
  log_range db community_pk chan since =
      R.range db.log (log_key community_pk chan since) (log_key community_pk chan u64_max)

  abbrev pub mail_range : NodeDb T → Bytes → ℕ → Items
  mail_range db user_pk since = R.range db.mail (mail_key user_pk since) (mail_key user_pk u64_max)

  -- `e` is the entry without its number.
  unfoldable pub append_message :
      NodeDb T → Bytes → Bytes → Bytes → LogEntry → Option (ℕ × NodeDb T)
  append_message db random community_pk chan e =
      let seq = next_after 48 (last_item (log_range db community_pk chan 0)) in
      elim (seal_entry db random (record e { seq = seq; deleted = false })) [
        | none ↦ none
        | some value ↦
            some (seq, record db { log = R.insert db.log (log_key community_pk chan seq) value })
      ]

  abbrev pub last_seq : NodeDb T → Bytes → Bytes → Option ℕ
  last_seq db community_pk chan = elim (last_item (log_range db community_pk chan 0)) [
    | none ↦ none
    | some (k, v) ↦ if leb 56 (length k) then some (seq_at 48 k) else none
  ]

  unfoldable pub get_messages : NodeDb T → Bytes → Bytes → ℕ → Option (List LogEntry)
  get_messages db community_pk chan since_seq =
      read_values (open_entry db) (log_range db community_pk chan since_seq)

  -- The entry of a direct message, with the number after the last of the mailbox.
  abbrev pub dm_entry : NodeDb T → Bytes → Bytes → Bytes → String → ℕ → LogEntry
  dm_entry db recipient_pk sender_pk ciphertext message_id now = record {
    seq = next_after 32 (last_item (mail_range db recipient_pk 0));
    nonce = repeat_byte 24 0;
    ciphertext = ciphertext;
    message_id = message_id;
    author_id = X.peer_id_text sender_pk;
    timestamp_ms = now;
    deleted = false;
  }

  -- The time and the message's id come from the clock and a generator.
  abbrev pub append_dm :
      NodeDb T → Bytes → Bytes → Bytes → DmEnvelope → String → ℕ → Option (ℕ × NodeDb T)
  append_dm db random recipient_pk sender_pk envelope message_id now =
      elim (X.envelope_bytes envelope) [
        | none ↦ none
        | some ciphertext ↦
            let e = dm_entry db recipient_pk sender_pk ciphertext message_id now in
            elim (seal_entry db random e) [
              | none ↦ none
              | some value ↦
                  some (
                    e.seq,
                    record db { mail = R.insert db.mail (mail_key recipient_pk e.seq) value },
                  )
            ]
      ]

  abbrev pub get_dms : NodeDb T → Bytes → ℕ → Option (List LogEntry)
  get_dms db user_pk since_seq = read_values (open_entry db) (mail_range db user_pk since_seq)

  abbrev pub remove_keys : T → Items → T
  remove_keys t [] = t
  remove_keys t (item ∷ m) = remove_keys (R.remove t item.0) m

  -- `lower` and `upper` fill the rest of the key with 0 and with 255.
  abbrev pub remove_community : NodeDb T → Bytes → NodeDb T
  remove_community db community_pk =
      let lower = community_pk ++ repeat_byte 24 0 in
      let upper = community_pk ++ repeat_byte 24 255 in
      record db {
        meta = R.remove db.meta community_pk;
        log = remove_keys db.log (R.range db.log lower upper);
      }

  -- The oldest items, until the rest is within the limit. The value that `remove` gives back is the
  -- one that the range has shown.
  abbrev pub evict : T → ℕ → ℕ → Items → T
  evict t max_bytes total [] = t
  evict t max_bytes total (item ∷ m) =
      let rest = evict (R.remove t item.0) max_bytes (total - length item.1) m in
      if leb total max_bytes then t else rest

  unfoldable pub enforce_retention : NodeDb T → Bytes → Bytes → ℕ → NodeDb T
  enforce_retention db community_pk chan max_bytes =
      let items = log_range db community_pk chan 0 in
      if leb (total_size items) max_bytes
      then db
      else record db { log = evict db.log max_bytes (total_size items) items }
