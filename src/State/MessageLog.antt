-- ===== src/State/MessageLog.antt =====
-- crates/bitcord-core/src/state/message_log.rs: the append-only log of each channel, and the
-- reactions to messages. A method returns its result beside the new log. Timestamps are carried
-- and never computed with; they are natural numbers here.
pub mod Seq
pub mod Edits
pub mod Reactions
pub mod Append
pub mod Unique
use bit_cord.Prelude.{
  ℕ, Bool, true, false, not, Bytes, String, List, [], ◌∷◌, ◌++◌, Option, none, some, length, drop,
  find, keep, update_first, or_else, leb, ltb, ◌==◌, if◌then◌else◌, string_eq, any,
}
use Prim.Native.Nat.{Ordering}
use Prim.Native.String.{compare}
use bit_cord.Prelude.Map.{Map, get, insert, remove}
use bit_cord.Prelude.Sort.{sort_by}

pub record LogEntry : Type 0 where
  pub seq : ℕ
  pub nonce : Bytes
  pub ciphertext : Bytes
  pub message_id : String
  pub author_id : String
  pub timestamp_ms : ℕ
  pub deleted : Bool

pub record MessageLog : Type 0 where
  pub channels : Map String (List LogEntry)
  pub reactions : Map String (Map String (List String))

-- `entry(channel_id).or_default()`
abbrev pub entries : MessageLog → String → List LogEntry
entries log ch = or_else (get log.channels ch) []

pub append : MessageLog → String → String → String → ℕ → Bytes → Bytes → ℕ × MessageLog
append log ch message_id author_id timestamp_ms nonce ciphertext =
    let es = entries log ch in
    let seq = length es in
    let e : LogEntry = record {
      seq = seq;
      nonce = nonce;
      ciphertext = ciphertext;
      message_id = message_id;
      author_id = author_id;
      timestamp_ms = timestamp_ms;
      deleted = false;
    } in
    (seq, record log { channels = insert log.channels ch (es ++ e ∷ []) })

pub append_entry : MessageLog → String → LogEntry → MessageLog
append_entry log ch e = record log { channels = insert log.channels ch (entries log ch ++ e ∷ []) }

pub get_since : MessageLog → String → ℕ → List LogEntry
get_since log ch since_seq = elim (get log.channels ch) [
  | some es ↦ if leb (length es) since_seq then [] else drop since_seq es
  | none ↦ []
]

abbrev pub has_id : String → LogEntry → Bool
has_id message_id e = e.message_id == message_id

unfoldable pub get_entry : MessageLog → String → String → Option LogEntry
get_entry log ch message_id = elim (get log.channels ch) [
  | none ↦ none
  | some es ↦ find (has_id message_id) es
]

-- `get_mut(channel_id)`, `iter_mut().find(..)` and the write, which `edit` and `tombstone` share.
pub modify : MessageLog → String → String → (LogEntry → LogEntry) → MessageLog × Bool
modify log ch message_id write = elim (get log.channels ch) [
  | none ↦ (log, false)
  | some es ↦ elim (update_first (has_id message_id) write es) [
    | none ↦ (log, false)
    | some es' ↦ (record log { channels = insert log.channels ch es' }, true)
  ]
]

abbrev pub rewrite : Bytes → Bytes → LogEntry → LogEntry
rewrite nonce ciphertext e = record e { nonce = nonce; ciphertext = ciphertext }

pub edit : MessageLog → String → String → Bytes → Bytes → MessageLog × Bool
edit log ch message_id nonce ciphertext = modify log ch message_id (rewrite nonce ciphertext)

abbrev pub mark_deleted : LogEntry → LogEntry
mark_deleted e = record e { deleted = true }

pub tombstone : MessageLog → String → String → MessageLog × Bool
tombstone log ch message_id = modify log ch message_id mark_deleted

pub len : MessageLog → String → ℕ
len log ch = elim (get log.channels ch) [ none ↦ 0 | some es ↦ length es ]

-- `entry(message_id).or_default().entry(emoji).or_default()`
abbrev pub by_emoji : MessageLog → String → Map String (List String)
by_emoji log message_id = or_else (get log.reactions message_id) []

abbrev pub users_of : MessageLog → String → String → List String
users_of log message_id emoji = or_else (get (by_emoji log message_id) emoji) []

abbrev set_users : MessageLog → String → String → List String → MessageLog
set_users log message_id emoji users = record log {
  reactions = insert log.reactions message_id (insert (by_emoji log message_id) emoji users);
}

-- The entries that `or_default` makes stay, also where the user has reacted before.
pub react : MessageLog → String → String → String → MessageLog × Bool
react log message_id emoji user_id =
    let users = users_of log message_id emoji in
    if any (λ u. u == user_id) users
    then (set_users log message_id emoji users, false)
    else (set_users log message_id emoji (users ++ user_id ∷ []), true)

abbrev is_empty {ℓ} : {A : Type ℓ} → List A → Bool
is_empty [] = true
is_empty (x ∷ xs) = false

pub unreact : MessageLog → String → String → String → MessageLog × Bool
unreact log message_id emoji user_id = elim (get log.reactions message_id) [
  | none ↦ (log, false)
  | some emojis ↦ elim (get emojis emoji) [
    | none ↦ (log, false)
    | some users ↦
        let rest = keep (λ u. not (u == user_id)) users in
        let emojis' = if is_empty rest then remove emojis emoji else insert emojis emoji rest in
        (
          record log { reactions = insert log.reactions message_id emojis' },
          ltb (length rest) (length users),
        )
  ]
]

-- `a.0.cmp(&b.0)` is not `Greater`.
abbrev emoji_le : String × List String → String × List String → Bool
emoji_le a b = elim (compare a.0 b.0) [ Ordering.gt ↦ false | _ ↦ true ]

pub get_reactions : MessageLog → String → List (String × List String)
get_reactions log message_id = sort_by emoji_le (by_emoji log message_id)
