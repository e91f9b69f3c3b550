-- ===== src/State/MessageLog/Append.antt =====
-- What `get_entry` reads after the log has grown, and that reactions leave the entries alone.
use bit_cord.Prelude.{
  ℕ, ◌≡◌, refl, Bool, false, ◌&&◌, Bytes, String, List, [], ◌∷◌, ◌++◌, Option, none, some, find,
  or_else, length, ◌==◌, if◌then◌else◌, arith, string_eq,
}
use bit_cord.Prelude.Map.{get, get-insert}
use bit_cord.State.MessageLog.{
  LogEntry, MessageLog, entries, append, append_entry, get_entry, react, unreact, has_id,
}

abbrev pub first_of : Option LogEntry → Option LogEntry → Option LogEntry
first_of none o = o
first_of (some e) o = some e

find-append :
    (p : LogEntry → Bool) (es : List LogEntry) (e : LogEntry)
    → find p (es ++ e ∷ []) ≡ first_of (find p es) (if p e then some e else none)
find-append p [] e = refl
find-append p (x ∷ es) e = ground (arith, find-append p es e)

-- Reading after one more entry: the entry where none with its id is found before it.
pub get_entry-append_entry :
    (log : MessageLog) (ch c j : String) (e : LogEntry)
    → get_entry (append_entry log ch e) c j
      ≡ first_of (get_entry log c j) (if ch == c && e.message_id == j then some e else none)
unfolding append_entry get_entry
get_entry-append_entry log ch c j e =
    let es : List LogEntry = or_else (get log.channels ch) [] in
    ground (
      arith,
      get-insert log.channels ch c (es ++ e ∷ []),
      string_eq.beq_iff ch c,
      find-append (has_id j) es e,
    )

-- The entry that `append` makes.
abbrev pub appended : MessageLog → String → String → String → ℕ → Bytes → Bytes → LogEntry
appended log ch id author t nonce ct = record {
  seq = length (entries log ch);
  nonce = nonce;
  ciphertext = ct;
  message_id = id;
  author_id = author;
  timestamp_ms = t;
  deleted = false;
}

pub append-eq :
    (log : MessageLog) (ch id author : String) (t : ℕ) (nonce ct : Bytes)
    → (append log ch id author t nonce ct).1
      ≡ append_entry log ch (appended log ch id author t nonce ct)
unfolding append append_entry
append-eq log ch id author t nonce ct = refl

-- Reactions leave the channels as they are.
pub react-channels :
    (log : MessageLog) (m e u : String) → (react log m e u).0.channels ≡ log.channels
unfolding react
react-channels log m e u = ground arith

pub unreact-channels :
    (log : MessageLog) (m e u : String) → (unreact log m e u).0.channels ≡ log.channels
unfolding unreact
unreact-channels log m e u = ground arith

pub get_entry-channels :
    (log log' : MessageLog) (c j : String)
    → log.channels ≡ log'.channels
    → get_entry log c j ≡ get_entry log' c j
unfolding get_entry
get_entry-channels log log' c j h = ground (arith, h)
