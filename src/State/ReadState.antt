-- ===== src/State/ReadState.antt =====
-- crates/bitcord-core/src/state/read_state.rs: the last-seen sequence number of each channel.
use bit_cord.Prelude.{
  ℕ, ◌+◌, ◌-◌, ◌%◌, ◌^◌, ◌<◌, ◌≡◌, ◌==◌, String, none, some, length, or_else, nat_eqb,
  if◌then◌else◌, arith, string_eq,
}
use bit_cord.Prelude.Map.{Map, get, insert, get-insert, get-insert_self}
use bit_cord.State.MessageLog.{MessageLog, get_since, len}
use bit_cord.State.MessageLog.Seq.{length-get_since}

pub record ReadState : Type 0 where
  pub marks : Map String ℕ

pub mark_read : ReadState → String → ℕ → ReadState
mark_read rs ch seq = record { marks = insert rs.marks ch seq }

pub last_read : ReadState → String → ℕ
last_read rs ch = or_else (get rs.marks ch) 0

-- `seq + 1` wraps at 64 bits in a release build.
pub unread_count : ReadState → String → ℕ → ℕ
unread_count rs ch total =
    if nat_eqb total 0
    then 0
    else elim (get rs.marks ch) [ some seq ↦ total - (seq + 1) % 2 ^ 64 | none ↦ total ]

-- After a channel is marked read up to `seq`, its unread count is the number of entries that a read
-- from `seq + 1` returns, provided that `seq + 1` fits in 64 bits, and another channel's unread count
-- is as before, whatever its length.
pub unread_count-mark_read :
    (rs : ReadState) (log : MessageLog) (ch c : String) (seq total : ℕ)
    → seq + 1 < 2 ^ 64
    → (unread_count (mark_read rs ch seq) ch (len log ch) ≡ length (get_since log ch (seq + 1)))
      × (unread_count (mark_read rs ch seq) c total ≡ (
          if ch == c then unread_count (mark_read rs ch seq) ch total else unread_count rs c total))
unfolding unread_count mark_read
unread_count-mark_read rs log ch c seq total h = (
  ground (arith, get-insert_self rs.marks ch seq, length-get_since log ch (seq + 1)),
  ground (
    arith,
    get-insert rs.marks ch c seq,
    get-insert_self rs.marks ch seq,
    string_eq.beq_iff ch c,
  ),
)
