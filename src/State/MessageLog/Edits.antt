-- ===== src/State/MessageLog/Edits.antt =====
-- What `edit` and `tombstone` change, as `get_entry` sees it.
use bit_cord.Prelude.{
  ◌≡◌, refl, ◌&&◌, Bytes, String, List, [], ◌∷◌, find, or_else, is_some, map_some, update_first,
  ◌==◌, if◌then◌else◌, arith, string_eq,
}
use bit_cord.Prelude.Map.{get, get-insert}
use bit_cord.State.MessageLog.{
  LogEntry, MessageLog, get_entry, modify, edit, tombstone, has_id, rewrite, mark_deleted,
}

update_first-some :
    (id : String) (write : LogEntry → LogEntry) (es : List LogEntry)
    → is_some (update_first (has_id id) write es) ≡ is_some (find (has_id id) es)
update_first-some id write [] = refl
update_first-some id write (e ∷ es) = ground (arith, update_first-some id write es)

-- A read after the rewriting of the first entry with the id.
find-update_first :
    (id j : String) (write : LogEntry → LogEntry) (es : List LogEntry)
    → ((e : LogEntry) → (write e).message_id ≡ e.message_id)
    → find (has_id j) (or_else (update_first (has_id id) write es) es)
      ≡ (if id == j then map_some write (find (has_id id) es) else find (has_id j) es)
find-update_first id j write [] w = ground arith
find-update_first id j write (e ∷ es) w = ground (
  arith,
  w e,
  string_eq.beq_iff e.message_id id,
  string_eq.beq_iff e.message_id j,
  string_eq.beq_iff id j,
  string_eq.beq_iff (write e).message_id j,
  update_first-some id write es,
  find-update_first id j write es w,
)

module _ (log : MessageLog) (ch id c j : String) where
  modify-get_entry :
      (write : LogEntry → LogEntry)
      → ((e : LogEntry) → (write e).message_id ≡ e.message_id)
      → ((modify log ch id write).1 ≡ is_some (get_entry log ch id))
        × (get_entry (modify log ch id write).0 c j ≡ (
            if ch == c && id == j then map_some write (get_entry log ch id) else get_entry log c j))
  unfolding modify get_entry
  modify-get_entry write w =
      let es : List LogEntry = or_else (get log.channels ch) [] in
      (
        ground (arith, update_first-some id write es),
        ground (
          arith,
          string_eq.beq_iff ch c,
          string_eq.beq_iff id j,
          get-insert log.channels ch c (or_else (update_first (has_id id) write es) es),
          update_first-some id write es,
          find-update_first id j write es w,
        ),
      )

  -- `edit` reports whether the message is in the channel, and a read sees the new nonce and
  -- ciphertext in that message and no other change.
  pub get_entry-edit :
      (nonce ct : Bytes)
      → ((edit log ch id nonce ct).1 ≡ is_some (get_entry log ch id))
        × (get_entry (edit log ch id nonce ct).0 c j ≡ (
            if ch == c && id == j
            then map_some (rewrite nonce ct) (get_entry log ch id)
            else get_entry log c j))
  unfolding edit
  get_entry-edit nonce ct = modify-get_entry (rewrite nonce ct) (λ e. refl)

  -- `tombstone` reports whether the message is in the channel, and a read sees that message marked
  -- as deleted, with all that it held, and no other change.
  pub get_entry-tombstone :
      ((tombstone log ch id).1 ≡ is_some (get_entry log ch id))
      × (get_entry (tombstone log ch id).0 c j ≡ (
          if ch == c && id == j
          then map_some mark_deleted (get_entry log ch id)
          else get_entry log c j))
  unfolding tombstone
  get_entry-tombstone = modify-get_entry mark_deleted (λ e. refl)
