-- ===== src/State/MessageLog/Unique.antt =====
-- In a log that starts with unique message ids they stay unique: `append_entry` of an id that is not
-- there, edits and deletions.
use bit_cord.Prelude.{
  ◌≡◌, refl, ap, Bool, true, false, Bytes, String, List, [], ◌∷◌, ◌++◌, none, any, any-append, find,
  or_else, is_some, update_first, ◌==◌, if◌then◌else◌, arith, string_eq, inl, inr, Option-cases,
  Bool-cases,
}
use bit_cord.Prelude.Map.{get, insert, get-insert}
use bit_cord.State.MessageLog.{
  LogEntry, MessageLog, entries, append_entry, get_entry, modify, edit, tombstone, has_id,
}

-- No two entries of a list have the same id.
abbrev pub NoRepeat : List LogEntry → Type 0
NoRepeat [] = Unit
NoRepeat (e ∷ es) = (any (has_id e.message_id) es ≡ false) × NoRepeat es

-- In every channel.
abbrev pub IsUnique : MessageLog → Type 0
IsUnique log = (ch : String) → NoRepeat (entries log ch)

any-find : (p : LogEntry → Bool) (es : List LogEntry) → any p es ≡ is_some (find p es)
any-find p [] = refl
any-find p (x ∷ es) = ground (arith, any-find p es)

NoRepeat-append :
    (es : List LogEntry) (e : LogEntry)
    → any (has_id e.message_id) es ≡ false
    → NoRepeat es
    → NoRepeat (es ++ e ∷ [])
NoRepeat-append [] e h u = (refl, tt)
NoRepeat-append (x ∷ es) e h u = (
  ground (
    arith,
    h,
    u.0,
    any-append (has_id x.message_id) es (e ∷ []),
    string_eq.beq_iff x.message_id e.message_id,
    string_eq.beq_iff e.message_id x.message_id,
  ),
  NoRepeat-append es e (ground (arith, h)) u.1,
)

entries-insert :
    (log : MessageLog) (ch c : String) (es : List LogEntry)
    → entries (record log { channels = insert log.channels ch es }) c
      ≡ (if ch == c then es else entries log c)
entries-insert log ch c es = ground (arith, get-insert log.channels ch c es)

insert-IsUnique :
    (log : MessageLog) (ch : String) (es : List LogEntry)
    → IsUnique log
    → NoRepeat es
    → IsUnique (record log { channels = insert log.channels ch es })
insert-IsUnique log ch es h u c = elim (Bool-cases (ch == c)) [
  | inl t ↦ rw (entries-insert, t) u
  | inr f ↦ rw (entries-insert, f) (h c)
]

-- An entry whose id the channel does not have keeps the ids unique.
pub append_entry-IsUnique :
    (log : MessageLog) (ch : String) (e : LogEntry)
    → get_entry log ch e.message_id ≡ none
    → IsUnique log
    → IsUnique (append_entry log ch e)
unfolding append_entry get_entry
append_entry-IsUnique log ch e absent h = insert-IsUnique log ch (entries log ch ++ e ∷ []) h (
    NoRepeat-append (entries log ch) e
      (ground (arith, absent, any-find (has_id e.message_id) (entries log ch))) (h ch))

update_first-any :
    (p q : LogEntry → Bool) (write : LogEntry → LogEntry) (es : List LogEntry)
    → ((e : LogEntry) → p (write e) ≡ p e)
    → any p (or_else (update_first q write es) []) ≡ true
    → any p es ≡ true
update_first-any p q write [] w h = h
update_first-any p q write (e ∷ es) w h = ground (arith, w e, update_first-any p q write es w)

update_first-NoRepeat :
    (q : LogEntry → Bool) (write : LogEntry → LogEntry) (es : List LogEntry)
    → ((e : LogEntry) → (write e).message_id ≡ e.message_id)
    → NoRepeat es
    → NoRepeat (or_else (update_first q write es) [])
update_first-NoRepeat q write [] w u = tt
update_first-NoRepeat q write (e ∷ es) w u = elim (Bool-cases (q e)) [
  | inl t ↦ rw t (ground (arith, u.0, w e), u.1)
  | inr f ↦ elim (Option-cases (update_first q write es)) [
    | inl p ↦ rw (f, p) tt
    | inr (r, p) ↦
        let keeps =
          update_first-any (has_id e.message_id) q write es
            (λ x. ap (λ (i : String). i == e.message_id) (w x)) in
        rw (f, p) (ground (arith, u.0, p, keeps), rw p at (update_first-NoRepeat q write es w u.1))
  ]
]

modify-IsUnique :
    (log : MessageLog) (ch id : String) (write : LogEntry → LogEntry)
    → ((e : LogEntry) → (write e).message_id ≡ e.message_id)
    → IsUnique log
    → IsUnique (modify log ch id write).0
unfolding modify
modify-IsUnique log ch id write w h = elim (Option-cases (get log.channels ch)) [
  | inl p ↦ rw (p, modify) h
  | inr (es, p) ↦ elim (Option-cases (update_first (has_id id) write es)) [
    | inl q ↦ rw (p, modify, q) h
    | inr (r, q) ↦
        let unique : NoRepeat es = rw p at (h ch) in
        rw (p, modify, q)
          (insert-IsUnique log ch r h
            (rw q at (update_first-NoRepeat (has_id id) write es w unique)))
  ]
]

-- Neither an edit nor a deletion makes two entries of one id.
pub edit-IsUnique :
    (log : MessageLog) (ch id : String) (nonce ct : Bytes)
    → IsUnique log
    → IsUnique (edit log ch id nonce ct).0 × IsUnique (tombstone log ch id).0
unfolding edit tombstone
edit-IsUnique log ch id nonce ct h =
    (modify-IsUnique log ch id _ (λ e. refl) h, modify-IsUnique log ch id _ (λ e. refl) h)
