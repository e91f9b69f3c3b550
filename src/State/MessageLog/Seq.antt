-- ===== src/State/MessageLog/Seq.antt =====
-- Sequence numbers of the message log: on a log that only `append` has grown, an entry's number is
-- its place, and reading from a number gives exactly the entries from that number on.
use bit_cord.Prelude.{
  ℕ, zero, suc, ◌+◌, ◌≤◌, ◌<◌, ◌-◌, subst, sym, ◌∙◌, ◌≡◌, ◌↔◌, refl, ap, Bytes, String, List, [],
  ◌∷◌, ◌++◌, length, length-drop, drop, keep, or_else, leb, ◌==◌, inl, inr, Option-cases,
  Bool-cases, if◌then◌else◌, arith, string_eq, update_first,
}
use bit_cord.Prelude.Map.{get, insert, get-insert, get-insert_self}
use bit_cord.State.MessageLog.{
  LogEntry, MessageLog, entries, append, append_entry, get_since, modify, edit, tombstone, len,
  has_id,
}

-- The numbers run on from `n`.
abbrev pub SeqFrom : ℕ → List LogEntry → Type 0
SeqFrom n [] = Unit
SeqFrom n (e ∷ es) = (e.seq ≡ n) × SeqFrom (suc n) es

-- In every channel an entry's number is its place.
abbrev pub IsDense : MessageLog → Type 0
IsDense log = (ch : String) → SeqFrom 0 (entries log ch)

SeqFrom-append_iff :
    (n : ℕ) (es : List LogEntry) (e : LogEntry)
    → SeqFrom n es
    → SeqFrom n (es ++ e ∷ []) ↔ (e.seq ≡ n + length es)
SeqFrom-append_iff n [] e h = (λ s. omega (arith, s.0), λ p. (omega arith, tt))
SeqFrom-append_iff n (x ∷ es) e h =
    let ih = SeqFrom-append_iff (suc n) es e h.1 in
    (λ s. omega (arith, ih.0 s.1), λ p. (h.0, ih.1 (omega arith)))

entries-insert :
    (log : MessageLog) (ch c : String) (es : List LogEntry)
    → entries (record log { channels = insert log.channels ch es }) c
      ≡ (if ch == c then es else entries log c)
entries-insert log ch c es = elim (Bool-cases (ch == c)) [
  | inl e ↦ rw (get-insert, e)
  | inr e ↦ rw (get-insert, e)
]

insert-IsDense :
    (log : MessageLog) (ch : String) (es : List LogEntry)
    → IsDense log
    → SeqFrom 0 es
    → IsDense (record log { channels = insert log.channels ch es })
insert-IsDense log ch es h s c = elim (Bool-cases (ch == c)) [
  | inl e ↦ rw (entries-insert, e) s
  | inr e ↦ rw (entries-insert, e) (h c)
]

-- Every entry that `append` makes has its place as number, and its number is returned.
pub append-IsDense :
    (log : MessageLog) (ch id author : String) (t : ℕ) (nonce ct : Bytes)
    → IsDense log
    → IsDense (append log ch id author t nonce ct).1
      × ((append log ch id author t nonce ct).0 ≡ len log ch)
unfolding append len
append-IsDense log ch id author t nonce ct h = (
  insert-IsDense log ch _ h ((SeqFrom-append_iff 0 (entries log ch) _ (h ch)).1 (omega arith)),
  ground arith,
)

-- An entry that comes with a number of its own keeps the log dense exactly when that number is the
-- channel's length.
pub append_entry-IsDense_iff :
    (log : MessageLog) (ch : String) (e : LogEntry)
    → IsDense log
    → IsDense (append_entry log ch e) ↔ (e.seq ≡ len log ch)
unfolding append_entry len
append_entry-IsDense_iff log ch e h =
    let iff = SeqFrom-append_iff 0 (entries log ch) e (h ch) in
    let same : entries (record log { channels = insert log.channels ch (entries log ch ++ e ∷ []) })
          ch
        ≡ entries log ch ++ e ∷ [] =
      rw get-insert_self in
    let size : len log ch ≡ length (entries log ch) = ground arith in
    (
      λ d. omega (arith, iff.0 (subst (SeqFrom 0) same (d ch)), size),
      λ p. insert-IsDense log ch _ h (iff.1 (omega arith)),
    )

SeqFrom-update_first :
    (id : String) (write : LogEntry → LogEntry) (n : ℕ) (es : List LogEntry)
    → ((e : LogEntry) → (write e).seq ≡ e.seq)
    → SeqFrom n es
    → SeqFrom n (or_else (update_first (has_id id) write es) [])
SeqFrom-update_first id write n [] w h = tt
SeqFrom-update_first id write n (e ∷ es) w h = elim (Bool-cases (has_id id e)) [
  | inl t ↦ rw t (omega (arith, w e), h.1)
  | inr f ↦ rw f (elim (Option-cases (update_first (has_id id) write es)) [
    | inl p ↦ rw p tt
    | inr (r, p) ↦ rw p (h.0, rw p at (SeqFrom-update_first id write (suc n) es w h.1))
  ])
]

-- Rewriting an entry in place keeps every number.
modify-IsDense :
    (log : MessageLog) (ch id : String) (write : LogEntry → LogEntry)
    → ((e : LogEntry) → (write e).seq ≡ e.seq)
    → IsDense log
    → IsDense (modify log ch id write).0
unfolding modify
modify-IsDense log ch id write w h = elim (Option-cases (get log.channels ch)) [
  | inl p ↦ rw (p, modify) h
  | inr (es, p) ↦
      rw (p, modify)
        (elim (Option-cases (update_first (has_id id) write es)) [
          | inl q ↦ rw q h
          | inr (r, q) ↦
              let dense : SeqFrom 0 es = rw p at (h ch) in
              rw q
                (insert-IsDense log ch r h (rw q at (SeqFrom-update_first id write 0 es w dense)))
        ])
]

-- Neither an edit nor a deletion of a message changes any entry's number.
pub edit-IsDense :
    (log : MessageLog) (ch id : String) (nonce ct : Bytes)
    → IsDense log
    → IsDense (edit log ch id nonce ct).0 × IsDense (tombstone log ch id).0
unfolding edit tombstone
edit-IsDense log ch id nonce ct h =
    (modify-IsDense log ch id _ (λ e. refl) h, modify-IsDense log ch id _ (λ e. refl) h)

drop_all : (n : ℕ) (es : List LogEntry) → length es ≤ n → drop n es ≡ []
drop_all zero [] h = refl
drop_all (suc n) [] h = refl
drop_all zero (e ∷ es) h = absurd (omega arith)
drop_all (suc n) (e ∷ es) h = drop_all n es (omega arith)

keep-eq-drop :
    (n k : ℕ) (es : List LogEntry) → SeqFrom k es → keep (λ e. leb n e.seq) es ≡ drop (n - k) es
keep-eq-drop n k [] h = sym (drop_all (n - k) [] (omega arith))
keep-eq-drop n k (e ∷ es) h = elim (Bool-cases (leb n e.seq)) [
  | inl t ↦
      let le : n ≤ k = ground (arith, h.0) in
      let z : n - k ≡ 0 = omega arith in
      let z' : n - suc k ≡ 0 = omega arith in
      let ih : keep (λ x. leb n x.seq) es ≡ es =
        keep-eq-drop n (suc k) es h.1 ∙ ap (λ m. drop m es) z' in
      rw (t, z, ih)
  | inr f ↦
      let lt : k < n = ground (arith, h.0) in
      let s : n - k ≡ suc (n - suc k) = omega arith in rw (f, s) (keep-eq-drop n (suc k) es h.1)
]

-- On a dense log `get_since` returns exactly the channel's entries numbered from `since` on.
pub get_since-eq-keep :
    (log : MessageLog) (ch : String) (since : ℕ)
    → IsDense log
    → get_since log ch since ≡ keep (λ e. leb since e.seq) (entries log ch)
unfolding get_since
get_since-eq-keep log ch since h =
    rw (keep-eq-drop since 0 (entries log ch) (h ch))
      (ground (arith, drop_all since (entries log ch)))

pub length-get_since :
    (log : MessageLog) (ch : String) (n : ℕ) → length (get_since log ch n) ≡ len log ch - n
unfolding get_since len
length-get_since log ch n = ground (arith, length-drop n (or_else (get log.channels ch) []))
