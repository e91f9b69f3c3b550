-- ===== src/Node/Store/Since.antt =====
-- Reading a channel's log from a number on.
use bit_cord.Prelude.{
  ℕ, ◌^◌, ◌<◌, ◌≡◌, refl, sym, ap, ◌∙◌, Bool, true, false, ◌&&◌, Bytes, List, [], ◌∷◌, ◌++◌, Option,
  none, some, map_some, keep, All, length, leb, nat_eq, list_eq, list_eqb, arith, Bool-cases,
  Option-cases, inl, inr, length-append,
}
use bit_cord.State.MessageLog.{LogEntry}
use bit_cord.Node.Table.{Tables, IsLawful, Items}
use bit_cord.Node.Store.{Codec, NodeDb, read_values, open_entry, get_messages}
use bit_cord.Node.Store.Rows.{IsRow, IsLog, row_range, within_row}

abbrev from_seq : ℕ → LogEntry → Bool
from_seq since e = leb since e.seq

both_true : {a b : Bool} → a ≡ true → b ≡ true → (a && b) ≡ true
both_true h k = rw (h, k) refl

right_false : {a b : Bool} → a ≡ true → b ≡ false → (a && b) ≡ false
right_false h k = rw (h, k) refl

abbrev pub prepend : LogEntry → Option (List LogEntry) → Option (List LogEntry)
prepend e none = none
prepend e (some es) = some (e ∷ es)

pub read_values-cons :
    (read : Bytes → Option LogEntry) (i : Bytes × Bytes) (m : Items) (e : LogEntry)
    → read i.1 ≡ some e
    → read_values read (i ∷ m) ≡ prepend e (read_values read m)
unfolding read_values
read_values-cons read i m e h = elim (Option-cases (read_values read m)) [
  | inl n ↦ rw (read_values, h, n) refl
  | inr (es, n) ↦ rw (read_values, h, n) refl
]

map_keep-prepend :
    (since : ℕ) (e : LogEntry) (o : Option (List LogEntry))
    → from_seq since e ≡ true
    → map_some (keep (from_seq since)) (prepend e o)
      ≡ prepend e (map_some (keep (from_seq since)) o)
map_keep-prepend since e none h = refl
map_keep-prepend since e (some es) h = rw h refl

map_keep-push_out :
    (since : ℕ) (e : LogEntry) (o : Option (List LogEntry))
    → from_seq since e ≡ false
    → map_some (keep (from_seq since)) (prepend e o) ≡ map_some (keep (from_seq since)) o
map_keep-push_out since e none h = refl
map_keep-push_out since e (some es) h = rw h refl

module _ (size : ℕ) (read : Bytes → Option LogEntry) (q : Bytes) (len : length q ≡ size) (since : ℕ)
    (fits : since < 2 ^ 64) where
  read_values-since :
      (m : Items)
      → All (IsRow size read) m
      → read_values read (keep (row_range q since) m)
        ≡ map_some (keep (from_seq since)) (read_values read (keep (row_range q 0) m))
  unfolding read_values
  read_values-since [] rows = refl
  read_values-since (i ∷ m) rows =
      let r = rows.0 in
      let rest = read_values-since m rows.1 in
      let now = within_row size read q since i len (omega (arith, fits)) r in
      let all = within_row size read q 0 i len (omega arith) r in
      elim (Bool-cases (list_eqb q r.prefix)) [
        | inr f ↦ rw (now, all, f) rest
        | inl t ↦
            let cons = read_values-cons read i (keep (row_range q 0) m) r.entry r.opens in
            let in_range : row_range q 0 i ≡ true = all ∙ both_true t (ground arith) in
            elim (Bool-cases (leb since r.number)) [
              | inl l ↦
                  let passes : from_seq since r.entry ≡ true = rw r.numbered l in
                  rw (in_range, now ∙ both_true t l)
                    (read_values-cons read i (keep (row_range q since) m) r.entry r.opens
                      ∙ ap (prepend r.entry) rest
                      ∙ sym (map_keep-prepend since r.entry _ passes)
                      ∙ ap (map_some (keep (from_seq since))) (sym cons))
              | inr g ↦
                  let fails : from_seq since r.entry ≡ false = rw r.numbered g in
                  rw (in_range, now ∙ right_false t g)
                    (rest
                      ∙ sym (map_keep-push_out since r.entry _ fails)
                      ∙ ap (map_some (keep (from_seq since))) (sym cons))
            ]
      ]

-- On a log whose rows are as the store writes them, `get_messages` from a number on returns those of
-- the channel's entries that have this number or a greater one.
pub get_messages-since :
    {T : Type 0} (R : Tables T) (X : Codec) (lawful : IsLawful R) (db : NodeDb T) (pk chan : Bytes)
    (since : ℕ)
    → IsLog 48 (open_entry R X db) (R.iter db.log)
    → length pk ≡ 32
    → length chan ≡ 16
    → since < 2 ^ 64
    → get_messages R X db pk chan since
      ≡ map_some (keep (from_seq since)) (get_messages R X db pk chan 0)
unfolding get_messages
get_messages-since R X lawful db pk chan since log a b fits =
    ap (read_values (open_entry R X db)) (lawful.range-iter db.log _ _)
    ∙ read_values-since 48 (open_entry R X db) (pk ++ chan)
        (omega (arith, length-append pk chan, a, b)) since fits (R.iter db.log) log.1
    ∙ ap (λ m. map_some (keep (from_seq since)) (read_values (open_entry R X db) m))
        (sym (lawful.range-iter db.log _ _))
