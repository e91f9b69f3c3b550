-- ===== src/Node/Store/Log.antt =====
-- What `get_messages` and `get_dms` return after `append_message` and `append_dm`.
use bit_cord.Prelude.{
  bytes_le, ℕ, ◌≡◌, refl, sym, ap, subst, ◌∙◌, Bool, true, false, ◌&&◌, Bytes, List, [], ◌∷◌, ◌++◌,
  Option, some, map_some, keep, All, length, nat_eq, list_eq, list_eqb, list_eqb_iff, ◌==◌,
  if◌then◌else◌, arith, Bool-cases, Option-cases, inl, inr, length-append,
}
use bit_cord.State.MessageLog.{LogEntry}
use bit_cord.Node.Keys.{to_be_bytes}
use bit_cord.Node.Table.{Tables, IsLawful, Items, put, put-Ascending, last_item}
use bit_cord.Node.Table.Ranges.{Below, keep-put_outside, keep-put_last}
use bit_cord.Node.Store.{
  Codec, NodeDb, next_after, read_values, decrypt, seal_entry, open_entry, log_range, log_key,
  append_message, get_messages,
}
use bit_cord.Node.Store.Rows.{IsRow, IsLog, row_range, within_key, NextFits, next_is_above}

put-All :
    (P : Bytes × Bytes → Type 0) (k v : Bytes) (m : Items) → P (k, v) → All P m → All P (put k v m)
unfolding put
put-All P k v [] h a = (h, tt)
put-All P k v ((j, w) ∷ m) h a = elim (Bool-cases (list_eqb k j)) [
  | inl t ↦ rw (put, t) (h, a.1)
  | inr f ↦ elim (Bool-cases (bytes_le k j)) [
    | inl l ↦ rw (put, f, l) (h, a)
    | inr g ↦ rw (put, f, g) (a.0, put-All P k v m h a.1)
  ]
]

module _ (size : ℕ) (read : Bytes → Option LogEntry) (m : Items) (log : IsLog size read m)
    (q v : Bytes) (len : length q ≡ size)
    (fits : NextFits size (last_item (keep (row_range q 0) m))) where
  abbrev next : ℕ
  next = next_after size (last_item (keep (row_range q 0) m))

  abbrev grown : Items
  grown = put (q ++ to_be_bytes 8 next) v m

  grown-IsLog : (e : LogEntry) → read v ≡ some e → e.seq ≡ next → IsLog size read grown
  grown-IsLog e opens numbered = (
    put-Ascending (q ++ to_be_bytes 8 next) v m log.0,
    put-All (IsRow size read) (q ++ to_be_bytes 8 next) v m
        (record {
          prefix = q;
          number = next;
          entry = e;
          length_prefix = len;
          fits = (next_is_above size read m log q len fits).0;
          key_is = refl;
          opens = opens;
          numbered = numbered;
        })
        log.1,
  )

  at_key :
      (q' w : Bytes)
      → length q' ≡ size
      → row_range q' 0 (q ++ to_be_bytes 8 next, w) ≡ list_eqb q' q
  at_key q' w len' =
      within_key q' q 0 next w (len' ∙ sym len) (omega arith)
        (next_is_above size read m log q len fits).0
      ∙ ground arith

  -- The range of the prefix has one more row, at its end, and no other range has changed.
  range-grown :
      (q' : Bytes)
      → length q' ≡ size
      → keep (row_range q' 0) grown ≡ (
          if list_eqb q' q
          then keep (row_range q' 0) m ++ (q ++ to_be_bytes 8 next, v) ∷ []
          else keep (row_range q' 0) m)
  range-grown q' len' = elim (Bool-cases (list_eqb q' q)) [
    | inl t ↦
        let same = (list_eqb_iff q' q).0 t in
        let here : (w : Bytes) → row_range q' 0 (q ++ to_be_bytes 8 next, w) ≡ true =
          λ w. at_key q' w len' ∙ t in
        let below =
          subst (λ x. All (Below (row_range x 0) (q ++ to_be_bytes 8 next)) m) (sym same)
            (next_is_above size read m log q len fits).1 in
        rw t (keep-put_last (row_range q' 0) (q ++ to_be_bytes 8 next) v m here log.0 below)
    | inr f ↦ rw f (
        keep-put_outside (row_range q' 0) (q ++ to_be_bytes 8 next) v m (λ w. at_key q' w len' ∙ f))
  ]

pub list_eqb-append :
    (a b x y : Bytes)
    → length a ≡ length b
    → list_eqb (a ++ x) (b ++ y) ≡ (list_eqb a b && list_eqb x y)
list_eqb-append [] [] x y h = refl
list_eqb-append [] (d ∷ b) x y h = absurd (omega (arith, h))
list_eqb-append (c ∷ a) [] x y h = absurd (omega (arith, h))
list_eqb-append (c ∷ a) (d ∷ b) x y h = ground (arith, list_eqb-append a b x y (omega (arith, h)))

pub read_values-append :
    {A : Type 0} (read : Bytes → Option A) (m : Items) (k v : Bytes) (a : A)
    → read v ≡ some a
    → read_values read (m ++ (k, v) ∷ []) ≡ map_some (λ as'. as' ++ a ∷ []) (read_values read m)
unfolding read_values
read_values-append read [] k v a h = rw h refl
read_values-append read (i ∷ m) k v a h = elim (Option-cases (read i.1)) [
  | inl n ↦ rw (read_values, n) refl
  | inr (b, n) ↦ elim (Option-cases (read_values read m)) [
    | inl r ↦ rw (read_values, n, read_values-append read m k v a h, r) refl
    | inr (bs, r) ↦ rw (read_values, n, read_values-append read m k v a h, r) refl
  ]
]

-- The entries with one more at their end, if the test holds.
abbrev chosen : Bool → LogEntry → Option (List LogEntry) → Option (List LogEntry)
chosen b e es = if b then map_some (λ xs. xs ++ e ∷ []) es else es

read_if :
    {A : Type 0} (read : Bytes → Option A) (b : Bool) (m : Items) (k v : Bytes) (a : A)
    → read v ≡ some a
    → read_values read (if b then m ++ (k, v) ∷ [] else m)
      ≡ (if b then map_some (λ as'. as' ++ a ∷ []) (read_values read m) else read_values read m)
read_if read true m k v a h = read_values-append read m k v a h
read_if read false m k v a h = refl

pub log_ranged :
    {T : Type 0} (R : Tables T) (X : Codec) (lawful : IsLawful R) (db : NodeDb T) (pk chan : Bytes)
    → log_range R X db pk chan 0 ≡ keep (row_range (pk ++ chan) 0) (R.iter db.log)
log_ranged R X lawful db pk chan = lawful.range-iter db.log _ _

-- The entry as the store writes it under a number.
abbrev pub numbered : LogEntry → ℕ → LogEntry
numbered e seq = record e { seq = seq; deleted = false }

-- What the store relies on of its codec: the entry, whatever its number, is encoded and read back,
-- and what is encrypted is decrypted.
pub record IsFaithful (X : Codec) (e : LogEntry) : Type 0 where
  pub entry_read_back :
      (seq : ℕ)
      → (plain : Bytes) × (X.entry_bytes (numbered e seq) ≡ some plain)
        × (X.read_entry plain ≡ some (numbered e seq))
  pub cipher_read_back :
      (key random plain : Bytes)
      → (blob : Bytes) × (X.encrypt_bytes key random plain ≡ some blob)
        × (X.decrypt_bytes key blob ≡ some plain)

-- The rows of the log and those of the mailboxes are as the store has written them.
abbrev pub IsLogs : {T : Type 0} → Tables T → Codec → NodeDb T → Type 0
IsLogs R X db =
    IsLog 48 (open_entry R X db) (R.iter db.log) × IsLog 32 (open_entry R X db) (R.iter db.mail)

module _ {T : Type 0} (R : Tables T) (X : Codec) (lawful : IsLawful R) where
  sealed :
      (db : NodeDb T) (random : Bytes) (e : LogEntry) (seq : ℕ)
      → IsFaithful X e
      → (blob : Bytes) × (seal_entry R X db random (numbered e seq) ≡ some blob)
        × (open_entry R X db blob ≡ some (numbered e seq))
  sealed db random e seq faithful =
      let (plain, written, back) = faithful.entry_read_back seq in
      elim (Option-cases db.key) [
        | inl n ↦ (plain, rw (seal_entry, written, n) refl, rw (open_entry, decrypt, n) back)
        | inr (key, n) ↦
            let (blob, hidden, shown) = faithful.cipher_read_back key random plain in
            (blob, rw (seal_entry, written, n) hidden, rw (open_entry, decrypt, n, shown) back)
      ]

  append_message-writes :
      (db : NodeDb T) (random pk chan : Bytes) (e : LogEntry) (seq : ℕ) (blob : Bytes)
      → next_after 48 (last_item (log_range R X db pk chan 0)) ≡ seq
      → seal_entry R X db random (numbered e seq) ≡ some blob
      → append_message R X db random pk chan e
        ≡ some (seq, record db { log = R.insert db.log (log_key pk chan seq) blob })
  unfolding append_message
  append_message-writes db random pk chan e seq blob h written =
      rw (append_message, h, written)
        (ap (λ n. some (n, record db { log = R.insert db.log (log_key pk chan n) blob })) h)

  -- For an entry that the codec reads back, on a log whose rows are as the store writes them, for keys of the right sizes and a last number
  -- below the greatest: `append_message` succeeds, the log is again of that kind and the mailboxes
  -- are the same, and `get_messages` for any community and channel returns what it returned before,
  -- with the new entry at its end, under the number that is returned, if they are those of the
  -- message.
  pub append_message-get_messages :
      (db : NodeDb T) (random pk chan : Bytes) (e : LogEntry) (pk' chan' : Bytes)
      → IsFaithful X e
      → IsLogs R X db
      → length pk ≡ 32
      → length chan ≡ 16
      → length pk' ≡ 32
      → length chan' ≡ 16
      → NextFits 48 (last_item (log_range R X db pk chan 0))
      → (seq : ℕ) × (db' : NodeDb T) × (append_message R X db random pk chan e ≡ some (seq, db'))
        × IsLogs R X db'
        × (db'.mail ≡ db.mail)
        × (get_messages R X db' pk' chan' 0 ≡ (
            if pk' == pk && chan' == chan
            then map_some (λ es. es ++ numbered e seq ∷ []) (get_messages R X db pk' chan' 0)
            else get_messages R X db pk' chan' 0))
  unfolding append_message get_messages
  append_message-get_messages db random pk chan e pk' chan' faithful logs a b a' b' fits =
      let q = pk ++ chan in
      let m = R.iter db.log in
      let read = open_entry R X db in
      let len : length q ≡ 48 = omega (arith, length-append pk chan, a, b) in
      let len' : length (pk' ++ chan') ≡ 48 = omega (arith, length-append pk' chan', a', b') in
      let room : NextFits 48 (last_item (keep (row_range q 0) m)) =
        rw (log_ranged R X lawful db pk chan) at fits in
      let seq = next_after 48 (last_item (keep (row_range q 0) m)) in
      let e' = numbered e seq in
      let (blob, written, back) = sealed db random e seq faithful in
      let db' : NodeDb T = record db { log = R.insert db.log (q ++ to_be_bytes 8 seq) blob } in
      let inserted = lawful.iter-insert db.log (q ++ to_be_bytes 8 seq) blob in
      let grows = range-grown 48 read m logs.0 q blob len room (pk' ++ chan') len' in
      let new : log_range R X db' pk' chan' 0 ≡ (
          if list_eqb (pk' ++ chan') q
          then keep (row_range (pk' ++ chan') 0) m ++ (q ++ to_be_bytes 8 seq, blob) ∷ []
          else keep (row_range (pk' ++ chan') 0) m) =
        log_ranged R X lawful db' pk' chan'
        ∙ ap (keep (row_range (pk' ++ chan') 0)) inserted
        ∙ grows in
      let same = list_eqb-append pk' pk chan' chan (a' ∙ sym a) in
      (
        seq,
        db',
        append_message-writes db random pk chan e seq blob
            (ap (λ r. next_after 48 (last_item r)) (log_ranged R X lawful db pk chan)) written,
        (rw inserted (grown-IsLog 48 read m logs.0 q blob len room e' back refl), logs.1),
        refl,
        ap (read_values read) new
            ∙ read_if read (list_eqb (pk' ++ chan') q) (keep (row_range (pk' ++ chan') 0) m) _ blob
                e' back
            ∙ ap (λ r. chosen (list_eqb (pk' ++ chan') q) e' (read_values read r))
                (sym (log_ranged R X lawful db pk' chan'))
            ∙ ap (λ b. chosen b e' (get_messages R X db pk' chan' 0)) same,
      )
