-- ===== src/Node/Store/Refines.antt =====
-- The database refines what the event handlers see of it: Community/NodeStore.
use bit_cord.Prelude.{
  ℕ, ◌+◌, ◌≡◌, refl, sym, ap, ◌∙◌, Bool, true, false, ◌&&◌, Bytes, List, [], ◌∷◌, ◌++◌, Option,
  none, some, map_some, All, All-keep, length, leb, nat_eq, list_eq, list_eqb_iff, ◌==◌,
  if◌then◌else◌, arith, Option-cases, inl, inr, or_else,
}
use bit_cord.Prelude.Map.{get, insert, get-insert}
use bit_cord.State.MessageLog.{LogEntry}
use bit_cord.Community.NodeStore
use bit_cord.Community.NodeStore.{NodeStore as HandlerStore, store_entries, last_of, next_seq}
use bit_cord.Node.Table.{Tables, IsLawful, Items, last_item}
use bit_cord.Node.Store
use bit_cord.Node.Store.{
  Codec, NodeDb, next_after, seq_at, seal_entry, log_key, read_values, open_entry, log_range,
  get_messages,
}
use bit_cord.Node.Store.Rows.{IsRow, row_range, NextFits, seq_at_key, long_key}
use bit_cord.Node.Store.Log.{IsFaithful, IsLogs, numbered, log_ranged, append_message-get_messages}
use bit_cord.Node.Store.Since.{prepend, read_values-cons}

some_injective : {A : Type 0} (a b : A) → some a ≡ some b → a ≡ b
some_injective a b h = ap (λ o. or_else o a) h

next_after-row :
    (size : ℕ) (read : Bytes → Option LogEntry) (i : Bytes × Bytes)
    → (r : IsRow size read i) → next_after size (some i) ≡ next_seq (some r.entry.seq)
next_after-row size read i r =
    let long : leb (size + 8) (length i.0) ≡ true =
      long_key size r.prefix r.number i.0 r.length_prefix r.key_is in
    let seq : seq_at size i.0 ≡ r.entry.seq =
      ap (seq_at size) r.key_is
      ∙ seq_at_key size r.prefix r.number r.length_prefix r.fits
      ∙ sym r.numbered in
    ground (arith, long, seq)

-- The number after the last row is the one after the last entry.
next_after-last_of :
    (size : ℕ) (read : Bytes → Option LogEntry) (m : Items) (es : List LogEntry)
    → All (IsRow size read) m
    → read_values read m ≡ some es
    → next_after size (last_item m) ≡ next_seq (last_of es)
unfolding read_values
next_after-last_of size read [] es rows h =
    ap (λ es. next_seq (last_of es)) (some_injective [] es h)
next_after-last_of size read (i ∷ []) es rows h =
    let r = rows.0 in
    let one : r.entry ∷ [] ≡ es =
      some_injective (r.entry ∷ []) es (sym (read_values-cons read i [] r.entry r.opens) ∙ h) in
    next_after-row size read i r ∙ ap (λ es. next_seq (last_of es)) one
next_after-last_of size read (i ∷ j ∷ m) es rows h =
    let r = rows.0 in
    let s = rows.1.0 in
    let first = read_values-cons read i (j ∷ m) r.entry r.opens in
    let second = read_values-cons read j m s.entry s.opens in
    let all : read_values read (i ∷ j ∷ m)
        ≡ prepend r.entry (prepend s.entry (read_values read m)) =
      first ∙ ap (prepend r.entry) second in
    elim (Option-cases (read_values read m)) [
      | inl n ↦
          let fails : none ≡ some es =
            sym (ap (λ o. prepend r.entry (prepend s.entry o)) n) ∙ sym all ∙ h in
          absurd (ground (arith, fails))
      | inr (rest, n) ↦
          let both : r.entry ∷ s.entry ∷ rest ≡ es =
            some_injective _ es
              (sym (ap (λ o. prepend r.entry (prepend s.entry o)) n) ∙ sym all ∙ h) in
          next_after-last_of size read (j ∷ m) (s.entry ∷ rest) rows.1
            (second ∙ ap (prepend s.entry) n)
          ∙ ap (λ es. next_seq (last_of es)) both
    ]

append_message-number :
    {T : Type 0} (R : Tables T) (X : Codec) (db db' : NodeDb T) (random pk chan : Bytes)
    (e : LogEntry) (seq : ℕ)
    → Store.append_message R X db random pk chan e ≡ some (seq, db')
    → next_after 48 (last_item (log_range R X db pk chan 0)) ≡ seq
unfolding Store.append_message
append_message-number {T = T} R X db db' random pk chan e seq h =
    let next = next_after 48 (last_item (log_range R X db pk chan 0)) in
    elim (Option-cases (seal_entry R X db random (numbered e next))) [
      | inl n ↦
          let fails : none ≡ some (seq, db') = rw (Store.append_message, n) at h in
          absurd (ground (arith, fails))
      | inr (v, n) ↦
          let done : some (next, record db { log = R.insert db.log (log_key pk chan next) v })
              ≡ some (seq, db') =
            rw (Store.append_message, n) at h in
          ap (λ (o : Option (ℕ × NodeDb T)). (or_else o (next, db)).0) done
    ]

-- What the list of the handlers holds after an append.
store_entries-append_message :
    (store : HandlerStore) (pk ch : Bytes) (e : LogEntry) (pk' ch' : Bytes)
    → store_entries (NodeStore.append_message store pk ch e) pk' ch' ≡ (
        if pk' == pk && ch' == ch
        then store_entries store pk' ch'
          ++ numbered e (next_seq (NodeStore.last_seq store pk ch)) ∷ []
        else store_entries store pk' ch')
unfolding NodeStore.append_message
store_entries-append_message store pk ch e pk' ch' =
    let channels = or_else (get store.log pk) [] in
    let more =
      store_entries store pk ch ++ numbered e (next_seq (NodeStore.last_seq store pk ch)) ∷ [] in
    ground (
      arith,
      get-insert store.log pk pk' (insert channels ch more),
      get-insert channels ch ch' more,
      list_eqb_iff pk pk',
      list_eqb_iff pk' pk,
      list_eqb_iff ch ch',
      list_eqb_iff ch' ch,
    )

number_after :
    {T : Type 0} (R : Tables T) (X : Codec) (lawful : IsLawful R) (db : NodeDb T) (pk chan : Bytes)
    (es : List LogEntry)
    → IsLogs R X db
    → get_messages R X db pk chan 0 ≡ some es
    → next_after 48 (last_item (log_range R X db pk chan 0)) ≡ next_seq (last_of es)
unfolding get_messages
number_after R X lawful db pk chan es logs own =
    let ranged = log_ranged R X lawful db pk chan in
    let rows : All (IsRow 48 (open_entry R X db)) (log_range R X db pk chan 0) = rw ranged (
      All-keep (IsRow 48 (open_entry R X db)) (row_range (pk ++ chan) 0) (R.iter db.log)
        logs.0.1) in
    next_after-last_of 48 (open_entry R X db) (log_range R X db pk chan 0) es rows own

map_some-if :
    (b : Bool) (es : List LogEntry) (e : LogEntry)
    → (if b then map_some (λ xs. xs ++ e ∷ []) (some es) else some es)
      ≡ some (if b then es ++ e ∷ [] else es)
map_some-if true es e = refl
map_some-if false es e = refl

-- For an entry that the codec reads back, keys of the right sizes and a last number below the
-- greatest: where the handlers' list of the message's channel and that of another are what
-- `get_messages` returns, `append_message` of the database succeeds with the number that follows the
-- list's last, and then `get_messages` returns for the other channel, or the same, what the handlers'
-- `append_message` leaves there.
pub append_message-refines :
    {T : Type 0} (R : Tables T) (X : Codec) (lawful : IsLawful R) (db : NodeDb T)
    (store : HandlerStore) (random pk chan : Bytes) (e : LogEntry) (pk' chan' : Bytes)
    → IsFaithful X e
    → IsLogs R X db
    → length pk ≡ 32
    → length chan ≡ 16
    → length pk' ≡ 32
    → length chan' ≡ 16
    → NextFits 48 (last_item (log_range R X db pk chan 0))
    → get_messages R X db pk chan 0 ≡ some (store_entries store pk chan)
    → get_messages R X db pk' chan' 0 ≡ some (store_entries store pk' chan')
    → (seq : ℕ) × (db' : NodeDb T) × (Store.append_message R X db random pk chan e
        ≡ some (seq, db'))
      × (seq ≡ next_seq (NodeStore.last_seq store pk chan))
      × (get_messages R X db' pk' chan' 0
          ≡ some (store_entries (NodeStore.append_message store pk chan e) pk' chan'))
append_message-refines R X lawful db store random pk chan e pk' chan' faithful logs a b a' b' fits
      own other =
    let (seq, db', ok, kept, mail, reads) =
      append_message-get_messages R X lawful db random pk chan e pk' chan' faithful logs a b a' b'
        fits in
    let number : seq ≡ next_seq (NodeStore.last_seq store pk chan) =
      sym (append_message-number R X db db' random pk chan e seq ok)
      ∙ number_after R X lawful db pk chan (store_entries store pk chan) logs own in
    (
      seq,
      db',
      ok,
      number,
      reads
          ∙ ap
              (λ o.
                if pk' == pk && chan' == chan
                then map_some (λ xs. xs ++ numbered e seq ∷ []) o
                else o)
              other
          ∙ map_some-if (pk' == pk && chan' == chan) (store_entries store pk' chan')
              (numbered e seq)
          ∙ ap
              (λ n. some (
                if pk' == pk && chan' == chan
                then store_entries store pk' chan' ++ numbered e n ∷ []
                else store_entries store pk' chan'))
              number
          ∙ sym (ap some (store_entries-append_message store pk chan e pk' chan')),
    )
