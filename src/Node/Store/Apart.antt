-- ===== src/Node/Store/Apart.antt =====
-- An append to the log of one community leaves what is read of another, whatever the rows.
use bit_cord.Prelude.{
  ℕ, ◌+◌, ◌^◌, ◌<◌, ◌≡◌, sym, ap, ◌∙◌, false, Bytes, ◌++◌, Option, none, some, or_else, keep,
  length, leb, nat_eq, list_eq, list_eqb, arith, Option-cases, Bool-cases, inl, inr, length-append,
}
use bit_cord.State.MessageLog.{LogEntry}
use bit_cord.Node.Keys.{to_be_bytes}
use bit_cord.Node.Table.{Tables, IsLawful, last_item}
use bit_cord.Node.Table.Ranges.{keep-put_outside}
use bit_cord.Node.Store.{
  Codec, NodeDb, next_after, read_values, seal_entry, open_entry, log_range, log_key,
  append_message, get_messages, u64_max,
}
use bit_cord.Node.Store.Rows.{row_range, within_key}
use bit_cord.Node.Store.Log.{list_eqb-append}

next_after-fits : (size : ℕ) (o : Option (Bytes × Bytes)) → next_after size o < 256 ^ 8
next_after-fits size none = omega arith
next_after-fits size (some (k, v)) = elim (Bool-cases (leb (size + 8) (length k))) [
  | inl t ↦ rw (next_after, t) (omega arith)
  | inr f ↦ rw (next_after, f) (omega arith)
]

module _ {T : Type 0} (R : Tables T) (X : Codec) (lawful : IsLawful R) where
  -- What `append_message` has done, if it has succeeded.
  pub append_message-wrote :
      (db : NodeDb T) (random pk chan : Bytes) (e : LogEntry) (seq : ℕ) (db' : NodeDb T)
      → append_message R X db random pk chan e ≡ some (seq, db')
      → (n : ℕ) × (blob : Bytes) × (n < 256 ^ 8)
        × (db' ≡ record db { log = R.insert db.log (log_key pk chan n) blob })
  unfolding append_message
  append_message-wrote db random pk chan e seq db' h =
      let n = next_after 48 (last_item (log_range R X db pk chan 0)) in
      elim (Option-cases (seal_entry R X db random (record e { seq = n; deleted = false }))) [
        | inl bad ↦ ground (arith, rw (append_message, bad) at h)
        | inr (blob, good) ↦
            let wrote : some (n, record db { log = R.insert db.log (log_key pk chan n) blob })
                ≡ some (seq, db') =
              rw (append_message, good) at h in
            (
              n,
              blob,
              next_after-fits 48 (last_item (log_range R X db pk chan 0)),
              sym (ap (λ (o : Option (ℕ × NodeDb T)). (or_else o (seq, db')).1) wrote),
            )
      ]

  range-apart :
      (t : T) (q : Bytes) (since : ℕ) (k v : Bytes)
      → ((w : Bytes) → row_range q since (k, w) ≡ false)
      → R.range (R.insert t k v) (q ++ to_be_bytes 8 since) (q ++ to_be_bytes 8 u64_max)
        ≡ R.range t (q ++ to_be_bytes 8 since) (q ++ to_be_bytes 8 u64_max)
  range-apart t q since k v out =
      lawful.range-iter (R.insert t k v) _ _
      ∙ ap (keep (row_range q since)) (lawful.iter-insert t k v)
      ∙ keep-put_outside (row_range q since) k v (R.iter t) out
      ∙ sym (lawful.range-iter t _ _)

  pub append_message-apart :
      (db : NodeDb T) (random pk chan : Bytes) (e : LogEntry) (seq : ℕ) (db' : NodeDb T)
      (pk' chan' : Bytes) (since : ℕ)
      → append_message R X db random pk chan e ≡ some (seq, db')
      → length pk ≡ 32
      → length chan ≡ 16
      → length pk' ≡ 32
      → length chan' ≡ 16
      → since < 2 ^ 64
      → list_eqb pk' pk ≡ false
      → get_messages R X db' pk' chan' since ≡ get_messages R X db pk' chan' since
  unfolding get_messages
  append_message-apart db random pk chan e seq db' pk' chan' since h a b a' b' fits other =
      let (n, blob, small, wrote) = append_message-wrote db random pk chan e seq db' h in
      let out : (w : Bytes) → row_range (pk' ++ chan') since (log_key pk chan n, w) ≡ false = λ w.
        within_key (pk' ++ chan') (pk ++ chan) since n w
          (omega (arith, length-append pk chan, length-append pk' chan', a, b, a', b'))
          (omega (arith, fits)) small
        ∙ ground (arith, list_eqb-append pk' pk chan' chan (a' ∙ sym a), other) in
      let db'' : NodeDb T = record db { log = R.insert db.log (log_key pk chan n) blob } in
      let same : get_messages R X db'' pk' chan' since ≡ get_messages R X db pk' chan' since =
        ap (read_values (open_entry R X db))
          (range-apart db.log (pk' ++ chan') since (log_key pk chan n) blob out) in
      ap (λ d. get_messages R X d pk' chan' since) wrote ∙ same
