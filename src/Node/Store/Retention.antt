-- ===== src/Node/Store/Retention.antt =====
-- What is left of a channel's log when the limit on its size has been enforced.
use bit_cord.Prelude.{
  bytes_le_refl, ℕ, ◌-◌, ◌≡◌, refl, sym, ap, subst, ◌∙◌, Bool, true, false, ◌&&◌, Bytes, [], ◌∷◌,
  ◌++◌, Option, keep, All, All-keep, length, leb, nat_eq, list_eq, list_eqb, list_eqb_iff,
  list_eqb_refl, ◌==◌, if◌then◌else◌, arith, Bool-cases, inl, inr, length-append,
}
use bit_cord.State.MessageLog.{LogEntry}
use bit_cord.Node.Table.{Tables, IsLawful, Items, other_key, Above, Ascending, keep-Ascending}
use bit_cord.Node.Store.{Codec, NodeDb, open_entry, log_range, total_size, evict, enforce_retention}
use bit_cord.Node.Store.Rows.{IsRow, IsLog, row_range, within_row, keep-passes}
use bit_cord.Node.Store.Log.{list_eqb-append, log_ranged}

-- The oldest items go until the rest is within the limit.
abbrev pub newest : ℕ → Items → Items
newest max_bytes [] = []
newest max_bytes (i ∷ m) =
    let rest = newest max_bytes m in if leb (total_size (i ∷ m)) max_bytes then i ∷ m else rest

newest-fits : (max_bytes : ℕ) (m : Items) → leb (total_size (newest max_bytes m)) max_bytes ≡ true
newest-fits max_bytes [] = ground arith
newest-fits max_bytes (i ∷ m) = elim (Bool-cases (leb (total_size (i ∷ m)) max_bytes)) [
  | inl t ↦ rw t t
  | inr f ↦ rw f (newest-fits max_bytes m)
]

keep-keep : (p q : Bytes × Bytes → Bool) (m : Items) → keep p (keep q m) ≡ keep q (keep p m)
keep-keep p q [] = refl
keep-keep p q (i ∷ m) = ground (arith, keep-keep p q m)

-- The keys above a key are other keys.
keep-others : (k : Bytes) (m : Items) → All (Above k) m → keep (other_key k) m ≡ m
keep-others k [] a = refl
keep-others k (i ∷ m) a =
    ground (arith, a.0, bytes_le_refl k, list_eqb_iff k i.0, keep-others k m a.1)

keep-first : (i : Bytes × Bytes) (m : Items) → All (Above i.0) m → keep (other_key i.0) (i ∷ m) ≡ m
keep-first i m a = ground (arith, list_eqb_refl i.0, keep-others i.0 m a)

keep-not_there :
    (p : Bytes × Bytes → Bool) (k : Bytes) (m : Items)
    → ((w : Bytes) → p (k, w) ≡ false)
    → keep p (keep (other_key k) m) ≡ keep p m
keep-not_there p k [] out = refl
keep-not_there p k (i ∷ m) out = elim (Bool-cases (list_eqb k i.0)) [
  | inl t ↦
      let same = (list_eqb_iff k i.0).0 t in
      let gone : p i ≡ false = ap (λ (j : Bytes). p (j, i.1)) (sym same) ∙ out i.1 in
      rw (t, gone) (keep-not_there p k m out)
  | inr f ↦ rw f (ap (λ r. if p i then i ∷ r else r) (keep-not_there p k m out))
]

-- The rows of one prefix are in no range of another.
rows_outside :
    (size : ℕ) (read : Bytes → Option LogEntry) (q q' : Bytes) (m : Items)
    → length q ≡ size
    → length q' ≡ size
    → list_eqb q' q ≡ false
    → All (IsRow size read) m
    → All (λ (i : Bytes × Bytes). row_range q 0 i ≡ true) m
    → All (λ (i : Bytes × Bytes). (w : Bytes) → row_range q' 0 (i.0, w) ≡ false) m
rows_outside size read q q' [] len len' other rows inside = tt
rows_outside size read q q' (i ∷ m) len len' other rows inside =
    let r = rows.0 in
    let of_q = within_row size read q 0 i len (omega arith) r in
    let same : q ≡ r.prefix = (list_eqb_iff q r.prefix).0 (ground (arith, of_q, inside.0)) in
    let not_of_q' : list_eqb q' r.prefix ≡ false = subst (λ x. list_eqb q' x ≡ false) same other in
    (
      λ w. within_row size read q' 0 i len' (omega arith) r ∙ ground (arith, not_of_q'),
      rows_outside size read q q' m len len' other rows.1 inside.1,
    )

module _ {T : Type 0} (R : Tables T) (X : Codec) (lawful : IsLawful R) where
  evict-newest :
      (p : Bytes × Bytes → Bool) (max_bytes : ℕ) (t : T) (m : Items)
      → Ascending m
      → keep p (R.iter t) ≡ m
      → keep p (R.iter (evict R X t max_bytes (total_size m) m)) ≡ newest max_bytes m
  evict-newest p max_bytes t [] up h = h
  evict-newest p max_bytes t (i ∷ m) up h = elim (Bool-cases (leb (total_size (i ∷ m)) max_bytes)) [
    | inl l ↦ rw l h
    | inr g ↦
        let gone : keep p (R.iter (R.remove t i.0)) ≡ m =
          ap (keep p) (lawful.iter-remove t i.0)
          ∙ keep-keep p (other_key i.0) (R.iter t)
          ∙ ap (keep (other_key i.0)) h
          ∙ keep-first i m up.0 in
        let rest_size : total_size (i ∷ m) - length i.1 ≡ total_size m = omega arith in
        rw (g, rest_size) (evict-newest p max_bytes (R.remove t i.0) m up.1 gone)
  ]

  -- Removing rows outside a range leaves the range.
  keep-evict :
      (p : Bytes × Bytes → Bool) (max_bytes total : ℕ) (t : T) (m : Items)
      → All (λ (i : Bytes × Bytes). (w : Bytes) → p (i.0, w) ≡ false) m
      → keep p (R.iter (evict R X t max_bytes total m)) ≡ keep p (R.iter t)
  keep-evict p max_bytes total t [] out = refl
  keep-evict p max_bytes total t (i ∷ m) out = elim (Bool-cases (leb total max_bytes)) [
    | inl l ↦ rw l refl
    | inr g ↦ rw g (
        keep-evict p max_bytes (total - length i.1) (R.remove t i.0) m out.1
        ∙ ap (keep p) (lawful.iter-remove t i.0)
        ∙ keep-not_there p i.0 (R.iter t) out.0)
  ]

  evict_within :
      (max_bytes total : ℕ) (t : T) (m : Items)
      → leb total max_bytes ≡ true
      → evict R X t max_bytes total m ≡ t
  evict_within max_bytes total t [] h = refl
  evict_within max_bytes total t (i ∷ m) h = rw h refl

  enforce_retention-evict :
      (db : NodeDb T) (pk chan : Bytes) (max_bytes : ℕ)
      → (enforce_retention R X db pk chan max_bytes).log
        ≡ evict R X db.log max_bytes
            (total_size (log_range R X db pk chan 0))
            (log_range R X db pk chan 0)
  unfolding enforce_retention
  enforce_retention-evict db pk chan max_bytes =
      elim (Bool-cases (leb (total_size (log_range R X db pk chan 0)) max_bytes)) [
        | inl l ↦
            rw (enforce_retention, l)
              (sym (
                evict_within max_bytes (total_size (log_range R X db pk chan 0)) db.log
                  (log_range R X db pk chan 0) l))
        | inr g ↦ rw (enforce_retention, g) refl
      ]

  -- Any range of a prefix after the eviction from another or from the same.
  range-evict :
      (read : Bytes → Option LogEntry) (t : T) (q q' : Bytes) (max_bytes : ℕ) (m : Items)
      → IsLog 48 read (R.iter t)
      → length q ≡ 48
      → length q' ≡ 48
      → m ≡ keep (row_range q 0) (R.iter t)
      → keep (row_range q' 0) (R.iter (evict R X t max_bytes (total_size m) m)) ≡ (
          if list_eqb q' q
          then newest max_bytes (keep (row_range q' 0) (R.iter t))
          else keep (row_range q' 0) (R.iter t))
  range-evict read t q q' max_bytes m log len len' of_q = elim (Bool-cases (list_eqb q' q)) [
    | inl e ↦
        let same = (list_eqb_iff q' q).0 e in
        let of_q' : keep (row_range q' 0) (R.iter t) ≡ m =
          ap (λ x. keep (row_range x 0) (R.iter t)) same ∙ sym of_q in
        let up : Ascending m = rw of_q (keep-Ascending (row_range q 0) (R.iter t) log.0) in
        rw (e, of_q') (evict-newest (row_range q' 0) max_bytes t m up of_q')
    | inr f ↦
        let rows : All (IsRow 48 read) m =
          rw of_q (All-keep (IsRow 48 read) (row_range q 0) (R.iter t) log.1) in
        let inside : All (λ (i : Bytes × Bytes). row_range q 0 i ≡ true) m =
          rw of_q (keep-passes (row_range q 0) (R.iter t)) in
        rw f (
          keep-evict (row_range q' 0) max_bytes (total_size m) t m
            (rows_outside 48 read q q' m len len' f rows inside))
  ]

-- On a log whose rows are as the store writes them, after the limit on a channel's size has been
-- enforced: the channel's rows are the longest end of what they were whose values are within the
-- limit, and the rows of every other channel are those of before.
pub enforce_retention-newest :
    {T : Type 0} (R : Tables T) (X : Codec) (lawful : IsLawful R) (db : NodeDb T) (pk chan : Bytes)
    (max_bytes : ℕ) (pk' chan' : Bytes)
    → IsLog 48 (open_entry R X db) (R.iter db.log)
    → length pk ≡ 32
    → length chan ≡ 16
    → length pk' ≡ 32
    → length chan' ≡ 16
    → (log_range R X (enforce_retention R X db pk chan max_bytes) pk' chan' 0 ≡ (
        if pk' == pk && chan' == chan
        then newest max_bytes (log_range R X db pk' chan' 0)
        else log_range R X db pk' chan' 0))
      × (leb (total_size (newest max_bytes (log_range R X db pk' chan' 0))) max_bytes ≡ true)
enforce_retention-newest R X lawful db pk chan max_bytes pk' chan' log a b a' b' =
    let q = pk ++ chan in
    let q' = pk' ++ chan' in
    let m = log_range R X db pk chan 0 in
    let len : length q ≡ 48 = omega (arith, length-append pk chan, a, b) in
    let len' : length q' ≡ 48 = omega (arith, length-append pk' chan', a', b') in
    let done = enforce_retention R X db pk chan max_bytes in
    let before = log_range R X db pk' chan' 0 in
    let evicted =
      range-evict R X lawful (open_entry R X db) db.log q q' max_bytes m log len len'
        (log_ranged R X lawful db pk chan) in
    (
      log_ranged R X lawful done pk' chan'
          ∙ ap (λ t. keep (row_range q' 0) (R.iter t))
              (enforce_retention-evict R X lawful db pk chan max_bytes)
          ∙ evicted
          ∙ ap (λ x. if list_eqb q' q then newest max_bytes x else x)
              (sym (log_ranged R X lawful db pk' chan'))
          ∙ ap (λ x. if x then newest max_bytes before else before)
              (list_eqb-append pk' pk chan' chan (a' ∙ sym a)),
      newest-fits max_bytes (log_range R X db pk' chan' 0),
    )
