-- ===== src/Node/Store/Rows.antt =====
-- The rows of a log or of a mailbox: which of them a range holds, and where the next one goes.
use bit_cord.Prelude.{
  ℕ, ◌+◌, ◌^◌, ◌<◌, ◌≡◌, refl, sym, ap, subst, ◌∙◌, Bool, true, false, ◌&&◌, Bytes, bytes_le,
  bytes_le_antisym, bytes_le_trans, [], ◌∷◌, ◌++◌, Option, none, some, keep, All, All-keep, length,
  take, drop, leb, nat_eq, list_eq, list_eqb, list_eqb_iff, list_eqb_refl, if◌then◌else◌, arith,
  Bool-cases, Option-cases, inl, inr, length-append, or_else,
}
use bit_cord.State.MessageLog.{LogEntry}
use bit_cord.Node.Keys.{
  to_be_bytes, from_be_bytes, from_be_bytes-to_be_bytes, length-to_be_bytes, bytes_le-append,
  bytes_le-to_be_bytes,
}
use bit_cord.Node.Table.{Items, within, Ascending, keep-Ascending, last_item}
use bit_cord.Node.Table.Ranges.{last_is_greatest, Below}
use bit_cord.Node.Store.{u64_max, seq_at, next_after}

-- A key of the table: a prefix of fixed length and a number of 8 bytes; the value opens to an entry
-- with that number.
pub record IsRow (size : ℕ) (read : Bytes → Option LogEntry) (item : Bytes × Bytes) : Type 0 where
  pub prefix : Bytes
  pub number : ℕ
  pub entry : LogEntry
  pub length_prefix : length prefix ≡ size
  pub fits : number < 256 ^ 8
  pub key_is : item.0 ≡ prefix ++ to_be_bytes 8 number
  pub opens : read item.1 ≡ some entry
  pub numbered : entry.seq ≡ number

abbrev pub IsLog : ℕ → (Bytes → Option LogEntry) → Items → Type 0
IsLog size read m = Ascending m × All (IsRow size read) m

abbrev pub row_range : Bytes → ℕ → Bytes × Bytes → Bool
row_range q since = within (q ++ to_be_bytes 8 since) (q ++ to_be_bytes 8 u64_max)

drop-append : (p x : Bytes) → drop (length p) (p ++ x) ≡ x
drop-append [] x = refl
drop-append (b ∷ p) x = drop-append p x

take-all : (x : Bytes) → take (length x) x ≡ x
take-all [] = refl
take-all (b ∷ x) = ap (λ y. b ∷ y) (take-all x)

-- The number of a key is read back.
pub seq_at_key :
    (size : ℕ) (p : Bytes) (n : ℕ)
    → length p ≡ size
    → n < 256 ^ 8
    → seq_at size (p ++ to_be_bytes 8 n) ≡ n
seq_at_key size p n h fits =
    let rest : drop size (p ++ to_be_bytes 8 n) ≡ to_be_bytes 8 n =
      subst (λ k. drop k (p ++ to_be_bytes 8 n) ≡ to_be_bytes 8 n) h
        (drop-append p (to_be_bytes 8 n)) in
    let all : take 8 (to_be_bytes 8 n) ≡ to_be_bytes 8 n =
      subst (λ k. take k (to_be_bytes 8 n) ≡ to_be_bytes 8 n) (length-to_be_bytes 8 n)
        (take-all (to_be_bytes 8 n)) in
    ap (λ k. from_be_bytes 0 (take 8 k)) rest
    ∙ ap (from_be_bytes 0) all
    ∙ from_be_bytes-to_be_bytes 8 n fits

if_true : (b x y : Bool) → b ≡ true → (if b then x else y) ≡ x
if_true b x y h = rw h refl

if_false : (b x y : Bool) → b ≡ false → (if b then x else y) ≡ y
if_false b x y h = rw h refl

both : (x y u w : Bool) → x ≡ u → y ≡ w → (x && y) ≡ (u && w)
both x y u w h k = rw (h, k) refl

-- Between the keys of one prefix are those with that prefix, from the number on.
pub within_key :
    (q p : Bytes) (since n : ℕ) (v : Bytes)
    → length q ≡ length p
    → since < 256 ^ 8
    → n < 256 ^ 8
    → row_range q since (p ++ to_be_bytes 8 n, v) ≡ (list_eqb q p && leb since n)
within_key q p since n v same low fits =
    let a = bytes_le-append q p (to_be_bytes 8 since) (to_be_bytes 8 n) same in
    let b = bytes_le-append p q (to_be_bytes 8 n) (to_be_bytes 8 u64_max) (sym same) in
    let c = bytes_le-to_be_bytes 8 since n low fits in
    let d = bytes_le-to_be_bytes 8 n u64_max fits (omega arith) in
    elim (Bool-cases (list_eqb q p)) [
      | inl t ↦
          let t' : list_eqb p q ≡ true = (list_eqb_iff p q).1 (sym ((list_eqb_iff q p).0 t)) in
          both _ _ _ _ (a ∙ if_true (list_eqb q p) _ _ t ∙ c)
            (b ∙ if_true (list_eqb p q) _ _ t' ∙ d)
          ∙ rw t (ground (arith, fits))
      | inr f ↦
          let f' : list_eqb p q ≡ false = ground (arith, f, list_eqb_iff p q, list_eqb_iff q p) in
          both _ _ _ _ (a ∙ if_false (list_eqb q p) _ _ f) (b ∙ if_false (list_eqb p q) _ _ f')
          ∙ rw f (ground (arith, f, bytes_le_antisym q p, list_eqb_iff q p))
    ]

-- A row stays one if its key and value are those of a row.
pub within_row :
    (size : ℕ) (read : Bytes → Option LogEntry) (q : Bytes) (since : ℕ) (item : Bytes × Bytes)
    → length q ≡ size
    → since < 256 ^ 8
    → (r : IsRow size read item)
    → row_range q since item ≡ (list_eqb q r.prefix && leb since r.number)
within_row size read q since item len low r =
    ap (λ (k : Bytes). row_range q since (k, item.1)) r.key_is
    ∙ within_key q r.prefix since r.number item.1 (len ∙ sym r.length_prefix) low r.fits

-- The number that comes next, where the last one is not the greatest number there is.
abbrev pub NextFits : ℕ → Option (Bytes × Bytes) → Type 0
NextFits size none = Unit
NextFits size (some item) = seq_at size item.0 + 1 < 2 ^ 64

last-All :
    (P : Bytes × Bytes → Type 0) (m : Items) (last : Bytes × Bytes)
    → All P m
    → last_item m ≡ some last
    → P last
last-All P [] last a h = absurd (ground (arith, h))
last-All P (i ∷ []) last a h = subst P (ap (λ o. or_else o last) h) a.0
last-All P (i ∷ j ∷ m) last a h = last-All P (j ∷ m) last a.1 h

pub keep-passes : (p : Bytes × Bytes → Bool) (m : Items) → All (λ i. p i ≡ true) (keep p m)
keep-passes p [] = tt
keep-passes p (i ∷ m) = elim (Bool-cases (p i)) [
  | inl t ↦ rw t (t, keep-passes p m)
  | inr f ↦ rw f (keep-passes p m)
]

last_item-none : (m : Items) → last_item m ≡ none → m ≡ []
last_item-none [] h = refl
last_item-none (i ∷ []) h = absurd (ground (arith, h))
last_item-none (i ∷ j ∷ m) h = let rest = last_item-none (j ∷ m) h in absurd (ground (arith, rest))

from_keep :
    (p : Bytes × Bytes → Bool) (P : Bytes × Bytes → Type 0) (m : Items)
    → All P (keep p m)
    → All (λ (i : Bytes × Bytes). p i ≡ true → P i) m
from_keep p P [] h = tt
from_keep p P (i ∷ m) h = elim (Bool-cases (p i)) [
  | inl t ↦ let both = rw t at h in (λ e. both.0, from_keep p P m both.1)
  | inr f ↦ (λ e. absurd (ground (arith, e, f)), from_keep p P m (rw f at h))
]

All-below :
    (k last : Bytes) (m : Items)
    → bytes_le k last ≡ false
    → All (λ (i : Bytes × Bytes). bytes_le i.0 last ≡ true) m
    → All (λ (i : Bytes × Bytes). bytes_le k i.0 ≡ false) m
All-below k last [] h a = tt
All-below k last (i ∷ m) h a =
    (ground (arith, h, a.0, bytes_le_trans k i.0 last), All-below k last m h a.1)

successor_above :
    (q : Bytes) (n : ℕ)
    → n + 1 < 2 ^ 64
    → bytes_le (q ++ to_be_bytes 8 (n + 1)) (q ++ to_be_bytes 8 n) ≡ false
successor_above q n room =
    bytes_le-append q q (to_be_bytes 8 (n + 1)) (to_be_bytes 8 n) refl
    ∙ if_true (list_eqb q q) _ _ (list_eqb_refl q)
    ∙ bytes_le-to_be_bytes 8 (n + 1) n (omega (arith, room)) (omega (arith, room))
    ∙ ground arith

pub long_key :
    (size : ℕ) (q : Bytes) (n : ℕ) (k : Bytes)
    → length q ≡ size
    → k ≡ q ++ to_be_bytes 8 n
    → leb (size + 8) (length k) ≡ true
long_key size q n k len e =
    let total : length k ≡ size + 8 =
      ap length e
      ∙ length-append q (to_be_bytes 8 n)
      ∙ omega (arith, len, length-to_be_bytes 8 n) in
    ground (arith, total)

module _ (size : ℕ) (read : Bytes → Option LogEntry) (m : Items) (log : IsLog size read m)
    (q : Bytes) (len : length q ≡ size) where
  -- The last row of a range has the prefix of the range.
  last_row :
      (last : Bytes × Bytes)
      → last_item (keep (row_range q 0) m) ≡ some last
      → (n : ℕ) × (n < 256 ^ 8) × (last.0 ≡ q ++ to_be_bytes 8 n)
  last_row last h =
      let r =
        last-All (IsRow size read) (keep (row_range q 0) m) last
          (All-keep (IsRow size read) (row_range q 0) m log.1) h in
      let inside =
        last-All (λ i. row_range q 0 i ≡ true) (keep (row_range q 0) m) last
          (keep-passes (row_range q 0) m) h in
      let same : list_eqb q r.prefix ≡ true =
        ground (arith, inside, within_row size read q 0 last len (omega arith) r) in
      (
        r.number,
        r.fits,
        r.key_is
            ∙ ap (λ (p : Bytes). p ++ to_be_bytes 8 r.number)
                (sym ((list_eqb_iff q r.prefix).0 same)),
      )

  -- The number of the next row fits, and its key is above all the rows of the range.
  pub next_is_above :
      NextFits size (last_item (keep (row_range q 0) m))
      → (next_after size (last_item (keep (row_range q 0) m)) < 256 ^ 8)
        × All
            (Below
              (row_range q 0)
              (q ++ to_be_bytes 8 (next_after size (last_item (keep (row_range q 0) m)))))
            m
  next_is_above fits = elim (Option-cases (last_item (keep (row_range q 0) m))) [
    | inl none_left ↦ rw none_left (
      omega arith,
      from_keep (row_range q 0) _ m (rw (last_item-none (keep (row_range q 0) m) none_left) tt),
    )
    | inr (last, h) ↦
        let (n, small, key_is) = last_row last h in
        let seq : seq_at size last.0 ≡ n =
          ap (seq_at size) key_is ∙ seq_at_key size q n len small in
        let long : leb (size + 8) (length last.0) ≡ true = long_key size q n last.0 len key_is in
        let room : n + 1 < 2 ^ 64 = rw seq at (rw h at fits) in
        let next : next_after size (some last) ≡ n + 1 = ground (arith, long, seq, room) in
        let greatest =
          last_is_greatest (keep (row_range q 0) m) last (keep-Ascending (row_range q 0) m log.0)
            h in
        let strict : bytes_le (q ++ to_be_bytes 8 (n + 1)) last.0 ≡ false =
          rw key_is (successor_above q n room) in
        rw (h, next)
          (
            omega (arith, room),
            from_keep (row_range q 0) _ m (All-below _ last.0 _ strict greatest),
          )
  ]
