-- ===== src/Node/Table.antt =====
-- The tables of the database, `redb`, which is not this program's: byte strings under byte strings.
-- `IsLawful` is what its documentation says: a table is sorted by key, with one value for a key.
pub mod Ranges
use bit_cord.Prelude.{
  ℕ, ◌≡◌, refl, sym, ap, ◌∙◌, Bool, true, false, ◌&&◌, not, Bytes, bytes_le, bytes_le_refl,
  bytes_le_trans, bytes_le_total, bytes_le_antisym, List, [], ◌∷◌, ◌++◌, Option, none, some, keep,
  All, All-keep, nat_eq, list_eq, list_eqb, list_eqb_iff, ◌==◌, if◌then◌else◌, arith, Bool-cases,
  inl, inr,
}
use bit_cord.Prelude.Map.{get}

abbrev pub Items : Type 0
Items = List (Bytes × Bytes)

-- `range(low..=high)` and `iter()` go in the order of the keys.
pub record Tables (T : Type 0) : Type 0 where
  pub empty : T
  pub insert : T → Bytes → Bytes → T
  pub remove : T → Bytes → T
  pub get : T → Bytes → Option Bytes
  pub range : T → Bytes → Bytes → Items
  pub iter : T → Items

unfoldable pub put : Bytes → Bytes → Items → Items
put k v [] = (k, v) ∷ []
put k v ((j, w) ∷ m) =
    let rest = put k v m in
    if list_eqb k j then (k, v) ∷ m else if bytes_le k j then (k, v) ∷ (j, w) ∷ m else (j, w) ∷ rest

abbrev pub other_key : Bytes → Bytes × Bytes → Bool
other_key k item = not (list_eqb k item.0)

abbrev pub within : Bytes → Bytes → Bytes × Bytes → Bool
within low high item = bytes_le low item.0 && bytes_le item.0 high

pub record IsLawful {T : Type 0} (R : Tables T) : Type 0 where
  pub iter-empty : R.iter R.empty ≡ []
  pub iter-insert : (t : T) (k v : Bytes) → R.iter (R.insert t k v) ≡ put k v (R.iter t)
  pub iter-remove : (t : T) (k : Bytes) → R.iter (R.remove t k) ≡ keep (other_key k) (R.iter t)
  pub get-iter : (t : T) (k : Bytes) → R.get t k ≡ get (R.iter t) k
  pub range-iter :
      (t : T) (low high : Bytes) → R.range t low high ≡ keep (within low high) (R.iter t)

-- Every key is above those before it.
abbrev pub Above : Bytes → Bytes × Bytes → Type 0
Above k item = bytes_le item.0 k ≡ false

abbrev pub Ascending : Items → Type 0
Ascending [] = Unit
Ascending (item ∷ m) = All (Above item.0) m × Ascending m

-- `next_back()`
abbrev pub last_item : Items → Option (Bytes × Bytes)
last_item [] = none
last_item (item ∷ []) = some item
last_item (item ∷ i ∷ m) = last_item (i ∷ m)

pub keep-Ascending : (p : Bytes × Bytes → Bool) (m : Items) → Ascending m → Ascending (keep p m)
keep-Ascending p [] h = tt
keep-Ascending p (i ∷ m) h = elim (Bool-cases (p i)) [
  | inl t ↦ rw t (All-keep (Above i.0) p m h.0, keep-Ascending p m h.1)
  | inr f ↦ rw f (keep-Ascending p m h.1)
]

Above-trans : (a b : Bytes) (m : Items) → bytes_le b a ≡ false → All (Above b) m → All (Above a) m
Above-trans a b [] h u = tt
Above-trans a b (i ∷ m) h u =
    (ground (arith, h, u.0, bytes_le_total a b, bytes_le_trans i.0 a b), Above-trans a b m h u.1)

put-Above :
    (a k v : Bytes) (m : Items) → bytes_le k a ≡ false → All (Above a) m → All (Above a) (put k v m)
unfolding put
put-Above a k v [] h u = (h, tt)
put-Above a k v ((j, w) ∷ m) h u = elim (Bool-cases (list_eqb k j)) [
  | inl t ↦ rw (put, t) (h, u.1)
  | inr f ↦ elim (Bool-cases (bytes_le k j)) [
    | inl l ↦ rw (put, f, l) (h, u)
    | inr g ↦ rw (put, f, g) (u.0, put-Above a k v m h u.1)
  ]
]

-- An insertion keeps the order.
pub put-Ascending : (k v : Bytes) (m : Items) → Ascending m → Ascending (put k v m)
unfolding put
put-Ascending k v [] h = (tt, tt)
put-Ascending k v ((j, w) ∷ m) h = elim (Bool-cases (list_eqb k j)) [
  | inl t ↦ rw (put, t, (list_eqb_iff k j).0 t) h
  | inr f ↦ elim (Bool-cases (bytes_le k j)) [
    | inl l ↦
        let strict : bytes_le j k ≡ false =
          ground (arith, f, l, bytes_le_antisym k j, list_eqb_iff k j) in
        rw (put, f, l) ((strict, Above-trans k j m strict h.0), h)
    | inr g ↦ rw (put, f, g) (put-Above j k v m g h.0, put-Ascending k v m h.1)
  ]
]
