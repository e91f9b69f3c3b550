-- ===== src/Node/Table/Ranges.antt =====
-- What a range of a sorted table holds after an insertion, and its last item.
use bit_cord.Prelude.{
  ◌≡◌, refl, sym, ap, ◌∙◌, Bool, true, false, Bytes, bytes_le, bytes_le_refl, bytes_le_trans,
  bytes_le_total, [], ◌∷◌, ◌++◌, some, keep, or_else, All, nat_eq, list_eq, list_eqb, list_eqb_iff,
  arith, Bool-cases, inl, inr,
}
use bit_cord.Node.Table.{Items, put, Above, Ascending, last_item}

-- An insertion outside the range.
pub keep-put_outside :
    (p : Bytes × Bytes → Bool) (k v : Bytes) (m : Items)
    → ((w : Bytes) → p (k, w) ≡ false)
    → keep p (put k v m) ≡ keep p m
unfolding put
keep-put_outside p k v [] out = rw (out v) refl
keep-put_outside p k v ((j, w) ∷ m) out = elim (Bool-cases (list_eqb k j)) [
  | inl t ↦ let same = (list_eqb_iff k j).0 t in rw (put, t, out v, sym same, out w) refl
  | inr f ↦ elim (Bool-cases (bytes_le k j)) [
    | inl l ↦ rw (put, f, l, out v) refl
    | inr g ↦ rw (put, f, g, keep-put_outside p k v m out) refl
  ]
]

-- The items of the range are below the key.
abbrev pub Below : (Bytes × Bytes → Bool) → Bytes → Bytes × Bytes → Type 0
Below p k item = p item ≡ true → bytes_le k item.0 ≡ false

keep_none :
    (p : Bytes × Bytes → Bool) (k : Bytes) (m : Items)
    → All (λ (i : Bytes × Bytes). bytes_le k i.0 ≡ true) m
    → All (Below p k) m
    → keep p m ≡ []
keep_none p k [] a b = refl
keep_none p k (i ∷ m) a b = ground (arith, a.0, b.0, keep_none p k m a.1 b.1)

beyond :
    (k j : Bytes) (m : Items)
    → bytes_le k j ≡ true
    → All (Above j) m
    → All (λ (i : Bytes × Bytes). bytes_le k i.0 ≡ true) m
beyond k j [] h a = tt
beyond k j (i ∷ m) h a =
    (ground (arith, h, a.0, bytes_le_total i.0 j, bytes_le_trans k j i.0), beyond k j m h a.1)

-- An insertion in the range, above all that the range has.
pub keep-put_last :
    (p : Bytes × Bytes → Bool) (k v : Bytes) (m : Items)
    → ((w : Bytes) → p (k, w) ≡ true)
    → Ascending m
    → All (Below p k) m
    → keep p (put k v m) ≡ keep p m ++ (k, v) ∷ []
unfolding put
keep-put_last p k v [] here up below = rw (here v) refl
keep-put_last p k v ((j, w) ∷ m) here up below = elim (Bool-cases (list_eqb k j)) [
  | inl t ↦
      let same = (list_eqb_iff k j).0 t in
      let at_j : p (j, w) ≡ true = rw (sym same) (here w) in
      let equal : bytes_le k j ≡ true = rw same (bytes_le_refl j) in
      ground (arith, below.0 at_j, equal)
  | inr f ↦ elim (Bool-cases (bytes_le k j)) [
    | inl l ↦
        let rest : keep p m ≡ [] = keep_none p k m (beyond k j m l up.0) below.1 in
        let out : p (j, w) ≡ false = ground (arith, below.0, l) in
        rw (put, f, l, here v, out, rest) refl
    | inr g ↦ rw (put, f, g) (ground (arith, keep-put_last p k v m here up.1 below.1))
  ]
]

-- The last item of a sorted list is not below any other.
pub last_is_greatest :
    (m : Items) (last : Bytes × Bytes)
    → Ascending m
    → last_item m ≡ some last
    → All (λ (i : Bytes × Bytes). bytes_le i.0 last.0 ≡ true) m
last_is_greatest [] last up h = tt
last_is_greatest (i ∷ []) last up h =
    (ap (λ o. bytes_le i.0 (or_else o last).0) (sym h) ∙ bytes_le_refl i.0, tt)
last_is_greatest (i ∷ j ∷ m) last up h =
    let rest = last_is_greatest (j ∷ m) last up.1 h in
    (ground (arith, up.0.0, rest.0, bytes_le_total i.0 j.0, bytes_le_trans i.0 j.0 last.0), rest)
