-- ===== src/Node/Keys.antt =====
-- Big-endian numbers and the keys that are made of them: the order of the bytes is that of the numbers.
use bit_cord.Prelude.{
  bytes_le, ℕ, zero, suc, ◌+◌, ◌*◌, ◌/◌, ◌%◌, ◌^◌, ◌<◌, ◌≡◌, refl, sym, ap, ◌∙◌, true, Bytes, [],
  ◌∷◌, ◌++◌, length, leb, nat_eqb, nat_eq, list_eq, list_eqb, list_eqb_iff, list_eqb_refl,
  nat_eqb_iff, Bool-cases, inl, inr, if◌then◌else◌, arith, length-append,
}

-- `u64::to_be_bytes` for `w` bytes.
unfoldable pub to_be_bytes : ℕ → ℕ → Bytes
to_be_bytes zero n = []
to_be_bytes (suc w) n = to_be_bytes w (n / 256) ++ (n % 256) ∷ []

-- `u64::from_be_bytes`, on what has come before.
unfoldable pub from_be_bytes : ℕ → Bytes → ℕ
from_be_bytes n [] = n
from_be_bytes n (b ∷ bs) = from_be_bytes (n * 256 + b) bs

from_be_bytes-append :
    (n : ℕ) (bs : Bytes) (b : ℕ) → from_be_bytes n (bs ++ b ∷ []) ≡ from_be_bytes n bs * 256 + b
unfolding from_be_bytes
from_be_bytes-append n [] b = refl
from_be_bytes-append n (x ∷ bs) b = from_be_bytes-append (n * 256 + x) bs b

div_fits : (w n : ℕ) → n < 256 ^ suc w → n / 256 < 256 ^ w
div_fits w n h = omega (arith, h)

-- A number that fits is read back.
pub from_be_bytes-to_be_bytes : (w n : ℕ) → n < 256 ^ w → from_be_bytes 0 (to_be_bytes w n) ≡ n
unfolding to_be_bytes from_be_bytes
from_be_bytes-to_be_bytes zero n h = omega (arith, h)
from_be_bytes-to_be_bytes (suc w) n h =
    let rest = from_be_bytes-to_be_bytes w (n / 256) (div_fits w n h) in
    from_be_bytes-append 0 (to_be_bytes w (n / 256)) (n % 256) ∙ omega (arith, rest)

pub length-to_be_bytes : (w n : ℕ) → length (to_be_bytes w n) ≡ w
unfolding to_be_bytes
length-to_be_bytes zero n = refl
length-to_be_bytes (suc w) n = omega (
  arith,
  length-append (to_be_bytes w (n / 256)) ((n % 256) ∷ []),
  length-to_be_bytes w (n / 256),
)

-- Two texts that begin with parts of one length are ordered by these, and by the rest where they agree.
pub bytes_le-append :
    (a b x y : Bytes)
    → length a ≡ length b
    → bytes_le (a ++ x) (b ++ y) ≡ (if list_eqb a b then bytes_le x y else bytes_le a b)
unfolding bytes_le
bytes_le-append [] [] x y h = refl
bytes_le-append [] (d ∷ b) x y h = ground (arith, h)
bytes_le-append (c ∷ a) [] x y h = ground (arith, h)
bytes_le-append (c ∷ a) (d ∷ b) x y h = ground (arith, bytes_le-append a b x y (omega (arith, h)))

-- Numbers that fit have one text each.
pub list_eqb-to_be_bytes :
    (w n m : ℕ)
    → n < 256 ^ w
    → m < 256 ^ w
    → list_eqb (to_be_bytes w n) (to_be_bytes w m) ≡ nat_eqb n m
list_eqb-to_be_bytes w n m hn hm =
    let back : list_eqb (to_be_bytes w n) (to_be_bytes w m) ≡ true → n ≡ m = λ e.
      sym (from_be_bytes-to_be_bytes w n hn)
      ∙ ap (from_be_bytes 0) ((list_eqb_iff (to_be_bytes w n) (to_be_bytes w m)).0 e)
      ∙ from_be_bytes-to_be_bytes w m hm in
    elim (Bool-cases (nat_eqb n m)) [
      | inl t ↦
          rw ((nat_eqb_iff n m).0 t)
            (list_eqb_refl (to_be_bytes w m) ∙ sym ((nat_eqb_iff m m).1 refl))
      | inr f ↦ ground (arith, f, back)
    ]

by_digits :
    (n m : ℕ)
    → (if nat_eqb (n / 256) (m / 256)
        then bytes_le ((n % 256) ∷ []) ((m % 256) ∷ [])
        else leb (n / 256) (m / 256))
      ≡ leb n m
unfolding bytes_le
by_digits n m = ground arith

-- The order of numbers that fit.
pub bytes_le-to_be_bytes :
    (w n m : ℕ)
    → n < 256 ^ w
    → m < 256 ^ w
    → (bytes_le (to_be_bytes w n) (to_be_bytes w m) ≡ leb n m)
unfolding to_be_bytes bytes_le
bytes_le-to_be_bytes zero n m hn hm = ground (arith, hn, hm)
bytes_le-to_be_bytes (suc w) n m hn hm =
    let high = to_be_bytes w (n / 256) in
    let high' = to_be_bytes w (m / 256) in
    let same = list_eqb-to_be_bytes w (n / 256) (m / 256) (div_fits w n hn) (div_fits w m hm) in
    bytes_le-append high high' ((n % 256) ∷ []) ((m % 256) ∷ [])
      (length-to_be_bytes w (n / 256) ∙ sym (length-to_be_bytes w (m / 256)))
    ∙ rw (same, bytes_le-to_be_bytes w (n / 256) (m / 256) (div_fits w n hn) (div_fits w m hm))
        (by_digits n m)
