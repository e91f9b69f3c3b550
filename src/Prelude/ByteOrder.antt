-- ===== src/Prelude/ByteOrder.antt =====
-- The order of byte strings, which Rust's arrays and slices have.
use Prim.Native.Nat.{compare, Ordering}
use mathlib.Core.Path.{◌≡◌, refl}
use mathlib.Core.Logic.{◌⊎◌, inl, inr}
use mathlib.Core.Bool.{Bool, true, false}
use mathlib.Core.List.{[], ◌∷◌}
use native.Mathlib.Omega.{arith}
use bit_cord.Prelude.Tests.{Bytes}

-- Arrays are ordered lexicographically.
unfoldable pub bytes_le : Bytes → Bytes → Bool
bytes_le [] b = true
bytes_le (x ∷ a) [] = false
bytes_le (x ∷ a) (y ∷ b) =
    let rest = bytes_le a b in
    elim (compare x y) [ Ordering.lt ↦ true | Ordering.gt ↦ false | Ordering.eq ↦ rest ]

pub bytes_le_refl : (a : Bytes) → bytes_le a a ≡ true
unfolding bytes_le
bytes_le_refl [] = refl
bytes_le_refl (x ∷ a) = ground (arith, bytes_le_refl a)

pub bytes_le_total : (a b : Bytes) → (bytes_le a b ≡ true) ⊎ (bytes_le b a ≡ true)
unfolding bytes_le
bytes_le_total [] b = inl refl
bytes_le_total (x ∷ a) [] = inr refl
bytes_le_total (x ∷ a) (y ∷ b) = ground (arith, bytes_le_total a b)

pub bytes_le_trans :
    (a b c : Bytes) → bytes_le a b ≡ true → bytes_le b c ≡ true → bytes_le a c ≡ true
unfolding bytes_le
bytes_le_trans [] b c h k = refl
bytes_le_trans (x ∷ a) [] c h k = ground arith
bytes_le_trans (x ∷ a) (y ∷ b) [] h k = ground arith
bytes_le_trans (x ∷ a) (y ∷ b) (z ∷ c) h k = ground (arith, bytes_le_trans a b c)

pub bytes_le_antisym : (a b : Bytes) → bytes_le a b ≡ true → bytes_le b a ≡ true → a ≡ b
unfolding bytes_le
bytes_le_antisym [] [] h k = refl
bytes_le_antisym [] (y ∷ b) h k = ground arith
bytes_le_antisym (x ∷ a) [] h k = ground arith
bytes_le_antisym (x ∷ a) (y ∷ b) h k = ground (arith, bytes_le_antisym a b)
