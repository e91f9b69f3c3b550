-- ===== src/Dht/NodeId/Bucket.antt =====
-- The bucket of a distance is the place of its highest bit: bucket `i` holds the distances from
-- `2 ^ i` up to, but not including, `2 ^ (i + 1)`.
use native.Mathlib.Numerals.{towards_suc}
use native.Mathlib.Nat.{pow-suc}
use bit_cord.Prelude.{
  ℕ, zero, suc, ◌+◌, ◌-◌, ◌*◌, ◌^◌, ◌≤◌, ◌<◌, ◌≡◌, ◌≢◌, refl, ap, Bytes, [], ◌∷◌, Option, none,
  some, length, All, nat_eqb, arith, Bool-cases, inl, inr, Option-cases,
}
use bit_cord.Dht.NodeId.Xor.{AllZero, distance_metric, distance-IsBytes}
use bit_cord.Dht.NodeId.{
  NodeId, IsId, distance, IsBytes, leading_zeros, bucket_index_from, bucket_index,
}

-- The number that an array stands for, its first byte the highest.
abbrev pub value : Bytes → ℕ
value [] = 0
value (b ∷ bs) = b * 256 ^ length bs + value bs

abbrev pub InBucket : Option ℕ → ℕ → Type 0
InBucket none v = v ≡ 0
InBucket (some i) v = (i < 256) × (2 ^ i ≤ v) × (v < 2 ^ (i + 1))

leading_zeros_bounds :
    (b : ℕ)
    → 0 < b
    → b < 256
    → (leading_zeros b ≤ 7) × (2 ^ (7 - leading_zeros b) ≤ b) × (b < 2 ^ (8 - leading_zeros b))
unfolding leading_zeros
leading_zeros_bounds b h k = ground arith

pow_eight : (s : ℕ) → 2 ^ (s + 8) ≡ 256 * 2 ^ s
pow_eight s = simp towards_suc (omega arith)

pow_split : (k m : ℕ) → 2 ^ (k + 8 * m) ≡ 2 ^ k * 256 ^ m
pow_split k zero = let e : k + 8 * 0 ≡ k = omega arith in rw e (omega arith)
pow_split k (suc m) =
    let e : k + 8 * suc m ≡ (k + 8 * m) + 8 = omega arith in
    rw (e, pow_eight, pow-suc) (omega (arith, ap (λ (t : ℕ). 256 * t) (pow_split k m)))

value-lt : (bs : Bytes) → All (λ b. b < 256) bs → value bs < 256 ^ length bs
value-lt [] h = omega arith
value-lt (b ∷ bs) h = rw pow-suc (grind (arith, value-lt bs h.1, h.0))

scale_lo : (p b w v : ℕ) → p ≤ b → p * w ≤ b * w + v
scale_lo p b w v h = grind arith

scale_hi : (b q w v : ℕ) → b < q → v < w → b * w + v < q * w
scale_hi b q w v h k = grind arith

-- A first byte that is not zero decides the bucket.
high_byte :
    (b m v : ℕ)
    → 0 < b
    → b < 256
    → v < 256 ^ m
    → m < 32
    → InBucket (some (8 * m + (7 - leading_zeros b))) (b * 256 ^ m + v)
high_byte b m v pos small tail room =
    let (lz, lo, hi) = leading_zeros_bounds b pos small in
    let k : ℕ = 7 - leading_zeros b in
    let e : 8 * m + k ≡ k + 8 * m = omega arith in
    let e' : k + 8 * m + 1 ≡ (8 - leading_zeros b) + 8 * m = omega arith in
    rw e (
      omega arith,
      rw pow_split (scale_lo _ b (256 ^ m) v lo),
      rw (e', pow_split) (scale_hi b _ (256 ^ m) v hi tail),
    )

bucket_index_from-InBucket :
    (idx : ℕ) (d : Bytes)
    → All (λ b. b < 256) d
    → idx + length d ≡ 32
    → InBucket (bucket_index_from idx d) (value d)
unfolding bucket_index_from
bucket_index_from-InBucket idx [] h n = refl
bucket_index_from-InBucket idx (b ∷ d) h n = elim (Bool-cases (nat_eqb b 0)) [
  | inl z ↦
      let zero_byte : b ≡ 0 = ground arith in
      let same : value (b ∷ d) ≡ value d = rw zero_byte (omega arith) in
      rw (z, same) (bucket_index_from-InBucket (idx + 1) d h.1 (omega arith))
  | inr nz ↦
      let place : 255 - (idx * 8 + leading_zeros b) ≡ 8 * length d + (7 - leading_zeros b) =
        omega (arith, (leading_zeros_bounds b (ground arith) h.0).0) in
      rw (nz, place)
        (high_byte b (length d) (value d) (ground arith) h.0 (value-lt d h.1) (omega arith))
]

-- The bucket index of a 32-byte distance is below 256, it is the place of the distance's highest
-- bit, and only the zero distance has none.
pub bucket_index-InBucket : (d : Bytes) → IsBytes 32 d → InBucket (bucket_index d) (value d)
unfolding bucket_index
bucket_index-InBucket d h = bucket_index_from-InBucket 0 d h.1 (omega (arith, h.0))

zero_of_scaled : (b m : ℕ) → b * 256 ^ m ≡ 0 → b ≡ 0
zero_of_scaled b zero h = omega arith
zero_of_scaled b (suc m) h =
    zero_of_scaled b m (omega (arith, ap (λ (t : ℕ). b * t) (pow-suc 256 m)))

AllZero-value : (d : Bytes) → value d ≡ 0 → AllZero d
AllZero-value [] h = tt
AllZero-value (b ∷ d) h = (zero_of_scaled b (length d) (omega arith), AllZero-value d (omega arith))

-- Two different identifiers have a bucket index, and it is below 256.
pub bucket_index-distance :
    (a b : NodeId)
    → IsId a
    → IsId b
    → a ≢ b
    → (i : ℕ) × (bucket_index (distance a b) ≡ some i) × (i < 256)
bucket_index-distance a b ha hb ne =
    let d = distance-IsBytes 32 a b ha hb in
    let place = bucket_index-InBucket (distance a b) d in
    elim (Option-cases (bucket_index (distance a b))) [
      | inl p ↦
          absurd (
            ne
              ((distance_metric a b b ha hb hb).1.0 (AllZero-value (distance a b) (rw p at place))))
      | inr (i, p) ↦ (i, p, (rw p at place).0)
    ]
