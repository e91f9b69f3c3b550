-- ===== src/Dht/NodeId.antt =====
-- crates/bitcord-dht/src/routing.rs: `NodeId`, its XOR distance and the bucket of a distance. A
-- `[u8; 32]` is a list of bytes; `IsId` says that it is one.
pub mod Xor
pub mod Bucket
use Prim.Native.Nat.{bit_xor}
use bit_cord.Prelude.{
  ℕ, ◌+◌, ◌-◌, ◌*◌, ◌<◌, ◌≡◌, Bool, true, false, Bytes, List, [], ◌∷◌, Option, none, some, length,
  All, leb, nat_eqb, if◌then◌else◌,
}

abbrev pub NodeId : Type 0
NodeId = Bytes

-- A byte array of the given size.
abbrev pub IsBytes : ℕ → Bytes → Type 0
IsBytes n bs = (length bs ≡ n) × All (λ b. b < 256) bs

abbrev pub IsId : NodeId → Type 0
IsId = IsBytes 32

-- The loop over the 32 bytes.
unfoldable pub distance : NodeId → NodeId → Bytes
distance (x ∷ a) (y ∷ b) = bit_xor x y ∷ distance a b
distance [] b = []
distance (x ∷ a) [] = []

-- `u8::leading_zeros`
unfoldable pub leading_zeros : ℕ → ℕ
leading_zeros b =
    if leb 128 b
    then 0
    else if leb 64 b
    then 1
    else if leb 32 b
    then 2
    else if leb 16 b
    then 3
    else if leb 8 b
    then 4
    else if leb 4 b
    then 5
    else if leb 2 b
    then 6
    else if leb 1 b
    then 7
    else 8

bucket_index_from : ℕ → Bytes → Option ℕ
bucket_index_from byte_idx [] = none
bucket_index_from byte_idx (byte ∷ bytes) =
    let rest = bucket_index_from (byte_idx + 1) bytes in
    if nat_eqb byte 0 then rest else some (255 - (byte_idx * 8 + leading_zeros byte))

unfoldable pub bucket_index : Bytes → Option ℕ
unfolding bucket_index_from leading_zeros
bucket_index dist = bucket_index_from 0 dist
