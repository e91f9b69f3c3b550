-- ===== src/Dht/NodeId/Xor.antt =====
-- The XOR distance is a metric on identifiers: it is symmetric, it vanishes only between equal
-- identifiers, and no two identifiers are equally far from a third.
use Prim.Native.Nat.{bit_xor}
use bit_cord.Prelude.{
  ltb, ℕ, zero, suc, ◌<◌, ◌≡◌, ◌↔◌, refl, sym, ap, subst, ◌∙◌, Bool, true, ◌&&◌, Bytes, [], ◌∷◌,
  length, All, nat_eqb, arith,
}
use bit_cord.Dht.NodeId.{NodeId, IsBytes, IsId, distance}

-- A test of every number below `k`, to be run once.
holds_below : (ℕ → Bool) → ℕ → Bool
holds_below test zero = true
holds_below test (suc k) = holds_below test k && test k

holds_below_at : (test : ℕ → Bool) (k i : ℕ) → i < k → holds_below test k ≡ true → test i ≡ true
unfolding holds_below
holds_below_at test zero i lt all = absurd (omega arith)
holds_below_at test (suc k) i lt all = ground (arith, holds_below_at test k i)

-- What the two-byte laws need, as one test of a pair of bytes.
cancels : ℕ → ℕ → Bool
cancels x y =
    nat_eqb (bit_xor x (bit_xor x y)) y
    && (nat_eqb (bit_xor x y) (bit_xor y x) && ltb (bit_xor x y) 256)

xor_table : holds_below (λ x. holds_below (cancels x) 256) 256 ≡ true
unfolding holds_below cancels
xor_table = refl

abbrev vanishes : ℕ → Bool
vanishes x = nat_eqb (bit_xor x x) 0 && nat_eqb (bit_xor x 0) x

self_table : holds_below vanishes 256 ≡ true
unfolding holds_below
self_table = refl

xor_laws :
    (x y : ℕ)
    → x < 256
    → y < 256
    → (bit_xor x (bit_xor x y) ≡ y) × (bit_xor x y ≡ bit_xor y x) × (bit_xor x y < 256)
unfolding cancels
xor_laws x y hx hy =
    let row = holds_below_at (λ x'. holds_below (cancels x') 256) 256 x hx xor_table in
    ground (arith, holds_below_at (cancels x) 256 y hy row)

xor_self : (x : ℕ) → x < 256 → (bit_xor x x ≡ 0) × (bit_xor x 0 ≡ x)
xor_self x hx = ground (arith, holds_below_at vanishes 256 x hx self_table)

abbrev AllBytes : Bytes → Type 0
AllBytes bs = All (λ b. b < 256) bs

distance_comm : (a b : NodeId) → AllBytes a → AllBytes b → distance a b ≡ distance b a
unfolding distance
distance_comm [] [] ha hb = refl
distance_comm [] (y ∷ b) ha hb = refl
distance_comm (x ∷ a) [] ha hb = refl
distance_comm (x ∷ a) (y ∷ b) ha hb = cc ((xor_laws x y ha.0 hb.0).1, distance_comm a b ha.1 hb.1)

distance_cancel :
    (a b : NodeId) → AllBytes a → AllBytes b → length a ≡ length b → distance a (distance a b) ≡ b
unfolding distance
distance_cancel [] [] ha hb h = refl
distance_cancel [] (y ∷ b) ha hb h = absurd (omega arith)
distance_cancel (x ∷ a) [] ha hb h = absurd (omega arith)
distance_cancel (x ∷ a) (y ∷ b) ha hb h =
    cc ((xor_laws x y ha.0 hb.0).0, distance_cancel a b ha.1 hb.1 (omega arith))

abbrev pub AllZero : Bytes → Type 0
AllZero bs = All (λ b. b ≡ 0) bs

distance_self : (a : NodeId) → AllBytes a → AllZero (distance a a)
unfolding distance
distance_self [] h = tt
distance_self (x ∷ a) h = ((xor_self x h.0).0, distance_self a h.1)

eq_of_distance_zero :
    (a b : NodeId) → AllBytes a → AllBytes b → length a ≡ length b → AllZero (distance a b) → a ≡ b
unfolding distance
eq_of_distance_zero [] [] ha hb h z = refl
eq_of_distance_zero [] (y ∷ b) ha hb h z = absurd (omega arith)
eq_of_distance_zero (x ∷ a) [] ha hb h z = absurd (omega arith)
eq_of_distance_zero (x ∷ a) (y ∷ b) ha hb h z =
    let same : bit_xor x 0 ≡ y = ap (bit_xor x) (sym z.0) ∙ (xor_laws x y ha.0 hb.0).0 in
    cc (same, (xor_self x ha.0).1, eq_of_distance_zero a b ha.1 hb.1 (omega arith) z.1)

pub distance-IsBytes : (n : ℕ) (a b : NodeId) → IsBytes n a → IsBytes n b → IsBytes n (distance a b)
unfolding distance
distance-IsBytes n [] [] ha hb = (ha.0, tt)
distance-IsBytes n [] (y ∷ b) ha hb = absurd (omega arith)
distance-IsBytes n (x ∷ a) [] ha hb = absurd (omega arith)
distance-IsBytes zero (x ∷ a) (y ∷ b) ha hb = absurd (omega arith)
distance-IsBytes (suc n) (x ∷ a) (y ∷ b) ha hb =
    let ih = distance-IsBytes n a b (omega arith, ha.1.1) (omega arith, hb.1.1) in
    (omega (arith, ih.0), ((xor_laws x y ha.1.0 hb.1.0).2, ih.1))

-- The distance between identifiers is symmetric, it is zero in every byte exactly between equal
-- identifiers, and two identifiers are equally far from a third exactly if they are equal.
pub distance_metric :
    (a b c : NodeId)
    → IsId a
    → IsId b
    → IsId c
    → (distance a b ≡ distance b a)
      × (AllZero (distance a b) ↔ (a ≡ b))
      × ((distance a b ≡ distance a c) ↔ (b ≡ c))
distance_metric a b c ha hb hc = (
  distance_comm a b ha.1 hb.1,
  (
    eq_of_distance_zero a b ha.1 hb.1 (omega arith),
    λ e. subst (λ x. AllZero (distance a x)) e (distance_self a ha.1),
  ),
  (
    λ e.
        sym (distance_cancel a b ha.1 hb.1 (omega arith))
        ∙ (ap (distance a) e ∙ distance_cancel a c ha.1 hc.1 (omega arith)),
    ap (distance a),
  ),
)
