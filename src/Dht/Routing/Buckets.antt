-- ===== src/Dht/Routing/Buckets.antt =====
-- The invariant of the routing table: 256 buckets of at most `K` peers, in each bucket only peers at
-- its distance, and no peer twice.
use bit_cord.Prelude.{
  ℕ, zero, suc, ◌+◌, ◌≤◌, ◌<◌, ◌≡◌, ◌≢◌, refl, subst, sym, false, List, [], ◌∷◌, ◌++◌, Option, none,
  some, length, length-append, All, All-append, Elem, Elem-append_left, Elem-append_right, leb,
  ◌==◌, nat_eq, list_eq, bytes_eq_iff, inl, inr, arith, Option-cases, Bool-cases,
}
use bit_cord.Dht.NodeId.{NodeId, IsId, distance, bucket_index}
use bit_cord.Dht.NodeId.Bucket.{bucket_index-distance}
use bit_cord.Dht.Routing.{
  NodeAddr, KBucket, bucket_size, position, remove_at, room_for, upsert, DhtState, empty_buckets,
  new, update_at, add_peer, all_peers,
}

abbrev pub DistinctIds : KBucket → Type 0
DistinctIds [] = Unit
DistinctIds (e ∷ es) = (position e.0 es ≡ none) × DistinctIds es

-- `e` belongs into bucket `i` of the node `own`.
abbrev pub BelongsTo : NodeId → ℕ → NodeId × NodeAddr → Type 0
BelongsTo own i e = bucket_index (distance own e.0) ≡ some i

pub record IsBucket (own : NodeId) (i : ℕ) (es : KBucket) : Type 0 where
  pub bounded : length es ≤ bucket_size
  pub distinct : DistinctIds es
  pub placed : All (BelongsTo own i) es

-- The buckets from index `i` on.
abbrev pub BucketsFrom : NodeId → ℕ → List KBucket → Type 0
BucketsFrom own i [] = Unit
BucketsFrom own i (b ∷ bs) = IsBucket own i b × BucketsFrom own (suc i) bs

pub record IsRouted (s : DhtState) : Type 0 where
  pub size : length s.routing_table ≡ 256
  pub buckets : BucketsFrom s.node_id 0 s.routing_table

remove_at-All :
    (P : NodeId × NodeAddr → Type 0) (i : ℕ) (es : KBucket) → All P es → All P (remove_at i es)
remove_at-All P i [] h = tt
remove_at-All P zero (e ∷ es) h = h.1
remove_at-All P (suc i) (e ∷ es) h = (h.0, remove_at-All P i es h.1)

position-remove_at :
    (j : NodeId) (i : ℕ) (es : KBucket) → position j es ≡ none → position j (remove_at i es) ≡ none
position-remove_at j i [] h = refl
position-remove_at j zero (e ∷ es) h = ground arith
position-remove_at j (suc i) (e ∷ es) h = ground (arith, position-remove_at j i es)

remove_at-DistinctIds : (i : ℕ) (es : KBucket) → DistinctIds es → DistinctIds (remove_at i es)
remove_at-DistinctIds i [] h = tt
remove_at-DistinctIds zero (e ∷ es) h = h.1
remove_at-DistinctIds (suc i) (e ∷ es) h =
    (position-remove_at e.0 i es h.0, remove_at-DistinctIds i es h.1)

-- The removed peer is gone, and one entry is removed.
remove_found :
    (id : NodeId) (i : ℕ) (es : KBucket)
    → DistinctIds es
    → position id es ≡ some i
    → (position id (remove_at i es) ≡ none) × (suc (length (remove_at i es)) ≡ length es)
remove_found id i [] d h = cc
remove_found id zero (e ∷ es) d h = elim (Bool-cases (e.0 == id)) [
  | inl same ↦ (subst (λ x. position x es ≡ none) ((bytes_eq_iff e.0 id).0 same) d.0, refl)
  | inr other ↦ ground arith
]
remove_found id (suc i) (e ∷ es) d h = ground (arith, remove_found id i es d.1)

position-append :
    (j id : NodeId) (addr : NodeAddr) (es : KBucket)
    → position j es ≡ none
    → (id == j) ≡ false
    → position j (es ++ (id, addr) ∷ []) ≡ none
position-append j id addr [] h ne = ground arith
position-append j id addr (e ∷ es) h ne = ground (arith, position-append j id addr es)

append-DistinctIds :
    (id : NodeId) (addr : NodeAddr) (es : KBucket)
    → DistinctIds es
    → position id es ≡ none
    → DistinctIds (es ++ (id, addr) ∷ [])
append-DistinctIds id addr [] d h = (refl, tt)
append-DistinctIds id addr (e ∷ es) d h =
    let other : (id == e.0) ≡ false = ground (arith, bytes_eq_iff e.0 id, bytes_eq_iff id e.0) in
    (position-append e.0 id addr es d.0 other, append-DistinctIds id addr es d.1 (ground arith))

module _ (own : NodeId) (i : ℕ) (id : NodeId) (addr : NodeAddr) where
  push-IsBucket :
      (es : KBucket)
      → IsBucket own i es
      → position id es ≡ none
      → length es < bucket_size
      → BelongsTo own i (id, addr)
      → IsBucket own i (es ++ (id, addr) ∷ [])
  push-IsBucket es h absent room place = record {
    bounded = omega (arith, length-append es ((id, addr) ∷ []));
    distinct = append-DistinctIds id addr es h.distinct absent;
    placed = All-append (BelongsTo own i) es _ h.placed (place, tt);
  }

  remove_at-IsBucket :
      (n : ℕ) (es : KBucket)
      → IsBucket own i es
      → length (remove_at n es) ≤ length es
      → IsBucket own i (remove_at n es)
  remove_at-IsBucket n es h le = record {
    bounded = omega (arith, h.bounded);
    distinct = remove_at-DistinctIds n es h.distinct;
    placed = remove_at-All (BelongsTo own i) n es h.placed;
  }

  length-remove_first : (es : KBucket) → 0 < length es → suc (length (remove_at 0 es)) ≡ length es
  length-remove_first [] h = elim h [ ]
  length-remove_first (e ∷ es) h = refl

  upsert-IsBucket :
      (es : KBucket)
      → IsBucket own i es
      → BelongsTo own i (id, addr)
      → IsBucket own i (upsert es id addr)
  unfolding upsert
  upsert-IsBucket es h place = elim (Option-cases (position id es)) [
    | inr (n, p) ↦
        let (gone, shorter) = remove_found id n es h.distinct p in
        rw (p, room_for)
          (push-IsBucket (remove_at n es) (remove_at-IsBucket n es h (omega arith)) gone
            (omega (arith, h.bounded)) place)
    | inl p ↦ elim (Bool-cases (leb bucket_size (length es))) [
      | inl full ↦
          let full' : bucket_size ≤ length es = ground arith in
          let shorter = length-remove_first es (omega arith) in
          rw (p, room_for, full)
            (push-IsBucket (remove_at 0 es) (remove_at-IsBucket 0 es h (omega arith))
              (position-remove_at id 0 es p) (omega (arith, h.bounded)) place)
      | inr room ↦
          let room' : length es < bucket_size = ground arith in
          rw (p, room_for, room) (push-IsBucket es h p room' place)
    ]
  ]

update_at-BucketsFrom :
    (own : NodeId) (f : KBucket → KBucket) (k i : ℕ) (bs : List KBucket)
    → ((b : KBucket) → IsBucket own (k + i) b → IsBucket own (k + i) (f b))
    → BucketsFrom own k bs
    → BucketsFrom own k (update_at i f bs)
update_at-BucketsFrom own f k i [] keep h = tt
update_at-BucketsFrom own f k zero (b ∷ bs) keep h =
    let e : k + 0 ≡ k = omega arith in
    (subst (λ n. IsBucket own n (f b)) e (keep b (subst (λ n. IsBucket own n b) (sym e) h.0)), h.1)
update_at-BucketsFrom own f k (suc i) (b ∷ bs) keep h =
    let e : k + suc i ≡ suc k + i = omega arith in
    (
      h.0,
      update_at-BucketsFrom own f (suc k) i bs
          (subst (λ n. (x : KBucket) → IsBucket own n x → IsBucket own n (f x)) e keep) h.1,
    )

length-update_at :
    (f : KBucket → KBucket) (i : ℕ) (bs : List KBucket) → length (update_at i f bs) ≡ length bs
length-update_at f i [] = refl
length-update_at f zero (b ∷ bs) = refl
length-update_at f (suc i) (b ∷ bs) = omega (arith, length-update_at f i bs)

-- `add_peer` keeps the routing table well formed, whatever the identifier and the address.
pub add_peer-IsRouted :
    (s : DhtState) (id : NodeId) (addr : NodeAddr) → IsRouted s → IsRouted (add_peer s id addr)
unfolding add_peer
add_peer-IsRouted s id addr h = elim (Bool-cases (id == s.node_id)) [
  | inl self ↦ rw (self, add_peer) h
  | inr other ↦ elim (Option-cases (bucket_index (distance s.node_id id))) [
    | inl p ↦ rw (other, p, add_peer) h
    | inr (i, p) ↦
        let f : KBucket → KBucket = λ b. upsert b id addr in
        rw (other, p, add_peer)
          (record {
            size = omega (arith, length-update_at f i s.routing_table, h.size);
            buckets =
                update_at-BucketsFrom s.node_id f 0 i s.routing_table
                  (λ b hb.
                    subst (λ n. IsBucket s.node_id n (f b)) (omega arith)
                      (upsert-IsBucket s.node_id i id addr b
                        (subst (λ n. IsBucket s.node_id n b) (omega arith) hb) p))
                  h.buckets;
          })
  ]
]

empty_buckets-BucketsFrom : (own : NodeId) (k n : ℕ) → BucketsFrom own k (empty_buckets n)
empty_buckets-BucketsFrom own k zero = tt
empty_buckets-BucketsFrom own k (suc n) = (
  record { bounded = omega arith; distinct = tt; placed = tt },
  empty_buckets-BucketsFrom own (suc k) n,
)

-- The identifiers and addresses that a node meets, in order.
abbrev pub meet : DhtState → List (NodeId × NodeAddr) → DhtState
meet s [] = s
meet s ((id, addr) ∷ rest) = meet (add_peer s id addr) rest

meet-IsRouted :
    (s : DhtState) (peers : List (NodeId × NodeAddr)) → IsRouted s → IsRouted (meet s peers)
meet-IsRouted s [] h = h
meet-IsRouted s ((id, addr) ∷ rest) h =
    meet-IsRouted (add_peer s id addr) rest (add_peer-IsRouted s id addr h)

new-IsRouted : (own : NodeId) (self : Option NodeAddr) → IsRouted (new own self)
unfolding new
new-IsRouted own self = record { size = refl; buckets = empty_buckets-BucketsFrom own 0 256 }

-- Whatever peers a fresh node meets, in whatever order and however often, its routing table has 256
-- buckets of at most 20 peers, each peer in the bucket of its distance and in it once.
pub meet-new-IsRouted :
    (own : NodeId) (self : Option NodeAddr) (peers : List (NodeId × NodeAddr))
    → IsRouted (meet (new own self) peers)
meet-new-IsRouted own self peers = meet-IsRouted (new own self) peers (new-IsRouted own self)

update_at-Elem :
    (e : NodeId × NodeAddr) (f : KBucket → KBucket) (i : ℕ) (bs : List KBucket)
    → i < length bs
    → ((b : KBucket) → Elem e (f b))
    → Elem e (all_peers (update_at i f bs))
update_at-Elem e f i [] h g = elim h [ ]
update_at-Elem e f zero (b ∷ bs) h g = Elem-append_left e (f b) (all_peers bs) (g b)
update_at-Elem e f (suc i) (b ∷ bs) h g =
    Elem-append_right e b (all_peers (update_at i f bs)) (update_at-Elem e f i bs (omega arith) g)

upsert-Elem : (es : KBucket) (id : NodeId) (addr : NodeAddr) → Elem (id, addr) (upsert es id addr)
unfolding upsert
upsert-Elem es id addr = Elem-append_right (id, addr) (room_for es id) ((id, addr) ∷ []) (inl refl)

-- A peer with another identifier than the node's own is in the table once it is added, with the
-- address it was added with, also where its bucket was full or held it with another address.
pub add_peer_found :
    (s : DhtState) (id : NodeId) (addr : NodeAddr)
    → IsRouted s
    → IsId s.node_id
    → IsId id
    → id ≢ s.node_id
    → Elem (id, addr) (all_peers (add_peer s id addr).routing_table)
unfolding add_peer
add_peer_found s id addr h own_ok id_ok ne =
    let other : (id == s.node_id) ≡ false = ground (arith, bytes_eq_iff id s.node_id) in
    let (i, p, small) = bucket_index-distance s.node_id id own_ok id_ok (λ e. ne (sym e)) in
    rw (other, p, add_peer)
      (update_at-Elem (id, addr) (λ b. upsert b id addr) i s.routing_table (omega (arith, h.size))
        (λ b. upsert-Elem b id addr))
