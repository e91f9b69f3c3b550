-- ===== src/Dht/Kademlia/Records.antt =====
-- `kademlia_find_community_peers`: what becomes of the records of the answers and of the cache.
use bit_cord.Prelude.{
  ℕ, ◌≡◌, refl, Bool, false, Bytes, List, [], ◌∷◌, ◌++◌, Option, none, some, arith, inl, inr, any,
  any-append, find, is_some, Bool-cases, nat_eq, list_eq, bytes_eq_iff,
}
use bit_cord.Dht.Routing.{NodeAddr, DhtState, CommunityPeerRecord, has_pk, lookup_community_peers}
use bit_cord.Dht.Kademlia.{
  FindNode, max_rounds, start, walk_rounds, closest_found, answered, merge,
  kademlia_find_community_peers,
}

-- No two records are of the same node.
abbrev pub Distinct : List CommunityPeerRecord → Type 0
Distinct [] = Unit
Distinct (r ∷ rs) = (any (has_pk r.node_pk) rs ≡ false) × Distinct rs

abbrev or_some :
    Option CommunityPeerRecord → Option CommunityPeerRecord → Option CommunityPeerRecord
or_some none o = o
or_some (some r) o = some r

find-append :
    (p : CommunityPeerRecord → Bool) (xs ys : List CommunityPeerRecord)
    → find p (xs ++ ys) ≡ or_some (find p xs) (find p ys)
find-append p [] ys = refl
find-append p (x ∷ xs) ys = ground (arith, find-append p xs ys)

any-find :
    (p : CommunityPeerRecord → Bool) (xs : List CommunityPeerRecord)
    → any p xs ≡ is_some (find p xs)
any-find p [] = refl
any-find p (x ∷ xs) = ground (arith, any-find p xs)

has_pk-sym : (r q : CommunityPeerRecord) → has_pk r.node_pk q ≡ has_pk q.node_pk r
has_pk-sym r q = ground (arith, bytes_eq_iff q.node_pk r.node_pk, bytes_eq_iff r.node_pk q.node_pk)

Distinct-append :
    (xs : List CommunityPeerRecord) (r : CommunityPeerRecord)
    → any (has_pk r.node_pk) xs ≡ false
    → Distinct xs
    → Distinct (xs ++ r ∷ [])
Distinct-append [] r h d = (refl, tt)
Distinct-append (x ∷ xs) r h d = (
  ground (arith, any-append (has_pk x.node_pk) xs (r ∷ []), h, d.0, has_pk-sym r x),
  Distinct-append xs r (ground (arith, h)) d.1,
)

merge-Distinct : (all rs : List CommunityPeerRecord) → Distinct all → Distinct (merge all rs)
unfolding merge
merge-Distinct all [] d = d
merge-Distinct all (r ∷ rs) d = elim (Bool-cases (any (has_pk r.node_pk) all)) [
  | inl t ↦ rw t (merge-Distinct all rs d)
  | inr f ↦ rw f (merge-Distinct (all ++ r ∷ []) rs (Distinct-append all r f d))
]

-- A record is found after a merge where it is found in the two lists, the first one first.
find-merge :
    (k : Bytes) (all rs : List CommunityPeerRecord)
    → find (has_pk k) (merge all rs) ≡ or_some (find (has_pk k) all) (find (has_pk k) rs)
unfolding merge
find-merge k all [] = ground arith
find-merge k all (r ∷ rs) = elim (Bool-cases (any (has_pk r.node_pk) all)) [
  | inl t ↦
      rw t
        (ground (arith, t, find-merge k all rs, any-find (has_pk k) all, bytes_eq_iff r.node_pk k))
  | inr f ↦
      rw f (ground (arith, find-merge k (all ++ r ∷ []) rs, find-append (has_pk k) all (r ∷ [])))
]

-- The community's peers that a lookup returns are of different nodes, and the record of each node is
-- the first that the answers have of it, else the cached one.
pub find-kademlia_find_community_peers :
    (find_node : FindNode) (find_records : NodeAddr → Option (List CommunityPeerRecord))
    (s : DhtState) (unix : ℕ) (community_pk k : Bytes)
    → let asked = closest_found find_node community_pk s in
      let w = walk_rounds find_node community_pk max_rounds (start s community_pk) in
      let result = (kademlia_find_community_peers find_node find_records s unix community_pk).1 in
      Distinct result
      × (find (has_pk k) result
          ≡ find
              (has_pk k)
              (answered find_records asked ++ lookup_community_peers w.state unix community_pk))
unfolding kademlia_find_community_peers
find-kademlia_find_community_peers find_node find_records s unix community_pk k =
    let w = walk_rounds find_node community_pk max_rounds (start s community_pk) in
    let answers = answered find_records (closest_found find_node community_pk s) in
    let cached = lookup_community_peers w.state unix community_pk in
    (
      merge-Distinct (merge [] answers) cached (merge-Distinct [] answers tt),
      ground (
        arith,
        find-merge k (merge [] answers) cached,
        find-merge k [] answers,
        find-append (has_pk k) answers cached,
      ),
    )
