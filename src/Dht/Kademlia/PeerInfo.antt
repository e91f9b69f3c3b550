-- ===== src/Dht/Kademlia/PeerInfo.antt =====
-- `kademlia_find_peer_info`: a record is found exactly if a node that was asked has one, whatever the
-- order in which the answers come.
use bit_cord.Prelude.{
  ◌≡◌, refl, subst, false, List, [], ◌∷◌, Option, none, some, or_else, map, All, All-Elem, Elem,
  ◌↔◌, inl, inr, Option-cases,
}
use bit_cord.Dht.NodeId.{NodeId}
use bit_cord.Dht.Routing.{NodeAddr, DhtState, PeerInfoRecord, closest_peers}
use bit_cord.Dht.Kademlia.{
  Peer, FindNode, k_query, is_empty, first_some, closest_found, first_answer,
  kademlia_find_peer_info,
}

-- The two lists have the same elements.
abbrev pub SameElems : {A : Type 0} → List A → List A → Type 0
SameElems {A} xs ys = (a : A) → Elem a xs ↔ Elem a ys

All-each : {A : Type 0} (P : A → Type 0) (xs : List A) → ((a : A) → Elem a xs → P a) → All P xs
All-each P [] h = tt
All-each P (x ∷ xs) h = (h x (inl refl), All-each P xs (λ a m. h a (inr m)))

module _ (find_info : NodeAddr → Option (Option PeerInfoRecord)) where
  -- The record that a node would answer with.
  abbrev pub info_at : Peer → Option PeerInfoRecord
  info_at p = or_else (find_info p.1) none

  -- Without a record no node that was asked has one; a record is the answer of one of them.
  abbrev pub FoundAmong : List Peer → Option PeerInfoRecord → Type 0
  FoundAmong asked none = All (λ (p : Peer). info_at p ≡ none) asked
  FoundAmong asked (some r) = (p : Peer) × Elem p asked × (info_at p ≡ some r)

  FoundAmong-cons :
      (p : Peer) (ps : List Peer) (o rest : Option PeerInfoRecord)
      → info_at p ≡ o
      → FoundAmong ps rest
      → FoundAmong (p ∷ ps) (first_some (o ∷ rest ∷ []))
  FoundAmong-cons p ps (some r) rest e h = (p, inl refl, e)
  FoundAmong-cons p ps none none e h = (e, h)
  FoundAmong-cons p ps none (some r) e (q, m, f) = (q, inr m, f)

  first_some-cons :
      (o : Option PeerInfoRecord) (os : List (Option PeerInfoRecord))
      → first_some (o ∷ first_some os ∷ []) ≡ first_some (o ∷ os)
  first_some-cons (some r) os = refl
  first_some-cons none os = elim (Option-cases (first_some os)) [
    | inl e ↦ rw e refl
    | inr (r, e) ↦ rw e refl
  ]

  first_answer-FoundAmong : (ps : List Peer) → FoundAmong ps (first_answer find_info ps)
  unfolding first_answer
  first_answer-FoundAmong [] = tt
  first_answer-FoundAmong (p ∷ ps) =
      subst (FoundAmong (p ∷ ps)) (first_some-cons (info_at p) (map info_at ps)) (
        FoundAmong-cons p ps (info_at p) (first_answer find_info ps) refl
          (first_answer-FoundAmong ps))

  FoundAmong-same :
      (xs ys : List Peer) (o : Option PeerInfoRecord)
      → SameElems xs ys
      → FoundAmong xs o
      → FoundAmong ys o
  FoundAmong-same xs ys none same h =
      All-each _ ys (λ a m. All-Elem (λ (p : Peer). info_at p ≡ none) a xs h ((same a).1 m))
  FoundAmong-same xs ys (some r) same (q, m, e) = (q, (same q).0 m, e)

  -- From a table with peers, and whatever the order in which the answers of the nodes that were asked
  -- arrive, a lookup returns the record of one of these nodes, and none only if they all have none.
  pub kademlia_find_peer_info-FoundAmong :
      (find_node : FindNode) (arrive : List Peer → List Peer) (s : DhtState) (peer_id : NodeId)
      → SameElems (arrive (closest_found find_node peer_id s)) (closest_found find_node peer_id s)
      → is_empty (closest_peers s peer_id k_query) ≡ false
      → FoundAmong
          (closest_found find_node peer_id s)
          (kademlia_find_peer_info find_node find_info arrive s peer_id).1
  unfolding kademlia_find_peer_info
  kademlia_find_peer_info-FoundAmong find_node arrive s peer_id perm seeded = rw seeded (
      FoundAmong-same (arrive (closest_found find_node peer_id s))
        (closest_found find_node peer_id s)
        (first_answer find_info (arrive (closest_found find_node peer_id s))) perm
        (first_answer-FoundAmong (arrive (closest_found find_node peer_id s))))
