-- ===== src/Tests/Dht.antt =====
-- A small network of 32-byte identifiers.
use bit_cord.Prelude.{
  ℕ, zero, suc, ◌≢◌, ◌≤◌, ◌<◌, refl, ap, Bytes, List, [], ◌∷◌, Option, none, some, arith, nat_eq,
  list_eq, length, nat_eqb, if◌then◌else◌,
}
use bit_cord.Dht.NodeId.{NodeId, IsId, IsBytes}
use bit_cord.Dht.Routing.{
  NodeAddr, PeerInfoRecord, CommunityPeerRecord, DhtState, new, announce_community_peer,
}
use bit_cord.Dht.Routing.Buckets.{IsRouted, meet, meet-new-IsRouted}
use bit_cord.Dht.Routing.Announce.{announcement}
use bit_cord.Dht.Kademlia.{Peer, FindNode, kademlia_lookup}
use bit_cord.Dht.Kademlia.Lookup.{Answers, kademlia_lookup-Answers}
use bit_cord.Dht.Kademlia.PeerInfo.{SameElems}

abbrev fill : ℕ → ℕ → Bytes
fill zero b = []
fill (suc n) b = b ∷ fill n b

fill-IsBytes : (n b : ℕ) → b < 256 → IsBytes n (fill n b)
fill-IsBytes zero b h = (refl, tt)
fill-IsBytes (suc n) b h = (ap suc (fill-IsBytes n b h).0, (h, (fill-IsBytes n b h).1))

abbrev own_id : NodeId
own_id = fill 32 1

abbrev near_id : NodeId
near_id = fill 32 3

abbrev far_id : NodeId
far_id = fill 32 200

own_id-IsId : IsId own_id
own_id-IsId = fill-IsBytes 32 1 (omega arith)

near_id-IsId : IsId near_id
near_id-IsId = fill-IsBytes 32 3 (omega arith)

far_id-IsId : IsId far_id
far_id-IsId = fill-IsBytes 32 200 (omega arith)

abbrev addr : ℕ → NodeAddr
addr port = record { ip = 10 ∷ 0 ∷ 0 ∷ 1 ∷ []; port = port }

abbrev peers : List Peer
peers = (near_id, addr 1) ∷ (far_id, addr 2) ∷ []

abbrev fresh : DhtState
fresh = new own_id none

abbrev met : DhtState
met = meet fresh peers

fresh-IsRouted : IsRouted fresh
fresh-IsRouted = meet-new-IsRouted own_id none []

own_id≢near_id : own_id ≢ near_id
own_id≢near_id e = ground (arith, e)

meet-new-IsRouted_example : IsRouted met
meet-new-IsRouted_example = meet-new-IsRouted own_id none peers

abbrev announced : DhtState
announced = announce_community_peer fresh 100 far_id near_id (addr 1)

-- The node at port 1 knows that the mailbox is at port 7; the others do not answer.
abbrev network : FindNode
network a = if nat_eqb a.port 1 then some ([], some (addr 7)) else none

kademlia_lookup-Answers_example :
    (length (kademlia_lookup network far_id 50 met).0.found ≤ 24)
    × Answers network far_id 50
        (kademlia_lookup network far_id 50 met).0.found
        met.mailboxes
        (kademlia_lookup network far_id 50 met).0.state.mailboxes
        (kademlia_lookup network far_id 50 met).1
kademlia_lookup-Answers_example = kademlia_lookup-Answers network far_id 50 met

abbrev records : NodeAddr → Option (List CommunityPeerRecord)
records a = some (announcement 90 near_id a ∷ [])

abbrev infos : NodeAddr → Option (Option PeerInfoRecord)
infos a =
    if nat_eqb a.port 2
    then some
        (some (record { x25519_pk = far_id; addr = a; announced_at = 90; display_name = "far" }))
    else none

-- The answers come in the order of the calls.
abbrev in_order : List Peer → List Peer
in_order ps = ps

in_order-SameElems : (ps : List Peer) → SameElems (in_order ps) ps
in_order-SameElems ps a = (λ m. m, λ m. m)
