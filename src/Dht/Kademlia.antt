-- ===== src/Dht/Kademlia.antt =====
-- crates/bitcord-core/src/dht/kademlia.rs: the iterative lookups. The remote calls are arguments: the
-- answer of the node at an address, `none` where the connection or the call fails. The calls of a
-- round run at once and their answers are read in the order of the batch. `found` is the list of the
-- nodes that were asked, and `visited` the set of their ids.
pub mod Lookup
pub mod Records
pub mod PeerInfo
use bit_cord.Prelude.{
  ℕ, zero, suc, Bool, true, false, not, Bytes, List, [], ◌∷◌, ◌++◌, Option, none, some, any, keep,
  take, drop, map, map_some, or_else, ◌==◌, nat_eq, list_eq, if◌then◌else◌,
}
use bit_cord.Prelude.Sort.{sort_by}
use bit_cord.Dht.NodeId.{NodeId}
use bit_cord.Dht.Routing.{
  NodeAddr, DhtState, CommunityPeerRecord, PeerInfoRecord, add_peer, closer, closest_peers,
  add_mailbox_record, lookup_community_peers, has_pk,
}

abbrev pub Peer : Type 0
Peer = NodeId × NodeAddr

-- The answer to `find_node`: closer peers, and the address of the mailbox if the node holds it.
abbrev pub FindNode : Type 0
FindNode = NodeAddr → Option (List Peer × Option NodeAddr)

abbrev pub alpha : ℕ
alpha = 3

abbrev pub max_rounds : ℕ
max_rounds = 8

-- `K_SEED` and `K_QUERY`
abbrev pub k_query : ℕ
k_query = 20

pub record Walk : Type 0 where
  pub state : DhtState
  pub to_visit : List Peer
  pub visited : List NodeId
  pub found : List Peer

abbrev pub is_visited : Walk → NodeId → Bool
is_visited w id = any (λ v. v == id) w.visited

abbrev pub start : DhtState → NodeId → Walk
start s target = record {
  state = s;
  to_visit = closest_peers s target k_query;
  visited = [];
  found = [];
}

-- `to_visit.drain(..to_visit.len().min(ALPHA)).filter(..)`
abbrev pub batch : Walk → List Peer
batch w = keep (λ (p : Peer). not (is_visited w p.0)) (take alpha w.to_visit)

abbrev pub ask_batch : Walk → Walk
ask_batch w = record w {
  to_visit = drop alpha w.to_visit;
  visited = w.visited ++ map (λ (p : Peer). p.0) (batch w);
  found = w.found ++ batch w;
}

-- The peers that an answer names.
unfoldable pub absorb_one : Walk → Peer → Walk
absorb_one w (id, addr) =
    if is_visited w id
    then w
    else record w { state = add_peer w.state id addr; to_visit = w.to_visit ++ (id, addr) ∷ [] }

unfoldable pub absorb : Walk → List Peer → Walk
absorb w [] = w
absorb w (p ∷ ps) = absorb (absorb_one w p) ps

-- `dedup_by_key`: of a run of entries with the same id, the first.
abbrev pub dedup_after : NodeId → List Peer → List Peer
dedup_after id [] = []
dedup_after id (p ∷ ps) =
    let same = dedup_after id ps in
    let other = dedup_after p.0 ps in if p.0 == id then same else p ∷ other

abbrev pub dedup : List Peer → List Peer
dedup [] = []
dedup (p ∷ ps) = p ∷ dedup_after p.0 ps

abbrev pub by_distance : NodeId → List Peer → List Peer
by_distance target ps = dedup (sort_by (closer target) ps)

abbrev pub reorder : NodeId → Walk → Walk
reorder target w = record w { to_visit = by_distance target w.to_visit }

abbrev pub is_empty : List Peer → Bool
is_empty [] = true
is_empty (p ∷ ps) = false

-- The mailbox that an answer names.
abbrev pub mailbox_of : Option (List Peer × Option NodeAddr) → Option NodeAddr
mailbox_of none = none
mailbox_of (some (closer_peers, mailbox)) = mailbox

module _ (find_node : FindNode) (target : NodeId) (now : ℕ) where
  -- One answer in `kademlia_lookup`, and the `rest` of them: a mailbox ends the lookup.
  abbrev pub after_answer :
      Walk
      → (Walk → Walk × Option NodeAddr)
      → Option (List Peer × Option NodeAddr)
      → Walk × Option NodeAddr
  after_answer w rest none = rest w
  after_answer w rest (some (closer_peers, none)) = rest (absorb w closer_peers)
  after_answer w rest (some (closer_peers, some addr)) =
      (record w { state = add_mailbox_record w.state now target addr }, some addr)

  unfoldable pub read_answers : Walk → List Peer → Walk × Option NodeAddr
  read_answers w [] = (w, none)
  read_answers w (p ∷ ps) = after_answer w (λ w'. read_answers w' ps) (find_node p.1)

  -- After the answers of a round: the result, or the other rounds.
  abbrev pub next_round :
      (Walk → Walk × Option NodeAddr) → Walk × Option NodeAddr → Walk × Option NodeAddr
  next_round again (w, some addr) = (w, some addr)
  next_round again (w, none) = again (reorder target w)

  -- The `for` loop, with the rounds that are left.
  unfoldable pub lookup_rounds : ℕ → Walk → Walk × Option NodeAddr
  lookup_rounds zero w = (w, none)
  lookup_rounds (suc n) w = elim (is_empty (batch w)) [
    | true ↦ (w, none)
    | false ↦ next_round (lookup_rounds n) (read_answers (ask_batch w) (batch w))
  ]

  unfoldable pub kademlia_lookup : DhtState → Walk × Option NodeAddr
  unfolding lookup_rounds
  kademlia_lookup s = lookup_rounds max_rounds (start s target)

module _ (find_node : FindNode) (target : NodeId) where
  -- The walk of the other two lookups, which pass over mailboxes.
  unfoldable pub absorb_answers : Walk → List Peer → Walk
  absorb_answers w [] = w
  absorb_answers w (p ∷ ps) = elim (find_node p.1) [
    | none ↦ absorb_answers w ps
    | some (closer_peers, mailbox) ↦ absorb_answers (absorb w closer_peers) ps
  ]

  unfoldable pub walk_rounds : ℕ → Walk → Walk
  walk_rounds zero w = w
  walk_rounds (suc n) w = elim (is_empty (batch w)) [
    | true ↦ w
    | false ↦ walk_rounds n (reorder target (absorb_answers (ask_batch w) (batch w)))
  ]

  -- The nodes that are asked in the second phase.
  abbrev pub closest_found : DhtState → List Peer
  closest_found s =
      take k_query (by_distance target (walk_rounds max_rounds (start s target)).found)

-- `if seen.insert(record.node_pk) { all.push(record) }`; the keys seen are those of the records kept.
unfoldable pub merge :
    List CommunityPeerRecord → List CommunityPeerRecord → List CommunityPeerRecord
merge all [] = all
merge all (r ∷ rs) = merge (if any (has_pk r.node_pk) all then all else all ++ r ∷ []) rs

-- The records of all answers, one after another.
abbrev pub answered :
    (NodeAddr → Option (List CommunityPeerRecord)) → List Peer → List CommunityPeerRecord
answered find_records [] = []
answered find_records (p ∷ ps) = or_else (find_records p.1) [] ++ answered find_records ps

unfoldable pub kademlia_find_community_peers :
    FindNode
    → (NodeAddr → Option (List CommunityPeerRecord))
    → DhtState
    → ℕ
    → NodeId
    → DhtState × List CommunityPeerRecord
kademlia_find_community_peers find_node find_records s unix community_pk =
    let w = walk_rounds find_node community_pk max_rounds (start s community_pk) in
    let asked = closest_found find_node community_pk s in
    let cached = lookup_community_peers w.state unix community_pk in
    (w.state, merge (merge [] (answered find_records asked)) cached)

abbrev first_some : List (Option PeerInfoRecord) → Option PeerInfoRecord
first_some [] = none
first_some (some r ∷ rs) = some r
first_some (none ∷ rs) = first_some rs

-- The second phase asks all nodes at once and takes the first record that comes back; `arrivals` are
-- the nodes that were asked, in the order in which their answers come.
unfoldable pub first_answer :
    (NodeAddr → Option (Option PeerInfoRecord)) → List Peer → Option PeerInfoRecord
first_answer find_info arrivals =
    first_some (map (λ (p : Peer). or_else (find_info p.1) none) arrivals)

unfoldable pub kademlia_find_peer_info :
    FindNode
    → (NodeAddr → Option (Option PeerInfoRecord))
    → (List Peer → List Peer)
    → DhtState
    → NodeId
    → DhtState × Option PeerInfoRecord
kademlia_find_peer_info find_node find_info arrive s peer_id =
    if is_empty (closest_peers s peer_id k_query) then (s, none) else (
      (walk_rounds find_node peer_id max_rounds (start s peer_id)).state,
      first_answer find_info (arrive (closest_found find_node peer_id s)),
    )
