-- ===== src/Dht/Routing/Closest.antt =====
-- `closest_peers`: the nearest peers of the whole table, in order.
use bit_cord.Prelude.{
  bytes_le_total, bytes_le_trans, ℕ, ◌≡◌, true, List, ◌++◌, length, length-take, take-append-drop,
  All, drop, min, arith,
}
use mathlib.Core.List.{Perm}
use bit_cord.Prelude.Sort.{
  sort_by, sort_by-perm, IsSorted, sort_by-IsSorted, length-sort_by, take-IsSorted,
  take_before_drop,
}
use bit_cord.Dht.NodeId.{NodeId}
use bit_cord.Dht.Routing.{NodeAddr, DhtState, all_peers, closer, closest_peers}

-- The peers of the table that `closest_peers` leaves out.
pub left_out : DhtState → NodeId → ℕ → List (NodeId × NodeAddr)
left_out s target count = drop count (sort_by (closer target) (all_peers s.routing_table))

-- `closest_peers` returns `count` peers, or all if there are fewer, in the order of their distance
-- to the target; with those left out they are the peers of the table, each as often, and none that
-- is left out is nearer than one that is returned.
pub closest_peers_lem :
    (s : DhtState) (target : NodeId) (count : ℕ)
    → (length (closest_peers s target count) ≡ min count (length (all_peers s.routing_table)))
      × IsSorted (closer target) (closest_peers s target count)
      × Perm (closest_peers s target count ++ left_out s target count) (all_peers s.routing_table)
      × All
          (λ x. All (λ y. closer target x y ≡ true) (left_out s target count))
          (closest_peers s target count)
unfolding closest_peers left_out
closest_peers_lem s target count =
    let le = closer target in
    let peers = all_peers s.routing_table in
    let sorted =
      sort_by-IsSorted le (λ x y. bytes_le_total _ _) (λ x y z. bytes_le_trans _ _ _) peers in
    (
      omega (arith, length-take count (sort_by le peers), length-sort_by le peers),
      take-IsSorted le count (sort_by le peers) sorted,
      rw (take-append-drop) (sort_by-perm le peers),
      take_before_drop le count (sort_by le peers) sorted,
    )
