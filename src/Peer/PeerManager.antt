-- ===== src/Peer/PeerManager.antt =====
-- crates/bitcord-core/src/network/peer_manager.rs: the connected peers and their reputations. The
-- reputation is an `i32` that starts at 50 and is clamped to [0, 100], so it is a natural number
-- here, and an adjustment is one upward or one downward.
pub mod Reputation
use bit_cord.Prelude.{
  ℕ, ◌+◌, ◌-◌, Bool, true, false, not, List, [], ◌∷◌, Option, none, some, String, string_eq, min,
  length, leb, ltb, ◌^◌, map_some, if◌then◌else◌,
}
use bit_cord.Prelude.Map.{Map, get, insert, remove, contains_key}
use bit_cord.Dht.Routing.{NodeAddr}

pub record PeerInfo : Type 0 where
  pub addresses : List NodeAddr
  pub latency : Option ℕ
  pub relay_capable : Bool
  pub reputation : ℕ
  pub connected_at : ℕ

pub record PeerManager : Type 0 where
  pub peers : Map String PeerInfo
  pub max_connections : ℕ

abbrev pub new_info : ℕ → List NodeAddr → PeerInfo
new_info now addresses = record {
  addresses = addresses;
  latency = none;
  relay_capable = false;
  reputation = 50;
  connected_at = now;
}

abbrev pub new : ℕ → PeerManager
new max_connections = record { peers = []; max_connections = max_connections }

-- `entry(id).or_insert_with(...)`
unfoldable pub peer_connected : PeerManager → ℕ → String → List NodeAddr → PeerManager
peer_connected pm now id addresses =
    if contains_key pm.peers id
    then pm
    else record pm { peers = insert pm.peers id (new_info now addresses) }

unfoldable pub peer_disconnected : PeerManager → String → PeerManager
peer_disconnected pm id = record pm { peers = remove pm.peers id }

-- `if let Some(info) = peers.get_mut(id) { ... }`
unfoldable pub update_info : PeerManager → String → (PeerInfo → PeerInfo) → PeerManager
update_info pm id f = elim (get pm.peers id) [
  | none ↦ pm
  | some info ↦ record pm { peers = insert pm.peers id (f info) }
]

unfoldable pub record_latency : PeerManager → String → ℕ → PeerManager
unfolding update_info
record_latency pm id latency = update_info pm id (λ info. record info { latency = some latency })

unfoldable pub set_relay_capable : PeerManager → String → Bool → PeerManager
unfolding update_info
set_relay_capable pm id capable =
    update_info pm id (λ info. record info { relay_capable = capable })

pub data Delta : Type 0 where
  up down : ℕ → Delta

-- `(reputation + delta).clamp(0, 100)`; a sum above the largest `i32` wraps to a negative number.
abbrev pub adjust : Delta → ℕ → ℕ
adjust (up d) r = if ltb (r + d) (2 ^ 31) then min (r + d) 100 else 0
adjust (down d) r = min (r - d) 100

unfoldable pub adjust_reputation : PeerManager → String → Delta → PeerManager
unfolding update_info
adjust_reputation pm id delta =
    update_info pm id (λ info. record info { reputation = adjust delta info.reputation })

unfoldable pub is_at_limit : PeerManager → Bool
is_at_limit pm = leb pm.max_connections (length pm.peers)

-- `min_by_key`: the first of the entries with the least reputation.
abbrev pub min_by_reputation : String × PeerInfo → List (String × PeerInfo) → String × PeerInfo
min_by_reputation best [] = best
min_by_reputation best (e ∷ rest) =
    if leb best.1.reputation e.1.reputation
    then min_by_reputation best rest
    else min_by_reputation e rest

abbrev lowest : List (String × PeerInfo) → Option (String × PeerInfo)
lowest [] = none
lowest (e ∷ rest) = some (min_by_reputation e rest)

unfoldable pub evict_candidate : PeerManager → Option String
evict_candidate pm =
    if leb (length pm.peers) pm.max_connections
    then none
    else map_some (λ (e : String × PeerInfo). e.0) (lowest pm.peers)
