-- ===== src/Dht/Routing.antt =====
-- crates/bitcord-dht/src/routing.rs: `KBucket` and `DhtState`. The clocks are arguments: `now` is
-- the monotonic clock (`Instant::now`), `unix` the wall clock in seconds (`unix_now`). Each method
-- holds its lock for its whole body, so it is one step on the state.
pub mod Buckets
pub mod Closest
pub mod Expiry
pub mod Announce
use bit_cord.Prelude.{
  bytes_le, bytes_le_total, bytes_le_trans, ℕ, zero, suc, ◌+◌, ◌-◌, Bool, true, false, not, Bytes,
  String, List, [], ◌∷◌, ◌++◌, Option, none, some, length, take, find, keep, update_first, or_else,
  map, leb, ltb, ◌==◌, if◌then◌else◌, nat_eq, list_eq, map_some, is_some,
}
use bit_cord.Prelude.Map.{Map, get, insert, retain, map_values, filter_value}
use bit_cord.Prelude.Sort.{sort_by}
use bit_cord.Dht.NodeId.{NodeId, distance, bucket_index}

-- addr.rs: the IP address is its bytes.
pub record NodeAddr : Type 0 where
  pub ip : Bytes
  pub port : ℕ

-- `K`
abbrev pub bucket_size : ℕ
bucket_size = 20

-- In the unit of the monotonic clock, nanoseconds.
abbrev pub mailbox_ttl : ℕ
mailbox_ttl = 86400000000000

abbrev pub community_peer_ttl_secs : ℕ
community_peer_ttl_secs = 3600

abbrev pub peer_info_ttl_secs : ℕ
peer_info_ttl_secs = 86400

pub record MailboxRecord : Type 0 where
  pub addr : NodeAddr
  pub expires_at : ℕ

pub record CommunityPeerRecord : Type 0 where
  pub node_pk : Bytes
  pub addr : NodeAddr
  pub announced_at : ℕ

pub record PeerInfoRecord : Type 0 where
  pub x25519_pk : Bytes
  pub addr : NodeAddr
  pub announced_at : ℕ
  pub display_name : String

abbrev pub KBucket : Type 0
KBucket = List (NodeId × NodeAddr)

-- `entries.iter().position(..)` and `entries.remove(pos)`
abbrev pub position : NodeId → KBucket → Option ℕ
position id [] = none
position id (e ∷ es) =
    let rest = map_some suc (position id es) in if e.0 == id then some 0 else rest

abbrev pub remove_at : ℕ → KBucket → KBucket
remove_at i [] = []
remove_at zero (e ∷ es) = es
remove_at (suc i) (e ∷ es) = e ∷ remove_at i es

-- The first two branches of `upsert`: the peer's old entry, or the oldest of a full bucket, goes.
room_for : KBucket → NodeId → KBucket
room_for es id = elim (position id es) [
  | some pos ↦ remove_at pos es
  | none ↦ if leb bucket_size (length es) then remove_at 0 es else es
]

unfoldable pub upsert : KBucket → NodeId → NodeAddr → KBucket
unfolding room_for
upsert es id addr = room_for es id ++ (id, addr) ∷ []

pub record DhtState : Type 0 where
  pub node_id : NodeId
  pub self_addr : Option NodeAddr
  pub routing_table : List KBucket
  pub mailboxes : Map Bytes MailboxRecord
  pub community_peers : Map Bytes (List CommunityPeerRecord)
  pub peer_infos : Map Bytes PeerInfoRecord
  pub last_discover : Map Bytes ℕ
  pub last_announce : Map Bytes ℕ

abbrev pub empty_buckets : ℕ → List KBucket
empty_buckets zero = []
empty_buckets (suc n) = [] ∷ empty_buckets n

unfoldable pub new : Bytes → Option NodeAddr → DhtState
new node_pk self_addr = record {
  node_id = node_pk;
  self_addr = self_addr;
  routing_table = empty_buckets 256;
  mailboxes = [];
  community_peers = [];
  peer_infos = [];
  last_discover = [];
  last_announce = [];
}

pub set_self_addr : DhtState → NodeAddr → DhtState
set_self_addr s addr = record s { self_addr = some addr }

-- The test and the write that the two slots share, on the map of last times.
abbrev slot_free : Option ℕ → ℕ → ℕ → Bool
slot_free none now cooldown = true
slot_free (some t) now cooldown = leb cooldown (now - t)

pub acquire_discover_slot : DhtState → ℕ → Bytes → ℕ → DhtState × Bool
acquire_discover_slot s now community_pk cooldown =
    if slot_free (get s.last_discover community_pk) now cooldown
    then (record s { last_discover = insert s.last_discover community_pk now }, true)
    else (s, false)

pub acquire_announce_slot : DhtState → ℕ → Bytes → ℕ → DhtState × Bool
acquire_announce_slot s now community_pk cooldown =
    if slot_free (get s.last_announce community_pk) now cooldown
    then (record s { last_announce = insert s.last_announce community_pk now }, true)
    else (s, false)

-- `rt[i] = f(rt[i])`; an index out of range, at which the code would panic, changes nothing.
abbrev pub update_at : ℕ → (KBucket → KBucket) → List KBucket → List KBucket
update_at i f [] = []
update_at zero f (b ∷ bs) = f b ∷ bs
update_at (suc i) f (b ∷ bs) = b ∷ update_at i f bs

unfoldable pub add_peer : DhtState → NodeId → NodeAddr → DhtState
unfolding bucket_index distance
add_peer s id addr = if id == s.node_id then s else elim (bucket_index (distance s.node_id id)) [
  | some i ↦ record s { routing_table = update_at i (λ b. upsert b id addr) s.routing_table }
  | none ↦ s
]

-- `rt.iter().flat_map(|bucket| bucket.iter())`
abbrev pub all_peers : List KBucket → List (NodeId × NodeAddr)
all_peers [] = []
all_peers (b ∷ bs) = b ++ all_peers bs

abbrev pub closer : NodeId → NodeId × NodeAddr → NodeId × NodeAddr → Bool
closer target x y = bytes_le (distance target x.0) (distance target y.0)

unfoldable pub closest_peers : DhtState → NodeId → ℕ → List (NodeId × NodeAddr)
unfolding sort_by
closest_peers s target count = take count (sort_by (closer target) (all_peers s.routing_table))

unfoldable pub add_mailbox_record : DhtState → ℕ → Bytes → NodeAddr → DhtState
add_mailbox_record s now user_pk addr =
    let rec : MailboxRecord = record { addr = addr; expires_at = now + mailbox_ttl } in
    record s { mailboxes = insert s.mailboxes user_pk rec }

pub announce_mailbox : DhtState → ℕ → Bytes → DhtState
unfolding add_mailbox_record
announce_mailbox s now user_pk = elim s.self_addr [
  | some addr ↦ add_mailbox_record s now user_pk addr
  | none ↦ s
]

unfoldable pub lookup_mailbox : DhtState → ℕ → Bytes → Option NodeAddr
lookup_mailbox s now user_pk = elim (get s.mailboxes user_pk) [
  | some rec ↦ if ltb now rec.expires_at then some rec.addr else none
  | none ↦ none
]

-- `list.sort_by_key(|b| Reverse(b.announced_at))`
abbrev pub newer : CommunityPeerRecord → CommunityPeerRecord → Bool
newer x y = leb y.announced_at x.announced_at

abbrev pub has_pk : Bytes → CommunityPeerRecord → Bool
has_pk node_pk r = r.node_pk == node_pk

-- The list that `announce_community_peer` leaves for the community.
unfoldable pub announce_in :
    List CommunityPeerRecord → ℕ → Bytes → NodeAddr → List CommunityPeerRecord
unfolding sort_by
announce_in list unix node_pk addr =
    let write : CommunityPeerRecord → CommunityPeerRecord =
      λ r. record r { addr = addr; announced_at = unix } in
    elim (update_first (has_pk node_pk) write list) [
      | some list' ↦ list'
      | none ↦
          let pushed : List CommunityPeerRecord =
            list ++ record { node_pk = node_pk; addr = addr; announced_at = unix } ∷ [] in
          if ltb bucket_size (length pushed)
          then take bucket_size (sort_by newer pushed)
          else pushed
    ]

unfoldable pub announce_community_peer : DhtState → ℕ → Bytes → Bytes → NodeAddr → DhtState
announce_community_peer s unix community_pk node_pk addr =
    let list = or_else (get s.community_peers community_pk) [] in
    record s {
      community_peers = insert s.community_peers community_pk (announce_in list unix node_pk addr);
    }

abbrev pub peer_is_fresh : ℕ → CommunityPeerRecord → Bool
peer_is_fresh unix r = ltb (unix - r.announced_at) community_peer_ttl_secs

pub lookup_community_peers : DhtState → ℕ → Bytes → List CommunityPeerRecord
lookup_community_peers s unix community_pk =
    keep (peer_is_fresh unix) (or_else (get s.community_peers community_pk) [])

unfoldable pub add_community_peer_record : DhtState → Bytes → CommunityPeerRecord → DhtState
add_community_peer_record s community_pk rec =
    let list = or_else (get s.community_peers community_pk) [] in
    let list' = or_else (update_first (has_pk rec.node_pk) (λ _. rec) list) (list ++ rec ∷ []) in
    record s { community_peers = insert s.community_peers community_pk list' }

unfoldable pub add_peer_info_record : DhtState → Bytes → PeerInfoRecord → DhtState
add_peer_info_record s peer_id rec = record s { peer_infos = insert s.peer_infos peer_id rec }

pub announce_peer_info : DhtState → ℕ → Bytes → Bytes → NodeAddr → String → DhtState
announce_peer_info s unix peer_id x25519_pk addr display_name =
    let rec : PeerInfoRecord = record {
      x25519_pk = x25519_pk;
      addr = addr;
      announced_at = unix;
      display_name = display_name;
    } in
    record s { peer_infos = insert s.peer_infos peer_id rec }

abbrev pub info_is_fresh : ℕ → PeerInfoRecord → Bool
info_is_fresh unix r = ltb (unix - r.announced_at) peer_info_ttl_secs

pub lookup_peer_info : DhtState → ℕ → Bytes → Option PeerInfoRecord
lookup_peer_info s unix peer_id = filter_value (info_is_fresh unix) (get s.peer_infos peer_id)

abbrev not_empty : List CommunityPeerRecord → Bool
not_empty [] = false
not_empty (r ∷ rs) = true

pub expire_community_peers : DhtState → ℕ → DhtState
expire_community_peers s unix = record s {
  community_peers = retain not_empty (map_values (keep (peer_is_fresh unix)) s.community_peers);
}

pub expire_peer_infos : DhtState → ℕ → DhtState
expire_peer_infos s unix = record s { peer_infos = retain (info_is_fresh unix) s.peer_infos }

pub expire_records : DhtState → ℕ → ℕ → DhtState
unfolding expire_community_peers expire_peer_infos
expire_records s now unix =
    let s' = record s { mailboxes = retain (λ rec. ltb now rec.expires_at) s.mailboxes } in
    expire_peer_infos (expire_community_peers s' unix) unix
