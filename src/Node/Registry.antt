-- ===== src/Node/Registry.antt =====
-- crates/bitcord-core/src/node/store.rs: the metadata of the communities, the peers that are kept for
-- the DHT, and the enumerations of a node's start.
pub mod Meta
use bit_cord.Prelude.{
  ℕ, ◌≡◌, refl, sym, ap, ◌∙◌, Bool, true, false, not, Bytes, bytes_le, List, [], ◌∷◌, ◌++◌, Option,
  none, some, length, take, drop, leb, ltb, ◌==◌, find, if◌then◌else◌, nat_eq, list_eq, list_eqb,
  list_eqb_iff, keep, map_some, arith, Bool-cases, Option-cases, inl, inr,
}
use bit_cord.Prelude.Map.{Map, get, values}
use bit_cord.Community.Model.{MembershipRecord}
use bit_cord.Community.NodeStore.{CommunityMeta}
use bit_cord.Dht.Routing.{CommunityPeerRecord}
use bit_cord.Node.Table.{Tables, IsLawful, Items, put}
use bit_cord.Node.Store.{Codec, NodeDb, encrypt, decrypt, remove_keys}

-- The first part of each key, once for those that follow one another.
abbrev pub first_parts : ℕ → Option Bytes → Items → List Bytes
first_parts size last [] = []
first_parts size last (item ∷ m) =
    let part = take size item.0 in
    let rest = first_parts size last m in
    let next = first_parts size (some part) m in
    if ltb (length item.0) size
    then rest
    else elim last [ none ↦ part ∷ next | some l ↦ if l == part then next else part ∷ next ]

abbrev map_keys : Items → List Bytes
map_keys [] = []
map_keys (item ∷ m) = item.0 ∷ map_keys m

module _ {T : Type 0} (R : Tables T) (X : Codec) where
  abbrev pub open_meta : NodeDb T → Bytes → Option CommunityMeta
  open_meta db blob = elim (decrypt R X db blob) [ none ↦ none | some plain ↦ X.read_meta plain ]

  abbrev pub open_peer : NodeDb T → Bytes → Option CommunityPeerRecord
  open_peer db blob = elim (decrypt R X db blob) [ none ↦ none | some plain ↦ X.read_peer plain ]

  unfoldable pub set_community_meta : NodeDb T → Bytes → Bytes → CommunityMeta → Option (NodeDb T)
  set_community_meta db random community_pk meta = elim (X.meta_bytes meta) [
    | none ↦ none
    | some plain ↦ elim (encrypt R X db random plain) [
      | none ↦ none
      | some value ↦ some (record db { meta = R.insert db.meta community_pk value })
    ]
  ]

  -- The outer option is the failure, the inner one a community that is not there.
  unfoldable pub get_community_meta : NodeDb T → Bytes → Option (Option CommunityMeta)
  get_community_meta db community_pk = elim (R.get db.meta community_pk) [
    | none ↦ some none
    | some v ↦ map_some some (open_meta db v)
  ]

  -- The values of each community's members, in the order of the metadata's map.
  abbrev pub find_member : NodeDb T → Bytes → Items → Option (Option Bytes)
  find_member db ed25519_pk [] = some none
  find_member db ed25519_pk (item ∷ m) =
      let rest = find_member db ed25519_pk m in
      elim (open_meta db item.1) [
        | none ↦ none
        | some meta ↦
            elim (find (λ (r : MembershipRecord). r.public_key == ed25519_pk)
              (values meta.members)) [ some r ↦ some (some r.x25519_public_key) | none ↦ rest ]
      ]

  abbrev pub x25519_pk_for_member : NodeDb T → Bytes → Option (Option Bytes)
  x25519_pk_for_member db ed25519_pk = find_member db ed25519_pk (R.iter db.meta)

  abbrev pub all_mailbox_recipients : NodeDb T → List Bytes
  all_mailbox_recipients db = first_parts 32 none (R.iter db.mail)

  abbrev pub all_communities : NodeDb T → List Bytes
  all_communities db =
      map_keys (keep (λ (item : Bytes × Bytes). length item.0 == 32) (R.iter db.meta))

  -- A community's key and the channel's 16 bytes, in one.
  abbrev pub all_channel_ids : NodeDb T → List Bytes
  all_channel_ids db = first_parts 48 none (R.iter db.log)

  abbrev pub dht_peer_key : Bytes → Bytes → Bytes
  dht_peer_key community_pk node_pk = community_pk ++ node_pk

  abbrev pub set_community_peer_record :
      NodeDb T → Bytes → Bytes → CommunityPeerRecord → Option (NodeDb T)
  set_community_peer_record db random community_pk peer = elim (X.peer_bytes peer) [
    | none ↦ none
    | some plain ↦ elim (encrypt R X db random plain) [
      | none ↦ none
      | some value ↦ some (record db {
        dht_peers = R.insert db.dht_peers (dht_peer_key community_pk peer.node_pk) value;
      })
    ]
  ]

  -- A record that does not decode is skipped, one that does not decrypt ends the loop.
  abbrev pub read_peers : NodeDb T → Items → Option (List (Bytes × CommunityPeerRecord))
  read_peers db [] = some []
  read_peers db (item ∷ m) =
      let rest = read_peers db m in
      if ltb (length item.0) 64 then rest else elim (decrypt R X db item.1) [
        | none ↦ none
        | some plain ↦ elim (X.read_peer plain) [
          | none ↦ rest
          | some peer ↦ map_some (λ peers. (take 32 item.0, peer) ∷ peers) rest
        ]
      ]

  abbrev pub all_community_peer_records : NodeDb T → Option (List (Bytes × CommunityPeerRecord))
  all_community_peer_records db = read_peers db (R.iter db.dht_peers)

  abbrev pub is_expired : NodeDb T → ℕ → Bytes × Bytes → Bool
  is_expired db cutoff_secs item = elim (open_peer db item.1) [
    | none ↦ false
    | some peer ↦ ltb peer.announced_at cutoff_secs
  ]

  abbrev pub remove_expired_community_peers : NodeDb T → ℕ → NodeDb T
  remove_expired_community_peers db cutoff_secs = record db {
    dht_peers =
        remove_keys R X db.dht_peers (keep (is_expired db cutoff_secs) (R.iter db.dht_peers));
  }
