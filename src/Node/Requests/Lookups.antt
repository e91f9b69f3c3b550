-- ===== src/Node/Requests/Lookups.antt =====
-- crates/bitcord-core/src/node/handler.rs: the requests on the DHT, which need no authentication. The
-- methods of `DhtHandle` that they use pass on to `DhtState`.
use bit_cord.Prelude.{
  Bool, false, not, Bytes, [], ◌++◌, Option, none, some, map_some, ◌==◌, if◌then◌else◌, nat_eq,
  list_eq,
}
use bit_cord.Prelude.Text.{first_chars}
use bit_cord.Dht.Routing.{
  NodeAddr, DhtState, CommunityPeerRecord, PeerInfoRecord, closest_peers, lookup_mailbox,
  add_mailbox_record, add_community_peer_record, lookup_community_peers, add_peer_info_record,
  lookup_peer_info,
}
use bit_cord.Node.Protocol.{
  PeerInfoRequest, NodeResponse, closest_peers as closest, dht_ack, community_peer_ack,
  community_peers, peer_info_ack, peer_info, error,
}
use bit_cord.Node.Session.{ClientSession, NodeServices, NodeEnv, Moment, Answer}

-- The bytes that are signed.
abbrev pub peer_info_message : NodeEnv → PeerInfoRequest → Bytes
peer_info_message ne p = p.peer_id ++ (p.x25519_pk ++ ne.addr_bytes p.addr)

-- The identifier, the key and the signature of a peer's record are tested.
unfoldable pub peer_info_is_signed : NodeEnv → PeerInfoRequest → Bool
peer_info_is_signed ne p =
    if not (ne.env.user_id_of p.ed25519_pk == p.peer_id)
    then false
    else if not (ne.env.valid_key p.ed25519_pk)
    then false
    else ne.verify_strict p.ed25519_pk (peer_info_message ne p) (p.sig_r ++ p.sig_s)

abbrev pub peer_info_answer : Option PeerInfoRecord → NodeResponse
peer_info_answer none = error 404
peer_info_answer (some rec) = peer_info rec.x25519_pk rec.addr rec.display_name

-- The record that is stored.
abbrev pub info_record : Moment → PeerInfoRequest → PeerInfoRecord
info_record now p = record {
  x25519_pk = p.x25519_pk;
  addr = p.addr;
  announced_at = now.unix;
  display_name = first_chars 64 p.display_name;
}

module _ {T : Type 0} (ne : NodeEnv) (now : Moment) where
  -- A change of the DHT state, if the node has one.
  abbrev pub on_dht : (DhtState → DhtState) → NodeServices T → NodeServices T
  on_dht f sv = record sv { dht = map_some f sv.dht }

  abbrev pub handle_find_node : Bytes → ClientSession → NodeServices T → Answer T
  handle_find_node target_id sess sv = elim sv.dht [
    | none ↦ ((sess, sv), closest [] none)
    | some s ↦ (
      (sess, sv),
      closest (closest_peers s target_id 20) (lookup_mailbox s now.instant target_id),
    )
  ]

  abbrev pub handle_store_dht_record : Bytes → NodeAddr → ClientSession → NodeServices T → Answer T
  handle_store_dht_record user_pk addr sess sv =
      ((sess, on_dht (λ s. add_mailbox_record s now.instant user_pk addr) sv), dht_ack)

  abbrev pub handle_store_community_peer :
      Bytes → Bytes → NodeAddr → ClientSession → NodeServices T → Answer T
  handle_store_community_peer community_pk node_pk addr sess sv =
      let rec : CommunityPeerRecord = record {
        node_pk = node_pk;
        addr = addr;
        announced_at = now.unix;
      } in
      ((sess, on_dht (λ s. add_community_peer_record s community_pk rec) sv), community_peer_ack)

  abbrev pub handle_find_community_peers : Bytes → ClientSession → NodeServices T → Answer T
  handle_find_community_peers community_pk sess sv = elim sv.dht [
    | none ↦ ((sess, sv), community_peers [])
    | some s ↦ ((sess, sv), community_peers (lookup_community_peers s now.unix community_pk))
  ]

  unfoldable pub handle_store_peer_info :
      PeerInfoRequest → ClientSession → NodeServices T → Answer T
  unfolding peer_info_is_signed
  handle_store_peer_info p sess sv =
      if peer_info_is_signed ne p
      then (
        (sess, on_dht (λ s. add_peer_info_record s p.peer_id (info_record now p)) sv),
        peer_info_ack,
      )
      else ((sess, sv), error 400)

  abbrev pub handle_find_peer_info : Bytes → ClientSession → NodeServices T → Answer T
  handle_find_peer_info peer_id sess sv = elim sv.dht [
    | none ↦ ((sess, sv), peer_info_answer none)
    | some s ↦ ((sess, sv), peer_info_answer (lookup_peer_info s now.unix peer_id))
  ]
