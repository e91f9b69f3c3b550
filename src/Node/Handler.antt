-- ===== src/Node/Handler.antt =====
-- crates/bitcord-core/src/node/handler.rs: `dispatch`, and the requests of a connection one after
-- another.
pub mod Outcomes
pub mod Answers
pub mod Rights
pub mod Identity
pub mod Isolation
pub mod Delivery
pub mod PeerRecords
pub mod Sends
pub mod Access
pub mod Replies
use bit_cord.Prelude.{List, [], ◌∷◌, not, Bool, true, false, if◌then◌else◌}
use bit_cord.Node.Table.{Tables}
use bit_cord.Node.Protocol.{ClientRequest, NodeResponse, authenticated}
use bit_cord.Node.Session.{ClientSession, NodeServices, NodeEnv, Moment, Answer}
use bit_cord.Node.Requests.Join.{handle_authenticate, handle_join_community}
use bit_cord.Node.Requests.Messages.{
  guarded, handle_send_message, handle_get_messages, handle_send_dm, handle_get_dms, handle_gossip,
  handle_push_history,
}
use bit_cord.Node.Requests.Manifests.{handle_fetch_manifest, handle_push_manifest}
use bit_cord.Node.Requests.Lookups.{
  handle_find_node, handle_store_dht_record, handle_store_community_peer,
  handle_find_community_peers, handle_store_peer_info, handle_find_peer_info,
}

module _ {T : Type 0} (R : Tables T) (ne : NodeEnv) where
  unfoldable pub dispatch : Moment → ClientRequest → ClientSession → NodeServices T → Answer T
  unfolding handle_authenticate handle_join_community handle_send_message handle_get_messages
      handle_send_dm handle_get_dms handle_gossip handle_push_history handle_fetch_manifest
      handle_push_manifest handle_store_peer_info
  dispatch now (ClientRequest.authenticate pk sig_r sig_s nonce) sess sv =
      handle_authenticate R ne now pk sig_r sig_s nonce sess sv
  dispatch now (ClientRequest.join_community cert community_id password) sess sv =
      handle_join_community R ne now cert community_id password sess sv
  dispatch now (ClientRequest.send_message community_pk channel_id nonce ciphertext) sess sv =
      guarded R ne now sess sv community_pk
        (handle_send_message R ne now community_pk channel_id nonce ciphertext sess sv)
  dispatch now (ClientRequest.get_messages community_pk channel_id since_seq) sess sv =
      guarded R ne now sess sv community_pk
        (handle_get_messages R ne now community_pk channel_id since_seq sess sv)
  dispatch now (ClientRequest.send_dm recipient_pk envelope) sess sv =
      handle_send_dm R ne now recipient_pk envelope sess sv
  dispatch now (ClientRequest.get_dms since_seq) sess sv = handle_get_dms R ne now since_seq sess sv
  dispatch now (ClientRequest.fetch_manifest community_pk) sess sv =
      handle_fetch_manifest R ne now community_pk sess sv
  dispatch now (ClientRequest.find_node target_id) sess sv =
      handle_find_node ne now target_id sess sv
  dispatch now (ClientRequest.store_dht_record user_pk addr) sess sv =
      handle_store_dht_record ne now user_pk addr sess sv
  dispatch now ClientRequest.heartbeat sess sv = ((sess, sv), authenticated sv.node_pk)
  dispatch now (ClientRequest.gossip topic data') sess sv =
      handle_gossip R ne now topic data' sess sv
  dispatch now (ClientRequest.push_manifest p) sess sv = handle_push_manifest R ne now p sess sv
  dispatch now (ClientRequest.push_history community_pk channel_id entries) sess sv =
      handle_push_history R ne now community_pk channel_id entries sess sv
  dispatch now (ClientRequest.store_community_peer community_pk node_pk addr) sess sv =
      handle_store_community_peer ne now community_pk node_pk addr sess sv
  dispatch now (ClientRequest.find_community_peers community_pk) sess sv =
      handle_find_community_peers ne now community_pk sess sv
  dispatch now (ClientRequest.store_peer_info p) sess sv = handle_store_peer_info ne now p sess sv
  dispatch now (ClientRequest.find_peer_info peer_id) sess sv =
      handle_find_peer_info ne now peer_id sess sv

  -- The state after the requests of one connection, each at its moment.
  abbrev pub serve :
      List (Moment × ClientRequest)
      → ClientSession
      → NodeServices T
      → ClientSession × NodeServices T
  serve [] sess sv = (sess, sv)
  serve ((now, req) ∷ reqs) sess sv =
      let next = (dispatch now req sess sv).0 in serve reqs next.0 next.1
