-- ===== src/Node/Requests/Join.antt =====
-- crates/bitcord-core/src/node/handler.rs: `handle_authenticate`, with the routing table that learns
-- of the client, and `handle_join_community`.
use bit_cord.Prelude.{
  ℕ, Bool, true, false, not, Bytes, String, [], ◌∷◌, ◌++◌, Option, none, some, any, or_else,
  map_some, ◌==◌, if◌then◌else◌, nat_eq, list_eq, string_eq,
}
use bit_cord.Prelude.Map.{values}
use bit_cord.Community.Model.{MembershipRecord}
use bit_cord.Community.NodeStore.{HostingCert, CommunityMeta}
use bit_cord.Dht.Routing.{add_peer}
use bit_cord.Node.Table.{Tables}
use bit_cord.Node.Store.{NodeDb}
use bit_cord.Node.Registry.{set_community_meta, get_community_meta}
use bit_cord.Node.Protocol.{authenticated, error}
use bit_cord.Node.Session.{
  ClientSession, NodeServices, NodeEnv, Moment, Answer, is_authenticated, has_joined, cert_verify,
}

-- `CommunityMeta` for a community that the node does not hold.
abbrev pub empty_meta : HostingCert → CommunityMeta
empty_meta cert = record {
  cert = cert;
  manifest = none;
  channels = [];
  channel_keys = [];
  members = [];
}

abbrev pub has_key : Bytes → MembershipRecord → Bool
has_key pk m = m.public_key == pk

-- `required_password` against `provided_password.unwrap_or("")`.
abbrev pub password_fits : Option String → Option String → Bool
password_fits none provided = true
password_fits (some required) provided = or_else provided "" == required

module _ {T : Type 0} (R : Tables T) (ne : NodeEnv) (now : Moment) where
  unfoldable pub handle_authenticate :
      Bytes → Bytes → Bytes → Bytes → ClientSession → NodeServices T → Answer T
  handle_authenticate pk sig_r sig_s nonce sess sv =
      if not (ne.env.valid_key pk)
      then ((sess, sv), error 400)
      else if not (ne.verify_strict pk nonce (sig_r ++ sig_s))
      then ((sess, sv), error 401)
      else (
        (
          record sess { client_pk = some pk },
          record sv { dht = map_some (λ s. add_peer s pk now.remote_addr) sv.dht },
        ),
        authenticated sv.node_pk,
      )

  -- `get_community_meta(..).unwrap_or(None)`
  abbrev pub stored_meta : NodeDb T → Bytes → Option CommunityMeta
  stored_meta db community_pk = or_else (get_community_meta R ne.codec db community_pk) none

  -- The client is a member of the community that the node holds.
  abbrev pub is_member : NodeDb T → Option Bytes → Bytes → Bool
  is_member db none community_pk = false
  is_member db (some client_pk) community_pk = elim (stored_meta db community_pk) [
    | none ↦ false
    | some meta ↦ any (has_key client_pk) (values meta.members)
  ]

  -- The code of the error with which the request is refused.
  unfoldable pub join_refusal :
      HostingCert → Option String → ClientSession → NodeServices T → Option ℕ
  join_refusal cert password sess sv =
      if not (ne.env.valid_key cert.community_pk)
      then some 400
      else if is_member sv.store sess.client_pk cert.community_pk
      then none
      else if not (password_fits sv.join_password password)
      then some 403
      else if not (cert.node_pk == sv.node_pk)
      then some 403
      else if not (cert_verify ne.env now.unix cert cert.community_pk)
      then some 403
      else none

  -- The metadata is written if there is none; a write that fails is ignored.
  abbrev pub host : NodeDb T → HostingCert → NodeDb T
  host db cert = elim (stored_meta db cert.community_pk) [
    | some meta ↦ db
    | none ↦
        or_else
          (set_community_meta R ne.codec db (now.random 0) cert.community_pk (empty_meta cert)) db
  ]

  abbrev pub notify_joined : NodeServices T → Bytes → Option Bytes → NodeServices T
  notify_joined sv community_pk none = sv
  notify_joined sv community_pk (some community_id) = record sv {
    joined = sv.joined ++ (community_pk, community_id) ∷ [];
  }

  abbrev pub enter : HostingCert → Option Bytes → ClientSession → NodeServices T → Answer T
  enter cert community_id sess sv =
      let pk = cert.community_pk in
      let sv' = record sv { store = host sv.store cert } in
      if has_joined sess pk then ((sess, sv'), authenticated sv.node_pk) else (
        (
          record sess { joined_communities = sess.joined_communities ++ pk ∷ [] },
          notify_joined sv' pk community_id,
        ),
        authenticated sv.node_pk,
      )

  unfoldable pub handle_join_community :
      HostingCert → Option Bytes → Option String → ClientSession → NodeServices T → Answer T
  unfolding join_refusal
  handle_join_community cert community_id password sess sv =
      if not (is_authenticated sess)
      then ((sess, sv), error 401)
      else elim (join_refusal cert password sess sv) [
        | some code ↦ ((sess, sv), error code)
        | none ↦ enter cert community_id sess sv
      ]
