-- ===== src/Node/Handler/Outcomes.antt =====
-- What a request can come to, one outcome after another.
use bit_cord.Prelude.{
  ◌≡◌, Bool, true, false, ◌&&◌, Bytes, String, List, [], ◌∷◌, ◌++◌, Option, none, some, ℕ,
}
use bit_cord.Prelude.Text.{hex}
use bit_cord.Prelude.Map.{values}
use bit_cord.State.MessageLog.{LogEntry}
use bit_cord.Community.Model.{SignedManifest}
use bit_cord.Community.NodeStore.{CommunityMeta, HostingCert}
use bit_cord.Dht.Routing.{
  NodeAddr, add_peer, add_mailbox_record, add_community_peer_record, add_peer_info_record,
}
use bit_cord.Node.Table.{Tables}
use bit_cord.Node.Store.{NodeDb, DmEnvelope, append_message, get_messages, append_dm, get_dms}
use bit_cord.Node.Registry.{get_community_meta, set_community_meta}
use bit_cord.Node.Protocol.{ClientRequest, NodeResponse, NodePush, PeerInfoRequest, ManifestPush}
use bit_cord.Node.Session.{
  ClientSession, NodeServices, NodeEnv, Moment, Answer, is_authenticated, has_joined, send_push,
}
use bit_cord.Node.Requests.Join.{join_refusal, host, notify_joined}
use bit_cord.Node.Requests.Messages.{
  sent_entry, register_mailbox, push_dm, gossip_store, write_entries,
}
use bit_cord.Node.Requests.Manifests.{served_channels, old_meta, pushed_meta}
use bit_cord.Node.Requests.Lookups.{on_dht, info_record, peer_info_is_signed}

-- The answers of the requests that only read the DHT, and of a heartbeat.
abbrev pub is_lookup : NodeResponse → Bool
is_lookup (NodeResponse.closest_peers peers mailbox) = true
is_lookup (NodeResponse.community_peers records) = true
is_lookup (NodeResponse.peer_info x25519_pk addr display_name) = true
is_lookup (NodeResponse.authenticated pk) = true
is_lookup _ = false

module _ {T : Type 0} (R : Tables T) (ne : NodeEnv) (now : Moment) (sess : ClientSession)
    (sv : NodeServices T) where
  -- What holds of each outcome.
  pub record Outcomes (P : ClientRequest → Answer T → Type 0) : Type 0 where
    pub on_error : (req : ClientRequest) (code : ℕ) → P req ((sess, sv), NodeResponse.error code)
    pub on_lookup :
        (req : ClientRequest) (r : NodeResponse) → is_lookup r ≡ true → P req ((sess, sv), r)
    pub on_authenticate :
        (pk sig_r sig_s nonce : Bytes)
        → ne.env.valid_key pk ≡ true
        → ne.verify_strict pk nonce (sig_r ++ sig_s) ≡ true
        → P (ClientRequest.authenticate pk sig_r sig_s nonce) (
          (
            record sess { client_pk = some pk },
            on_dht ne now (λ s. add_peer s pk now.remote_addr) sv,
          ),
          NodeResponse.authenticated sv.node_pk,
        )
    pub on_rejoin :
        (cert : HostingCert) (community_id : Option Bytes) (password : Option String)
        → is_authenticated sess ≡ true
        → has_joined sess cert.community_pk ≡ true
        → P (ClientRequest.join_community cert community_id password) (
          (sess, record sv { store = host R ne now sv.store cert }),
          NodeResponse.authenticated sv.node_pk,
        )
    pub on_join :
        (cert : HostingCert) (community_id : Option Bytes) (password : Option String)
        → is_authenticated sess ≡ true
        → join_refusal R ne now cert password sess sv ≡ none
        → P (ClientRequest.join_community cert community_id password) (
          (
            record sess { joined_communities = sess.joined_communities ++ cert.community_pk ∷ [] },
            notify_joined R ne now
                (record sv { store = host R ne now sv.store cert })
                cert.community_pk
                community_id,
          ),
          NodeResponse.authenticated sv.node_pk,
        )
    pub on_send :
        (c ch nonce ciphertext : Bytes) (seq : ℕ) (db : NodeDb T)
        → has_joined sess c ≡ true
        → append_message R ne.codec sv.store
            (now.random 0)
            c
            ch
            (sent_entry R ne now sess.client_pk nonce ciphertext)
          ≡ some (seq, db)
        → P (ClientRequest.send_message c ch nonce ciphertext) (
          (
            sess,
            send_push
                (record sv { store = db })
                (some c)
                (NodePush.new_message ch
                  (record (sent_entry R ne now sess.client_pk nonce ciphertext) { seq = seq })),
          ),
          NodeResponse.message_ack seq,
        )
    pub on_messages :
        (c ch : Bytes) (since : ℕ) (es : List LogEntry)
        → has_joined sess c ≡ true
        → get_messages R ne.codec sv.store c ch since ≡ some es
        → P (ClientRequest.get_messages c ch since) ((sess, sv), NodeResponse.messages es)
    pub on_send_dm :
        (r : Bytes) (envelope : DmEnvelope) (pk : Bytes) (seq : ℕ) (db : NodeDb T)
        → sess.client_pk ≡ some pk
        → append_dm R ne.codec sv.store (now.random 0) r pk envelope now.message_id now.now_ms
          ≡ some (seq, db)
        → P (ClientRequest.send_dm r envelope) (
          (
            sess,
            push_dm R ne now
                (register_mailbox R ne now (record sv { store = db }) r)
                r
                (get_dms R ne.codec db r seq),
          ),
          NodeResponse.dm_ack seq,
        )
    pub on_dms :
        (since : ℕ) (pk : Bytes) (es : List LogEntry)
        → sess.client_pk ≡ some pk
        → get_dms R ne.codec sv.store pk since ≡ some es
        → P (ClientRequest.get_dms since) ((sess, sv), NodeResponse.dms es)
    pub on_manifest :
        (c : Bytes) (meta : CommunityMeta) (m : SignedManifest)
        → is_authenticated sess ≡ true
        → get_community_meta R ne.codec sv.store c ≡ some (some meta)
        → meta.manifest ≡ some m
        → P (ClientRequest.fetch_manifest c) (
          (sess, sv),
          NodeResponse.manifest m
              (served_channels R ne now meta m sess.client_pk)
              []
              (values meta.members),
        )
    pub on_gossip :
        (topic : String) (payload pk : Bytes)
        → sess.client_pk ≡ some pk
        → P (ClientRequest.gossip topic payload) (
          (
            sess,
            send_push
                (record sv { store = gossip_store R ne now topic payload sv.store })
                none
                (NodePush.gossip_message topic (hex pk) payload),
          ),
          NodeResponse.gossip_ack,
        )
    pub on_push_manifest :
        (p : ManifestPush) (db : NodeDb T)
        → (is_authenticated sess && has_joined sess p.community_pk) ≡ true
        → set_community_meta R ne.codec sv.store
            (now.random 0)
            p.community_pk
            (pushed_meta (old_meta R ne now sv p) p)
          ≡ some db
        → P
            (ClientRequest.push_manifest p)
            ((sess, record sv { store = db }), NodeResponse.push_ack)
    pub on_push_history :
        (c ch : Bytes) (es : List LogEntry)
        → (is_authenticated sess && has_joined sess c) ≡ true
        → P (ClientRequest.push_history c ch es) (
          (sess, record sv { store = write_entries R ne now sv.store 0 c ch es }),
          NodeResponse.push_ack,
        )
    pub on_mailbox :
        (user_pk : Bytes) (addr : NodeAddr)
        → P (ClientRequest.store_dht_record user_pk addr) (
          (sess, on_dht ne now (λ s. add_mailbox_record s now.instant user_pk addr) sv),
          NodeResponse.dht_ack,
        )
    pub on_community_peer :
        (c node_pk : Bytes) (addr : NodeAddr)
        → P (ClientRequest.store_community_peer c node_pk addr) (
          (
            sess,
            on_dht ne now
                (λ s.
                  add_community_peer_record s c
                    (record { node_pk = node_pk; addr = addr; announced_at = now.unix }))
                sv,
          ),
          NodeResponse.community_peer_ack,
        )
    pub on_peer_info :
        (p : PeerInfoRequest)
        → peer_info_is_signed ne p ≡ true
        → P (ClientRequest.store_peer_info p) (
          (sess, on_dht ne now (λ s. add_peer_info_record s p.peer_id (info_record now p)) sv),
          NodeResponse.peer_info_ack,
        )
