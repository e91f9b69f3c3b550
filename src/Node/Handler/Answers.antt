-- ===== src/Node/Handler/Answers.antt =====
-- A predicate that holds of each outcome of a request holds of every answer.
use bit_cord.Prelude.{
  ◌≡◌, refl, true, ◌&&◌, Bytes, ◌++◌, Option, none, some, if_cases, not_cases, elim_cases,
}
use bit_cord.Community.NodeStore.{CommunityMeta}
use bit_cord.Dht.Routing.{PeerInfoRecord}
use bit_cord.Node.Table.{Tables}
use bit_cord.Node.Store.{append_message, get_messages, append_dm, get_dms}
use bit_cord.Node.Registry.{get_community_meta, set_community_meta}
use bit_cord.Node.Protocol.{ClientRequest}
use bit_cord.Node.Session.{
  ClientSession, NodeServices, NodeEnv, Moment, Answer, is_authenticated, has_joined,
}
use bit_cord.Node.Requests.Join.{handle_authenticate, handle_join_community, join_refusal}
use bit_cord.Node.Requests.Messages.{
  guarded, sent_entry, handle_send_message, handle_get_messages, handle_send_dm, handle_get_dms,
  handle_gossip, handle_push_history,
}
use bit_cord.Node.Requests.Manifests.{
  old_meta, pushed_meta, answer_manifest, handle_fetch_manifest, handle_push_manifest,
}
use bit_cord.Node.Requests.Lookups.{peer_info_is_signed, peer_info_answer, handle_store_peer_info}
use bit_cord.Node.Handler.{dispatch}
use bit_cord.Node.Handler.Outcomes.{Outcomes}

module _ {T : Type 0} (R : Tables T) (ne : NodeEnv) (now : Moment) (sess : ClientSession)
    (sv : NodeServices T) where
  module _ (P : ClientRequest → Answer T → Type 0) (o : Outcomes R ne now sess sv P) where
    guards :
        (req : ClientRequest) (community_pk : Bytes) (a : Answer T)
        → (has_joined sess community_pk ≡ true → P req a)
        → P req (guarded R ne now sess sv community_pk a)
    guards req community_pk a h =
        not_cases (P req) (is_authenticated sess) _ _ (λ k. o.on_error req 401)
          (λ k. not_cases (P req) (has_joined sess community_pk) _ _ (λ l. o.on_error req 403) h)

    found :
        (c : Bytes) (meta : Option CommunityMeta)
        → is_authenticated sess ≡ true
        → get_community_meta R ne.codec sv.store c ≡ some meta
        → P (ClientRequest.fetch_manifest c) (answer_manifest R ne now meta sess sv)
    found c none h k = o.on_error _ 404
    found c (some meta) h k =
        elim_cases (P (ClientRequest.fetch_manifest c)) meta.manifest _ _ (λ l. o.on_error _ 404)
          (λ m l. o.on_manifest c meta m h k l)

    peer_answered :
        (req : ClientRequest) (rec : Option PeerInfoRecord)
        → P req ((sess, sv), peer_info_answer rec)
    peer_answered req none = o.on_error req 404
    peer_answered req (some rec) = o.on_lookup req _ refl

    pub outcome : (req : ClientRequest) → P req (dispatch R ne now req sess sv)
    unfolding dispatch handle_authenticate handle_join_community handle_send_message
        handle_get_messages handle_send_dm handle_get_dms handle_gossip handle_push_history
        handle_fetch_manifest handle_push_manifest handle_store_peer_info
    outcome (ClientRequest.authenticate pk sig_r sig_s nonce) =
        not_cases (P _) (ne.env.valid_key pk) _ _ (λ h. o.on_error _ 400)
          (λ h.
            not_cases (P _) (ne.verify_strict pk nonce (sig_r ++ sig_s)) _ _ (λ k. o.on_error _ 401)
              (λ k. o.on_authenticate pk sig_r sig_s nonce h k))
    outcome (ClientRequest.join_community cert i p) =
        not_cases (P _) (is_authenticated sess) _ _ (λ h. o.on_error _ 401)
          (λ h.
            elim_cases (P _) (join_refusal R ne now cert p sess sv) _ _
              (λ k.
                if_cases (P _) (has_joined sess cert.community_pk) _ _
                  (λ l. o.on_rejoin cert i p h l) (λ l. o.on_join cert i p h k))
              (λ code k. o.on_error _ code))
    outcome (ClientRequest.send_message c ch n x) = guards _ c _ (λ joined.
        elim_cases (P _)
          (append_message R ne.codec sv.store (now.random 0) c ch
            (sent_entry R ne now sess.client_pk n x))
          _ _ (λ h. o.on_error _ 500) (λ a h. o.on_send c ch n x a.0 a.1 joined h))
    outcome (ClientRequest.get_messages c ch n) = guards _ c _ (λ joined.
        elim_cases (P _) (get_messages R ne.codec sv.store c ch n) _ _ (λ h. o.on_error _ 500)
          (λ es h. o.on_messages c ch n es joined h))
    outcome (ClientRequest.send_dm r e) =
        elim_cases (P _) sess.client_pk _ _ (λ h. o.on_error _ 401)
          (λ pk h.
            elim_cases (P _)
              (append_dm R ne.codec sv.store (now.random 0) r pk e now.message_id now.now_ms) _ _
              (λ k. o.on_error _ 500) (λ a k. o.on_send_dm r e pk a.0 a.1 h k))
    outcome (ClientRequest.get_dms n) =
        elim_cases (P _) sess.client_pk _ _ (λ h. o.on_error _ 401)
          (λ pk h.
            elim_cases (P _) (get_dms R ne.codec sv.store pk n) _ _ (λ k. o.on_error _ 500)
              (λ es k. o.on_dms n pk es h k))
    outcome (ClientRequest.fetch_manifest c) =
        not_cases (P _) (is_authenticated sess) _ _ (λ h. o.on_error _ 401)
          (λ h.
            elim_cases (P _) (get_community_meta R ne.codec sv.store c) _ _ (λ k. o.on_error _ 500)
              (λ meta k. found c meta h k))
    outcome (ClientRequest.find_node t) =
        elim_cases (P _) sv.dht _ _ (λ h. o.on_lookup _ _ refl) (λ s h. o.on_lookup _ _ refl)
    outcome (ClientRequest.store_dht_record u a) = o.on_mailbox u a
    outcome ClientRequest.heartbeat = o.on_lookup _ _ refl
    outcome (ClientRequest.gossip t d) =
        elim_cases (P _) sess.client_pk _ _ (λ h. o.on_error _ 401) (λ pk h. o.on_gossip t d pk h)
    outcome (ClientRequest.push_manifest p) =
        if_cases (P _) (is_authenticated sess && has_joined sess p.community_pk) _ _
          (λ h.
            elim_cases (P _)
              (set_community_meta R ne.codec sv.store (now.random 0) p.community_pk
                (pushed_meta (old_meta R ne now sv p) p))
              _ _ (λ k. o.on_error _ 500) (λ db k. o.on_push_manifest p db h k))
          (λ h. o.on_error _ 403)
    outcome (ClientRequest.push_history c ch es) =
        if_cases (P _) (is_authenticated sess && has_joined sess c) _ _
          (λ h. o.on_push_history c ch es h) (λ h. o.on_error _ 403)
    outcome (ClientRequest.store_community_peer c n a) = o.on_community_peer c n a
    outcome (ClientRequest.find_community_peers c) =
        elim_cases (P _) sv.dht _ _ (λ h. o.on_lookup _ _ refl) (λ s h. o.on_lookup _ _ refl)
    outcome (ClientRequest.store_peer_info p) =
        if_cases (P _) (peer_info_is_signed ne p) _ _ (λ h. o.on_peer_info p h)
          (λ h. o.on_error _ 400)
    outcome (ClientRequest.find_peer_info i) =
        elim_cases (P _) sv.dht _ _ (λ h. peer_answered _ none) (λ s h. peer_answered _ _)
