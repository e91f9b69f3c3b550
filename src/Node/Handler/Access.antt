-- ===== src/Node/Handler/Access.antt =====
-- What a client that has not authenticated can do, and what a request that is refused leaves.
use bit_cord.Prelude.{
  ◌≡◌, refl, sym, ap, Bool, true, false, Bytes, List, Option, none, some, ◌⊎◌, inl, inr, ℕ, subst,
  ◌++◌, if_cases, not_cases,
}
use bit_cord.Node.Table.{Tables}
use bit_cord.Node.Protocol.{ClientRequest, NodeResponse, PeerInfoRequest}
use bit_cord.Node.Session.{ClientSession, NodeServices, NodeEnv, Moment, Answer}
use bit_cord.Node.Requests.Join.{handle_authenticate, handle_join_community}
use bit_cord.Node.Requests.Messages.{
  handle_send_dm, handle_get_dms, handle_gossip, handle_push_history,
}
use bit_cord.Node.Requests.Manifests.{handle_fetch_manifest, handle_push_manifest}
use bit_cord.Node.Requests.Lookups.{
  handle_find_node, handle_find_community_peers, handle_store_peer_info, handle_find_peer_info,
  peer_info_is_signed,
}
use bit_cord.Node.Handler.{dispatch}

-- The requests that need no authentication.
abbrev pub is_public : ClientRequest → Bool
is_public (ClientRequest.authenticate pk sig_r sig_s nonce) = true
is_public (ClientRequest.find_node target_id) = true
is_public (ClientRequest.store_dht_record user_pk addr) = true
is_public ClientRequest.heartbeat = true
is_public (ClientRequest.store_community_peer community_pk node_pk addr) = true
is_public (ClientRequest.find_community_peers community_pk) = true
is_public (ClientRequest.store_peer_info p) = true
is_public (ClientRequest.find_peer_info peer_id) = true
is_public _ = false

-- All but the DHT is as it was.
abbrev pub OnlyDht : {T : Type 0} → NodeServices T → NodeServices T → Type 0
OnlyDht sv sv' = sv' ≡ record sv { dht = sv'.dht }

-- The session is as it was, or the request has proved a key, which it has now.
abbrev pub KeepsSession : NodeEnv → ClientRequest → ClientSession → ClientSession → Type 0
KeepsSession ne req sess sess' =
    (sess' ≡ sess)
    ⊎ ((pk : Bytes) × (sig_r : Bytes) × (sig_s : Bytes) × (nonce : Bytes) × (req
          ≡ ClientRequest.authenticate pk sig_r sig_s nonce)
        × (ne.verify_strict pk nonce (sig_r ++ sig_s) ≡ true)
        × (sess' ≡ record sess { client_pk = some pk }))

-- Nothing has changed, and the answer is error 401 or 403.
abbrev pub Refused : {T : Type 0} → ClientSession → NodeServices T → Answer T → Type 0
Refused sess sv a =
    (a.0 ≡ (sess, sv)) × ((a.1 ≡ NodeResponse.error 401) ⊎ (a.1 ≡ NodeResponse.error 403))

-- What may come of a request before the client has authenticated, if it is public and if it is not.
abbrev pub Outside :
    {T : Type 0}
    → NodeEnv
    → Bool
    → ClientRequest
    → ClientSession
    → NodeServices T
    → Answer T
    → Type 0
Outside ne true req sess sv a = OnlyDht sv a.0.1 × KeepsSession ne req sess a.0.0
Outside ne false req sess sv a = Refused sess sv a

-- Both answers keep the state.
pub first_either :
    {S A B : Type 0} (p : S) (x : B) (y : A → B) (o : Option A)
    → ◌≡◌ {A = S} (elim o as (λ _. S × B) [ none ↦ (p, x) | some a ↦ (p, y a) ]).0 p
first_either p x y none = refl
first_either p x y (some a) = refl

module _ {T : Type 0} (R : Tables T) (ne : NodeEnv) where
  refused :
      (code : ℕ) (sess : ClientSession) (sv : NodeServices T)
      → (code ≡ 401) ⊎ (code ≡ 403)
      → Refused sess sv ((sess, sv), NodeResponse.error code)
  refused code sess sv (inl h) = (refl, inl (ap NodeResponse.error h))
  refused code sess sv (inr h) = (refl, inr (ap NodeResponse.error h))

  unchanged :
      {req : ClientRequest} (sess : ClientSession) (sv : NodeServices T) (a : Answer T)
      → a.0 ≡ (sess, sv)
      → Outside ne true req sess sv a
  unchanged sess sv a h = (subst (λ st. OnlyDht sv st.1) (sym h) refl, inl (ap (λ st. st.0) h))

  authenticate-Outside :
      (now : Moment) (pk sig_r sig_s nonce : Bytes) (sess : ClientSession) (sv : NodeServices T)
      → Outside ne true
          (ClientRequest.authenticate pk sig_r sig_s nonce)
          sess
          sv
          (handle_authenticate R ne now pk sig_r sig_s nonce sess sv)
  unfolding handle_authenticate
  authenticate-Outside now pk sig_r sig_s nonce sess sv =
      let req = ClientRequest.authenticate pk sig_r sig_s nonce in
      not_cases (Outside ne true req sess sv) (ne.env.valid_key pk) _ _ (λ h. (refl, inl refl))
        (λ h.
          not_cases (Outside ne true req sess sv) (ne.verify_strict pk nonce (sig_r ++ sig_s)) _ _
            (λ k. (refl, inl refl)) (λ k. (refl, inr (pk, sig_r, sig_s, nonce, refl, k, refl))))

  store_peer_info-Outside :
      (now : Moment) (p : PeerInfoRequest) (sess : ClientSession) (sv : NodeServices T)
      → Outside ne true
          (ClientRequest.store_peer_info p)
          sess
          sv
          (handle_store_peer_info ne now p sess sv)
  unfolding handle_store_peer_info
  store_peer_info-Outside now p sess sv =
      if_cases (Outside ne true (ClientRequest.store_peer_info p) sess sv)
        (peer_info_is_signed ne p) _ _ (λ h. (refl, inl refl)) (λ h. (refl, inl refl))

  Outside-new :
      (now : Moment) (req : ClientRequest) (js : List Bytes) (sv : NodeServices T)
      → Outside ne
          (is_public req)
          req
          (record { client_pk = none; joined_communities = js })
          sv
          (dispatch R ne now req (record { client_pk = none; joined_communities = js }) sv)
  unfolding dispatch handle_join_community handle_send_dm handle_get_dms handle_gossip
      handle_push_history handle_fetch_manifest handle_push_manifest
  Outside-new now (ClientRequest.authenticate pk sig_r sig_s nonce) js sv =
      authenticate-Outside now pk sig_r sig_s nonce _ sv
  Outside-new now (ClientRequest.join_community c i p) js sv = refused 401 _ sv (inl refl)
  Outside-new now (ClientRequest.send_message c ch n x) js sv = refused 401 _ sv (inl refl)
  Outside-new now (ClientRequest.get_messages c ch n) js sv = refused 401 _ sv (inl refl)
  Outside-new now (ClientRequest.send_dm r e) js sv = refused 401 _ sv (inl refl)
  Outside-new now (ClientRequest.get_dms n) js sv = refused 401 _ sv (inl refl)
  Outside-new now (ClientRequest.fetch_manifest c) js sv = refused 401 _ sv (inl refl)
  Outside-new now (ClientRequest.find_node t) js sv =
      unchanged _ sv (handle_find_node ne now t _ sv) (first_either (_, sv) _ _ sv.dht)
  Outside-new now (ClientRequest.store_dht_record u a) js sv = (refl, inl refl)
  Outside-new now ClientRequest.heartbeat js sv = (refl, inl refl)
  Outside-new now (ClientRequest.gossip t d) js sv = refused 401 _ sv (inl refl)
  Outside-new now (ClientRequest.push_manifest p) js sv = refused 403 _ sv (inr refl)
  Outside-new now (ClientRequest.push_history c ch es) js sv = refused 403 _ sv (inr refl)
  Outside-new now (ClientRequest.store_community_peer c n a) js sv = (refl, inl refl)
  Outside-new now (ClientRequest.find_community_peers c) js sv =
      unchanged _ sv (handle_find_community_peers ne now c _ sv) (first_either (_, sv) _ _ sv.dht)
  Outside-new now (ClientRequest.store_peer_info p) js sv = store_peer_info-Outside now p _ sv
  Outside-new now (ClientRequest.find_peer_info i) js sv =
      unchanged _ sv (handle_find_peer_info ne now i _ sv) (first_either (_, sv) _ _ sv.dht)

  -- From a client that has not authenticated, a public request changes nothing of the services but
  -- the state of the DHT, and nothing of the session but that an `Authenticate` gives it the key that
  -- it proves; one that is not public changes nothing at all and is answered with error 401 or 403.
  pub dispatch-Outside :
      (now : Moment) (req : ClientRequest) (sess : ClientSession) (sv : NodeServices T)
      → sess.client_pk ≡ none
      → Outside ne (is_public req) req sess sv (dispatch R ne now req sess sv)
  dispatch-Outside now req sess sv h =
      subst
        (λ o.
          let s : ClientSession = record {
            client_pk = o;
            joined_communities = sess.joined_communities;
          } in
          Outside ne (is_public req) req s sv (dispatch R ne now req s sv))
        (sym h) (Outside-new now req sess.joined_communities sv)
