-- ===== src/Node/Handler/Replies.antt =====
-- What an answer of the node discloses, and what a refused request leaves.
use bit_cord.Prelude.{
  ℕ, ◌≡◌, refl, subst, true, Bytes, List, [], ◌∷◌, Option, none, some, All, keep, map, arith,
  Bool-cases, Option-cases, inl, inr,
}
use bit_cord.Community.Model.{ChannelManifest, SignedManifest, MembershipRecord}
use bit_cord.Community.NodeStore.{CommunityMeta}
use bit_cord.Node.Table.{Tables}
use bit_cord.Node.Store.{get_messages, get_dms}
use bit_cord.Node.Registry.{get_community_meta}
use bit_cord.Node.Protocol.{ClientRequest, NodeResponse}
use bit_cord.Node.Session.{
  ClientSession, NodeServices, NodeEnv, Moment, is_authenticated, has_joined,
}
use bit_cord.Node.Requests.Manifests.{is_live, client_key, with_client_key}
use bit_cord.Node.Handler.{dispatch}
use bit_cord.Node.Handler.Outcomes.{Outcomes, is_lookup}
use bit_cord.Node.Handler.Answers.{outcome}

module _ {T : Type 0} (R : Tables T) (ne : NodeEnv) (now : Moment) (sess : ClientSession)
    (sv : NodeServices T) where
  -- If the answer is an error, the state is as before.
  abbrev KeptOn : NodeResponse → ClientSession × NodeServices T → Type 0
  KeptOn (NodeResponse.error code) s = s ≡ (sess, sv)
  KeptOn _ s = Unit

  kept_lookup : (r : NodeResponse) → is_lookup r ≡ true → KeptOn r (sess, sv)
  kept_lookup (NodeResponse.error code) h = refl
  kept_lookup _ h = tt

  kept_outcomes : Outcomes R ne now sess sv (λ req a. KeptOn a.1 a.0)
  kept_outcomes = record {
    on_error = λ req code. refl;
    on_lookup = λ req r h. kept_lookup r h;
    on_authenticate = λ pk r s n h k. tt;
    on_rejoin = λ cert i p h k. tt;
    on_join = λ cert i p h k. tt;
    on_send = λ c ch n x seq db h k. tt;
    on_messages = λ c ch n es h k. tt;
    on_send_dm = λ r e pk seq db h k. tt;
    on_dms = λ n pk es h k. tt;
    on_manifest = λ c meta m h k l. tt;
    on_gossip = λ t d pk h. tt;
    on_push_manifest = λ p db h k. tt;
    on_push_history = λ c ch es h. tt;
    on_mailbox = λ u a. tt;
    on_community_peer = λ c n a. tt;
    on_peer_info = λ p h. tt;
  }

  -- A request that is answered with an error has changed neither the session nor the services.
  pub dispatch-error :
      (req : ClientRequest) (code : ℕ)
      → (dispatch R ne now req sess sv).1 ≡ NodeResponse.error code
      → (dispatch R ne now req sess sv).0 ≡ (sess, sv)
  dispatch-error req code h =
      subst (λ r. KeptOn r (dispatch R ne now req sess sv).0) h
        (outcome R ne now sess sv (λ req a. KeptOn a.1 a.0) kept_outcomes req)

  -- What an answer may contain of the database: the messages of a joined community, the client's own
  -- direct messages, the manifest with its live channels and no plain keys.
  abbrev pub Disclosed : ClientRequest → NodeResponse → Type 0
  Disclosed req (NodeResponse.messages es) =
      (c : Bytes) × (ch : Bytes) × (since : ℕ) × (req ≡ ClientRequest.get_messages c ch since)
      × (has_joined sess c ≡ true)
      × (get_messages R ne.codec sv.store c ch since ≡ some es)
  Disclosed req (NodeResponse.dms es) =
      (pk : Bytes) × (since : ℕ) × (req ≡ ClientRequest.get_dms since)
      × (sess.client_pk ≡ some pk)
      × (get_dms R ne.codec sv.store pk since ≡ some es)
  Disclosed req (NodeResponse.manifest m channels channel_keys members) =
      (c : Bytes) × (meta : CommunityMeta) × (req ≡ ClientRequest.fetch_manifest c)
      × (is_authenticated sess ≡ true)
      × (get_community_meta R ne.codec sv.store c ≡ some (some meta))
      × (meta.manifest ≡ some m)
      × (channel_keys ≡ [])
      × All (λ ch. is_live m ch ≡ true) channels
  Disclosed req _ = Unit

  key_is_live :
      (meta : CommunityMeta) (m : SignedManifest) (client : Option MembershipRecord)
      (ch : ChannelManifest)
      → is_live m ch ≡ true
      → is_live m (with_client_key R ne now meta.channel_keys client ch) ≡ true
  key_is_live meta m none ch h = h
  key_is_live meta m (some client) ch h =
      elim (Option-cases (client_key R ne now meta.channel_keys client ch)) [
        | inl n ↦ rw (with_client_key, n) h
        | inr (w, n) ↦ rw (with_client_key, n) h
      ]

  served_live :
      (meta : CommunityMeta) (m : SignedManifest) (client : Option MembershipRecord)
      (chs : List ChannelManifest)
      → All
          (λ ch. is_live m ch ≡ true)
          (map (with_client_key R ne now meta.channel_keys client) (keep (is_live m) chs))
  served_live meta m client [] = tt
  served_live meta m client (ch ∷ chs) = elim (Bool-cases (is_live m ch)) [
    | inl t ↦ rw t (key_is_live meta m client ch t, served_live meta m client chs)
    | inr f ↦ rw f (served_live meta m client chs)
  ]

  lookup-Disclosed : (req : ClientRequest) (r : NodeResponse) → is_lookup r ≡ true → Disclosed req r
  lookup-Disclosed req (NodeResponse.messages es) h = ground arith
  lookup-Disclosed req (NodeResponse.dms es) h = ground arith
  lookup-Disclosed req (NodeResponse.manifest m a b c) h = ground arith
  lookup-Disclosed req _ h = tt

  outcomes-Disclosed : Outcomes R ne now sess sv (λ req a. Disclosed req a.1)
  outcomes-Disclosed = record {
    on_error = λ req code. tt;
    on_lookup = lookup-Disclosed;
    on_authenticate = λ pk r s n h k. tt;
    on_rejoin = λ cert i p h k. tt;
    on_join = λ cert i p h k. tt;
    on_send = λ c ch n x seq db h k. tt;
    on_messages = λ c ch n es h k. (c, ch, n, refl, h, k);
    on_send_dm = λ r e pk seq db h k. tt;
    on_dms = λ n pk es h k. (pk, n, refl, h, k);
    on_manifest =
        λ c meta m h k l. (c, meta, refl, h, k, l, refl, served_live meta m _ meta.channels);
    on_gossip = λ t d pk h. tt;
    on_push_manifest = λ p db h k. tt;
    on_push_history = λ c ch es h. tt;
    on_mailbox = λ u a. tt;
    on_community_peer = λ c n a. tt;
    on_peer_info = λ p h. tt;
  }

  -- An answer with messages is one to `get_messages` of a community that the session has joined, and
  -- has what the database returns; an answer with direct messages has those of the key with which the
  -- session has authenticated; a manifest is the stored one, to an authenticated session, with no
  -- plain channel keys and only channels that the manifest lists.
  pub dispatch-Disclosed : (req : ClientRequest) → Disclosed req (dispatch R ne now req sess sv).1
  dispatch-Disclosed req =
      outcome R ne now sess sv (λ req a. Disclosed req a.1) outcomes-Disclosed req
