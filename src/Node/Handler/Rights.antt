-- ===== src/Node/Handler/Rights.antt =====
-- By what right a session has its communities.
use bit_cord.Prelude.{
  ℕ, ◌≡◌, refl, ◌⊎◌, inl, inr, Bool, true, false, not, Bytes, List, [], ◌∷◌, ◌++◌, Option, none,
  some, any, arith, Bool-cases, String, list_eq, nat_eq, list_eqb, list_eqb_iff, ◌==◌,
  if◌then◌else◌, subst,
}
use bit_cord.Community.NodeStore.{HostingCert}
use bit_cord.Node.Table.{Tables}
use bit_cord.Node.Protocol.{ClientRequest}
use bit_cord.Node.Session.{
  ClientSession, NodeServices, NodeEnv, Moment, is_authenticated, has_joined, new_session,
  cert_verify,
}
use bit_cord.Node.Requests.Join.{join_refusal, is_member, password_fits}
use bit_cord.Node.Handler.{dispatch, serve}
use bit_cord.Node.Handler.Outcomes.{Outcomes}
use bit_cord.Node.Handler.Answers.{outcome}

any-push :
    (c x : Bytes) (js : List Bytes)
    → any (λ pk. pk == c) (js ++ x ∷ []) ≡ true
    → (any (λ pk. pk == c) js ≡ true) ⊎ (x ≡ c)
any-push c x [] h = elim (Bool-cases (list_eqb x c)) [
  | inl t ↦ inr ((list_eqb_iff x c).0 t)
  | inr f ↦ ground (arith, h, f)
]
any-push c x (j ∷ js) h = elim (Bool-cases (list_eqb j c)) [
  | inl t ↦ inl (rw t refl)
  | inr f ↦ rw f (any-push c x js (rw f at h))
]

let_in :
    (valid member password node cert : Bool)
    → ◌≡◌ {A = Option ℕ}
        (if not valid
          then some 400
          else if member
          then none
          else if not password
          then some 403
          else if not node
          then some 403
          else if not cert
          then some 403
          else none)
        none
    → (member ≡ true) ⊎ ((password ≡ true) × (node ≡ true) × (cert ≡ true))
let_in valid true password node cert h = inl refl
let_in valid false true true true h = inr (refl, refl, refl)
let_in valid false false node cert h = ground arith
let_in valid false true false cert h = ground arith
let_in valid false true true false h = ground arith

module _ {T : Type 0} (R : Tables T) (ne : NodeEnv) where
  -- The request joins the community: its client is a member, or it has a certificate for this node that the
  -- community has signed and the node's password, if it has one.
  abbrev pub JoinedBy : Moment → ClientRequest → ClientSession → NodeServices T → Bytes → Type 0
  JoinedBy now req sess sv c =
      (cert : HostingCert) × (i : Option Bytes) × (password : Option String) × (req
        ≡ ClientRequest.join_community cert i password)
      × (cert.community_pk ≡ c)
      × (is_authenticated sess ≡ true)
      × ((is_member R ne now sv.store sess.client_pk c ≡ true)
          ⊎ ((password_fits sv.join_password password ≡ true)
              × (cert.node_pk ≡ sv.node_pk)
              × (cert_verify ne.env now.unix cert c ≡ true)))

  admitted :
      (now : Moment) (cert : HostingCert) (password : Option String) (sess : ClientSession)
      (sv : NodeServices T)
      → join_refusal R ne now cert password sess sv ≡ none
      → (is_member R ne now sv.store sess.client_pk cert.community_pk ≡ true)
        ⊎ ((password_fits sv.join_password password ≡ true)
            × (cert.node_pk ≡ sv.node_pk)
            × (cert_verify ne.env now.unix cert cert.community_pk ≡ true))
  unfolding join_refusal
  admitted now cert password sess sv h =
      elim (let_in (ne.env.valid_key cert.community_pk)
        (is_member R ne now sv.store sess.client_pk cert.community_pk)
        (password_fits sv.join_password password) (cert.node_pk == sv.node_pk)
        (cert_verify ne.env now.unix cert cert.community_pk) h) [
          | inl m ↦ inl m
          | inr (p, n, v) ↦ inr (p, (list_eqb_iff cert.node_pk sv.node_pk).0 n, v)
        ]

  rights_outcomes :
      (now : Moment) (sess : ClientSession) (sv : NodeServices T) (c : Bytes)
      → Outcomes R ne now sess sv (λ req a.
        has_joined a.0.0 c ≡ true → (has_joined sess c ≡ true) ⊎ JoinedBy now req sess sv c)
  rights_outcomes now sess sv c = record {
    on_error = λ req code h. inl h;
    on_lookup = λ req r l h. inl h;
    on_authenticate = λ pk r s n h k j. inl j;
    on_rejoin = λ cert i p h k j. inl j;
    on_join = λ cert i p h k j. elim (any-push c cert.community_pk sess.joined_communities j) [
      | inl old ↦ inl old
      | inr same ↦ inr (
        cert,
        i,
        p,
        refl,
        same,
        h,
        subst
            (λ x.
              (is_member R ne now sv.store sess.client_pk x ≡ true)
              ⊎ ((password_fits sv.join_password p ≡ true)
                  × (cert.node_pk ≡ sv.node_pk)
                  × (cert_verify ne.env now.unix cert x ≡ true)))
            same (admitted now cert p sess sv k),
      )
    ];
    on_send = λ ch c' n x seq db h k j. inl j;
    on_messages = λ ch c' n es h k j. inl j;
    on_send_dm = λ r e pk seq db h k j. inl j;
    on_dms = λ n pk es h k j. inl j;
    on_manifest = λ c' meta m h k l j. inl j;
    on_gossip = λ t d pk h j. inl j;
    on_push_manifest = λ p db h k j. inl j;
    on_push_history = λ c' ch es h j. inl j;
    on_mailbox = λ u a j. inl j;
    on_community_peer = λ c' n a j. inl j;
    on_peer_info = λ p h j. inl j;
  }

  joined :
      (now : Moment) (req : ClientRequest) (sess : ClientSession) (sv : NodeServices T) (c : Bytes)
      → has_joined (dispatch R ne now req sess sv).0.0 c ≡ true
      → (has_joined sess c ≡ true) ⊎ JoinedBy now req sess sv c
  joined now req sess sv c = outcome R ne now sess sv _ (rights_outcomes now sess sv c) req

  -- One of the requests, in the state that it finds, joins the community.
  abbrev pub JoinedOnTheWay :
      List (Moment × ClientRequest) → ClientSession → NodeServices T → Bytes → Type 0
  JoinedOnTheWay [] sess sv c = ⊥
  JoinedOnTheWay ((now, req) ∷ reqs) sess sv c =
      let next = (dispatch R ne now req sess sv).0 in
      JoinedBy now req sess sv c ⊎ JoinedOnTheWay reqs next.0 next.1 c

  serve_joined :
      (reqs : List (Moment × ClientRequest)) (sess : ClientSession) (sv : NodeServices T)
      (c : Bytes)
      → has_joined (serve R ne reqs sess sv).0 c ≡ true
      → (has_joined sess c ≡ true) ⊎ JoinedOnTheWay reqs sess sv c
  serve_joined [] sess sv c h = inl h
  serve_joined ((now, req) ∷ reqs) sess sv c h =
      let next = (dispatch R ne now req sess sv).0 in
      elim (serve_joined reqs next.0 next.1 c h) [
        | inr later ↦ inr (inr later)
        | inl before ↦ elim (joined now req sess sv c before) [
          | inl old ↦ inl old
          | inr by ↦ inr (inl by)
        ]
      ]

  -- Whatever requests a connection has made, every community that its session has joined was joined
  -- by one of them, from an authenticated client that was then a member of the community as the node
  -- holds it, or that had the node's password, if there is one, and a certificate for this node that
  -- is signed by the community and not expired.
  pub serve-joined :
      (reqs : List (Moment × ClientRequest)) (sv : NodeServices T) (c : Bytes)
      → has_joined (serve R ne reqs new_session sv).0 c ≡ true
      → JoinedOnTheWay reqs new_session sv c
  serve-joined reqs sv c h = elim (serve_joined reqs new_session sv c h) [
    | inl none' ↦ ground (arith, none')
    | inr by ↦ by
  ]
