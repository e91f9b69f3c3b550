-- ===== src/Node/Handler/Identity.antt =====
-- By what right a session has its key, and a peer's record its place.
use bit_cord.Prelude.{
  ◌≡◌, refl, ap, ◌⊎◌, inl, inr, true, Bytes, List, [], ◌∷◌, ◌++◌, some, or_else, arith, subst,
  list_eq, nat_eq,
}
use bit_cord.Node.Table.{Tables}
use bit_cord.Node.Protocol.{ClientRequest}
use bit_cord.Node.Session.{ClientSession, NodeServices, NodeEnv, Moment, new_session}
use bit_cord.Node.Handler.{dispatch, serve}
use bit_cord.Node.Handler.Outcomes.{Outcomes}
use bit_cord.Node.Handler.Answers.{outcome}

module _ {T : Type 0} (R : Tables T) (ne : NodeEnv) where
  -- The request proves the key: it has a signature of its nonce.
  abbrev pub Proves : ClientRequest → Bytes → Type 0
  Proves req pk =
      (sig_r : Bytes) × (sig_s : Bytes) × (nonce : Bytes) × (req
        ≡ ClientRequest.authenticate pk sig_r sig_s nonce)
      × (ne.env.valid_key pk ≡ true)
      × (ne.verify_strict pk nonce (sig_r ++ sig_s) ≡ true)

  identity_outcomes :
      (now : Moment) (sess : ClientSession) (sv : NodeServices T) (pk : Bytes)
      → Outcomes R ne now sess sv
          (λ req a. a.0.0.client_pk ≡ some pk → (sess.client_pk ≡ some pk) ⊎ Proves req pk)
  identity_outcomes now sess sv pk = record {
    on_error = λ req code h. inl h;
    on_lookup = λ req r l h. inl h;
    on_authenticate = λ pk' r s n h k j. inr (
        subst (λ x. Proves (ClientRequest.authenticate pk' r s n) x) (ap (λ o. or_else o []) j)
          (r, s, n, refl, h, k));
    on_rejoin = λ cert i p h k j. inl j;
    on_join = λ cert i p h k j. inl j;
    on_send = λ ch c' n x seq db h k j. inl j;
    on_messages = λ ch c' n es h k j. inl j;
    on_send_dm = λ r e pk seq db h k j. inl j;
    on_dms = λ n pk es h k j. inl j;
    on_manifest = λ c' meta m h k l j. inl j;
    on_gossip = λ t d pk h j. inl j;
    on_push_manifest = λ p db h k j. inl j;
    on_push_history = λ c' ch es h j. inl j;
    on_mailbox = λ u a j. inl j;
    on_community_peer = λ c' n a j. inl j;
    on_peer_info = λ p h j. inl j;
  }

  -- One of the requests proves the key.
  abbrev pub SomeProves : List (Moment × ClientRequest) → Bytes → Type 0
  SomeProves [] pk = ⊥
  SomeProves ((now, req) ∷ reqs) pk = Proves req pk ⊎ SomeProves reqs pk

  serve_proves :
      (reqs : List (Moment × ClientRequest)) (sess : ClientSession) (sv : NodeServices T)
      (pk : Bytes)
      → (serve R ne reqs sess sv).0.client_pk ≡ some pk
      → (sess.client_pk ≡ some pk) ⊎ SomeProves reqs pk
  serve_proves [] sess sv pk h = inl h
  serve_proves ((now, req) ∷ reqs) sess sv pk h =
      let next = (dispatch R ne now req sess sv).0 in
      elim (serve_proves reqs next.0 next.1 pk h) [
        | inr later ↦ inr (inr later)
        | inl before ↦
            elim (outcome R ne now sess sv _ (identity_outcomes now sess sv pk) req before) [
              | inl old ↦ inl old
              | inr by ↦ inr (inl by)
            ]
      ]

  -- Whatever requests a connection has made, if its session has a key, one of them was an
  -- `Authenticate` with that key, which is valid, and with its signature of the nonce that the request
  -- itself names.
  pub serve-Proves :
      (reqs : List (Moment × ClientRequest)) (sv : NodeServices T) (pk : Bytes)
      → (serve R ne reqs new_session sv).0.client_pk ≡ some pk
      → SomeProves reqs pk
  serve-Proves reqs sv pk h = elim (serve_proves reqs new_session sv pk h) [
    | inl before ↦ ground (arith, before)
    | inr by ↦ by
  ]
