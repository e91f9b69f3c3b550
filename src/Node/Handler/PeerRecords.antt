-- ===== src/Node/Handler/PeerRecords.antt =====
-- The peer records of a node's DHT state under the requests of its clients.
use bit_cord.Prelude.{
  ◌≡◌, refl, ap, ◌∙◌, ◌⊎◌, inl, inr, true, Bytes, ◌++◌, Option, none, some, arith, Bool-cases,
  nat_eq, list_eq, list_eqb, list_eqb_iff, ◌==◌, if_cases, elim_cases, map_some,
}
use bit_cord.Prelude.Map.{get, get-insert}
use bit_cord.Dht.NodeId.{NodeId, distance, bucket_index}
use bit_cord.Dht.Routing.{
  NodeAddr, DhtState, PeerInfoRecord, add_peer, add_mailbox_record, add_community_peer_record,
  add_peer_info_record,
}
use bit_cord.Node.Table.{Tables}
use bit_cord.Node.Protocol.{ClientRequest, PeerInfoRequest}
use bit_cord.Node.Session.{ClientSession, NodeServices, NodeEnv, Moment}
use bit_cord.Node.Requests.Messages.{register_mailbox}
use bit_cord.Node.Requests.Lookups.{peer_info_is_signed, peer_info_message, info_record, on_dht}
use bit_cord.Node.Handler.{dispatch}
use bit_cord.Node.Handler.Sends.{notify_joined_only, push_dm_only, register_mailbox_only}
use bit_cord.Node.Handler.Outcomes.{Outcomes}
use bit_cord.Node.Handler.Answers.{outcome}

add_peer-peer_infos :
    (s : DhtState) (id : NodeId) (addr : NodeAddr) → (add_peer s id addr).peer_infos ≡ s.peer_infos
unfolding add_peer
add_peer-peer_infos s id addr =
    let P : DhtState → Type 0 = λ s'. s'.peer_infos ≡ s.peer_infos in
    if_cases P (id == s.node_id) _ _ (λ h. refl)
      (λ h. elim_cases P (bucket_index (distance s.node_id id)) _ _ (λ n. refl) (λ i n. refl))

-- The record of the DHT state, if the node has one, for a peer.
abbrev pub info_of : Option DhtState → Bytes → Option PeerInfoRecord
info_of none peer_id = none
info_of (some s) peer_id = get s.peer_infos peer_id

infos_same :
    (f : DhtState → DhtState) (o : Option DhtState) (peer_id : Bytes)
    → ((s : DhtState) → (f s).peer_infos ≡ s.peer_infos)
    → info_of (map_some f o) peer_id ≡ info_of o peer_id
infos_same f none peer_id h = refl
infos_same f (some s) peer_id h = ap (λ m. get m peer_id) (h s)

info_added :
    (o : Option DhtState) (id : Bytes) (rec : PeerInfoRecord) (peer_id : Bytes)
    → (info_of (map_some (λ s. add_peer_info_record s id rec) o) peer_id ≡ info_of o peer_id)
      ⊎ ((info_of (map_some (λ s. add_peer_info_record s id rec) o) peer_id ≡ some rec)
          × (id ≡ peer_id))
unfolding add_peer_info_record
info_added none id rec peer_id = inl refl
info_added (some s) id rec peer_id =
    let after = get-insert s.peer_infos id peer_id rec in
    elim (Bool-cases (list_eqb id peer_id)) [
      | inl t ↦ inr (after ∙ rw t refl, (list_eqb_iff id peer_id).0 t)
      | inr f ↦ inl (after ∙ rw f refl)
    ]

module _ {T : Type 0} (R : Tables T) (ne : NodeEnv) (now : Moment) (sess : ClientSession)
    (sv : NodeServices T) where
  -- The request stores the record, under the hash of a key that has signed it.
  abbrev pub StoredBy : ClientRequest → Bytes → Option PeerInfoRecord → Type 0
  StoredBy req peer_id o =
      (p : PeerInfoRequest) × (req ≡ ClientRequest.store_peer_info p)
      × (o ≡ some (info_record now p))
      × (p.peer_id ≡ peer_id)
      × (ne.env.user_id_of p.ed25519_pk ≡ peer_id)
      × (ne.verify_strict p.ed25519_pk (peer_info_message ne p) (p.sig_r ++ p.sig_s) ≡ true)

  abbrev KeptOrStored : Bytes → ClientRequest → NodeServices T → Type 0
  KeptOrStored peer_id req sv' =
      (info_of sv'.dht peer_id ≡ info_of sv.dht peer_id)
      ⊎ StoredBy req peer_id (info_of sv'.dht peer_id)

  signed_parts :
      (p : PeerInfoRequest)
      → peer_info_is_signed ne p ≡ true
      → (ne.env.user_id_of p.ed25519_pk ≡ p.peer_id)
        × (ne.verify_strict p.ed25519_pk (peer_info_message ne p) (p.sig_r ++ p.sig_s) ≡ true)
  unfolding peer_info_is_signed
  signed_parts p h = elim (Bool-cases (ne.env.user_id_of p.ed25519_pk == p.peer_id)) [
    | inr f ↦ ground (arith, rw (peer_info_is_signed, f) at h)
    | inl t ↦ elim (Bool-cases (ne.env.valid_key p.ed25519_pk)) [
      | inr f ↦ ground (arith, rw (peer_info_is_signed, t, f) at h)
      | inl v ↦ (
        (list_eqb_iff (ne.env.user_id_of p.ed25519_pk) p.peer_id).0 t,
        rw (peer_info_is_signed, t, v) at h,
      )
    ]
  ]

  info_stored :
      (p : PeerInfoRequest) (peer_id : Bytes)
      → peer_info_is_signed ne p ≡ true
      → KeptOrStored peer_id
          (ClientRequest.store_peer_info p)
          (on_dht ne now (λ s. add_peer_info_record s p.peer_id (info_record now p)) sv)
  info_stored p peer_id h =
      let (hashed, signed) = signed_parts p h in
      elim (info_added sv.dht p.peer_id (info_record now p) peer_id) [
        | inl same ↦ inl same
        | inr (stored, is) ↦ inr (p, refl, stored, is, hashed ∙ is, signed)
      ]

  records_outcomes :
      (peer_id : Bytes) → Outcomes R ne now sess sv (λ req a. KeptOrStored peer_id req a.0.1)
  unfolding add_mailbox_record add_community_peer_record
  records_outcomes peer_id = record {
    on_error = λ req code. inl refl;
    on_lookup = λ req r h. inl refl;
    on_authenticate = λ pk r s n h k. inl (
        infos_same (λ s. add_peer s pk now.remote_addr) sv.dht peer_id
          (λ s. add_peer-peer_infos s pk now.remote_addr));
    on_rejoin = λ cert i p h k. inl refl;
    on_join = λ cert i p h k. inl (
        ap (λ (v : NodeServices T). info_of v.dht peer_id)
          (notify_joined_only R ne now _ cert.community_pk i));
    on_send = λ c ch n x seq db h k. inl refl;
    on_messages = λ c ch n es h k. inl refl;
    on_send_dm = λ r e pk seq db h k. inl (
        ap (λ (v : NodeServices T). info_of v.dht peer_id)
          (push_dm_only R ne now (register_mailbox R ne now (record sv { store = db }) r) r _)
        ∙ ap (λ (v : NodeServices T). info_of v.dht peer_id)
            (register_mailbox_only R ne now (record sv { store = db }) r));
    on_dms = λ n pk es h k. inl refl;
    on_manifest = λ c meta m h k l. inl refl;
    on_gossip = λ t d pk h. inl refl;
    on_push_manifest = λ p db h k. inl refl;
    on_push_history = λ c ch es h. inl refl;
    on_mailbox = λ u a.
        inl (infos_same (λ s. add_mailbox_record s now.instant u a) sv.dht peer_id (λ s. refl));
    on_community_peer = λ c n a. inl (
        infos_same
          (λ s.
            add_community_peer_record s c
              (record { node_pk = n; addr = a; announced_at = now.unix }))
          sv.dht peer_id (λ s. refl));
    on_peer_info = λ p h. info_stored p peer_id h;
  }

  -- A request of a client leaves the record of every peer in the node's DHT state, or it is a `StorePeerInfo` and
  -- the record is its record, under the hash of a key that has signed it.
  pub dispatch-peer_infos :
      (req : ClientRequest) (peer_id : Bytes)
      → (info_of (dispatch R ne now req sess sv).0.1.dht peer_id ≡ info_of sv.dht peer_id)
        ⊎ StoredBy req peer_id (info_of (dispatch R ne now req sess sv).0.1.dht peer_id)
  dispatch-peer_infos req peer_id = outcome R ne now sess sv _ (records_outcomes peer_id) req
