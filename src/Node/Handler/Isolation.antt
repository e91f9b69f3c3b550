-- ===== src/Node/Handler/Isolation.antt =====
-- The logs of the communities that a session has not joined.
use bit_cord.Prelude.{
  ℕ, suc, ◌^◌, ◌<◌, ◌≡◌, refl, sym, ap, ◌∙◌, Bool, true, false, ◌&&◌, Bytes, List, [], ◌∷◌, Option,
  some, or_else, length, nat_eq, list_eq, list_eqb, list_eqb_iff, arith, Option-cases, Bool-cases,
  inl, inr, elim_cases,
}
use bit_cord.State.MessageLog.{LogEntry}
use bit_cord.Community.NodeStore.{CommunityMeta, HostingCert}
use bit_cord.Node.Table.{Tables, IsLawful}
use bit_cord.Node.Store.{
  Codec, NodeDb, DmEnvelope, append_message, get_messages, append_dm, dm_entry, seal_entry, encrypt,
}
use bit_cord.Node.Store.Apart.{append_message-apart}
use bit_cord.Node.Registry.{set_community_meta}
use bit_cord.Node.Protocol.{ClientRequest}
use bit_cord.Node.Session.{ClientSession, NodeServices, NodeEnv, Moment, has_joined}
use bit_cord.Node.Requests.Join.{host, stored_meta, empty_meta}
use bit_cord.Node.Requests.Messages.{write_entry, write_entries, register_mailbox}
use bit_cord.Node.Handler.{dispatch}
use bit_cord.Node.Handler.Sends.{notify_joined_only, push_dm_only, register_mailbox_only}
use bit_cord.Node.Handler.Outcomes.{Outcomes}
use bit_cord.Node.Handler.Answers.{outcome}

-- The arrays of a request that writes to a log have the sizes of their types.
abbrev pub IsSized : ClientRequest → Type 0
IsSized (ClientRequest.send_message c ch nonce ciphertext) = (length c ≡ 32) × (length ch ≡ 16)
IsSized (ClientRequest.push_history c ch entries) = (length c ≡ 32) × (length ch ≡ 16)
IsSized _ = Unit

abbrev pub is_gossip : ClientRequest → Bool
is_gossip (ClientRequest.gossip topic payload) = true
is_gossip _ = false

and_right : (a b : Bool) → (a && b) ≡ true → b ≡ true
and_right a b h = ground (arith, h)

-- The same logs under the same key.
abbrev SameLogs : {T : Type 0} → NodeDb T → NodeDb T → Type 0
SameLogs db db' = (db'.log ≡ db.log) × (db'.key ≡ db.key)

module _ {T : Type 0} (R : Tables T) (X : Codec) where
  read_same :
      (db db' : NodeDb T) (pk chan : Bytes) (since : ℕ)
      → SameLogs db db'
      → get_messages R X db' pk chan since ≡ get_messages R X db pk chan since
  unfolding get_messages
  read_same db db' pk chan since (l, k) =
      ap (λ t. get_messages R X (record db' { log = t }) pk chan since) l
      ∙ ap (λ key. get_messages R X (record db { key = key }) pk chan since) k

  set_community_meta-logs :
      (db : NodeDb T) (random pk : Bytes) (meta : CommunityMeta) (db' : NodeDb T)
      → set_community_meta R X db random pk meta ≡ some db'
      → SameLogs db db'
  unfolding set_community_meta
  set_community_meta-logs db random pk meta db' h = elim (Option-cases (X.meta_bytes meta)) [
    | inl n ↦ ground (arith, rw (set_community_meta, n) at h)
    | inr (plain, n) ↦ elim (Option-cases (encrypt R X db random plain)) [
      | inl m ↦ ground (arith, rw (set_community_meta, n, m) at h)
      | inr (value, m) ↦
          let wrote : some (record db { meta = R.insert db.meta pk value }) ≡ some db' =
            rw (set_community_meta, n, m) at h in
          (ap (λ o. (or_else o db').log) (sym wrote), ap (λ o. (or_else o db').key) (sym wrote))
    ]
  ]

  append_dm-logs :
      (db : NodeDb T) (random r pk : Bytes) (envelope : DmEnvelope) (id : _) (now seq : ℕ)
      (db' : NodeDb T)
      → append_dm R X db random r pk envelope id now ≡ some (seq, db')
      → SameLogs db db'
  append_dm-logs db random r pk envelope id now seq db' =
      let P : Option (ℕ × NodeDb T) → Type 0 = λ o. o ≡ some (seq, db') → SameLogs db db' in
      elim_cases P (X.envelope_bytes envelope) _ _ (λ n h. ground (arith, h))
        (λ plain n.
          elim_cases P (seal_entry R X db random (dm_entry R X db r pk plain id now)) _ _
            (λ m h. ground (arith, h))
            (λ value m h. (
              ap (λ (o : Option (ℕ × NodeDb T)). (or_else o (seq, db')).1.log) (sym h),
              ap (λ (o : Option (ℕ × NodeDb T)). (or_else o (seq, db')).1.key) (sym h),
            )))

module _ {T : Type 0} (R : Tables T) (ne : NodeEnv) (now : Moment) where
  host-logs : (db : NodeDb T) (cert : HostingCert) → SameLogs db (host R ne now db cert)
  host-logs db cert =
      let P : NodeDb T → Type 0 = λ d. SameLogs db d in
      elim_cases P (stored_meta R ne now db cert.community_pk) _ _
        (λ n.
          elim (Option-cases
            (set_community_meta R ne.codec db (now.random 0) cert.community_pk (empty_meta cert))) [
              | inl m ↦ rw m (refl, refl)
              | inr (db', m) ↦ rw m (
                  set_community_meta-logs R ne.codec db (now.random 0) cert.community_pk
                    (empty_meta cert) db' m)
            ])
        (λ meta n. (refl, refl))

  module _ (lawful : IsLawful R) (pk' chan' : Bytes) (since : ℕ) (a' : length pk' ≡ 32)
      (b' : length chan' ≡ 16) (fits : since < 2 ^ 64) where
    write_entry-apart :
        (db : NodeDb T) (i : ℕ) (pk chan : Bytes) (e : LogEntry)
        → length pk ≡ 32
        → length chan ≡ 16
        → list_eqb pk' pk ≡ false
        → get_messages R ne.codec (write_entry R ne now db i pk chan e) pk' chan' since
          ≡ get_messages R ne.codec db pk' chan' since
    write_entry-apart db i pk chan e a b other =
        elim_cases
          (λ (d : NodeDb T).
            get_messages R ne.codec d pk' chan' since ≡ get_messages R ne.codec db pk' chan' since)
          (append_message R ne.codec db (now.random i) pk chan e) _ _ (λ n. refl)
          (λ r h.
            append_message-apart R ne.codec lawful db (now.random i) pk chan e r.0 r.1 pk' chan'
              since h a b a' b' fits other)

    write_entries-apart :
        (db : NodeDb T) (i : ℕ) (pk chan : Bytes) (es : List LogEntry)
        → length pk ≡ 32
        → length chan ≡ 16
        → list_eqb pk' pk ≡ false
        → get_messages R ne.codec (write_entries R ne now db i pk chan es) pk' chan' since
          ≡ get_messages R ne.codec db pk' chan' since
    write_entries-apart db i pk chan [] a b other = refl
    write_entries-apart db i pk chan (e ∷ es) a b other =
        write_entries-apart (write_entry R ne now db i pk chan e) (suc i) pk chan es a b other
        ∙ write_entry-apart db i pk chan e a b other

    module _ (sess : ClientSession) (sv : NodeServices T)
        (outside : has_joined sess pk' ≡ false) where
      -- A joined community is another one.
      joined_other : (c : Bytes) → has_joined sess c ≡ true → list_eqb pk' c ≡ false
      joined_other c h = elim (Bool-cases (list_eqb pk' c)) [
        | inr f ↦ f
        | inl t ↦
            let same = (list_eqb_iff pk' c).0 t in
            absurd (ground (arith, outside, h, ap (has_joined sess) same))
      ]

      abbrev Untouched : ClientRequest → ClientSession × NodeServices T → Type 0
      Untouched req s =
          IsSized req
          → is_gossip req ≡ false
          → get_messages R ne.codec s.1.store pk' chan' since
            ≡ get_messages R ne.codec sv.store pk' chan' since

      by_logs :
          (db db' : NodeDb T)
          → db' ≡ db
          → SameLogs sv.store db
          → get_messages R ne.codec db' pk' chan' since
            ≡ get_messages R ne.codec sv.store pk' chan' since
      by_logs db db' h same =
          ap (λ d. get_messages R ne.codec d pk' chan' since) h
          ∙ read_same R ne.codec sv.store db pk' chan' since same

      isolation_outcomes : Outcomes R ne now sess sv (λ req a. Untouched req a.0)
      isolation_outcomes = record {
        on_error = λ req code z q. refl;
        on_lookup = λ req r h z q. refl;
        on_authenticate = λ pk r s n h k z q. refl;
        on_rejoin = λ cert i p h k z q. by_logs _ _ refl (host-logs sv.store cert);
        on_join = λ cert i p h k z q.
            by_logs (host R ne now sv.store cert) _
              (ap (λ v. v.store) (notify_joined_only R ne now _ cert.community_pk i))
              (host-logs sv.store cert);
        on_send = λ c ch n x seq db h k z q.
            append_message-apart R ne.codec lawful sv.store (now.random 0) c ch _ seq db pk' chan'
              since k z.0 z.1 a' b' fits (joined_other c h);
        on_messages = λ c ch n es h k z q. refl;
        on_send_dm = λ r e pk seq db h k z q.
            by_logs db _
              (ap (λ v. v.store)
                  (push_dm_only R ne now (register_mailbox R ne now (record sv { store = db }) r) r
                    _)
                ∙ ap (λ v. v.store) (register_mailbox_only R ne now (record sv { store = db }) r))
              (append_dm-logs R ne.codec sv.store _ r pk e _ _ seq db k);
        on_dms = λ n pk es h k z q. refl;
        on_manifest = λ c meta m h k l z q. refl;
        on_gossip = λ t d pk h z q. ground (arith, q);
        on_push_manifest = λ p db h k z q.
            by_logs db _ refl (set_community_meta-logs R ne.codec sv.store _ _ _ db k);
        on_push_history = λ c ch es h z q.
            write_entries-apart sv.store 0 c ch es z.0 z.1 (joined_other c (and_right _ _ h));
        on_mailbox = λ u a z q. refl;
        on_community_peer = λ c n a z q. refl;
        on_peer_info = λ p h z q. refl;
      }

-- A request of a session that has not joined a community leaves what is read of that community's
-- channels, from any number on, except for gossip; the keys have the sizes of their types and the
-- tables keep their laws.
pub dispatch-isolated :
    {T : Type 0} (R : Tables T) (ne : NodeEnv) (now : Moment) (req : ClientRequest)
    (sess : ClientSession) (sv : NodeServices T) (pk' chan' : Bytes) (since : ℕ)
    → IsLawful R
    → has_joined sess pk' ≡ false
    → IsSized req
    → is_gossip req ≡ false
    → length pk' ≡ 32
    → length chan' ≡ 16
    → since < 2 ^ 64
    → get_messages R ne.codec (dispatch R ne now req sess sv).0.1.store pk' chan' since
      ≡ get_messages R ne.codec sv.store pk' chan' since
dispatch-isolated R ne now req sess sv pk' chan' since lawful outside sized quiet a b fits =
    outcome R ne now sess sv _
      (isolation_outcomes R ne now lawful pk' chan' since a b fits sess sv outside) req sized quiet
