-- ===== src/Node/Handler/Delivery.antt =====
-- What the node pushes to its clients, and a message from its sender to a reader.
use bit_cord.Prelude.{
  ℕ, ◌≡◌, refl, sym, ap, ◌∙◌, Bool, true, false, not, Bytes, List, [], ◌∷◌, ◌++◌, Option, none,
  some, All, append-nil, if◌then◌else◌, arith, length, nat_eq, list_eq, list_eqb_refl,
}
use bit_cord.Prelude.Text.{hex}
use bit_cord.State.MessageLog.{LogEntry}
use bit_cord.Node.Table.{Tables, IsLawful, last_item}
use bit_cord.Node.Store.{get_messages, log_range}
use bit_cord.Node.Store.Rows.{NextFits}
use bit_cord.Node.Store.Log.{IsFaithful, IsLogs, numbered, append_message-get_messages}
use bit_cord.Node.Protocol.{ClientRequest, NodeResponse, NodePush}
use bit_cord.Node.Session.{
  ClientSession, NodeServices, NodeEnv, Moment, PushPayload, Answer, is_authenticated, has_joined,
  send_push,
}
use bit_cord.Node.Requests.Messages.{
  sent_entry, push_dm, register_mailbox, handle_send_message, handle_get_messages,
}
use bit_cord.Node.Handler.{dispatch}
use bit_cord.Node.Handler.Sends.{notify_joined_only, register_mailbox_only}
use bit_cord.Node.Handler.Outcomes.{Outcomes}
use bit_cord.Node.Handler.Answers.{outcome}

-- A channel's message is for those who have joined the sender's community, a direct message comes from an
-- authenticated client, and gossip names its sender's key.
abbrev pub Rightful : ClientSession → PushPayload → Type 0
Rightful sess (some c, NodePush.new_message ch e) = has_joined sess c ≡ true
Rightful sess (none, NodePush.new_dm e recipient_pk) = is_authenticated sess ≡ true
Rightful sess (none, NodePush.gossip_message topic source payload) =
    (pk : Bytes) × (sess.client_pk ≡ some pk) × (source ≡ hex pk)
Rightful sess _ = ⊥

pass_both :
    {A : Type 0} (b c : Bool) (x y z : A)
    → b ≡ true
    → c ≡ true
    → (if not b then x else if not c then y else z) ≡ z
pass_both true true x y z h k = refl
pass_both false c x y z h k = ground (arith, h)
pass_both true false x y z h k = ground (arith, k)

module _ {T : Type 0} (R : Tables T) (ne : NodeEnv) (now : Moment) (sess : ClientSession)
    (sv : NodeServices T) where
  -- The pushes that have been added.
  abbrev pub Added : List PushPayload → Type 0
  Added pushes = (ps : List PushPayload) × (pushes ≡ sv.pushes ++ ps) × All (Rightful sess) ps

  none-Added : (pushes : List PushPayload) → pushes ≡ sv.pushes → Added pushes
  none-Added pushes h = ([], h ∙ sym (append-nil sv.pushes), tt)

  one-Added :
      (pushes : List PushPayload) (p : PushPayload)
      → pushes ≡ sv.pushes ++ p ∷ []
      → Rightful sess p
      → Added pushes
  one-Added pushes p h r = (p ∷ [], h, (r, tt))

  dm-Added :
      (sv' : NodeServices T) (r : Bytes) (o : Option (List LogEntry))
      → sv'.pushes ≡ sv.pushes
      → is_authenticated sess ≡ true
      → Added (push_dm R ne now sv' r o).pushes
  dm-Added sv' r none h a = none-Added _ h
  dm-Added sv' r (some []) h a = none-Added _ h
  dm-Added sv' r (some (e ∷ es)) h a =
      one-Added _ (none, NodePush.new_dm e r) (ap (λ ps. ps ++ (none, NodePush.new_dm e r) ∷ []) h)
        a

  pushes_outcomes : Outcomes R ne now sess sv (λ req a. Added a.0.1.pushes)
  pushes_outcomes = record {
    on_error = λ req code. none-Added sv.pushes refl;
    on_lookup = λ req r h. none-Added sv.pushes refl;
    on_authenticate = λ pk r s n h k. none-Added _ refl;
    on_rejoin = λ cert i p h k. none-Added _ refl;
    on_join = λ cert i p h k.
        none-Added _ (ap (λ v. v.pushes) (notify_joined_only R ne now _ cert.community_pk i));
    on_send = λ c ch n x seq db h k. one-Added _ _ refl h;
    on_messages = λ c ch n es h k. none-Added sv.pushes refl;
    on_send_dm = λ r e pk seq db h k.
        dm-Added (register_mailbox R ne now (record sv { store = db }) r) r _
          (ap (λ v. v.pushes) (register_mailbox_only R ne now (record sv { store = db }) r))
          (ground (arith, h));
    on_dms = λ n pk es h k. none-Added sv.pushes refl;
    on_manifest = λ c meta m h k l. none-Added sv.pushes refl;
    on_gossip = λ t d pk h. one-Added _ _ refl (pk, h, refl);
    on_push_manifest = λ p db h k. none-Added _ refl;
    on_push_history = λ c ch es h. none-Added _ refl;
    on_mailbox = λ u a. none-Added _ refl;
    on_community_peer = λ c n a. none-Added _ refl;
    on_peer_info = λ p h. none-Added _ refl;
  }

  -- A request only adds pushes, and each is rightful: the message of a channel is for the sessions that
  -- have joined a community that the sender has joined, the pushes without a community are direct
  -- messages of an authenticated client and gossip under its sender's own key.
  pub dispatch-pushes : (req : ClientRequest) → Added (dispatch R ne now req sess sv).0.1.pushes
  dispatch-pushes req = outcome R ne now sess sv _ pushes_outcomes req

module _ {T : Type 0} (R : Tables T) (ne : NodeEnv) where
  -- A message that a session sends to a channel of a joined community, on a log whose rows are as the
  -- store writes them, for an entry that the codec reads back, keys of the right sizes and a last number
  -- below the greatest: it is acknowledged with its number, pushed to the community, and any session
  -- that has joined the community reads it after the channel's earlier messages.
  pub send_message-get_messages :
      (now now' : Moment) (c ch nonce ciphertext : Bytes) (sess sess' : ClientSession)
      (sv : NodeServices T) (es : List LogEntry)
      → IsLawful R
      → IsFaithful ne.codec (sent_entry R ne now sess.client_pk nonce ciphertext)
      → IsLogs R ne.codec sv.store
      → length c ≡ 32
      → length ch ≡ 16
      → NextFits 48 (last_item (log_range R ne.codec sv.store c ch 0))
      → is_authenticated sess ≡ true
      → has_joined sess c ≡ true
      → is_authenticated sess' ≡ true
      → has_joined sess' c ≡ true
      → get_messages R ne.codec sv.store c ch 0 ≡ some es
      → (seq : ℕ) × (sv' : NodeServices T) × (dispatch R ne now
            (ClientRequest.send_message c ch nonce ciphertext)
            sess
            sv
          ≡ ((sess, sv'), NodeResponse.message_ack seq))
        × (sv'.pushes
            ≡ sv.pushes
              ++ (
                some c,
                NodePush.new_message ch
                    (numbered (sent_entry R ne now sess.client_pk nonce ciphertext) seq),
              )
                ∷ [])
        × IsLogs R ne.codec sv'.store
        × ((dispatch R ne now' (ClientRequest.get_messages c ch 0) sess' sv').1
            ≡ NodeResponse.messages
                (es ++ numbered (sent_entry R ne now sess.client_pk nonce ciphertext) seq ∷ []))
  unfolding dispatch handle_send_message handle_get_messages
  send_message-get_messages now now' c ch nonce ciphertext sess sess' sv es lawful faithful logs a b
        fits auth joined auth' joined' before =
      let e = sent_entry R ne now sess.client_pk nonce ciphertext in
      let (seq, db', wrote, logs', mail, read) =
        append_message-get_messages R ne.codec lawful sv.store (now.random 0) c ch e c ch faithful
          logs a b a b fits in
      let sv' : NodeServices T =
        send_push (record sv { store = db' }) (some c) (NodePush.new_message ch (numbered e seq)) in
      let sent : handle_send_message R ne now c ch nonce ciphertext sess sv
          ≡ ((sess, sv'), NodeResponse.message_ack seq) =
        rw (handle_send_message, wrote) refl in
      let after : get_messages R ne.codec db' c ch 0 ≡ some (es ++ numbered e seq ∷ []) =
        read ∙ rw (list_eqb_refl c, list_eqb_refl ch, before) refl in
      (
        seq,
        sv',
        pass_both (is_authenticated sess) (has_joined sess c) _ _ _ auth joined ∙ sent,
        refl,
        logs',
        ap (λ (x : Answer T). x.1)
              (pass_both (is_authenticated sess') (has_joined sess' c) _ _ _ auth' joined')
            ∙ rw (handle_get_messages, after) refl,
      )
