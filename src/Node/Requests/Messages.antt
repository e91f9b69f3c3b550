-- ===== src/Node/Requests/Messages.antt =====
-- crates/bitcord-core/src/node/handler.rs: the messages of channels, direct messages and gossip.
use bit_cord.Prelude.{
  ℕ, suc, Bool, false, not, Bytes, String, List, [], ◌∷◌, ◌++◌, Option, none, some, any, ◌&&◌, ◌==◌,
  if◌then◌else◌, nat_eq, list_eq,
}
use bit_cord.Prelude.Text.{hex, starts_with}
use bit_cord.State.MessageLog.{LogEntry}
use bit_cord.Community.Model.{RawMessage, ChannelManifest}
use bit_cord.Community.Model as Model
use bit_cord.Node.Table.{Tables}
use bit_cord.Node.Store.{NodeDb, DmEnvelope, append_message, get_messages, append_dm, get_dms}
use bit_cord.Node.Registry.{get_community_meta, all_communities}
use bit_cord.Node.Protocol.{
  new_message, new_dm, gossip_message, message_ack, messages, dm_ack, dms, gossip_ack, push_ack,
  error,
}
use bit_cord.Node.Session.{
  ClientSession, NodeServices, NodeEnv, Moment, Answer, is_authenticated, has_joined, send_push,
}

abbrev pub owns_channel : Bytes → ChannelManifest → Bool
owns_channel ch_id ch = ch.id == ch_id

module _ {T : Type 0} (R : Tables T) (ne : NodeEnv) (now : Moment) where
  -- The two guards of the requests on a community.
  abbrev pub guarded : ClientSession → NodeServices T → Bytes → Answer T → Answer T
  guarded sess sv community_pk answer =
      if not (is_authenticated sess)
      then ((sess, sv), error 401)
      else if not (has_joined sess community_pk)
      then ((sess, sv), error 403)
      else answer

  -- The entry without its number.
  abbrev pub sent_entry : Option Bytes → Bytes → Bytes → LogEntry
  sent_entry client_pk nonce ciphertext = record {
    seq = 0;
    nonce = nonce;
    ciphertext = ciphertext;
    message_id = now.message_id;
    author_id = elim client_pk [ none ↦ "" | some pk ↦ hex pk ];
    timestamp_ms = now.now_ms;
    deleted = false;
  }

  unfoldable pub handle_send_message :
      Bytes → Bytes → Bytes → Bytes → ClientSession → NodeServices T → Answer T
  unfolding append_message
  handle_send_message community_pk channel_id nonce ciphertext sess sv =
      let e = sent_entry sess.client_pk nonce ciphertext in
      elim (append_message R ne.codec sv.store (now.random 0) community_pk channel_id e) [
        | none ↦ ((sess, sv), error 500)
        | some (seq, db) ↦ (
          (
            sess,
            send_push (record sv { store = db }) (some community_pk)
                (new_message channel_id (record e { seq = seq })),
          ),
          message_ack seq,
        )
      ]

  unfoldable pub handle_get_messages : Bytes → Bytes → ℕ → ClientSession → NodeServices T → Answer T
  unfolding get_messages
  handle_get_messages community_pk channel_id since_seq sess sv =
      elim (get_messages R ne.codec sv.store community_pk channel_id since_seq) [
        | none ↦ ((sess, sv), error 500)
        | some entries ↦ ((sess, sv), messages entries)
      ]

  -- `register_mailbox` is started if the node has a DHT.
  abbrev pub register_mailbox : NodeServices T → Bytes → NodeServices T
  register_mailbox sv pk = elim sv.dht [
    | none ↦ sv
    | some s ↦ record sv { mailboxes = sv.mailboxes ++ pk ∷ [] }
  ]

  -- The first entry that `get_dms` returns from the number on.
  abbrev pub push_dm : NodeServices T → Bytes → Option (List LogEntry) → NodeServices T
  push_dm sv recipient_pk none = sv
  push_dm sv recipient_pk (some []) = sv
  push_dm sv recipient_pk (some (e ∷ es)) = send_push sv none (new_dm e recipient_pk)

  unfoldable pub handle_send_dm : Bytes → DmEnvelope → ClientSession → NodeServices T → Answer T
  handle_send_dm recipient_pk envelope sess sv = elim sess.client_pk [
    | none ↦ ((sess, sv), error 401)
    | some sender_pk ↦
        elim (append_dm R ne.codec sv.store (now.random 0) recipient_pk sender_pk envelope
          now.message_id now.now_ms) [
            | none ↦ ((sess, sv), error 500)
            | some (seq, db) ↦
                let sv' = register_mailbox (record sv { store = db }) recipient_pk in
                (
                  (sess, push_dm sv' recipient_pk (get_dms R ne.codec db recipient_pk seq)),
                  dm_ack seq,
                )
          ]
  ]

  unfoldable pub handle_get_dms : ℕ → ClientSession → NodeServices T → Answer T
  handle_get_dms since_seq sess sv = elim sess.client_pk [
    | none ↦ ((sess, sv), error 401)
    | some client_pk ↦ elim (get_dms R ne.codec sv.store client_pk since_seq) [
      | none ↦ ((sess, sv), error 500)
      | some entries ↦ ((sess, sv), dms entries)
    ]
  ]

  -- The first community whose metadata has the channel; metadata that cannot be read is skipped.
  abbrev pub owner_of : NodeDb T → Bytes → List Bytes → Option Bytes
  owner_of db ch_id [] = none
  owner_of db ch_id (cpk ∷ cpks) =
      let rest = owner_of db ch_id cpks in
      elim (get_community_meta R ne.codec db cpk) [
        | none ↦ rest
        | some none ↦ rest
        | some (some meta) ↦ if any (owns_channel ch_id) meta.channels then some cpk else rest
      ]

  abbrev pub gossip_entry : RawMessage → LogEntry
  gossip_entry msg = record {
    seq = 0;
    nonce = msg.nonce;
    ciphertext = msg.ciphertext;
    message_id = ne.env.id_text msg.id;
    author_id = hex msg.author_id;
    timestamp_ms = msg.timestamp;
    deleted = false;
  }

  -- A failed write is ignored.
  abbrev pub write_entry : NodeDb T → ℕ → Bytes → Bytes → LogEntry → NodeDb T
  write_entry db i community_pk channel_id e =
      elim (append_message R ne.codec db (now.random i) community_pk channel_id e) [
        | none ↦ db
        | some (seq, db') ↦ db'
      ]

  abbrev pub persist_gossip : NodeDb T → Option Model.ChannelEvent → NodeDb T
  persist_gossip db (some (Model.new_message msg)) =
      elim (owner_of db msg.channel_id (all_communities R ne.codec db)) [
        | none ↦ db
        | some cpk ↦ write_entry db 0 cpk msg.channel_id (gossip_entry msg)
      ]
  persist_gossip db _ = db

  -- A message on a channel's topic is stored.
  abbrev pub gossip_store : String → Bytes → NodeDb T → NodeDb T
  gossip_store topic data' db =
      if starts_with topic "/bitcord/channel/"
      then persist_gossip db (ne.env.decode_event data')
      else db

  unfoldable pub handle_gossip : String → Bytes → ClientSession → NodeServices T → Answer T
  handle_gossip topic data' sess sv = elim sess.client_pk [
    | none ↦ ((sess, sv), error 401)
    | some client_pk ↦
        let db = gossip_store topic data' sv.store in
        (
          (
            sess,
            send_push (record sv { store = db }) none (gossip_message topic (hex client_pk) data'),
          ),
          gossip_ack,
        )
  ]

  abbrev pub write_entries : NodeDb T → ℕ → Bytes → Bytes → List LogEntry → NodeDb T
  write_entries db i community_pk channel_id [] = db
  write_entries db i community_pk channel_id (e ∷ es) =
      write_entries (write_entry db i community_pk channel_id e) (suc i) community_pk channel_id es

  unfoldable pub handle_push_history :
      Bytes → Bytes → List LogEntry → ClientSession → NodeServices T → Answer T
  handle_push_history community_pk channel_id entries sess sv =
      if is_authenticated sess && has_joined sess community_pk
      then (
        (sess, record sv { store = write_entries sv.store 0 community_pk channel_id entries }),
        push_ack,
      )
      else ((sess, sv), error 403)
