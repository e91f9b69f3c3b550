-- ===== src/Tests/Handler.antt =====
-- A node with a password and a community's two messages, and clients that authenticate, join, send and
-- read. A signature is the signer's byte, 64 times.
use bit_cord.Prelude.{
  bytes_le, ℕ, ◌≡◌, refl, false, Bytes, List, [], ◌∷◌, ◌++◌, Option, none, some, arith, nat_eq,
  list_eq, string_eq, ◌⊎◌,
}
use bit_cord.Prelude.Text.{hex}
use bit_cord.Prelude.Map.{get}
use bit_cord.State.MessageLog.{LogEntry}
use bit_cord.Community.NodeStore.{HostingCert}
use bit_cord.Dht.Routing.{NodeAddr, new}
use bit_cord.Node.Keys.{to_be_bytes}
use bit_cord.Node.Table.{Items}
use bit_cord.Node.Store.{repeat_byte, read_values, get_messages}
use bit_cord.Node.Store.Log.{numbered, IsLogs}
use bit_cord.Node.Registry.{get_community_meta}
use bit_cord.Node.Protocol.{ClientRequest, NodeResponse, NodePush, PeerInfoRequest}
use bit_cord.Node.Session.{ClientSession, NodeServices, NodeEnv, Moment, new_session}
use bit_cord.Node.Requests.Join.{handle_authenticate, handle_join_community, join_refusal}
use bit_cord.Node.Handler.{dispatch}
use bit_cord.Node.Handler.Access.{Outside, dispatch-Outside}
use bit_cord.Node.Handler.Replies.{Disclosed, dispatch-error, dispatch-Disclosed}
use bit_cord.Node.Handler.Rights.{JoinedOnTheWay, serve-joined}
use bit_cord.Node.Handler.Identity.{SomeProves, serve-Proves}
use bit_cord.Node.Handler.Isolation.{dispatch-isolated}
use bit_cord.Node.Handler.Delivery.{Added, dispatch-pushes, send_message-get_messages}
use bit_cord.Node.Handler.PeerRecords.{info_of, StoredBy, dispatch-peer_infos}
use bit_cord.Node.Streams.{encode_frame, read_frame, read_frame-encode_frame}
use bit_cord.Tests.Community.{env, times, signed_by}
use bit_cord.Tests.Node.{
  memory, memory-IsLawful, pk, chan, letter, toy_of, two_letters, two_letters-IsLog,
  letter-IsFaithful, last_number_fits,
}

abbrev addr : NodeAddr
addr = record { ip = 10 ∷ []; port = 4 }

abbrev now : Moment
now = record {
  remote_addr = addr;
  instant = 0;
  unix = 5;
  now_ms = 6;
  message_id = "m20";
  random = λ i. [];
}

-- The client's key, and what it sends.
abbrev client : Bytes
client = 2 ∷ []

abbrev sent : LogEntry
sent = record letter { author_id = hex client }

abbrev ne : NodeEnv
ne = record { env = env; codec = toy_of sent; verify_strict = signed_by; addr_bytes = λ a. [] }

abbrev node : NodeServices Items
node = record {
  store = two_letters;
  dht = some (new (7 ∷ []) none);
  node_pk = 7 ∷ [];
  join_password = some "secret";
  pushes = [];
  joined = [];
  mailboxes = [];
}

abbrev member_session : ClientSession
member_session = record { client_pk = some client; joined_communities = pk ∷ [] }

abbrev login : ClientRequest
login = ClientRequest.authenticate client (times 32 2) (times 32 2) (8 ∷ [])

abbrev cert : HostingCert
cert = record { community_pk = pk; node_pk = 7 ∷ []; expires_at = 9; signature = times 64 1 }

abbrev visit : List (Moment × ClientRequest)
visit = (now, login) ∷ (now, ClientRequest.join_community cert none (some "secret")) ∷ []

abbrev message : ClientRequest
message = ClientRequest.send_message pk chan (5 ∷ []) (42 ∷ [])

abbrev peer : PeerInfoRequest
peer = record {
  peer_id = client;
  ed25519_pk = client;
  x25519_pk = 3 ∷ [];
  addr = addr;
  display_name = "eve";
  sig_r = times 32 2;
  sig_s = times 32 2;
}

dispatch-Outside_example :
    Outside ne false message new_session node (dispatch memory ne now message new_session node)
dispatch-Outside_example = dispatch-Outside memory ne now message new_session node refl

dispatch-error_example : (dispatch memory ne now message new_session node).0 ≡ (new_session, node)
unfolding dispatch
dispatch-error_example = dispatch-error memory ne now new_session node message 401 refl

dispatch-Disclosed_example :
    Disclosed memory ne now member_session node
      (ClientRequest.get_messages pk chan 0)
      (dispatch memory ne now (ClientRequest.get_messages pk chan 0) member_session node).1
dispatch-Disclosed_example =
    dispatch-Disclosed memory ne now member_session node (ClientRequest.get_messages pk chan 0)

serve-joined_example : JoinedOnTheWay memory ne visit new_session node pk
unfolding dispatch handle_authenticate handle_join_community join_refusal get_community_meta get
serve-joined_example = serve-joined memory ne visit node pk refl

serve-Proves_example : SomeProves memory ne visit client
unfolding dispatch handle_authenticate handle_join_community join_refusal get_community_meta get
serve-Proves_example = serve-Proves memory ne visit node client refl

dispatch-isolated_example :
    get_messages memory ne.codec
      (dispatch memory ne now message member_session node).0.1.store
      (repeat_byte 32 3)
      chan
      0
    ≡ get_messages memory ne.codec node.store (repeat_byte 32 3) chan 0
dispatch-isolated_example =
    dispatch-isolated memory ne now message member_session node (repeat_byte 32 3) chan 0
      memory-IsLawful refl (refl, refl) refl refl refl (omega arith)

dispatch-pushes_example :
    Added memory ne now member_session node
      (dispatch memory ne now
        (ClientRequest.gossip "/bitcord/dm" client)
        member_session
        node).0.1.pushes
dispatch-pushes_example =
    dispatch-pushes memory ne now member_session node (ClientRequest.gossip "/bitcord/dm" client)

send_message-get_messages_example :
    (seq : ℕ) × (sv' : NodeServices Items) × (dispatch memory ne now message member_session node
      ≡ ((member_session, sv'), NodeResponse.message_ack seq))
    × (sv'.pushes ≡ (some pk, NodePush.new_message chan (numbered sent seq)) ∷ [])
    × IsLogs memory ne.codec sv'.store
    × ((dispatch memory ne now (ClientRequest.get_messages pk chan 0) member_session sv').1
        ≡ NodeResponse.messages (numbered sent 0 ∷ numbered sent 1 ∷ numbered sent seq ∷ []))
unfolding get_messages read_values to_be_bytes bytes_le
send_message-get_messages_example =
    send_message-get_messages memory ne now now pk chan (5 ∷ []) (42 ∷ []) member_session
      member_session node (numbered sent 0 ∷ numbered sent 1 ∷ []) memory-IsLawful
      (letter-IsFaithful sent) (two_letters-IsLog sent, (tt, tt)) refl refl (last_number_fits sent)
      refl refl refl refl refl

dispatch-peer_infos_example :
    (info_of
        (dispatch memory ne now (ClientRequest.store_peer_info peer) new_session node).0.1.dht
        client
      ≡ none)
    ⊎ StoredBy memory ne now new_session node (ClientRequest.store_peer_info peer) client (
        info_of
          (dispatch memory ne now (ClientRequest.store_peer_info peer) new_session node).0.1.dht
          client)
unfolding get new
dispatch-peer_infos_example =
    dispatch-peer_infos memory ne now new_session node (ClientRequest.store_peer_info peer) client

read_frame-encode_frame_example :
    (frame : Bytes) × (encode_frame (1 ∷ 2 ∷ []) ≡ some frame)
    × (read_frame (frame ++ 3 ∷ []) ≡ some (1 ∷ 2 ∷ []))
read_frame-encode_frame_example = read_frame-encode_frame (1 ∷ 2 ∷ []) (3 ∷ []) (omega arith)

-- A byte is a heartbeat.
abbrev decode_byte : Bytes → Option ClientRequest
decode_byte (b ∷ []) = some ClientRequest.heartbeat
decode_byte _ = none

abbrev streams : List (Moment × Bytes)
streams = (now, 0 ∷ 0 ∷ 0 ∷ 1 ∷ 9 ∷ []) ∷ (now, 0 ∷ 0 ∷ 0 ∷ 0 ∷ []) ∷ []
