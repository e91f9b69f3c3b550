-- ===== src/Tests/State.antt =====
-- A channel with two messages, and the smaller components.
use bit_cord.Peer.Connection.{connected, down, reconnected, get_connection, reconnect_with_backoff}
use bit_cord.Peer.Connection.Backoff.{reconnect_with_backoff-first_success}
use bit_cord.Prelude.{
  Option, none, Bool, ℕ, ◌==◌, if◌then◌else◌, nat_eq, ◌≡◌, ◌↔◌, false, String, List, [], ◌∷◌, some,
  string_eq,
}
use bit_cord.Prelude.Map.{get}
use bit_cord.State.MessageLog.{LogEntry, MessageLog, append, append_entry, react, len}
use bit_cord.State.MessageLog.Seq.{IsDense, append-IsDense, append_entry-IsDense_iff}
use bit_cord.State.ReadState.{ReadState}
use bit_cord.State.Presence.{PresenceState, online}
use bit_cord.Peer.PeerManager.{PeerManager, new_info, down}
use bit_cord.Peer.PeerManager.Reputation.{PeerOp, connect, rate}
use bit_cord.Peer.Limits.{StorageGuard}

abbrev entry : ℕ → String → LogEntry
entry seq id = record {
  seq = seq;
  nonce = [];
  ciphertext = 7 ∷ [];
  message_id = id;
  author_id = "ann";
  timestamp_ms = 3;
  deleted = false;
}

abbrev empty_log : MessageLog
empty_log = record { channels = []; reactions = [] }

abbrev first_log : MessageLog
first_log = (append empty_log "c" "m0" "ann" 3 [] (7 ∷ [])).1

abbrev log : MessageLog
log = (append first_log "c" "m1" "bob" 4 [] (8 ∷ [])).1

first_log-IsDense : IsDense first_log
unfolding get
first_log-IsDense = (append-IsDense empty_log "c" "m0" "ann" 3 [] (7 ∷ []) (λ ch. tt)).0

log-IsDense : IsDense log
log-IsDense = (append-IsDense first_log "c" "m1" "bob" 4 [] (8 ∷ []) first_log-IsDense).0

append_entry-IsDense_iff_example : IsDense (append_entry log "c" (entry 7 "m2")) ↔ (7 ≡ len log "c")
append_entry-IsDense_iff_example = append_entry-IsDense_iff log "c" (entry 7 "m2") log-IsDense

abbrev liked : MessageLog
liked = (react log "m0" "+1" "ann").0

abbrev read : ReadState
read = record { marks = [] }

abbrev seen : PresenceState
seen = record { seen = ("ann", (online, 0)) ∷ [] }

abbrev ops : List PeerOp
ops = connect 0 "p" [] ∷ connect 0 "q" [] ∷ rate "q" (down 30) ∷ []

abbrev crowded : PeerManager
crowded = record {
  peers = ("p", new_info 0 []) ∷ ("q", record (new_info 0 []) { reputation = 20 }) ∷ [];
  max_connections = 1;
}

abbrev guard : StorageGuard
guard = record { limit_bytes = 1000; used_bytes = 400 }

-- The third attempt succeeds.
abbrev third : ℕ → Option ℕ
third attempt = if attempt == 3 then some 7 else none

abbrev live : ℕ → Bool
live c = false

reconnect_with_backoff-first_success_example :
    ((reconnect_with_backoff third down 5).outcome ≡ reconnected 7)
    × ((reconnect_with_backoff third down 5).state ≡ connected 7)
    × ((reconnect_with_backoff third down 5).sleeps ≡ 100 ∷ 200 ∷ [])
    × ((get_connection live (some 9) (reconnect_with_backoff third down 5).state).1 ≡ some 7)
reconnect_with_backoff-first_success_example =
    reconnect_with_backoff-first_success third down 4 live (some 9)
