-- ===== src/Peer/Connection.antt =====
-- crates/bitcord-core/src/network/connection_manager.rs: the state of a connection to a node and the
-- reconnection. The handshake of the n-th attempt is a parameter, `none` where it fails.
pub mod Backoff
use bit_cord.Prelude.{
  ℕ, zero, suc, ◌+◌, ◌*◌, min, Bool, true, false, List, [], ◌∷◌, Option, none, some, if◌then◌else◌,
}

pub data ConnState (C : Type 0) : Type 0 where
  fresh : ConnState C
  connected : C → ConnState C
  down : ConnState C

-- With the connection, or `none` for an error. `attempt` is the handshake that a fresh manager makes.
unfoldable pub get_connection :
    {C : Type 0} → (C → Bool) → Option C → ConnState C → ConnState C × Option C
get_connection is_closed attempt fresh = elim attempt [
  | none ↦ (fresh, none)
  | some conn ↦ (connected conn, some conn)
]
get_connection is_closed attempt (connected conn) =
    if is_closed conn then (down, none) else (connected conn, some conn)
get_connection is_closed attempt down = (down, none)

-- The result of the reconnection; `unreachable` is the macro at the end of the function.
pub data Outcome (C : Type 0) : Type 0 where
  reconnected : C → Outcome C
  exceeded unreachable : Outcome C

pub record Reconnect (C : Type 0) : Type 0 where
  pub state : ConnState C
  pub outcome : Outcome C
  pub sleeps : List ℕ

-- The attempts from the given one on, with a delay in milliseconds.
unfoldable pub attempts : {C : Type 0} → (ℕ → Option C) → ConnState C → ℕ → ℕ → ℕ → Reconnect C
attempts try_connect state attempt delay zero = record {
  state = state;
  outcome = unreachable;
  sleeps = [];
}
attempts try_connect state attempt delay (suc zero) = elim (try_connect attempt) [
  | some conn ↦ record { state = connected conn; outcome = reconnected conn; sleeps = [] }
  | none ↦ record { state = state; outcome = exceeded; sleeps = [] }
]
attempts try_connect state attempt delay (suc (suc left)) =
    let rest = attempts try_connect state (attempt + 1) (min (delay * 2) 30000) (suc left) in
    elim (try_connect attempt) [
      | some conn ↦ record { state = connected conn; outcome = reconnected conn; sleeps = [] }
      | none ↦ record rest { sleeps = delay ∷ rest.sleeps }
    ]

unfoldable pub reconnect_with_backoff :
    {C : Type 0} → (ℕ → Option C) → ConnState C → ℕ → Reconnect C
unfolding attempts
reconnect_with_backoff try_connect state max_attempts =
    attempts try_connect state 1 100 max_attempts
