-- ===== src/Peer/Connection/Backoff.antt =====
-- What a reconnection returns, how long it waits, and what there is after it.
use bit_cord.Prelude.{
  ℕ, zero, suc, ◌+◌, ◌*◌, ◌^◌, ◌≡◌, refl, sym, ap, ◌∙◌, min, Bool, List, [], ◌∷◌, Option, none,
  some, if◌then◌else◌, arith, Option-cases, inl, inr,
}
use bit_cord.Peer.Connection.{
  ConnState, connected, get_connection, Outcome, reconnected, exceeded, Reconnect, attempts,
  reconnect_with_backoff,
}

-- The first of some attempts that succeeds.
abbrev pub first_success : {C : Type 0} → (ℕ → Option C) → ℕ → ℕ → Option C
first_success try_connect attempt zero = none
first_success try_connect attempt (suc n) =
    let rest = first_success try_connect (attempt + 1) n in
    elim (try_connect attempt) [ none ↦ rest | some conn ↦ some conn ]

-- How many of some attempts fail before the first that succeeds.
abbrev pub failures : {C : Type 0} → (ℕ → Option C) → ℕ → ℕ → ℕ
failures try_connect attempt zero = 0
failures try_connect attempt (suc n) =
    let rest = failures try_connect (attempt + 1) n in
    elim (try_connect attempt) [ none ↦ suc rest | some conn ↦ 0 ]

-- The delay before the next attempt after `i` that have failed before.
abbrev pub delay_after : ℕ → ℕ
delay_after i = min (100 * 2 ^ i) 30000

abbrev pub delays : ℕ → ℕ → List ℕ
delays i zero = []
delays i (suc n) = delay_after i ∷ delays (suc i) n

abbrev pub outcome_of : {C : Type 0} → Option C → Outcome C
outcome_of none = exceeded
outcome_of (some conn) = reconnected conn

abbrev pub state_of : {C : Type 0} → ConnState C → Option C → ConnState C
state_of state none = state
state_of state (some conn) = connected conn

doubled : (i : ℕ) → min (delay_after i * 2) 30000 ≡ delay_after (suc i)
doubled i = omega arith

record Ends {C : Type 0} (try_connect : ℕ → Option C) (state : ConnState C) (attempt i n : ℕ)
    (r : Reconnect C) : Type 0 where
  outcome : r.outcome ≡ outcome_of (first_success try_connect attempt (suc n))
  state_after : r.state ≡ state_of state (first_success try_connect attempt (suc n))
  sleeps : r.sleeps ≡ delays i (failures try_connect attempt n)

no_failures :
    {C : Type 0} (try_connect : ℕ → Option C) (attempt n : ℕ) (conn : C)
    → try_connect attempt ≡ some conn
    → failures try_connect attempt n ≡ 0
no_failures try_connect attempt zero conn h = refl
no_failures try_connect attempt (suc n) conn h = rw (failures, h) refl

-- The three equations from the attempt at hand and what the rest of the loop does.
succeeds :
    {C : Type 0} (try_connect : ℕ → Option C) (state : ConnState C) (attempt i n : ℕ) (conn : C)
    → try_connect attempt ≡ some conn
    → Ends try_connect state attempt i n
        (record { state = connected conn; outcome = reconnected conn; sleeps = [] })
succeeds try_connect state attempt i n conn h =
    let first : first_success try_connect attempt (suc n) ≡ some conn =
      rw (first_success, h) refl in
    record {
      outcome = sym (ap outcome_of first);
      state_after = sym (ap (state_of state) first);
      sleeps = sym (ap (delays i) (no_failures try_connect attempt n conn h));
    }

attempts-Ends :
    {C : Type 0} (try_connect : ℕ → Option C) (state : ConnState C) (attempt i n : ℕ)
    → Ends try_connect state attempt i n
        (attempts try_connect state attempt (delay_after i) (suc n))
unfolding attempts
attempts-Ends try_connect state attempt i zero = elim (Option-cases (try_connect attempt)) [
  | inl h ↦
      let first : first_success try_connect attempt 1 ≡ none = rw (first_success, h) refl in
      rw (attempts, h)
        (record {
          outcome = sym (ap outcome_of first);
          state_after = sym (ap (state_of state) first);
          sleeps = refl;
        })
  | inr (conn, h) ↦ rw (attempts, h) (succeeds try_connect state attempt i zero conn h)
]
attempts-Ends try_connect state attempt i (suc n) =
    let again = attempts try_connect state (attempt + 1) (min (delay_after i * 2) 30000) (suc n) in
    let rest : Ends try_connect state (attempt + 1) (suc i) n again =
      rw (doubled i) (attempts-Ends try_connect state (attempt + 1) (suc i) n) in
    elim (Option-cases (try_connect attempt)) [
      | inl h ↦
          let first : first_success try_connect attempt (suc (suc n))
              ≡ first_success try_connect (attempt + 1) (suc n) =
            rw (first_success, h) refl in
          let more : failures try_connect attempt (suc n)
              ≡ suc (failures try_connect (attempt + 1) n) =
            rw (failures, h) refl in
          rw (attempts, h)
            (record {
              outcome = rest.outcome ∙ sym (ap outcome_of first);
              state_after = rest.state_after ∙ sym (ap (state_of state) first);
              sleeps = ap (λ ds. delay_after i ∷ ds) rest.sleeps ∙ sym (ap (delays i) more);
            })
      | inr (conn, h) ↦ rw (attempts, h) (succeeds try_connect state attempt i (suc n) conn h)
    ]

-- What `get_connection` returns after a reconnection.
abbrev pub got : {C : Type 0} → (C → Bool) → Option C → Option C → Option C
got is_closed before none = before
got is_closed before (some conn) = if is_closed conn then none else some conn

got_is :
    {C : Type 0} (is_closed : C → Bool) (attempt : Option C) (state : ConnState C) (o : Option C)
    → (get_connection is_closed attempt (state_of state o)).1
      ≡ got is_closed (get_connection is_closed attempt state).1 o
unfolding get_connection
got_is is_closed attempt state none = refl
got_is is_closed attempt state (some conn) = ground arith

-- With at least one attempt allowed, the reconnection ends with the connection of the first attempt
-- that succeeds, which is then the state, or with an error and the state of before where none does;
-- it has waited 100 ms, doubled each time up to 30 s, once for each attempt that failed, but not
-- after the last that is allowed; and then `get_connection` returns that connection unless it is
-- closed, whatever the state before, or what it would have returned before where no attempt succeeds.
pub reconnect_with_backoff-first_success :
    {C : Type 0} (try_connect : ℕ → Option C) (state : ConnState C) (n : ℕ) (is_closed : C → Bool)
    (attempt : Option C)
    → ((reconnect_with_backoff try_connect state (suc n)).outcome
        ≡ outcome_of (first_success try_connect 1 (suc n)))
      × ((reconnect_with_backoff try_connect state (suc n)).state
          ≡ state_of state (first_success try_connect 1 (suc n)))
      × ((reconnect_with_backoff try_connect state (suc n)).sleeps
          ≡ delays 0 (failures try_connect 1 n))
      × ((get_connection is_closed attempt
            (reconnect_with_backoff try_connect state (suc n)).state).1
          ≡ got is_closed
              (get_connection is_closed attempt state).1
              (first_success try_connect 1 (suc n)))
unfolding reconnect_with_backoff
reconnect_with_backoff-first_success try_connect state n is_closed attempt =
    let r = attempts-Ends try_connect state 1 0 n in
    (
      r.outcome,
      r.state_after,
      r.sleeps,
      ap (λ st. (get_connection is_closed attempt st).1) r.state_after
          ∙ got_is is_closed attempt state (first_success try_connect 1 (suc n)),
    )
