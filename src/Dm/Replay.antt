-- ===== src/Dm/Replay.antt =====
-- A direct message that arrives again is not delivered again.
use bit_cord.Prelude.{
  ◌≡◌, refl, subst, sym, ◌∙◌, ℕ, true, Bytes, String, List, [], ◌∷◌, ◌++◌, some, any, any-append,
  or_else, ◌==◌, string_eq, list_eq, nat_eq, arith, Bool-cases, inl, inr, if_cases, not_cases,
  elim_cases,
}
use bit_cord.Prelude.Map.{insert, get-insert, get-insert_self}
use bit_cord.State.MessageLog.{LogEntry}
use bit_cord.Dm.{
  DmMessageInfo, DmState, DmEnv, Plain, read_dm, message_of, conversation, has_message_id, deliver,
  handle_dm_received, Arrival, receive_all,
}

-- The conversation with a peer has a message with an id.
abbrev pub Has : DmState → String → String → Type 0
Has s peer id = any (has_message_id id) (conversation s peer) ≡ true

-- The state after a message has been added.
added : DmState → DmMessageInfo → DmState
added s m =
    let dms = insert s.dms m.author_id (conversation s m.author_id ++ m ∷ []) in
    record { dms = dms; disk = dms; pushes = s.pushes ++ m ∷ [] }

Has-added :
    (s : DmState) (m : DmMessageInfo) (peer id : String) → Has s peer id → Has (added s m) peer id
unfolding added
Has-added s m peer id h = elim (Bool-cases (m.author_id == peer)) [
  | inl t ↦
      let same : m.author_id ≡ peer = (string_eq.beq_iff m.author_id peer).0 t in
      let old : any (has_message_id id) (conversation s m.author_id) ≡ true =
        subst (λ a. Has s a id) (sym same) h in
      rw (get-insert, t, any-append, old) refl
  | inr f ↦ rw (get-insert, f) h
]

Has-added_self : (s : DmState) (m : DmMessageInfo) → Has (added s m) m.author_id m.id
unfolding added
Has-added_self s m = rw (get-insert_self) (
    ground (
      arith,
      any-append (has_message_id m.id) (conversation s m.author_id) (m ∷ []),
      (string_eq.beq_iff m.id m.id).1 refl,
    ))

Has-deliver :
    (s : DmState) (m : DmMessageInfo) (peer id : String) → Has s peer id → Has (deliver s m) peer id
unfolding deliver added
Has-deliver s m peer id h =
    if_cases (λ t. Has t peer id) (any (has_message_id m.id) (conversation s m.author_id)) _ _
      (λ k. h) (λ k. Has-added s m peer id h)

Has-deliver_self : (s : DmState) (m : DmMessageInfo) → Has (deliver s m) m.author_id m.id
unfolding deliver added
Has-deliver_self s m =
    if_cases (λ t. Has t m.author_id m.id) (any (has_message_id m.id) (conversation s m.author_id))
      _ _ (λ k. k) (λ k. Has-added_self s m)

deliver-known : (s : DmState) (m : DmMessageInfo) → Has s m.author_id m.id → deliver s m ≡ s
unfolding deliver
deliver-known s m h = rw h refl

Has-received :
    (env : DmEnv) (now : ℕ) (s : DmState) (entry : LogEntry) (recipient_pk : Bytes)
    (peer id : String)
    → Has s peer id
    → Has (handle_dm_received env now s entry recipient_pk) peer id
unfolding handle_dm_received
Has-received env now s entry recipient_pk peer id h =
    not_cases (λ t. Has t peer id) (recipient_pk == env.local_x25519_pk) _ _ (λ k. h)
      (λ k.
        elim_cases (λ t. Has t peer id) (read_dm env entry.ciphertext) _ _ (λ n. h)
          (λ p n. Has-deliver s (message_of env now entry p) peer id h))

Has-receive_all :
    (env : DmEnv) (s : DmState) (arrivals : List Arrival) (peer id : String)
    → Has s peer id
    → Has (receive_all env s arrivals) peer id
unfolding receive_all
Has-receive_all env s [] peer id h = h
Has-receive_all env s ((now, entry, recipient_pk) ∷ rest) peer id h =
    Has-receive_all env (handle_dm_received env now s entry recipient_pk) rest peer id
      (Has-received env now s entry recipient_pk peer id h)

received_is :
    (env : DmEnv) (now : ℕ) (s : DmState) (entry : LogEntry) (recipient_pk : Bytes) (p : Plain)
    → recipient_pk ≡ env.local_x25519_pk
    → read_dm env entry.ciphertext ≡ some p
    → handle_dm_received env now s entry recipient_pk ≡ deliver s (message_of env now entry p)
unfolding handle_dm_received
received_is env now s entry recipient_pk p h k =
    rw ((list_eq.beq_iff recipient_pk env.local_x25519_pk).1 h, k) refl

-- A direct message to this node that opens and can be read: whatever arrives after it, the
-- conversation with its author has a message with its id, and when it arrives again, at whatever
-- time, nothing changes.
pub handle_dm_received-replay :
    (env : DmEnv) (now later : ℕ) (s : DmState) (entry : LogEntry) (recipient_pk : Bytes)
    (p : Plain) (rest : List Arrival)
    → recipient_pk ≡ env.local_x25519_pk
    → read_dm env entry.ciphertext ≡ some p
    → Has
        (receive_all env s ((now, entry, recipient_pk) ∷ rest))
        entry.author_id
        (or_else p.payload_id entry.message_id)
      × (handle_dm_received env later
            (receive_all env s ((now, entry, recipient_pk) ∷ rest))
            entry
            recipient_pk
          ≡ receive_all env s ((now, entry, recipient_pk) ∷ rest))
unfolding receive_all
handle_dm_received-replay env now later s entry recipient_pk p rest h k =
    let m = message_of env now entry p in
    let first = handle_dm_received env now s entry recipient_pk in
    let known : Has (receive_all env first rest) m.author_id m.id =
      Has-receive_all env first rest m.author_id m.id (
        subst (λ t. Has t m.author_id m.id) (sym (received_is env now s entry recipient_pk p h k))
          (Has-deliver_self s m)) in
    (
      known,
      received_is env later (receive_all env first rest) entry recipient_pk p h k
          ∙ deliver-known (receive_all env first rest) (message_of env later entry p) known,
    )
