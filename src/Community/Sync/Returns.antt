-- ===== src/Community/Sync/Returns.antt =====
-- When the handler of a received manifest returns: it replays messages under the lock that a message
-- which cannot be read takes again.
use bit_cord.Prelude.{
  ◌≡◌, refl, sym, ap, subst, ◌∙◌, ◌⊎◌, Bool, true, false, not, ◌||◌, Bytes, List, [], ◌∷◌, Option,
  some, is_some, or_else, all, All, arith, Option-cases, Bool-cases, inl, inr, nat_eq, list_eq,
  list_eqb, list_eqb_iff, if_cases, not_cases, elim_cases,
}
use bit_cord.Prelude.Map.{get, remove, get-remove}
use bit_cord.Community.Model.{Env, manifest_verify}
use bit_cord.Community.AppState.{AppState}
use bit_cord.Community.Channel.{handle_channel_message}
use bit_cord.Community.Sync.Tables.{Received, unqueue_sync}
use bit_cord.Community.Sync.Replay.{takes_lock, replay, drain}
use bit_cord.Community.Sync.Follow.{Own}
use bit_cord.Community.Sync.Handler.{take_manifest, handle_manifest_received}
use bit_cord.Community.Sync.Waiting.{
  Keyring, keyring, IsMessage, can_read, waiting_for, SameKeys, SameKeys-trans, message-SameKeys,
}

-- The replay of messages is over exactly if each can be read, and leaves the keys.
replay_is :
    (env : Env) (k : Keyring) (s : AppState) (ws : List (Bytes × Bytes))
    → keyring s ≡ k
    → All (IsMessage env k) ws
    → (is_some (replay env s ws) ≡ all (can_read env k) ws)
      × ((t : AppState) → replay env s ws ≡ some t → SameKeys s t)
unfolding replay
replay_is env k s [] same h =
    (refl, λ t r. let is : s ≡ t = ap (λ o. or_else o s) r in subst (SameKeys s) is (refl, refl))
replay_is env k s ((topic, payload) ∷ rest) same (h, hs) =
    let (lock, kept) =
      message-SameKeys env s topic payload
        (subst (λ x. IsMessage env x (topic, payload)) (sym same) h) in
    let read : can_read env (keyring s) (topic, payload) ≡ can_read env k (topic, payload) =
      ap (λ x. can_read env x (topic, payload)) same in
    elim (Bool-cases (can_read env k (topic, payload))) [
      | inr f ↦
          let locked : takes_lock env s payload ≡ true = lock ∙ ap not (read ∙ f) in
          (rw (replay, locked, f) refl, λ t r. ground (arith, rw (replay, locked) at r))
      | inl t ↦
          let free : takes_lock env s payload ≡ false = lock ∙ ap not (read ∙ t) in
          let next = kept (read ∙ t) in
          let (ends, after) =
            replay_is env k (handle_channel_message env s topic payload) rest (next.0 ∙ same) hs in
          (
            rw (replay, free, t) ends,
            λ u r.
                SameKeys-trans s (handle_channel_message env s topic payload) u next
                  (after u (rw (replay, free) at r)),
          )
    ]

module _ (env : Env) (s0 : AppState) where
  -- Each message that waited for the channel can be read.
  abbrev pub reads : Bytes → Bool
  reads c = all (can_read env (keyring s0)) (waiting_for s0 c)

  -- What is left of the channel's messages on the way: all, or none if each can be read.
  abbrev Left : AppState → Bytes → Type 0
  Left s c = (waiting_for s c ≡ waiting_for s0 c) ⊎ ((waiting_for s c ≡ []) × (reads c ≡ true))

  Left-reads :
      (s : AppState) (c : Bytes)
      → Left s c
      → all (can_read env (keyring s0)) (waiting_for s c) ≡ reads c
  Left-reads s c (inl h) = ap (all (can_read env (keyring s0))) h
  Left-reads s c (inr (h, t)) = ap (all (can_read env (keyring s0))) h ∙ sym t

  Left-IsMessage :
      (s : AppState) (c : Bytes)
      → Left s c
      → All (IsMessage env (keyring s0)) (waiting_for s0 c)
      → All (IsMessage env (keyring s0)) (waiting_for s c)
  Left-IsMessage s c (inl h) m = subst (All (IsMessage env (keyring s0))) (sym h) m
  Left-IsMessage s c (inr (h, t)) m = subst (All (IsMessage env (keyring s0))) (sym h) tt

  -- After the messages of a channel have been replayed.
  Left-remove :
      (s t : AppState) (c d : Bytes)
      → t.pending_rotation_messages ≡ remove s.pending_rotation_messages c
      → reads c ≡ true
      → Left s d
      → Left t d
  Left-remove s t c d gone ok left =
      let after : waiting_for t d ≡ or_else (get (remove s.pending_rotation_messages c) d) [] =
        ap (λ m. or_else (get m d) []) gone in
      elim (Bool-cases (list_eqb c d)) [
        | inl e ↦
            let none_left : waiting_for t d ≡ [] =
              after ∙ rw (get-remove s.pending_rotation_messages c d, e) refl in
            inr (none_left, ap reads (sym ((list_eqb_iff c d).0 e)) ∙ ok)
        | inr e ↦
            let same : waiting_for t d ≡ waiting_for s d =
              after ∙ rw (get-remove s.pending_rotation_messages c d, e) refl in
            elim left [ inl h ↦ inl (same ∙ h) | inr (h, r) ↦ inr (same ∙ h, r) ]
      ]

  -- The messages of the channels are replayed to the end exactly if each can be read.
  drain_is :
      (s : AppState) (cs : List Bytes)
      → keyring s ≡ keyring s0
      → ((c : Bytes) → Left s c)
      → All (λ c. All (IsMessage env (keyring s0)) (waiting_for s0 c)) cs
      → is_some (drain env s cs) ≡ all reads cs
  unfolding drain
  drain_is s [] same left h = refl
  drain_is s (c ∷ cs) same left (h, hs) = elim (Option-cases (get s.pending_rotation_messages c)) [
    | inl n ↦
        let none_here : waiting_for s c ≡ [] = ap (λ o. or_else o []) n in
        let ok : reads c ≡ true =
          sym (Left-reads s c (left c)) ∙ ap (all (can_read env (keyring s0))) none_here in
        rw (drain, n, all, ok) (drain_is s cs same left hs)
    | inr (waiting, n) ↦
        let here : waiting_for s c ≡ waiting = ap (λ o. or_else o []) n in
        let s' : AppState = record s {
          pending_rotation_messages = remove s.pending_rotation_messages c;
        } in
        let messages : All (IsMessage env (keyring s0)) waiting =
          subst (All (IsMessage env (keyring s0))) here (Left-IsMessage s c (left c) h) in
        let (ends, kept) = replay_is env (keyring s0) s' waiting same messages in
        let reads_c : all (can_read env (keyring s0)) waiting ≡ reads c =
          ap (all (can_read env (keyring s0))) (sym here) ∙ Left-reads s c (left c) in
        elim (Option-cases (replay env s' waiting)) [
          | inl r ↦
              let bad : reads c ≡ false = sym reads_c ∙ sym ends ∙ ap is_some r in
              rw (drain, n, r, all, bad) refl
          | inr (t, r) ↦
              let ok : reads c ≡ true = sym reads_c ∙ sym ends ∙ ap is_some r in
              let (ring, pending) = kept t r in
              rw (drain, n, r, all, ok)
                (drain_is t cs (ring ∙ same) (λ d. Left-remove s t c d pending ok (left d)) hs)
        ]
  ]

-- The channels whose key the manifest replaces, and the state when their messages are replayed.
abbrev pub taken : Env → AppState → Received → AppState × List Bytes
taken env s r =
    take_manifest env (unqueue_sync s r.manifest.manifest.id r.manifest.manifest.version) r

-- Where only messages of known channels with a key wait for the channels whose key the manifest
-- replaces: the handler returns exactly if the manifest's signature does not verify, or it is marked
-- as deleted, or each of those messages decrypts with the new key of its channel or the one before.
pub handle_manifest_received-returns :
    (env : Env) (own : Own) (s : AppState) (r : Received)
    → All
        (λ c. All (IsMessage env (keyring (taken env s r).0)) (waiting_for (taken env s r).0 c))
        (taken env s r).1
    → is_some (handle_manifest_received env own s r) ≡ (
        not (manifest_verify env r.manifest)
        || (r.manifest.manifest.deleted || all (reads env (taken env s r).0) (taken env s r).1))
unfolding handle_manifest_received
handle_manifest_received-returns env own s r h =
    let t = taken env s r in
    let drained = drain_is env t.0 t.0 t.1 refl (λ c. inl refl) h in
    let ok = all (reads env t.0) t.1 in
    let ends : Bool → Bool → Bool = λ v d. not v || (d || ok) in
    let P : Option AppState → Type 0 =
      λ o. is_some o ≡ ends (manifest_verify env r.manifest) r.manifest.manifest.deleted in
    not_cases P (manifest_verify env r.manifest) _ _
      (λ f. sym (ap (λ v. ends v r.manifest.manifest.deleted) f))
      (λ v.
        if_cases P r.manifest.manifest.deleted _ _
          (λ d. sym (ap (λ x. ends x r.manifest.manifest.deleted) v ∙ ap (ends true) d))
          (λ d.
            let live : ends (manifest_verify env r.manifest) r.manifest.manifest.deleted ≡ ok =
              ap (λ x. ends x r.manifest.manifest.deleted) v ∙ ap (ends true) d in
            elim_cases P (drain env t.0 t.1) _ _ (λ n. sym (ap is_some n) ∙ drained ∙ sym live)
              (λ s3 n. sym (ap is_some n) ∙ drained ∙ sym live)))
