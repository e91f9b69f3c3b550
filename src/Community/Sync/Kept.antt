-- ===== src/Community/Sync/Kept.antt =====
-- No channel key is lost to a received manifest, in memory or on disk.
use bit_cord.Prelude.{
  ◌≡◌, refl, sym, ap, subst, ◌∙◌, ◌⊎◌, inl, inr, false, not, ◌&&◌, Bytes, List, [], ◌∷◌, ◌++◌, some,
  or_else, length, arith, Bool-cases, ◌==◌, nat_eq, list_eq, list_eqb, list_eqb_iff, if◌then◌else◌,
  if_cases, elim_cases,
}
use bit_cord.Prelude.Map.{Map, get, insert, contains_key, get-insert, get-insert_self}
use bit_cord.Community.Model.{Env, ChannelManifest}
use bit_cord.Community.AppState.{AppState, set_channel_keys, set_previous_keys}
use bit_cord.Community.Joining.{contains}
use bit_cord.Community.Sync.Keys.{
  KeyUpdate, own_key, put_key, take_own, take_plain, unwrap_keys, plain_keys, update_keys,
}
use bit_cord.Community.Sync.Tables.{ids_of}

-- No channel stands twice in the list.
abbrev pub IsDistinct : List ChannelManifest → Type 0
IsDistinct [] = Unit
IsDistinct (ch ∷ chs) = (contains (ids_of chs) ch.id ≡ false) × IsDistinct chs

-- The key is the channel's, or the one before it and the rest of the channels leaves it.
abbrev Safe : KeyUpdate → Bytes → Bytes → List ChannelManifest → Type 0
Safe u c k chs =
    (get u.keys c ≡ some k) ⊎ ((get u.previous c ≡ some k) × (contains (ids_of chs) c ≡ false))

-- At another channel nothing changes.
other-Safe :
    (u : KeyUpdate) (ch : ChannelManifest) (chs : List ChannelManifest) (key c k : Bytes)
    → list_eqb ch.id c ≡ false
    → Safe u c k (ch ∷ chs)
    → Safe (put_key u ch.id key) c k chs
other-Safe u ch chs key c k other safe =
    let P : KeyUpdate → Type 0 = λ u'. Safe u' c k chs in
    let keys : get (insert u.keys ch.id key) c ≡ get u.keys c =
      get-insert u.keys ch.id c key ∙ rw other refl in
    let rest : Safe u c k (ch ∷ chs)
        → (get u.keys c ≡ some k)
          ⊎ ((get u.previous c ≡ some k) × (contains (ids_of chs) c ≡ false)) =
      λ h. elim h [ inl l ↦ inl l | inr (l, out) ↦ inr (l, ground (arith, out)) ] in
    elim (rest safe) [
      | inl l ↦
          elim_cases P (get u.keys ch.id) _ _ (λ n. inl (keys ∙ l))
            (λ old n. if_cases P (old == key) _ _ (λ e. inl (keys ∙ l)) (λ e. inl (keys ∙ l)))
      | inr (l, out) ↦
          elim_cases P (get u.keys ch.id) _ _ (λ n. inr (l, out))
            (λ old n.
              if_cases P (old == key) _ _ (λ e. inr (l, out))
                (λ e. inr ((get-insert u.previous ch.id c old ∙ rw other refl) ∙ l, out)))
    ]

-- At the channel itself the old key is the new one or becomes the one before it.
own-Safe :
    (u : KeyUpdate) (ch : ChannelManifest) (chs : List ChannelManifest) (key k : Bytes)
    → contains (ids_of chs) ch.id ≡ false
    → get u.keys ch.id ≡ some k
    → Safe (put_key u ch.id key) ch.id k chs
own-Safe u ch chs key k fresh h =
    let P : KeyUpdate → Type 0 = λ u'. Safe u' ch.id k chs in
    elim_cases P (get u.keys ch.id) _ _ (λ n. absurd (ground (arith, n, h)))
      (λ old n.
        let is_k : old ≡ k = ap (λ o. or_else o k) (sym n ∙ h) in
        if_cases P (old == key) _ _
          (λ e.
            inl (
              get-insert_self u.keys ch.id key ∙ ap some (sym ((list_eqb_iff old key).0 e) ∙ is_k)))
          (λ e. inr (get-insert_self u.previous ch.id old ∙ ap some is_k, fresh)))

put_key-Safe :
    (u : KeyUpdate) (ch : ChannelManifest) (chs : List ChannelManifest) (key c k : Bytes)
    → contains (ids_of chs) ch.id ≡ false
    → Safe u c k (ch ∷ chs)
    → Safe (put_key u ch.id key) c k chs
put_key-Safe u ch chs key c k fresh safe = elim (Bool-cases (list_eqb ch.id c)) [
  | inr other ↦ other-Safe u ch chs key c k other safe
  | inl t ↦
      let is_c = (list_eqb_iff ch.id c).0 t in
      elim safe [
        | inl h ↦
            subst (λ x. Safe (put_key u ch.id key) x k chs) is_c
              (own-Safe u ch chs key k fresh (ap (get u.keys) is_c ∙ h))
        | inr (l, out) ↦ absurd (ground (arith, t, out))
      ]
]

skip-Safe :
    (u : KeyUpdate) (ch : ChannelManifest) (chs : List ChannelManifest) (c k : Bytes)
    → Safe u c k (ch ∷ chs)
    → Safe u c k chs
skip-Safe u ch chs c k (inl h) = inl h
skip-Safe u ch chs c k (inr (h, out)) = inr (h, ground (arith, out))

unwrap_keys-Safe :
    (env : Env) (own : Bytes) (u : KeyUpdate) (chs : List ChannelManifest) (c k : Bytes)
    → IsDistinct chs
    → Safe u c k chs
    → (get (unwrap_keys env own u chs).keys c ≡ some k)
      ⊎ (get (unwrap_keys env own u chs).previous c ≡ some k)
unfolding unwrap_keys
unwrap_keys-Safe env own u [] c k d (inl h) = inl h
unwrap_keys-Safe env own u [] c k d (inr h) = inr h.0
unwrap_keys-Safe env own u (ch ∷ chs) c k d safe =
    unwrap_keys-Safe env own (take_own env own u ch) chs c k d.1 (
      elim_cases (λ (u' : KeyUpdate). Safe u' c k chs) (own_key env own ch) _ _
        (λ n. skip-Safe u ch chs c k safe) (λ key n. put_key-Safe u ch chs key c k d.0 safe))

plain_keys-kept :
    (keys plain : Map Bytes Bytes) (c k : Bytes)
    → get keys c ≡ some k
    → get (plain_keys keys plain) c ≡ some k
unfolding contains_key
plain_keys-kept keys [] c k h = h
plain_keys-kept keys ((id, key) ∷ rest) c k h =
    let P : Map Bytes Bytes → Type 0 = λ m. get m c ≡ some k in
    plain_keys-kept (take_plain keys id key) rest c k (
      if_cases P (not (contains_key keys id) && length key == 32) _ _
        (λ new. elim (Bool-cases (list_eqb id c)) [
          | inl t ↦ absurd (ground (arith, new, h, ap (get keys) ((list_eqb_iff id c).0 t)))
          | inr f ↦ get-insert keys id c key ∙ rw f h
        ])
        (λ old. h))

append-not_empty : (xs : List Bytes) (x : Bytes) → ¬ (xs ++ x ∷ [] ≡ [])
append-not_empty [] x h = ground (arith, h)
append-not_empty (y ∷ ys) x h = ground (arith, h)

-- Where no key has been replaced, no key before another has been written.
abbrev pub Unrotated : Map Bytes Bytes → KeyUpdate → Type 0
Unrotated previous u = (u.rotated ≡ []) → u.previous ≡ previous

take_own-Unrotated :
    (previous : Map Bytes Bytes) (env : Env) (own : Bytes) (u : KeyUpdate) (ch : ChannelManifest)
    → Unrotated previous u
    → Unrotated previous (take_own env own u ch)
take_own-Unrotated previous env own u ch h =
    elim_cases (Unrotated previous) (own_key env own ch) _ _ (λ n. h)
      (λ key n.
        elim_cases (Unrotated previous) (get u.keys ch.id) _ _ (λ k. h)
          (λ old k.
            if_cases (Unrotated previous) (old == key) _ _ (λ e. h)
              (λ e none_yet. absurd (append-not_empty u.rotated ch.id none_yet))))

unwrap_keys-Unrotated :
    (previous : Map Bytes Bytes) (env : Env) (own : Bytes) (u : KeyUpdate)
    (chs : List ChannelManifest)
    → Unrotated previous u
    → Unrotated previous (unwrap_keys env own u chs)
unfolding unwrap_keys
unwrap_keys-Unrotated previous env own u [] h = h
unwrap_keys-Unrotated previous env own u (ch ∷ chs) h =
    unwrap_keys-Unrotated previous env own (take_own env own u ch) chs
      (take_own-Unrotated previous env own u ch h)

previous_saved :
    (s : AppState) (keys previous : Map Bytes Bytes) (rotated : List Bytes)
    → ((rotated ≡ []) → previous ≡ s.previous_channel_keys)
    → s.disk.previous_channel_keys ≡ s.previous_channel_keys
    → let t = (elim rotated as (λ _. AppState × List Bytes) [
      | [] ↦ (record (set_channel_keys s keys) { previous_channel_keys = previous }, [])
      | c ∷ cs ↦ (set_previous_keys (set_channel_keys s keys) previous, c ∷ cs)
    ]) in
      t.0.disk.previous_channel_keys ≡ t.0.previous_channel_keys
previous_saved s keys previous [] h saved = saved ∙ sym (h refl)
previous_saved s keys previous (c ∷ cs) h saved = refl

pub keys_of :
    (s : AppState) (keys previous : Map Bytes Bytes) (rotated : List Bytes)
    → let t = (elim rotated as (λ _. AppState × List Bytes) [
      | [] ↦ (record (set_channel_keys s keys) { previous_channel_keys = previous }, [])
      | c ∷ cs ↦ (set_previous_keys (set_channel_keys s keys) previous, c ∷ cs)
    ]) in
      (t.0.channel_keys ≡ keys)
      × (t.0.previous_channel_keys ≡ previous)
      × (t.0.disk.channel_keys ≡ keys)
      × (t.0.pending_rotation_messages ≡ s.pending_rotation_messages)
      × (t.1 ≡ rotated)
keys_of s keys previous [] = (refl, refl, refl, refl, refl)
keys_of s keys previous (c ∷ cs) = (refl, refl, refl, refl, refl)

-- For a manifest whose channels are different ones, where the previous keys on disk are those in
-- memory: the key that a channel had is still its key, or the one before it, after the keys of the
-- manifest are taken, from whichever of the two places they come; and then the keys on disk and the
-- previous keys on disk are those in memory.
pub update_keys-keeps :
    (env : Env) (s : AppState) (pk : Bytes) (chs : List ChannelManifest) (plain : Map Bytes Bytes)
    (c k : Bytes)
    → IsDistinct chs
    → s.disk.previous_channel_keys ≡ s.previous_channel_keys
    → get s.channel_keys c ≡ some k
    → ((get (update_keys env s pk chs plain).0.channel_keys c ≡ some k)
        ⊎ (get (update_keys env s pk chs plain).0.previous_channel_keys c ≡ some k))
      × ((update_keys env s pk chs plain).0.disk.channel_keys
          ≡ (update_keys env s pk chs plain).0.channel_keys)
      × ((update_keys env s pk chs plain).0.disk.previous_channel_keys
          ≡ (update_keys env s pk chs plain).0.previous_channel_keys)
unfolding update_keys
update_keys-keeps env s pk chs plain c k distinct saved h =
    let old : KeyUpdate = record {
      keys = s.channel_keys;
      previous = s.previous_channel_keys;
      rotated = [];
    } in
    let u : KeyUpdate = if pk == s.own_pk then old else unwrap_keys env s.own_user_id old chs in
    let (keys, previous, disk, pending, rotated) =
      keys_of s (plain_keys u.keys plain) u.previous u.rotated in
    let safe : (get u.keys c ≡ some k) ⊎ (get u.previous c ≡ some k) =
      if_cases (λ (v : KeyUpdate). (get v.keys c ≡ some k) ⊎ (get v.previous c ≡ some k))
        (pk == s.own_pk) _ _ (λ e. inl h)
        (λ e. unwrap_keys-Safe env s.own_user_id old chs c k distinct (inl h)) in
    let unrotated : Unrotated s.previous_channel_keys u =
      if_cases (Unrotated s.previous_channel_keys) (pk == s.own_pk) _ _ (λ e n. refl)
        (λ e.
          unwrap_keys-Unrotated s.previous_channel_keys env s.own_user_id old chs (λ n. refl)) in
    (
      elim safe [
        | inl l ↦ inl (ap (λ m. get m c) keys ∙ plain_keys-kept u.keys plain c k l)
        | inr l ↦ inr (ap (λ m. get m c) previous ∙ l)
      ],
      disk ∙ sym keys,
      previous_saved s (plain_keys u.keys plain) u.previous u.rotated unrotated saved,
    )
