-- ===== src/Community/Channel/Rotation.antt =====
-- What a key rotation does to the channels, and to the messages that come before the new key.
use bit_cord.Prelude.{
  ℕ, ◌≡◌, refl, ◌∙◌, ap, sym, subst, Bool, true, false, ◌&&◌, Bytes, List, [], ◌∷◌, ◌++◌, Option,
  none, some, is_some, ◌==◌, or_else, if◌then◌else◌, arith, inl, inr, Option-cases, Bool-cases,
  nat_eq, list_eq, ltb, leb,
}
use bit_cord.Prelude.Map.{get, insert, get-insert, get-insert_self, contains_key}
use bit_cord.Community.Model.{Env, ChannelManifest, RawMessage, ChannelKeyRotationPayload}
use bit_cord.Community.AppState.{AppState, public_key_of, set_channels}
use bit_cord.Community.Joining.{store_channel, history_peer}
use bit_cord.Community.Channel.{
  rotation_is_signed, is_newer_channel, expect_rotation, fetch_from_peer,
  handle_channel_key_rotation,
}
use bit_cord.Community.Message.{decrypt_either, buffer, handle_new_message}

-- The new manifest is newer than the one the node has, and the rotation is signed with the key of the
-- community that the new manifest names.
abbrev pub accepts_rotation : Env → AppState → ChannelKeyRotationPayload → Bool
accepts_rotation env s p = elim (public_key_of s p.new_manifest.community_id) [
  | none ↦ false
  | some pk ↦
      rotation_is_signed env pk p
      && is_newer_channel (get s.channels p.new_manifest.id) p.new_manifest
]

store_channel-frame :
    (s : AppState) (pk : Bytes) (m : ChannelManifest)
    → ((store_channel s pk m).channels ≡ s.channels)
      × ((store_channel s pk m).message_log ≡ s.message_log)
      × ((store_channel s pk m).pending_rotation_messages ≡ s.pending_rotation_messages)
unfolding store_channel
store_channel-frame s pk m = (ground arith, ground arith, ground arith)

expect_rotation-frame :
    (s : AppState) (id : Bytes)
    → ((expect_rotation s id).channels ≡ s.channels)
      × ((expect_rotation s id).message_log ≡ s.message_log)
expect_rotation-frame s id = (ground arith, ground arith)

fetch_from_peer-frame :
    (s : AppState) (id pk : Bytes)
    → ((fetch_from_peer s id pk).channels ≡ s.channels)
      × ((fetch_from_peer s id pk).message_log ≡ s.message_log)
      × ((fetch_from_peer s id pk).pending_rotation_messages ≡ s.pending_rotation_messages)
fetch_from_peer-frame s id pk = elim (Option-cases (history_peer s id)) [
  | inl n ↦ rw (fetch_from_peer, n) (refl, refl, refl)
  | inr (peer, n) ↦ rw (fetch_from_peer, n) (refl, refl, refl)
]

expect_rotation-waits :
    (s : AppState) (id : Bytes)
    → get (expect_rotation s id).pending_rotation_messages id
      ≡ some (or_else (get s.pending_rotation_messages id) [])
unfolding contains_key
expect_rotation-waits s id = elim (Option-cases (get s.pending_rotation_messages id)) [
  | inl n ↦
      rw (expect_rotation, contains_key, n) (get-insert_self s.pending_rotation_messages id [])
  | inr (w, n) ↦ rw (expect_rotation, contains_key, n) n
]

-- The state after a rotation that is accepted.
abbrev rotated : AppState → Bytes → ChannelManifest → AppState
rotated s pk m =
    fetch_from_peer
      (expect_rotation (store_channel (set_channels s (insert s.channels m.id m)) pk m) m.id)
      m.community_id pk

module _ (env : Env) (s : AppState) (p : ChannelKeyRotationPayload) where
  -- A rotation changes the channels only if it is accepted, to hold its manifest under the
  -- manifest's id, and it never changes the messages.
  pub channels-rotation :
      ((handle_channel_key_rotation env s p).channels ≡ (
        if accepts_rotation env s p
        then insert s.channels p.new_manifest.id p.new_manifest
        else s.channels))
      × ((handle_channel_key_rotation env s p).message_log ≡ s.message_log)
  unfolding handle_channel_key_rotation
  channels-rotation =
      let m = p.new_manifest in
      elim (Option-cases (public_key_of s m.community_id)) [
        | inl n ↦ rw (handle_channel_key_rotation, accepts_rotation, n) (refl, refl)
        | inr (pk, n) ↦ elim (Bool-cases (rotation_is_signed env pk p)) [
          | inr f ↦ rw (handle_channel_key_rotation, accepts_rotation, n, f) (refl, refl)
          | inl t ↦ elim (Bool-cases (is_newer_channel (get s.channels m.id) m)) [
            | inr f ↦ rw (handle_channel_key_rotation, accepts_rotation, n, t, f) (refl, refl)
            | inl w ↦
                let s1 = set_channels s (insert s.channels m.id m) in
                let s2 = store_channel s1 pk m in
                let s3 = expect_rotation s2 m.id in
                let a = store_channel-frame s1 pk m in
                let b = expect_rotation-frame s2 m.id in
                let c = fetch_from_peer-frame s3 m.community_id pk in
                rw (handle_channel_key_rotation, accepts_rotation, n, t, w)
                  (c.0 ∙ b.0 ∙ a.0, c.1 ∙ b.1 ∙ a.1)
          ]
        ]
      ]

-- The version of a channel's manifest, 0 where there is none.
abbrev pub version_of : Option ChannelManifest → ℕ
version_of none = 0
version_of (some m) = m.version

newer-version :
    (o : Option ChannelManifest) (m : ChannelManifest)
    → is_newer_channel o m ≡ true
    → (is_some o ≡ true) × (ltb (version_of o) m.version ≡ true)
newer-version none m h = ground (arith, h)
newer-version (some old) m h = (refl, h)

accepted_is_newer :
    (env : Env) (s : AppState) (p : ChannelKeyRotationPayload)
    → accepts_rotation env s p ≡ true
    → is_newer_channel (get s.channels p.new_manifest.id) p.new_manifest ≡ true
accepted_is_newer env s p ok = elim (Option-cases (public_key_of s p.new_manifest.community_id)) [
  | inl n ↦ ground (arith, rw (accepts_rotation, n) at ok)
  | inr (pk, n) ↦ ground (arith, rw (accepts_rotation, n) at ok)
]

-- No rotation adds a channel or takes one away, and no rotation lowers the version of a channel's
-- manifest.
pub rotation-version :
    (env : Env) (s : AppState) (p : ChannelKeyRotationPayload) (id : Bytes)
    → (is_some (get (handle_channel_key_rotation env s p).channels id)
        ≡ is_some (get s.channels id))
      × (leb
            (version_of (get s.channels id))
            (version_of (get (handle_channel_key_rotation env s p).channels id))
          ≡ true)
rotation-version env s p id =
    let m = p.new_manifest in
    let old = get s.channels id in
    rw ((channels-rotation env s p).0) (elim (Bool-cases (accepts_rotation env s p)) [
      | inr f ↦ rw f (refl, ground arith)
      | inl t ↦
          let newer = newer-version (get s.channels m.id) m (accepted_is_newer env s p t) in
          rw (t, get-insert)
            (elim (Bool-cases (m.id == id)) [
              | inr g ↦ rw g (refl, ground arith)
              | inl g ↦
                  let at_id : get s.channels m.id ≡ old =
                    ap (get s.channels) ((list_eq.beq_iff m.id id).0 g) in
                  rw (g, sym at_id) (sym newer.0, ground (arith, newer.1))
            ])
    ])

-- After an accepted rotation the channel has a list of waiting messages, with those of before.
pending-rotation :
    (env : Env) (s : AppState) (p : ChannelKeyRotationPayload)
    → accepts_rotation env s p ≡ true
    → get (handle_channel_key_rotation env s p).pending_rotation_messages p.new_manifest.id
      ≡ some (or_else (get s.pending_rotation_messages p.new_manifest.id) [])
unfolding handle_channel_key_rotation
pending-rotation env s p ok =
    let m = p.new_manifest in
    elim (Option-cases (public_key_of s m.community_id)) [
      | inl n ↦ ground (arith, rw (accepts_rotation, n) at ok)
      | inr (pk, n) ↦
          let s1 = set_channels s (insert s.channels m.id m) in
          let s2 = store_channel s1 pk m in
          let s3 = expect_rotation s2 m.id in
          let a = store_channel-frame s1 pk m in
          let c = fetch_from_peer-frame s3 m.community_id pk in
          let accepted = rw (accepts_rotation, n) at ok in
          let signed : rotation_is_signed env pk p ≡ true = ground (arith, accepted) in
          rw (handle_channel_key_rotation, n, signed, accepted_is_newer env s p ok)
            (ap (λ w. get w m.id) c.2
              ∙ expect_rotation-waits s2 m.id
              ∙ ap (λ w. some (or_else (get w m.id) [])) a.2)
    ]

rotation-keys :
    (env : Env) (s : AppState) (p : ChannelKeyRotationPayload)
    → ((handle_channel_key_rotation env s p).channel_keys ≡ s.channel_keys)
      × ((handle_channel_key_rotation env s p).previous_channel_keys ≡ s.previous_channel_keys)
unfolding handle_channel_key_rotation store_channel
rotation-keys env s p = (ground arith, ground arith)

undecrypted_is_buffered :
    (env : Env) (t : AppState) (topic payload : Bytes) (raw : RawMessage) (ch : ChannelManifest)
    (key : Bytes)
    → get t.channels raw.channel_id ≡ some ch
    → get t.channel_keys raw.channel_id ≡ some key
    → decrypt_either env key (get t.previous_channel_keys raw.channel_id) raw.nonce raw.ciphertext
      ≡ none
    → handle_new_message env t topic payload raw ≡ buffer t raw.channel_id topic payload
unfolding handle_new_message
undecrypted_is_buffered env t topic payload raw ch key known has_key undecrypted =
    rw (handle_new_message, known, has_key, undecrypted) refl

get-buffer :
    (t : AppState) (id topic payload : Bytes) (waiting : List (Bytes × Bytes))
    → get t.pending_rotation_messages id ≡ some waiting
    → get (buffer t id topic payload).pending_rotation_messages id
      ≡ some (waiting ++ (topic, payload) ∷ [])
unfolding buffer
get-buffer t id topic payload waiting h =
    rw (buffer, h)
      (get-insert_self t.pending_rotation_messages id (waiting ++ (topic, payload) ∷ []))

-- A message that neither key of its channel decrypts, on a channel whose rotation has been accepted
-- just before, is not lost: with the topic and the bytes it came in, it is the last of the messages
-- that wait for the new key, after those that waited before.
pub late_message_waits :
    (env : Env) (s : AppState) (p : ChannelKeyRotationPayload) (topic payload : Bytes)
    (raw : RawMessage) (key : Bytes)
    → accepts_rotation env s p ≡ true
    → raw.channel_id ≡ p.new_manifest.id
    → get s.channel_keys raw.channel_id ≡ some key
    → decrypt_either env key (get s.previous_channel_keys raw.channel_id) raw.nonce raw.ciphertext
      ≡ none
    → get
        (handle_new_message env
          (handle_channel_key_rotation env s p)
          topic
          payload
          raw).pending_rotation_messages
        raw.channel_id
      ≡ some (or_else (get s.pending_rotation_messages raw.channel_id) [] ++ (topic, payload) ∷ [])
late_message_waits env s p topic payload raw key ok same_ch has_key undecrypted =
    let m = p.new_manifest in
    let t = handle_channel_key_rotation env s p in
    let channels = (channels-rotation env s p).0 in
    let known : get t.channels raw.channel_id ≡ some m =
      rw (channels, ok, same_ch) (get-insert_self s.channels m.id m) in
    let keys = rotation-keys env s p in
    let is_buffered =
      undecrypted_is_buffered env t topic payload raw m key known (rw keys.0 has_key)
        (rw keys.1 undecrypted) in
    let waits =
      subst
        (λ id.
          get t.pending_rotation_messages id
          ≡ some (or_else (get s.pending_rotation_messages id) []))
        (sym same_ch) (pending-rotation env s p ok) in
    ap (λ (u : AppState). get u.pending_rotation_messages raw.channel_id) is_buffered
    ∙ get-buffer t raw.channel_id topic payload _ waits
