-- ===== src/Community/Channel/Frames.antt =====
-- What a channel message leaves of the rosters.
use bit_cord.Prelude.{
  ◌≡◌, refl, Bytes, Option, none, some, is_some, arith, nat_eq, list_eq, if_cases, not_cases,
  elim_cases,
}
use bit_cord.Prelude.Map.{get, insert}
use bit_cord.State.MessageLog.{get_entry}
use bit_cord.Community.Model.{
  Env, RawMessage, raw_verify, MessageContent, EditMessagePayload, DeleteMessagePayload,
  ChannelKeyRotationPayload, ChannelEvent, reaction_content, text_content,
}
use bit_cord.Community.AppState.{AppState, set_channels, public_key_of}
use bit_cord.Community.Frame.{
  SameRoster, SameRoster-refl, SameRoster-trans, SameRoster-store_channel,
}
use bit_cord.Community.Joining.{store_channel}
use bit_cord.Community.Message.{
  decrypt_either, author_key, entry_of, log_message, buffer, persist_message, notify, store_message,
  verify_and_store, handle_new_message,
}
use bit_cord.Community.Channel.{
  notify_edited, handle_edit_message, notify_deleted, handle_delete_message,
  handle_channel_key_rotation, rotation_is_signed, is_newer_channel, expect_rotation,
  fetch_from_peer, handle_channel_event, handle_channel_message,
}

pub same :
    {s t : AppState}
    → t.members ≡ s.members
    → t.bans ≡ s.bans
    → t.communities ≡ s.communities
    → t.disk.members ≡ s.disk.members
    → SameRoster s t
same a b c d = record { members = a; bans = b; communities = c; disk_members = d }

SameRoster-buffer :
    (s : AppState) (ch topic payload : Bytes) → SameRoster s (buffer s ch topic payload)
unfolding buffer
SameRoster-buffer s ch topic payload = ground arith

SameRoster-persist : (s : AppState) (c ch : Bytes) (e : _) → SameRoster s (persist_message s c ch e)
unfolding persist_message
SameRoster-persist s c ch e = ground arith

SameRoster-notify :
    (env : Env) (s : AppState) (c : Bytes) (raw : RawMessage) (content : Option MessageContent)
    → SameRoster s (notify env s c raw content)
unfolding notify
SameRoster-notify env s c raw none = same refl refl refl refl
SameRoster-notify env s c raw (some (text_content a b d e)) = same refl refl refl refl
SameRoster-notify env s c raw (some (reaction_content a b d)) = same refl refl refl refl

SameRoster-store :
    (env : Env) (s : AppState) (c : Bytes) (raw : RawMessage) (content : Option MessageContent)
    → SameRoster s (store_message env s c raw content)
unfolding store_message
SameRoster-store env s c raw content =
    let s1 : AppState = record s { message_log = log_message env s.message_log raw content } in
    let s2 = persist_message s1 c raw.channel_id (entry_of env raw) in
    SameRoster-trans (same {s = s} {t = s1} refl refl refl refl) (
      SameRoster-trans (SameRoster-persist s1 c raw.channel_id (entry_of env raw))
        (SameRoster-notify env s2 c raw content))

SameRoster-verify :
    (env : Env) (s : AppState) (c : Bytes) (raw : RawMessage) (plain : Bytes)
    → SameRoster s (verify_and_store env s c raw plain)
unfolding verify_and_store
SameRoster-verify env s c raw plain =
    elim_cases (SameRoster s) (author_key s c raw.author_id) _ _ (λ n. SameRoster-refl s)
      (λ pk n.
        not_cases (SameRoster s) (raw_verify env raw pk) _ _ (λ h. SameRoster-refl s)
          (λ h.
            if_cases (SameRoster s)
              (is_some (get_entry s.message_log (env.id_text raw.channel_id) (env.id_text raw.id)))
              _ _ (λ k. SameRoster-refl s)
              (λ k. SameRoster-store env s c raw (env.decode_content plain))))

SameRoster-new_message :
    (env : Env) (s : AppState) (topic payload : Bytes) (raw : RawMessage)
    → SameRoster s (handle_new_message env s topic payload raw)
unfolding handle_new_message
SameRoster-new_message env s topic payload raw =
    elim_cases (SameRoster s) (get s.channels raw.channel_id) _ _ (λ n. SameRoster-refl s)
      (λ ch n.
        elim_cases (SameRoster s) (get s.channel_keys raw.channel_id) _ _ (λ k. SameRoster-refl s)
          (λ key k.
            elim_cases (SameRoster s)
              (decrypt_either env key (get s.previous_channel_keys raw.channel_id) raw.nonce
                raw.ciphertext)
              _ _ (λ d. SameRoster-buffer s raw.channel_id topic payload)
              (λ plain d. SameRoster-verify env s ch.community_id raw plain)))

SameRoster-edit :
    (env : Env) (s : AppState) (p : EditMessagePayload) → SameRoster s (handle_edit_message env s p)
unfolding handle_edit_message notify_edited
SameRoster-edit env s p = ground arith

SameRoster-delete :
    (env : Env) (s : AppState) (p : DeleteMessagePayload)
    → SameRoster s (handle_delete_message env s p)
unfolding handle_delete_message notify_deleted
SameRoster-delete env s p = ground arith

SameRoster-expect : (s : AppState) (c : Bytes) → SameRoster s (expect_rotation s c)
SameRoster-expect s c = ground arith

SameRoster-fetch : (s : AppState) (c pk : Bytes) → SameRoster s (fetch_from_peer s c pk)
SameRoster-fetch s c pk = ground arith

SameRoster-rotation :
    (env : Env) (s : AppState) (p : ChannelKeyRotationPayload)
    → SameRoster s (handle_channel_key_rotation env s p)
unfolding handle_channel_key_rotation
SameRoster-rotation env s p =
    let m = p.new_manifest in
    elim_cases (SameRoster s) (public_key_of s m.community_id) _ _ (λ n. SameRoster-refl s)
      (λ pk n.
        not_cases (SameRoster s) (rotation_is_signed env pk p) _ _ (λ h. SameRoster-refl s)
          (λ h.
            not_cases (SameRoster s) (is_newer_channel (get s.channels m.id) m) _ _
              (λ k. SameRoster-refl s)
              (λ k.
                let s1 = set_channels s (insert s.channels m.id m) in
                let s2 = store_channel s1 pk m in
                SameRoster-trans (same {s = s} {t = s1} refl refl refl refl) (
                  SameRoster-trans (SameRoster-store_channel s1 pk m) (
                    SameRoster-trans (SameRoster-expect s2 m.id)
                      (SameRoster-fetch (expect_rotation s2 m.id) m.community_id pk))))))

SameRoster-event :
    (env : Env) (s : AppState) (topic payload : Bytes) (event : ChannelEvent)
    → SameRoster s (handle_channel_event env s topic payload event)
unfolding handle_channel_event
SameRoster-event env s topic payload (ChannelEvent.new_message raw) =
    SameRoster-new_message env s topic payload raw
SameRoster-event env s topic payload (ChannelEvent.channel_key_rotation p) =
    SameRoster-rotation env s p
SameRoster-event env s topic payload (ChannelEvent.edit_message p) = SameRoster-edit env s p
SameRoster-event env s topic payload (ChannelEvent.delete_message p) = SameRoster-delete env s p
SameRoster-event env s topic payload ChannelEvent.ignored = SameRoster-refl s

pub SameRoster-message :
    (env : Env) (s : AppState) (topic payload : Bytes)
    → SameRoster s (handle_channel_message env s topic payload)
unfolding handle_channel_message
SameRoster-message env s topic payload =
    elim_cases (SameRoster s) (env.decode_event payload) _ _ (λ n. SameRoster-refl s)
      (λ event n. SameRoster-event env s topic payload event)
