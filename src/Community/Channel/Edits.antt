-- ===== src/Community/Channel/Edits.antt =====
-- What an edit and a deletion that a peer publishes do to the log: whose messages they reach.
use bit_cord.Prelude.{
  ◌≡◌, refl, ◌∙◌, ap, true, ◌&&◌, String, string_eq, map_some, is_some, ◌==◌, if◌then◌else◌, arith,
  inl, inr, Option-cases, Bool-cases,
}
use bit_cord.State.MessageLog.{MessageLog, get_entry, edit, tombstone, rewrite, mark_deleted}
use bit_cord.State.MessageLog.Edits.{get_entry-edit, get_entry-tombstone}
use bit_cord.Community.Model.{Env, EditMessagePayload, DeleteMessagePayload}
use bit_cord.Community.AppState.{AppState}
use bit_cord.Community.Channel.{
  authored, notify_edited, handle_edit_message, notify_deleted, handle_delete_message,
}

notify_edited-log :
    (env : Env) (s : AppState) (p : EditMessagePayload)
    → (notify_edited env s p).message_log ≡ s.message_log
unfolding notify_edited
notify_edited-log env s p = ground arith

notify_deleted-log :
    (s : AppState) (p : DeleteMessagePayload) → (notify_deleted s p).message_log ≡ s.message_log
unfolding notify_deleted
notify_deleted-log s p = ground arith

authored_is_found :
    (log : MessageLog) (ch id author : String)
    → authored log ch id author ≡ true
    → is_some (get_entry log ch id) ≡ true
authored_is_found log ch id author h = elim (Option-cases (get_entry log ch id)) [
  | inl n ↦ ground (arith, h, n)
  | inr (e, n) ↦ rw n refl
]

module _ (env : Env) (s : AppState) where
  pub handle_edit_message-log :
      (p : EditMessagePayload)
      → (handle_edit_message env s p).message_log ≡ (
          if authored s.message_log
            (env.id_text p.channel_id)
            (env.id_text p.message_id)
            (env.id_text p.author_id)
          then (edit s.message_log
              (env.id_text p.channel_id)
              (env.id_text p.message_id)
              p.new_nonce
              p.new_ciphertext).0
          else s.message_log)
  unfolding handle_edit_message
  handle_edit_message-log p =
      let ch = env.id_text p.channel_id in
      let id = env.id_text p.message_id in
      let found = (get_entry-edit s.message_log ch id ch id p.new_nonce p.new_ciphertext).0 in
      elim (Bool-cases (authored s.message_log ch id (env.id_text p.author_id))) [
        | inl t ↦
            let is_found =
              found ∙ authored_is_found s.message_log ch id (env.id_text p.author_id) t in
            rw (handle_edit_message, t, is_found) (notify_edited-log env _ p)
        | inr f ↦ rw (handle_edit_message, f) refl
      ]

  pub handle_delete_message-log :
      (p : DeleteMessagePayload)
      → (handle_delete_message env s p).message_log ≡ (
          if authored s.message_log
            (env.id_text p.channel_id)
            (env.id_text p.message_id)
            (env.id_text p.author_id)
          then (tombstone s.message_log (env.id_text p.channel_id) (env.id_text p.message_id)).0
          else s.message_log)
  unfolding handle_delete_message
  handle_delete_message-log p =
      let ch = env.id_text p.channel_id in
      let id = env.id_text p.message_id in
      let found = (get_entry-tombstone s.message_log ch id ch id).0 in
      elim (Bool-cases (authored s.message_log ch id (env.id_text p.author_id))) [
        | inl t ↦
            let is_found =
              found ∙ authored_is_found s.message_log ch id (env.id_text p.author_id) t in
            rw (handle_delete_message, t, is_found) (notify_deleted-log _ p)
        | inr f ↦ rw (handle_delete_message, f) refl
      ]

-- After an edit that names the entry's author, whoever has sent it and whatever its signature, a
-- lookup finds the new nonce and ciphertext in the entry it names, and what it found before
-- otherwise: for another id, another channel, and where the author is not the one named.
pub get_entry-handle_edit_message :
    (env : Env) (s : AppState) (p : EditMessagePayload) (c j : String)
    → get_entry (handle_edit_message env s p).message_log c j ≡ (
        if authored s.message_log
            (env.id_text p.channel_id)
            (env.id_text p.message_id)
            (env.id_text p.author_id)
          && (env.id_text p.channel_id == c && env.id_text p.message_id == j)
        then map_some
            (rewrite p.new_nonce p.new_ciphertext)
            (get_entry s.message_log (env.id_text p.channel_id) (env.id_text p.message_id))
        else get_entry s.message_log c j)
get_entry-handle_edit_message env s p c j =
    let ch = env.id_text p.channel_id in
    let id = env.id_text p.message_id in
    ap (λ l. get_entry l c j) (handle_edit_message-log env s p)
    ∙ elim (Bool-cases (authored s.message_log ch id (env.id_text p.author_id))) [
      | inl t ↦ rw t ((get_entry-edit s.message_log ch id c j p.new_nonce p.new_ciphertext).1)
      | inr f ↦ rw f refl
    ]

-- After a deletion that names the entry's author, whoever has sent it and whatever its signature, a
-- lookup finds the entry it names marked as deleted, with its ciphertext, and what it found before
-- otherwise: for another id, another channel, and where the author is not the one named.
pub get_entry-handle_delete_message :
    (env : Env) (s : AppState) (p : DeleteMessagePayload) (c j : String)
    → get_entry (handle_delete_message env s p).message_log c j ≡ (
        if authored s.message_log
            (env.id_text p.channel_id)
            (env.id_text p.message_id)
            (env.id_text p.author_id)
          && (env.id_text p.channel_id == c && env.id_text p.message_id == j)
        then map_some mark_deleted
            (get_entry s.message_log (env.id_text p.channel_id) (env.id_text p.message_id))
        else get_entry s.message_log c j)
get_entry-handle_delete_message env s p c j =
    let ch = env.id_text p.channel_id in
    let id = env.id_text p.message_id in
    ap (λ l. get_entry l c j) (handle_delete_message-log env s p)
    ∙ elim (Bool-cases (authored s.message_log ch id (env.id_text p.author_id))) [
      | inl t ↦ rw t ((get_entry-tombstone s.message_log ch id c j).1)
      | inr f ↦ rw f refl
    ]
