-- ===== src/Community/Channel/History.antt =====
-- What the log holds after a peer has sent the history of a channel.
use bit_cord.Prelude.{
  ◌≡◌, refl, ◌∙◌, ap, Bool, true, ◌&&◌, Bytes, String, string_eq, List, [], ◌∷◌, find, Option, none,
  some, is_some, ◌==◌, if◌then◌else◌, arith, inl, inr, Bool-cases, nat_eq, list_eq,
}
use bit_cord.State.MessageLog.{LogEntry, MessageLog, get_entry, append_entry, has_id}
use bit_cord.State.MessageLog.Append.{first_of, get_entry-append_entry, get_entry-channels}
use bit_cord.Prelude.Map.{get}
use bit_cord.Community.Model.{Env}
use bit_cord.Community.AppState.{AppState}
use bit_cord.Community.Channel.{
  decrypted_content, integrate_entry, integrate, handle_channel_history,
}
use bit_cord.Community.Message.{apply_reaction}
use bit_cord.Community.Channel.Accepts.{persist-log, apply_reaction-channels}

abbrev only : Bool → LogEntry → Option LogEntry
only b e = if b then some e else none

known_wins :
    (o : Option LogEntry) (b : Bool) (e : LogEntry)
    → (b ≡ true → is_some o ≡ true)
    → o ≡ first_of o (only b e)
known_wins none b e h = ground (arith, h)
known_wins (some x) b e h = refl

known_here :
    (log : MessageLog) (ch c id j : String)
    → is_some (get_entry log ch id) ≡ true
    → (ch == c && id == j) ≡ true
    → is_some (get_entry log c j) ≡ true
known_here log ch c id j t b = ground (arith, t, b, string_eq.beq_iff ch c, string_eq.beq_iff id j)

find-cons :
    (b : Bool) (j : String) (e : LogEntry) (es : List LogEntry)
    → first_of (only (b && e.message_id == j) e) (if b then find (has_id j) es else none)
      ≡ (if b then find (has_id j) (e ∷ es) else none)
find-cons b j e es = ground arith

first_of_assoc : (a b c : Option LogEntry) → first_of (first_of a b) c ≡ first_of a (first_of b c)
first_of_assoc none b c = refl
first_of_assoc (some e) b c = refl

module _ (env : Env) (community_id ch_id : Bytes) (key : Option Bytes) where
  pub integrate_entry-log :
      (s : AppState) (e : LogEntry)
      → (integrate_entry env community_id ch_id key s e).message_log ≡ (
          if is_some (get_entry s.message_log (env.id_text ch_id) e.message_id)
          then s.message_log
          else append_entry
              (apply_reaction s.message_log
                (decrypted_content env key e.nonce e.ciphertext)
                e.author_id)
              (env.id_text ch_id)
              e)
  unfolding integrate_entry
  integrate_entry-log s e =
      elim (Bool-cases (is_some (get_entry s.message_log (env.id_text ch_id) e.message_id))) [
        | inl t ↦ rw (integrate_entry, t) refl
        | inr f ↦ rw (integrate_entry, f) (persist-log _ community_id ch_id e)
      ]

  get_entry-integrate_entry :
      (s : AppState) (e : LogEntry) (c j : String)
      → get_entry (integrate_entry env community_id ch_id key s e).message_log c j
        ≡ first_of
            (get_entry s.message_log c j)
            (only (env.id_text ch_id == c && e.message_id == j) e)
  get_entry-integrate_entry s e c j =
      let ch = env.id_text ch_id in
      let log =
        apply_reaction s.message_log (decrypted_content env key e.nonce e.ciphertext) e.author_id in
      ap (λ l. get_entry l c j) (integrate_entry-log s e)
      ∙ elim (Bool-cases (is_some (get_entry s.message_log ch e.message_id))) [
        | inl t ↦ rw t (known_wins _ _ e (known_here s.message_log ch c e.message_id j t))
        | inr f ↦ rw f (
            get_entry-append_entry log ch c j e
            ∙ ap (λ o. first_of o (only (ch == c && e.message_id == j) e))
                (get_entry-channels log s.message_log c j (
                  apply_reaction-channels s.message_log
                    (decrypted_content env key e.nonce e.ciphertext) e.author_id)))
      ]

  get_entry-integrate :
      (s : AppState) (es : List LogEntry) (c j : String)
      → get_entry (integrate env community_id ch_id key s es).message_log c j
        ≡ first_of
            (get_entry s.message_log c j)
            (if env.id_text ch_id == c then find (has_id j) es else none)
  unfolding integrate
  get_entry-integrate s [] c j = ground arith
  get_entry-integrate s (e ∷ es) c j =
      get_entry-integrate (integrate_entry env community_id ch_id key s e) es c j
      ∙ rw (get_entry-integrate_entry, first_of_assoc)
          (ap (first_of (get_entry s.message_log c j)) (find-cons (env.id_text ch_id == c) j e es))

-- After a channel's history has arrived, a lookup of any id in any channel finds what it found before,
-- and where it found nothing in that channel it finds the first entry of the history with that id.
pub get_entry-handle_channel_history :
    (env : Env) (s : AppState) (community_id ch_id : Bytes) (es : List LogEntry) (c j : String)
    → get_entry (handle_channel_history env s community_id ch_id es).message_log c j
      ≡ first_of
          (get_entry s.message_log c j)
          (if env.id_text ch_id == c then find (has_id j) es else none)
unfolding handle_channel_history
get_entry-handle_channel_history env s community_id ch_id es c j =
    get_entry-integrate env community_id ch_id (get s.channel_keys ch_id) s es c j
