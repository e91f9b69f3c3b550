-- ===== src/State/MessageLog/Reactions.antt =====
-- The reactions of the message log against their abstract view: who has reacted to what, with which
-- emoji.
use bit_cord.Prelude.{
  ◌≡◌, Bool, not, ◌&&◌, ◌||◌, String, List, [], ◌∷◌, ◌++◌, length, any, keep, or_else, ltb, ◌==◌,
  if◌then◌else◌, arith, string_eq, length-keep-le,
}
use bit_cord.Prelude.Map.{Map, get, insert, remove, get-empty, get-insert, get-remove}
use bit_cord.State.MessageLog.{MessageLog, users_of, by_emoji, react, unreact}

abbrev pub has_user : String → List String → Bool
has_user u users = any (λ x. x == u) users

-- The abstract view of the reactions: a set of (message, emoji, user).
pub reacted : MessageLog → String → String → String → Bool
reacted log m e u = has_user u (users_of log m e)

has_user-append :
    (u v : String) (xs : List String) → has_user v (xs ++ u ∷ []) ≡ has_user v xs || u == v
has_user-append u v [] = ground arith
has_user-append u v (x ∷ xs) = ground (arith, has_user-append u v xs)

abbrev others : String → List String → List String
others u users = keep (λ x. not (x == u)) users

has_user-others :
    (u v : String) (xs : List String) → has_user v (others u xs) ≡ has_user v xs && not (u == v)
has_user-others u v [] = ground arith
has_user-others u v (x ∷ xs) = ground (
  arith,
  string_eq.beq_iff x u,
  string_eq.beq_iff x v,
  string_eq.beq_iff u v,
  has_user-others u v xs,
)

ltb-others :
    (u : String) (xs : List String) → ltb (length (others u xs)) (length xs) ≡ has_user u xs
ltb-others u [] = ground arith
ltb-others u (x ∷ xs) =
    ground (arith, string_eq.beq_iff x u, ltb-others u xs, length-keep-le (λ y. not (y == u)) xs)

users_of-insert :
    (log : MessageLog) (m e n f : String) (emojis : Map String (List String))
    → users_of (record log { reactions = insert log.reactions m emojis }) n f
      ≡ (if m == n then or_else (get emojis f) [] else users_of log n f)
users_of-insert log m e n f emojis = ground (arith, get-insert log.reactions m n emojis)

module _ (log : MessageLog) (m e u n f v : String) where
  -- `react` reports whether the reaction is new, and adds it and nothing else to the set.
  pub reacted-react :
      ((react log m e u).1 ≡ not (reacted log m e u))
      × (reacted (react log m e u).0 n f v ≡ reacted log n f v || (m == n && (e == f && u == v)))
  unfolding react reacted
  reacted-react = (
    ground arith,
    ground (
      arith,
      string_eq.beq_iff m n,
      string_eq.beq_iff e f,
      string_eq.beq_iff u v,
      get-insert log.reactions m n (insert (by_emoji log m) e (users_of log m e)),
      get-insert log.reactions m n (insert (by_emoji log m) e (users_of log m e ++ u ∷ [])),
      get-insert (by_emoji log m) e f (users_of log m e),
      get-insert (by_emoji log m) e f (users_of log m e ++ u ∷ []),
      has_user-append u v (users_of log m e),
    ),
  )

  -- `unreact` reports whether the reaction was there, and takes it and nothing else out of the set.
  pub reacted-unreact :
      ((unreact log m e u).1 ≡ reacted log m e u)
      × (reacted (unreact log m e u).0 n f v
          ≡ reacted log n f v && not (m == n && (e == f && u == v)))
  unfolding unreact reacted
  reacted-unreact =
      let users : List String = users_of log m e in
      let rest : List String = others u users in
      (
        ground (arith, ltb-others u users, get-empty {V = List String} e),
        ground (
          arith,
          string_eq.beq_iff m n,
          string_eq.beq_iff e f,
          string_eq.beq_iff u v,
          get-insert log.reactions m n (remove (by_emoji log m) e),
          get-insert log.reactions m n (insert (by_emoji log m) e rest),
          get-insert (by_emoji log m) e f rest,
          get-remove (by_emoji log m) e f,
          get-empty {V = List String} e,
          get-empty {V = List String} f,
          has_user-others u v users,
        ),
      )
