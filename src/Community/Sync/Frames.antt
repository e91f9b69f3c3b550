-- ===== src/Community/Sync/Frames.antt =====
-- What the steps of a received manifest leave of the rosters.
use bit_cord.Prelude.{
  ◌≡◌, refl, subst, false, Bytes, List, [], ◌∷◌, Option, none, some, arith, ◌==◌, nat_eq, list_eq,
  if_cases, elim_cases,
}
use bit_cord.Prelude.Map.{Map, get, insert, remove, contains_key}
use bit_cord.Community.Model.{Env, MembershipRecord}
use bit_cord.Community.AppState.{
  AppState, set_channels, send, broadcast, publish_channel_manifest, community_topic, sync_progress,
  fetch_channel_history,
}
use bit_cord.Community.Frame.{
  SameRoster, SameRoster-refl, SameRoster-trans, SameRoster-subscribe_channels,
}
use bit_cord.Community.Joining.{since_seq}
use bit_cord.Community.Channel.{handle_channel_message}
use bit_cord.Community.Sync.Tables.{Received, ids_of, store_meta}
use bit_cord.Community.Sync.Replay.{takes_lock, replay, drain, retry_rotations}
use bit_cord.Community.Sync.Follow.{
  wrap_missing, fetch_peer, wrap_for_members, wrap_as_creator, subscribe_all, fetch_histories,
}
use bit_cord.Community.Channel.Frames.{same, SameRoster-message}

pub SameRoster-retry :
    (s : AppState) (r : Received) (rotated : List Bytes)
    → SameRoster s (retry_rotations s r rotated)
unfolding retry_rotations
SameRoster-retry s r rotated = ground arith

pub SameRoster-store_meta : (s : AppState) (r : Received) → SameRoster s (store_meta s r)
unfolding store_meta
SameRoster-store_meta s r = ground arith

-- The rosters of a state that may not be reached.
abbrev Reaches : AppState → Option AppState → Type 0
Reaches s none = Unit
Reaches s (some t) = SameRoster s t

Reaches-trans : (s t : AppState) (o : Option AppState) → SameRoster s t → Reaches t o → Reaches s o
Reaches-trans s t none h k = tt
Reaches-trans s t (some u) h k = SameRoster-trans h k

SameRoster-replay :
    (env : Env) (s : AppState) (waiting : List (Bytes × Bytes)) → Reaches s (replay env s waiting)
unfolding replay
SameRoster-replay env s [] = SameRoster-refl s
SameRoster-replay env s ((topic, payload) ∷ rest) =
    if_cases (Reaches s) (takes_lock env s payload) _ _ (λ h. tt)
      (λ h.
        Reaches-trans s (handle_channel_message env s topic payload) _
          (SameRoster-message env s topic payload)
          (SameRoster-replay env (handle_channel_message env s topic payload) rest))

SameRoster-drain_all : (env : Env) (s : AppState) (cs : List Bytes) → Reaches s (drain env s cs)
unfolding drain
SameRoster-drain_all env s [] = SameRoster-refl s
SameRoster-drain_all env s (c ∷ cs) =
    elim_cases (Reaches s) (get s.pending_rotation_messages c) _ _
      (λ n. SameRoster-drain_all env s cs)
      (λ waiting n.
        let s' : AppState = record s {
          pending_rotation_messages = remove s.pending_rotation_messages c;
        } in
        let reached : Reaches s (replay env s' waiting) =
          Reaches-trans s s' _ (same {s = s} {t = s'} refl refl refl refl)
            (SameRoster-replay env s' waiting) in
        elim_cases (Reaches s) (replay env s' waiting) _ _ (λ k. tt)
          (λ t k.
            Reaches-trans s t _ (subst (Reaches s) k reached) (SameRoster-drain_all env t cs)))

pub SameRoster-drain :
    (env : Env) (s : AppState) (cs : List Bytes) (t : AppState)
    → drain env s cs ≡ some t
    → SameRoster s t
SameRoster-drain env s cs t h = subst (Reaches s) h (SameRoster-drain_all env s cs)

pub SameRoster-wrap_members :
    (env : Env) (id : Bytes) (keys : Map Bytes Bytes) (ms : List MembershipRecord) (s : AppState)
    (cs : List Bytes)
    → SameRoster s (wrap_for_members env id keys ms s cs)
unfolding wrap_for_members
SameRoster-wrap_members env id keys ms s [] = SameRoster-refl s
SameRoster-wrap_members env id keys ms s (c ∷ cs) =
    let skip = SameRoster-wrap_members env id keys ms s cs in
    elim_cases (SameRoster s) (get keys c) _ _ (λ n. skip)
      (λ key n.
        elim_cases (SameRoster s) (get s.channels c) _ _ (λ k. skip)
          (λ ch k.
            let (ch', updated) = wrap_missing env key ms (ch, false) in
            let next =
              send (set_channels s (insert s.channels c ch'))
                (publish_channel_manifest (community_topic id) ch') in
            if_cases (SameRoster s) updated _ _
              (λ u.
                SameRoster-trans (same {s = s} {t = next} refl refl refl refl)
                  (SameRoster-wrap_members env id keys ms next cs))
              (λ u. skip)))

pub SameRoster-wrap_as_creator :
    (env : Env) (s : AppState) (r : Received) → SameRoster s (wrap_as_creator env s r)
unfolding wrap_as_creator
SameRoster-wrap_as_creator env s r =
    if_cases (SameRoster s) (r.manifest.manifest.public_key == s.own_pk) _ _
      (λ h. SameRoster-wrap_members env _ _ _ s _) (λ h. SameRoster-refl s)

pub SameRoster-subscribe_all : (s : AppState) (r : Received) → SameRoster s (subscribe_all s r)
SameRoster-subscribe_all s r =
    SameRoster-trans (SameRoster-subscribe_channels s (ids_of r.channels))
      (same refl refl refl refl)

pub SameRoster-fetch_histories :
    (env : Env) (s : AppState) (r : Received) (cs : List Bytes)
    → SameRoster s (fetch_histories env s r cs)
unfolding fetch_histories
SameRoster-fetch_histories env s r [] = SameRoster-refl s
SameRoster-fetch_histories env s r (c ∷ cs) =
    let id = r.manifest.manifest.id in
    let pk = r.manifest.manifest.public_key in
    let fetched =
      send (broadcast s (sync_progress c 0))
        (fetch_channel_history (fetch_peer s id r.from_peer) id pk c (since_seq env s pk c)) in
    if_cases (SameRoster s) (contains_key s.channel_keys c) _ _
      (λ h.
        SameRoster-trans (same {s = s} {t = fetched} refl refl refl refl)
          (SameRoster-fetch_histories env fetched r cs))
      (λ h. SameRoster-fetch_histories env s r cs)
