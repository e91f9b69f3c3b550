-- ===== src/Community/Sync/Rosters.antt =====
-- What the parts of the handler of a received manifest leave of the bans and the communities.
use bit_cord.Prelude.{
  refl, Bool, Bytes, List, [], ◌∷◌, arith, nat_eq, list_eq, if_cases, elim_cases,
}
use bit_cord.Prelude.Map.{Map, get, insert}
use bit_cord.Community.Model.{Env, MembershipRecord, SignedManifest, ChannelManifest}
use bit_cord.Community.AppState.{AppState, set_communities, set_channel_keys, set_previous_keys}
use bit_cord.Community.Member.{members_of}
use bit_cord.Community.Frame.{SameRoster, SameRoster-trans}
use bit_cord.Community.History.Frames.{
  OnlyMembers, OnlyMembers-trans, OnlyMembers-refl, OnlyMembers-frame, OnlyMembers-joined,
}
use bit_cord.Community.Sync.Keys.{update_keys}
use bit_cord.Community.Sync.Tables.{
  Received, ids_of, unqueue_sync, register_peer, store_channels, store_meta, upsert_members,
}
use bit_cord.Community.Sync.Follow.{Own, wrap_as_creator, subscribe_all, announce_own}
use bit_cord.Community.Sync.Handler.{take_manifest, follow_manifest}
use bit_cord.Community.Sync.Frames.{
  SameRoster-store_meta, SameRoster-wrap_as_creator, SameRoster-subscribe_all,
  SameRoster-fetch_histories,
}
use bit_cord.Community.Channel.Frames.{same}

SameRoster-keys :
    (s : AppState) (keys previous : Map Bytes Bytes) (rotated : List Bytes)
    → SameRoster s
        (elim rotated as (λ _. AppState × List Bytes) [
          | [] ↦ (record (set_channel_keys s keys) { previous_channel_keys = previous }, [])
          | c ∷ cs ↦ (set_previous_keys (set_channel_keys s keys) previous, c ∷ cs)
        ]).0
SameRoster-keys s keys previous [] = same refl refl refl refl
SameRoster-keys s keys previous (c ∷ cs) = same refl refl refl refl

SameRoster-update_keys :
    (env : Env) (s : AppState) (pk : Bytes) (chs : List ChannelManifest) (plain : Map Bytes Bytes)
    → SameRoster s (update_keys env s pk chs plain).0
unfolding update_keys
SameRoster-update_keys env s pk chs plain = SameRoster-keys s _ _ _

-- Only the community's manifest has changed.
pub SameRoster-take :
    (env : Env) (s : AppState) (r : Received)
    → SameRoster
        (set_communities s (insert s.communities r.manifest.manifest.id r.manifest))
        (take_manifest env s r).0
unfolding take_manifest register_peer store_channels
SameRoster-take env s r =
    let m = r.manifest in
    let s1 = set_communities s (insert s.communities m.manifest.id m) in
    let s2 = store_channels (register_peer s1 r.from_peer m) m r.channels in
    SameRoster-trans (same {s = s1} {t = s2} refl refl refl refl)
      (SameRoster-update_keys env s2 m.manifest.public_key r.channels r.channel_keys)

OnlyMembers-announce :
    (env : Env) (own : Own) (s : AppState) (m : SignedManifest)
    → OnlyMembers s (announce_own env own s m)
unfolding announce_own
OnlyMembers-announce env own s m =
    elim_cases (OnlyMembers s) (get (members_of s m.manifest.id) s.own_user_id) _ _
      (λ n. OnlyMembers-refl s)
      (λ old n.
        OnlyMembers-trans (OnlyMembers-joined env s _)
          (OnlyMembers-frame (same refl refl refl refl)))

OnlyMembers-upsert :
    (s : AppState) (id : Bytes) (rs : List MembershipRecord)
    → OnlyMembers s (upsert_members s id rs)
unfolding upsert_members
OnlyMembers-upsert s id [] = OnlyMembers-refl s
OnlyMembers-upsert s id (r ∷ rs) = record { bans = refl; communities = refl; persisted = λ p. refl }

pub OnlyMembers-follow :
    (env : Env) (own : Own) (s : AppState) (r : Received) (refetch : Bool)
    → OnlyMembers s (follow_manifest env own s r refetch)
unfolding follow_manifest
OnlyMembers-follow env own s r refetch =
    let id = r.manifest.manifest.id in
    let a = store_meta s r in
    let b = upsert_members a id r.peer_members in
    let c = subscribe_all (wrap_as_creator env b r) r in
    let d = announce_own env own c r.manifest in
    let before : OnlyMembers s d =
      OnlyMembers-trans (OnlyMembers-frame (SameRoster-store_meta s r)) (
        OnlyMembers-trans (OnlyMembers-upsert a id r.peer_members) (
          OnlyMembers-trans
            (OnlyMembers-frame (
              SameRoster-trans (SameRoster-wrap_as_creator env b r)
                (SameRoster-subscribe_all (wrap_as_creator env b r) r)))
            (OnlyMembers-announce env own c r.manifest))) in
    if_cases (OnlyMembers s) refetch _ _
      (λ h. OnlyMembers-trans before (OnlyMembers-frame (same refl refl refl refl)))
      (λ h. OnlyMembers-trans before (
        OnlyMembers-trans (OnlyMembers-frame (same {s = d} refl refl refl refl))
          (OnlyMembers-frame (SameRoster-fetch_histories env _ r (ids_of r.channels)))))

pub SameRoster-unqueue :
    (s : AppState) (id : Bytes) (version : _) → SameRoster s (unqueue_sync s id version)
SameRoster-unqueue s id version = ground arith
