-- ===== src/Community/History/Manifests.antt =====
-- The manifests of the communities over a history of messages.
use bit_cord.Prelude.{
  ◌≡◌, ◌≤◌, ◌&&◌, Bytes, List, [], ◌∷◌, Option, none, some, arith, inl, inr, Option-cases,
  Bool-cases, list_eq, nat_eq, ◌==◌, bytes_eq_iff,
}
use bit_cord.Prelude.Map.{Map, get}
use bit_cord.Community.Model.{Env, SignedManifest}
use bit_cord.Community.AppState.{AppState}
use bit_cord.Community.Frame.{SameRoster-heartbeat}
use bit_cord.Community.Manifest.{
  CommunityEvent, channel_manifest_broadcast, manifest_update, member_joined, member_left,
  member_role_updated, presence_heartbeat, unused, handle_manifest_update, handle_community_message,
}
use bit_cord.Community.Manifest.Effects.{
  SameRoster-channel_manifest, accepts, communities-manifest_update,
}
use bit_cord.Community.History.{Message, run}
use bit_cord.Community.History.Frames.{OnlyMembers-joined, OnlyMembers-left, OnlyMembers-role}

-- The first manifest may come after the second one: it is gone, or of no older version.
abbrev pub Follows : Option SignedManifest → Option SignedManifest → Type 0
Follows none old = Unit
Follows (some new) none = ⊥
Follows (some new) (some old) = old.manifest.version ≤ new.manifest.version

Follows-refl : (o : Option SignedManifest) → Follows o o
Follows-refl none = tt
Follows-refl (some m) = ground arith

Follows-trans : (a b c : Option SignedManifest) → Follows a b → Follows b c → Follows a c
Follows-trans none b c h k = tt
Follows-trans (some a) none c h k = absurd h
Follows-trans (some a) (some b) none h k = absurd k
Follows-trans (some a) (some b) (some c) h k = ground arith

Follows-manifest_update :
    (env : Env) (s : AppState) (m : SignedManifest) (source : Option Bytes) (c : Bytes)
    → Follows (get (handle_manifest_update env s m source).communities c) (get s.communities c)
Follows-manifest_update env s m source c =
    elim (Bool-cases (accepts env s m && m.manifest.id == c)) [
      | inr f ↦
          rw (communities-manifest_update env s m source c, f) (Follows-refl (get s.communities c))
      | inl t ↦ elim (Bool-cases m.manifest.deleted) [
        | inl d ↦ rw (communities-manifest_update env s m source c, t, d) tt
        | inr k ↦ elim (Option-cases (get s.communities c)) [
          | inl absent ↦ ground (arith, t, absent, bytes_eq_iff m.manifest.id c)
          | inr (old, p) ↦
              rw (communities-manifest_update env s m source c, t, k, p)
                (ground (arith, t, p, bytes_eq_iff m.manifest.id c))
        ]
      ]
    ]

Follows-same :
    {new old : Map Bytes SignedManifest} (c : Bytes) → new ≡ old → Follows (get new c) (get old c)
Follows-same {old = old} c h = rw h (Follows-refl (get old c))

Follows-message :
    (env : Env) (s : AppState) (e : CommunityEvent) (source : Option Bytes) (c : Bytes)
    → Follows (get (handle_community_message env s e source).communities c) (get s.communities c)
unfolding handle_community_message
Follows-message env s (channel_manifest_broadcast m) source c =
    Follows-same c (SameRoster-channel_manifest env s m).communities
Follows-message env s (manifest_update m) source c = Follows-manifest_update env s m source c
Follows-message env s (member_joined r) source c =
    Follows-same c (OnlyMembers-joined env s r).communities
Follows-message env s (member_left p) source c =
    Follows-same c (OnlyMembers-left env s p).communities
Follows-message env s (member_role_updated p) source c =
    Follows-same c (OnlyMembers-role env s p).communities
Follows-message env s (presence_heartbeat hb) source c =
    Follows-same c (SameRoster-heartbeat env s hb).communities
Follows-message env s unused source c = Follows-refl (get s.communities c)

-- After any messages, the manifest of a community is gone or has a version at least that of the
-- manifest before; a community that was absent stays absent.
pub Follows-run :
    (env : Env) (s : AppState) (ms : List Message) (c : Bytes)
    → Follows (get (run env s ms).communities c) (get s.communities c)
unfolding run
Follows-run env s [] c = Follows-refl (get s.communities c)
Follows-run env s ((e, source) ∷ ms) c =
    let t = handle_community_message env s e source in
    Follows-trans (get (run env t ms).communities c) (get t.communities c) (get s.communities c)
      (Follows-run env t ms c) (Follows-message env s e source c)
