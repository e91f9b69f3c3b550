-- ===== src/Community/History/Roster.antt =====
-- The members of the communities over a history of messages.
use bit_cord.Prelude.{
  ◌≡◌, refl, true, ◌&&◌, Bytes, List, [], ◌∷◌, Option, none, some, arith, inl, inr, Bool-cases,
  list_eq, nat_eq, ◌==◌, map_some, if◌then◌else◌, bytes_eq_iff,
}
use bit_cord.Prelude.Map.{get-remove, get-empty}
use bit_cord.Community.Model.{
  Env, MembershipRecord, MemberLeftPayload, MemberRoleUpdatedPayload, SignedManifest,
}
use bit_cord.Community.AppState.{AppState}
use bit_cord.Community.Frame.{SameRoster, SameRoster-heartbeat}
use bit_cord.Community.Member.{
  is_banned, join_is_signed, handle_member_joined, leave_is_valid, handle_member_left,
  role_is_valid, with_role, handle_member_role_updated,
}
use bit_cord.Community.Member.Effects.{
  member_at, admits, member_at-joined, member_at-left, member_at-role_updated,
}
use bit_cord.Community.Manifest.{
  CommunityEvent, channel_manifest_broadcast, manifest_update, member_joined, member_left,
  member_role_updated, presence_heartbeat, unused, handle_manifest_update, handle_community_message,
}
use bit_cord.Community.Manifest.Effects.{
  SameRoster-channel_manifest, accepts, members-manifest_update,
}
use bit_cord.Community.History.{Message, run}
use bit_cord.Community.History.Frames.{
  OnlyMembers-frame, OnlyMembers-joined, OnlyMembers-left, OnlyMembers-role,
}

-- A record stands at its own user and community, and its user id is that of its key.
abbrev pub Fits : Env → Bytes → Bytes → Option MembershipRecord → Type 0
Fits env c u none = Unit
Fits env c u (some r) = (r.user_id ≡ u) × (r.community_id ≡ c) × (env.user_id_of r.public_key ≡ u)

abbrev pub IsAuthentic : Env → AppState → Type 0
IsAuthentic env s = (c u : Bytes) → Fits env c u (member_at s c u)

abbrev pub IsPersisted : AppState → Type 0
IsPersisted s = s.disk.members ≡ s.members

-- After an update, a community's members are as before or gone.
member_at-manifest_update :
    (env : Env) (s : AppState) (new : SignedManifest) (source : Option Bytes) (c u : Bytes)
    → member_at (handle_manifest_update env s new source) c u ≡ (
        if (accepts env s new && new.manifest.deleted) && new.manifest.id == c
        then none
        else member_at s c u)
member_at-manifest_update env s new source c u =
    elim (Bool-cases (accepts env s new && new.manifest.deleted)) [
      | inl t ↦
          rw ((members-manifest_update env s new source).0, t)
            (ground
              (arith, get-remove s.members new.manifest.id c, get-empty {V = MembershipRecord} u))
      | inr f ↦ rw ((members-manifest_update env s new source).0, f) refl
    ]

module _ (env : Env) (s : AppState) (authentic : IsAuthentic env s) where
  Fits-joined : (r : MembershipRecord) → IsAuthentic env (handle_member_joined env s r)
  unfolding join_is_signed
  Fits-joined r c u =
      elim (Bool-cases (admits env s r && (r.community_id == c && r.user_id == u))) [
        | inr f ↦ rw (member_at-joined env s c u r, f) (authentic c u)
        | inl t ↦
            rw (member_at-joined env s c u r, t)
              (
                ground (arith, t, bytes_eq_iff r.user_id u),
                ground (arith, t, bytes_eq_iff r.community_id c),
                ground (
                  arith,
                  t,
                  bytes_eq_iff r.user_id u,
                  bytes_eq_iff r.user_id (env.user_id_of r.public_key),
                ),
              )
      ]

  Fits-left : (p : MemberLeftPayload) → IsAuthentic env (handle_member_left env s p)
  Fits-left p c u =
      elim (Bool-cases (leave_is_valid env s p && (p.community_id == c && p.user_id == u))) [
        | inr f ↦ rw (member_at-left env s c u p, f) (authentic c u)
        | inl t ↦ rw (member_at-left env s c u p, t) tt
      ]

  Fits-with_role :
      (c u : Bytes) (role : _) (o : Option MembershipRecord)
      → Fits env c u o
      → Fits env c u (map_some (with_role role) o)
  Fits-with_role c u role none h = tt
  Fits-with_role c u role (some r) h = h

  Fits-role : (p : MemberRoleUpdatedPayload) → IsAuthentic env (handle_member_role_updated env s p)
  Fits-role p c u =
      elim (Bool-cases (role_is_valid env s p && (p.community_id == c && p.user_id == u))) [
        | inr f ↦ rw (member_at-role_updated env s c u p, f) (authentic c u)
        | inl t ↦
            rw (member_at-role_updated env s c u p, t)
              (Fits-with_role c u p.new_role (member_at s c u) (authentic c u))
      ]

  Fits-manifest_update :
      (new : SignedManifest) (source : Option Bytes)
      → IsAuthentic env (handle_manifest_update env s new source)
  Fits-manifest_update new source c u =
      elim (Bool-cases ((accepts env s new && new.manifest.deleted) && new.manifest.id == c)) [
        | inr f ↦ rw (member_at-manifest_update env s new source c u, f) (authentic c u)
        | inl t ↦ rw (member_at-manifest_update env s new source c u, t) tt
      ]

IsAuthentic-frame :
    (env : Env) {s t : AppState} → SameRoster s t → IsAuthentic env s → IsAuthentic env t
IsAuthentic-frame env h a c u = rw h.members (a c u)

IsAuthentic-message :
    (env : Env) (s : AppState) (e : CommunityEvent) (source : Option Bytes)
    → IsAuthentic env s
    → IsAuthentic env (handle_community_message env s e source)
unfolding handle_community_message
IsAuthentic-message env s (channel_manifest_broadcast m) source a =
    IsAuthentic-frame env (SameRoster-channel_manifest env s m) a
IsAuthentic-message env s (manifest_update m) source a = Fits-manifest_update env s a m source
IsAuthentic-message env s (member_joined r) source a = Fits-joined env s a r
IsAuthentic-message env s (member_left p) source a = Fits-left env s a p
IsAuthentic-message env s (member_role_updated p) source a = Fits-role env s a p
IsAuthentic-message env s (presence_heartbeat hb) source a =
    IsAuthentic-frame env (SameRoster-heartbeat env s hb) a
IsAuthentic-message env s unused source a = a

-- If every stored member record stands at its own user and community and has a user id derived from
-- its key, the same holds after any messages.
pub IsAuthentic-run :
    (env : Env) (s : AppState) (ms : List Message)
    → IsAuthentic env s
    → IsAuthentic env (run env s ms)
unfolding run
IsAuthentic-run env s [] a = a
IsAuthentic-run env s ((e, source) ∷ ms) a =
    IsAuthentic-run env (handle_community_message env s e source) ms
      (IsAuthentic-message env s e source a)

-- What each message keeps besides the members.
OnlyMembers-message :
    (env : Env) (s : AppState) (e : CommunityEvent) (source : Option Bytes)
    → let t = handle_community_message env s e source in
      (t.bans ≡ s.bans) × (IsPersisted s → IsPersisted t)
unfolding handle_community_message
OnlyMembers-message env s (channel_manifest_broadcast m) source =
    let o = OnlyMembers-frame (SameRoster-channel_manifest env s m) in (o.bans, o.persisted)
OnlyMembers-message env s (manifest_update m) source =
    let h = members-manifest_update env s m source in (h.1, λ p. ground (arith, h.0, h.2, p))
OnlyMembers-message env s (member_joined r) source =
    let o = OnlyMembers-joined env s r in (o.bans, o.persisted)
OnlyMembers-message env s (member_left p) source =
    let o = OnlyMembers-left env s p in (o.bans, o.persisted)
OnlyMembers-message env s (member_role_updated p) source =
    let o = OnlyMembers-role env s p in (o.bans, o.persisted)
OnlyMembers-message env s (presence_heartbeat hb) source =
    let o = OnlyMembers-frame (SameRoster-heartbeat env s hb) in (o.bans, o.persisted)
OnlyMembers-message env s unused source = (refl, λ p. p)

-- If the members table on disk is the one in memory, it is so after any messages.
pub IsPersisted-run :
    (env : Env) (s : AppState) (ms : List Message) → IsPersisted s → IsPersisted (run env s ms)
unfolding run
IsPersisted-run env s [] p = p
IsPersisted-run env s ((e, source) ∷ ms) p =
    IsPersisted-run env (handle_community_message env s e source) ms
      ((OnlyMembers-message env s e source).1 p)

-- A banned user who is absent.
banned_stays-frame :
    {s t : AppState} (c u : Bytes)
    → SameRoster s t
    → member_at s c u ≡ none
    → member_at t c u ≡ none
banned_stays-frame c u h p = rw h.members p

banned_stays :
    (env : Env) (s : AppState) (e : CommunityEvent) (source : Option Bytes) (c u : Bytes)
    → is_banned s c u ≡ true
    → member_at s c u ≡ none
    → member_at (handle_community_message env s e source) c u ≡ none
unfolding handle_community_message
banned_stays env s (channel_manifest_broadcast m) source c u b p =
    banned_stays-frame c u (SameRoster-channel_manifest env s m) p
banned_stays env s (manifest_update m) source c u b p =
    ground (arith, member_at-manifest_update env s m source c u, p)
banned_stays env s (member_joined r) source c u b p = ground (
  arith,
  member_at-joined env s c u r,
  p,
  b,
  bytes_eq_iff r.community_id c,
  bytes_eq_iff r.user_id u,
)
banned_stays env s (member_left m) source c u b p = ground (arith, member_at-left env s c u m, p)
banned_stays env s (member_role_updated m) source c u b p =
    ground (arith, member_at-role_updated env s c u m, p)
banned_stays env s (presence_heartbeat hb) source c u b p =
    banned_stays-frame c u (SameRoster-heartbeat env s hb) p
banned_stays env s unused source c u b p = p

-- A user who is banned from a community and is not a member of it is still no member, and still
-- banned, after any messages.
pub banned_stays_out :
    (env : Env) (s : AppState) (ms : List Message) (c u : Bytes)
    → is_banned s c u ≡ true
    → member_at s c u ≡ none
    → (member_at (run env s ms) c u ≡ none) × (is_banned (run env s ms) c u ≡ true)
unfolding run
banned_stays_out env s [] c u b p = (p, b)
banned_stays_out env s ((e, source) ∷ ms) c u b p =
    banned_stays_out env (handle_community_message env s e source) ms c u
      (rw (OnlyMembers-message env s e source).0 b) (banned_stays env s e source c u b p)
