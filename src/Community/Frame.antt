-- ===== src/Community/Frame.antt =====
-- What the helpers of the handlers leave alone: the rosters (the members of each community, its bans
-- and the manifests), in memory and on disk.
use bit_cord.Prelude.{
  ◌≡◌, refl, ◌∙◌, Bytes, List, [], ◌∷◌, arith, list_eq, nat_eq, inl, inr, Option-cases, Bool-cases,
  ◌==◌,
}
use bit_cord.Prelude.Map.{Map, get}
use bit_cord.Community.Model.{
  Env, MembershipRecord, MemberLeftPayload, CommunityManifest, SignedManifest, ChannelManifest,
  PresenceHeartbeatPayload,
}
use bit_cord.Community.AppState.{AppState, unsubscribe_channels}
use bit_cord.Community.Member.{
  sync_member, unsync_member, wrap_channel, wrap_channels, wrap_if_creator,
}
use bit_cord.Community.Manifest.{
  subscribe_channels, push_deleted, store_manifest, drop_channels, dial_new_seed,
  handle_presence_heartbeat,
}
use bit_cord.Community.Joining.{install_key, catch_up, unwrap_own, store_channel}

pub record SameRoster (s t : AppState) : Type 0 where
  pub members : t.members ≡ s.members
  pub bans : t.bans ≡ s.bans
  pub communities : t.communities ≡ s.communities
  pub disk_members : t.disk.members ≡ s.disk.members

pub SameRoster-refl : (s : AppState) → SameRoster s s
SameRoster-refl s = record { members = refl; bans = refl; communities = refl; disk_members = refl }

pub SameRoster-trans : {s t u : AppState} → SameRoster s t → SameRoster t u → SameRoster s u
SameRoster-trans h k = record {
  members = k.members ∙ h.members;
  bans = k.bans ∙ h.bans;
  communities = k.communities ∙ h.communities;
  disk_members = k.disk_members ∙ h.disk_members;
}

pub SameRoster-sync_member : (s : AppState) (r : MembershipRecord) → SameRoster s (sync_member s r)
unfolding sync_member
SameRoster-sync_member s r = ground arith

pub SameRoster-unsync_member :
    (s : AppState) (p : MemberLeftPayload) → SameRoster s (unsync_member s p)
unfolding unsync_member
SameRoster-unsync_member s p = ground arith

SameRoster-wrap_channel :
    (env : Env) (keys : Map Bytes Bytes) (r : MembershipRecord) (s : AppState) (c : Bytes)
    → SameRoster s (wrap_channel env keys r s c)
unfolding wrap_channel
SameRoster-wrap_channel env keys r s c = ground arith

SameRoster-wrap_channels :
    (env : Env) (keys : Map Bytes Bytes) (r : MembershipRecord) (s : AppState) (cs : List Bytes)
    → SameRoster s (wrap_channels env keys r s cs)
unfolding wrap_channels
SameRoster-wrap_channels env keys r s [] = SameRoster-refl s
SameRoster-wrap_channels env keys r s (c ∷ cs) =
    SameRoster-trans (SameRoster-wrap_channel env keys r s c)
      (SameRoster-wrap_channels env keys r (wrap_channel env keys r s c) cs)

pub SameRoster-wrap_if_creator :
    (env : Env) (s : AppState) (r : MembershipRecord) → SameRoster s (wrap_if_creator env s r)
unfolding wrap_if_creator
SameRoster-wrap_if_creator env s r = elim (Option-cases (get s.communities r.community_id)) [
  | inl p ↦ rw (p, wrap_if_creator) (SameRoster-refl s)
  | inr (signed, p) ↦ elim (Bool-cases (signed.manifest.public_key == s.own_pk)) [
    | inl own ↦
        rw (p, wrap_if_creator, own)
          (SameRoster-wrap_channels env s.channel_keys r s signed.manifest.channel_ids)
    | inr other ↦ rw (p, wrap_if_creator, other) (SameRoster-refl s)
  ]
]

pub SameRoster-unsubscribe_channels :
    (s : AppState) (cs : List Bytes) → SameRoster s (unsubscribe_channels s cs)
SameRoster-unsubscribe_channels s [] = SameRoster-refl s
SameRoster-unsubscribe_channels s (c ∷ cs) =
    SameRoster-trans
      (record { members = refl; bans = refl; communities = refl; disk_members = refl })
      (SameRoster-unsubscribe_channels _ cs)

pub SameRoster-subscribe_channels :
    (s : AppState) (cs : List Bytes) → SameRoster s (subscribe_channels s cs)
SameRoster-subscribe_channels s [] = SameRoster-refl s
SameRoster-subscribe_channels s (c ∷ cs) =
    SameRoster-trans
      (record { members = refl; bans = refl; communities = refl; disk_members = refl })
      (SameRoster-subscribe_channels _ cs)

SameRoster-push_deleted :
    (id : Bytes) (s : AppState) (cs : List Bytes) → SameRoster s (push_deleted id s cs)
SameRoster-push_deleted id s [] = SameRoster-refl s
SameRoster-push_deleted id s (c ∷ cs) =
    SameRoster-trans
      (record { members = refl; bans = refl; communities = refl; disk_members = refl })
      (SameRoster-push_deleted id _ cs)

pub SameRoster-drop_channels :
    (s : AppState) (id : Bytes) (cs : List Bytes) → SameRoster s (drop_channels s id cs)
unfolding drop_channels
SameRoster-drop_channels s id [] = SameRoster-refl s
SameRoster-drop_channels s id (c ∷ cs) =
    SameRoster-trans (SameRoster-unsubscribe_channels s (c ∷ cs)) (
      SameRoster-trans
        (record { members = refl; bans = refl; communities = refl; disk_members = refl })
        (SameRoster-push_deleted id _ (c ∷ cs)))

pub SameRoster-store_manifest :
    (s : AppState) (m : SignedManifest) → SameRoster s (store_manifest s m)
unfolding store_manifest
SameRoster-store_manifest s m = ground arith

pub SameRoster-dial_new_seed :
    (env : Env) (s : AppState) (m : CommunityManifest) (old : List Bytes)
    → SameRoster s (dial_new_seed env s m old)
unfolding dial_new_seed
SameRoster-dial_new_seed env s m old = ground arith

SameRoster-install_key : (s : AppState) (ch key : Bytes) → SameRoster s (install_key s ch key)
unfolding install_key
SameRoster-install_key s ch key = ground arith

SameRoster-catch_up :
    (env : Env) (s : AppState) (pk id ch : Bytes) → SameRoster s (catch_up env s pk id ch)
unfolding catch_up
SameRoster-catch_up env s pk id ch = ground arith

pub SameRoster-unwrap_own :
    (env : Env) (s : AppState) (pk : Bytes) (m : ChannelManifest)
    → SameRoster s (unwrap_own env s pk m)
unfolding unwrap_own
SameRoster-unwrap_own env s pk m = elim (Option-cases (get m.encrypted_channel_key s.own_user_id)) [
  | inl p ↦ rw (p, unwrap_own) (SameRoster-refl s)
  | inr (wrapped, p) ↦ elim (Option-cases (env.unwrap_key wrapped)) [
    | inl q ↦ rw (p, unwrap_own, q) (SameRoster-refl s)
    | inr (key, q) ↦
        rw (p, unwrap_own, q)
          (SameRoster-trans (SameRoster-install_key s m.id key)
            (SameRoster-catch_up env (install_key s m.id key) pk m.community_id m.id))
  ]
]

pub SameRoster-store_channel :
    (s : AppState) (pk : Bytes) (m : ChannelManifest) → SameRoster s (store_channel s pk m)
unfolding store_channel
SameRoster-store_channel s pk m = ground arith

pub SameRoster-heartbeat :
    (env : Env) (s : AppState) (hb : PresenceHeartbeatPayload)
    → SameRoster s (handle_presence_heartbeat env s hb)
unfolding handle_presence_heartbeat
SameRoster-heartbeat env s hb = ground arith
