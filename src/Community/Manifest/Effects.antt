-- ===== src/Community/Manifest/Effects.antt =====
-- What the manifest events change in the rosters: a manifest update is refused, or replaces the
-- manifest, or removes the community with its members.
use bit_cord.Prelude.{
  ◌≡◌, refl, Bool, false, ◌&&◌, Bytes, Option, none, some, arith, list_eq, nat_eq, inl, inr,
  Option-cases, ◌==◌, ltb, if◌then◌else◌,
}
use bit_cord.Prelude.Map.{get, insert, remove, get-insert, get-remove}
use bit_cord.Community.Model.{
  Env, CommunityManifest, SignedManifest, ChannelManifest, manifest_verify,
}
use bit_cord.Community.AppState.{
  AppState, set_communities, set_members, remove_community_local, send, public_key_of,
  channel_ids_of, remove_all, clean_node_store, unsubscribe, community_topic, set_channels,
  set_channel_keys, set_passwords,
}
use bit_cord.Community.Frame.{
  SameRoster, SameRoster-refl, SameRoster-trans, SameRoster-subscribe_channels,
  SameRoster-drop_channels, SameRoster-store_manifest, SameRoster-dial_new_seed,
  SameRoster-unwrap_own, SameRoster-store_channel, SameRoster-unsubscribe_channels,
}
use bit_cord.Community.Manifest.{
  subscribe_channels, store_manifest, drop_channels, without, apply_manifest,
  handle_manifest_update, ask,
}
use bit_cord.Community.Joining.{handle_channel_manifest, queue_sync}

same :
    {s t : AppState}
    → t.members ≡ s.members
    → t.bans ≡ s.bans
    → t.communities ≡ s.communities
    → t.disk.members ≡ s.disk.members
    → SameRoster s t
same a b c d = record { members = a; bans = b; communities = c; disk_members = d }

SameRoster-queue_sync : (s : AppState) (id : Bytes) → SameRoster s (queue_sync s id)
SameRoster-queue_sync s id = ground arith

pub SameRoster-channel_manifest :
    (env : Env) (s : AppState) (m : ChannelManifest)
    → SameRoster s (handle_channel_manifest env s m)
unfolding handle_channel_manifest
SameRoster-channel_manifest env s m = elim (Option-cases (public_key_of s m.community_id)) [
  | inl p ↦ rw (p, handle_channel_manifest) (SameRoster-refl s)
  | inr (pk, p) ↦
      rw (p, handle_channel_manifest)
        (SameRoster-trans (same refl refl refl refl) (
          SameRoster-trans (SameRoster-unwrap_own env _ pk m)
            (SameRoster-trans (SameRoster-store_channel _ pk m) (same refl refl refl refl))))
]

SameRoster-ask :
    (s : AppState) (source : Option Bytes) (m : CommunityManifest) → SameRoster s (ask s source m)
SameRoster-ask s none m = SameRoster-queue_sync s m.id
SameRoster-ask s (some src) m = same refl refl refl refl

-- Apart from the write of the manifest, an accepted update leaves the rosters alone.
SameRoster-apply_manifest :
    (env : Env) (s : AppState) (current new : SignedManifest) (source : Option Bytes)
    → SameRoster
        (set_communities s (insert s.communities new.manifest.id new))
        (apply_manifest env s current new source)
unfolding apply_manifest
SameRoster-apply_manifest env s current new source =
    let m = new.manifest in
    let old = current.manifest in
    let s1 = set_communities s (insert s.communities m.id new) in
    let s2 = store_manifest s1 new in
    let s3 = subscribe_channels s2 (without old.channel_ids m.channel_ids) in
    let s4 = drop_channels s3 m.id (without m.channel_ids old.channel_ids) in
    let before : SameRoster s1 s4 = SameRoster-trans (SameRoster-store_manifest s1 new) (
      SameRoster-trans (SameRoster-subscribe_channels s2 (without old.channel_ids m.channel_ids))
        (SameRoster-drop_channels s3 m.id (without m.channel_ids old.channel_ids))) in
    SameRoster-trans before (
      SameRoster-trans (SameRoster-ask s4 source m) (
        SameRoster-trans (SameRoster-dial_new_seed env (ask s4 source m) m old.seed_nodes)
          (same refl refl refl refl)))

-- The state without the community, its members and all else that stays the same of the rosters.
abbrev pub without_community : AppState → Bytes → AppState
without_community s id =
    set_members (set_communities s (remove s.communities id)) (remove s.members id)

-- The state in which `remove_community_local` goes on to unsubscribe.
abbrev cleaned : Option Bytes → AppState → Bytes → AppState
cleaned pk s id =
    let ids = channel_ids_of s id in
    let s3 = set_channels (without_community s id) (remove_all s.channels ids) in
    let s4 = set_channel_keys s3 (remove_all s.channel_keys ids) in
    send (clean_node_store pk (set_passwords s4 (remove s.hosting_passwords id)))
      (unsubscribe (community_topic id))

SameRoster-clean :
    (pk : Option Bytes) (s : AppState) (id : Bytes)
    → SameRoster (without_community s id) (cleaned pk s id)
SameRoster-clean none s id = same refl refl refl refl
SameRoster-clean (some pk) s id = same refl refl refl refl

pub SameRoster-remove_community :
    (s : AppState) (id : Bytes) → SameRoster (without_community s id) (remove_community_local s id)
unfolding remove_community_local
SameRoster-remove_community s id =
    SameRoster-trans (SameRoster-clean (public_key_of s id) s id)
      (SameRoster-unsubscribe_channels (cleaned (public_key_of s id) s id) (channel_ids_of s id))

-- The update is accepted: its signature verifies, the node is in the community, and it is newer.
abbrev is_newer : Option SignedManifest → SignedManifest → Bool
is_newer none new = false
is_newer (some current) new = ltb current.manifest.version new.manifest.version

abbrev pub accepts : Env → AppState → SignedManifest → Bool
accepts env s new = manifest_verify env new && is_newer (get s.communities new.manifest.id) new

-- The manifest of each community after an update: an update that is not accepted changes none; one
-- that is accepted replaces the manifest of its community, or removes the community if it is marked
-- as deleted, and changes no other community's.
pub communities-manifest_update :
    (env : Env) (s : AppState) (new : SignedManifest) (source : Option Bytes) (c : Bytes)
    → get (handle_manifest_update env s new source).communities c ≡ (
        if accepts env s new && new.manifest.id == c
        then (if new.manifest.deleted then none else some new)
        else get s.communities c)
unfolding handle_manifest_update
communities-manifest_update env s new source c =
    elim (Option-cases (get s.communities new.manifest.id)) [
      | inl p ↦ ground (arith, p)
      | inr (current, p) ↦ ground (
        arith,
        p,
        (SameRoster-apply_manifest env s current new source).communities,
        (SameRoster-remove_community s new.manifest.id).communities,
        get-insert s.communities new.manifest.id c new,
        get-remove s.communities new.manifest.id c,
      )
    ]

-- The members after an update: a deletion that is accepted removes its community's, and no other
-- update changes any; in each case the members on disk are those in memory, if they were before.
pub members-manifest_update :
    (env : Env) (s : AppState) (new : SignedManifest) (source : Option Bytes)
    → ((handle_manifest_update env s new source).members ≡ (
        if accepts env s new && new.manifest.deleted
        then remove s.members new.manifest.id
        else s.members))
      × ((handle_manifest_update env s new source).bans ≡ s.bans)
      × ((handle_manifest_update env s new source).disk.members ≡ (
          if accepts env s new && new.manifest.deleted
          then remove s.members new.manifest.id
          else s.disk.members))
unfolding handle_manifest_update
members-manifest_update env s new source = elim (Option-cases (get s.communities new.manifest.id)) [
  | inl p ↦ ground (arith, p)
  | inr (current, p) ↦
      let kept = SameRoster-apply_manifest env s current new source in
      let gone = SameRoster-remove_community s new.manifest.id in
      (
        ground (arith, p, kept.members, gone.members),
        ground (arith, p, kept.bans, gone.bans),
        ground (arith, p, kept.disk_members, gone.disk_members),
      )
]
