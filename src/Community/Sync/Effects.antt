-- ===== src/Community/Sync/Effects.antt =====
-- What a received manifest leaves of the communities and the bans.
use bit_cord.Prelude.{
  ◌≡◌, refl, sym, ap, subst, ◌∙◌, Bool, true, false, ◌&&◌, Bytes, Option, none, some, ◌==◌, nat_eq,
  list_eq, if◌then◌else◌, if_cases, not_cases, elim_cases,
}
use bit_cord.Prelude.Map.{Map, get, insert, remove, get-insert, get-remove}
use bit_cord.Community.Model.{Env, SignedManifest, manifest_verify}
use bit_cord.Community.AppState.{AppState, broadcast, remove_community_local, community_deleted}
use bit_cord.Community.Frame.{SameRoster-trans}
use bit_cord.Community.Manifest.Effects.{SameRoster-remove_community}
use bit_cord.Community.History.Frames.{OnlyMembers-trans, OnlyMembers-frame}
use bit_cord.Community.Sync.Keys.{lacks_key}
use bit_cord.Community.Sync.Tables.{Received, ids_of, unqueue_sync}
use bit_cord.Community.Sync.Replay.{drain, retry_rotations}
use bit_cord.Community.Sync.Follow.{Own}
use bit_cord.Community.Sync.Handler.{take_manifest, follow_manifest, handle_manifest_received}
use bit_cord.Community.Sync.Frames.{SameRoster-drain, SameRoster-retry}
use bit_cord.Community.Sync.Rosters.{SameRoster-take, OnlyMembers-follow, SameRoster-unqueue}

-- The manifests after a received one that is valid and marked as deleted, or not.
abbrev pub manifests_after :
    Map Bytes SignedManifest → SignedManifest → Bool → Bool → Map Bytes SignedManifest
manifests_after held m false deleted = held
manifests_after held m true true = remove held m.manifest.id
manifests_after held m true false = insert held m.manifest.id m

get_manifests :
    (held : Map Bytes SignedManifest) (m : SignedManifest) (valid deleted : Bool) (c : Bytes)
    → get (manifests_after held m valid deleted) c
      ≡ (if valid && m.manifest.id == c then (if deleted then none else some m) else get held c)
get_manifests held m false deleted c = refl
get_manifests held m true true c = get-remove held m.manifest.id c
get_manifests held m true false c = get-insert held m.manifest.id c m

-- The communities and bans that the handler leaves, if it returns.
abbrev After : AppState → Map Bytes SignedManifest → Option AppState → Type 0
After s held none = Unit
After s held (some t) = (t.bans ≡ s.bans) × (t.communities ≡ held)

module _ (env : Env) (own : Own) (s : AppState) (r : Received) where
  After-deletion : After s (remove s.communities r.manifest.manifest.id) (
      some (
        broadcast
          (remove_community_local
            (unqueue_sync s r.manifest.manifest.id r.manifest.manifest.version)
            r.manifest.manifest.id)
          (community_deleted r.manifest.manifest.id r.manifest.manifest.version)))
  After-deletion =
      let id = r.manifest.manifest.id in
      let s1 = unqueue_sync s id r.manifest.manifest.version in
      let first = SameRoster-unqueue s id r.manifest.manifest.version in
      let gone = SameRoster-remove_community s1 id in
      (gone.bans ∙ first.bans, gone.communities ∙ ap (λ m. remove m id) first.communities)

  After-take :
      (s3 : AppState) (refetch : Bool)
      → drain env
          (take_manifest env
            (unqueue_sync s r.manifest.manifest.id r.manifest.manifest.version)
            r).0
          (take_manifest env
            (unqueue_sync s r.manifest.manifest.id r.manifest.manifest.version)
            r).1
        ≡ some s3
      → After s (insert s.communities r.manifest.manifest.id r.manifest) (
          some (
            follow_manifest env own
              (retry_rotations s3 r
                (take_manifest env
                  (unqueue_sync s r.manifest.manifest.id r.manifest.manifest.version)
                  r).1)
              r
              refetch))
  After-take s3 refetch h =
      let id = r.manifest.manifest.id in
      let s1 = unqueue_sync s id r.manifest.manifest.version in
      let first = SameRoster-unqueue s id r.manifest.manifest.version in
      let taken = take_manifest env s1 r in
      let drained = SameRoster-drain env taken.0 taken.1 s3 h in
      let rest =
        OnlyMembers-trans
          (OnlyMembers-frame (
            SameRoster-trans (SameRoster-take env s1 r)
              (SameRoster-trans drained (SameRoster-retry s3 r taken.1))))
          (OnlyMembers-follow env own (retry_rotations s3 r taken.1) r refetch) in
      (
        rest.bans ∙ first.bans,
        rest.communities ∙ ap (λ m. insert m id r.manifest) first.communities,
      )

  held_is :
      {valid deleted : Bool}
      → manifest_verify env r.manifest ≡ valid
      → r.manifest.manifest.deleted ≡ deleted
      → manifests_after s.communities r.manifest valid deleted
        ≡ manifests_after s.communities r.manifest
            (manifest_verify env r.manifest)
            r.manifest.manifest.deleted
  held_is {deleted = deleted} v d =
      ap (λ x. manifests_after s.communities r.manifest x deleted) (sym v)
      ∙ ap (λ x. manifests_after s.communities r.manifest (manifest_verify env r.manifest) x)
          (sym d)

  communities-After :
      After s
        (manifests_after s.communities r.manifest
          (manifest_verify env r.manifest)
          r.manifest.manifest.deleted)
        (handle_manifest_received env own s r)
  unfolding handle_manifest_received
  communities-After =
      let m = r.manifest in
      let P =
        After s (manifests_after s.communities m (manifest_verify env m) m.manifest.deleted) in
      not_cases P (manifest_verify env m) _ _
        (λ f. (refl, ap (λ v. manifests_after s.communities m v m.manifest.deleted) (sym f)))
        (λ t.
          if_cases P m.manifest.deleted _ _
            (λ d. (After-deletion.0, After-deletion.1 ∙ held_is t d))
            (λ live.
              elim_cases P
                (drain env (take_manifest env (unqueue_sync s m.manifest.id m.manifest.version) r).0
                  (take_manifest env (unqueue_sync s m.manifest.id m.manifest.version) r).1)
                _ _ (λ n. tt)
                (λ s3 h.
                  let kept =
                    After-take s3
                      (lacks_key
                        (take_manifest env (unqueue_sync s m.manifest.id m.manifest.version) r).0
                        (ids_of r.channels))
                      h in
                  (kept.0, kept.1 ∙ held_is t live))))

  -- Where the handler returns, a manifest whose signature does not verify has changed no community; one
  -- that verifies has replaced the manifest of its community, whatever the key and the version of the
  -- one before, or removed it if it is marked as deleted, and no other community's; the bans are the same.
  pub communities-manifest_received :
      (s' : AppState) (c : Bytes)
      → handle_manifest_received env own s r ≡ some s'
      → (s'.bans ≡ s.bans)
        × (get s'.communities c ≡ (
            if manifest_verify env r.manifest && r.manifest.manifest.id == c
            then (if r.manifest.manifest.deleted then none else some r.manifest)
            else get s.communities c))
  communities-manifest_received s' c h =
      let m = r.manifest in
      let held = manifests_after s.communities m (manifest_verify env m) m.manifest.deleted in
      let (bans, communities) = subst (After s held) h communities-After in
      (
        bans,
        ap (λ x. get x c) communities
            ∙ get_manifests s.communities m (manifest_verify env m) m.manifest.deleted c,
      )
