-- ===== src/Community/Sync/Handler.antt =====
-- crates/bitcord-core/src/api/event_processor/manifest_handler.rs: `handle_manifest_received`, the answer
-- of a peer to `FetchManifest`. `none` is a handler that never returns.
use bit_cord.Prelude.{Bool, not, Bytes, List, Option, none, some, if◌then◌else◌, nat_eq, list_eq}
use bit_cord.Prelude.Map.{insert}
use bit_cord.Community.Model.{Env, manifest_verify}
use bit_cord.Community.AppState.{
  AppState, community_deleted, community_manifest_updated, broadcast, set_communities,
  remove_community_local,
}
use bit_cord.Community.Sync.Keys.{update_keys, lacks_key}
use bit_cord.Community.Sync.Tables.{
  Received, ids_of, unqueue_sync, register_peer, store_channels, store_meta, upsert_members,
}
use bit_cord.Community.Sync.Replay.{drain, retry_rotations}
use bit_cord.Community.Sync.Follow.{
  Own, wrap_as_creator, subscribe_all, announce_own, fetch_histories,
}

-- Up to the channel keys, with the channels whose key has been replaced.
unfoldable pub take_manifest : Env → AppState → Received → AppState × List Bytes
unfolding register_peer store_channels update_keys
take_manifest env s r =
    let m = r.manifest in
    let s1 = set_communities s (insert s.communities m.manifest.id m) in
    let s2 = store_channels (register_peer s1 r.from_peer m) m r.channels in
    update_keys env s2 m.manifest.public_key r.channels r.channel_keys

-- After the replay.
unfoldable pub follow_manifest : Env → Own → AppState → Received → Bool → AppState
unfolding store_meta upsert_members wrap_as_creator announce_own fetch_histories
follow_manifest env own s r needs_key_refetch =
    let m = r.manifest.manifest in
    let s1 = upsert_members (store_meta s r) m.id r.peer_members in
    let s2 = subscribe_all (wrap_as_creator env s1 r) r in
    let s3 =
      broadcast (announce_own env own s2 r.manifest) (community_manifest_updated m.id m.version) in
    if needs_key_refetch then s3 else fetch_histories env s3 r (ids_of r.channels)

unfoldable pub handle_manifest_received : Env → Own → AppState → Received → Option AppState
unfolding manifest_verify remove_community_local take_manifest drain retry_rotations follow_manifest
handle_manifest_received env own s r =
    let m = r.manifest.manifest in
    let s1 = unqueue_sync s m.id m.version in
    if not (manifest_verify env r.manifest)
    then some s
    else if m.deleted
    then some (broadcast (remove_community_local s1 m.id) (community_deleted m.id m.version))
    else let (s2, rotated) = take_manifest env s1 r in
      elim (drain env s2 rotated) [
        | none ↦ none
        | some s3 ↦ some (
            follow_manifest env own (retry_rotations s3 r rotated) r
              (lacks_key s2 (ids_of r.channels)))
      ]
