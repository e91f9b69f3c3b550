-- ===== src/Community/Sync/Tables.antt =====
-- crates/bitcord-core/src/api/event_processor/manifest_handler.rs: what a received manifest writes to the
-- tables.
use bit_cord.Prelude.{
  ℕ, Bool, not, ◌||◌, ◌-◌, ◌^◌, Bytes, List, [], ◌∷◌, ◌++◌, none, some, any, keep, or_else, ltb,
  ◌==◌, if◌then◌else◌, nat_eq, list_eq,
}
use bit_cord.Prelude.Map.{Map, get, insert, contains_key}
use bit_cord.Community.Model.{MembershipRecord, SignedManifest, ChannelManifest}
use bit_cord.Community.AppState.{
  AppState, DmPeerInfo, PeerSummary, set_members, set_channels, set_dm_peers, set_meta,
}
use bit_cord.Community.NodeStore.{collect_members}
use bit_cord.Community.Member.{members_of, zero_signature}
use bit_cord.Community.Joining.{contains}

-- What the handler receives: the peer that has answered, and the answer.
pub record Received : Type 0 where
  pub from_peer : Bytes
  pub manifest : SignedManifest
  pub channels : List ChannelManifest
  pub channel_keys : Map Bytes Bytes
  pub peer_members : List MembershipRecord

abbrev pub ids_of : List ChannelManifest → List Bytes
ids_of [] = []
ids_of (ch ∷ chs) = ch.id ∷ ids_of chs

abbrev pub unqueue_sync : AppState → Bytes → ℕ → AppState
unqueue_sync s id version =
    if ltb 0 version
    then record s { pending_manifest_syncs = keep (λ x. not (x == id)) s.pending_manifest_syncs }
    else s

-- The peer that has answered is one of the community's peers.
unfoldable pub register_peer : AppState → Bytes → SignedManifest → AppState
register_peer s peer m =
    let id = m.manifest.id in
    let peers : List PeerSummary = or_else (get s.connected_peers id) [] in
    let new : PeerSummary = record { peer_id = peer; is_admin = m.manifest.public_key == peer } in
    let peers' =
      if any (λ (p : PeerSummary). p.peer_id == peer) peers then peers else peers ++ new ∷ [] in
    record s { connected_peers = insert s.connected_peers id peers' }

abbrev pub insert_channels :
    Map Bytes ChannelManifest → List ChannelManifest → Map Bytes ChannelManifest
insert_channels m [] = m
insert_channels m (ch ∷ chs) = insert_channels (insert m ch.id ch) chs

-- A channel of another community, or one that the manifest lists.
abbrev pub stays : SignedManifest → Bytes × ChannelManifest → Bool
stays m entry =
    not (entry.1.community_id == m.manifest.id) || contains m.manifest.channel_ids entry.0

unfoldable pub store_channels : AppState → SignedManifest → List ChannelManifest → AppState
store_channels s m chs = set_channels s (keep (stays m) (insert_channels s.channels chs))

abbrev pub known_keys : Map Bytes Bytes → List Bytes → Map Bytes Bytes
known_keys keys [] = []
known_keys keys (c ∷ cs) =
    let rest = known_keys keys cs in
    elim (get keys c) [ none ↦ rest | some key ↦ insert rest c key ]

-- The metadata for the node's database, with a certificate that nobody has signed.
unfoldable pub store_meta : AppState → Received → AppState
store_meta s r = elim s.node_store [
  | none ↦ s
  | some store ↦
      let pk = r.manifest.manifest.public_key in
      set_meta s store pk (record {
        cert = record {
          community_pk = pk;
          node_pk = s.own_pk;
          expires_at = 2 ^ 64 - 1;
          signature = zero_signature;
        };
        manifest = some r.manifest;
        channels = r.channels;
        channel_keys = known_keys s.channel_keys (ids_of r.channels);
        members = collect_members [] r.peer_members;
      })
]

-- `entry(user_id).or_insert_with(..)`
abbrev pub add_dm_peers : Map Bytes DmPeerInfo → List MembershipRecord → Map Bytes DmPeerInfo
add_dm_peers m [] = m
add_dm_peers m (r ∷ rs) =
    add_dm_peers
      (if contains_key m r.user_id
        then m
        else insert m r.user_id
            (record { display_name = r.display_name; x25519_public_key = r.x25519_public_key }))
      rs

unfoldable pub upsert_members : AppState → Bytes → List MembershipRecord → AppState
upsert_members s id [] = s
upsert_members s id (r ∷ rs) =
    let s' = set_members s (insert s.members id (collect_members (members_of s id) (r ∷ rs))) in
    set_dm_peers s' (add_dm_peers s'.dm_peers (r ∷ rs))
