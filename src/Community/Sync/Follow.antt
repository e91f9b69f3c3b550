-- ===== src/Community/Sync/Follow.antt =====
-- crates/bitcord-core/src/api/event_processor/manifest_handler.rs: what follows a received manifest: wrapped
-- keys for other members, subscriptions, the node's own announcement and the histories.
use bit_cord.Prelude.{
  ℕ, Bool, true, false, not, Bytes, List, [], ◌∷◌, Option, none, some, find, or_else, map_some,
  ◌==◌, if◌then◌else◌, nat_eq, list_eq,
}
use bit_cord.Prelude.Map.{Map, get, insert, values, contains_key}
use bit_cord.Community.Model.{
  Env, Role, admin, MembershipRecord, SignedManifest, ChannelManifest, join_message,
}
use bit_cord.Community.AppState.{
  AppState, PeerSummary, community_topic, subscribe, fetch_channel_history,
  publish_channel_manifest, publish_member_joined, sync_progress, broadcast, send, set_channels,
}
use bit_cord.Community.Member.{members_of, handle_member_joined}
use bit_cord.Community.Manifest.{subscribe_channels}
use bit_cord.Community.Joining.{contains, since_seq}
use bit_cord.Community.Sync.Tables.{Received, ids_of}

-- What the node says of itself when it announces its membership: its name, its X25519 key, the time
-- and the signature with its own key.
pub record Own : Type 0 where
  pub display_name : Bytes
  pub x25519_pk : Bytes
  pub now : ℕ
  pub sign : Bytes → Bytes

-- The wrapped keys of the members that a channel has none for, and whether there are any.
abbrev pub wrap_missing :
    Env → Bytes → List MembershipRecord → ChannelManifest × Bool → ChannelManifest × Bool
wrap_missing env key [] acc = acc
wrap_missing env key (m ∷ ms) (ch, updated) =
    let skip = wrap_missing env key ms (ch, updated) in
    if contains_key ch.encrypted_channel_key m.user_id
    then skip
    else elim (env.wrap_key key m.x25519_public_key) [
      | none ↦ skip
      | some wrapped ↦ wrap_missing env key ms (
        record ch { encrypted_channel_key = insert ch.encrypted_channel_key m.user_id wrapped },
        true,
      )
    ]

-- The table is saved once at the end, which leaves the same table.
unfoldable pub wrap_for_members :
    Env → Bytes → Map Bytes Bytes → List MembershipRecord → AppState → List Bytes → AppState
wrap_for_members env id keys ms s [] = s
wrap_for_members env id keys ms s (c ∷ cs) = elim (get keys c) [
  | none ↦ wrap_for_members env id keys ms s cs
  | some key ↦ elim (get s.channels c) [
    | none ↦ wrap_for_members env id keys ms s cs
    | some ch ↦
        let (ch', updated) = wrap_missing env key ms (ch, false) in
        if updated
        then wrap_for_members env id keys ms
            (send (set_channels s (insert s.channels c ch'))
              (publish_channel_manifest (community_topic id) ch'))
            cs
        else wrap_for_members env id keys ms s cs
  ]
]

unfoldable pub wrap_as_creator : Env → AppState → Received → AppState
unfolding wrap_for_members
wrap_as_creator env s r =
    let id = r.manifest.manifest.id in
    if r.manifest.manifest.public_key == s.own_pk
    then wrap_for_members env id s.channel_keys (values (members_of s id)) s (ids_of r.channels)
    else s

abbrev pub subscribe_all : AppState → Received → AppState
subscribe_all s r =
    send (subscribe_channels s (ids_of r.channels))
      (subscribe (community_topic r.manifest.manifest.id))

-- The node's own record: the admin's role if the manifest lists the node, else the roles that it has.
abbrev pub own_record : Env → Own → AppState → SignedManifest → List Role → MembershipRecord
own_record env own s m old_roles =
    let roles : List Role =
      if contains m.manifest.admin_ids s.own_user_id then admin ∷ [] else old_roles in
    let unsigned : MembershipRecord = record {
      user_id = s.own_user_id;
      community_id = m.manifest.id;
      display_name = own.display_name;
      avatar_cid = none;
      joined_at = own.now;
      roles = roles;
      public_key = s.own_pk;
      x25519_public_key = own.x25519_pk;
      signature = [];
    } in
    record unsigned { signature = own.sign (join_message env unsigned) }

-- Only a node that is a member already announces itself.
unfoldable pub announce_own : Env → Own → AppState → SignedManifest → AppState
unfolding handle_member_joined
announce_own env own s m = elim (get (members_of s m.manifest.id) s.own_user_id) [
  | none ↦ s
  | some old ↦
      let rec = own_record env own s m old.roles in
      send (handle_member_joined env s rec)
        (publish_member_joined (community_topic m.manifest.id) rec)
]

abbrev first_of : List PeerSummary → Option PeerSummary
first_of [] = none
first_of (p ∷ ps) = some p

abbrev or_option : {A : Type 0} → Option A → Option A → Option A
or_option none o = o
or_option (some a) o = some a

-- The admin, else a peer that has not sent the manifest, else any peer, else the sender.
abbrev pub fetch_peer : AppState → Bytes → Bytes → Bytes
fetch_peer s id sender =
    let peers : List PeerSummary = or_else (get s.connected_peers id) [] in
    or_else
      (map_some (λ (p : PeerSummary). p.peer_id)
        (or_option (find (λ (p : PeerSummary). p.is_admin) peers) (
          or_option (find (λ (p : PeerSummary). not (p.peer_id == sender)) peers)
            (first_of peers))))
      sender

-- The histories of the channels that have a key.
unfoldable pub fetch_histories : Env → AppState → Received → List Bytes → AppState
fetch_histories env s r [] = s
fetch_histories env s r (c ∷ cs) =
    let id = r.manifest.manifest.id in
    let pk = r.manifest.manifest.public_key in
    let fetched =
      send (broadcast s (sync_progress c 0))
        (fetch_channel_history (fetch_peer s id r.from_peer) id pk c (since_seq env s pk c)) in
    if contains_key s.channel_keys c
    then fetch_histories env fetched r cs
    else fetch_histories env s r cs
