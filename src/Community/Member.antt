-- ===== src/Community/Member.antt =====
-- crates/bitcord-core/src/api/event_processor/community_handler.rs: `handle_member_joined`,
-- `handle_member_left` and `handle_member_role_updated`.
pub mod Effects
pub mod Authority
use bit_cord.Prelude.{
  ℕ, Bool, true, false, not, ◌&&◌, ◌||◌, Bytes, List, [], ◌∷◌, ◌++◌, Option, none, some, any,
  or_else, is_some, ◌-◌, ◌^◌, ◌==◌, if◌then◌else◌, nat_eq, list_eq, map_some,
}
use bit_cord.Prelude.Map.{Map, get, insert, remove, values, contains_key}
use bit_cord.Community.Model.{
  Env, Role, admin, moderator, member, MembershipRecord, MemberLeftPayload,
  MemberRoleUpdatedPayload, SignedManifest, ChannelManifest, is_signature, join_message,
  leave_message, role_message,
}
use bit_cord.Community.AppState.{
  AppState, DmPeerInfo, community_topic, publish_channel_manifest, member_joined, member_left,
  member_role_updated, broadcast, send, set_members, set_dm_peers, set_channels, set_meta,
}
use bit_cord.Community.NodeStore.{NodeStore, CommunityMeta, HostingCert}

abbrev pub members_of : AppState → Bytes → Map Bytes MembershipRecord
members_of s community_id = or_else (get s.members community_id) []

abbrev pub is_banned : AppState → Bytes → Bytes → Bool
is_banned s community_id user_id = any (λ u. u == user_id) (or_else (get s.bans community_id) [])

-- The early returns of `handle_member_joined`: the key must parse, the user id must be derived from
-- it, and the signature must have 64 bytes and verify.
unfoldable pub join_is_signed : Env → MembershipRecord → Bool
join_is_signed env r =
    env.valid_key r.public_key
    && (r.user_id == env.user_id_of r.public_key
        && (is_signature r.signature && env.verify r.public_key (join_message env r) r.signature))

-- The members table and the cache of DM peers.
unfoldable pub store_member : AppState → MembershipRecord → AppState
store_member s r =
    let s' =
      set_members s
        (insert s.members r.community_id (insert (members_of s r.community_id) r.user_id r)) in
    set_dm_peers s' (
      insert s'.dm_peers r.user_id
        (record { display_name = r.display_name; x25519_public_key = r.x25519_public_key }))

abbrev pub zeros : Bytes
zeros = 0 ∷ 0 ∷ 0 ∷ 0 ∷ 0 ∷ 0 ∷ 0 ∷ 0 ∷ []

abbrev pub zero_signature : Bytes
zero_signature = zeros ++ zeros ++ zeros ++ zeros ++ zeros ++ zeros ++ zeros ++ zeros

-- The metadata that a community without any gets.
abbrev fresh_meta : AppState → SignedManifest → CommunityMeta
fresh_meta s signed = record {
  cert = record {
    community_pk = signed.manifest.public_key;
    node_pk = s.own_pk;
    expires_at = 2 ^ 64 - 1;
    signature = zero_signature;
  };
  manifest = some signed;
  channels = [];
  channel_keys = [];
  members = [];
}

-- The update of the node's database.
unfoldable pub sync_member : AppState → MembershipRecord → AppState
sync_member s r = elim s.node_store [
  | none ↦ s
  | some store ↦ elim (get s.communities r.community_id) [
    | none ↦ s
    | some signed ↦
        let pk = signed.manifest.public_key in
        let meta : CommunityMeta = or_else (get store.meta pk) (fresh_meta s signed) in
        set_meta s store pk (record meta { members = insert meta.members r.user_id r })
  ]
]

-- One round of the loop over the channels: a wrapped key for the new member, and its broadcast.
unfoldable pub wrap_channel : Env → Map Bytes Bytes → MembershipRecord → AppState → Bytes → AppState
wrap_channel env keys r s ch_id = elim (get keys ch_id) [
  | none ↦ s
  | some key ↦ elim (get s.channels ch_id) [
    | none ↦ s
    | some ch ↦
        if contains_key ch.encrypted_channel_key r.user_id
        then s
        else elim (env.wrap_key key r.x25519_public_key) [
          | none ↦ s
          | some wrapped ↦
              let ch' : ChannelManifest = record ch {
                encrypted_channel_key = insert ch.encrypted_channel_key r.user_id wrapped;
              } in
              let s' = send s (publish_channel_manifest (community_topic r.community_id) ch') in
              set_channels s' (insert s'.channels ch_id ch')
        ]
  ]
]

unfoldable pub wrap_channels :
    Env → Map Bytes Bytes → MembershipRecord → AppState → List Bytes → AppState
unfolding wrap_channel
wrap_channels env keys r s [] = s
wrap_channels env keys r s (c ∷ cs) = wrap_channels env keys r (wrap_channel env keys r s c) cs

-- Only the node that holds the community's key wraps channel keys.
unfoldable pub wrap_if_creator : Env → AppState → MembershipRecord → AppState
unfolding wrap_channels
wrap_if_creator env s r = elim (get s.communities r.community_id) [
  | none ↦ s
  | some signed ↦
      if signed.manifest.public_key == s.own_pk
      then wrap_channels env s.channel_keys r s signed.manifest.channel_ids
      else s
]

unfoldable pub handle_member_joined : Env → AppState → MembershipRecord → AppState
unfolding join_is_signed store_member sync_member wrap_if_creator
handle_member_joined env s r =
    if not (join_is_signed env r)
    then s
    else if is_banned s r.community_id r.user_id
    then s
    else broadcast (wrap_if_creator env (sync_member (store_member s r) r) r)
        (member_joined r.user_id r.community_id r.display_name)

abbrev is_admin_role : Role → Bool
is_admin_role admin = true
is_admin_role moderator = false
is_admin_role member = false

abbrev is_privileged_role : Role → Bool
is_privileged_role admin = true
is_privileged_role moderator = true
is_privileged_role member = false

abbrev pub is_admin : MembershipRecord → Bool
is_admin m = any is_admin_role m.roles

abbrev pub is_privileged : MembershipRecord → Bool
is_privileged m = any is_privileged_role m.roles

-- The member who leaves, or an admin or moderator, has signed.
abbrev pub signs_leave : Env → MemberLeftPayload → MembershipRecord → Bool
signs_leave env p m =
    (m.user_id == p.user_id || is_privileged m)
    && env.verify m.public_key (leave_message env p) p.signature

unfoldable pub leave_is_valid : Env → AppState → MemberLeftPayload → Bool
leave_is_valid env s p =
    is_signature p.signature && any (signs_leave env p) (values (members_of s p.community_id))

unfoldable pub unsync_member : AppState → MemberLeftPayload → AppState
unsync_member s p = elim s.node_store [
  | none ↦ s
  | some store ↦ elim (get s.communities p.community_id) [
    | none ↦ s
    | some signed ↦ elim (get store.meta signed.manifest.public_key) [
      | none ↦ s
      | some meta ↦
          set_meta s store signed.manifest.public_key
            (record meta { members = remove meta.members p.user_id })
    ]
  ]
]

unfoldable pub handle_member_left : Env → AppState → MemberLeftPayload → AppState
unfolding leave_is_valid unsync_member
handle_member_left env s p =
    if not (leave_is_valid env s p) then s else elim (get (members_of s p.community_id) p.user_id) [
      | none ↦ s
      | some removed ↦
          let list = remove (members_of s p.community_id) p.user_id in
          let s' = set_members s (insert s.members p.community_id list) in
          broadcast (unsync_member s' p) (member_left p.user_id p.community_id removed.display_name)
    ]

abbrev pub signs_role : Env → MemberRoleUpdatedPayload → MembershipRecord → Bool
signs_role env p m = is_admin m && env.verify m.public_key (role_message env p) p.signature

unfoldable pub role_is_valid : Env → AppState → MemberRoleUpdatedPayload → Bool
role_is_valid env s p =
    is_signature p.signature && any (signs_role env p) (values (members_of s p.community_id))

-- `member.roles = vec![new_role]`
abbrev pub with_role : Role → MembershipRecord → MembershipRecord
with_role role m = record m { roles = role ∷ [] }

unfoldable pub handle_member_role_updated : Env → AppState → MemberRoleUpdatedPayload → AppState
unfolding role_is_valid
handle_member_role_updated env s p =
    if not (role_is_valid env s p) then s else elim (get (members_of s p.community_id) p.user_id) [
      | none ↦ s
      | some m ↦
          let list = insert (members_of s p.community_id) p.user_id (with_role p.new_role m) in
          broadcast (set_members s (insert s.members p.community_id list))
            (member_role_updated p.user_id p.community_id p.new_role)
    ]
