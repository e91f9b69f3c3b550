-- ===== src/Community/Member/Effects.antt =====
-- What the three member events change in the members of the communities, on every branch.
use bit_cord.Prelude.{
  true, ◌≡◌, Bool, not, ◌&&◌, Bytes, Option, none, some, arith, list_eq, nat_eq, inl, inr,
  Option-cases, ◌==◌, map_some, if◌then◌else◌, bytes_eq_iff,
}
use bit_cord.Prelude.Map.{Map, get, insert, remove, get-insert, get-insert_self, get-remove}
use bit_cord.Community.Model.{Env, MembershipRecord, MemberLeftPayload, MemberRoleUpdatedPayload}
use bit_cord.Community.AppState.{AppState, set_members}
use bit_cord.Community.Frame.{
  SameRoster, SameRoster-trans, SameRoster-sync_member, SameRoster-unsync_member,
  SameRoster-wrap_if_creator,
}
use bit_cord.Community.Member.{
  members_of, is_banned, join_is_signed, store_member, sync_member, wrap_if_creator,
  handle_member_joined, leave_is_valid, handle_member_left, role_is_valid, with_role,
  handle_member_role_updated,
}

abbrev pub member_at : AppState → Bytes → Bytes → Option MembershipRecord
member_at s c u = get (members_of s c) u

-- The record is let in.
abbrev pub admits : Env → AppState → MembershipRecord → Bool
admits env s r = join_is_signed env r && not (is_banned s r.community_id r.user_id)

members_of-insert :
    (s : AppState) (c c' : Bytes) (list : Map Bytes MembershipRecord)
    → members_of (set_members s (insert s.members c list)) c'
      ≡ (if c == c' then list else members_of s c')
members_of-insert s c c' list = ground (arith, get-insert s.members c c' list)

-- The rosters after an admitted join are those after `store_member`.
joined_roster :
    (env : Env) (s : AppState) (r : MembershipRecord)
    → SameRoster (store_member s r) (wrap_if_creator env (sync_member (store_member s r) r) r)
joined_roster env s r =
    SameRoster-trans (SameRoster-sync_member (store_member s r) r)
      (SameRoster-wrap_if_creator env (sync_member (store_member s r) r) r)

-- The members of the community that an admitted join leaves.
pub members_of-joined :
    (env : Env) (s : AppState) (r : MembershipRecord)
    → admits env s r ≡ true
    → members_of (handle_member_joined env s r) r.community_id
      ≡ insert (members_of s r.community_id) r.user_id r
unfolding handle_member_joined store_member
members_of-joined env s r ok = ground (
  arith,
  ok,
  (joined_roster env s r).members,
  get-insert_self s.members r.community_id (insert (members_of s r.community_id) r.user_id r),
)

module _ (env : Env) (s : AppState) (c u : Bytes) where
  -- A join puts the joiner's record, as it is, in its place if its self-signature verifies and the
  -- user is not banned, and changes no member otherwise, and none but that one.
  pub member_at-joined :
      (r : MembershipRecord)
      → member_at (handle_member_joined env s r) c u ≡ (
          if admits env s r && (r.community_id == c && r.user_id == u)
          then some r
          else member_at s c u)
  unfolding handle_member_joined store_member
  member_at-joined r = ground (
    arith,
    (joined_roster env s r).members,
    get-insert s.members r.community_id c (insert (members_of s r.community_id) r.user_id r),
    get-insert (members_of s r.community_id) r.user_id u r,
    bytes_eq_iff r.community_id c,
  )

  -- A departure removes the member that it names if it is validly signed, and changes no member
  -- otherwise, and none but that one.
  pub member_at-left :
      (p : MemberLeftPayload)
      → member_at (handle_member_left env s p) c u ≡ (
          if leave_is_valid env s p && (p.community_id == c && p.user_id == u)
          then none
          else member_at s c u)
  unfolding handle_member_left
  member_at-left p =
      let list : Map Bytes MembershipRecord = remove (members_of s p.community_id) p.user_id in
      let s' : AppState = set_members s (insert s.members p.community_id list) in
      ground (
        arith,
        (SameRoster-unsync_member s' p).members,
        get-insert s.members p.community_id c list,
        get-remove (members_of s p.community_id) p.user_id u,
        bytes_eq_iff p.community_id c,
        bytes_eq_iff p.user_id u,
      )

  -- A role update gives the member that it names that one role if it is validly signed, and changes
  -- no member otherwise, and none but that one.
  pub member_at-role_updated :
      (p : MemberRoleUpdatedPayload)
      → member_at (handle_member_role_updated env s p) c u ≡ (
          if role_is_valid env s p && (p.community_id == c && p.user_id == u)
          then map_some (with_role p.new_role) (member_at s c u)
          else member_at s c u)
  unfolding handle_member_role_updated
  member_at-role_updated p = elim (Option-cases (member_at s p.community_id p.user_id)) [
    | inl absent ↦ ground (arith, absent, bytes_eq_iff p.community_id c, bytes_eq_iff p.user_id u)
    | inr (m, found) ↦
        let list : Map Bytes MembershipRecord =
          insert (members_of s p.community_id) p.user_id (with_role p.new_role m) in
        ground (
          arith,
          found,
          get-insert s.members p.community_id c list,
          get-insert (members_of s p.community_id) p.user_id u (with_role p.new_role m),
          bytes_eq_iff p.community_id c,
          bytes_eq_iff p.user_id u,
        )
  ]
