-- ===== src/Community/History/Frames.antt =====
-- What the member events leave alone: the bans and the manifests, and that the members are on disk.
use bit_cord.Prelude.{◌≡◌, refl, ◌∙◌, sym, inl, inr, Option-cases, Bool-cases, list_eq, nat_eq}
use bit_cord.Prelude.Map.{get, insert, remove}
use bit_cord.Community.Model.{Env, MembershipRecord, MemberLeftPayload, MemberRoleUpdatedPayload}
use bit_cord.Community.AppState.{AppState, set_members}
use bit_cord.Community.Frame.{
  SameRoster, SameRoster-trans, SameRoster-sync_member, SameRoster-unsync_member,
  SameRoster-wrap_if_creator,
}
use bit_cord.Community.Member.{
  members_of, is_banned, join_is_signed, store_member, sync_member, wrap_if_creator,
  handle_member_joined, leave_is_valid, handle_member_left, role_is_valid,
  handle_member_role_updated,
}

-- All but the members stay as they are, and the new members are written to disk.
pub record OnlyMembers (s t : AppState) : Type 0 where
  pub bans : t.bans ≡ s.bans
  pub communities : t.communities ≡ s.communities
  pub persisted : s.disk.members ≡ s.members → t.disk.members ≡ t.members

pub OnlyMembers-refl : (s : AppState) → OnlyMembers s s
OnlyMembers-refl s = record { bans = refl; communities = refl; persisted = λ p. p }

pub OnlyMembers-frame : {s t : AppState} → SameRoster s t → OnlyMembers s t
OnlyMembers-frame h = record {
  bans = h.bans;
  communities = h.communities;
  persisted = λ p. h.disk_members ∙ (p ∙ sym h.members);
}

pub OnlyMembers-trans : {s t u : AppState} → OnlyMembers s t → OnlyMembers t u → OnlyMembers s u
OnlyMembers-trans h k = record {
  bans = k.bans ∙ h.bans;
  communities = k.communities ∙ h.communities;
  persisted = λ p. k.persisted (h.persisted p);
}

OnlyMembers-set : (s : AppState) (m : _) → OnlyMembers s (set_members s m)
OnlyMembers-set s m = record { bans = refl; communities = refl; persisted = λ _. refl }

module _ (env : Env) (s : AppState) where
  pub OnlyMembers-joined : (r : MembershipRecord) → OnlyMembers s (handle_member_joined env s r)
  unfolding handle_member_joined store_member
  OnlyMembers-joined r = elim (Bool-cases (join_is_signed env r)) [
    | inr f ↦ rw f (OnlyMembers-refl s)
    | inl t ↦ elim (Bool-cases (is_banned s r.community_id r.user_id)) [
      | inl b ↦ rw (t, b) (OnlyMembers-refl s)
      | inr b ↦
          rw (t, b)
            (record {
              bans = frame.bans;
              communities = frame.communities;
              persisted = λ _. frame.disk_members ∙ sym frame.members;
            })
    ]
  ]
    where
      frame :
          SameRoster (store_member s r) (wrap_if_creator env (sync_member (store_member s r) r) r)
      frame =
          SameRoster-trans (SameRoster-sync_member (store_member s r) r)
            (SameRoster-wrap_if_creator env (sync_member (store_member s r) r) r)

  pub OnlyMembers-left : (p : MemberLeftPayload) → OnlyMembers s (handle_member_left env s p)
  unfolding handle_member_left
  OnlyMembers-left p = elim (Bool-cases (leave_is_valid env s p)) [
    | inr f ↦ rw f (OnlyMembers-refl s)
    | inl t ↦ elim (Option-cases (get (members_of s p.community_id) p.user_id)) [
      | inl a ↦ rw (t, a) (OnlyMembers-refl s)
      | inr (m, a) ↦
          let s' =
            set_members s
              (insert s.members p.community_id (remove (members_of s p.community_id) p.user_id)) in
          let o =
            OnlyMembers-trans (OnlyMembers-set s s'.members)
              (OnlyMembers-frame (SameRoster-unsync_member s' p)) in
          rw (t, a) (record { bans = o.bans; communities = o.communities; persisted = o.persisted })
    ]
  ]

  pub OnlyMembers-role :
      (p : MemberRoleUpdatedPayload) → OnlyMembers s (handle_member_role_updated env s p)
  unfolding handle_member_role_updated
  OnlyMembers-role p = elim (Bool-cases (role_is_valid env s p)) [
    | inr f ↦ rw f (OnlyMembers-refl s)
    | inl t ↦ elim (Option-cases (get (members_of s p.community_id) p.user_id)) [
      | inl a ↦ rw (t, a) (OnlyMembers-refl s)
      | inr (m, a) ↦ rw (t, a) (record { bans = refl; communities = refl; persisted = λ _. refl })
    ]
  ]
