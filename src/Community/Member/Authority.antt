-- ===== src/Community/Member/Authority.antt =====
-- Who can change whom: what a change of a member's record says about the signatures, and what a
-- self-signed record can gain.
use bit_cord.Prelude.{
  ◌≡◌, ◌≢◌, ap, ◌∙◌, Bool, true, false, not, ◌&&◌, ◌||◌, Bytes, [], ◌∷◌, arith, list_eq, nat_eq,
  inl, inr, Bool-cases, ◌==◌, bytes_eq_iff, any, any-Elem, Elem,
}
use bit_cord.Prelude.Map.{Map, values, insert}
use bit_cord.Community.Model.{
  Env, MembershipRecord, MemberLeftPayload, MemberRoleUpdatedPayload, role_message, leave_message,
  join_message, is_signature,
}
use bit_cord.Community.AppState.{AppState}
use bit_cord.Community.Member.{
  members_of, is_banned, is_admin, is_privileged, join_is_signed, leave_is_valid, role_is_valid,
  handle_member_joined, handle_member_left, handle_member_role_updated, signs_role,
}
use bit_cord.Community.Member.Effects.{
  members_of-joined, member_at, admits, member_at-joined, member_at-left, member_at-role_updated,
}

-- A member of the community whose signature of the message is the payload's.
abbrev pub Signer :
    Env → Bytes → Bytes → Map Bytes MembershipRecord → (MembershipRecord → Bool) → Type 0
Signer env message signature members may =
    (m : MembershipRecord) × Elem m (values members)
    × (may m ≡ true)
    × (env.verify m.public_key message signature ≡ true)

any-Signer :
    (env : Env) (message signature : Bytes) (members : Map Bytes MembershipRecord)
    (may : MembershipRecord → Bool)
    → any (λ m. may m && env.verify m.public_key message signature) (values members) ≡ true
    → Signer env message signature members may
any-Signer env message signature members may h =
    let (m, inside, ok) = any-Elem _ (values members) h in (m, inside, ground arith, ground arith)

not-true : (b : Bool) → not b ≡ true → b ≡ false
not-true b h = ground arith

module _ (env : Env) (s : AppState) (c u : Bytes) where
  -- Where a role update changes a member's record, it names that member, and an admin of that very
  -- community, as the node knows it, has signed the update's user, community and role.
  pub role_updated_authority :
      (p : MemberRoleUpdatedPayload)
      → member_at (handle_member_role_updated env s p) c u ≢ member_at s c u
      → (p.community_id ≡ c)
        × (p.user_id ≡ u)
        × Signer env (role_message env p) p.signature (members_of s p.community_id) is_admin
  unfolding role_is_valid
  role_updated_authority p changed =
      elim (Bool-cases (role_is_valid env s p && (p.community_id == c && p.user_id == u))) [
        | inr no_change ↦ absurd (changed (ground (arith, member_at-role_updated env s c u p)))
        | inl valid ↦ (
          ground (arith, bytes_eq_iff p.community_id c),
          ground (arith, bytes_eq_iff p.user_id u),
          any-Signer env (role_message env p) p.signature (members_of s p.community_id) is_admin
              (ground arith),
        )
      ]

  -- Where a departure changes a member's record, it names that member, and that member, or an admin
  -- or moderator of that very community, has signed the departure.
  pub left_authority :
      (p : MemberLeftPayload)
      → member_at (handle_member_left env s p) c u ≢ member_at s c u
      → (p.community_id ≡ c)
        × (p.user_id ≡ u)
        × Signer env
            (leave_message env p)
            p.signature
            (members_of s p.community_id)
            (λ m. m.user_id == p.user_id || is_privileged m)
  unfolding leave_is_valid
  left_authority p changed =
      elim (Bool-cases (leave_is_valid env s p && (p.community_id == c && p.user_id == u))) [
        | inr no_change ↦ absurd (changed (ground (arith, member_at-left env s c u p)))
        | inl valid ↦ (
          ground (arith, bytes_eq_iff p.community_id c),
          ground (arith, bytes_eq_iff p.user_id u),
          any-Signer env (leave_message env p) p.signature (members_of s p.community_id)
              (λ m. m.user_id == p.user_id || is_privileged m) (ground arith),
        )
      ]

  -- Where a join changes a member's record, the record that it brings names that member, its user id
  -- is derived from its key, that key has signed it, and the user is not banned from the community.
  pub joined_authority :
      (r : MembershipRecord)
      → member_at (handle_member_joined env s r) c u ≢ member_at s c u
      → (r.community_id ≡ c)
        × (r.user_id ≡ u)
        × (r.user_id ≡ env.user_id_of r.public_key)
        × (env.verify r.public_key (join_message env r) r.signature ≡ true)
        × (is_banned s c u ≡ false)
  unfolding join_is_signed
  joined_authority r changed =
      elim (Bool-cases (admits env s r && (r.community_id == c && r.user_id == u))) [
        | inr no_change ↦ absurd (changed (ground (arith, member_at-joined env s c u r)))
        | inl valid ↦
            let in_c : r.community_id ≡ c = ground (arith, bytes_eq_iff r.community_id c) in
            let of_u : r.user_id ≡ u = ground (arith, bytes_eq_iff r.user_id u) in
            (
              in_c,
              of_u,
              ground (arith, bytes_eq_iff r.user_id (env.user_id_of r.public_key)),
              ground arith,
              cc (in_c, of_u, not-true (is_banned s r.community_id r.user_id) (ground arith)),
            )
      ]

any-values-insert :
    (may : MembershipRecord → Bool) (members : Map Bytes MembershipRecord) (u : Bytes)
    (r : MembershipRecord)
    → may r ≡ true
    → any may (values (insert members u r)) ≡ true
unfolding insert
any-values-insert may [] u r h = ground (arith, h)
any-values-insert may ((k, m) ∷ rest) u r h = elim (Bool-cases (k == u)) [
  | inl t ↦ rw t (ground (arith, h))
  | inr f ↦ rw f (ground (arith, any-values-insert may rest u r h))
]

-- A record that its own user has signed and that claims the role of an admin makes one, unless the
-- user is banned: after the join, whatever role updates that user signs in that community are valid.
pub joined_as_admin :
    (env : Env) (s : AppState) (r : MembershipRecord) (p : MemberRoleUpdatedPayload)
    → admits env s r ≡ true
    → is_admin r ≡ true
    → p.community_id ≡ r.community_id
    → is_signature p.signature ≡ true
    → env.verify r.public_key (role_message env p) p.signature ≡ true
    → role_is_valid env (handle_member_joined env s r) p ≡ true
unfolding role_is_valid
joined_as_admin env s r p ok admin same len signed =
    let members : Map Bytes MembershipRecord = insert (members_of s r.community_id) r.user_id r in
    let stored : members_of (handle_member_joined env s r) p.community_id ≡ members =
      ap (members_of (handle_member_joined env s r)) same ∙ members_of-joined env s r ok in
    let counts =
      any-values-insert (signs_role env p) (members_of s r.community_id) r.user_id r
        (ground (arith, admin, signed)) in
    rw (stored, len) counts
