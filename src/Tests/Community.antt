-- ===== src/Tests/Community.antt =====
-- Two members of a community and a banned third, with a toy signature scheme: a signature is the
-- signer's byte, 64 times.
use bit_cord.Prelude.{
  if◌then◌else◌, ℕ, zero, suc, ◌≡◌, refl, Bool, true, false, ◌||◌, ◌==◌, Bytes, List, [], ◌∷◌, none,
  some, arith, nat_eq, list_eq,
}
use bit_cord.Prelude.Map.{get, insert, remove}
use bit_cord.Community.Model.{
  text_content, Env, Role, admin, moderator, member, MembershipRecord, SignedManifest,
  MemberLeftPayload, MemberRoleUpdatedPayload, manifest_verify, role_message, leave_message,
  join_message,
}
use bit_cord.Community.AppState.{AppState, Disk, set_members}
use bit_cord.Community.Member.{
  members_of, is_banned, is_admin, is_privileged, join_is_signed, leave_is_valid, role_is_valid,
  handle_member_joined, handle_member_left, handle_member_role_updated, store_member, sync_member,
  unsync_member, wrap_if_creator,
}
use bit_cord.Community.Member.Effects.{member_at}
use bit_cord.Community.Member.Authority.{
  Signer, role_updated_authority, left_authority, joined_authority, joined_as_admin,
}
use bit_cord.Community.Manifest.{
  member_joined, member_left, manifest_update, handle_manifest_update,
}
use bit_cord.Community.Manifest.Effects.{communities-manifest_update}
use bit_cord.Community.History.{Message, run}
use bit_cord.Community.History.Roster.{
  IsAuthentic, IsPersisted, IsAuthentic-run, IsPersisted-run, banned_stays_out,
}
use bit_cord.Community.History.Manifests.{Follows, Follows-run}

abbrev pub times : ℕ → ℕ → Bytes
times zero b = []
times (suc n) b = b ∷ times n b

abbrev pub signed_by : Bytes → Bytes → Bytes → Bool
signed_by [] message sig = false
signed_by (b ∷ bs) message sig = sig == times 64 b

abbrev role_code : Role → Bytes
role_code admin = 0 ∷ []
role_code moderator = 1 ∷ []
role_code member = 2 ∷ []

abbrev pub env : Env
env = record {
  valid_key = λ k. true;
  verify = signed_by;
  user_id_of = λ k. k;
  role_bytes = role_code;
  roles_bytes = λ rs. [];
  manifest_bytes = λ m. m.id;
  wrap_key = λ k x. some k;
  unwrap_key = λ w. some w;
  channel_bytes = λ m. m.id;
  decrypt_message = λ k n c. if n == k then some c else none;
  decode_content = λ p. some (text_content p [] none none);
  decode_event = λ d. none;
  parse_addr = λ a. none;
  id_text = λ b. "id";
}

abbrev pub club : Bytes
club = 9 ∷ []

abbrev pub alice : Bytes
alice = 1 ∷ []

abbrev pub bob : Bytes
bob = 2 ∷ []

abbrev pub mallory : Bytes
mallory = 3 ∷ []

abbrev record_of : Bytes → ℕ → List Role → MembershipRecord
record_of id b roles = record {
  user_id = id;
  community_id = club;
  display_name = id;
  avatar_cid = none;
  joined_at = 5;
  roles = roles;
  public_key = id;
  x25519_public_key = id;
  signature = times 64 b;
}

abbrev alice_record : MembershipRecord
alice_record = record_of alice 1 (admin ∷ [])

abbrev bob_record : MembershipRecord
bob_record = record_of bob 2 (member ∷ [])

abbrev mallory_record : MembershipRecord
mallory_record = record_of mallory 3 (member ∷ [])

abbrev pub manifest : ℕ → Bool → SignedManifest
manifest version deleted = record {
  manifest = record {
    id = club;
    name = [];
    description = [];
    public_key = alice;
    created_at = 0;
    admin_ids = alice ∷ [];
    channel_ids = [];
    seed_nodes = [];
    version = version;
    deleted = deleted;
  };
  signature = times 64 1;
}

abbrev no_disk : Disk
no_disk = record {
  communities = [];
  members = [];
  channels = [];
  channel_keys = [];
  previous_channel_keys = [];
  hosting_passwords = [];
  dm_peers = [];
}

-- Alice's node, before anyone has joined.
abbrev opened : AppState
opened = record {
  own_user_id = alice;
  own_pk = alice;
  communities = (club, manifest 1 false) ∷ [];
  members = [];
  bans = (club, mallory ∷ []) ∷ [];
  channels = [];
  channel_keys = [];
  previous_channel_keys = [];
  hosting_passwords = [];
  seed_fingerprints = [];
  dm_peers = [];
  presence = [];
  connected_peers = [];
  pending_manifest_syncs = [];
  pending_rotation_messages = [];
  message_log = record { channels = []; reactions = [] };
  node_store = none;
  disk = no_disk;
  out = [];
}

-- With Alice and Bob as members.
abbrev pub peopled : AppState
peopled = set_members opened ((club, (alice, alice_record) ∷ (bob, bob_record) ∷ []) ∷ [])

abbrev bob_leaves : MemberLeftPayload
bob_leaves = record { user_id = bob; community_id = club; timestamp = 6; signature = times 64 2 }

abbrev bob_promoted : MemberRoleUpdatedPayload
bob_promoted = record {
  user_id = bob;
  community_id = club;
  new_role = moderator;
  timestamp = 6;
  signature = times 64 1;
}

abbrev messages : List Message
messages =
    (member_joined alice_record, none)
    ∷ (member_joined bob_record, none)
    ∷ (member_joined mallory_record, none)
    ∷ (member_left bob_leaves, none)
    ∷ (manifest_update (manifest 2 false), none)
    ∷ []

IsAuthentic-run_example : IsAuthentic env (run env opened messages)
unfolding get
IsAuthentic-run_example = IsAuthentic-run env opened messages (λ c u. tt)

IsPersisted-run_example : IsPersisted (run env opened messages)
IsPersisted-run_example = IsPersisted-run env opened messages refl

banned_stays_out_example :
    (member_at (run env opened messages) club mallory ≡ none)
    × (is_banned (run env opened messages) club mallory ≡ true)
unfolding get
banned_stays_out_example = banned_stays_out env opened messages club mallory refl refl

Follows-run_example :
    Follows (get (run env opened messages).communities club) (get opened.communities club)
Follows-run_example = Follows-run env opened messages club

communities-manifest_update_example :
    get (handle_manifest_update env opened (manifest 2 false) none).communities club
    ≡ some (manifest 2 false)
unfolding get manifest_verify
communities-manifest_update_example =
    communities-manifest_update env opened (manifest 2 false) none club

role_updated_authority_example :
    (club ≡ club)
    × (bob ≡ bob)
    × Signer env (role_message env bob_promoted) (times 64 1) (members_of peopled club) is_admin
unfolding get insert handle_member_role_updated role_is_valid
role_updated_authority_example =
    role_updated_authority env peopled club bob bob_promoted (λ e. ground (arith, e))

left_authority_example :
    (club ≡ club)
    × (bob ≡ bob)
    × Signer env
        (leave_message env bob_leaves)
        (times 64 2)
        (members_of peopled club)
        (λ m. m.user_id == bob || is_privileged m)
unfolding get insert remove handle_member_left leave_is_valid unsync_member
left_authority_example = left_authority env peopled club bob bob_leaves (λ e. ground (arith, e))

joined_authority_example :
    (club ≡ club)
    × (bob ≡ bob)
    × (bob ≡ env.user_id_of bob)
    × (env.verify bob (join_message env bob_record) (times 64 2) ≡ true)
    × (is_banned opened club bob ≡ false)
unfolding get insert handle_member_joined join_is_signed store_member sync_member wrap_if_creator
joined_authority_example = joined_authority env opened club bob bob_record (λ e. ground (arith, e))

abbrev usurper : MembershipRecord
usurper = record_of bob 2 (admin ∷ [])

abbrev bob_promotes : MemberRoleUpdatedPayload
bob_promotes = record bob_promoted { user_id = alice; signature = times 64 2 }

joined_as_admin_example :
    role_is_valid env (handle_member_joined env opened usurper) bob_promotes ≡ true
unfolding join_is_signed get
joined_as_admin_example = joined_as_admin env opened usurper bob_promotes refl refl refl refl refl
