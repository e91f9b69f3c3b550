-- ===== src/Community/Model.antt =====
-- crates/bitcord-core/src/model: members, manifests, channels and the gossip events. Identifiers and
-- texts are their bytes: the maps of the program are keyed by the printed identifier, and printing
-- is injective, so here they are keyed by the identifier. Times are in milliseconds.
use bit_cord.Prelude.{
  ℕ, zero, suc, ◌/◌, ◌%◌, Bool, ◌&&◌, Bytes, List, [], ◌∷◌, ◌++◌, Option, String, length, nat_eqb,
}
use bit_cord.Prelude.Map.{Map}
use bit_cord.Dht.Routing.{NodeAddr}

pub data Role : Type 0 where
  admin moderator member : Role

pub record MembershipRecord : Type 0 where
  pub user_id : Bytes
  pub community_id : Bytes
  pub display_name : Bytes
  pub avatar_cid : Option Bytes
  pub joined_at : ℕ
  pub roles : List Role
  pub public_key : Bytes
  pub x25519_public_key : Bytes
  pub signature : Bytes

pub record CommunityManifest : Type 0 where
  pub id : Bytes
  pub name : Bytes
  pub description : Bytes
  pub public_key : Bytes
  pub created_at : ℕ
  pub admin_ids : List Bytes
  pub channel_ids : List Bytes
  pub seed_nodes : List Bytes
  pub version : ℕ
  pub deleted : Bool

pub record SignedManifest : Type 0 where
  pub manifest : CommunityManifest
  pub signature : Bytes

pub data ChannelKind : Type 0 where
  text announcement voice : ChannelKind

pub record ChannelManifest : Type 0 where
  pub id : Bytes
  pub community_id : Bytes
  pub name : Bytes
  pub kind : ChannelKind
  pub encrypted_channel_key : Map Bytes Bytes
  pub created_at : ℕ
  pub version : ℕ

pub record MemberLeftPayload : Type 0 where
  pub user_id : Bytes
  pub community_id : Bytes
  pub timestamp : ℕ
  pub signature : Bytes

pub record MemberRoleUpdatedPayload : Type 0 where
  pub user_id : Bytes
  pub community_id : Bytes
  pub new_role : Role
  pub timestamp : ℕ
  pub signature : Bytes

pub record PresenceHeartbeatPayload : Type 0 where
  pub user_id : Bytes
  pub status : Bytes
  pub timestamp : ℕ
  pub signature : Bytes

pub record AttachmentRef : Type 0 where
  pub cid : Bytes
  pub name : Bytes
  pub size : ℕ
  pub mime_type : Bytes

pub data MessageContent : Type 0 where
  text_content : Bytes → List AttachmentRef → Option Bytes → Option ℕ → MessageContent
  reaction_content : String → String → Bool → MessageContent

pub record RawMessage : Type 0 where
  pub id : Bytes
  pub channel_id : Bytes
  pub author_id : Bytes
  pub timestamp : ℕ
  pub ciphertext : Bytes
  pub nonce : Bytes
  pub signature : Bytes

pub record EditMessagePayload : Type 0 where
  pub message_id : Bytes
  pub channel_id : Bytes
  pub author_id : Bytes
  pub new_ciphertext : Bytes
  pub new_nonce : Bytes
  pub signature : Bytes
  pub timestamp : ℕ

pub record DeleteMessagePayload : Type 0 where
  pub message_id : Bytes
  pub channel_id : Bytes
  pub author_id : Bytes
  pub signature : Bytes
  pub timestamp : ℕ

pub record ChannelKeyRotationPayload : Type 0 where
  pub new_manifest : ChannelManifest
  pub signature : Bytes

-- The events that `handle_channel_message` acts on, with `ignored` for the others.
pub data ChannelEvent : Type 0 where
  new_message : RawMessage → ChannelEvent
  channel_key_rotation : ChannelKeyRotationPayload → ChannelEvent
  edit_message : EditMessagePayload → ChannelEvent
  delete_message : DeleteMessagePayload → ChannelEvent
  ignored : ChannelEvent

-- What the handlers use of other crates: Ed25519 and SHA-256 (`verify` answers for a key that does
-- not parse too, with `false`), postcard's encoding, the wrapping of channel keys to a member's
-- X25519 key and its inverse with the node's own secret, the decryption with a channel key, the
-- decoding of a message's content and of an event on a channel topic, the parser of socket addresses and the text
-- of an identifier.
pub record Env : Type 0 where
  pub valid_key : Bytes → Bool
  pub verify : Bytes → Bytes → Bytes → Bool
  pub user_id_of : Bytes → Bytes
  pub role_bytes : Role → Bytes
  pub roles_bytes : List Role → Bytes
  pub manifest_bytes : CommunityManifest → Bytes
  pub wrap_key : Bytes → Bytes → Option Bytes
  pub unwrap_key : Bytes → Option Bytes
  pub channel_bytes : ChannelManifest → Bytes
  pub decrypt_message : Bytes → Bytes → Bytes → Option Bytes
  pub decode_content : Bytes → Option MessageContent
  pub decode_event : Bytes → Option ChannelEvent
  pub parse_addr : Bytes → Option NodeAddr
  pub id_text : Bytes → String

-- `to_le_bytes`, in the given number of bytes.
abbrev pub le_bytes : ℕ → ℕ → Bytes
le_bytes zero n = []
le_bytes (suc k) n = (n % 256) ∷ le_bytes k (n / 256)

-- `try_into::<[u8; 64]>`
abbrev pub is_signature : Bytes → Bool
is_signature sig = nat_eqb (length sig) 64

abbrev pub leave_word : Bytes
leave_word = b'l' ∷ b'e' ∷ b'a' ∷ b'v' ∷ b'e' ∷ []

abbrev pub role_update_word : Bytes
role_update_word = b'r' ∷ b'o' ∷ b'l' ∷ b'e' ∷ b'_' ∷ b'u' ∷ b'p' ∷ b'd' ∷ b'a' ∷ b't' ∷ b'e' ∷ []

module _ (env : Env) where
  -- The bytes that are signed.
  abbrev pub join_message : MembershipRecord → Bytes
  join_message r =
      r.user_id
      ++ (r.community_id ++ (r.display_name ++ (le_bytes 8 r.joined_at ++ env.roles_bytes r.roles)))

  abbrev pub leave_message : MemberLeftPayload → Bytes
  leave_message p = p.user_id ++ (p.community_id ++ leave_word)

  abbrev pub role_message : MemberRoleUpdatedPayload → Bytes
  role_message p = p.user_id ++ (p.community_id ++ (env.role_bytes p.new_role ++ role_update_word))

  abbrev pub heartbeat_message : PresenceHeartbeatPayload → Bytes
  heartbeat_message p = p.user_id ++ (p.status ++ le_bytes 8 p.timestamp)

  -- `SignedManifest::verify`: against the key that the manifest itself names.
  unfoldable pub manifest_verify : SignedManifest → Bool
  manifest_verify m =
      is_signature m.signature
      && env.verify m.manifest.public_key (env.manifest_bytes m.manifest) m.signature

  -- `RawMessage::signable_bytes`
  abbrev pub signable_bytes : RawMessage → Bytes
  signable_bytes m = m.id ++ (m.channel_id ++ (le_bytes 8 m.timestamp ++ m.ciphertext))

  -- `RawMessage::verify`, with the parsing of the key.
  unfoldable pub raw_verify : RawMessage → Bytes → Bool
  raw_verify m author_pubkey =
      is_signature m.signature && env.verify author_pubkey (signable_bytes m) m.signature
