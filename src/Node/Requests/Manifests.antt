-- ===== src/Node/Requests/Manifests.antt =====
-- crates/bitcord-core/src/node/handler.rs: `FetchManifest` and `PushManifest`.
use bit_cord.Prelude.{
  Bool, not, ◌&&◌, Bytes, List, [], Option, none, some, any, find, keep, map, length, or_else, ◌==◌,
  if◌then◌else◌, nat_eq, list_eq,
}
use bit_cord.Prelude.Map.{Map, get, insert, values}
use bit_cord.Community.Model.{MembershipRecord, ChannelManifest, SignedManifest}
use bit_cord.Community.NodeStore.{CommunityMeta, collect_members}
use bit_cord.Node.Table.{Tables}
use bit_cord.Node.Store.{repeat_byte, u64_max}
use bit_cord.Node.Registry.{set_community_meta, get_community_meta}
use bit_cord.Node.Protocol.{ManifestPush, manifest, push_ack, error}
use bit_cord.Node.Session.{
  ClientSession, NodeServices, NodeEnv, Moment, Answer, is_authenticated, has_joined,
}
use bit_cord.Node.Requests.Join.{has_key, stored_meta, empty_meta}

-- The metadata that the pushed manifest replaces the stored one with; only the certificate stays.
abbrev pub pushed_meta : CommunityMeta → ManifestPush → CommunityMeta
pushed_meta meta p = record meta {
  manifest = some p.manifest;
  channels = p.channels;
  channel_keys = p.channel_keys;
  members = collect_members [] p.members;
}

-- The channel is still listed in the manifest.
abbrev pub is_live : SignedManifest → ChannelManifest → Bool
is_live m ch = any (λ id. id == ch.id) m.manifest.channel_ids

module _ {T : Type 0} (R : Tables T) (ne : NodeEnv) (now : Moment) where
  -- The stored key of the channel, wrapped for the client if it has 32 bytes.
  abbrev pub client_key : Map Bytes Bytes → MembershipRecord → ChannelManifest → Option Bytes
  client_key stored_keys client ch = elim (get stored_keys ch.id) [
    | none ↦ none
    | some key ↦ if length key == 32 then ne.env.wrap_key key client.x25519_public_key else none
  ]

  abbrev pub with_client_key :
      Map Bytes Bytes → Option MembershipRecord → ChannelManifest → ChannelManifest
  with_client_key stored_keys none ch = ch
  with_client_key stored_keys (some client) ch = elim (client_key stored_keys client ch) [
    | none ↦ ch
    | some wrapped ↦ record ch {
      encrypted_channel_key = insert ch.encrypted_channel_key client.user_id wrapped;
    }
  ]

  abbrev pub served_channels : CommunityMeta → SignedManifest → Option Bytes → List ChannelManifest
  served_channels meta m client_pk =
      let client : Option MembershipRecord = elim client_pk [
        | none ↦ none
        | some pk ↦ find (has_key pk) (values meta.members)
      ] in
      map (with_client_key meta.channel_keys client) (keep (is_live m) meta.channels)

  -- What `get_community_meta` has found.
  abbrev pub answer_manifest : Option CommunityMeta → ClientSession → NodeServices T → Answer T
  answer_manifest none sess sv = ((sess, sv), error 404)
  answer_manifest (some meta) sess sv = elim meta.manifest [
    | none ↦ ((sess, sv), error 404)
    | some m ↦
        ((sess, sv), manifest m (served_channels meta m sess.client_pk) [] (values meta.members))
  ]

  unfoldable pub handle_fetch_manifest : Bytes → ClientSession → NodeServices T → Answer T
  handle_fetch_manifest community_pk sess sv =
      if not (is_authenticated sess)
      then ((sess, sv), error 401)
      else elim (get_community_meta R ne.codec sv.store community_pk) [
        | none ↦ ((sess, sv), error 500)
        | some found ↦ answer_manifest found sess sv
      ]

  -- What is stored for the community, or new metadata with a certificate that nobody has signed.
  abbrev pub old_meta : NodeServices T → ManifestPush → CommunityMeta
  old_meta sv p = or_else (stored_meta R ne now sv.store p.community_pk) (
      empty_meta (record {
        community_pk = p.community_pk;
        node_pk = sv.node_pk;
        expires_at = u64_max;
        signature = repeat_byte 64 0;
      }))

  unfoldable pub handle_push_manifest : ManifestPush → ClientSession → NodeServices T → Answer T
  handle_push_manifest p sess sv =
      if is_authenticated sess && has_joined sess p.community_pk
      then elim (set_community_meta R ne.codec sv.store (now.random 0) p.community_pk
          (pushed_meta (old_meta sv p) p)) [
            | none ↦ ((sess, sv), error 500)
            | some db ↦ ((sess, record sv { store = db }), push_ack)
          ]
      else ((sess, sv), error 403)
