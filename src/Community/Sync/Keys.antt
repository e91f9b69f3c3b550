-- ===== src/Community/Sync/Keys.antt =====
-- crates/bitcord-core/src/api/event_processor/manifest_handler.rs: the channel keys that a manifest
-- brings.
use bit_cord.Prelude.{
  Bool, not, ◌&&◌, Bytes, List, [], ◌∷◌, ◌++◌, Option, none, some, any, length, ◌==◌, if◌then◌else◌,
  nat_eq, list_eq,
}
use bit_cord.Prelude.Map.{Map, get, insert, contains_key}
use bit_cord.Community.Model.{Env, ChannelManifest}
use bit_cord.Community.AppState.{AppState, set_channel_keys, set_previous_keys}

-- The keys, the keys before them, and the channels whose key has been replaced.
pub record KeyUpdate : Type 0 where
  pub keys : Map Bytes Bytes
  pub previous : Map Bytes Bytes
  pub rotated : List Bytes

-- The key that a channel's manifest has for the node: none, or one that does not unwrap, is skipped.
abbrev pub own_key : Env → Bytes → ChannelManifest → Option Bytes
own_key env own_user_id ch = elim (get ch.encrypted_channel_key own_user_id) [
  | none ↦ none
  | some wrapped ↦ env.unwrap_key wrapped
]

-- The old key is kept if it is another one.
abbrev pub put_key : KeyUpdate → Bytes → Bytes → KeyUpdate
put_key u ch_id key = elim (get u.keys ch_id) [
  | none ↦ record u { keys = insert u.keys ch_id key }
  | some old ↦ if old == key then record u { keys = insert u.keys ch_id key } else record {
    keys = insert u.keys ch_id key;
    previous = insert u.previous ch_id old;
    rotated = u.rotated ++ ch_id ∷ [];
  }
]

-- One channel's manifest.
abbrev pub take_own : Env → Bytes → KeyUpdate → ChannelManifest → KeyUpdate
take_own env own_user_id u ch = elim (own_key env own_user_id ch) [
  | none ↦ u
  | some key ↦ put_key u ch.id key
]

unfoldable pub unwrap_keys : Env → Bytes → KeyUpdate → List ChannelManifest → KeyUpdate
unwrap_keys env own_user_id u [] = u
unwrap_keys env own_user_id u (ch ∷ chs) =
    unwrap_keys env own_user_id (take_own env own_user_id u ch) chs

-- A plain key of 32 bytes, if the channel has no key.
abbrev pub take_plain : Map Bytes Bytes → Bytes → Bytes → Map Bytes Bytes
take_plain keys ch_id key =
    if not (contains_key keys ch_id) && length key == 32 then insert keys ch_id key else keys

abbrev pub plain_keys : Map Bytes Bytes → Map Bytes Bytes → Map Bytes Bytes
plain_keys keys [] = keys
plain_keys keys ((ch_id, key) ∷ rest) = plain_keys (take_plain keys ch_id key) rest

-- The creator's node takes no wrapped key.
unfoldable pub update_keys :
    Env → AppState → Bytes → List ChannelManifest → Map Bytes Bytes → AppState × List Bytes
unfolding unwrap_keys
update_keys env s public_key chs plain =
    let old : KeyUpdate = record {
      keys = s.channel_keys;
      previous = s.previous_channel_keys;
      rotated = [];
    } in
    let u = if public_key == s.own_pk then old else unwrap_keys env s.own_user_id old chs in
    let s1 = set_channel_keys s (plain_keys u.keys plain) in
    elim u.rotated [
      | [] ↦ (record s1 { previous_channel_keys = u.previous }, [])
      | c ∷ cs ↦ (set_previous_keys s1 u.previous, c ∷ cs)
    ]

abbrev pub lacks_key : AppState → List Bytes → Bool
lacks_key s ids = any (λ id. not (contains_key s.channel_keys id)) ids
