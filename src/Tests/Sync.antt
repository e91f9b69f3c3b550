-- ===== src/Tests/Sync.antt =====
-- Bob's node receives the manifest of the community with a new key of its channel, for which a message
-- waits or none.
use bit_cord.Prelude.{
  ◌≡◌, refl, false, [], ◌∷◌, none, some, or_else, is_some, true, ◌⊎◌, nat_eq, list_eq,
}
use bit_cord.Prelude.Map.{get, insert, remove}
use bit_cord.Community.Model.{Env, ChannelManifest, SignedManifest, ChannelEvent, manifest_verify}
use bit_cord.Community.AppState.{AppState}
use bit_cord.Community.Sync.Keys.{update_keys, unwrap_keys}
use bit_cord.Community.Sync.Tables.{Received, register_peer, store_channels}
use bit_cord.Community.Sync.Replay.{drain, replay}
use bit_cord.Community.Sync.Follow.{Own}
use bit_cord.Community.Sync.Handler.{take_manifest, handle_manifest_received}
use bit_cord.Community.Sync.Effects.{communities-manifest_received}
use bit_cord.Community.Sync.Kept.{update_keys-keeps}
use bit_cord.Community.Sync.Returns.{handle_manifest_received-returns}
use bit_cord.Tests.Community.{club, alice, bob, peopled, manifest}
use bit_cord.Tests.Channel.{texts, hall, sent}

-- The event is a message under the key 9, which the node does not have.
abbrev net : Env
net = record texts { decode_event = λ d. some (ChannelEvent.new_message (sent (22 ∷ []) (9 ∷ []))) }

abbrev own : Own
own = record { display_name = []; x25519_pk = 3 ∷ []; now = 0; sign = λ b. [] }

abbrev bobs : AppState
bobs = record peopled {
  own_user_id = bob;
  own_pk = bob;
  channels = (7 ∷ [], hall 1) ∷ [];
  channel_keys = (7 ∷ [], 5 ∷ []) ∷ [];
}

abbrev waiting : AppState
waiting = record bobs { pending_rotation_messages = (7 ∷ [], ([], 1 ∷ []) ∷ []) ∷ [] }

abbrev rekeyed : ChannelManifest
rekeyed = record (hall 2) { encrypted_channel_key = (bob, 6 ∷ []) ∷ [] }

abbrev with_hall : SignedManifest
with_hall = record (manifest 2 false) {
  manifest = record (manifest 2 false).manifest { channel_ids = (7 ∷ []) ∷ [] };
}

abbrev answer : Received
answer = record {
  from_peer = alice;
  manifest = with_hall;
  channels = rekeyed ∷ [];
  channel_keys = [];
  peer_members = [];
}

-- The waiting message does not decrypt with the new key either, and the handler waits for its own lock.
blocked : handle_manifest_received net own waiting answer ≡ none
unfolding handle_manifest_received manifest_verify take_manifest register_peer store_channels
    update_keys unwrap_keys drain replay get insert remove
blocked = refl

-- The event is a message under the new key.
abbrev readable_net : Env
readable_net = record texts {
  decode_event = λ d. some (ChannelEvent.new_message (sent (22 ∷ []) (6 ∷ [])));
}

handle_manifest_received-returns_example :
    is_some (handle_manifest_received readable_net own waiting answer) ≡ true
unfolding get manifest_verify take_manifest register_peer store_channels update_keys unwrap_keys
    insert
handle_manifest_received-returns_example =
    handle_manifest_received-returns readable_net own waiting answer
      (((sent (22 ∷ []) (6 ∷ []), refl, (rekeyed, refl), (6 ∷ [], refl)), tt), tt)

update_keys-keeps_example :
    ((get (update_keys net bobs alice (rekeyed ∷ []) []).0.channel_keys (7 ∷ []) ≡ some (5 ∷ []))
      ⊎ (get (update_keys net bobs alice (rekeyed ∷ []) []).0.previous_channel_keys (7 ∷ [])
          ≡ some (5 ∷ [])))
    × ((update_keys net bobs alice (rekeyed ∷ []) []).0.disk.channel_keys
        ≡ (update_keys net bobs alice (rekeyed ∷ []) []).0.channel_keys)
    × ((update_keys net bobs alice (rekeyed ∷ []) []).0.disk.previous_channel_keys
        ≡ (update_keys net bobs alice (rekeyed ∷ []) []).0.previous_channel_keys)
unfolding get
update_keys-keeps_example =
    update_keys-keeps net bobs alice (rekeyed ∷ []) [] (7 ∷ []) (5 ∷ []) (refl, tt) refl refl

-- What the handler leaves.
abbrev synced : AppState
synced = or_else (handle_manifest_received net own bobs answer) bobs

synced_result : handle_manifest_received net own bobs answer ≡ some synced
unfolding handle_manifest_received manifest_verify take_manifest register_peer store_channels
    update_keys unwrap_keys drain replay get insert remove
synced_result = refl

communities-manifest_received_example :
    (synced.bans ≡ bobs.bans) × (get synced.communities club ≡ some with_hall)
unfolding get manifest_verify
communities-manifest_received_example =
    communities-manifest_received net own bobs answer synced club synced_result
