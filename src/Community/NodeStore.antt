-- ===== src/Community/NodeStore.antt =====
-- crates/bitcord-core/src/node/store.rs as the event handlers see it: the metadata of each community
-- and the log of each channel. Node has the database itself.
use bit_cord.Prelude.{
  false, ℕ, ◌+◌, ◌%◌, ◌^◌, or_else, Bytes, List, [], ◌∷◌, ◌++◌, Option, none, some, nat_eq, list_eq,
}
use bit_cord.Prelude.Map.{Map, get, insert, remove}
use bit_cord.State.MessageLog.{LogEntry}
use bit_cord.Community.Model.{MembershipRecord, SignedManifest, ChannelManifest}

-- crypto/certificate.rs
pub record HostingCert : Type 0 where
  pub community_pk : Bytes
  pub node_pk : Bytes
  pub expires_at : ℕ
  pub signature : Bytes

-- node/store.rs
pub record CommunityMeta : Type 0 where
  pub cert : HostingCert
  pub manifest : Option SignedManifest
  pub channels : List ChannelManifest
  pub channel_keys : Map Bytes Bytes
  pub members : Map Bytes MembershipRecord

-- `members.iter().map(..).collect()`: the last record of a user counts.
abbrev pub collect_members :
    Map Bytes MembershipRecord → List MembershipRecord → Map Bytes MembershipRecord
collect_members m [] = m
collect_members m (r ∷ rs) = collect_members (insert m r.user_id r) rs

-- What the handlers see of the node's database: the metadata of each community, and for each
-- community the log of each channel, in the order of the sequence numbers. Reads and writes that fail
-- are not modelled.
pub record NodeStore : Type 0 where
  pub meta : Map Bytes CommunityMeta
  pub log : Map Bytes (Map Bytes (List LogEntry))

-- `NodeStore::remove_community`
abbrev pub store_remove_community : NodeStore → Bytes → NodeStore
store_remove_community store pk = record { meta = remove store.meta pk; log = remove store.log pk }

abbrev pub last_of : List LogEntry → Option ℕ
last_of [] = none
last_of (e ∷ []) = some e.seq
last_of (e ∷ es) = last_of es

abbrev pub store_entries : NodeStore → Bytes → Bytes → List LogEntry
store_entries store pk ch_id = or_else (get (or_else (get store.log pk) []) ch_id) []

-- `NodeStore::last_seq`
abbrev pub last_seq : NodeStore → Bytes → Bytes → Option ℕ
last_seq store pk ch_id = last_of (store_entries store pk ch_id)

abbrev pub next_seq : Option ℕ → ℕ
next_seq none = 0
next_seq (some n) = (n + 1) % 2 ^ 64

-- `NodeStore::append_message`: the entry takes the next number, whatever its own.
unfoldable pub append_message : NodeStore → Bytes → Bytes → LogEntry → NodeStore
append_message store pk ch_id e =
    let e' : LogEntry = record e { seq = next_seq (last_seq store pk ch_id); deleted = false } in
    let channels = or_else (get store.log pk) [] in
    record store {
      log = insert store.log pk (insert channels ch_id (store_entries store pk ch_id ++ e' ∷ []));
    }
