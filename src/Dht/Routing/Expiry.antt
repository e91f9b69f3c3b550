-- ===== src/Dht/Routing/Expiry.antt =====
-- Expiry removes only what no lookup would return any more, at that time or later.
use bit_cord.Prelude.{
  ℕ, ◌≤◌, ◌≡◌, refl, Bool, Bytes, List, [], ◌∷◌, Option, none, some, keep, or_else, ltb, arith,
  nat_eq, list_eq, map_some,
}
use bit_cord.Prelude.Map.{
  map_values, IsMap, get-retain, get-map_values, map_values-IsMap, filter_value,
}
use bit_cord.Dht.Routing.{
  DhtState, MailboxRecord, CommunityPeerRecord, peer_is_fresh, info_is_fresh, not_empty,
  lookup_mailbox, lookup_community_peers, lookup_peer_info, expire_records,
}

-- The keys of the record stores are unique.
pub record IsStore (s : DhtState) : Type 0 where
  pub mailboxes : IsMap s.mailboxes
  pub community_peers : IsMap s.community_peers
  pub peer_infos : IsMap s.peer_infos

keep-keep_fresh :
    (unix unix' : ℕ) (rs : List CommunityPeerRecord)
    → unix ≤ unix'
    → keep (peer_is_fresh unix') (keep (peer_is_fresh unix) rs) ≡ keep (peer_is_fresh unix') rs
keep-keep_fresh unix unix' [] h = refl
keep-keep_fresh unix unix' (r ∷ rs) h = ground (arith, keep-keep_fresh unix unix' rs h)

-- Dropping an emptied list does not show in a lookup.
or_else-not_empty :
    (o : Option (List CommunityPeerRecord)) → or_else (filter_value not_empty o) [] ≡ or_else o []
or_else-not_empty none = refl
or_else-not_empty (some []) = refl
or_else-not_empty (some (r ∷ rs)) = refl

or_else-map_keep :
    (p : CommunityPeerRecord → Bool) (o : Option (List CommunityPeerRecord))
    → or_else (map_some (keep p) o) [] ≡ keep p (or_else o [])
or_else-map_keep p none = refl
or_else-map_keep p (some rs) = refl

module _ (s : DhtState) (now now' unix unix' : ℕ) (h : IsStore s) (later : now ≤ now')
    (later' : unix ≤ unix') where
  lookup_mailbox-expire :
      (pk : Bytes) → lookup_mailbox (expire_records s now unix) now' pk ≡ lookup_mailbox s now' pk
  unfolding lookup_mailbox expire_records
  lookup_mailbox-expire pk =
      ground
        (arith, get-retain (λ (r : MailboxRecord). ltb now r.expires_at) s.mailboxes pk h.mailboxes)

  lookup_community_peers-expire :
      (pk : Bytes)
      → lookup_community_peers (expire_records s now unix) unix' pk
        ≡ lookup_community_peers s unix' pk
  unfolding lookup_community_peers expire_records
  lookup_community_peers-expire pk =
      let fresh = keep (peer_is_fresh unix) in
      rw
        (
          get-retain not_empty (map_values fresh s.community_peers) pk
              (map_values-IsMap fresh s.community_peers h.community_peers),
          or_else-not_empty,
          get-map_values fresh s.community_peers pk,
          or_else-map_keep,
        )
        (keep-keep_fresh unix unix' _ later')

  lookup_peer_info-expire :
      (pk : Bytes)
      → lookup_peer_info (expire_records s now unix) unix' pk ≡ lookup_peer_info s unix' pk
  unfolding lookup_peer_info expire_records
  lookup_peer_info-expire pk =
      ground (arith, get-retain (info_is_fresh unix) s.peer_infos pk h.peer_infos)

  -- The expiry of records at one time changes no lookup of a mailbox, of a community's peers or of a
  -- peer's info at that time or later.
  pub lookup-expire_records :
      (pk : Bytes)
      → (lookup_mailbox (expire_records s now unix) now' pk ≡ lookup_mailbox s now' pk)
        × (lookup_community_peers (expire_records s now unix) unix' pk
            ≡ lookup_community_peers s unix' pk)
        × (lookup_peer_info (expire_records s now unix) unix' pk ≡ lookup_peer_info s unix' pk)
  lookup-expire_records pk =
      (lookup_mailbox-expire pk, lookup_community_peers-expire pk, lookup_peer_info-expire pk)
