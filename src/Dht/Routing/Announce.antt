-- ===== src/Dht/Routing/Announce.antt =====
-- What an announcement of a community peer leaves in the community's list, and the cooldowns.
use bit_cord.Prelude.{
  ℕ, ◌-◌, ◌≤◌, ◌<◌, ◌≡◌, refl, sym, ap, subst, ◌∙◌, ◌⊎◌, Bool, true, false, ◌&&◌, ◌||◌, Bytes, List,
  [], ◌∷◌, ◌++◌, none, some, length, length-append, length-take, length-drop, take, drop,
  take-append-drop, any, update_first, or_else, leb, ltb, ltb→lt, ◌==◌, if◌then◌else◌, nat_eq,
  list_eq, bytes_eq_iff, inl, inr, arith, Option-cases, Bool-cases, All-Elem, Elem,
  Elem-append_left, Elem-append_right, Elem-append_cases, Elem-keep, any-Elem,
}
use bit_cord.Prelude.Map.{get, get-insert, get-insert_self}
use bit_cord.Prelude.Sort.{
  sort_by, sort_by-Elem, sort_by-IsSorted, length-sort_by, take_before_drop,
}
use bit_cord.Dht.Routing.{
  NodeAddr, CommunityPeerRecord, DhtState, bucket_size, has_pk, newer, announce_in,
  announce_community_peer, lookup_community_peers, peer_is_fresh, acquire_discover_slot,
  acquire_announce_slot,
}

length-update_first :
    {A : Type 0} (p : A → Bool) (f : A → A) (xs : List A)
    → length (or_else (update_first p f xs) xs) ≡ length xs
length-update_first p f [] = refl
length-update_first p f (x ∷ xs) = ground (arith, length-update_first p f xs)

abbrev pub announcement : ℕ → Bytes → NodeAddr → CommunityPeerRecord
announcement unix node_pk addr = record { node_pk = node_pk; addr = addr; announced_at = unix }

update_first-none :
    {A : Type 0} (p : A → Bool) (f : A → A) (xs : List A)
    → update_first p f xs ≡ none
    → any p xs ≡ false
update_first-none p f [] h = refl
update_first-none p f (x ∷ xs) h = ground (arith, update_first-none p f xs)

Elem-unique : {A : Type 0} (a b : A) (xs : List A) → Elem a xs → Elem b xs → length xs ≤ 1 → a ≡ b
Elem-unique a b [] m n h = absurd m
Elem-unique a b (x ∷ []) (inl p) (inl q) h = sym p ∙ q
Elem-unique a b (x ∷ []) (inl p) (inr n) h = absurd n
Elem-unique a b (x ∷ []) (inr m) n h = absurd m
Elem-unique a b (x ∷ y ∷ xs) m n h = absurd (omega arith)

module _ (unix : ℕ) (node_pk : Bytes) (addr : NodeAddr) where
  abbrev own : CommunityPeerRecord
  own = announcement unix node_pk addr

  abbrev write : CommunityPeerRecord → CommunityPeerRecord
  write r = record r { addr = addr; announced_at = unix }

  written-Elem :
      (list : List CommunityPeerRecord) {list' : List CommunityPeerRecord}
      → update_first (has_pk node_pk) write list ≡ some list'
      → Elem own list'
  written-Elem [] h = cc
  written-Elem (r ∷ rs) {list'} h = elim (Bool-cases (has_pk node_pk r)) [
    | inl t ↦
        let same : write r ≡ own = cc ((bytes_eq_iff r.node_pk node_pk).0 t) in
        subst (λ o. Elem own (or_else o [])) (rw t at h) (inl same)
    | inr f ↦ elim (Option-cases (update_first (has_pk node_pk) write rs)) [
      | inl p ↦ ground arith
      | inr (rs', p) ↦
          let e : some (r ∷ rs') ≡ some list' = ground arith in
          subst (λ o. Elem own (or_else o [])) e (inr (written-Elem rs p))
    ]
  ]

  -- The announcement has room in the list: the node is in it, it is not full, or it holds an older
  -- record.
  abbrev pub has_room : List CommunityPeerRecord → Bool
  has_room list =
      any (has_pk node_pk) list
      || (ltb (length list) bucket_size || any (λ r. ltb r.announced_at unix) list)

  newer_total : (x y : CommunityPeerRecord) → (newer x y ≡ true) ⊎ (newer y x ≡ true)
  newer_total x y = ground arith

  newer_trans :
      (x y z : CommunityPeerRecord) → newer x y ≡ true → newer y z ≡ true → newer x z ≡ true
  newer_trans x y z h k = ground arith

  -- Where 21 records are cut to the 20 newest, one that is older than the announcement is cut.
  cut_keeps_own :
      (list : List CommunityPeerRecord) (r : CommunityPeerRecord)
      → length list ≤ bucket_size
      → Elem r list
      → r.announced_at < unix
      → Elem own (take bucket_size (sort_by newer (list ++ own ∷ [])))
  cut_keeps_own list r size m older =
      let sorted = sort_by newer (list ++ own ∷ []) in
      let all_own : Elem own sorted =
        sort_by-Elem newer own (list ++ own ∷ [])
          (Elem-append_right own list (own ∷ []) (inl refl)) in
      let all_r : Elem r sorted =
        sort_by-Elem newer r (list ++ own ∷ []) (Elem-append_left r list (own ∷ []) m) in
      let order =
        take_before_drop newer bucket_size sorted
          (sort_by-IsSorted newer newer_total newer_trans (list ++ own ∷ [])) in
      elim (Elem-append_cases own (take bucket_size sorted) (drop bucket_size sorted)
        (rw (take-append-drop bucket_size sorted) all_own)) [
          | inl kept ↦ kept
          | inr cut ↦
              absurd
                (elim (Elem-append_cases r (take bucket_size sorted) (drop bucket_size sorted)
                  (rw (take-append-drop bucket_size sorted) all_r)) [
                    | inl before ↦
                        let first = All-Elem _ r (take bucket_size sorted) order before in
                        let behind = All-Elem _ own (drop bucket_size sorted) first cut in
                        ground arith
                    | inr both ↦
                        let one : length (drop bucket_size sorted) ≤ 1 = omega (
                          arith,
                          length-drop bucket_size sorted,
                          length-sort_by newer (list ++ own ∷ []),
                          length-append list (own ∷ []),
                        ) in
                        let same : r ≡ own =
                          Elem-unique r own (drop bucket_size sorted) both cut one in
                        let at : r.announced_at ≡ unix =
                          ap (λ (x : CommunityPeerRecord). x.announced_at) same in
                        omega arith
                  ])
        ]

  -- The list that an announcement leaves is no longer than the 20 that it may hold.
  announce_in-le :
      (list : List CommunityPeerRecord)
      → length list ≤ bucket_size
      → length (announce_in list unix node_pk addr) ≤ bucket_size
  unfolding announce_in
  announce_in-le list size = ground (
    arith,
    length-update_first (has_pk node_pk) write list,
    length-append list (own ∷ []),
    length-take bucket_size (sort_by newer (list ++ own ∷ [])),
  )

  announce_in-Elem :
      (list : List CommunityPeerRecord)
      → length list ≤ bucket_size
      → has_room list ≡ true
      → Elem own (announce_in list unix node_pk addr)
  unfolding announce_in
  announce_in-Elem list size room = elim (Option-cases (update_first (has_pk node_pk) write list)) [
    | inr (list', p) ↦ rw (p, announce_in) (written-Elem list p)
    | inl p ↦ elim (Bool-cases (ltb bucket_size (length (list ++ own ∷ [])))) [
      | inl full ↦
          let absent = update_first-none (has_pk node_pk) write list p in
          let exact : ltb (length list) bucket_size ≡ false =
            ground (arith, length-append list (own ∷ [])) in
          let (r, m, old) = any-Elem (λ x. ltb x.announced_at unix) list (ground arith) in
          rw (p, announce_in, full) (cut_keeps_own list r size m (ltb→lt _ _ old))
      | inr fits ↦ rw (p, announce_in, fits) (Elem-append_right own list (own ∷ []) (inl refl))
    ]
  ]

-- An announcement for which a community's list of at most 20 records has room is returned by a
-- lookup of the community at that time, the list stays within 20 records, and the lists of the other
-- communities stay as they are.
pub lookup-announce_community_peer :
    (s : DhtState) (unix : ℕ) (community_pk node_pk other : Bytes) (addr : NodeAddr)
    → length (or_else (get s.community_peers community_pk) []) ≤ bucket_size
    → has_room unix node_pk addr (or_else (get s.community_peers community_pk) []) ≡ true
    → Elem (announcement unix node_pk addr) (
        lookup_community_peers
          (announce_community_peer s unix community_pk node_pk addr)
          unix
          community_pk)
      × (length (
            or_else
              (get
                (announce_community_peer s unix community_pk node_pk addr).community_peers
                community_pk)
              [])
          ≤ bucket_size)
      × (get (announce_community_peer s unix community_pk node_pk addr).community_peers other ≡ (
          if community_pk == other
          then some
              (announce_in (or_else (get s.community_peers community_pk) []) unix node_pk addr)
          else get s.community_peers other))
unfolding lookup_community_peers announce_community_peer
lookup-announce_community_peer s unix community_pk node_pk other addr size room =
    let list : List CommunityPeerRecord = or_else (get s.community_peers community_pk) [] in
    let after : List CommunityPeerRecord = announce_in list unix node_pk addr in
    let fresh : peer_is_fresh unix (announcement unix node_pk addr) ≡ true = ground arith in
    (
      rw get-insert_self (
          Elem-keep (peer_is_fresh unix) (announcement unix node_pk addr) after
            (announce_in-Elem unix node_pk addr list size room) fresh),
      rw get-insert_self (announce_in-le unix node_pk addr list size),
      get-insert s.community_peers community_pk other after,
    )

-- A slot that is taken at one time is refused to the same community until its cooldown is over, and
-- granted from then on; a slot that is refused changes nothing; and one community's slot does not
-- hold up another's. The slots of discovery and of announcements do not hold up one another.
pub acquire_slot_twice :
    (s : DhtState) (now later cooldown : ℕ) (pk other : Bytes)
    → ((acquire_announce_slot (acquire_announce_slot s now pk cooldown).0 later other cooldown).1
        ≡ (if (acquire_announce_slot s now pk cooldown).1 && pk == other
            then leb cooldown (later - now)
            else (acquire_announce_slot s later other cooldown).1))
      × ((acquire_discover_slot (acquire_discover_slot s now pk cooldown).0 later other cooldown).1
          ≡ (if (acquire_discover_slot s now pk cooldown).1 && pk == other
              then leb cooldown (later - now)
              else (acquire_discover_slot s later other cooldown).1))
      × ((acquire_announce_slot (acquire_discover_slot s now pk cooldown).0 later other cooldown).1
          ≡ (acquire_announce_slot s later other cooldown).1)
unfolding acquire_announce_slot acquire_discover_slot
acquire_slot_twice s now later cooldown pk other = (
  ground (arith, get-insert s.last_announce pk other now),
  ground (arith, get-insert s.last_discover pk other now),
  ground arith,
)
