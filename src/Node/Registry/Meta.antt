-- ===== src/Node/Registry/Meta.antt =====
-- The metadata that `get_community_meta` reads after `set_community_meta`.
use bit_cord.Prelude.{
  ◌≡◌, refl, sym, ap, ◌∙◌, Bytes, [], ◌∷◌, some, ◌==◌, if◌then◌else◌, nat_eq, list_eq, list_eqb,
  list_eqb_iff, arith, Bool-cases, Option-cases, inl, inr,
}
use bit_cord.Prelude.Map.{get}
use bit_cord.Community.NodeStore.{CommunityMeta}
use bit_cord.Node.Table.{Tables, IsLawful, Items, put}
use bit_cord.Node.Store.{Codec, NodeDb, encrypt, decrypt}
use bit_cord.Node.Registry.{open_meta, set_community_meta, get_community_meta}

get-put :
    (k v j : Bytes) (m : Items) → get (put k v m) j ≡ (if list_eqb k j then some v else get m j)
unfolding get put
get-put k v j [] = refl
get-put k v j ((i, w) ∷ m) =
    ground (arith, list_eqb_iff k i, list_eqb_iff k j, list_eqb_iff i j, get-put k v j m)

-- What the store relies on of its codec for the metadata.
pub record IsMetaFaithful (X : Codec) (meta : CommunityMeta) : Type 0 where
  pub meta_read_back :
      (plain : Bytes) × (X.meta_bytes meta ≡ some plain) × (X.read_meta plain ≡ some meta)
  pub cipher_read_back :
      (key random plain : Bytes)
      → (blob : Bytes) × (X.encrypt_bytes key random plain ≡ some blob)
        × (X.decrypt_bytes key blob ≡ some plain)

module _ {T : Type 0} (R : Tables T) (X : Codec) (lawful : IsLawful R) where
  encrypted :
      (db : NodeDb T) (random plain : Bytes) (meta : CommunityMeta)
      → IsMetaFaithful X meta
      → (blob : Bytes) × (encrypt R X db random plain ≡ some blob)
        × (decrypt R X db blob ≡ some plain)
  encrypted db random plain meta faithful = elim (Option-cases db.key) [
    | inl n ↦ (plain, rw (encrypt, n) refl, rw (decrypt, n) refl)
    | inr (key, n) ↦
        let (blob, hidden, shown) = faithful.cipher_read_back key random plain in
        (blob, rw (encrypt, n) hidden, rw (decrypt, n) shown)
  ]

  set_community_meta-writes :
      (db : NodeDb T) (random pk : Bytes) (meta : CommunityMeta)
      → IsMetaFaithful X meta
      → (blob : Bytes) × (set_community_meta R X db random pk meta
          ≡ some (record db { meta = R.insert db.meta pk blob }))
        × (open_meta R X db blob ≡ some meta)
  unfolding set_community_meta
  set_community_meta-writes db random pk meta faithful =
      let (plain, written, back) = faithful.meta_read_back in
      let (blob, hidden, shown) = encrypted db random plain meta faithful in
      (blob, rw (set_community_meta, written, hidden) refl, rw (open_meta, shown) back)

  get-insert_meta :
      (t : T) (k v j : Bytes)
      → R.get (R.insert t k v) j ≡ (if list_eqb k j then some v else R.get t j)
  get-insert_meta t k v j =
      lawful.get-iter (R.insert t k v) j
      ∙ ap (λ m. get m j) (lawful.iter-insert t k v)
      ∙ get-put k v j (R.iter t)
      ∙ ap (λ o. if list_eqb k j then some v else o) (sym (lawful.get-iter t j))

  -- For metadata that the codec reads back: `set_community_meta` succeeds and writes no other table,
  -- and `get_community_meta` then returns it for its community, and for any other community what it
  -- returned before.
  pub get-set_community_meta :
      (db : NodeDb T) (random pk : Bytes) (meta : CommunityMeta) (pk' : Bytes)
      → IsMetaFaithful X meta
      → (db' : NodeDb T) × (set_community_meta R X db random pk meta ≡ some db')
        × ((db'.log ≡ db.log) × (db'.mail ≡ db.mail) × (db'.dht_peers ≡ db.dht_peers))
        × (get_community_meta R X db' pk'
            ≡ (if pk == pk' then some (some meta) else get_community_meta R X db pk'))
  unfolding get_community_meta
  get-set_community_meta db random pk meta pk' faithful =
      let (blob, written, back) = set_community_meta-writes db random pk meta faithful in
      let after = get-insert_meta db.meta pk blob pk' in
      (
        record db { meta = R.insert db.meta pk blob },
        written,
        (refl, refl, refl),
        elim (Bool-cases (list_eqb pk pk')) [
          | inl t ↦ rw (get_community_meta, after, t, back) refl
          | inr f ↦ rw (get_community_meta, after, f) refl
        ],
      )
