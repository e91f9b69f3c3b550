-- ===== src/Peer/PeerManager/Reputation.antt =====
-- Reputations stay in their range, and the peer that is evicted has the least.
use bit_cord.Prelude.{
  ℕ, ◌≤◌, ◌<◌, ◌≡◌, refl, ap, sym, subst, Bool, List, [], ◌∷◌, Option, none, some, String,
  string_eq, ◌==◌, inl, inr, arith, length, leb, All, Elem, map_some, Option-cases, Bool-cases,
  if◌then◌else◌, leb→le,
}
use bit_cord.Prelude.Map.{get, contains_key, get-insert, get-remove, get-empty}
use bit_cord.Dht.Routing.{NodeAddr}
use bit_cord.Peer.PeerManager.{
  PeerInfo, PeerManager, new, new_info, peer_connected, peer_disconnected, update_info,
  record_latency, set_relay_capable, Delta, up, down, adjust, adjust_reputation, min_by_reputation,
  evict_candidate,
}

-- The operations that change the manager.
pub data PeerOp : Type 0 where
  connect : ℕ → String → List NodeAddr → PeerOp
  disconnect : String → PeerOp
  latency : String → ℕ → PeerOp
  relay : String → Bool → PeerOp
  rate : String → Delta → PeerOp

unfoldable pub perform : PeerManager → PeerOp → PeerManager
perform pm (connect now id addresses) = peer_connected pm now id addresses
perform pm (disconnect id) = peer_disconnected pm id
perform pm (latency id t) = record_latency pm id t
perform pm (relay id capable) = set_relay_capable pm id capable
perform pm (rate id delta) = adjust_reputation pm id delta

unfoldable pub perform_all : PeerManager → List PeerOp → PeerManager
perform_all pm [] = pm
perform_all pm (op ∷ ops) = perform_all (perform pm op) ops

-- The reputation is in its range, where there is one.
abbrev pub Rated : Option PeerInfo → Type 0
Rated none = Unit
Rated (some info) = info.reputation ≤ 100

abbrev pub IsRated : PeerManager → Type 0
IsRated pm = (id : String) → Rated (get pm.peers id)

-- An update of one peer, at every peer.
pub get-update_info :
    (pm : PeerManager) (id j : String) (f : PeerInfo → PeerInfo)
    → get (update_info pm id f).peers j
      ≡ (if id == j then map_some f (get pm.peers j) else get pm.peers j)
unfolding update_info
get-update_info pm id j f = elim (Option-cases (get pm.peers id)) [
  | inl p ↦ ground (arith, p, string_eq.beq_iff id j)
  | inr (info, p) ↦ ground (arith, p, get-insert pm.peers id j (f info), string_eq.beq_iff id j)
]

Rated-update :
    (pm : PeerManager) (id : String) (f : PeerInfo → PeerInfo)
    → ((o : Option PeerInfo) → Rated o → Rated (map_some f o))
    → IsRated pm
    → IsRated (update_info pm id f)
Rated-update pm id f keeps h j = elim (Bool-cases (id == j)) [
  | inl t ↦ rw (get-update_info pm id j f, t) (keeps (get pm.peers j) (h j))
  | inr n ↦ rw (get-update_info pm id j f, n) (h j)
]

Rated-map :
    (f : PeerInfo → PeerInfo)
    → ((i : PeerInfo) → i.reputation ≤ 100 → (f i).reputation ≤ 100)
    → (o : Option PeerInfo) → Rated o
    → Rated (map_some f o)
Rated-map f h none r = tt
Rated-map f h (some i) r = h i r

adjust-le : (delta : Delta) (r : ℕ) → adjust delta r ≤ 100
adjust-le (up d) r = ground arith
adjust-le (down d) r = ground arith

IsRated-connected :
    (pm : PeerManager) (now : ℕ) (id : String) (addresses : List NodeAddr)
    → IsRated pm
    → IsRated (peer_connected pm now id addresses)
unfolding peer_connected
IsRated-connected pm now id addresses h j = elim (Bool-cases (contains_key pm.peers id)) [
  | inl t ↦ rw t (h j)
  | inr f ↦ elim (Bool-cases (id == j)) [
    | inl same ↦ rw (f, get-insert pm.peers id j (new_info now addresses), same) (omega arith)
    | inr other ↦ rw (f, get-insert pm.peers id j (new_info now addresses), other) (h j)
  ]
]

IsRated-disconnected :
    (pm : PeerManager) (id : String) → IsRated pm → IsRated (peer_disconnected pm id)
unfolding peer_disconnected
IsRated-disconnected pm id h j = elim (Bool-cases (id == j)) [
  | inl same ↦ rw (get-remove pm.peers id j, same) tt
  | inr other ↦ rw (get-remove pm.peers id j, other) (h j)
]

IsRated-perform : (pm : PeerManager) (op : PeerOp) → IsRated pm → IsRated (perform pm op)
unfolding perform record_latency set_relay_capable adjust_reputation
IsRated-perform pm (connect now id addresses) h = IsRated-connected pm now id addresses h
IsRated-perform pm (disconnect id) h = IsRated-disconnected pm id h
IsRated-perform pm (latency id t) h = Rated-update pm id _ (Rated-map _ (λ i r. r)) h
IsRated-perform pm (relay id capable) h = Rated-update pm id _ (Rated-map _ (λ i r. r)) h
IsRated-perform pm (rate id delta) h =
    Rated-update pm id _ (Rated-map _ (λ i r. adjust-le delta i.reputation)) h

IsRated-perform_all :
    (pm : PeerManager) (ops : List PeerOp) → IsRated pm → IsRated (perform_all pm ops)
unfolding perform_all
IsRated-perform_all pm [] h = h
IsRated-perform_all pm (op ∷ ops) h =
    IsRated-perform_all (perform pm op) ops (IsRated-perform pm op h)

-- Whatever operations a new manager performs, each peer's reputation is at most 100.
pub perform_all-IsRated : (limit : ℕ) (ops : List PeerOp) → IsRated (perform_all (new limit) ops)
perform_all-IsRated limit ops =
    IsRated-perform_all (new limit) ops (λ id. rw (get-empty {V = PeerInfo} id) tt)

-- A change of one peer's reputation adjusts that peer's, if it is connected, and no other's.
pub get-adjust_reputation :
    (pm : PeerManager) (id j : String) (delta : Delta)
    → get (adjust_reputation pm id delta).peers j ≡ (
        if id == j
        then map_some
            (λ (info : PeerInfo). record info { reputation = adjust delta info.reputation })
            (get pm.peers j)
        else get pm.peers j)
unfolding adjust_reputation
get-adjust_reputation pm id j delta = get-update_info pm id j _

-- The least of a list of entries.
abbrev pub Least : String × PeerInfo → List (String × PeerInfo) → Type 0
Least e es = All (λ (x : String × PeerInfo). e.1.reputation ≤ x.1.reputation) es

Least-le :
    (a b : String × PeerInfo) (es : List (String × PeerInfo))
    → a.1.reputation ≤ b.1.reputation
    → Least b es
    → Least a es
Least-le a b [] h l = tt
Least-le a b (e ∷ es) h l = (omega (arith, h, l.0), Least-le a b es h l.1)

min_by_reputation-Least :
    (best : String × PeerInfo) (es : List (String × PeerInfo))
    → Elem (min_by_reputation best es) (best ∷ es) × Least (min_by_reputation best es) (best ∷ es)
min_by_reputation-Least best [] = (inl refl, (omega arith, tt))
min_by_reputation-Least best (e ∷ es) = elim (Bool-cases (leb best.1.reputation e.1.reputation)) [
  | inl t ↦
      let (m, l) = min_by_reputation-Least best es in
      subst (λ x. Elem x (best ∷ e ∷ es) × Least x (best ∷ e ∷ es))
        (sym (ap (λ b. if b then min_by_reputation best es else min_by_reputation e es) t))
        (
          elim m [ inl p ↦ inl p | inr q ↦ inr (inr q) ],
          (l.0, (omega (arith, l.0, leb→le _ _ t), l.1)),
        )
  | inr f ↦
      let (m, l) = min_by_reputation-Least e es in
      subst (λ x. Elem x (best ∷ e ∷ es) × Least x (best ∷ e ∷ es))
        (sym (ap (λ b. if b then min_by_reputation best es else min_by_reputation e es) f))
        (inr m, (ground (arith, l.0, f), (l.0, l.1)))
]

-- Over the limit, the candidate for eviction is the id of a connected peer with the least reputation.
pub evict_candidate-Least :
    (pm : PeerManager)
    → pm.max_connections < length pm.peers
    → (e : String × PeerInfo) × (evict_candidate pm ≡ some e.0) × Elem e pm.peers × Least e pm.peers
unfolding evict_candidate
evict_candidate-Least pm over = go pm.peers refl
  where
    go :
        (ps : List (String × PeerInfo))
        → pm.peers ≡ ps
        → (e : String × PeerInfo) × (evict_candidate pm ≡ some e.0) × Elem e ps × Least e ps
    go [] p = absurd (ground (arith, over, p))
    go (x ∷ xs) p =
        let (m, l) = min_by_reputation-Least x xs in
        (min_by_reputation x xs, ground (arith, over, p), m, l)
