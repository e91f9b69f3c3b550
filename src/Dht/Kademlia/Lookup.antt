-- ===== src/Dht/Kademlia/Lookup.antt =====
-- `kademlia_lookup`: how many nodes it asks, and what it answers and stores.
use bit_cord.Prelude.{
  ℕ, zero, suc, ◌+◌, ◌*◌, ◌≤◌, ◌≡◌, refl, ◌∙◌, ap, sym, subst, not, Bytes, List, [], ◌∷◌, Option,
  none, some, arith, inl, inr, length, take, length-append, length-take, length-keep-le, All, Elem,
  All-append, Elem-append_right, Bool-cases, nat_eq, list_eq,
}
use bit_cord.Prelude.Map.{Map, insert}
use bit_cord.Dht.NodeId.{NodeId}
use bit_cord.Dht.Routing.{
  NodeAddr, DhtState, MailboxRecord, mailbox_ttl, add_peer, add_mailbox_record,
}
use bit_cord.Dht.Kademlia.{
  Peer, FindNode, Walk, alpha, max_rounds, start, batch, is_visited, ask_batch, absorb_one, absorb,
  reorder, is_empty, read_answers, lookup_rounds, kademlia_lookup, mailbox_of, after_answer,
  next_round,
}

add_peer-mailboxes :
    (s : DhtState) (id : NodeId) (addr : NodeAddr) → (add_peer s id addr).mailboxes ≡ s.mailboxes
unfolding add_peer
add_peer-mailboxes s id addr = ground arith

absorb_one-keeps :
    (w : Walk) (p : Peer)
    → ((absorb_one w p).found ≡ w.found) × ((absorb_one w p).state.mailboxes ≡ w.state.mailboxes)
unfolding absorb_one
absorb_one-keeps w (id, addr) = (ground arith, ground (arith, add_peer-mailboxes w.state id addr))

absorb-keeps :
    (w : Walk) (ps : List Peer)
    → ((absorb w ps).found ≡ w.found) × ((absorb w ps).state.mailboxes ≡ w.state.mailboxes)
unfolding absorb
absorb-keeps w [] = (refl, refl)
absorb-keeps w (p ∷ ps) =
    let (f, m) = absorb-keeps (absorb_one w p) ps in
    let (g, n) = absorb_one-keeps w p in (f ∙ g, m ∙ n)

length-batch : (w : Walk) → length (batch w) ≤ 3
length-batch w =
    let kept = length-keep-le (λ (p : Peer). not (is_visited w p.0)) (take alpha w.to_visit) in
    omega (arith, kept, length-take alpha w.to_visit)

module _ (find_node : FindNode) (target : NodeId) (now : ℕ) where
  -- The mailbox that a node would answer with.
  abbrev pub mailbox_at : Peer → Option NodeAddr
  mailbox_at p = mailbox_of (find_node p.1)

  abbrev pub Silent : List Peer → Type 0
  Silent ps = All (λ (p : Peer). mailbox_at p ≡ none) ps

  -- What an answer says of the nodes that were asked and of the mailboxes before and after: without
  -- an address no node answered with a mailbox, and the mailboxes are as before; with one, a node
  -- did, and it is stored for the target.
  abbrev pub Answers :
      List Peer → Map Bytes MailboxRecord → Map Bytes MailboxRecord → Option NodeAddr → Type 0
  Answers asked before after none = Silent asked × (after ≡ before)
  Answers asked before after (some addr) =
      ((p : Peer) × Elem p asked × (mailbox_at p ≡ some addr))
      × (after ≡ insert before target (record { addr = addr; expires_at = now + mailbox_ttl }))

  Answers-cons :
      (p : Peer) (ps : List Peer) (before after : Map Bytes MailboxRecord) (r : Option NodeAddr)
      → mailbox_at p ≡ none
      → Answers ps before after r
      → Answers (p ∷ ps) before after r
  Answers-cons p ps before after none h (silent, same) = ((h, silent), same)
  Answers-cons p ps before after (some addr) h ((q, m, e), stored) = ((q, inr m, e), stored)

  Answers-from :
      (before before' after : Map Bytes MailboxRecord) (ps : List Peer) (r : Option NodeAddr)
      → before ≡ before'
      → Answers ps before after r
      → Answers ps before' after r
  Answers-from before before' after ps r e h = subst (λ b. Answers ps b after r) e h

  -- The nodes that were asked before `w`, and the answers from `w` on.
  Reads : List Peer → Walk → Walk × Option NodeAddr → Type 0
  Reads ps w out =
      (out.0.found ≡ w.found) × Answers ps w.state.mailboxes out.0.state.mailboxes out.1

  after_answer-Reads :
      (w : Walk) (p : Peer) (ps : List Peer) (rest : Walk → Walk × Option NodeAddr)
      (o : Option (List Peer × Option NodeAddr))
      → mailbox_at p ≡ mailbox_of o
      → ((w' : Walk) → Reads ps w' (rest w'))
      → Reads (p ∷ ps) w (after_answer find_node target now w rest o)
  unfolding Reads add_mailbox_record
  after_answer-Reads w p ps rest none e ih = let (f, a) = ih w in (f, Answers-cons p ps _ _ _ e a)
  after_answer-Reads w p ps rest (some (closer_peers, none)) e ih =
      let (f, a) = ih (absorb w closer_peers) in
      let (g, m) = absorb-keeps w closer_peers in
      (f ∙ g, Answers-cons p ps _ _ _ e (Answers-from _ _ _ ps _ m a))
  after_answer-Reads w p ps rest (some (closer_peers, some addr)) e ih =
      (refl, ((p, inl refl, e), refl))

  read_answers-Reads :
      (w : Walk) (ps : List Peer) → Reads ps w (read_answers find_node target now w ps)
  unfolding read_answers Reads
  read_answers-Reads w [] = (refl, (tt, refl))
  read_answers-Reads w (p ∷ ps) =
      after_answer-Reads w p ps (λ w'. read_answers find_node target now w' ps) (find_node p.1) refl
        (λ w'. read_answers-Reads w' ps)

  -- At most `n` rounds of three: the number of nodes asked, and what the answer says of them all.
  Asks : ℕ → Walk → Walk × Option NodeAddr → Type 0
  Asks n w out =
      (length out.0.found ≤ length w.found + 3 * n)
      × Answers out.0.found w.state.mailboxes out.0.state.mailboxes out.1

  next_round-Asks :
      (n : ℕ) (w : Walk) (again : Walk → Walk × Option NodeAddr) (out : Walk × Option NodeAddr)
      → Silent w.found
      → Reads (batch w) (ask_batch w) out
      → ((w' : Walk) → Silent w'.found → Asks n w' (again w'))
      → Asks (suc n) w (next_round find_node target now again out)
  unfolding Reads Asks
  next_round-Asks n w again (w', some addr) silent (f, ((p, m, e), stored)) ih = (
    omega (arith, ap length f, length-append w.found (batch w), length-batch w),
    ((p, subst (Elem p) (sym f) (Elem-append_right p w.found (batch w) m), e), stored),
  )
  next_round-Asks n w again (w', none) silent (f, (quiet, same)) ih =
      let asked = All-append (λ (p : Peer). mailbox_at p ≡ none) w.found (batch w) silent quiet in
      let (le, a) = ih (reorder target w') (subst Silent (sym f) asked) in
      (
        omega (arith, le, ap length f, length-append w.found (batch w), length-batch w),
        Answers-from _ _ _ _ _ same a,
      )

  lookup_rounds-Asks :
      (n : ℕ) (w : Walk) → Silent w.found → Asks n w (lookup_rounds find_node target now n w)
  unfolding lookup_rounds Asks
  lookup_rounds-Asks zero w silent = (omega arith, (silent, refl))
  lookup_rounds-Asks (suc n) w silent = elim (Bool-cases (is_empty (batch w))) [
    | inl t ↦ rw t (omega arith, (silent, refl))
    | inr more ↦ rw more (
        next_round-Asks n w (lookup_rounds find_node target now n) _ silent
          (read_answers-Reads (ask_batch w) (batch w)) (lookup_rounds-Asks n))
  ]

  -- A lookup asks at most 24 nodes. If it returns an address, a node that it asked named it, and the
  -- mailboxes afterwards are those before with that address for the target, with the mailbox TTL; if
  -- it returns none, no node that it asked named a mailbox, and the mailboxes are as before.
  pub kademlia_lookup-Answers :
      (s : DhtState)
      → let out = kademlia_lookup find_node target now s in
        (length out.0.found ≤ 24) × Answers out.0.found s.mailboxes out.0.state.mailboxes out.1
  unfolding kademlia_lookup Asks
  kademlia_lookup-Answers s = lookup_rounds-Asks max_rounds (start s target) tt
