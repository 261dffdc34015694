-- ===== src/GrowOnlyCounter/Gossip.antt =====
-- Rounds of gossip: what a peer is believed to know afterwards, and what is sent again.
use glome_rs.Base.{
  All, All-imp, List, String, [], arith, beq_refl, if◌then◌else◌, nat_eq, pair_eq, refl, some,
  string_eq, ℕ, ◌==◌, ◌∙◌, ◌∷◌, ◌≡◌, ◌≤◌,
}
use glome_rs.Collections.HashMap.{HashMap, get, get_or, IsMap, get-insert, get-or_insert}
use glome_rs.Maelstrom.Message.{Counter}
use glome_rs.Maelstrom.Node.{Node, next_msg_id}
use glome_rs.GrowOnlyCounter.{
  GrowOnlyCounterNode, collect_entry, collect, learn, gossip_peer, gossip_peers, gossip,
}
use glome_rs.GrowOnlyCounter.Delta.{collect-IsMap, get-collect, get_or-learn}

-- The known versions cover every counter.
abbrev pub Covers : HashMap String ℕ → HashMap String Counter → Type 0
Covers versions counters =
    (k : String) (c : Counter) → get k counters ≡ some c → c.version ≤ get_or 0 k versions

collect_covered :
    (versions : HashMap String ℕ) (delta counters : HashMap String Counter)
    → IsMap counters
    → Covers versions counters
    → collect versions delta counters ≡ delta
unfolding collect collect_entry get
collect_covered versions delta [] m h = refl
collect_covered versions delta ((k, c) ∷ counters) m h =
    ground
      (arith, h k c (ground (arith, beq_refl k)), collect_covered versions delta counters m.1 rest)
  where
    rest : Covers versions counters
    rest j d e = h j d (ground (arith, string_eq.beq_iff k j, m.0))

-- What the node believes that the peer knows.
abbrev pub believed : GrowOnlyCounterNode → String → HashMap String ℕ
believed s peer = get_or [] peer s.peer_known_versions

abbrev pub IsCovered : GrowOnlyCounterNode → String → Type 0
IsCovered s peer = Covers (believed s peer) s.kv.counters

learn-Covers :
    (versions : HashMap String ℕ) (counters : HashMap String Counter)
    → IsMap counters
    → Covers (learn versions (collect versions [] counters)) counters
learn-Covers versions counters m k c e = ground (
  arith,
  get_or-learn versions (collect versions [] counters) k (collect-IsMap versions [] counters tt),
  get-collect versions counters k m,
)

module _ (V : Type 0) where
  pub kv-gossip_peer :
      (s : GrowOnlyCounterNode) (node : Node) (peer : String)
      → (gossip_peer {V = V} s node peer).1.kv ≡ s.kv
  unfolding gossip_peer
  kv-gossip_peer s node peer = ground arith

  pub believed-gossip_peer :
      (s : GrowOnlyCounterNode) (node : Node) (peer q : String)
      → believed (gossip_peer {V = V} s node peer).1 q ≡ (
          if peer == q
          then learn (believed s q) (collect (believed s q) [] s.kv.counters)
          else believed s q)
  unfolding gossip_peer get_or learn
  believed-gossip_peer s node peer q = ground (
    arith,
    string_eq.beq_iff peer q,
    get-insert peer q (learn (believed s peer) (collect (believed s peer) [] s.kv.counters))
        s.peer_known_versions,
    get-or_insert peer q [] s.peer_known_versions,
  )

  gossip_peer_covered :
      (s : GrowOnlyCounterNode) (node : Node) (peer : String)
      → IsMap s.kv.counters
      → IsCovered s peer
      → (gossip_peer {V = V} s node peer).0 ≡ []
  unfolding gossip_peer
  gossip_peer_covered s node peer m h =
      ground (arith, collect_covered (believed s peer) [] s.kv.counters m h)

  -- A peer is covered after its own round, and stays so in the rounds of the others.
  gossip_peer_covers :
      (s : GrowOnlyCounterNode) (node : Node) (peer : String)
      → IsMap s.kv.counters
      → IsCovered (gossip_peer {V = V} s node peer).1 peer
  gossip_peer_covers s node peer m k c e = ground (
    arith,
    kv-gossip_peer s node peer,
    believed-gossip_peer s node peer peer,
    learn-Covers (believed s peer) s.kv.counters m k c,
    beq_refl peer,
  )

  gossip_peer-IsCovered :
      (s : GrowOnlyCounterNode) (node : Node) (peer q : String)
      → IsMap s.kv.counters
      → IsCovered s q
      → IsCovered (gossip_peer {V = V} s node peer).1 q
  gossip_peer-IsCovered s node peer q m h k c e = ground (
    arith,
    kv-gossip_peer s node peer,
    believed-gossip_peer s node peer q,
    learn-Covers (believed s q) s.kv.counters m k c,
    h k c,
  )

  pub kv-gossip_peers :
      (s : GrowOnlyCounterNode) (node : Node) (peers : List String)
      → (gossip_peers {V = V} s node peers).1.kv ≡ s.kv
  unfolding gossip_peers
  kv-gossip_peers s node [] = refl
  kv-gossip_peers s node (peer ∷ peers) =
      let (msgs, s', node') = gossip_peer {V = V} s node peer in
      kv-gossip_peers s' node' peers ∙ kv-gossip_peer s node peer

  gossip_peers-IsCovered :
      (s : GrowOnlyCounterNode) (node : Node) (peers : List String) (q : String)
      → IsMap s.kv.counters
      → IsCovered s q
      → IsCovered (gossip_peers {V = V} s node peers).1 q
  unfolding gossip_peers
  gossip_peers-IsCovered s node [] q m h = h
  gossip_peers-IsCovered s node (peer ∷ peers) q m h =
      gossip_peers-IsCovered (gossip_peer {V = V} s node peer).1 (gossip_peer {V = V} s node peer).2
        peers q (rw (kv-gossip_peer s node peer) m) (gossip_peer-IsCovered s node peer q m h)

  pub gossip_peers_cover :
      (s : GrowOnlyCounterNode) (node : Node) (peers : List String)
      → IsMap s.kv.counters
      → All (IsCovered (gossip_peers {V = V} s node peers).1) peers
  unfolding gossip_peers
  gossip_peers_cover s node [] m = tt
  gossip_peers_cover s node (peer ∷ peers) m =
      let s' = (gossip_peer {V = V} s node peer).1 in
      let node' = (gossip_peer {V = V} s node peer).2 in
      let m' : IsMap s'.kv.counters = rw (kv-gossip_peer s node peer) m in
      (
        gossip_peers-IsCovered s' node' peers peer m' (gossip_peer_covers s node peer m),
        gossip_peers_cover s' node' peers m',
      )

  gossip_peers_covered :
      (s : GrowOnlyCounterNode) (node : Node) (peers : List String)
      → IsMap s.kv.counters
      → All (IsCovered s) peers
      → (gossip_peers {V = V} s node peers).0 ≡ []
  unfolding gossip_peers
  gossip_peers_covered s node [] m h = refl
  gossip_peers_covered s node (peer ∷ peers) m h =
      let s' = (gossip_peer {V = V} s node peer).1 in
      let node' = (gossip_peer {V = V} s node peer).2 in
      ground (
        arith,
        gossip_peer_covered s node peer m h.0,
        gossip_peers_covered s' node' peers (rw (kv-gossip_peer s node peer) m)
            (All-imp (λ q. gossip_peer-IsCovered s node peer q m) peers h.1),
      )

  pub peers-gossip_peers :
      (s : GrowOnlyCounterNode) (node : Node) (peers : List String)
      → (gossip_peers {V = V} s node peers).2.peers ≡ node.peers
  unfolding gossip_peers gossip_peer next_msg_id
  peers-gossip_peers s node [] = refl
  peers-gossip_peers s node (peer ∷ peers) =
      let s' = (gossip_peer {V = V} s node peer).1 in
      let node' = (gossip_peer {V = V} s node peer).2 in
      peers-gossip_peers s' node' peers ∙ ground arith

  -- A node that gossips twice, with nothing in between, sends nothing the second time, if each key
  -- stands once in its counters: what it has sent once it takes for received.
  pub gossip_again :
      (s : GrowOnlyCounterNode) (node : Node)
      → IsMap s.kv.counters
      → (gossip {V = V} (gossip {V = V} s node).1 (gossip {V = V} s node).2).0 ≡ []
  unfolding gossip
  gossip_again s node m = ground (
    arith,
    peers-gossip_peers s node node.peers,
    gossip_peers_covered (gossip_peers {V = V} s node node.peers).1
        (gossip_peers {V = V} s node node.peers).2 node.peers
        (rw (kv-gossip_peers s node node.peers) m) (gossip_peers_cover s node node.peers m),
  )
