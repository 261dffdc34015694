-- ===== src/MultiNodeBroadcast/Cluster/Finds.antt =====
-- The messages of a round of gossip, each found among those that are sent.
use glome_rs.Base.{
  Bool-cases, List, Stands, String, [], arith, back-Stands, false, front-Stands, inl, inr, is_empty,
  nat_eq, pair_eq, refl, string_eq, subst, sym, true, ℕ, ◌==◌, ◌∷◌, ◌≡◌,
}
use glome_rs.Collections.HashSet.{HashSet, contains}
use glome_rs.Maelstrom.Message.{Message, MessageBody}
use glome_rs.Maelstrom.Node.{Node, next_msg_id}
use glome_rs.MultiNodeBroadcast.{MultiNodeBroadcastNode, delta_for, gossip_peer, gossip_all, gossip}
use glome_rs.MultiNodeBroadcast.Main.{gossip_peer-Sends}
use glome_rs.MultiNodeBroadcast.Delta.{believed, gossip_peer_lem}

module _ (V : Type 0) where
  -- The gossip to a peer stands among the messages.
  abbrev pub Finds : List (Message V) → String → String → List ℕ → Type 0
  Finds out src peer delta =
      (n : ℕ) × Stands out
        (record { src = src; dest = peer; body = MessageBody.broadcast_gossip n delta })

  gossip_peer-Finds :
      (s : MultiNodeBroadcastNode) (node : Node) (peer : String)
      → is_empty (delta_for s.messages (believed s peer)) ≡ false
      → Finds
          (gossip_peer {V = V} s node peer).0
          node.id
          peer
          (delta_for s.messages (believed s peer))
  unfolding gossip_peer next_msg_id
  gossip_peer-Finds s node peer some_new = ((next_msg_id node).0, (0, rw some_new refl))

  gossip_all-Finds :
      (s : MultiNodeBroadcastNode) (node : Node) (peer : String) (peers : List String)
      (delta : List ℕ)
      → contains peer peers ≡ true
      → delta_for s.messages (believed s peer) ≡ delta
      → is_empty delta ≡ false
      → Finds (gossip_all {V = V} s node peers).0 node.id peer delta
  unfolding gossip_all contains
  gossip_all-Finds s node peer [] delta h e some_new = absurd (ground arith)
  gossip_all-Finds s node peer (p ∷ peers) delta h e some_new =
      let (msgs, s', node') = gossip_peer {V = V} s node p in
      let rest = (gossip_all {V = V} s' node' peers).0 in
      elim (Bool-cases (p == peer)) [
        | inl here ↦
            let (n, found) : Finds msgs node.id peer delta =
              subst (λ q. Finds (gossip_peer {V = V} s node q).0 node.id peer delta)
                (sym ((string_eq.beq_iff p peer).0 here))
                (subst (λ d. Finds (gossip_peer {V = V} s node peer).0 node.id peer d) e
                  (gossip_peer-Finds s node peer (rw e some_new))) in
            (n, front-Stands msgs rest _ found)
        | inr there ↦
            let alike = (gossip_peer_lem V s node p).1 in
            let (n, found) : Finds rest node.id peer delta =
              subst (λ i. Finds rest i peer delta) (gossip_peer-Sends V s node p).2
                (gossip_all-Finds s' node' peer peers delta (ground arith)
                  (rw (alike.messages, alike.beliefs peer) e) some_new) in
            (n, back-Stands msgs rest _ found)
      ]

  pub gossip-Finds :
      (s : MultiNodeBroadcastNode) (node : Node) (peer : String)
      → (node.id == "") ≡ false
      → contains peer s.gossip_peers ≡ true
      → is_empty (delta_for s.messages (believed s peer)) ≡ false
      → Finds (gossip {V = V} s node).0 node.id peer (delta_for s.messages (believed s peer))
  unfolding gossip
  gossip-Finds s node peer named near some_new =
      let has_peer : is_empty s.gossip_peers ≡ false = filled peer s.gossip_peers near in
      let has_values : is_empty s.messages ≡ false = values s.messages (believed s peer) some_new in
      rw (named, has_peer, has_values)
        (gossip_all-Finds s node peer s.gossip_peers (delta_for s.messages (believed s peer)) near
          refl some_new)
    where
      filled : (p : String) (xs : List String) → contains p xs ≡ true → is_empty xs ≡ false
      filled p [] h = unfold contains in ground arith
      filled p (x ∷ xs) h = refl

      values : (xs seen : HashSet ℕ) → is_empty (delta_for xs seen) ≡ false → is_empty xs ≡ false
      values [] seen h = unfold delta_for in h
      values (x ∷ xs) seen h = refl
