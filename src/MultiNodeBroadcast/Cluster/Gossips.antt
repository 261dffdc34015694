-- ===== src/MultiNodeBroadcast/Cluster/Gossips.antt =====
-- What a round of gossip sends, and what a received gossip leaves.
use glome_rs.Base.{
  All, All-append, Bool-cases, List, String, [], arith, inl, inr, is_empty, nat_eq, pair_eq, refl,
  string_eq, ℕ, ◌&&◌, ◌==◌, ◌||◌, ◌∷◌, ◌≡◌,
}
use glome_rs.Collections.HashMap.{get_or, get-insert}
use glome_rs.Collections.HashSet.{contains}
use glome_rs.Maelstrom.Node.{Node, next_msg_id}
use glome_rs.MultiNodeBroadcast.{
  MultiNodeBroadcastNode, delta_for, gossip_peer, gossip_all, gossip, insert_all,
  handle_broadcast_gossip_from,
}
use glome_rs.MultiNodeBroadcast.Main.{gossip_all-Sends}
use glome_rs.MultiNodeBroadcast.Messages.{contains-insert_all}
use glome_rs.MultiNodeBroadcast.Delta.{believed, Alike, delta_for_bounds, gossip_all_lem}
use glome_rs.MultiNodeBroadcast.Cluster.Invariant.{IsIn, Carries}

module _ (V : Type 0) (state : String → MultiNodeBroadcastNode) where
  gossip_peer-Carries :
      (s : MultiNodeBroadcastNode) (node : Node) (peer : String)
      → IsIn s.messages (state node.id).messages
      → let r = gossip_peer {V = V} s node peer in
        All (λ o. Carries state o.src o.body) r.0 × (r.1.messages ≡ s.messages) × (r.2.id ≡ node.id)
  unfolding gossip_peer next_msg_id
  gossip_peer-Carries s node peer h =
      let delta = delta_for s.messages (believed s peer) in
      elim (Bool-cases (is_empty delta)) [
        | inl none_new ↦ rw none_new (tt, refl, refl)
        | inr some_new ↦
            rw some_new
              ((λ m e. h m (delta_for_bounds s.messages (believed s peer) m e).1, tt), refl, refl)
      ]

  gossip_all-Carries :
      (s : MultiNodeBroadcastNode) (node : Node) (peers : List String)
      → IsIn s.messages (state node.id).messages
      → All (λ o. Carries state o.src o.body) (gossip_all {V = V} s node peers).0
  unfolding gossip_all
  gossip_all-Carries s node [] h = tt
  gossip_all-Carries s node (peer ∷ peers) h =
      let (msgs, s', node') = gossip_peer {V = V} s node peer in
      let (first, same, name) = gossip_peer-Carries s node peer h in
      All-append _ msgs (gossip_all {V = V} s' node' peers).0 first
        (gossip_all-Carries s' node' peers (rw (same, name) h))

  pub gossip-Carries :
      (s : MultiNodeBroadcastNode) (node : Node)
      → IsIn s.messages (state node.id).messages
      → All (λ o. Carries state o.src o.body) (gossip {V = V} s node).0
        × Alike s (gossip {V = V} s node).1
        × ((gossip {V = V} s node).2.id ≡ node.id)
  unfolding gossip
  gossip-Carries s node h =
      elim (Bool-cases (node.id == "" || is_empty s.gossip_peers || is_empty s.messages)) [
        | inl idle ↦
            rw idle (tt, record { messages = refl; gossip_peers = refl; beliefs = λ p. refl }, refl)
        | inr busy ↦ rw busy (
          gossip_all-Carries s node s.gossip_peers h,
          (gossip_all_lem V s node s.gossip_peers).1,
          (gossip_all-Sends V s node s.gossip_peers).2,
        )
      ]

pub believed_after :
    (s : MultiNodeBroadcastNode) (src : String) (values : List ℕ) (peer : String) (m : ℕ)
    → contains m (believed (handle_broadcast_gossip_from s src values) peer)
      ≡ (src == peer && contains m values || contains m (believed s peer))
unfolding handle_broadcast_gossip_from get_or
believed_after s src values peer m = ground (
  arith,
  get-insert src peer (insert_all (get_or [] src s.peer_seen) values) s.peer_seen,
  string_eq.beq_iff src peer,
  contains-insert_all (get_or [] src s.peer_seen) values m,
)
