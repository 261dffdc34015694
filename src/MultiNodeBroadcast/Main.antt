-- ===== src/MultiNodeBroadcast/Main.antt =====
-- multi_node_broadcast/src/main.rs: the broadcast node behind its timer.
use glome_rs.Base.{List, Option, String, [], arith, refl, some, ℕ, ◌∷◌}
use glome_rs.Maelstrom.Message.{Message}
use glome_rs.Maelstrom.Node.{Node, next_msg_id}
use glome_rs.Maelstrom.Handler.{Ending}
use glome_rs.Maelstrom.Handler.Numbering.{Sends, Sends-append, Sends-Sound, Sound}
use glome_rs.Maelstrom.Events.{Gossiper, Input, run}
use glome_rs.Maelstrom.Events.Numbering.{IsNumbered}
use glome_rs.MultiNodeBroadcast
use glome_rs.MultiNodeBroadcast.{
  MultiNodeBroadcastNode, gossip_peer, gossip_all, gossip, handle_read, handler, handle,
}
use glome_rs.MultiNodeBroadcast.Messages.{handler-IsSound}

module _ {V : Type 0} (shuffle : List String → List String) where
  abbrev pub gossiper : Gossiper V MultiNodeBroadcastNode
  gossiper = record { handler = handler shuffle; gossip = gossip }

  unfoldable pub main :
      (String → Option (Message V))
      → (Message V → Option (List ℕ))
      → List Input
      → List (List ℕ) × Ending MultiNodeBroadcastNode
  unfolding run
  main from_str to_vec inputs = run from_str to_vec gossiper MultiNodeBroadcast.new inputs

module _ (V : Type 0) where
  pub gossip_peer-Sends :
      (s : MultiNodeBroadcastNode) (node : Node) (peer : String)
      → Sends node (gossip_peer {V = V} s node peer)
  unfolding gossip_peer next_msg_id
  gossip_peer-Sends s node peer = ground arith

  pub gossip_all-Sends :
      (s : MultiNodeBroadcastNode) (node : Node) (peers : List String)
      → Sends node (gossip_all {V = V} s node peers)
  unfolding gossip_all
  gossip_all-Sends s node [] = (refl, tt, refl)
  gossip_all-Sends s node (peer ∷ peers) =
      let (msgs, s', node') = gossip_peer {V = V} s node peer in
      Sends-append node (msgs, s', node') (gossip_all s' node' peers)
        (gossip_peer-Sends s node peer) (gossip_all-Sends s' node' peers)

  gossip-Sound :
      (s : MultiNodeBroadcastNode) (node : Node) → Sound node (some (gossip {V = V} s node))
  unfolding gossip
  gossip-Sound s node = ground (
    arith,
    Sends-Sound node (gossip_all {V = V} s node s.gossip_peers)
        (gossip_all-Sends s node s.gossip_peers),
  )

  pub gossiper-IsNumbered :
      (shuffle : List String → List String) → IsNumbered (gossiper {V = V} shuffle)
  gossiper-IsNumbered shuffle = record {
    responses = handler-IsSound V shuffle;
    gossips = gossip-Sound;
  }
