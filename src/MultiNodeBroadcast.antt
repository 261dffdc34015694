-- ===== src/MultiNodeBroadcast.antt =====
-- multi_node_broadcast/src/node.rs: broadcast by gossip. `shuffle` is `SliceRandom::shuffle` with
-- the random numbers that it draws.
pub mod Neighbours
pub mod Delta
pub mod Messages
pub mod Main
pub mod Served
pub mod Cluster
mod UnitTests
mod Tests
use glome_rs.Base.{
  List, String, [], if◌then◌else◌, is_empty, length, min, nat_eq, none, not, pair_eq, retain, some,
  string_eq, take, ℕ, ◌++◌, ◌==◌, ◌||◌, ◌∷◌,
}
use glome_rs.Collections.HashMap.{HashMap, get_or, or_insert}
use glome_rs.Collections.HashMap
use glome_rs.Collections.HashSet.{HashSet, contains, insert}
use glome_rs.Maelstrom.Message.{Message, MessageBody}
use glome_rs.Maelstrom.Node.{Node, handle_init, init_ok, next_msg_id, reply}
use glome_rs.Maelstrom.Handler.{Handled, MessageHandler}

pub record MultiNodeBroadcastNode : Type 0 where
  pub messages : HashSet ℕ
  pub gossip_peers : List String
  pub peer_seen : HashMap String (HashSet ℕ)

abbrev pub new : MultiNodeBroadcastNode
new = record { messages = []; gossip_peers = []; peer_seen = [] }

unfoldable pub construct_k_regular_neighbors : (List String → List String) → Node → ℕ → List String
construct_k_regular_neighbors shuffle node k =
    let other_nodes = shuffle (retain (λ peer. not (peer == node.id)) node.peers) in
    take (min k (length other_nodes)) other_nodes

-- `self.messages.iter().copied().filter(…).take(1024).collect()`
unfoldable pub delta_for : HashSet ℕ → HashSet ℕ → List ℕ
delta_for messages seen = take 1024 (retain (λ m. not (contains m seen)) messages)

module _ {V : Type 0} where
  -- One round of the loop over the gossip peers.
  unfoldable pub gossip_peer :
      MultiNodeBroadcastNode → Node → String → List (Message V) × MultiNodeBroadcastNode × Node
  unfolding next_msg_id delta_for
  gossip_peer s node peer =
      let seen = get_or [] peer s.peer_seen in
      let s' = record s { peer_seen = or_insert peer [] s.peer_seen } in
      let delta = delta_for s.messages seen in
      if is_empty delta then ([], s', node) else (
        record {
          src = node.id;
          dest = peer;
          body = MessageBody.broadcast_gossip (next_msg_id node).0 delta;
        }
            ∷ [],
        s',
        (next_msg_id node).1,
      )

  unfoldable pub gossip_all :
      MultiNodeBroadcastNode → Node → List String → List (Message V) × MultiNodeBroadcastNode × Node
  gossip_all s node [] = ([], s, node)
  gossip_all s node (peer ∷ peers) =
      let (msgs, s', node') = gossip_peer s node peer in
      let (rest, s'', node'') = gossip_all s' node' peers in (msgs ++ rest, s'', node'')

  unfoldable pub gossip :
      MultiNodeBroadcastNode → Node → List (Message V) × MultiNodeBroadcastNode × Node
  gossip s node =
      if node.id == "" || is_empty s.gossip_peers || is_empty s.messages
      then ([], s, node)
      else gossip_all s node s.gossip_peers

-- The loop of `handle_broadcast_gossip_from` over the messages.
unfoldable pub insert_all : HashSet ℕ → List ℕ → HashSet ℕ
insert_all set [] = set
insert_all set (message ∷ messages) = insert_all (insert message set) messages

unfoldable pub handle_broadcast_gossip_from :
    MultiNodeBroadcastNode → String → List ℕ → MultiNodeBroadcastNode
unfolding insert_all
handle_broadcast_gossip_from s peer messages = record s {
  messages = insert_all s.messages messages;
  peer_seen = HashMap.insert peer (insert_all (get_or [] peer s.peer_seen) messages) s.peer_seen;
}

unfoldable pub handle_broadcast : MultiNodeBroadcastNode → ℕ → MultiNodeBroadcastNode
handle_broadcast s message = record s { messages = insert message s.messages }

unfoldable pub handle_read : MultiNodeBroadcastNode → List ℕ
handle_read s = s.messages

module _ {V : Type 0} (shuffle : List String → List String) where
  unfoldable pub handle_body :
      MultiNodeBroadcastNode → Node → Message V → MessageBody V → Handled V MultiNodeBroadcastNode
  unfolding init_ok handle_init next_msg_id reply
  handle_body s node msg (MessageBody.init msg_id node_id node_ids) =
      let node' = handle_init node node_id node_ids in
      let s' = record s { gossip_peers = construct_k_regular_neighbors shuffle node' 4 } in
      let (response, node'') = init_ok node' msg.src msg_id in some (response ∷ [], s', node'')
  handle_body s node msg (MessageBody.topology msg_id _) =
      let (reply_msg_id, node') = next_msg_id node in
      some (reply node' msg.src (MessageBody.topology_ok reply_msg_id msg_id) ∷ [], s, node')
  handle_body s node msg (MessageBody.broadcast msg_id message) =
      let s' = handle_broadcast s message in
      let (reply_msg_id, node') = next_msg_id node in
      some (reply node' msg.src (MessageBody.broadcast_ok reply_msg_id msg_id) ∷ [], s', node')
  handle_body s node msg (MessageBody.broadcast_gossip _ messages) =
      some ([], handle_broadcast_gossip_from s msg.src messages, node)
  handle_body s node msg (MessageBody.read msg_id) =
      let messages = handle_read s in
      let (reply_msg_id, node') = next_msg_id node in
      some (
        reply node' msg.src (MessageBody.read_ok reply_msg_id msg_id (some messages) none) ∷ [],
        s,
        node',
      )
  handle_body s node msg _ = some ([], s, node)

  unfoldable pub handle :
      MultiNodeBroadcastNode → Node → Message V → Handled V MultiNodeBroadcastNode
  unfolding handle_body
  handle s node msg = handle_body s node msg msg.body

  abbrev pub handler : MessageHandler V MultiNodeBroadcastNode
  handler = record { handle = handle }
