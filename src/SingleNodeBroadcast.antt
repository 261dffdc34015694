-- ===== src/SingleNodeBroadcast.antt =====
-- single_node_broadcast/src/node.rs: the broadcast service on one node.
pub mod Messages
mod UnitTests
mod Tests
use glome_rs.Base.{
  List, String, [], false, if◌then◌else◌, nat_eq, none, pair_eq, some, string_eq, true, ℕ, ◌++◌,
  ◌==◌, ◌∷◌,
}
use glome_rs.Collections.HashSet.{HashSet, insert, is_new}
use glome_rs.Maelstrom.Message.{Message, MessageBody}
use glome_rs.Maelstrom.Node.{Node, handle_init, init_ok, next_msg_id, reply}
use glome_rs.Maelstrom.Handler.{Handled, MessageHandler}

pub record SingleNodeBroadcastNode : Type 0 where
  pub messages : List ℕ
  pub seen : HashSet ℕ

abbrev pub new : SingleNodeBroadcastNode
new = record { messages = []; seen = [] }

-- `if self.seen.insert(message) { self.messages.push(message) }`
unfoldable pub store : SingleNodeBroadcastNode → ℕ → SingleNodeBroadcastNode
store s message =
    if is_new message s.seen
    then record { messages = s.messages ++ message ∷ []; seen = insert message s.seen }
    else s

unfoldable pub handle_read : SingleNodeBroadcastNode → List ℕ
handle_read s = s.messages

module _ {V : Type 0} where
  -- The loop over the peers.
  unfoldable pub forward : Node → ℕ → List String → List (Message V) × Node
  unfolding next_msg_id
  forward node message [] = ([], node)
  forward node message (peer ∷ peers) = elim (peer == node.id) [
    | true ↦ forward node message peers
    | false ↦
        let (n, node') = next_msg_id node in
        let (rest, node'') = forward node' message peers in
        (
          record { src = node.id; dest = peer; body = MessageBody.broadcast n message } ∷ rest,
          node'',
        )
  ]

  unfoldable pub handle_broadcast :
      SingleNodeBroadcastNode → Node → ℕ → List (Message V) × SingleNodeBroadcastNode × Node
  unfolding store
  handle_broadcast s node message =
      let (out, node') = forward node message node.peers in (out, store s message, node')

  unfoldable pub handle_body :
      SingleNodeBroadcastNode → Node → Message V → MessageBody V → Handled V SingleNodeBroadcastNode
  unfolding init_ok handle_init next_msg_id reply handle_read
  handle_body s node msg (MessageBody.init msg_id node_id node_ids) =
      let (response, node') = init_ok (handle_init node node_id node_ids) msg.src msg_id in
      some (response ∷ [], s, node')
  handle_body s node msg (MessageBody.topology msg_id _) =
      let (reply_msg_id, node') = next_msg_id node in
      some (reply node' msg.src (MessageBody.topology_ok reply_msg_id msg_id) ∷ [], s, node')
  handle_body s node msg (MessageBody.broadcast msg_id message) =
      let (broadcasts, s', node') = handle_broadcast s node message in
      let (reply_msg_id, node'') = next_msg_id node' in
      some (
        broadcasts ++ reply node'' msg.src (MessageBody.broadcast_ok reply_msg_id msg_id) ∷ [],
        s',
        node'',
      )
  handle_body s node msg (MessageBody.read msg_id) =
      let messages = handle_read s in
      let (reply_msg_id, node') = next_msg_id node in
      some (
        reply node' msg.src (MessageBody.read_ok reply_msg_id msg_id (some messages) none) ∷ [],
        s,
        node',
      )
  handle_body s node msg _ = some ([], s, node)

  unfoldable pub handle :
      SingleNodeBroadcastNode → Node → Message V → Handled V SingleNodeBroadcastNode
  unfolding handle_body
  handle s node msg = handle_body s node msg msg.body

  abbrev pub handler : MessageHandler V SingleNodeBroadcastNode
  handler = record { handle = handle }
