-- ===== src/Maelstrom/Node.antt =====
-- maelstrom/src/node.rs: the base node. A method returns its result and the node that it leaves.
use glome_rs.Base.{ℕ, String, not, List, [], ◌==◌, string_eq, add64, retain}
use glome_rs.Maelstrom.Message.{Message, MessageBody}

pub record Node : Type 0 where
  pub id : String
  pub peers : List String
  pub msg_id : ℕ

abbrev pub new : Node
new = record { id = ""; peers = []; msg_id = 0 }

unfoldable pub handle_init : Node → String → List String → Node
handle_init node node_id node_ids = record node {
  id = node_id;
  peers = retain (λ p. not (p == node_id)) node_ids;
}

unfoldable pub next_msg_id : Node → ℕ × Node
next_msg_id node = let n = add64 node.msg_id 1 in (n, record node { msg_id = n })

module _ {V : Type 0} where
  unfoldable pub init_ok : Node → String → ℕ → Message V × Node
  unfolding next_msg_id
  init_ok node dest in_reply_to =
      let (n, node') = next_msg_id node in
      (record { src = node.id; dest = dest; body = MessageBody.init_ok n in_reply_to }, node')

  unfoldable pub reply : Node → String → MessageBody V → Message V
  reply node dest body = record { src = node.id; dest = dest; body = body }
