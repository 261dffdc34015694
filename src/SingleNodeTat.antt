-- ===== src/SingleNodeTat.antt =====
-- single_node_tat/src/node.rs: transactions on one node.
pub mod Answers
mod UnitTests
mod Tests
use glome_rs.Base.{
  List, Option, [], if◌then◌else◌, nat_eq, none, pair_eq, some, string_eq, ℕ, ◌==◌, ◌>>=◌, ◌∷◌,
}
use glome_rs.Collections.HashMap.{HashMap, get, insert}
use glome_rs.Maelstrom.Message.{Message, MessageBody, Op}
use glome_rs.Maelstrom.Node.{Node, handle_init, init_ok, next_msg_id, reply}
use glome_rs.Maelstrom.Handler.{Handled, MessageHandler}

pub record TatNode : Type 0 where
  pub entries : HashMap ℕ (Option ℕ)

abbrev pub new : TatNode
new = record { entries = [] }

-- `self.entries.get(&key).and_then(|v| *v)`
unfoldable pub read_entry : HashMap ℕ (Option ℕ) → ℕ → Option ℕ
read_entry entries key = get key entries >>= λ v. v

-- The body of the loop; `none` is the panic of `unreachable!`.
unfoldable pub process_op : TatNode → Op → Option (Op × TatNode)
unfolding read_entry
process_op s (op, key, opt_val) =
    if op == "r"
    then some (("r", key, read_entry s.entries key), s)
    else if op == "w"
    then some (("w", key, opt_val), record s { entries = insert key opt_val s.entries })
    else none

unfoldable pub process_txn : TatNode → List Op → Option (List Op × TatNode)
process_txn s [] = some ([], s)
process_txn s (op ∷ txn) = do
  (result, s') ← process_op s op
  (results, s'') ← process_txn s' txn
  some (result ∷ results, s'')

module _ {V : Type 0} where
  unfoldable pub handle_body : TatNode → Node → Message V → MessageBody V → Handled V TatNode
  unfolding init_ok handle_init next_msg_id reply
  handle_body s node message (MessageBody.init msg_id node_id node_ids) =
      let (response, node') = init_ok (handle_init node node_id node_ids) message.src msg_id in
      some (response ∷ [], s, node')
  handle_body s node message (MessageBody.txn msg_id txn) = do
    (results, s') ← process_txn s txn
    let (reply_msg_id, node') = next_msg_id node
    some (reply node' message.src (MessageBody.txn_ok reply_msg_id msg_id results) ∷ [], s', node')
  handle_body s node message _ = some ([], s, node)

  unfoldable pub handle : TatNode → Node → Message V → Handled V TatNode
  unfolding handle_body
  handle s node message = handle_body s node message message.body

  abbrev pub handler : MessageHandler V TatNode
  handler = record { handle = handle }
