-- ===== src/SingleNodeKafka.antt =====
-- single_node_kafka/src/node.rs: the append-only logs on one node.
pub mod Sends
pub mod Retries
mod UnitTests
mod Tests
use glome_rs.Base.{String, [], nat_eq, none, pair_eq, some, string_eq, ℕ, ◌∷◌}
use glome_rs.Collections.HashMap.{HashMap, get, insert}
use glome_rs.Maelstrom.SimpleLog
use glome_rs.Maelstrom.SimpleLog.{Logs}
use glome_rs.Maelstrom.Message.{Message, MessageBody}
use glome_rs.Maelstrom.Node.{Node, handle_init, init_ok, next_msg_id, reply}
use glome_rs.Maelstrom.Handler.{Handled, MessageHandler}

pub record KafkaNode : Type 0 where
  pub logs : Logs
  pub send_dedupe : HashMap (String × ℕ) ℕ

abbrev pub new : KafkaNode
new = record { logs = SimpleLog.new; send_dedupe = [] }

-- The `let offset = …` of a `Send`: a retry gets the offset that the first attempt got.
unfoldable pub dedupe_append : KafkaNode → String → ℕ → String → ℕ → ℕ × KafkaNode
dedupe_append s src msg_id key msg = elim (get (src, msg_id) s.send_dedupe) [
  | some off ↦ (off, s)
  | none ↦ (
    (SimpleLog.append s.logs key msg).0,
    record {
      logs = (SimpleLog.append s.logs key msg).1;
      send_dedupe = insert (src, msg_id) (SimpleLog.append s.logs key msg).0 s.send_dedupe;
    },
  )
]

module _ {V : Type 0} where
  unfoldable pub handle_body : KafkaNode → Node → Message V → MessageBody V → Handled V KafkaNode
  unfolding init_ok handle_init next_msg_id reply
  handle_body s node message (MessageBody.init msg_id node_id node_ids) =
      let (response, node') = init_ok (handle_init node node_id node_ids) message.src msg_id in
      some (response ∷ [], s, node')
  handle_body s node message (MessageBody.send msg_id key msg) =
      let (offset, s') = dedupe_append s message.src msg_id key msg in
      let (reply_msg_id, node') = next_msg_id node in
      some
        (reply node' message.src (MessageBody.send_ok reply_msg_id msg_id offset) ∷ [], s', node')
  handle_body s node message (MessageBody.poll msg_id offsets) =
      let msgs = SimpleLog.poll s.logs offsets in
      let (reply_msg_id, node') = next_msg_id node in
      some (reply node' message.src (MessageBody.poll_ok reply_msg_id msg_id msgs) ∷ [], s, node')
  handle_body s node message (MessageBody.commit_offsets msg_id offsets) =
      let s' = record s { logs = SimpleLog.commit_offsets s.logs offsets } in
      let (reply_msg_id, node') = next_msg_id node in
      some (
        reply node' message.src (MessageBody.commit_offsets_ok reply_msg_id msg_id) ∷ [],
        s',
        node',
      )
  handle_body s node message (MessageBody.list_committed_offsets msg_id keys) =
      let offsets = SimpleLog.list_committed_offsets s.logs keys in
      let (reply_msg_id, node') = next_msg_id node in
      some (
        reply node' message.src (MessageBody.list_committed_offsets_ok reply_msg_id msg_id offsets)
            ∷ [],
        s,
        node',
      )
  handle_body s node message _ = some ([], s, node)

  unfoldable pub handle : KafkaNode → Node → Message V → Handled V KafkaNode
  unfolding handle_body
  handle s node message = handle_body s node message message.body

  abbrev pub handler : MessageHandler V KafkaNode
  handler = record { handle = handle }
