-- ===== src/MultiNodeKafka.antt =====
-- multi_node_kafka/src/node.rs: the replicated logs. The node with the least id is the leader; it
-- answers a send when a quorum of the cluster has the message.
pub mod Leader
pub mod Quorum
pub mod Acks
pub mod Handle
pub mod Pendings
pub mod Cluster
mod UnitTests
mod Tests
use glome_rs.Base.{
  List, Option, String, [], add64, if◌then◌else◌, leb, length, nat_eq, none, not, pair_eq, some,
  string_eq, ℕ, ◌++◌, ◌+◌, ◌/◌, ◌==◌, ◌>>=◌, ◌∷◌,
}
use glome_rs.Collections.HashMap.{HashMap, get, insert, remove}
use glome_rs.Collections.HashSet
use glome_rs.Collections.HashSet.{HashSet, is_new}
use glome_rs.Maelstrom.Log
use glome_rs.Maelstrom.Log.{Logs}
use glome_rs.Maelstrom.Message.{Message, MessageBody}
use glome_rs.Maelstrom.Node
use glome_rs.Maelstrom.Node.{Node, init_ok, next_msg_id, reply}
use glome_rs.Maelstrom.Handler.{Handled, MessageHandler}
use Leader.{sort}

pub record Pending : Type 0 where
  pub client : String
  pub client_msg_id : ℕ
  pub acks : ℕ
  pub from : HashSet String

pub record KafkaNode : Type 0 where
  pub leader : String
  pub next_offset : ℕ
  pub logs : Logs
  pub pendings : HashMap ℕ Pending

abbrev pub new : KafkaNode
new = record { leader = ""; next_offset = 0; logs = Log.new; pendings = [] }

-- `node.peers.len().div_ceil(2) + 1`
unfoldable pub quorum : Node → ℕ
quorum node = (length node.peers + 1) / 2 + 1

-- `all[0]` after the sort; `none` is the panic on an empty list.
unfoldable pub first : List String → Option String
first [] = none
first (x ∷ xs) = some x

unfoldable pub handle_init : KafkaNode → Node → String → List String → Option (KafkaNode × Node)
unfolding first
handle_init s node node_id node_ids = do
  leader ← first (sort node_ids)
  some (record s { leader = leader }, Node.handle_init node node_id node_ids)

module _ {V : Type 0} where
  -- The loop over the peers.
  unfoldable pub replicate_to : Node → String → ℕ → ℕ → List String → List (Message V) × Node
  unfolding next_msg_id
  replicate_to node key msg offset [] = ([], node)
  replicate_to node key msg offset (peer ∷ peers) =
      let (n, node') = next_msg_id node in
      let (rest, node'') = replicate_to node' key msg offset peers in
      (
        record { src = node.id; dest = peer; body = MessageBody.replicate n key msg offset } ∷ rest,
        node'',
      )

  -- The branch of `handle_send` at the leader.
  unfoldable pub lead_send :
      KafkaNode → Node → String → ℕ → String → ℕ → List (Message V) × KafkaNode × Node
  unfolding next_msg_id
  lead_send s node client msg_id key msg =
      let (offset, logs) = Log.append_local s.logs key msg in
      let pending : Pending = record {
        client = client;
        client_msg_id = msg_id;
        acks = 1;
        from = node.id ∷ [];
      } in
      let pendings = insert offset pending s.pendings in
      let s' : KafkaNode = record {
        leader = s.leader;
        next_offset = add64 offset 1;
        logs = logs;
        pendings = pendings;
      } in
      let (out, node') = replicate_to node key msg offset node.peers in
      if leb (quorum node') 1
      then (
        out
            ++ record {
              src = node'.id;
              dest = client;
              body = MessageBody.send_ok (next_msg_id node').0 msg_id offset;
            }
              ∷ [],
        record s' { pendings = remove offset pendings },
        (next_msg_id node').1,
      )
      else (out, s', node')

  unfoldable pub handle_send :
      KafkaNode → Node → Message V → ℕ → String → ℕ → List (Message V) × KafkaNode × Node
  unfolding next_msg_id lead_send
  handle_send s node message msg_id key msg =
      if not (node.id == s.leader)
      then (
        record {
          src = node.id;
          dest = s.leader;
          body = MessageBody.forward_send (next_msg_id node).0 message.src msg_id key msg;
        }
            ∷ [],
        s,
        (next_msg_id node).1,
      )
      else lead_send s node message.src msg_id key msg

  -- The acknowledgement of an offset by a replica, where the offset is pending.
  unfoldable pub acknowledge :
      KafkaNode → Node → String → ℕ → Pending → List (Message V) × KafkaNode × Node
  unfolding next_msg_id reply
  acknowledge s node src offset p =
      if is_new src p.from
      then (let p' = record p { from = HashSet.insert src p.from; acks = add64 p.acks 1 } in
          if leb (quorum node) p'.acks
          then (let (n, node') = next_msg_id node in
              (
                reply node' p.client (MessageBody.send_ok n p.client_msg_id offset) ∷ [],
                record s { pendings = remove offset s.pendings },
                node',
              ))
          else ([], record s { pendings = insert offset p' s.pendings }, node))
      else ([], s, node)

  unfoldable pub handle_replicate_ok :
      KafkaNode → Node → String → ℕ → List (Message V) × KafkaNode × Node
  unfolding acknowledge
  handle_replicate_ok s node src offset = elim (get offset s.pendings) [
    | none ↦ ([], s, node)
    | some p ↦ acknowledge s node src offset p
  ]

  unfoldable pub handle_body : KafkaNode → Node → Message V → MessageBody V → Handled V KafkaNode
  unfolding init_ok handle_init next_msg_id reply handle_send handle_replicate_ok
  handle_body s node message (MessageBody.init msg_id node_id node_ids) = do
    (s', node') ← handle_init s node node_id node_ids
    let (response, node'') = init_ok node' message.src msg_id
    some (response ∷ [], s', node'')
  handle_body s node message (MessageBody.send msg_id key msg) =
      some (handle_send s node message msg_id key msg)
  -- the recursive call of `handle` is on a `Send`
  handle_body s node message (MessageBody.forward_send _ orig_src orig_msg_id key msg) =
      let fwd : Message V = record {
        src = orig_src;
        dest = node.id;
        body = MessageBody.send orig_msg_id key msg;
      } in
      some (handle_send s node fwd orig_msg_id key msg)
  handle_body s node message (MessageBody.replicate msg_id key msg offset) =
      let s' = record s { logs = Log.insert_at s.logs key offset msg } in
      let (n, node') = next_msg_id node in
      some (reply node' message.src (MessageBody.replicate_ok n msg_id offset) ∷ [], s', node')
  handle_body s node message (MessageBody.replicate_ok _ _ offset) =
      some (handle_replicate_ok s node message.src offset)
  handle_body s node message (MessageBody.poll msg_id offsets) =
      let msgs = Log.poll s.logs offsets in
      let (n, node') = next_msg_id node in
      some (reply node' message.src (MessageBody.poll_ok n msg_id msgs) ∷ [], s, node')
  handle_body s node message (MessageBody.commit_offsets msg_id offsets) =
      let s' = record s { logs = Log.commit_offsets s.logs offsets } in
      let (n, node') = next_msg_id node in
      some (reply node' message.src (MessageBody.commit_offsets_ok n msg_id) ∷ [], s', node')
  handle_body s node message (MessageBody.list_committed_offsets msg_id keys) =
      let offsets = Log.list_committed_offsets s.logs keys in
      let (n, node') = next_msg_id node in
      some (
        reply node' message.src (MessageBody.list_committed_offsets_ok n msg_id offsets) ∷ [],
        s,
        node',
      )
  handle_body s node message _ = some ([], s, node)

  unfoldable pub handle : KafkaNode → Node → Message V → Handled V KafkaNode
  unfolding handle_body
  handle s node message = handle_body s node message message.body

  abbrev pub handler : MessageHandler V KafkaNode
  handler = record { handle = handle }
