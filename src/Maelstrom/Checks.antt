-- ===== src/Maelstrom/Checks.antt =====
-- The form of the unit tests of the crates: a session of a node with its clients and peers, and what
-- a test expects of the responses and of the states that it leaves. Where a test does not look at
-- the number of a message, 0 stands for it.
use glome_rs.Base.{List, String, [], map, none, some, ℕ, ◌++◌, ◌>>=◌, ◌∷◌}
use glome_rs.Maelstrom.Message.{Message, MessageBody, Op, msg_id}
use glome_rs.Maelstrom.Node.{Node, new, handle_init}
use glome_rs.Maelstrom.Handler.{Handled, MessageHandler}

-- The body of a response, without its number.
abbrev pub numberless : MessageBody Unit → MessageBody Unit
numberless (MessageBody.init_ok _ n) = MessageBody.init_ok 0 n
numberless (MessageBody.broadcast_ok _ n) = MessageBody.broadcast_ok 0 n
numberless (MessageBody.broadcast _ m) = MessageBody.broadcast 0 m
numberless (MessageBody.broadcast_gossip _ ms) = MessageBody.broadcast_gossip 0 ms
numberless (MessageBody.read_ok _ n ms v) = MessageBody.read_ok 0 n ms v
numberless (MessageBody.topology_ok _ n) = MessageBody.topology_ok 0 n
numberless (MessageBody.send_ok _ n o) = MessageBody.send_ok 0 n o
numberless (MessageBody.forward_send _ c n k m) = MessageBody.forward_send 0 c n k m
numberless (MessageBody.replicate _ k m o) = MessageBody.replicate 0 k m o
numberless (MessageBody.replicate_ok _ n o) = MessageBody.replicate_ok 0 n o
numberless (MessageBody.poll_ok _ n ms) = MessageBody.poll_ok 0 n ms
numberless (MessageBody.commit_offsets_ok _ n) = MessageBody.commit_offsets_ok 0 n
numberless (MessageBody.list_committed_offsets_ok _ n os) =
    MessageBody.list_committed_offsets_ok 0 n os
numberless (MessageBody.echo_ok _ n text) = MessageBody.echo_ok 0 n text
numberless (MessageBody.generate_ok _ n i) = MessageBody.generate_ok 0 n i
numberless (MessageBody.txn_ok _ n ops) = MessageBody.txn_ok 0 n ops
numberless (MessageBody.tarut_replicate _ ws) = MessageBody.tarut_replicate 0 ws
numberless (MessageBody.tarct_replicate _ ws) = MessageBody.tarct_replicate 0 ws
numberless (MessageBody.error _ n code text extra) = MessageBody.error 0 n code text extra
numberless body = body

-- A message as its source, its destination and its body.
abbrev pub Sent : Type 0
Sent = String × String × MessageBody Unit

abbrev pub said : List (Message Unit) → List Sent
said [] = []
said (m ∷ ms) = (m.src, m.dest, numberless m.body) ∷ said ms

abbrev pub message : Sent → Message Unit
message (src, dest, body) = record { src = src; dest = dest; body = body }

-- The handler takes the messages in their order: all its responses, and what it leaves.
abbrev pub session : {S : Type 0} → MessageHandler Unit S → S → Node → List Sent → Handled Unit S
session h s node [] = some ([], s, node)
session h s node (m ∷ ms) = do
  (out, s', node') ← h.handle s node (message m)
  (rest, s'', node'') ← session h s' node' ms
  some (out ++ rest, s'', node'')

-- No call panics, and what the session leaves is as expected.
abbrev pub Expect : {S : Type 0} → Handled Unit S → (List Sent → S → Node → Type 0) → Type 0
Expect none wanted = ⊥
Expect (some (out, s, node)) wanted = wanted (said out) s node

-- The numbers of the responses.
abbrev pub numbers : {S : Type 0} → Handled Unit S → List ℕ
numbers none = []
numbers (some (out, _, _)) = numbers_of out
  where
    numbers_of : List (Message Unit) → List ℕ
    numbers_of [] = []
    numbers_of (m ∷ ms) = msg_id m.body ∷ numbers_of ms

abbrev pub client_asks : MessageBody Unit → Sent
client_asks body = ("c1", "n1", body)

abbrev pub client_gets : MessageBody Unit → Sent
client_gets body = ("n1", "c1", body)

-- A fresh node `n1` after `node.handle_init`, and then the requests of a client.
abbrev pub asked :
    {S : Type 0}
    → MessageHandler Unit S
    → S
    → List String
    → List (MessageBody Unit)
    → Handled Unit S
asked h s ids bodies = session h s (handle_init new "n1" ids) (map client_asks bodies)

-- Operations of a transaction: a write, a read, and the answer to a read.
abbrev pub w : ℕ → ℕ → Op
w key value = ("w", key, some value)

abbrev pub r : ℕ → Op
r key = ("r", key, none)

abbrev pub got : ℕ → ℕ → Op
got key value = ("r", key, some value)
