-- ===== src/SingleNodeKafka/Retries.antt =====
-- Retries of a send, after whatever the node has received in between.
use glome_rs.Base.{
  Bool-cases, List, Option-cases, String, [], arith, inl, inr, nat_eq, none, pair_eq, refl, some,
  string_eq, subst, ℕ, ◌==◌, ◌∷◌, ◌≡◌,
}
use glome_rs.Collections.HashMap.{get, get-insert, get-insert_self}
use glome_rs.Maelstrom.SimpleLog.{append}
use glome_rs.Maelstrom.Message.{Message, MessageBody}
use glome_rs.Maelstrom.Node.{Node, next_msg_id, reply}
use glome_rs.Maelstrom.Handler.{Handled, Ending, proceed, process}
use glome_rs.SingleNodeKafka.{KafkaNode, dedupe_append, handle_body, handle, handler}
use glome_rs.SingleNodeKafka.Sends.{known_send, fresh_send}

-- The send that the client made under the number got the offset.
abbrev IsNoted : String × ℕ → ℕ → KafkaNode → Type 0
IsNoted k off s = get k s.send_dedupe ≡ some off

dedupe_append-IsNoted_self :
    (s : KafkaNode) (src key : String) (msg_id msg : ℕ)
    → let (off, s') = dedupe_append s src msg_id key msg in IsNoted (src, msg_id) off s'
dedupe_append-IsNoted_self s src key msg_id msg =
    elim (Option-cases (get (src, msg_id) s.send_dedupe)) [
      | inl e ↦
          rw (fresh_send s src key msg_id msg e)
            (get-insert_self (src, msg_id) (append s.logs key msg).0 s.send_dedupe)
      | inr (off, e) ↦ rw (known_send s src key msg_id msg off e) e
    ]

-- Another send leaves the note.
dedupe_append-IsNoted :
    (k : String × ℕ) (off : ℕ) (s : KafkaNode) (src key : String) (msg_id msg : ℕ)
    → IsNoted k off s
    → IsNoted k off (dedupe_append s src msg_id key msg).1
dedupe_append-IsNoted k off s src key msg_id msg h =
    elim (Option-cases (get (src, msg_id) s.send_dedupe)) [
      | inl e ↦ rw (fresh_send s src key msg_id msg e) (elim (Bool-cases ((src, msg_id) == k)) [
        | inl same ↦
            let missing : get k s.send_dedupe ≡ none =
              subst (λ j. get j s.send_dedupe ≡ none) ((pair_eq.beq_iff (src, msg_id) k).0 same)
                e in
            absurd (ground (arith, missing, h))
        | inr other ↦
            rw (get-insert (src, msg_id) k (append s.logs key msg).0 s.send_dedupe, other) h
      ])
      | inr (o, e) ↦ rw (known_send s src key msg_id msg o e) h
    ]

module _ {V : Type 0} where
  -- The call returns, and the note stands in the state that it leaves.
  abbrev Keeps : String × ℕ → ℕ → Handled V KafkaNode → Type 0
  Keeps k off none = ⊥
  Keeps k off (some (out, s, node)) = IsNoted k off s

  body-Keeps :
      (k : String × ℕ) (off : ℕ) (s : KafkaNode) (node : Node) (message : Message V)
      (body : MessageBody V)
      → IsNoted k off s
      → Keeps k off (handle_body s node message body)
  unfolding handle_body
  body-Keeps k off s node message (MessageBody.init _ _ _) h = h
  body-Keeps k off s node message (MessageBody.send n key msg) h =
      dedupe_append-IsNoted k off s message.src key n msg h
  body-Keeps k off s node message (MessageBody.poll _ _) h = h
  body-Keeps k off s node message (MessageBody.commit_offsets _ _) h = h
  body-Keeps k off s node message (MessageBody.list_committed_offsets _ _) h = h
  body-Keeps k off s node message _ h = h

  -- The run waits for the next message at its end, and the note stands.
  abbrev EndsWith : String × ℕ → ℕ → List (Message V) × Ending KafkaNode → Type 0
  EndsWith k off r =
      (s : KafkaNode) × (node : Node) × (r.1 ≡ Ending.waiting s node) × IsNoted k off s

  proceed-EndsWith :
      (k : String × ℕ) (off : ℕ) (r : Handled V KafkaNode)
      (rest : KafkaNode → Node → List (Message V) × Ending KafkaNode)
      → Keeps k off r
      → ((s : KafkaNode) (node : Node) → IsNoted k off s → EndsWith k off (rest s node))
      → EndsWith k off (proceed r rest)
  proceed-EndsWith k off none rest h later = absurd h
  proceed-EndsWith k off (some (out, s, node)) rest h later = later s node h

  process-EndsWith :
      (k : String × ℕ) (off : ℕ) (s : KafkaNode) (node : Node) (msgs : List (Message V))
      → IsNoted k off s
      → EndsWith k off (process handler s node msgs)
  unfolding process handle
  process-EndsWith k off s node [] h = (s, node, refl, h)
  process-EndsWith k off s node (m ∷ msgs) h =
      proceed-EndsWith k off (handle_body s node m m.body)
        (λ s' node'. process handler s' node' msgs) (body-Keeps k off s node m m.body h)
        (λ s' node' h'. process-EndsWith k off s' node' msgs h')

  abbrev pub send_request : String → String → ℕ → String → ℕ → Message V
  send_request src dest msg_id key msg = record {
    src = src;
    dest = dest;
    body = MessageBody.send msg_id key msg;
  }

  abbrev pub send_answer : Node → String → ℕ → ℕ → Message V
  send_answer node src msg_id offset =
      let (n, node') = next_msg_id node in reply node' src (MessageBody.send_ok n msg_id offset)

-- From any state, a node that gets a send, and then any messages, answers the send with an offset
-- and comes to a state in which it waits for the next message. A retry there, by the same client
-- under the same number, gets the same offset and leaves the logs and the noted sends as they are,
-- whatever key and message it names.
pub retry_gets_same_offset :
    {V : Type 0} (s : KafkaNode) (node : Node) (src dest key key' : String) (msg_id msg msg' : ℕ)
    (msgs : List (Message V))
    → (offset : ℕ) × (outs : List (Message V)) × (s' : KafkaNode) × (node' : Node) × (process
          handler s node
          (send_request src dest msg_id key msg ∷ msgs)
        ≡ (send_answer node src msg_id offset ∷ outs, Ending.waiting s' node'))
      × (handle {V = V} s' node' (send_request src dest msg_id key' msg')
          ≡ some (send_answer node' src msg_id offset ∷ [], s', (next_msg_id node').1))
unfolding process handle handle_body next_msg_id reply
retry_gets_same_offset s node src dest key key' msg_id msg msg' msgs =
    let (offset, s1) = dedupe_append s src msg_id key msg in
    let node1 = (next_msg_id node).1 in
    let (s', node', ends, noted) =
      process-EndsWith (src, msg_id) offset s1 node1 msgs
        (dedupe_append-IsNoted_self s src key msg_id msg) in
    (
      offset,
      (process handler s1 node1 msgs).0,
      s',
      node',
      rw ends refl,
      rw (known_send s' src key' msg_id msg' offset noted) refl,
    )
