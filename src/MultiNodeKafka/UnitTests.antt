-- ===== src/MultiNodeKafka/UnitTests.antt =====
-- The unit tests of multi_node_kafka/src/node.rs, each as an equation, and that all of them hold.
use glome_rs.Base.{
  List, Option, String, [], length, nat_eq, pair_eq, refl, some, string_eq, ℕ, ◌>>=◌, ◌∷◌, ◌≡◌,
}
use glome_rs.Collections.BTreeMap
use glome_rs.Collections.HashMap
use glome_rs.Collections.HashMap.{HashMap, get, get_or}
use glome_rs.Collections.HashSet
use glome_rs.Collections.HashSet.{contains}
use glome_rs.Maelstrom.Message.{MessageBody}
use glome_rs.Maelstrom.Node
use glome_rs.Maelstrom.Node.{Node}
use glome_rs.Maelstrom.Handler.{Handled}
use glome_rs.Maelstrom.Log
use glome_rs.Maelstrom.Log.{insert_at, commit_offsets}
use glome_rs.Maelstrom.Checks.{Sent, session, Expect}
use glome_rs.MultiNodeKafka
use glome_rs.MultiNodeKafka.{Pending, KafkaNode, new, quorum, handle_init, handle, handler}

abbrev three : List String
three = "n1" ∷ "n2" ∷ "n3" ∷ []

-- A node after `handle_init`, and then the messages to it.
abbrev at_node : String → List String → (KafkaNode → KafkaNode) → List Sent → Handled Unit KafkaNode
at_node i ids prepare messages = do
  (s, node) ← handle_init new Node.new i ids
  session handler (prepare s) node messages

abbrev as_is : KafkaNode → KafkaNode
as_is s = s

abbrev leader_at : String → List String → Option String
leader_at i ids = do (s, _) ← handle_init new Node.new i ids; some s.leader

abbrev quorum_of : List String → ℕ
quorum_of peers = quorum (record Node.new { peers = peers })

abbrev TestKafkaNodeHandlesInitMessage : Type 0
TestKafkaNodeHandlesInitMessage =
    Expect (session handler new Node.new (("c1", "n2", MessageBody.init 1 "n2" three) ∷ []))
      (λ out s node.
        (out ≡ ("n2", "c1", MessageBody.init_ok 0 1) ∷ [])
        × (node.id ≡ "n2")
        × (node.peers ≡ "n1" ∷ "n3" ∷ [])
        × (s.leader ≡ "n1"))

abbrev TestLeaderElectionLogic : Type 0
TestLeaderElectionLogic =
    (leader_at "n2" ("n3" ∷ "n1" ∷ "n2" ∷ []) ≡ some "n1")
    × (leader_at "n1" ("n1" ∷ []) ≡ some "n1")
    × (leader_at "beta" ("zebra" ∷ "alpha" ∷ "beta" ∷ []) ≡ some "alpha")

abbrev TestQuorumCalculation : Type 0
TestQuorumCalculation =
    (quorum_of [] ≡ 1)
    × (quorum_of ("n2" ∷ "n3" ∷ []) ≡ 2)
    × (quorum_of ("n2" ∷ "n3" ∷ "n4" ∷ "n5" ∷ []) ≡ 3)
    × (quorum_of ("n2" ∷ "n3" ∷ "n4" ∷ []) ≡ 3)

abbrev TestLeaderHandlesSendMessageSingleNode : Type 0
TestLeaderHandlesSendMessageSingleNode =
    Expect (at_node "n1" ("n1" ∷ []) as_is (("c1", "n1", MessageBody.send 42 "k1" 123) ∷ []))
      (λ out s node.
        (out ≡ ("n1", "c1", MessageBody.send_ok 0 42 0) ∷ []) × (length s.pendings ≡ 0))

-- What the leader has sent to the other two, and the send that it has pending.
abbrev IsReplicating : List Sent → KafkaNode → Type 0
IsReplicating out s =
    (out
      ≡ ("n1", "n2", MessageBody.replicate 0 "k1" 123 0)
        ∷ ("n1", "n3", MessageBody.replicate 0 "k1" 123 0)
        ∷ [])
    × (length s.pendings ≡ 1)
    × (get 0 s.pendings
        ≡ some (record { client = "c1"; client_msg_id = 42; acks = 1; from = "n1" ∷ [] }))

abbrev TestLeaderHandlesSendMessageMultiNode : Type 0
TestLeaderHandlesSendMessageMultiNode =
    Expect (at_node "n1" three as_is (("c1", "n1", MessageBody.send 42 "k1" 123) ∷ []))
      (λ out s node. IsReplicating out s)

abbrev TestNonLeaderForwardsSendMessage : Type 0
TestNonLeaderForwardsSendMessage =
    Expect (at_node "n2" three as_is (("c1", "n2", MessageBody.send 42 "k1" 123) ∷ []))
      (λ out s node. out ≡ ("n2", "n1", MessageBody.forward_send 0 "c1" 42 "k1" 123) ∷ [])

abbrev TestLeaderHandlesForwardSendMessage : Type 0
TestLeaderHandlesForwardSendMessage =
    Expect
      (at_node "n1" three as_is (("n2", "n1", MessageBody.forward_send 10 "c1" 42 "k1" 123) ∷ []))
      (λ out s node. IsReplicating out s)

abbrev TestHandlesReplicateMessage : Type 0
TestHandlesReplicateMessage =
    Expect (at_node "n2" three as_is (("n1", "n2", MessageBody.replicate 10 "k1" 123 5) ∷ []))
      (λ out s node. out ≡ ("n2", "n1", MessageBody.replicate_ok 0 10 5) ∷ [])

-- A pending operation, as `handle_send` makes it
abbrev with_pending : KafkaNode → KafkaNode
with_pending s = record s {
  pendings =
      HashMap.insert 0 (record { client = "c1"; client_msg_id = 42; acks = 1; from = "n1" ∷ [] })
        s.pendings;
}

abbrev TestHandlesReplicateOkReachesQuorum : Type 0
TestHandlesReplicateOkReachesQuorum =
    Expect (at_node "n1" three with_pending (("n2", "n1", MessageBody.replicate_ok 11 10 0) ∷ []))
      (λ out s node.
        (out ≡ ("n1", "c1", MessageBody.send_ok 0 42 0) ∷ []) × (length s.pendings ≡ 0))

abbrev acks_of : Option Pending → Option ℕ
acks_of o = o >>= λ p. some p.acks

abbrev TestHandlesReplicateOkNotQuorumYet : Type 0
TestHandlesReplicateOkNotQuorumYet =
    Expect
      (at_node "n1" ("n1" ∷ "n2" ∷ "n3" ∷ "n4" ∷ "n5" ∷ []) with_pending
        (("n2", "n1", MessageBody.replicate_ok 11 10 0) ∷ []))
      (λ out s node. (out ≡ []) × (length s.pendings ≡ 1) × (acks_of (get 0 s.pendings) ≡ some 2))

abbrev TestHandlesPollMessage : Type 0
TestHandlesPollMessage =
    Expect
      (at_node "n1" ("n1" ∷ [])
        (λ s. record s {
          logs = insert_at (insert_at (insert_at s.logs "k1" 0 123) "k1" 1 456) "k2" 0 789;
        })
        (("c1", "n1", MessageBody.poll 10 (("k1", 0) ∷ ("k2", 0) ∷ [])) ∷ []))
      (λ out s node.
        out
        ≡ (
          "n1",
          "c1",
          MessageBody.poll_ok 0 10 (("k1", (0, 123) ∷ (1, 456) ∷ []) ∷ ("k2", (0, 789) ∷ []) ∷ []),
        )
          ∷ [])

abbrev TestHandlesCommitOffsetsMessage : Type 0
TestHandlesCommitOffsetsMessage =
    Expect
      (at_node "n1" ("n1" ∷ []) as_is
        (("c1", "n1", MessageBody.commit_offsets 42 (("k1", 1000) ∷ ("k2", 2000) ∷ [])) ∷ []))
      (λ out s node. out ≡ ("n1", "c1", MessageBody.commit_offsets_ok 0 42) ∷ [])

abbrev TestHandlesListCommittedOffsetsMessage : Type 0
TestHandlesListCommittedOffsetsMessage =
    Expect
      (at_node "n1" ("n1" ∷ [])
        (λ s. record s {
          logs =
              commit_offsets (insert_at (insert_at s.logs "k1" 0 123) "k2" 0 456)
                (("k1", 100) ∷ ("k2", 200) ∷ []);
        })
        (("c1", "n1", MessageBody.list_committed_offsets 10 ("k1" ∷ "k2" ∷ "k3" ∷ [])) ∷ []))
      (λ out s node.
        out
        ≡ (
          "n1",
          "c1",
          MessageBody.list_committed_offsets_ok 0 10 (("k1", 100) ∷ ("k2", 200) ∷ ("k3", 0) ∷ []),
        )
          ∷ [])

abbrev TestKafkaNodeIgnoresUnknownMessages : Type 0
TestKafkaNodeIgnoresUnknownMessages =
    Expect (session handler new Node.new (("c1", "n1", MessageBody.generate 1) ∷ []))
      (λ out s node. out ≡ [])

-- A client sends to a follower, which forwards to the leader, which replicates; the follower
-- acknowledges.
abbrev TestMultiNodeWorkflowWithQuorum : Type 0
TestMultiNodeWorkflowWithQuorum =
    Expect (at_node "n2" three as_is (("c1", "n2", MessageBody.send 1 "test-key" 42) ∷ []))
      (λ forward s node.
        (forward ≡ ("n2", "n1", MessageBody.forward_send 0 "c1" 1 "test-key" 42) ∷ [])
        × Expect (at_node "n1" three as_is forward) (λ out s node.
          (length out ≡ 2)
          × Expect (session handler s node (("n2", "n1", MessageBody.replicate_ok 100 3 0) ∷ []))
              (λ out s node. out ≡ ("n1", "c1", MessageBody.send_ok 0 1 0) ∷ [])))

abbrev TestPendingOperationsCleanup : Type 0
TestPendingOperationsCleanup =
    Expect (at_node "n1" three as_is (("c1", "n1", MessageBody.send 42 "k1" 123) ∷ []))
      (λ out s node.
        (length s.pendings ≡ 1)
        × Expect (session handler s node (("n2", "n1", MessageBody.replicate_ok 11 10 0) ∷ []))
            (λ out s node. length s.pendings ≡ 0))

tests_pass :
    TestKafkaNodeHandlesInitMessage × TestLeaderElectionLogic × TestQuorumCalculation
    × TestLeaderHandlesSendMessageSingleNode × TestLeaderHandlesSendMessageMultiNode
    × TestNonLeaderForwardsSendMessage × TestLeaderHandlesForwardSendMessage
    × TestHandlesReplicateMessage × TestHandlesReplicateOkReachesQuorum
    × TestHandlesReplicateOkNotQuorumYet × TestHandlesPollMessage × TestHandlesCommitOffsetsMessage
    × TestHandlesListCommittedOffsetsMessage × TestKafkaNodeIgnoresUnknownMessages
    × TestMultiNodeWorkflowWithQuorum × TestPendingOperationsCleanup
unfolding MultiNodeKafka.handle MultiNodeKafka.handle_init MultiNodeKafka.handle_send
    MultiNodeKafka.lead_send MultiNodeKafka.replicate_to MultiNodeKafka.quorum MultiNodeKafka.first
    MultiNodeKafka.Leader.sort MultiNodeKafka.handle_replicate_ok Log.append_local Log.insert_at
    Log.get_or_create Log.commit_offsets HashMap.insert HashMap.remove get get_or BTreeMap.insert
    BTreeMap.get HashSet.insert contains HashSet.is_new Node.handle_init Node.next_msg_id
    Node.init_ok Node.reply Log.poll Log.poll_from Log.poll_entry BTreeMap.range_from
    Log.list_committed_offsets Log.list_from Log.commit_all Log.commit_entry
tests_pass = (
  (refl, refl, refl, refl),
  (refl, refl, refl),
  (refl, refl, refl, refl),
  (refl, refl),
  (refl, refl, refl),
  refl,
  (refl, refl, refl),
  refl,
  (refl, refl),
  (refl, refl, refl),
  refl,
  refl,
  refl,
  refl,
  (refl, (refl, refl)),
  (refl, refl),
)
