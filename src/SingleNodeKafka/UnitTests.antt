-- ===== src/SingleNodeKafka/UnitTests.antt =====
-- The unit tests of single_node_kafka/src/node.rs, and that all of them hold.
use glome_rs.Base.{List, String, [], nat_eq, pair_eq, refl, string_eq, ◌∷◌, ◌≡◌}
use glome_rs.Collections.BTreeMap
use glome_rs.Collections.HashMap
use glome_rs.Collections.HashMap.{get, get_or}
use glome_rs.Maelstrom.Message.{MessageBody}
use glome_rs.Maelstrom.Node
use glome_rs.Maelstrom.SimpleLog
use glome_rs.Maelstrom.SimpleLog.Log
use glome_rs.Maelstrom.Checks.{asked, session, Expect, numbers, client_asks, client_gets}
use glome_rs.SingleNodeKafka
use glome_rs.SingleNodeKafka.{KafkaNode, new, handler}

abbrev alone : List String
alone = "n1" ∷ []

abbrev TestKafkaNodeHandlesInitMessage : Type 0
TestKafkaNodeHandlesInitMessage =
    Expect
      (session handler new Node.new
        (client_asks (MessageBody.init 1 "n1" ("n1" ∷ "n2" ∷ "n3" ∷ [])) ∷ []))
      (λ out s node.
        (out ≡ client_gets (MessageBody.init_ok 0 1) ∷ [])
        × (node.id ≡ "n1")
        × (node.peers ≡ "n2" ∷ "n3" ∷ []))

abbrev TestKafkaNodeHandlesSendMessage : Type 0
TestKafkaNodeHandlesSendMessage =
    Expect (asked handler new alone (MessageBody.send 42 "k1" 123 ∷ []))
      (λ out s node. out ≡ client_gets (MessageBody.send_ok 0 42 0) ∷ [])

abbrev TestKafkaNodeHandlesMultipleSendMessages : Type 0
TestKafkaNodeHandlesMultipleSendMessages =
    Expect
      (asked handler new alone (
        MessageBody.send 1 "k1" 123
        ∷ MessageBody.send 2 "k1" 456
        ∷ MessageBody.send 3 "k2" 789
        ∷ []))
      (λ out s node.
        out
        ≡ client_gets (MessageBody.send_ok 0 1 0)
          ∷ client_gets (MessageBody.send_ok 0 2 1)
          ∷ client_gets (MessageBody.send_ok 0 3 0)
          ∷ [])

abbrev TestKafkaNodeHandlesPollMessage : Type 0
TestKafkaNodeHandlesPollMessage =
    Expect
      (asked handler new alone (
        MessageBody.send 1 "k1" 123
        ∷ MessageBody.send 2 "k2" 456
        ∷ MessageBody.poll 10 (("k1", 0) ∷ ("k2", 0) ∷ [])
        ∷ []))
      (λ out s node.
        out
        ≡ client_gets (MessageBody.send_ok 0 1 0)
          ∷ client_gets (MessageBody.send_ok 0 2 0)
          ∷ client_gets
              (MessageBody.poll_ok 0 10 (("k1", (0, 123) ∷ []) ∷ ("k2", (0, 456) ∷ []) ∷ []))
          ∷ [])

abbrev TestKafkaNodeHandlesCommitOffsetsMessage : Type 0
TestKafkaNodeHandlesCommitOffsetsMessage =
    Expect
      (asked handler new alone
        (MessageBody.commit_offsets 42 (("k1", 1000) ∷ ("k2", 2000) ∷ []) ∷ []))
      (λ out s node. out ≡ client_gets (MessageBody.commit_offsets_ok 0 42) ∷ [])

abbrev TestKafkaNodeHandlesListCommittedOffsetsMessage : Type 0
TestKafkaNodeHandlesListCommittedOffsetsMessage =
    Expect
      (asked handler new alone (
        MessageBody.send 1 "k1" 123
        ∷ MessageBody.send 2 "k2" 456
        ∷ MessageBody.commit_offsets 3 (("k1", 0) ∷ ("k2", 0) ∷ [])
        ∷ MessageBody.list_committed_offsets 10 ("k1" ∷ "k2" ∷ "k3" ∷ [])
        ∷ []))
      (λ out s node.
        out
        ≡ client_gets (MessageBody.send_ok 0 1 0)
          ∷ client_gets (MessageBody.send_ok 0 2 0)
          ∷ client_gets (MessageBody.commit_offsets_ok 0 3)
          ∷ client_gets (MessageBody.list_committed_offsets_ok 0 10 (("k1", 0) ∷ ("k2", 0) ∷ []))
          ∷ [])

abbrev TestKafkaNodeIgnoresUnknownMessages : Type 0
TestKafkaNodeIgnoresUnknownMessages =
    Expect (session handler new Node.new (client_asks (MessageBody.generate 1) ∷ []))
      (λ out s node. out ≡ [])

abbrev TestKafkaNodeGeneratesUniqueMsgIds : Type 0
TestKafkaNodeGeneratesUniqueMsgIds =
    numbers
      (asked handler new alone (MessageBody.send 1 "k1" 123 ∷ MessageBody.send 1 "k1" 123 ∷ []))
    ≡ 1 ∷ 2 ∷ []

abbrev TestKafkaNodeFullWorkflow : Type 0
TestKafkaNodeFullWorkflow =
    Expect
      (asked handler new alone (
        MessageBody.send 0 "test-key" 100
        ∷ MessageBody.send 1 "test-key" 101
        ∷ MessageBody.send 2 "test-key" 102
        ∷ MessageBody.poll 10 (("test-key", 0) ∷ [])
        ∷ MessageBody.commit_offsets 20 (("test-key", 2) ∷ [])
        ∷ MessageBody.list_committed_offsets 30 ("test-key" ∷ [])
        ∷ []))
      (λ out s node.
        out
        ≡ client_gets (MessageBody.send_ok 0 0 0)
          ∷ client_gets (MessageBody.send_ok 0 1 1)
          ∷ client_gets (MessageBody.send_ok 0 2 2)
          ∷ client_gets
              (MessageBody.poll_ok 0 10 (("test-key", (0, 100) ∷ (1, 101) ∷ (2, 102) ∷ []) ∷ []))
          ∷ client_gets (MessageBody.commit_offsets_ok 0 20)
          ∷ client_gets (MessageBody.list_committed_offsets_ok 0 30 (("test-key", 2) ∷ []))
          ∷ [])

tests_pass :
    TestKafkaNodeHandlesInitMessage × TestKafkaNodeHandlesSendMessage
    × TestKafkaNodeHandlesMultipleSendMessages × TestKafkaNodeHandlesPollMessage
    × TestKafkaNodeHandlesCommitOffsetsMessage × TestKafkaNodeHandlesListCommittedOffsetsMessage
    × TestKafkaNodeIgnoresUnknownMessages × TestKafkaNodeGeneratesUniqueMsgIds
    × TestKafkaNodeFullWorkflow
unfolding SingleNodeKafka.handle SingleNodeKafka.dedupe_append SimpleLog.append SimpleLog.poll
    SimpleLog.commit_offsets SimpleLog.list_committed_offsets get get_or HashMap.insert
    Node.handle_init Node.next_msg_id Node.init_ok Node.reply SimpleLog.poll_from
    SimpleLog.poll_entry SimpleLog.commit_all SimpleLog.commit_entry SimpleLog.list_from
    SimpleLog.list_entry Log.append Log.read_entries Log.read_from Log.commit Log.committed_offset
    BTreeMap.range_from BTreeMap.insert
tests_pass = ((refl, refl, refl), refl, refl, refl, refl, refl, refl, refl, refl)
