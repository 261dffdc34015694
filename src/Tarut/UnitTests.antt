-- ===== src/Tarut/UnitTests.antt =====
-- The unit tests of tarut/src/node.rs, and that all of them hold.
use glome_rs.Base.{
  List, Option, String, [], nat_eq, none, pair_eq, refl, some, string_eq, ℕ, ◌∷◌, ◌≡◌,
}
use glome_rs.Collections.HashMap
use glome_rs.Collections.HashMap.{get, get_or}
use glome_rs.Maelstrom.Message.{MessageBody, ErrorCode, Op}
use glome_rs.Maelstrom.Node
use glome_rs.Maelstrom.Node.{Node}
use glome_rs.Maelstrom.Handler.{Handled}
use glome_rs.Maelstrom.Checks.{Sent, message, session, Expect, w, r, got}
use glome_rs.Tarut
use glome_rs.Tarut.{TarutNode, new, handler, process_txn, handle_tx}

abbrev results_of : List Op → List Op
results_of txn = (process_txn new txn).0

-- `node.entries.get(&1)` after the transaction
abbrev entry_after : List Op → Option (Option ℕ)
entry_after txn = get 1 (process_txn new txn).1.entries

abbrev node_of : List String → Node
node_of ids = Node.handle_init Node.new "node1" ids

abbrev two : List String
two = "node1" ∷ "node2" ∷ []

abbrev three : List String
three = "node1" ∷ "node2" ∷ "node3" ∷ []

-- `handle_tx` on a fresh node, at the request `msg_id` 1 of `client`
abbrev tx_at : List String → List Op → Handled Unit TarutNode
tx_at ids txn =
    some (handle_tx new (node_of ids) (message ("client", "node1", MessageBody.txn 1 txn)) 1 txn)

abbrev answer : List Op → Sent
answer txn = ("node1", "client", MessageBody.txn_ok 0 1 txn)

abbrev TestTarutNodeNew : Type 0
TestTarutNodeNew = (new.entries ≡ []) × (new.versions ≡ []) × (new.commit_ts ≡ 0)

abbrev TestTarutNodeDefault : Type 0
TestTarutNodeDefault = (new.entries ≡ []) × (new.versions ≡ []) × (new.commit_ts ≡ 0)

abbrev TestProcessTxnReadNonexistentKey : Type 0
TestProcessTxnReadNonexistentKey = results_of (r 1 ∷ []) ≡ r 1 ∷ []

abbrev TestProcessTxnWriteOperation : Type 0
TestProcessTxnWriteOperation =
    (results_of (w 1 42 ∷ []) ≡ w 1 42 ∷ []) × (entry_after (w 1 42 ∷ []) ≡ some (some 42))

abbrev TestProcessTxnWriteThenRead : Type 0
TestProcessTxnWriteThenRead = results_of (w 1 42 ∷ r 1 ∷ []) ≡ w 1 42 ∷ got 1 42 ∷ []

abbrev TestProcessTxnWriteNullValue : Type 0
TestProcessTxnWriteNullValue =
    (results_of (("w", 1, none) ∷ []) ≡ ("w", 1, none) ∷ [])
    × (entry_after (("w", 1, none) ∷ []) ≡ some none)

abbrev TestProcessTxnOverwriteValue : Type 0
TestProcessTxnOverwriteValue =
    (results_of (w 1 42 ∷ w 1 99 ∷ r 1 ∷ []) ≡ w 1 42 ∷ w 1 99 ∷ got 1 99 ∷ [])
    × (entry_after (w 1 42 ∷ w 1 99 ∷ r 1 ∷ []) ≡ some (some 99))

abbrev TestProcessTxnMultipleKeys : Type 0
TestProcessTxnMultipleKeys =
    results_of (w 1 10 ∷ w 2 20 ∷ r 1 ∷ r 2 ∷ r 3 ∷ [])
    ≡ w 1 10 ∷ w 2 20 ∷ got 1 10 ∷ got 2 20 ∷ r 3 ∷ []

abbrev TestProcessTxnUnknownOperation : Type 0
TestProcessTxnUnknownOperation =
    results_of (w 1 42 ∷ ("unknown", 2, some 99) ∷ r 1 ∷ []) ≡ w 1 42 ∷ got 1 42 ∷ []

abbrev TestHandleTxCreatesCorrectMessages : Type 0
TestHandleTxCreatesCorrectMessages =
    Expect (tx_at three (w 1 42 ∷ r 1 ∷ w 2 99 ∷ [])) (λ out s node.
      let writes =
        MessageBody.tarut_replicate 0 (("w", 1, some 42, 1) ∷ ("w", 2, some 99, 1) ∷ []) in
      out
      ≡ ("node1", "node2", writes)
        ∷ ("node1", "node3", writes)
        ∷ answer (w 1 42 ∷ got 1 42 ∷ w 2 99 ∷ [])
        ∷ [])

abbrev TestHandleTxOnlyReplicatesWrites : Type 0
TestHandleTxOnlyReplicatesWrites = Expect (tx_at two (r 1 ∷ w 2 99 ∷ r 3 ∷ [])) (λ out s node.
    out
    ≡ ("node1", "node2", MessageBody.tarut_replicate 0 (("w", 2, some 99, 1) ∷ []))
      ∷ answer (r 1 ∷ w 2 99 ∷ r 3 ∷ [])
      ∷ [])

abbrev TestMessageHandlerInit : Type 0
TestMessageHandlerInit =
    Expect
      (session handler new Node.new (("maelstrom", "node1", MessageBody.init 1 "node1" two) ∷ []))
      (λ out s node.
        (out ≡ ("node1", "maelstrom", MessageBody.init_ok 0 1) ∷ [])
        × (node.id ≡ "node1")
        × (node.peers ≡ "node2" ∷ []))

abbrev TestMessageHandlerTxn : Type 0
TestMessageHandlerTxn =
    Expect
      (session handler new (node_of two)
        (("client", "node1", MessageBody.txn 1 (w 1 42 ∷ [])) ∷ []))
      (λ out s node.
        out
        ≡ ("node1", "node2", MessageBody.tarut_replicate 0 (("w", 1, some 42, 1) ∷ []))
          ∷ answer (w 1 42 ∷ [])
          ∷ [])

abbrev TestMessageHandlerTarutReplicate : Type 0
TestMessageHandlerTarutReplicate =
    Expect
      (session handler new Node.new
        (("node2", "node1", MessageBody.tarut_replicate 1 (("w", 1, some 42, 5) ∷ [])) ∷ []))
      (λ out s node. (out ≡ []) × (get 1 s.entries ≡ some (some 42)) × (get 1 s.versions ≡ some 5))

abbrev TestMessageHandlerUnknownMessage : Type 0
TestMessageHandlerUnknownMessage =
    Expect
      (session handler new Node.new
        (("unknown", "node1", MessageBody.error 1 1 ErrorCode.other (some "unknown") none) ∷ []))
      (λ out s node. out ≡ [])

abbrev TestReadUncommittedConsistency : Type 0
TestReadUncommittedConsistency =
    (results_of (w 1 100 ∷ []) ≡ w 1 100 ∷ [])
    × ((process_txn (process_txn new (w 1 100 ∷ [])).1 (r 1 ∷ [])).0 ≡ got 1 100 ∷ [])

abbrev TestDirtyWritePrevention : Type 0
TestDirtyWritePrevention =
    (results_of (w 1 1 ∷ w 1 2 ∷ w 1 3 ∷ r 1 ∷ []) ≡ w 1 1 ∷ w 1 2 ∷ w 1 3 ∷ got 1 3 ∷ [])
    × (entry_after (w 1 1 ∷ w 1 2 ∷ w 1 3 ∷ r 1 ∷ []) ≡ some (some 3))

tests_pass :
    TestTarutNodeNew × TestTarutNodeDefault × TestProcessTxnReadNonexistentKey
    × TestProcessTxnWriteOperation × TestProcessTxnWriteThenRead × TestProcessTxnWriteNullValue
    × TestProcessTxnOverwriteValue × TestProcessTxnMultipleKeys × TestProcessTxnUnknownOperation
    × TestHandleTxCreatesCorrectMessages × TestHandleTxOnlyReplicatesWrites × TestMessageHandlerInit
    × TestMessageHandlerTxn × TestMessageHandlerTarutReplicate × TestMessageHandlerUnknownMessage
    × TestReadUncommittedConsistency × TestDirtyWritePrevention
unfolding Tarut.handle Tarut.handle_tx Tarut.process_txn Tarut.process_ops Tarut.process_op
    Tarut.read_entry Tarut.replicate Tarut.install Tarut.to_ops Tarut.sort_by_key
    Tarut.insert_by_key Tarut.send_to_all Tarut.apply_all Tarut.apply_op get get_or HashMap.insert
    Node.handle_init Node.next_msg_id Node.init_ok Node.reply
tests_pass = (
  (refl, refl, refl),
  (refl, refl, refl),
  refl,
  (refl, refl),
  refl,
  (refl, refl),
  (refl, refl),
  refl,
  refl,
  refl,
  refl,
  (refl, refl, refl),
  refl,
  (refl, refl, refl),
  refl,
  (refl, refl),
  (refl, refl),
)
