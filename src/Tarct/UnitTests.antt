-- ===== src/Tarct/UnitTests.antt =====
-- The unit tests of the handler in tarct/src/node.rs, and that all of them hold.
use glome_rs.Base.{
  List, Option, String, [], nat_eq, none, pair_eq, refl, some, string_eq, ℕ, ◌∷◌, ◌≡◌,
}
use glome_rs.Collections.HashMap
use glome_rs.Collections.HashMap.{get_or}
use glome_rs.Maelstrom.Message.{MessageBody, ErrorCode, Op, Version}
use glome_rs.Maelstrom.Node
use glome_rs.Maelstrom.Node.{Node}
use glome_rs.Maelstrom.Handler.{Handled}
use glome_rs.Maelstrom.Checks.{Sent, message, session, Expect, w, r, got}
use glome_rs.Tarct
use glome_rs.Tarct.Hash.{stable_hash}
use glome_rs.Tarct.Kv
use glome_rs.Tarct.{TarctNode, new, handler, handle_tx}

abbrev node_of : List String → Node
node_of ids = Node.handle_init Node.new "node1" ids

abbrev alone : List String
alone = "node1" ∷ []

abbrev two : List String
two = "node1" ∷ "node2" ∷ []

-- `handle_tx` at the request `n` of `client`
abbrev tx : TarctNode → Node → ℕ → List Op → Handled Unit TarctNode
tx s node n txn = handle_tx s node (message ("client", "node1", MessageBody.txn 1 [])) n txn

abbrev answer : List Op → Sent
answer txn = ("node1", "client", MessageBody.txn_ok 0 1 txn)

-- The version of a commit of the node
abbrev own : ℕ → Version
own ts = record { ts = ts; node = stable_hash "node1" }

abbrev other : ℕ → Version
other ts = record { ts = ts; node = 0 }

-- A key has the value, and a version of the time.
abbrev HasEntry : TarctNode → ℕ → Option ℕ → ℕ → Type 0
HasEntry s key value ts = (Kv.get s.kv key ≡ value) × ((Kv.version s.kv key).ts ≡ ts)

abbrev TestTarctNodeNew : Type 0
TestTarctNodeNew = new.lamport_ts ≡ 0

abbrev TestTarctNodeDefault : Type 0
TestTarctNodeDefault = new.lamport_ts ≡ 0

abbrev TestHandleTxReadOnlyTransaction : Type 0
TestHandleTxReadOnlyTransaction =
    Expect (tx new (node_of two) 1 (r 1 ∷ []))
      (λ out s node. (out ≡ answer (r 1 ∷ []) ∷ []) × (s.lamport_ts ≡ 0))

abbrev TestHandleTxWriteTransactionSuccess : Type 0
TestHandleTxWriteTransactionSuccess =
    Expect (tx new (node_of two) 1 (w 1 42 ∷ r 1 ∷ [])) (λ out s node.
      (out
        ≡ ("node1", "node2", MessageBody.tarct_replicate 0 (("w", 1, some 42, own 1) ∷ []))
          ∷ answer (w 1 42 ∷ got 1 42 ∷ [])
          ∷ [])
      × (s.lamport_ts ≡ 1)
      × HasEntry s 1 (some 42) 1)

abbrev TestHandleTxConflictDetection : Type 0
TestHandleTxConflictDetection =
    Expect
      (tx (record new { kv = Kv.apply Kv.new 1 (some 100) (other 5) }) (node_of two) 1
        (r 1 ∷ w 2 42 ∷ []))
      (λ out s node.
        out
        ≡ ("node1", "node2", MessageBody.tarct_replicate 0 (("w", 2, some 42, own 6) ∷ []))
          ∷ answer (got 1 100 ∷ w 2 42 ∷ [])
          ∷ [])

abbrev TestHandleTxAbortOnConflict : Type 0
TestHandleTxAbortOnConflict =
    Expect (tx new (node_of two) 1 (r 1 ∷ [])) (λ out s node. out ≡ answer (r 1 ∷ []) ∷ [])

abbrev TestHandleTxMultipleWrites : Type 0
TestHandleTxMultipleWrites =
    Expect (tx new (node_of two) 1 (w 1 10 ∷ w 2 20 ∷ ("w", 3, none) ∷ r 1 ∷ r 2 ∷ r 3 ∷ []))
      (λ out s node.
        out
        ≡ (
          "node1",
          "node2",
          MessageBody.tarct_replicate 0
              (("w", 1, some 10, own 1) ∷ ("w", 2, some 20, own 1) ∷ ("w", 3, none, own 1) ∷ []),
        )
          ∷ answer (w 1 10 ∷ w 2 20 ∷ ("w", 3, none) ∷ got 1 10 ∷ got 2 20 ∷ r 3 ∷ [])
          ∷ [])

abbrev TestHandleTxReadUncommittedWrites : Type 0
TestHandleTxReadUncommittedWrites =
    Expect (tx new (node_of alone) 1 (w 1 42 ∷ r 1 ∷ w 1 99 ∷ r 1 ∷ []))
      (λ out s node. out ≡ answer (w 1 42 ∷ got 1 42 ∷ w 1 99 ∷ got 1 99 ∷ []) ∷ [])

abbrev TestMessageHandlerInit : Type 0
TestMessageHandlerInit =
    Expect
      (session handler new Node.new (
        ("maelstrom", "node1", MessageBody.init 1 "node1" ("node1" ∷ "node2" ∷ "node3" ∷ [])) ∷ []))
      (λ out s node.
        (out ≡ ("node1", "maelstrom", MessageBody.init_ok 0 1) ∷ [])
        × (node.id ≡ "node1")
        × (node.peers ≡ "node2" ∷ "node3" ∷ []))

abbrev TestMessageHandlerTxn : Type 0
TestMessageHandlerTxn =
    Expect
      (session handler new (node_of two)
        (("client", "node1", MessageBody.txn 1 (w 1 42 ∷ [])) ∷ []))
      (λ out s node.
        out
        ≡ ("node1", "node2", MessageBody.tarct_replicate 0 (("w", 1, some 42, own 1) ∷ []))
          ∷ answer (w 1 42 ∷ [])
          ∷ [])

abbrev TestMessageHandlerTarctReplicate : Type 0
TestMessageHandlerTarctReplicate =
    Expect
      (session handler new Node.new (
        (
          "node2",
          "node1",
          MessageBody.tarct_replicate 1 (("w", 1, some 42, other 5) ∷ ("w", 2, none, other 5) ∷ []),
        )
        ∷ []))
      (λ out s node. (out ≡ []) × HasEntry s 1 (some 42) 5 × HasEntry s 2 none 5)

abbrev TestMessageHandlerTarctReplicateFiltersNonWrites : Type 0
TestMessageHandlerTarctReplicateFiltersNonWrites =
    Expect
      (session handler new Node.new (
        (
          "node2",
          "node1",
          MessageBody.tarct_replicate 1 (
              ("w", 1, some 42, other 5)
              ∷ ("r", 2, none, other 0)
              ∷ ("w", 3, some 99, other 5)
              ∷ []),
        )
        ∷ []))
      (λ out s node.
        (out ≡ []) × (Kv.get s.kv 1 ≡ some 42) × HasEntry s 2 none 0 × (Kv.get s.kv 3 ≡ some 99))

abbrev TestMessageHandlerUnknownMessage : Type 0
TestMessageHandlerUnknownMessage =
    Expect
      (session handler new Node.new
        (("unknown", "node1", MessageBody.error 1 1 ErrorCode.other (some "unknown") none) ∷ []))
      (λ out s node. out ≡ [])

abbrev TestCommitTimestampAdvancement : Type 0
TestCommitTimestampAdvancement = Expect (tx new (node_of alone) 1 (w 1 10 ∷ [])) (λ out s node.
    (s.lamport_ts ≡ 1)
    × ((Kv.version s.kv 1).ts ≡ 1)
    × Expect (tx s node 2 (w 2 20 ∷ [])) (λ out s node.
      (s.lamport_ts ≡ 2)
      × ((Kv.version s.kv 2).ts ≡ 2)
      × Expect (tx s node 3 (r 1 ∷ [])) (λ out s node. s.lamport_ts ≡ 2)))

abbrev TestReadCommittedSemantics : Type 0
TestReadCommittedSemantics =
    Expect
      (tx (record { kv = Kv.apply Kv.new 1 (some 100) (other 1); lamport_ts = 1 }) (node_of alone) 1
        (r 1 ∷ w 1 200 ∷ r 1 ∷ w 2 300 ∷ r 2 ∷ []))
      (λ out s node.
        (out ≡ answer (got 1 100 ∷ w 1 200 ∷ got 1 200 ∷ w 2 300 ∷ got 2 300 ∷ []) ∷ [])
        × HasEntry s 1 (some 200) 2
        × HasEntry s 2 (some 300) 2)

tests_pass :
    TestTarctNodeNew × TestTarctNodeDefault × TestHandleTxReadOnlyTransaction
    × TestHandleTxWriteTransactionSuccess × TestHandleTxConflictDetection
    × TestHandleTxAbortOnConflict × TestHandleTxMultipleWrites × TestHandleTxReadUncommittedWrites
    × TestMessageHandlerInit × TestMessageHandlerTxn × TestMessageHandlerTarctReplicate
    × TestMessageHandlerTarctReplicateFiltersNonWrites × TestMessageHandlerUnknownMessage
    × TestCommitTimestampAdvancement × TestReadCommittedSemantics
unfolding Tarct.handle Tarct.handle_tx Tarct.finish Tarct.commit Tarct.stage_txn Tarct.stage_op
    Tarct.has_conflict Tarct.next_ts Tarct.max_ts Tarct.apply_all Tarct.to_ops Tarct.sort_by_key
    Tarct.insert_by_key Tarct.send_to_all Tarct.writes_of Tarct.observe Kv.apply Kv.merge_batch
    Kv.get Kv.version HashMap.get get_or HashMap.insert Node.handle_init Node.next_msg_id
    Node.init_ok Node.reply stable_hash
tests_pass = (
  refl,
  refl,
  (refl, refl),
  (refl, refl, (refl, refl)),
  refl,
  refl,
  refl,
  refl,
  (refl, refl, refl),
  refl,
  (refl, (refl, refl), (refl, refl)),
  (refl, refl, (refl, refl), refl),
  refl,
  (refl, refl, (refl, refl, refl)),
  (refl, (refl, refl), (refl, refl)),
)
