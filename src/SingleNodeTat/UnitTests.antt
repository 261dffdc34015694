-- ===== src/SingleNodeTat/UnitTests.antt =====
-- The unit tests of single_node_tat/src/node.rs, and that all of them hold.
use glome_rs.Base.{
  List, Option, String, [], nat_eq, none, pair_eq, refl, some, string_eq, ℕ, ◌>>=◌, ◌∷◌, ◌≡◌,
}
use glome_rs.Collections.HashMap
use glome_rs.Collections.HashMap.{get}
use glome_rs.Maelstrom.Message.{MessageBody, Op}
use glome_rs.Maelstrom.Node
use glome_rs.Maelstrom.Checks.{session, asked, Expect, client_asks, client_gets, w, r, got}
use glome_rs.SingleNodeTat
use glome_rs.SingleNodeTat.{new, handler, process_txn}

abbrev two : List String
two = "n1" ∷ "n2" ∷ []

abbrev results_of : List Op → Option (List Op)
results_of txn = do (results, _) ← process_txn new txn; some results

-- `node.entries.get(&1)` after the transaction
abbrev entry_after : List Op → Option (Option ℕ)
entry_after txn = do (_, s) ← process_txn new txn; get 1 s.entries

abbrev TestTatNodeNew : Type 0
TestTatNodeNew = new.entries ≡ []

abbrev TestTatNodeDefault : Type 0
TestTatNodeDefault = new.entries ≡ []

abbrev TestProcessTxnReadNonexistentKey : Type 0
TestProcessTxnReadNonexistentKey = results_of (r 1 ∷ []) ≡ some (r 1 ∷ [])

abbrev TestProcessTxnWriteOperation : Type 0
TestProcessTxnWriteOperation =
    (results_of (w 1 42 ∷ []) ≡ some (w 1 42 ∷ [])) × (entry_after (w 1 42 ∷ []) ≡ some (some 42))

abbrev TestProcessTxnWriteThenRead : Type 0
TestProcessTxnWriteThenRead = results_of (w 1 42 ∷ r 1 ∷ []) ≡ some (w 1 42 ∷ got 1 42 ∷ [])

abbrev TestProcessTxnWriteNullValue : Type 0
TestProcessTxnWriteNullValue =
    (results_of (("w", 1, none) ∷ []) ≡ some (("w", 1, none) ∷ []))
    × (entry_after (("w", 1, none) ∷ []) ≡ some none)

abbrev TestProcessTxnOverwriteValue : Type 0
TestProcessTxnOverwriteValue =
    results_of (w 1 42 ∷ w 1 99 ∷ r 1 ∷ []) ≡ some (w 1 42 ∷ w 1 99 ∷ got 1 99 ∷ [])

abbrev TestProcessTxnMultipleKeys : Type 0
TestProcessTxnMultipleKeys =
    results_of (w 1 10 ∷ w 2 20 ∷ r 1 ∷ r 2 ∷ r 3 ∷ [])
    ≡ some (w 1 10 ∷ w 2 20 ∷ got 1 10 ∷ got 2 20 ∷ r 3 ∷ [])

abbrev TestHandleInitMessage : Type 0
TestHandleInitMessage =
    Expect (session handler new Node.new (client_asks (MessageBody.init 1 "n1" two) ∷ []))
      (λ out s node. out ≡ client_gets (MessageBody.init_ok 0 1) ∷ [])

abbrev TestHandleTxnMessage : Type 0
TestHandleTxnMessage =
    Expect (asked handler new two (MessageBody.txn 1 (w 1 42 ∷ r 1 ∷ []) ∷ []))
      (λ out s node. out ≡ client_gets (MessageBody.txn_ok 0 1 (w 1 42 ∷ got 1 42 ∷ [])) ∷ [])

abbrev TestHandleUnknownMessage : Type 0
TestHandleUnknownMessage =
    Expect (session handler new Node.new (client_asks (MessageBody.echo 1 "test") ∷ []))
      (λ out s node. out ≡ [])

tests_pass :
    TestTatNodeNew × TestTatNodeDefault × TestProcessTxnReadNonexistentKey
    × TestProcessTxnWriteOperation × TestProcessTxnWriteThenRead × TestProcessTxnWriteNullValue
    × TestProcessTxnOverwriteValue × TestProcessTxnMultipleKeys × TestHandleInitMessage
    × TestHandleTxnMessage × TestHandleUnknownMessage
unfolding SingleNodeTat.handle SingleNodeTat.process_txn SingleNodeTat.process_op
    SingleNodeTat.read_entry get HashMap.insert Node.handle_init Node.next_msg_id Node.init_ok
    Node.reply
tests_pass = (refl, refl, refl, (refl, refl), refl, (refl, refl), refl, refl, refl, refl, refl)
