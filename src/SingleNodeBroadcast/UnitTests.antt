-- ===== src/SingleNodeBroadcast/UnitTests.antt =====
-- The unit tests of single_node_broadcast/src/node.rs, and that all of them hold.
use glome_rs.Base.{List, String, [], nat_eq, none, pair_eq, refl, some, string_eq, ◌∷◌, ◌≡◌}
use glome_rs.Collections.HashSet
use glome_rs.Collections.HashSet.{contains}
use glome_rs.Maelstrom.Message.{MessageBody}
use glome_rs.Maelstrom.Node
use glome_rs.Maelstrom.Checks.{session, asked, Expect, numbers, client_asks, client_gets}
use glome_rs.SingleNodeBroadcast
use glome_rs.SingleNodeBroadcast.{new, handler}

abbrev alone : List String
alone = "n1" ∷ []

abbrev two : List String
two = "n1" ∷ "n2" ∷ []

abbrev three : List String
three = "n1" ∷ "n2" ∷ "n3" ∷ []

abbrev TestBroadcastNodeHandlesInitMessage : Type 0
TestBroadcastNodeHandlesInitMessage =
    Expect (session handler new Node.new (client_asks (MessageBody.init 1 "n1" three) ∷ []))
      (λ out s node.
        (out ≡ client_gets (MessageBody.init_ok 0 1) ∷ [])
        × (node.id ≡ "n1")
        × (node.peers ≡ "n2" ∷ "n3" ∷ []))

abbrev TestBroadcastNodeHandlesTopologyMessage : Type 0
TestBroadcastNodeHandlesTopologyMessage =
    Expect (asked handler new two (MessageBody.topology 1 [] ∷ []))
      (λ out s node. out ≡ client_gets (MessageBody.topology_ok 0 1) ∷ [])

abbrev TestBroadcastNodeHandlesBroadcastMessage : Type 0
TestBroadcastNodeHandlesBroadcastMessage =
    Expect (asked handler new three (MessageBody.broadcast 1 42 ∷ [])) (λ out s node.
      (out
        ≡ ("n1", "n2", MessageBody.broadcast 0 42)
          ∷ ("n1", "n3", MessageBody.broadcast 0 42)
          ∷ client_gets (MessageBody.broadcast_ok 0 1)
          ∷ [])
      × (s.messages ≡ 42 ∷ []))

abbrev TestBroadcastNodeHandlesReadMessage : Type 0
TestBroadcastNodeHandlesReadMessage =
    Expect
      (asked handler (record new { messages = 10 ∷ 20 ∷ 30 ∷ [] }) alone (MessageBody.read 1 ∷ []))
      (λ out s node.
        out ≡ client_gets (MessageBody.read_ok 0 1 (some (10 ∷ 20 ∷ 30 ∷ [])) none) ∷ [])

abbrev TestBroadcastNodeHandlesMultipleBroadcasts : Type 0
TestBroadcastNodeHandlesMultipleBroadcasts =
    Expect
      (asked handler new two
        (MessageBody.broadcast 1 100 ∷ MessageBody.broadcast 2 200 ∷ MessageBody.read 3 ∷ []))
      (λ out s node.
        (out
          ≡ ("n1", "n2", MessageBody.broadcast 0 100)
            ∷ client_gets (MessageBody.broadcast_ok 0 1)
            ∷ ("n1", "n2", MessageBody.broadcast 0 200)
            ∷ client_gets (MessageBody.broadcast_ok 0 2)
            ∷ client_gets (MessageBody.read_ok 0 3 (some (100 ∷ 200 ∷ [])) none)
            ∷ [])
        × (s.messages ≡ 100 ∷ 200 ∷ []))

abbrev TestBroadcastNodeIgnoresUnknownMessages : Type 0
TestBroadcastNodeIgnoresUnknownMessages =
    Expect (session handler new Node.new (client_asks (MessageBody.generate 1) ∷ []))
      (λ out s node. out ≡ [])

abbrev TestBroadcastNodeWithNoPeers : Type 0
TestBroadcastNodeWithNoPeers =
    Expect (asked handler new alone (MessageBody.broadcast 1 42 ∷ [])) (λ out s node.
      (out ≡ client_gets (MessageBody.broadcast_ok 0 1) ∷ []) × (s.messages ≡ 42 ∷ []))

abbrev TestBroadcastNodeReadWhenEmpty : Type 0
TestBroadcastNodeReadWhenEmpty =
    Expect (asked handler new alone (MessageBody.read 1 ∷ []))
      (λ out s node. out ≡ client_gets (MessageBody.read_ok 0 1 (some []) none) ∷ [])

abbrev TestBroadcastNodeGeneratesUniqueMsgIds : Type 0
TestBroadcastNodeGeneratesUniqueMsgIds =
    numbers (asked handler new two (MessageBody.broadcast 1 42 ∷ MessageBody.broadcast 1 42 ∷ []))
    ≡ 1 ∷ 2 ∷ 3 ∷ 4 ∷ []

tests_pass :
    TestBroadcastNodeHandlesInitMessage × TestBroadcastNodeHandlesTopologyMessage
    × TestBroadcastNodeHandlesBroadcastMessage × TestBroadcastNodeHandlesReadMessage
    × TestBroadcastNodeHandlesMultipleBroadcasts × TestBroadcastNodeIgnoresUnknownMessages
    × TestBroadcastNodeWithNoPeers × TestBroadcastNodeReadWhenEmpty
    × TestBroadcastNodeGeneratesUniqueMsgIds
unfolding SingleNodeBroadcast.handle SingleNodeBroadcast.handle_body
    SingleNodeBroadcast.handle_broadcast SingleNodeBroadcast.forward HashSet.insert HashSet.is_new
    contains Node.handle_init Node.next_msg_id Node.init_ok Node.reply
tests_pass =
    ((refl, refl, refl), refl, (refl, refl), refl, (refl, refl), refl, (refl, refl), refl, refl)
