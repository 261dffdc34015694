-- ===== src/MultiNodeBroadcast/UnitTests.antt =====
-- The unit tests of multi_node_broadcast/src/node.rs, with a shuffle that leaves the list as it is,
-- and that all of them hold.
use glome_rs.Base.{
  All, List, String, [], false, length, nat_eq, none, pair_eq, refl, some, string_eq, true, ℕ, ◌==◌,
  ◌∷◌, ◌≡◌,
}
use glome_rs.Collections.HashMap
use glome_rs.Collections.HashMap.{get, get_or}
use glome_rs.Collections.HashSet
use glome_rs.Collections.HashSet.{contains}
use glome_rs.Maelstrom.Message.{Message, MessageBody}
use glome_rs.Maelstrom.Node
use glome_rs.Maelstrom.Node.{Node}
use glome_rs.Maelstrom.Handler.{Handled, MessageHandler}
use glome_rs.Maelstrom.Checks.{session, asked, Expect, numbers, client_asks, client_gets}
use glome_rs.MultiNodeBroadcast
use glome_rs.MultiNodeBroadcast.{MultiNodeBroadcastNode, new, gossip, construct_k_regular_neighbors}

abbrev in_order : List String → List String
in_order xs = xs

abbrev handler : MessageHandler Unit MultiNodeBroadcastNode
handler = MultiNodeBroadcast.handler in_order

abbrev alone : List String
alone = "n1" ∷ []

abbrev two : List String
two = "n1" ∷ "n2" ∷ []

abbrev three : List String
three = "n1" ∷ "n2" ∷ "n3" ∷ []

abbrev six : List String
six = "n1" ∷ "n2" ∷ "n3" ∷ "n4" ∷ "n5" ∷ "n6" ∷ []

abbrev node_of : List String → Node
node_of ids = Node.handle_init Node.new "n1" ids

-- A gossip timer that fires.
abbrev gossips : MultiNodeBroadcastNode → Node → Handled Unit MultiNodeBroadcastNode
gossips s node = some (gossip s node)

-- The neighbours are so many, of the peers, and not the node itself.
abbrev AreNeighbors : ℕ → Node → List String → Type 0
AreNeighbors n node xs =
    (length xs ≡ n) × All (λ p. (contains p node.peers ≡ true) × ((p == node.id) ≡ false)) xs

abbrev TestBroadcastNodeHandlesInitMessage : Type 0
TestBroadcastNodeHandlesInitMessage =
    Expect
      (session handler new Node.new
        (client_asks (MessageBody.init 1 "n1" ("n1" ∷ "n2" ∷ "n3" ∷ "n4" ∷ "n5" ∷ [])) ∷ []))
      (λ out s node.
        (out ≡ client_gets (MessageBody.init_ok 0 1) ∷ [])
        × (node.id ≡ "n1")
        × (node.peers ≡ "n2" ∷ "n3" ∷ "n4" ∷ "n5" ∷ [])
        × (s.gossip_peers ≡ "n2" ∷ "n3" ∷ "n4" ∷ "n5" ∷ []))

abbrev TestBroadcastNodeHandlesTopologyMessage : Type 0
TestBroadcastNodeHandlesTopologyMessage =
    Expect (asked handler new two (MessageBody.topology 1 [] ∷ []))
      (λ out s node. out ≡ client_gets (MessageBody.topology_ok 0 1) ∷ [])

abbrev TestBroadcastNodeHandlesBroadcastMessage : Type 0
TestBroadcastNodeHandlesBroadcastMessage =
    Expect (asked handler new three (MessageBody.broadcast 1 42 ∷ [])) (λ out s node.
      (out ≡ client_gets (MessageBody.broadcast_ok 0 1) ∷ []) × (s.messages ≡ 42 ∷ []))

abbrev TestBroadcastNodeHandlesBroadcastGossipMessage : Type 0
TestBroadcastNodeHandlesBroadcastGossipMessage =
    Expect
      (session handler new (node_of two)
        (("n2", "n1", MessageBody.broadcast_gossip 1 (10 ∷ 20 ∷ 30 ∷ [])) ∷ []))
      (λ out s node. (out ≡ []) × (s.messages ≡ 10 ∷ 20 ∷ 30 ∷ []))

abbrev TestBroadcastNodeHandlesReadMessage : Type 0
TestBroadcastNodeHandlesReadMessage =
    Expect
      (asked handler (record new { messages = 10 ∷ 20 ∷ 30 ∷ [] }) alone (MessageBody.read 1 ∷ []))
      (λ out s node.
        out ≡ client_gets (MessageBody.read_ok 0 1 (some (10 ∷ 20 ∷ 30 ∷ [])) none) ∷ [])

abbrev TestGossipMethod : Type 0
TestGossipMethod =
    Expect
      (gossips (record new { messages = 100 ∷ 200 ∷ []; gossip_peers = "n2" ∷ "n3" ∷ [] })
        (node_of three))
      (λ out s node.
        out
        ≡ ("n1", "n2", MessageBody.broadcast_gossip 0 (100 ∷ 200 ∷ []))
          ∷ ("n1", "n3", MessageBody.broadcast_gossip 0 (100 ∷ 200 ∷ []))
          ∷ [])

abbrev TestGossipMethodWithEmptyState : Type 0
TestGossipMethodWithEmptyState =
    Expect (gossips new Node.new) (λ out s node. out ≡ [])
    × Expect (gossips new (node_of alone)) (λ out s node. out ≡ [])
    × Expect (gossips (record new { gossip_peers = "n2" ∷ [] }) (node_of alone))
        (λ out s node. out ≡ [])

abbrev TestConstructKRegularNeighbors : Type 0
TestConstructKRegularNeighbors =
    let node = node_of six in
    AreNeighbors 3 node (construct_k_regular_neighbors in_order node 3)
    × (length (construct_k_regular_neighbors in_order node 10) ≡ 5)
    × (length (construct_k_regular_neighbors in_order node 0) ≡ 0)

abbrev TestBroadcastNodeHandlesMultipleBroadcasts : Type 0
TestBroadcastNodeHandlesMultipleBroadcasts =
    Expect
      (asked handler new two
        (MessageBody.broadcast 1 100 ∷ MessageBody.broadcast 2 200 ∷ MessageBody.read 3 ∷ []))
      (λ out s node.
        (out
          ≡ client_gets (MessageBody.broadcast_ok 0 1)
            ∷ client_gets (MessageBody.broadcast_ok 0 2)
            ∷ client_gets (MessageBody.read_ok 0 3 (some (100 ∷ 200 ∷ [])) none)
            ∷ [])
        × (s.messages ≡ 100 ∷ 200 ∷ []))

abbrev TestBroadcastNodeDeduplicatesMessages : Type 0
TestBroadcastNodeDeduplicatesMessages =
    Expect
      (asked handler new alone
        (MessageBody.broadcast 1 42 ∷ MessageBody.broadcast 1 42 ∷ MessageBody.broadcast 1 42 ∷ []))
      (λ out s node. s.messages ≡ 42 ∷ [])

abbrev TestBroadcastNodeIgnoresUnknownMessages : Type 0
TestBroadcastNodeIgnoresUnknownMessages =
    Expect (session handler new Node.new (client_asks (MessageBody.generate 1) ∷ []))
      (λ out s node. out ≡ [])

abbrev TestBroadcastNodeReadWhenEmpty : Type 0
TestBroadcastNodeReadWhenEmpty =
    Expect (asked handler new alone (MessageBody.read 1 ∷ []))
      (λ out s node. out ≡ client_gets (MessageBody.read_ok 0 1 (some []) none) ∷ [])

-- The numbers of two gossips in a row.
abbrev TestBroadcastNodeGeneratesUniqueMsgIds : Type 0
TestBroadcastNodeGeneratesUniqueMsgIds =
    let (out, s, node) : List (Message Unit) × MultiNodeBroadcastNode × Node =
      gossip (record new { messages = 42 ∷ []; gossip_peers = "n2" ∷ [] }) (node_of two) in
    (numbers (some (out, s, node)) ≡ 1 ∷ []) × (numbers (gossips s node) ≡ 2 ∷ [])

tests_pass :
    TestBroadcastNodeHandlesInitMessage × TestBroadcastNodeHandlesTopologyMessage
    × TestBroadcastNodeHandlesBroadcastMessage × TestBroadcastNodeHandlesBroadcastGossipMessage
    × TestBroadcastNodeHandlesReadMessage × TestGossipMethod × TestGossipMethodWithEmptyState
    × TestConstructKRegularNeighbors × TestBroadcastNodeHandlesMultipleBroadcasts
    × TestBroadcastNodeDeduplicatesMessages × TestBroadcastNodeIgnoresUnknownMessages
    × TestBroadcastNodeReadWhenEmpty × TestBroadcastNodeGeneratesUniqueMsgIds
unfolding MultiNodeBroadcast.handle MultiNodeBroadcast.handle_body
    MultiNodeBroadcast.handle_broadcast MultiNodeBroadcast.handle_broadcast_gossip_from
    MultiNodeBroadcast.insert_all MultiNodeBroadcast.gossip MultiNodeBroadcast.gossip_all
    MultiNodeBroadcast.gossip_peer MultiNodeBroadcast.delta_for
    MultiNodeBroadcast.construct_k_regular_neighbors MultiNodeBroadcast.handle_read get get_or
    HashMap.insert HashMap.or_insert HashSet.insert contains Node.handle_init Node.next_msg_id
    Node.init_ok Node.reply
tests_pass = (
  (refl, refl, refl, refl),
  refl,
  (refl, refl),
  (refl, refl),
  refl,
  refl,
  (refl, refl, refl),
  ((refl, ((refl, refl), ((refl, refl), ((refl, refl), tt)))), refl, refl),
  (refl, refl),
  refl,
  refl,
  refl,
  (refl, refl),
)
