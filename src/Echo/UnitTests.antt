-- ===== src/Echo/UnitTests.antt =====
-- The unit tests of echo/src/node.rs, and that all of them hold.
use glome_rs.Base.{List, String, [], refl, ◌∷◌, ◌≡◌}
use glome_rs.Maelstrom.Message.{MessageBody}
use glome_rs.Maelstrom.Node
use glome_rs.Maelstrom.Checks.{session, asked, Expect, numbers, client_asks, client_gets}
use glome_rs.Echo
use glome_rs.Echo.{handler}

abbrev alone : List String
alone = "n1" ∷ []

abbrev TestEchoNodeHandlesInitMessage : Type 0
TestEchoNodeHandlesInitMessage =
    Expect
      (session handler tt Node.new
        (client_asks (MessageBody.init 1 "n1" ("n1" ∷ "n2" ∷ "n3" ∷ [])) ∷ []))
      (λ out s node.
        (out ≡ client_gets (MessageBody.init_ok 0 1) ∷ [])
        × (node.id ≡ "n1")
        × (node.peers ≡ "n2" ∷ "n3" ∷ []))

abbrev TestEchoNodeHandlesEchoMessage : Type 0
TestEchoNodeHandlesEchoMessage =
    Expect (asked handler tt alone (MessageBody.echo 42 "Hello, World!" ∷ []))
      (λ out s node. out ≡ client_gets (MessageBody.echo_ok 0 42 "Hello, World!") ∷ [])

abbrev TestEchoNodeIgnoresUnknownMessages : Type 0
TestEchoNodeIgnoresUnknownMessages =
    Expect (session handler tt Node.new (client_asks (MessageBody.generate 1) ∷ []))
      (λ out s node. out ≡ [])

abbrev TestEchoNodeMultipleEchoMessages : Type 0
TestEchoNodeMultipleEchoMessages =
    Expect
      (session handler tt (Node.handle_init Node.new "n1" alone)
        (("c1", "n1", MessageBody.echo 1 "First") ∷ ("c2", "n1", MessageBody.echo 2 "Second") ∷ []))
      (λ out s node.
        out
        ≡ ("n1", "c1", MessageBody.echo_ok 0 1 "First")
          ∷ ("n1", "c2", MessageBody.echo_ok 0 2 "Second")
          ∷ [])

abbrev TestEchoNodeGeneratesUniqueMsgIds : Type 0
TestEchoNodeGeneratesUniqueMsgIds =
    numbers (asked handler tt alone (MessageBody.echo 1 "test" ∷ MessageBody.echo 1 "test" ∷ []))
    ≡ 1 ∷ 2 ∷ []

tests_pass :
    TestEchoNodeHandlesInitMessage × TestEchoNodeHandlesEchoMessage
    × TestEchoNodeIgnoresUnknownMessages × TestEchoNodeMultipleEchoMessages
    × TestEchoNodeGeneratesUniqueMsgIds
unfolding Echo.handle Echo.handle_body Node.handle_init Node.next_msg_id Node.init_ok Node.reply
tests_pass = ((refl, refl, refl), refl, refl, refl, refl)
