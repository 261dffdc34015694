-- ===== src/Services/Panics/Tests.antt =====
-- Runs of services over concrete messages and lines.
use glome_rs.Base.{
  List, Option, String, [], if◌then◌else◌, nat_eq, none, pair_eq, refl, some, string_eq, ℕ, ◌==◌,
  ◌∷◌, ◌≡◌,
}
use glome_rs.Maelstrom.Message.{Message, MessageBody}
use glome_rs.Maelstrom.Node.{Node}
use glome_rs.Maelstrom.Handler.{process, run_node}
use glome_rs.Echo
use glome_rs.SingleNodeTat
use glome_rs.MultiNodeKafka
use glome_rs.Services.Panics.{
  is_waiting, every, has_known_ops, has_ids, run_waits, bad_line_skipped,
}

abbrev messages : List (Message Unit)
messages =
    record { src = "c1"; dest = "n1"; body = MessageBody.read 1 }
    ∷ record { src = "c1"; dest = "n1"; body = MessageBody.echo 2 "hello" }
    ∷ []

abbrev n1 : Node
n1 = record { id = "n1"; peers = []; msg_id = 0 }

abbrev unknown : List (Message Unit)
unknown =
    record {
      src = "c1";
      dest = "n1";
      body = MessageBody.txn 3 (("r", 1, none) ∷ ("cas", 1, none) ∷ []);
    }
    ∷ messages

run_waits_example :
    (is_waiting (process SingleNodeTat.handler SingleNodeTat.new n1 unknown).1
      ≡ every has_known_ops unknown)
    × (is_waiting (process MultiNodeKafka.handler MultiNodeKafka.new n1 unknown).1
        ≡ every has_ids unknown)
run_waits_example = run_waits SingleNodeTat.new MultiNodeKafka.new n1 unknown

abbrev parse : String → Option (Message Unit)
parse line =
    if line == "echo"
    then some (record { src = "c1"; dest = "n1"; body = MessageBody.echo 1 "hello" })
    else none

abbrev print : Message Unit → Option (List ℕ)
print m = some (104 ∷ 105 ∷ [])

bad_line_skipped_example :
    run_node parse print Echo.handler tt ("echo" ∷ "garbage" ∷ "echo" ∷ [])
    ≡ run_node parse print Echo.handler tt ("echo" ∷ "echo" ∷ [])
bad_line_skipped_example =
    bad_line_skipped parse print Echo.handler tt ("echo" ∷ []) ("echo" ∷ []) "garbage" refl
