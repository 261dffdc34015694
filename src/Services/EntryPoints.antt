-- ===== src/Services/EntryPoints.antt =====
-- The main.rs of the services that have no timer: each passes a fresh handler to `run_node`.
use glome_rs.Base.{List, Option, String, [], none, some, ℕ, ◌∷◌}
use glome_rs.Maelstrom.Message.{Message}
use glome_rs.Maelstrom.Node
use glome_rs.Maelstrom.Handler.{Ending, run_node, encode_lines}
use glome_rs.Echo
use glome_rs.UniqueIds
use glome_rs.UniqueIds.{UniqueIdNode}
use glome_rs.UniqueIds.Runs.{run}
use glome_rs.SingleNodeTat
use glome_rs.SingleNodeTat.{TatNode}
use glome_rs.SingleNodeBroadcast
use glome_rs.SingleNodeBroadcast.{SingleNodeBroadcastNode}
use glome_rs.SingleNodeKafka
use glome_rs.MultiNodeKafka
use glome_rs.Tarct
use glome_rs.Tarct.{TarctNode}
use glome_rs.Tarut
use glome_rs.Tarut.{TarutNode}

module _ {V : Type 0} (from_str : String → Option (Message V))
    (to_vec : Message V → Option (List ℕ)) where
  abbrev pub echo : List String → List (List ℕ) × Ending Unit
  echo lines = run_node from_str to_vec Echo.handler tt lines

  abbrev pub single_node_tat : List String → List (List ℕ) × Ending TatNode
  single_node_tat lines = run_node from_str to_vec SingleNodeTat.handler SingleNodeTat.new lines

  abbrev pub single_node_broadcast : List String → List (List ℕ) × Ending SingleNodeBroadcastNode
  single_node_broadcast lines =
      run_node from_str to_vec SingleNodeBroadcast.handler SingleNodeBroadcast.new lines

  abbrev pub single_node_kafka : List String → List (List ℕ) × Ending SingleNodeKafka.KafkaNode
  single_node_kafka lines =
      run_node from_str to_vec SingleNodeKafka.handler SingleNodeKafka.new lines

  abbrev pub multi_node_kafka : List String → List (List ℕ) × Ending MultiNodeKafka.KafkaNode
  multi_node_kafka lines = run_node from_str to_vec MultiNodeKafka.handler MultiNodeKafka.new lines

  abbrev pub tarct : List String → List (List ℕ) × Ending TarctNode
  tarct lines = run_node from_str to_vec Tarct.handler Tarct.new lines

  abbrev pub tarut : List String → List (List ℕ) × Ending TarutNode
  tarut lines = run_node from_str to_vec Tarut.handler Tarut.new lines

  -- The lines that parse, each with the reading of the clock beside it.
  abbrev pub timed_lines : List (ℕ × String) → List (ℕ × Message V)
  timed_lines [] = []
  timed_lines ((millis, line) ∷ lines) =
      let rest = timed_lines lines in
      elim (from_str line) [ none ↦ rest | some message ↦ (millis, message) ∷ rest ]

  abbrev pub uniqueids : (String → ℕ) → List (ℕ × String) → List (List ℕ) × Ending UniqueIdNode
  uniqueids xxh3_64 lines =
      let (outs, end) = run xxh3_64 UniqueIds.new Node.new (timed_lines lines) in
      (encode_lines to_vec outs, end)
