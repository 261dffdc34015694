-- ===== src/Maelstrom/Events.antt =====
-- grow_only_counter/src/main.rs and multi_node_broadcast/src/main.rs, which are alike: a loop that
-- serves the gossip timer and the received messages as they come.
pub mod Numbering
use glome_rs.Base.{List, Option, String, [], none, some, ℕ, ◌∷◌}
use glome_rs.Maelstrom.Message.{Message}
use glome_rs.Maelstrom.Node
use glome_rs.Maelstrom.Node.{Node}
use glome_rs.Maelstrom.Handler.{Handled, MessageHandler, Ending, proceed, encode_lines}

-- What `select!` finds ready: the timer or a received message.
pub data Event (V : Type 0) : Type 0 where
  tick : Event V
  received : Message V → Event V

-- A service with a timer: its `handle` and its `gossip`.
pub record Gossiper (V S : Type 0) : Type 0 where
  pub handler : MessageHandler V S
  pub gossip : S → Node → List (Message V) × S × Node

abbrev pub respond : {V S : Type 0} → Gossiper V S → S → Node → Event V → Handled V S
respond g s node Event.tick = some (g.gossip s node)
respond g s node (Event.received msg) = g.handler.handle s node msg

-- The loop over the events: what is sent, in order, and how the loop ends.
unfoldable pub serve :
    {V S : Type 0} → Gossiper V S → S → Node → List (Event V) → List (Message V) × Ending S
serve g s node [] = ([], Ending.waiting s node)
serve g s node (event ∷ events) =
    proceed (respond g s node event) (λ s' node'. serve g s' node' events)

-- What the process sees: the timer, and the lines of stdin.
pub data Input : Type 0 where
  timer : Input
  line : String → Input

-- The reader hands on the lines that parse.
unfoldable pub decode : {V : Type 0} → (String → Option (Message V)) → List Input → List (Event V)
decode from_str [] = []
decode from_str (Input.timer ∷ inputs) = Event.tick ∷ decode from_str inputs
decode from_str (Input.line text ∷ inputs) =
    let rest = decode from_str inputs in
    elim (from_str text) [ none ↦ rest | some msg ↦ Event.received msg ∷ rest ]

-- The lines that the process writes, from a fresh node.
unfoldable pub run :
    {V S : Type 0}
    → (String → Option (Message V))
    → (Message V → Option (List ℕ))
    → Gossiper V S
    → S
    → List Input
    → List (List ℕ) × Ending S
unfolding serve decode
run from_str to_vec g s inputs =
    let (outs, end) = serve g s Node.new (decode from_str inputs) in (encode_lines to_vec outs, end)
