-- ===== src/GrowOnlyCounter/Main.antt =====
-- grow_only_counter/src/main.rs: the counter behind its timer.
use glome_rs.Base.{List, Option, String, ℕ}
use glome_rs.Maelstrom.Message.{Message}
use glome_rs.Maelstrom.Handler.{Ending}
use glome_rs.Maelstrom.Events.{Gossiper, Input, run}
use glome_rs.Maelstrom.Events.Numbering.{IsNumbered}
use glome_rs.GrowOnlyCounter
use glome_rs.GrowOnlyCounter.{GrowOnlyCounterNode, gossip, handler}
use glome_rs.GrowOnlyCounter.Handle.{handler-IsSound, gossip-Sound}

module _ {V : Type 0} where
  abbrev pub gossiper : Gossiper V GrowOnlyCounterNode
  gossiper = record { handler = handler; gossip = gossip }

  unfoldable pub main :
      (String → Option (Message V))
      → (Message V → Option (List ℕ))
      → List Input
      → List (List ℕ) × Ending GrowOnlyCounterNode
  unfolding run
  main from_str to_vec inputs = run from_str to_vec gossiper GrowOnlyCounter.new inputs

pub gossiper-IsNumbered : (V : Type 0) → IsNumbered (gossiper {V = V})
gossiper-IsNumbered V = record { responses = handler-IsSound V; gossips = gossip-Sound V }
