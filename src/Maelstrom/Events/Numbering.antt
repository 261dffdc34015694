-- ===== src/Maelstrom/Events/Numbering.antt =====
-- The numbers of the messages of a service with a timer.
use glome_rs.Base.{List, [], length, refl, some, u64_mod, ◌<◌, ◌∷◌}
use glome_rs.Maelstrom.Node.{Node}
use glome_rs.Maelstrom.Handler.Numbering.{
  Sound, IsSound, Finishes, proceed-Finishes, Distinct, Finishes-Distinct,
}
use glome_rs.Maelstrom.Events.{Event, Gossiper, respond, serve}

-- A service whose responses and whose gossip are numbered on from the node's counter and sent in
-- the node's name.
pub record IsNumbered {V S : Type 0} (g : Gossiper V S) : Type 0 where
  pub responses : IsSound g.handler
  pub gossips : (s : S) (node : Node) → Sound {V = V} {S = S} node (some (g.gossip s node))

module _ {V S : Type 0} (g : Gossiper V S) (law : IsNumbered g) where
  respond-Sound : (s : S) (node : Node) (event : Event V) → Sound node (respond g s node event)
  respond-Sound s node Event.tick = law.gossips s node
  respond-Sound s node (Event.received msg) = law.responses.sound s node msg

  serve-Finishes :
      (s : S) (node : Node) (events : List (Event V)) → Finishes node.msg_id (serve g s node events)
  unfolding serve
  serve-Finishes s node [] = refl
  serve-Finishes s node (event ∷ events) =
      proceed-Finishes node (respond g s node event) (λ s' node'. serve g s' node' events)
        (respond-Sound s node event) (λ s' node'. serve-Finishes s' node' events)

  -- However the timer and the messages interleave, no two of the messages that a service with a
  -- timer sends carry the same number, if its responses and its gossip are numbered on from the
  -- node's counter and it sends fewer than 2^64.
  pub serve-Distinct :
      (s : S) (node : Node) (events : List (Event V))
      → length (serve g s node events).0 < u64_mod
      → Distinct (serve g s node events).0
  serve-Distinct s node events room =
      Finishes-Distinct node.msg_id (serve g s node events) room (serve-Finishes s node events)
