-- ===== src/MultiNodeBroadcast/Cluster.antt =====
-- The broadcast nodes and the messages between them, in any interleaving: a client's request
-- arrives, a timer fires, or any message that a node sent arrives, late, again or never.
pub mod Invariant
pub mod Gossips
pub mod Steps
pub mod Reads
pub mod Finds
pub mod Spreads
mod Tests
use glome_rs.Base.{List, String, [], get_elem?, none, some, ℕ, ◌++◌, ◌≡◌}
use glome_rs.Maelstrom.Message.{Message, MessageBody}
use glome_rs.Maelstrom.Node
use glome_rs.Maelstrom.Node.{Node}
use glome_rs.Maelstrom.Net.{Net, settle}
use glome_rs.Maelstrom.Events.{Event, respond}
use glome_rs.MultiNodeBroadcast
use glome_rs.MultiNodeBroadcast.{MultiNodeBroadcastNode, handle}
use glome_rs.MultiNodeBroadcast.Main.{gossiper}
use glome_rs.MultiNodeBroadcast.Messages.{brings}

-- `asked` is no state of the program: the values that clients broadcast.
pub record Cluster (V : Type 0) : Type 0 where
  pub net : Net V MultiNodeBroadcastNode
  pub asked : List ℕ

-- What clients send: anything but the set-up of a node and a gossip.
abbrev pub IsRequest : {V : Type 0} → MessageBody V → Type 0
IsRequest (MessageBody.init _ _ _) = ⊥
IsRequest (MessageBody.broadcast_gossip _ _) = ⊥
IsRequest _ = Unit

module _ {V : Type 0} (shuffle : List String → List String) where
  abbrev pub served : Cluster V → String → Event V → Net V MultiNodeBroadcastNode
  served c i event =
      settle c.net i (respond (gossiper shuffle) (c.net.state i) (c.net.node i) event)

  abbrev pub ticked : Cluster V → String → Cluster V
  ticked c i = record c { net = served c i Event.tick }

  abbrev pub received : Cluster V → Message V → Cluster V
  received c m = record c { net = served c m.dest (Event.received m) }

  abbrev pub asked_for : Cluster V → Message V → Cluster V
  asked_for c m = record {
    net = served c m.dest (Event.received m);
    asked = brings m.body ++ c.asked;
  }

  -- What the nodes do without the clients.
  pub data Quiet (c : Cluster V) : Cluster V → Type 0 where
    tick : (i : String) → Quiet c (ticked c i)
    deliver : (k : ℕ) (m : Message V) → get_elem? c.net.sent k ≡ some m → Quiet c (received c m)

  pub data Step (c : Cluster V) : Cluster V → Type 0 where
    request : (m : Message V) → IsRequest m.body → Step c (asked_for c m)
    quiet : {d : Cluster V} → Quiet c d → Step c d

  -- The cluster after every node has handled its `init`.
  abbrev pub started : List String → String → List (Message V) × MultiNodeBroadcastNode × Node
  started ids i =
      elim (handle {V = V} shuffle MultiNodeBroadcast.new Node.new
        (record { src = "c0"; dest = i; body = MessageBody.init 1 i ids })) [
          | none ↦ ([], MultiNodeBroadcast.new, Node.new)
          | some r ↦ r
        ]

  abbrev pub start : List String → Cluster V
  start ids = record {
    net = record { state = λ i. (started ids i).1; node = λ i. (started ids i).2; sent = [] };
    asked = [];
  }

  pub data Reach (ids : List String) : Cluster V → Type 0 where
    here : Reach ids (start ids)
    next : {c d : Cluster V} → Reach ids c → Step c d → Reach ids d

  -- Some steps of the nodes, without the clients.
  pub data Later (c : Cluster V) : Cluster V → Type 0 where
    now : Later c c
    after : {d e : Cluster V} → Later c d → Quiet d e → Later c e
