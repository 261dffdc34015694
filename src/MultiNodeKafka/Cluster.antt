-- ===== src/MultiNodeKafka/Cluster.antt =====
-- The nodes of the replicated logs and the messages between them, in any interleaving: a client's
-- request arrives, or any message that a node sent, late, again or never.
pub mod Replicas
pub mod Operations
pub mod Steps
pub mod Agreement
pub mod Holders
pub mod Acknowledged
pub mod Durable
pub mod Answered
mod Tests
use glome_rs.Base.{List, String, [], get_elem?, none, some, u64_mod, ℕ, ◌+◌, ◌<◌, ◌≡◌}
use glome_rs.Maelstrom.Message.{Message, MessageBody}
use glome_rs.Maelstrom.Node
use glome_rs.Maelstrom.Node.{Node}
use glome_rs.Maelstrom.Log.{get_or_create}
use glome_rs.Maelstrom.Net.{Net, settle}
use glome_rs.MultiNodeKafka
use glome_rs.MultiNodeKafka.{KafkaNode, handle}

abbrev pub Cluster : Type 0 → Type 0
Cluster V = Net V KafkaNode

module _ {V : Type 0} where
  abbrev pub receive : Cluster V → Message V → Cluster V
  receive c m = settle c m.dest (handle (c.state m.dest) (c.node m.dest) m)

  -- What clients send: anything but the set-up of a node and a replicated write.
  abbrev pub IsRequest : MessageBody V → Type 0
  IsRequest (MessageBody.init _ _ _) = ⊥
  IsRequest (MessageBody.replicate _ _ _ _) = ⊥
  IsRequest _ = Unit

  -- No log of the leader is full: its offsets are of 64 bits.
  abbrev pub HasRoom : String → Cluster V → Type 0
  HasRoom leader c =
      (key : String) → (get_or_create (c.state leader).logs key).next_offset + 1 < u64_mod

  pub data Step (leader : String) (c : Cluster V) : Cluster V → Type 0 where
    request : (m : Message V) → IsRequest m.body → HasRoom leader c → Step leader c (receive c m)
    deliver :
        (k : ℕ) (m : Message V)
        → get_elem? c.sent k ≡ some m
        → HasRoom leader c
        → Step leader c (receive c m)

  -- The cluster after every node has handled its `init`.
  abbrev pub started : List String → String → List (Message V) × KafkaNode × Node
  started ids i =
      elim (handle {V = V} MultiNodeKafka.new Node.new
        (record { src = "c0"; dest = i; body = MessageBody.init 1 i ids })) [
          | none ↦ ([], MultiNodeKafka.new, Node.new)
          | some r ↦ r
        ]

  abbrev pub start : List String → Cluster V
  start ids = record { state = λ i. (started ids i).1; node = λ i. (started ids i).2; sent = [] }

  pub data Reach (leader : String) (ids : List String) : Cluster V → Type 0 where
    here : Reach leader ids (start ids)
    next : {c d : Cluster V} → Reach leader ids c → Step leader c d → Reach leader ids d
