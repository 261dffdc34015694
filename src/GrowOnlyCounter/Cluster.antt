-- ===== src/GrowOnlyCounter/Cluster.antt =====
-- The nodes of the grow-only counter and the messages between them, in any interleaving: a node
-- serves clients, its timer fires, and any message that was ever sent arrives, late, again or never.
pub mod Ledger
pub mod Traffic
pub mod Invariant
pub mod Steps
pub mod Reads
pub mod Informed
pub mod Rounds
pub mod Responses
pub mod Informs
pub mod Afterwards
pub mod Arrivals
pub mod Spreads
mod Tests
use glome_rs.Base.{
  List, String, [], get_elem?, length, none, some, u64_mod, ℕ, ◌++◌, ◌+◌, ◌<◌, ◌∷◌, ◌≡◌,
}
use glome_rs.Maelstrom.Message.{Message, MessageBody}
use glome_rs.Maelstrom.Node
use glome_rs.Maelstrom.Node.{Node}
use glome_rs.Maelstrom.Handler.{Handled}
use glome_rs.Maelstrom.Net.{Net, update, settle}
use glome_rs.Maelstrom.Events.{Event, respond}
use glome_rs.GrowOnlyCounter
use glome_rs.GrowOnlyCounter.{GrowOnlyCounterNode, handle}
use glome_rs.GrowOnlyCounter.Main.{gossiper}

-- `added` is no state of the program: what each node was asked to add, in order.
pub record Cluster (V : Type 0) : Type 0 where
  pub net : Net V GrowOnlyCounterNode
  pub added : String → List ℕ

module _ {V : Type 0} where
  abbrev pub settled : Cluster V → String → Handled V GrowOnlyCounterNode → Cluster V
  settled c i r = record c { net = settle c.net i r }

  abbrev pub at : Cluster V → String → Event V → Cluster V
  at c i event = settled c i (respond gossiper (c.net.state i) (c.net.node i) event)

  abbrev pub add_request : Cluster V → String → String → ℕ → ℕ → Event V
  add_request c i client n delta =
      Event.received (record { src = client; dest = i; body = MessageBody.add n delta })

  abbrev pub read_request : Cluster V → String → String → ℕ → Event V
  read_request c i client n =
      Event.received (record { src = client; dest = i; body = MessageBody.read n })

  -- A client adds a number of 64 bits, and no node is asked 2^64 times.
  pub data Step (c : Cluster V) : Cluster V → Type 0 where
    add :
        (i client : String) (n delta : ℕ)
        → delta < u64_mod
        → length (c.added i) + 1 < u64_mod
        → Step c (record (at c i (add_request c i client n delta)) {
          added = update c.added i (c.added i ++ delta ∷ []);
        })
    read : (i client : String) (n : ℕ) → Step c (at c i (read_request c i client n))
    tick : (i : String) → Step c (at c i Event.tick)
    deliver :
        (k : ℕ) (m : Message V)
        → get_elem? c.net.sent k ≡ some m
        → Step c (at c m.dest (Event.received m))

  -- The cluster after every node has handled its `init`.
  abbrev pub started : List String → String → List (Message V) × GrowOnlyCounterNode × Node
  started ids i =
      elim (handle {V = V} GrowOnlyCounter.new Node.new
        (record { src = "c0"; dest = i; body = MessageBody.init 1 i ids })) [
          | none ↦ ([], GrowOnlyCounter.new, Node.new)
          | some r ↦ r
        ]

  abbrev pub start : List String → Cluster V
  start ids = record {
    net = record { state = λ i. (started ids i).1; node = λ i. (started ids i).2; sent = [] };
    added = λ i. [];
  }

  pub data Reach (ids : List String) : Cluster V → Type 0 where
    here : Reach ids (start ids)
    next : {c d : Cluster V} → Reach ids c → Step c d → Reach ids d

  -- What the timers and the network alone can make of a cluster.
  pub data Later (c : Cluster V) : Cluster V → Type 0 where
    now : Later c c
    after_tick : {d : Cluster V} → Later c d → (i : String) → Later c (at d i Event.tick)
    after_delivery :
        {d : Cluster V}
        → Later c d
        → (k : ℕ) (m : Message V) → get_elem? d.net.sent k ≡ some m
        → Later c (at d m.dest (Event.received m))
