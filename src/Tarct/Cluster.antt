-- ===== src/Tarct/Cluster.antt =====
-- The nodes of the read-committed store and the messages between them, in any interleaving: a
-- client's transaction arrives, or any message that a node sent, late, again or never.
pub mod Invariant
pub mod Commits
pub mod Responses
pub mod Transactions
pub mod Steps
pub mod History
mod Tests
use glome_rs.Base.{
  List, String, [], get_elem?, nat_eq, none, pair_eq, some, string_eq, true, u64_mod, ℕ, ◌+◌, ◌<◌,
  ◌≡◌,
}
use glome_rs.Collections.HashSet.{contains}
use glome_rs.Maelstrom.Message.{Message, MessageBody, Op}
use glome_rs.Maelstrom.Node
use glome_rs.Maelstrom.Node.{Node}
use glome_rs.Maelstrom.Net.{Net, settle}
use glome_rs.Txn.{IsKnown}
use glome_rs.Tarct
use glome_rs.Tarct.{TarctNode, handle}
use glome_rs.Tarct.Hash.{stable_hash}

abbrev pub Cluster : Type 0 → Type 0
Cluster V = Net V TarctNode

-- The ids of the nodes have different hashes.
abbrev pub AreApart : List String → Type 0
AreApart ids =
    (i j : String)
    → contains i ids ≡ true
    → contains j ids ≡ true
    → stable_hash i ≡ stable_hash j
    → i ≡ j

module _ {V : Type 0} where
  abbrev pub receive : Cluster V → Message V → Cluster V
  receive c m = settle c m.dest (handle (c.state m.dest) (c.node m.dest) m)

  abbrev pub txn_request : String → String → ℕ → List Op → Message V
  txn_request client i n txn = record { src = client; dest = i; body = MessageBody.txn n txn }

  -- A client sends a transaction of reads and writes to one of the nodes. No clock comes to 2^64.
  pub data Step (ids : List String) (c : Cluster V) : Cluster V → Type 0 where
    request :
        (client i : String) (n : ℕ) (txn : List Op)
        → contains i ids ≡ true
        → IsKnown txn
        → (c.state i).lamport_ts + 1 < u64_mod
        → Step ids c (receive c (txn_request client i n txn))
    deliver : (k : ℕ) (m : Message V) → get_elem? c.sent k ≡ some m → Step ids c (receive c m)

  -- The cluster after every node has handled its `init`.
  abbrev pub started : List String → String → List (Message V) × TarctNode × Node
  started ids i =
      elim (handle {V = V} Tarct.new Node.new
        (record { src = "c0"; dest = i; body = MessageBody.init 1 i ids })) [
          | none ↦ ([], Tarct.new, Node.new)
          | some r ↦ r
        ]

  abbrev pub start : List String → Cluster V
  start ids = record { state = λ i. (started ids i).1; node = λ i. (started ids i).2; sent = [] }

  pub data Reach (ids : List String) : Cluster V → Type 0 where
    here : Reach ids (start ids)
    next : {c d : Cluster V} → Reach ids c → Step ids c d → Reach ids d
