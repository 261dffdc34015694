-- ===== src/Tarct/Tests.antt =====
-- The read-committed store on concrete inputs.
use glome_rs.Base.{
  List, [], ap, arith, nat_eq, none, pair_eq, refl, some, string_eq, ℕ, ◌++◌, ◌∷◌, ◌≡◌, ◌≤◌,
}
use glome_rs.Collections.HashMap.{get, get_or}
use glome_rs.Maelstrom.Message.{Message, MessageBody, Version, Op}
use glome_rs.Maelstrom.Node.{Node}
use glome_rs.Txn.{answers}
use glome_rs.Tarct.Kv
use glome_rs.Tarct.Kv.{Kv, version_lt, merge_batch, version}
use glome_rs.Tarct.Kv.Merge.{entry, WriteOp, AllAgree, merge_batch_swap}
use glome_rs.Tarct.Invariant.{IsAhead, Commits}
use glome_rs.Tarct.Handle.{handle_tx-Commits}
use glome_rs.Tarct.{TarctNode, handle_tx}

abbrev first_version : Version
first_version = record { ts = 1; node = 7 }

abbrev second_version : Version
second_version = record { ts = 2; node = 5 }

abbrev from_n1 : List WriteOp
from_n1 = (4, some 10, first_version) ∷ []

abbrev from_n2 : List WriteOp
from_n2 = (4, some 20, second_version) ∷ []

abbrev store : Kv
store = record { entries = (4, some 10) ∷ []; versions = (4, first_version) ∷ [] }

abbrev node_state : TarctNode
node_state = record { kv = store; lamport_ts = 1 }

node_state-IsAhead : IsAhead node_state
unfolding Kv.version get_or get
node_state-IsAhead = record { ahead = ahead }
  where
    ahead : (k : ℕ) → (Kv.version store k).ts ≤ 1
    ahead k = ground arith

abbrev n1 : Node
n1 = record { id = "n1"; peers = "n2" ∷ []; msg_id = 0 }

abbrev ops : List Op
ops = ("r", 4, none) ∷ ("w", 4, some 30) ∷ []

abbrev request : Message Unit
request = record { src = "c1"; dest = "n1"; body = MessageBody.txn 3 ops }

merge_batch_swap_example :
    entry (merge_batch (merge_batch Kv.new from_n1) from_n2) 4
    ≡ entry (merge_batch (merge_batch Kv.new from_n2) from_n1) 4
merge_batch_swap_example = merge_batch_swap Kv.new from_n1 from_n2 4 agree
  where
    agree : AllAgree 4 from_n1 from_n2
    agree =
        (λ here. ((λ same key. absurd (ground (arith, ap (λ (v : Version). v.ts) same))), tt), tt)

handle_tx-Commits_example :
    (gossip : List (Message Unit)) × (s' : TarctNode) × (node' : Node) × (handle_tx node_state n1
        request 3 ops
      ≡ some (
        gossip
            ++ record {
              src = "n1";
              dest = "c1";
              body = MessageBody.txn_ok node'.msg_id 3 (answers (Kv.get store) [] ops);
            }
              ∷ [],
        s',
        node',
      ))
    × Commits node_state ops s'
handle_tx-Commits_example =
    handle_tx-Commits Unit node_state n1 request 3 ops (refl, (refl, tt)) node_state-IsAhead
      (omega arith)
