-- ===== src/Tarut/Tests.antt =====
-- The read-uncommitted store on concrete inputs.
use glome_rs.Base.{nat_eq, List, [], add64, arith, none, some, ℕ, ◌++◌, ◌∷◌, ◌≡◌}
use glome_rs.Collections.HashMap.{get_or}
use glome_rs.Maelstrom.Message.{Message, MessageBody, Op}
use glome_rs.Maelstrom.Node.{Node}
use glome_rs.Txn.{last_write, value_after, answers}
use glome_rs.Tarut.{TarutNode, apply_op, handle_tx}
use glome_rs.Tarut.Answers.{view, known}
use glome_rs.Tarut.LastWriter.{entry, apply_op_swap}
use glome_rs.Tarut.Handle.{stamped, handle_tx_lem}

abbrev stored : TarutNode
stored = record { entries = (4, some 10) ∷ []; versions = (4, 3) ∷ []; commit_ts = 1 }

abbrev ops : List Op
ops = ("r", 4, none) ∷ ("cas", 4, some 9) ∷ ("w", 4, some 11) ∷ []

abbrev n1 : Node
n1 = record { id = "n1"; peers = "n2" ∷ []; msg_id = 0 }

abbrev request : Message Unit
request = record { src = "c1"; dest = "n1"; body = MessageBody.txn 3 ops }

apply_op_swap_example :
    entry (apply_op (apply_op stored ("w", 4, some 20, 5)) ("w", 4, some 30, 6)) 4
    ≡ entry (apply_op (apply_op stored ("w", 4, some 30, 6)) ("w", 4, some 20, 5)) 4
apply_op_swap_example =
    apply_op_swap stored 4 4 4 (some 20) (some 30) 5 6 (λ same clash. absurd (omega (arith, clash)))

handle_tx_lem_example :
    (gossip : List (Message Unit)) × (s' : TarutNode) × (node' : Node) × (handle_tx stored n1
        request 3 ops
      ≡ (
        gossip
            ++ record {
              src = "n1";
              dest = "c1";
              body = MessageBody.txn_ok node'.msg_id 3 (answers (view stored) [] (known ops));
            }
              ∷ [],
        s',
        node',
      ))
    × ((k : ℕ) → view s' k ≡ value_after (view stored) (known ops) k)
    × ((k : ℕ)
        → get_or 0 k s'.versions
          ≡ stamped (get_or 0 k stored.versions) (last_write k ops) (add64 1 1))
handle_tx_lem_example = handle_tx_lem Unit stored n1 request 3 ops
