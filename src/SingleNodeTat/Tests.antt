-- ===== src/SingleNodeTat/Tests.antt =====
-- Transactions on one node on concrete inputs.
use glome_rs.Base.{List, [], none, refl, some, ℕ, ◌++◌, ◌∷◌, ◌≡◌}
use glome_rs.Maelstrom.Message.{Op}
use glome_rs.Txn.{value_after, answers}
use glome_rs.SingleNodeTat.{TatNode, process_txn}
use glome_rs.SingleNodeTat.Answers.{view, process_txn-answers, process_txn_unknown}

abbrev stored : TatNode
stored = record { entries = (1, some 5) ∷ [] }

abbrev ops : List Op
ops = ("r", 1, none) ∷ ("w", 1, some 6) ∷ ("r", 1, none) ∷ []

process_txn-answers_example :
    (s' : TatNode) × (process_txn stored ops ≡ some (answers (view stored) [] ops, s'))
    × ((k : ℕ) → view s' k ≡ value_after (view stored) ops k)
process_txn-answers_example = process_txn-answers stored ops (refl, (refl, (refl, tt)))

process_txn_unknown_example : process_txn stored (ops ++ ("cas", 1, none) ∷ ops) ≡ none
process_txn_unknown_example = process_txn_unknown stored ops ops ("cas", 1, none) refl
