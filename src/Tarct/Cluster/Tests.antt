-- ===== src/Tarct/Cluster/Tests.antt =====
-- A cluster of two stores: one commits a write, and the other gets it.
use glome_rs.Base.{
  Bool-cases, List, Stands, String, [], ap, arith, inl, inr, nat_eq, none, pair_eq, refl, some,
  string_eq, sym, true, ℕ, ◌==◌, ◌∙◌, ◌∷◌, ◌≡◌, ◌⊎◌,
}
use glome_rs.Collections.HashMap
use glome_rs.Collections.HashMap.{get, get_or}
use glome_rs.Collections.HashSet.{contains}
use glome_rs.Maelstrom.Message.{Message, MessageBody, Op, Version}
use glome_rs.Txn.{value_after}
use glome_rs.Maelstrom.Node
use glome_rs.Tarct
use glome_rs.Tarct.Kv
use glome_rs.Tarct.Hash.{stable_hash}
use glome_rs.Tarct.Cluster.{Cluster, AreApart, Step, Reach, start, receive, txn_request}
use glome_rs.Tarct.Cluster.History.{requests, stores_agree, read_committed}

abbrev ids : List String
ids = "n1" ∷ "n2" ∷ []

one_of : (i : String) → contains i ids ≡ true → ("n1" ≡ i) ⊎ ("n2" ≡ i)
unfolding contains
one_of i h = elim (Bool-cases ("n1" == i)) [
  | inl e ↦ inl ((string_eq.beq_iff "n1" i).0 e)
  | inr e ↦ inr ((string_eq.beq_iff "n2" i).0 (ground (arith, h, e)))
]

differ : stable_hash "n1" ≡ stable_hash "n2" → ⊥
unfolding stable_hash
differ e = absurd (omega (arith, e))

ids-AreApart : AreApart ids
ids-AreApart i j a b e = elim (one_of i a) [
  | inl here ↦ elim (one_of j b) [
    | inl there ↦ sym here ∙ there
    | inr there ↦ absurd (differ (ap stable_hash here ∙ e ∙ ap stable_hash (sym there)))
  ]
  | inr here ↦ elim (one_of j b) [
    | inl there ↦ absurd (differ (ap stable_hash there ∙ sym e ∙ ap stable_hash (sym here)))
    | inr there ↦ sym here ∙ there
  ]
]

abbrev wrote : Cluster Unit
wrote = receive (start ids) (txn_request "c1" "n1" 1 (("w", 4, some 7) ∷ []))

abbrev replica : Message Unit
replica = record {
  src = "n1";
  dest = "n2";
  body =
      MessageBody.tarct_replicate 2
        (("w", 4, some 7, record { ts = 1; node = stable_hash "n1" }) ∷ []);
}

abbrev replicated : Cluster Unit
replicated = receive wrote replica

replicated-Reach : Reach ids replicated
unfolding Tarct.handle Tarct.handle_tx Tarct.finish Tarct.commit Tarct.stage_txn Tarct.stage_op
    Tarct.has_conflict Tarct.next_ts Tarct.max_ts Tarct.apply_all Tarct.to_ops Tarct.sort_by_key
    Tarct.insert_by_key Tarct.send_to_all Tarct.writes_of Tarct.observe Kv.apply Kv.merge_batch
    Kv.get Kv.version get get_or HashMap.insert contains Node.handle_init
replicated-Reach =
    Reach.next
      (Reach.next Reach.here
        (Step.request "c1" "n1" 1 (("w", 4, some 7) ∷ []) refl (refl, tt) (omega arith)))
      (Step.deliver 0 replica refl)

stores_agree_example : Kv.get (replicated.state "n1").kv 4 ≡ Kv.get (replicated.state "n2").kv 4
unfolding Tarct.handle Tarct.handle_tx Tarct.finish Tarct.commit Tarct.stage_txn Tarct.stage_op
    Tarct.has_conflict Tarct.next_ts Tarct.max_ts Tarct.apply_all Tarct.to_ops Tarct.sort_by_key
    Tarct.insert_by_key Tarct.send_to_all Tarct.writes_of Tarct.observe Kv.apply Kv.merge_batch
    Kv.get Kv.version get get_or HashMap.insert contains Node.handle_init
stores_agree_example = stores_agree ids ids-AreApart "n1" "n2" 4 replicated-Reach refl

read_committed_example :
    (by : Version → List Op) × ((v : Version)
      → (by v ≡ []) ⊎ Stands (requests replicated-Reach) (by v))
    × ((i : String) (k : ℕ)
        → Kv.get (replicated.state i).kv k
          ≡ value_after (λ j. none) (by (Kv.version (replicated.state i).kv k)) k)
read_committed_example = read_committed ids ids-AreApart replicated-Reach
