-- ===== src/Tarut/Answers.antt =====
-- The transactions of the read-uncommitted store against what a transaction promises.
use glome_rs.Base.{
  Bool-cases, List, Option, String, [], arith, false, if◌then◌else◌, inl, inr, nat_beq, nat_eq,
  pair_eq, refl, retain, string_eq, subst, true, ℕ, ◌++◌, ◌==◌, ◌||◌, ◌∷◌, ◌≡◌,
}
use mathlib.Core.List.{append-nil, append_assoc}
use glome_rs.Collections.HashMap.{HashMap, insert, get-insert}
use glome_rs.Maelstrom.Message.{Op}
use glome_rs.Txn.{not_both, value_after, answer, answers, value_after-snoc}
use glome_rs.Tarut.{TarutNode, read_entry, process_op, process_ops, process_txn}

abbrev pub view : TarutNode → ℕ → Option ℕ
view s = read_entry s.entries

-- The operations that are reads or writes.
abbrev pub known : List Op → List Op
known txn = retain (λ (op : Op). (op.0 == "r") || (op.0 == "w")) txn

read_entry-insert :
    (m : HashMap ℕ (Option ℕ)) (k j : ℕ) (v : Option ℕ)
    → read_entry (insert k v m) j ≡ (if nat_beq k j then v else read_entry m j)
unfolding read_entry
read_entry-insert m k j v = ground (arith, get-insert k j v m)

abbrev Ran : (ℕ → Option ℕ) → List Op → HashMap ℕ (Option ℕ) → Type 0
Ran f done m = (k : ℕ) → read_entry m k ≡ value_after f done k

process_op-known :
    (f : ℕ → Option ℕ) (done : List Op) (m : HashMap ℕ (Option ℕ)) (op : String) (j : ℕ)
    (v : Option ℕ)
    → ((op == "r") || (op == "w")) ≡ true
    → Ran f done m
    → ((process_op m (op, j, v)).0 ≡ answer f done (op, j, v) ∷ [])
      × Ran f (done ++ (op, j, v) ∷ []) (process_op m (op, j, v)).1
unfolding process_op answer
process_op-known f done m op j v is_known h = elim (Bool-cases (op == "r")) [
  | inl is_r ↦ (
    ground (arith, h j, string_eq.beq_iff op "r"),
    λ k. ground (arith, h k, not_both op is_r, value_after-snoc f k j op v done),
  )
  | inr not_r ↦ (
    ground (arith, string_eq.beq_iff op "w"),
    λ k. ground (arith, h k, value_after-snoc f k j op v done, read_entry-insert m j k v),
  )
]

process_op_unknown :
    (m : HashMap ℕ (Option ℕ)) (op : Op)
    → ((op.0 == "r") || (op.0 == "w")) ≡ false
    → process_op m op ≡ ([], m)
unfolding process_op
process_op_unknown m (op, j, v) h = ground arith

process_ops_from :
    (f : ℕ → Option ℕ) (done : List Op) (m : HashMap ℕ (Option ℕ)) (txn : List Op)
    → Ran f done m
    → ((process_ops m txn).0 ≡ answers f done (known txn))
      × Ran f (done ++ known txn) (process_ops m txn).1
unfolding process_ops answers
process_ops_from f done m [] h = (refl, rw append-nil h)
process_ops_from f done m ((op, j, v) ∷ txn) h = elim (Bool-cases ((op == "r") || (op == "w"))) [
  | inl is_known ↦
      let (e, h') = process_op-known f done m op j v is_known h in
      let (e', h'') =
        process_ops_from f (done ++ (op, j, v) ∷ []) (process_op m (op, j, v)).1 txn h' in
      rw is_known (
        ground (arith, e, e'),
        subst (λ d. Ran f d (process_ops (process_op m (op, j, v)).1 txn).1)
            (append_assoc done ((op, j, v) ∷ []) (known txn)) h'',
      )
  | inr unknown ↦
      rw (unknown, process_op_unknown m (op, j, v) unknown) (process_ops_from f done m txn h)
]

-- The reads and the writes of a transaction are answered in order, each read by the last write to
-- its key before it or else by the store; operations of other names are not answered and change
-- nothing; the store then holds the last value written to each key.
pub process_txn-known :
    (s : TarutNode) (txn : List Op)
    → ((process_txn s txn).0 ≡ answers (view s) [] (known txn))
      × ((k : ℕ) → view (process_txn s txn).1 k ≡ value_after (view s) (known txn) k)
unfolding process_txn
process_txn-known s txn =
    process_ops_from (view s) [] s.entries txn (λ k. unfold value_after in refl)
