-- ===== src/SingleNodeTat/Answers.antt =====
-- The transactions of the single node against what a transaction promises.
use glome_rs.Base.{
  Bool-cases, List, Option, String, [], arith, false, if◌then◌else◌, inl, inr, nat_beq, nat_eq,
  none, pair_eq, refl, some, string_eq, subst, true, ℕ, ◌++◌, ◌==◌, ◌||◌, ◌∷◌, ◌≡◌,
}
use mathlib.Core.List.{append-nil, append_assoc}
use glome_rs.Collections.HashMap.{HashMap, insert, get-insert}
use glome_rs.Maelstrom.Message.{Message, MessageBody, Op}
use glome_rs.Maelstrom.Node.{Node}
use glome_rs.Maelstrom.Handler.Numbering.{Sound, IsSound}
use glome_rs.Txn.{not_both, value_after, answer, answers, IsKnown, value_after-snoc}
use glome_rs.SingleNodeTat.{
  TatNode, read_entry, process_op, process_txn, handle_body, handle, handler,
}

abbrev pub view : TatNode → ℕ → Option ℕ
view s = read_entry s.entries

read_entry-insert :
    (m : HashMap ℕ (Option ℕ)) (k j : ℕ) (v : Option ℕ)
    → read_entry (insert k v m) j ≡ (if nat_beq k j then v else read_entry m j)
unfolding read_entry
read_entry-insert m k j v = ground (arith, get-insert k j v m)

-- A state in which `done` has been run from a store `f`.
abbrev Ran : (ℕ → Option ℕ) → List Op → TatNode → Type 0
Ran f done s = (k : ℕ) → view s k ≡ value_after f done k

process_op_lem :
    (f : ℕ → Option ℕ) (done : List Op) (s : TatNode) (op : String) (j : ℕ) (v : Option ℕ)
    → ((op == "r") || (op == "w")) ≡ true
    → Ran f done s
    → (s' : TatNode) × (process_op s (op, j, v) ≡ some (answer f done (op, j, v), s'))
      × Ran f (done ++ (op, j, v) ∷ []) s'
unfolding process_op answer
process_op_lem f done s op j v known h = elim (Bool-cases (op == "r")) [
  | inl is_r ↦ (
    s,
    ground (arith, h j, string_eq.beq_iff op "r"),
    λ k. ground (arith, h k, not_both op is_r, value_after-snoc f k j op v done),
  )
  | inr not_r ↦ (
    record s { entries = insert j v s.entries },
    ground (arith, string_eq.beq_iff op "w"),
    λ k. ground (arith, h k, value_after-snoc f k j op v done, read_entry-insert s.entries j k v),
  )
]

process_txn_from :
    (f : ℕ → Option ℕ) (done : List Op) (s : TatNode) (txn : List Op)
    → IsKnown txn
    → Ran f done s
    → (s' : TatNode) × (process_txn s txn ≡ some (answers f done txn, s')) × Ran f (done ++ txn) s'
unfolding process_txn answers
process_txn_from f done s [] known h = (s, refl, rw append-nil h)
process_txn_from f done s ((op, j, v) ∷ txn) known h =
    let (s', e, h') = process_op_lem f done s op j v known.0 h in
    let (s'', e', h'') = process_txn_from f (done ++ (op, j, v) ∷ []) s' txn known.1 h' in
    (
      s'',
      ground (arith, e, e'),
      subst (λ d. Ran f d s'') (append_assoc done ((op, j, v) ∷ []) txn) h'',
    )

-- A transaction of reads and writes is answered in full, each read by the last write to its key
-- before it or else by the store; and the store then holds the last value written to each key.
pub process_txn-answers :
    (s : TatNode) (txn : List Op)
    → IsKnown txn
    → (s' : TatNode) × (process_txn s txn ≡ some (answers (view s) [] txn, s'))
      × ((k : ℕ) → view s' k ≡ value_after (view s) txn k)
process_txn-answers s txn known =
    process_txn_from (view s) [] s txn known (λ k. unfold value_after in refl)

-- An operation of another name is a panic, wherever it stands.
pub process_txn_unknown :
    (s : TatNode) (txn rest : List Op) (op : Op)
    → ((op.0 == "r") || (op.0 == "w")) ≡ false
    → process_txn s (txn ++ op ∷ rest) ≡ none
unfolding process_txn process_op
process_txn_unknown s [] rest (op, j, v) h = ground arith
process_txn_unknown s ((o, i, w) ∷ txn) rest op h = ground (
  arith,
  process_txn_unknown s txn rest op h,
  process_txn_unknown (record s { entries = insert i w s.entries }) txn rest op h,
)

module _ (V : Type 0) where
  body_Sound :
      (s : TatNode) (node : Node) (message : Message V) (body : MessageBody V)
      → Sound node (handle_body s node message body)
  unfolding handle_body
  body_Sound s node message (MessageBody.init n i is) = ground arith
  body_Sound s node message (MessageBody.txn n ops) = ground arith
  body_Sound s node message _ = ground arith

  pub handler-IsSound : IsSound (handler {V = V})
  unfolding handle
  handler-IsSound = record { sound = λ s node message. body_Sound s node message message.body }
