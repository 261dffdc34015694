-- ===== src/Services/Panics.antt =====
-- Which messages bring a service down, and what a line does that is no message.
mod Tests
use glome_rs.Base.{
  Bool, Bool-cases, List, Option, String, [], ap, arith, false, inl, inr, is_empty, nat_eq, none,
  not, pair_eq, refl, some, string_eq, true, ℕ, ◌&&◌, ◌++◌, ◌==◌, ◌||◌, ◌∙◌, ◌∷◌, ◌≡◌,
}
use glome_rs.Collections.HashMap.{insert}
use glome_rs.Maelstrom.Message.{Message, MessageBody, Op}
use glome_rs.Maelstrom.Node.{Node, init_ok, next_msg_id, reply}
use glome_rs.Maelstrom.Handler.{
  Handled, MessageHandler, Ending, proceed, process, decode_lines, run_node,
}
use glome_rs.SingleNodeTat
use glome_rs.SingleNodeTat.{TatNode, process_op, process_txn}
use glome_rs.MultiNodeKafka
use glome_rs.MultiNodeKafka.{first, handle_init}
use glome_rs.MultiNodeKafka.Leader.{str_leb, insert_sorted, sort}

abbrev returns : {V S : Type 0} → Handled V S → Bool
returns none = false
returns (some r) = true

abbrev pub is_waiting : {S : Type 0} → Ending S → Bool
is_waiting Ending.panicked = false
is_waiting (Ending.waiting s node) = true

-- Every message is harmless.
unfoldable pub every : {V : Type 0} → (MessageBody V → Bool) → List (Message V) → Bool
every harmless [] = true
every harmless (msg ∷ msgs) = harmless msg.body && every harmless msgs

module _ {V S : Type 0} (h : MessageHandler V S) (harmless : MessageBody V → Bool)
    (law : (s : S) (node : Node) (msg : Message V)
      → returns (h.handle s node msg) ≡ harmless msg.body) where
  proceed_waits :
      (r : Handled V S) (rest : S → Node → List (Message V) × Ending S) (b : Bool)
      → ((s : S) (node : Node) → is_waiting (rest s node).1 ≡ b)
      → is_waiting (proceed r rest).1 ≡ (returns r && b)
  proceed_waits none rest b w = refl
  proceed_waits (some (out, s, node)) rest b w = w s node

  process_waits :
      (s : S) (node : Node) (msgs : List (Message V))
      → is_waiting (process h s node msgs).1 ≡ every harmless msgs
  unfolding process every
  process_waits s node [] = refl
  process_waits s node (msg ∷ msgs) =
      proceed_waits (h.handle s node msg) (λ s' node'. process h s' node' msgs)
        (every harmless msgs) (λ s' node'. process_waits s' node' msgs)
      ∙ ap (λ b. b && every harmless msgs) (law s node msg)

-- Every operation is a read or a write.
unfoldable pub all_known : List Op → Bool
all_known [] = true
all_known (op ∷ ops) = (op.0 == "r" || op.0 == "w") && all_known ops

-- False only of a transaction with an operation that is neither.
abbrev pub has_known_ops : {V : Type 0} → MessageBody V → Bool
has_known_ops (MessageBody.txn _ ops) = all_known ops
has_known_ops _ = true

-- False only of an initialisation with an empty list of ids.
abbrev pub has_ids : {V : Type 0} → MessageBody V → Bool
has_ids (MessageBody.init _ _ node_ids) = not (is_empty node_ids)
has_ids _ = true

is_done : Option (List Op × TatNode) → Bool
is_done none = false
is_done (some r) = true

process_txn_known : (s : TatNode) (ops : List Op) → is_done (process_txn s ops) ≡ all_known ops
unfolding is_done process_txn process_op all_known
process_txn_known s [] = refl
process_txn_known s ((op, key, v) ∷ ops) = ground (
  arith,
  process_txn_known s ops,
  process_txn_known (record s { entries = insert key v s.entries }) ops,
)

first-insert_sorted :
    (x : String) (ys : List String) → (z : String) × (first (insert_sorted x ys) ≡ some z)
unfolding insert_sorted first
first-insert_sorted x [] = (x, refl)
first-insert_sorted x (y ∷ ys) = elim (Bool-cases (str_leb x y)) [
  | inl e ↦ rw e (x, refl)
  | inr e ↦ rw e (y, refl)
]

module _ {V : Type 0} where
  tat_returns :
      (s : TatNode) (node : Node) (msg : Message V) (body : MessageBody V)
      → returns (SingleNodeTat.handle_body s node msg body) ≡ has_known_ops body
  unfolding SingleNodeTat.handle_body is_done
  tat_returns s node msg (MessageBody.init _ _ _) = refl
  tat_returns s node msg (MessageBody.txn n ops) = ground (arith, process_txn_known s ops)
  tat_returns s node msg _ = refl

  kafka_returns :
      (s : MultiNodeKafka.KafkaNode) (node : Node) (msg : Message V) (body : MessageBody V)
      → returns (MultiNodeKafka.handle_body s node msg body) ≡ has_ids body
  unfolding MultiNodeKafka.handle_body handle_init sort first
  kafka_returns s node msg (MessageBody.init n i []) = refl
  kafka_returns s node msg (MessageBody.init n i (x ∷ ids)) =
      let (z, e) = first-insert_sorted x (sort ids) in rw e refl
  kafka_returns s node msg (MessageBody.send _ _ _) = refl
  kafka_returns s node msg (MessageBody.forward_send _ _ _ _ _) = refl
  kafka_returns s node msg (MessageBody.replicate _ _ _ _) = refl
  kafka_returns s node msg (MessageBody.replicate_ok _ _ _) = refl
  kafka_returns s node msg (MessageBody.poll _ _) = refl
  kafka_returns s node msg (MessageBody.commit_offsets _ _) = refl
  kafka_returns s node msg (MessageBody.list_committed_offsets _ _) = refl
  kafka_returns s node msg _ = refl

  -- From any state, a run of the single-node transactions over any messages ends in a panic exactly
  -- if one of the messages is a transaction with an operation that is neither a read nor a write;
  -- a run of the replicated logs, exactly if one is an initialisation with an empty list of ids.
  -- All other runs end with the service waiting for the next message. Sums of u64 wrap, as in a
  -- release build.
  pub run_waits :
      (s : TatNode) (s' : MultiNodeKafka.KafkaNode) (node : Node) (msgs : List (Message V))
      → (is_waiting (process SingleNodeTat.handler s node msgs).1 ≡ every has_known_ops msgs)
        × (is_waiting (process MultiNodeKafka.handler s' node msgs).1 ≡ every has_ids msgs)
  unfolding SingleNodeTat.handle MultiNodeKafka.handle
  run_waits s s' node msgs = (
    process_waits SingleNodeTat.handler has_known_ops (λ s n m. tat_returns s n m m.body) s node
        msgs,
    process_waits MultiNodeKafka.handler has_ids (λ s n m. kafka_returns s n m m.body) s' node msgs,
  )

decode_lines-bad :
    {V : Type 0} (from_str : String → Option (Message V)) (xs ys : List String) (bad : String)
    → from_str bad ≡ none
    → decode_lines from_str (xs ++ bad ∷ ys) ≡ decode_lines from_str (xs ++ ys)
unfolding decode_lines
decode_lines-bad from_str [] ys bad e = rw e refl
decode_lines-bad {V} from_str (x ∷ xs) ys bad e =
    ap (λ (rest : List (Message V)). elim (from_str x) [ none ↦ rest | some msg ↦ msg ∷ rest ])
      (decode_lines-bad from_str xs ys bad e)

module _ {V S : Type 0} (from_str : String → Option (Message V))
    (to_vec : Message V → Option (List ℕ)) where
  -- A line that does not parse, wherever it stands among the lines read, changes neither what a
  -- service writes nor how its run ends.
  pub bad_line_skipped :
      (h : MessageHandler V S) (s : S) (xs ys : List String) (bad : String)
      → from_str bad ≡ none
      → run_node from_str to_vec h s (xs ++ bad ∷ ys) ≡ run_node from_str to_vec h s (xs ++ ys)
  unfolding run_node
  bad_line_skipped h s xs ys bad e = rw (decode_lines-bad from_str xs ys bad e) refl
