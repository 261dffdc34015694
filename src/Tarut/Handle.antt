-- ===== src/Tarut/Handle.antt =====
-- The handler of the read-uncommitted store.
use glome_rs.Base.{
  All, All-append, All-imp, Bool-cases, List, Option, String, [], add64, ap, arith, inl, inr,
  is_empty, nat_eq, none, pair_eq, refl, some, string_eq, sym, true, ℕ, ◌++◌, ◌∙◌, ◌∷◌, ◌≡◌,
}
use glome_rs.Collections.HashMap.{HashMap, insert, get_or, get-insert}
use glome_rs.Maelstrom.Message.{Message, MessageBody, Op}
use glome_rs.Maelstrom.Node.{Node, next_msg_id}
use glome_rs.Maelstrom.Handler.Numbering.{Numbered, Numbered-append, Sound, IsSound}
use glome_rs.Txn.{last_write, value_after, answers}
use glome_rs.Tarut.Answers.{view, known, process_txn-known}
use glome_rs.Tarut.{
  TarutNode, Write, process_txn, write_ops, install, send_to_all, replicate, handle_tx, handle_body,
  handle, handler,
}

-- The version of a key after a commit: the new one if the transaction wrote to the key.
abbrev pub stamped : ℕ → Option (Option ℕ) → ℕ → ℕ
stamped old none v = old
stamped old (some _) v = v

get_or-install :
    (v k : ℕ) (txn : List Op) (m : HashMap ℕ ℕ)
    → get_or 0 k (install v (write_ops txn) m) ≡ stamped (get_or 0 k m) (last_write k txn) v
unfolding install last_write get_or
get_or-install v k [] m = refl
get_or-install v k ((op, j, w) ∷ txn) m =
    ground
      (arith, get_or-install v k txn m, get_or-install v k txn (insert j v m), get-insert j k v m)

install_nothing :
    (v : ℕ) (ops : List Op) (m : HashMap ℕ ℕ) → is_empty ops ≡ true → install v ops m ≡ m
unfolding install
install_nothing v [] m h = refl
install_nothing v (op ∷ ops) m h = absurd (ground arith)

module _ (V : Type 0) where
  send_to_all_lem :
      (node : Node) (ops : List Write) (peers : List String)
      → Numbered {V = V} node.msg_id
          (send_to_all node ops peers).0
          (send_to_all {V = V} node ops peers).1.msg_id
        × All {A = Message V} (λ o. o.src ≡ node.id) (send_to_all node ops peers).0
        × ((send_to_all {V = V} node ops peers).1.id ≡ node.id)
  unfolding send_to_all next_msg_id
  send_to_all_lem node ops [] = (refl, tt, refl)
  send_to_all_lem node ops (peer ∷ peers) =
      ground (arith, send_to_all_lem (next_msg_id node).1 ops peers)

  replicate_lem :
      (s : TarutNode) (node : Node) (ops : List Op)
      → Numbered {V = V} node.msg_id
          (replicate s node ops).0
          (replicate {V = V} s node ops).2.msg_id
        × All {A = Message V} (λ o. o.src ≡ node.id) (replicate s node ops).0
        × ((replicate {V = V} s node ops).2.id ≡ node.id)
  unfolding replicate
  replicate_lem s node ops = elim (Bool-cases (is_empty ops)) [
    | inl none_written ↦ rw none_written (refl, tt, refl)
    | inr some_written ↦ rw some_written (send_to_all_lem node _ node.peers)
  ]

  handle_tx-Sound :
      (s : TarutNode) (node : Node) (message : Message V) (n : ℕ) (txn : List Op)
      → Sound node (some (handle_tx s node message n txn))
  unfolding handle_tx next_msg_id
  handle_tx-Sound s node message n txn =
      let s' = (process_txn s txn).1 in
      let (out, _, node') = replicate {V = V} s' node (write_ops txn) in
      let (numbered, signed, same_id) = replicate_lem s' node (write_ops txn) in
      (
        Numbered-append node.msg_id node'.msg_id _ out _ numbered (refl, refl),
        All-append _ out _ (All-imp (λ o e. e ∙ sym same_id) out signed) (refl, tt),
      )

  body_Sound :
      (s : TarutNode) (node : Node) (message : Message V) (body : MessageBody V)
      → Sound node (handle_body s node message body)
  unfolding handle_body
  body_Sound s node message (MessageBody.init n i is) = ground arith
  body_Sound s node message (MessageBody.txn n txn) = handle_tx-Sound s node message n txn
  body_Sound s node message (MessageBody.tarut_replicate n batch) = ground arith
  body_Sound s node message _ = ground arith

  pub handler-IsSound : IsSound (handler {V = V})
  unfolding handle
  handler-IsSound = record { sound = λ s node message. body_Sound s node message message.body }

  replicate_stamps :
      (s : TarutNode) (node : Node) (txn : List Op) (k : ℕ)
      → get_or 0 k (replicate {V = V} s node (write_ops txn)).1.versions
        ≡ stamped (get_or 0 k s.versions) (last_write k txn) (add64 s.commit_ts 1)
  unfolding replicate
  replicate_stamps s node txn k = elim (Bool-cases (is_empty (write_ops txn))) [
    | inl none_written ↦
        let v = add64 s.commit_ts 1 in
        rw none_written (
          ap (get_or 0 k) (sym (install_nothing v (write_ops txn) s.versions none_written))
          ∙ get_or-install v k txn s.versions)
    | inr some_written ↦ rw some_written (get_or-install (add64 s.commit_ts 1) k txn s.versions)
  ]

  replicate_entries :
      (s : TarutNode) (node : Node) (ops : List Op)
      → (replicate {V = V} s node ops).1.entries ≡ s.entries
  unfolding replicate
  replicate_entries s node ops = ground arith

  -- A transaction is answered to its client with what a transaction promises for its reads and
  -- writes. The store then holds the last value written to each key; each key written has the
  -- node's counter plus one as its version, whatever version it had before, and the other keys keep
  -- theirs.
  pub handle_tx_lem :
      (s : TarutNode) (node : Node) (message : Message V) (n : ℕ) (txn : List Op)
      → (gossip : List (Message V)) × (s' : TarutNode) × (node' : Node) × (handle_tx s node message
            n txn
          ≡ (
            gossip
                ++ record {
                  src = node.id;
                  dest = message.src;
                  body = MessageBody.txn_ok node'.msg_id n (answers (view s) [] (known txn));
                }
                  ∷ [],
            s',
            node',
          ))
        × ((k : ℕ) → view s' k ≡ value_after (view s) (known txn) k)
        × ((k : ℕ)
            → get_or 0 k s'.versions
              ≡ stamped (get_or 0 k s.versions) (last_write k txn) (add64 s.commit_ts 1))
  handle_tx_lem s node message n txn =
      let ran = (process_txn s txn).1 in
      let (out, s', node') = replicate {V = V} ran node (write_ops txn) in
      let (_, _, same_id) = replicate_lem ran node (write_ops txn) in
      let (answered, stored) = process_txn-known s txn in
      (
        out,
        s',
        (next_msg_id node').1,
        unfold handle_tx next_msg_id in ground (arith, same_id, answered),
        λ k. rw (replicate_entries ran node (write_ops txn)) (stored k),
        λ k. unfold process_txn in replicate_stamps ran node txn k,
      )
