-- ===== src/Tarct/Handle.antt =====
-- The handler of the read-committed store.
use glome_rs.Base.{
  All, All-append, All-imp, Bool-cases, List, Option, String, [], arith, inl, inr, is_empty, none,
  refl, some, sym, u64_mod, ℕ, ◌++◌, ◌+◌, ◌<◌, ◌>>=◌, ◌∙◌, ◌∷◌, ◌≡◌,
}
use glome_rs.Maelstrom.Message.{Message, MessageBody, Op}
use glome_rs.Maelstrom.Node.{Node, next_msg_id}
use glome_rs.Maelstrom.Handler.Numbering.{Numbered, Numbered-append, Sound, IsSound}
use glome_rs.Txn.{answers, IsKnown}
use glome_rs.Tarct.Kv
use glome_rs.Tarct.Stages.{has_conflict_current, stage_txn-Staged}
use glome_rs.Tarct.Invariant.{IsAhead, Commits, commit-Commits}
use glome_rs.Tarct.{
  TarctNode, Stage, Write, empty_stage, stage_txn, has_conflict, send_to_all, commit, finish,
  handle_tx, handle_body, handle, handler,
}

module _ (V : Type 0) where
  send_to_all_lem :
      (node : Node) (ops : List Write) (peers : List String)
      → Numbered {V = V} node.msg_id
          (send_to_all node ops peers).0
          (send_to_all {V = V} node ops peers).1.msg_id
        × All {A = Message V} (λ o. o.src ≡ node.id) (send_to_all node ops peers).0
        × ((send_to_all {V = V} node ops peers).1.id ≡ node.id)
  unfolding send_to_all next_msg_id
  send_to_all_lem node ops [] = (refl, tt, refl)
  send_to_all_lem node ops (peer ∷ peers) =
      ground (arith, send_to_all_lem (next_msg_id node).1 ops peers)

  commit_lem :
      (s : TarctNode) (node : Node) (stage : Stage)
      → Numbered {V = V} node.msg_id (commit s node stage).0 (commit {V = V} s node stage).2.msg_id
        × All {A = Message V} (λ o. o.src ≡ node.id) (commit s node stage).0
        × ((commit {V = V} s node stage).2.id ≡ node.id)
  unfolding commit
  commit_lem s node stage = elim (Bool-cases (is_empty stage.write_set)) [
    | inl none_written ↦ rw none_written (refl, tt, refl)
    | inr some_written ↦ rw some_written (send_to_all_lem node _ node.peers)
  ]

  finish-Sound :
      (s : TarctNode) (node : Node) (message : Message V) (n : ℕ) (stage : Stage)
      → Sound node (some (finish s node message n stage))
  unfolding finish next_msg_id
  finish-Sound s node message n stage = elim (Bool-cases (has_conflict s.kv stage.read_set)) [
    | inl conflict ↦ rw conflict ((refl, refl), (refl, tt))
    | inr none_found ↦
        let (out, s', node') = commit {V = V} s node stage in
        let (numbered, signed, same_id) = commit_lem s node stage in
        rw none_found (
          Numbered-append node.msg_id node'.msg_id _ out _ numbered (refl, refl),
          All-append _ out _ (All-imp (λ o e. e ∙ sym same_id) out signed) (refl, tt),
        )
  ]

  body_Sound :
      (s : TarctNode) (node : Node) (message : Message V) (body : MessageBody V)
      → Sound node (handle_body s node message body)
  unfolding handle_body
  body_Sound s node message (MessageBody.init n i is) = ground arith
  body_Sound s node message (MessageBody.txn n txn) =
      unfold handle_tx in staged (stage_txn s.kv empty_stage txn)
    where
      staged : (r : Option Stage) → Sound node (r >>= λ stage. some (finish s node message n stage))
      staged none = tt
      staged (some stage) = finish-Sound s node message n stage
  body_Sound s node message (MessageBody.tarct_replicate n batch) = ground arith
  body_Sound s node message _ = ground arith

  pub handler-IsSound : IsSound (handler {V = V})
  unfolding handle
  handler-IsSound = record { sound = λ s node message. body_Sound s node message message.body }

  -- Where no version is above the clock, and the clock is below 2^64 - 1, a transaction of reads
  -- and writes commits. Its answers are those that a transaction promises, over the committed
  -- store; each key then holds what the transaction wrote last to it, or else what it held; and
  -- again no version is above the clock.
  pub handle_tx-Commits :
      (s : TarctNode) (node : Node) (message : Message V) (n : ℕ) (txn : List Op)
      → IsKnown txn
      → IsAhead s
      → s.lamport_ts + 1 < u64_mod
      → (gossip : List (Message V)) × (s' : TarctNode) × (node' : Node) × (handle_tx s node message
            n txn
          ≡ some (
            gossip
                ++ record {
                  src = node.id;
                  dest = message.src;
                  body = MessageBody.txn_ok node'.msg_id n (answers (Kv.get s.kv) [] txn);
                }
                  ∷ [],
            s',
            node',
          ))
        × Commits s txn s'
  handle_tx-Commits s node message n txn known ahead room =
      let (stage, e, staged) = stage_txn-Staged s.kv txn known in
      let (out, s', node') = commit {V = V} s node stage in
      let (_, _, same_id) = commit_lem s node stage in
      let clear = has_conflict_current s.kv stage.read_set staged.current in
      (
        out,
        s',
        (next_msg_id node').1,
        unfold handle_tx in
            rw e (unfold finish next_msg_id in ground (arith, clear, same_id, staged.answered)),
        commit-Commits V s node stage txn _ ahead room staged,
      )
