-- ===== src/Tarct/Cluster/Steps.antt =====
-- A transaction of a client and a message of a node each keep the cluster consistent.
use glome_rs.Base.{
  All-get_elem?, Bool-cases, List, String, [], arith, get_elem?, inl, inr, is_empty, nat_eq, none,
  pair_eq, refl, some, string_eq, subst, sym, true, u64_mod, ℕ, ◌++◌, ◌+◌, ◌<◌, ◌∷◌, ◌≡◌,
}
use glome_rs.Collections.HashMap.{get, get_or}
use glome_rs.Collections.HashSet.{contains}
use glome_rs.Maelstrom.Message.{Message, MessageBody, Op}
use glome_rs.Maelstrom.Node
use glome_rs.Maelstrom.Node.{Node, init_ok, next_msg_id}
use glome_rs.Maelstrom.Net.{settle}
use glome_rs.Txn.{IsKnown, answers}
use glome_rs.Tarct.Kv
use glome_rs.Tarct.Kv.{version_lt}
use glome_rs.Tarct.Stages.{Staged, has_conflict_current, stage_txn-Staged}
use glome_rs.Tarct.{TarctNode, Stage, commit, finish, handle_tx, handle_body, handle}
use glome_rs.Tarct.Cluster.{Cluster, AreApart, receive, txn_request, start}
use glome_rs.Tarct.Cluster.Invariant.{Meaning, clocks, Carries, IsConsistent}
use glome_rs.Tarct.Cluster.Responses.{idle, takes}
use glome_rs.Tarct.Cluster.Transactions.{Sound, commits}

module _ {V : Type 0} (ids : List String) (apart : AreApart ids) (means : Meaning) (c : Cluster V)
    (ok : IsConsistent ids means c) where
  finishes :
      (i : String) (message : Message V) (n : ℕ) (stage : Stage) (txn results : List Op)
      → Staged (c.state i).kv txn results stage
      → contains i ids ≡ true
      → (c.state i).lamport_ts + 1 < u64_mod
      → Sound ids apart means c ok i txn
          (settle c i (some (finish (c.state i) (c.node i) message n stage)))
  unfolding finish next_msg_id
  finishes i message n stage txn results staged here room =
      let (out, s', node') = commit {V = V} (c.state i) (c.node i) stage in
      let reply : Message V = record {
        src = node'.id;
        dest = message.src;
        body = MessageBody.txn_ok (next_msg_id node').0 n stage.results;
      } in
      rw (has_conflict_current (c.state i).kv stage.read_set staged.current)
        (elim (Bool-cases (is_empty stage.write_set)) [
          | inl none_written ↦
              let message_of : Node → Message V = λ m. record {
                src = m.id;
                dest = message.src;
                body = MessageBody.txn_ok (next_msg_id m).0 n stage.results;
              } in
              let nothing : commit {V = V} (c.state i) (c.node i) stage
                  ≡ ([], c.state i, c.node i) =
                unfold commit in rw none_written refl in
              subst
                (λ (r : List (Message V) × TarctNode × Node).
                  Sound ids apart means c ok i txn
                    (settle c i (some (r.0 ++ message_of r.2 ∷ [], r.1, (next_msg_id r.2).1))))
                (sym nothing)
                (
                  means,
                  idle ids apart means c ok i (message_of (c.node i) ∷ [])
                      (next_msg_id (c.node i)).1 refl (tt, tt),
                  inl refl,
                )
          | inr some_written ↦
              commits ids apart means c ok i stage txn results staged here room some_written reply
                (next_msg_id node').1 refl tt
        ])

  transacts :
      (i : String) (message : Message V) (n : ℕ) (txn : List Op)
      → IsKnown txn
      → contains i ids ≡ true
      → (c.state i).lamport_ts + 1 < u64_mod
      → Sound ids apart means c ok i txn
          (settle c i (handle_tx (c.state i) (c.node i) message n txn))
  unfolding handle_tx
  transacts i message n txn known here room =
      let (stage, e, staged) = stage_txn-Staged (c.state i).kv txn known in
      rw e
        (finishes i message n stage txn (answers (Kv.get (c.state i).kv) [] txn) staged here room)

  deliver_body :
      (i : String) (m : Message V) (body : MessageBody V)
      → Carries ids (clocks c) means body
      → IsConsistent ids means (settle c i (handle_body (c.state i) (c.node i) m body))
  unfolding handle_body
  deliver_body i m (MessageBody.init _ _ _) h = absurd h
  deliver_body i m (MessageBody.txn _ _) h = absurd h
  deliver_body i m (MessageBody.tarct_replicate _ batch) h = takes ids apart means c ok i batch h
  deliver_body i m _ h = idle ids apart means c ok i [] (c.node i) refl tt

  pub request-Sound :
      (client i : String) (n : ℕ) (txn : List Op)
      → IsKnown txn
      → contains i ids ≡ true
      → (c.state i).lamport_ts + 1 < u64_mod
      → Sound ids apart means c ok i txn (receive c (txn_request client i n txn))
  unfolding handle handle_body
  request-Sound client i n txn known here room =
      transacts i (txn_request client i n txn) n txn known here room

  pub deliver-IsConsistent :
      (k : ℕ) (m : Message V) → get_elem? c.sent k ≡ some m → IsConsistent ids means (receive c m)
  unfolding handle
  deliver-IsConsistent k m e =
      deliver_body m.dest m m.body
        (All-get_elem? (λ o. Carries ids (clocks c) means o.body) c.sent k m ok.traffic e)

module _ {V : Type 0} (ids : List String) where
  pub start-IsConsistent : IsConsistent ids {V = V} (λ k v. none) (start ids)
  unfolding handle handle_body Node.handle_init init_ok next_msg_id
  start-IsConsistent = record {
    names = λ i. refl;
    ahead = λ i. record { ahead = λ k. unfold Kv.version get_or get in omega arith };
    stores = λ i k. record {
      meant = unfold Kv.get get_or get in refl;
      past = λ j m e. unfold Kv.version get_or get in omega arith;
    };
    traffic = tt;
  }
