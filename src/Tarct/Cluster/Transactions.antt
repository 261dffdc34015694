-- ===== src/Tarct/Cluster/Transactions.antt =====
-- What a committed transaction leaves, at its node and on the way to the others.
use glome_rs.Base.{
  All, All-append, List, Option, String, [], ap, arith, false, inr, is_empty, nat_eq, pair_eq, refl,
  some, string_eq, subst, sym, true, u64_mod, ℕ, ◌++◌, ◌+◌, ◌<◌, ◌∙◌, ◌∷◌, ◌≡◌, ◌≤◌,
}
use glome_rs.Collections.HashSet.{contains}
use glome_rs.Maelstrom.Message.{Message, Version, Op}
use glome_rs.Maelstrom.Node.{Node}
use glome_rs.Maelstrom.Net.{update, settle, update_here}
use glome_rs.Tarct.Kv
use glome_rs.Tarct.Kv.{version_lt}
use glome_rs.Tarct.Stages.{Staged}
use glome_rs.Tarct.Invariant.{IsAhead, next_ts_ahead, commit-Commits}
use glome_rs.Tarct.{
  TarctNode, Stage, Write, next_ts, apply_all, to_ops, sort_by_key, send_to_all, commit,
}
use glome_rs.Tarct.Hash.{stable_hash}
use glome_rs.Tarct.Cluster.{Cluster, AreApart}
use glome_rs.Tarct.Cluster.Invariant.{
  Meaning, IsGood, clocks, GoodStore, Carries, IsConsistent, settle-IsConsistent,
}
use glome_rs.Tarct.Cluster.Commits.{
  Adds, with_commit, with_commit-keeps, ops-All, committed-IsGood, apply_all-GoodStore,
  send_to_all-Carries,
}
use glome_rs.Tarct.Cluster.Responses.{on}

module _ {V : Type 0} (ids : List String) (apart : AreApart ids) (means : Meaning) (c : Cluster V)
    (ok : IsConsistent ids means c) (i : String) where
  -- The cluster is consistent again, with what the transaction adds to the meanings.
  abbrev pub Sound : List Op → Cluster V → Type 0
  Sound txn d = (more : Meaning) × IsConsistent ids more d × Adds txn means more

  module _ (stage : Stage) (txn results : List Op)
      (staged : Staged (c.state i).kv txn results stage) (here : contains i ids ≡ true)
      (room : (c.state i).lamport_ts + 1 < u64_mod)
      (some_written : is_empty stage.write_set ≡ false) where
    abbrev pub this : Version
    this = record {
      ts = next_ts (c.state i).lamport_ts stage.read_set;
      node = stable_hash (c.node i).id;
    }

    abbrev pub state' : TarctNode
    state' = record {
      kv = apply_all (c.state i).kv stage.write_set this;
      lamport_ts = next_ts (c.state i).lamport_ts stage.read_set;
    }

    abbrev pub ops : List Write
    ops = sort_by_key (to_ops stage.write_set this)

    commit_lem : commit {V = V} (c.state i) (c.node i) stage ≡ (
      (send_to_all {V = V} (c.node i) ops (c.node i).peers).0,
      state',
      (send_to_all {V = V} (c.node i) ops (c.node i).peers).1,
    )
    unfolding commit
    commit_lem = rw some_written refl

    abbrev pub later : String → ℕ
    later j = (update c.state i state' j).lamport_ts

    tick : next_ts (c.state i).lamport_ts stage.read_set ≡ (c.state i).lamport_ts + 1
    tick = next_ts_ahead (c.state i) stage.read_set (ok.ahead i) staged.current room

    own : this.node ≡ stable_hash i
    own = rw (ok.names i) refl

    past : (j : String) → contains j ids ≡ true → this.node ≡ stable_hash j → this.ts ≤ later j
    past j m e =
        let same : later i ≡ this.ts =
          ap (λ (t : TarctNode). t.lamport_ts) (update_here c.state i state') in
        subst (λ a. this.ts ≤ later a) (apart i j here m (sym own ∙ e)) (omega (arith, same))

    keeps :
        (k : ℕ) (value : Option ℕ) (v : Version)
        → IsGood ids (clocks c) means k value v
        → value ≡ with_commit means this stage.write_set k v
    keeps k value v g =
        with_commit-keeps ids (clocks c) later means this stage.write_set i k value v here own
          (omega (arith, tick)) g

    store : GoodStore ids later (with_commit means this stage.write_set) state'.kv
    store =
        apply_all-GoodStore ids (clocks c) later means this stage.write_set (c.state i).kv
          staged.write_map (λ k. ground (arith, (ok.ahead i).ahead k, tick))
          (λ k. record {
            meant = keeps k (Kv.get (c.state i).kv k) (Kv.version (c.state i).kv k) (ok.stores i k);
            past = λ j m e. omega (
              arith,
              (ok.stores i k).past j m e,
              on ids apart means c ok i state' (omega (arith, tick)) j,
            );
          })
          past

    sends :
        All
          (λ o. Carries ids later (with_commit means this stage.write_set) o.body)
          (send_to_all {V = V} (c.node i) ops (c.node i).peers).0
        × ((send_to_all {V = V} (c.node i) ops (c.node i).peers).1.id ≡ (c.node i).id)
    sends =
        send_to_all-Carries V ids later (with_commit means this stage.write_set) (c.node i) ops
          (c.node i).peers
          (ops-All (IsGood ids later (with_commit means this stage.write_set)) stage.write_set this
            staged.write_map
            (λ k value e.
              committed-IsGood ids (clocks c) later means this stage.write_set k value e past))

    committed :
        (reply : Message V) (node : Node)
        → Carries ids later (with_commit means this stage.write_set) reply.body
        → node.id ≡ (send_to_all {V = V} (c.node i) ops (c.node i).peers).1.id
        → Sound txn (
            settle c i (
              some (
                (send_to_all {V = V} (c.node i) ops (c.node i).peers).0 ++ reply ∷ [],
                state',
                node,
              )))
    committed reply node carried name =
        let out = (send_to_all {V = V} (c.node i) ops (c.node i).peers).0 in
        let more = with_commit means this stage.write_set in
        (
          more,
          settle-IsConsistent ids c means more i (out ++ reply ∷ [], state', node) ok
              (record {
                name = name ∙ sends.1 ∙ ok.names i;
                ahead =
                    subst (λ (r : List (Message V) × TarctNode × Node). IsAhead r.1) commit_lem
                      (commit-Commits V (c.state i) (c.node i) stage txn results (ok.ahead i) room
                        staged).ahead;
                clock = omega (arith, tick);
                keeps = keeps;
                store = store;
                messages = All-append _ out (reply ∷ []) sends.0 (carried, tt);
              }),
          inr (this, stage.write_set, staged.writes, refl),
        )

    pub commits :
        (reply : Message V) (node : Node)
        → node.id ≡ (commit {V = V} (c.state i) (c.node i) stage).2.id
        → Carries ids later (with_commit means this stage.write_set) reply.body
        → Sound txn (
            settle c i (
              some (
                (commit {V = V} (c.state i) (c.node i) stage).0 ++ reply ∷ [],
                (commit {V = V} (c.state i) (c.node i) stage).1,
                node,
              )))
    commits reply node name carried =
        subst
          (λ (r : List (Message V) × TarctNode × Node).
            node.id ≡ r.2.id → Sound txn (settle c i (some (r.0 ++ reply ∷ [], r.1, node))))
          (sym commit_lem) (committed reply node carried) name
