-- ===== src/Tarct/Cluster/Responses.antt =====
-- What a node does on a message keeps the cluster consistent.
use glome_rs.Base.{
  All, List, Option, String, [], arith, if◌then◌else◌, ltb, some, ℕ, ◌∙◌, ◌∷◌, ◌≡◌, ◌≤◌,
}
use glome_rs.Maelstrom.Message.{Message, Version}
use glome_rs.Maelstrom.Node.{Node}
use glome_rs.Maelstrom.Net.{update, settle, at_update}
use glome_rs.Tarct.Kv
use glome_rs.Tarct.Kv.{version_lt}
use glome_rs.Tarct.Invariant.{observe-IsAhead}
use glome_rs.Tarct.{TarctNode, Write, observe, writes_of}
use glome_rs.Tarct.Cluster.{Cluster, AreApart}
use glome_rs.Tarct.Cluster.Invariant.{
  Meaning, IsGood, clocks, GoodBatch, Carries, IsConsistent, merge_batch-GoodStore,
  settle-IsConsistent,
}

observe_on : (ts : ℕ) (batch : List Write) → ts ≤ observe ts batch
unfolding observe
observe_on ts [] = omega arith
observe_on ts ((op, k, val, v) ∷ batch) =
    ground (arith, observe_on (if ltb ts v.ts then v.ts else ts) batch)

IsGood-later :
    (ids : List String) (clock later : String → ℕ) (means : Meaning) (k : ℕ) (value : Option ℕ)
    (v : Version)
    → ((j : String) → clock j ≤ later j)
    → IsGood ids clock means k value v
    → IsGood ids later means k value v
IsGood-later ids clock later means k value v on g = record {
  meant = g.meant;
  past = λ j m e. omega (arith, g.past j m e, on j);
}

module _ {V : Type 0} (ids : List String) (apart : AreApart ids) (means : Meaning) (c : Cluster V)
    (ok : IsConsistent ids means c) where
  module _ (i : String) where
    pub on :
        (s : TarctNode)
        → (c.state i).lamport_ts ≤ s.lamport_ts
        → (j : String) → clocks c j ≤ (update c.state i s j).lamport_ts
    on s h =
        at_update (λ j (t : TarctNode). clocks c j ≤ t.lamport_ts) c.state i s h
          (λ j e. omega arith)

    pub idle :
        (out : List (Message V)) (node : Node)
        → node.id ≡ (c.node i).id
        → All (λ o. Carries ids (λ j. (update c.state i (c.state i) j).lamport_ts) means o.body) out
        → IsConsistent ids means (settle c i (some (out, c.state i, node)))
    idle out node name messages =
        settle-IsConsistent ids c means means i (out, c.state i, node) ok
          (record {
            name = name ∙ ok.names i;
            ahead = ok.ahead i;
            clock = omega arith;
            keeps = λ k value v g. g.meant;
            store = λ k.
                IsGood-later ids (clocks c) (λ j. (update c.state i (c.state i) j).lamport_ts) means
                  k (Kv.get (c.state i).kv k) (Kv.version (c.state i).kv k)
                  (on (c.state i) (omega arith)) (ok.stores i k);
            messages = messages;
          })

    pub takes :
        (batch : List Write)
        → GoodBatch ids (clocks c) means batch
        → IsConsistent ids means (
            settle c i (
              some (
                [],
                record {
                  kv = Kv.merge_batch (c.state i).kv (writes_of batch);
                  lamport_ts = observe (c.state i).lamport_ts batch;
                },
                c.node i,
              )))
    takes batch good =
        let s' : TarctNode = record {
          kv = Kv.merge_batch (c.state i).kv (writes_of batch);
          lamport_ts = observe (c.state i).lamport_ts batch;
        } in
        let ahead_of : (c.state i).lamport_ts ≤ s'.lamport_ts =
          observe_on (c.state i).lamport_ts batch in
        settle-IsConsistent ids c means means i ([], s', c.node i) ok
          (record {
            name = ok.names i;
            ahead = observe-IsAhead (c.state i) batch (ok.ahead i);
            clock = ahead_of;
            keeps = λ k value v g. g.meant;
            store = λ k.
                IsGood-later ids (clocks c) (λ j. (update c.state i s' j).lamport_ts) means k
                  (Kv.get s'.kv k) (Kv.version s'.kv k) (on s' ahead_of)
                  (merge_batch-GoodStore ids (clocks c) means (c.state i).kv batch (ok.stores i)
                    good k);
            messages = tt;
          })
