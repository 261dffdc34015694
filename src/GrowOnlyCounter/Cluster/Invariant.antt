-- ===== src/GrowOnlyCounter/Cluster/Invariant.antt =====
-- What holds of every reachable cluster of counters.
use glome_rs.Base.{
  All, All-append, All-imp, List, Option, String, false, nat_eq, pair_eq, refl, some, string_eq,
  subst, sym, ℕ, ◌==◌, ◌≡◌,
}
use glome_rs.Collections.HashMap.{get}
use glome_rs.Maelstrom.Message.{Message, Counter}
use glome_rs.Maelstrom.Node.{Node}
use glome_rs.Maelstrom.Net.{at_update}
use glome_rs.Maelstrom.Kv.{Kv}
use glome_rs.GrowOnlyCounter.{GrowOnlyCounterNode}
use glome_rs.GrowOnlyCounter.Cluster.Ledger.{IsPast, IsCurrent}
use glome_rs.GrowOnlyCounter.Cluster.Traffic.{IsLedger, Carries, IsLedger-grows, Carries-grows}
use glome_rs.GrowOnlyCounter.Cluster.{Cluster, settled}

-- Every counter, at a node or under way, counts the first additions of its owner, and the owner's
-- counts them all.
pub record IsConsistent {V : Type 0} (c : Cluster V) : Type 0 where
  pub names : (i : String) → (c.net.node i).id ≡ i
  pub ledgers : (i : String) → IsLedger c.added (c.net.state i).kv.counters
  pub owns : (i : String) → IsCurrent (c.added i) (get i (c.net.state i).kv.counters)
  pub traffic : All (λ o. Carries c.added o.body) c.net.sent

-- What a response must leave at node `i`, where the additions are then `more`.
pub record Fits {V : Type 0} (more : String → List ℕ) (i : String)
    (r : List (Message V) × GrowOnlyCounterNode × Node) : Type 0 where
  pub name : r.2.id ≡ i
  pub ledger : IsLedger more r.1.kv.counters
  pub own : IsCurrent (more i) (get i r.1.kv.counters)
  pub messages : All (λ o. Carries more o.body) r.0

module _ {V : Type 0} (c : Cluster V) (ok : IsConsistent c) where
  pub settle-IsConsistent :
      (more : String → List ℕ) (i : String) (r : List (Message V) × GrowOnlyCounterNode × Node)
      → ((k : String) (o : Option Counter) → IsPast (c.added k) o → IsPast (more k) o)
      → ((j : String) → (i == j) ≡ false → c.added j ≡ more j)
      → Fits more i r
      → IsConsistent (record (settled c i (some r)) { added = more })
  settle-IsConsistent more i (out, s, n) grows apart fits = record {
    names = at_update (λ j (n : Node). n.id ≡ j) c.net.node i n fits.name (λ j e. ok.names j);
    ledgers =
        at_update (λ j (t : GrowOnlyCounterNode). IsLedger more t.kv.counters) c.net.state i s
          fits.ledger
          (λ j e. IsLedger-grows c.added more grows (c.net.state j).kv.counters (ok.ledgers j));
    owns =
        at_update (λ j (t : GrowOnlyCounterNode). IsCurrent (more j) (get j t.kv.counters))
          c.net.state i s fits.own
          (λ j e.
            subst (λ ds. IsCurrent ds (get j (c.net.state j).kv.counters)) (apart j e) (ok.owns j));
    traffic =
        All-append _ out c.net.sent fits.messages
          (All-imp (λ o. Carries-grows c.added more grows o.body) c.net.sent ok.traffic);
  }

  -- A response that leaves the counters as they are.
  pub Fits-idle :
      (i : String) (r : List (Message V) × GrowOnlyCounterNode × Node)
      → r.2.id ≡ i
      → r.1.kv ≡ (c.net.state i).kv
      → All (λ o. Carries c.added o.body) r.0
      → Fits c.added i r
  Fits-idle i r name same messages = record {
    name = name;
    ledger = subst (λ (kv : Kv). IsLedger c.added kv.counters) (sym same) (ok.ledgers i);
    own = subst (λ (kv : Kv). IsCurrent (c.added i) (get i kv.counters)) (sym same) (ok.owns i);
    messages = messages;
  }

  pub settle_same :
      (i : String) (r : List (Message V) × GrowOnlyCounterNode × Node)
      → Fits c.added i r
      → IsConsistent (settled c i (some r))
  settle_same i r fits = settle-IsConsistent c.added i r (λ k o h. h) (λ j e. refl) fits
