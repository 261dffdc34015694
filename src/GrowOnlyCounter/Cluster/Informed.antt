-- ===== src/GrowOnlyCounter/Cluster/Informed.antt =====
-- What the nodes believe of each other, against what is so or on the way.
use glome_rs.Base.{
  All, All-append, All-imp, List, Stands, String, arith, back-Stands, front-Stands, inl, inr,
  nat_eq, not, pair_eq, retain, some, string_eq, subst, sym, ℕ, ◌++◌, ◌==◌, ◌∙◌, ◌≡◌, ◌≤◌, ◌⊎◌,
}
use glome_rs.Collections.HashMap.{HashMap, get, get_or}
use glome_rs.Maelstrom.Message.{Message, MessageBody, Counter}
use glome_rs.Maelstrom.Node.{Node}
use glome_rs.Maelstrom.Net.{at_update}
use glome_rs.GrowOnlyCounter.{GrowOnlyCounterNode}
use glome_rs.GrowOnlyCounter.Delta.{version_of}
use glome_rs.GrowOnlyCounter.Gossip.{believed}
use glome_rs.GrowOnlyCounter.Cluster.Reads.{heard_of}
use glome_rs.GrowOnlyCounter.Cluster.{Cluster, settled}

-- A gossip to node `j` with so high a version of the counter of `k` is among the messages.
pub record OnWay {V : Type 0} (sent : List (Message V)) (j k : String) (v : ℕ) : Type 0 where
  pub src : String
  pub number : ℕ
  pub delta : HashMap String Counter
  pub stands :
      Stands sent (record { src = src; dest = j; body = MessageBody.counter_gossip number delta })
  pub enough : v ≤ version_of (get k delta)

-- Node `j` counts so many additions of `k`, or a gossip to it does.
abbrev pub Informs : {V : Type 0} → Cluster V → String → String → ℕ → Type 0
Informs c j k v = (v ≤ heard_of c j k) ⊎ OnWay c.net.sent j k v

-- A gossip holds no more than its sender counts.
abbrev pub Tells : {V : Type 0} → (String → String → ℕ) → String → MessageBody V → Type 0
Tells heard src (MessageBody.counter_gossip _ delta) =
    (k : String) → version_of (get k delta) ≤ heard src k
Tells heard src _ = Unit

pub record IsInformed {V : Type 0} (ids : List String) (c : Cluster V) : Type 0 where
  pub peers : (i : String) → (c.net.node i).peers ≡ retain (λ p. not (p == i)) ids
  pub beliefs : (i j k : String) → Informs c j k (get_or 0 k (believed (c.net.state i) j))
  pub traffic : All (λ m. Tells (heard_of c) m.src m.body) c.net.sent

Tells-grows :
    {V : Type 0} (heard more : String → String → ℕ) (src : String) (body : MessageBody V)
    → ((i k : String) → heard i k ≤ more i k)
    → Tells heard src body
    → Tells more src body
Tells-grows heard more src (MessageBody.counter_gossip _ delta) grows h =
    λ k. omega (arith, h k, grows src k)
Tells-grows heard more src (MessageBody.init _ _ _) grows h = tt
Tells-grows heard more src _ grows h = h

pub Tells-from :
    {V : Type 0} (n : String → ℕ) (more : String → String → ℕ) (i src : String)
    (body : MessageBody V)
    → ((k : String) → n k ≤ more i k)
    → (src ≡ i) × Tells (λ j k. n k) src body
    → Tells more src body
Tells-from n more i src (MessageBody.counter_gossip _ delta) grows (e, h) =
    λ k. subst (λ a. version_of (get k delta) ≤ more a k) (sym e) (omega (arith, h k, grows k))
Tells-from n more i src _ grows h = tt

module _ {V : Type 0} where
  pub OnWay-later :
      (out sent : List (Message V)) (j k : String) (v : ℕ)
      → OnWay sent j k v
      → OnWay (out ++ sent) j k v
  OnWay-later out sent j k v w = record {
    src = w.src;
    number = w.number;
    delta = w.delta;
    stands = back-Stands out sent _ w.stands;
    enough = w.enough;
  }

  pub OnWay-first :
      (out sent : List (Message V)) (j k : String) (v : ℕ)
      → OnWay out j k v
      → OnWay (out ++ sent) j k v
  OnWay-first out sent j k v w = record {
    src = w.src;
    number = w.number;
    delta = w.delta;
    stands = front-Stands out sent _ w.stands;
    enough = w.enough;
  }

  pub OnWay-less :
      (sent : List (Message V)) (j k : String) (v w : ℕ)
      → v ≤ w
      → OnWay sent j k w
      → OnWay sent j k v
  OnWay-less sent j k v w low o = record {
    src = o.src;
    number = o.number;
    delta = o.delta;
    stands = o.stands;
    enough = omega (arith, o.enough, low);
  }

-- The cluster is informed, and no node counts fewer additions than before.
abbrev pub Onward : {V : Type 0} → List String → Cluster V → Cluster V → Type 0
Onward ids c d = IsInformed ids d × ((j k : String) → heard_of c j k ≤ heard_of d j k)

-- What a response at node `i` must leave.
pub record Leaves {V : Type 0} (c : Cluster V) (i : String)
    (r : List (Message V) × GrowOnlyCounterNode × Node) : Type 0 where
  pub peers : r.2.peers ≡ (c.net.node i).peers
  pub grows :
      (k : String)
      → version_of (get k (c.net.state i).kv.counters) ≤ version_of (get k r.1.kv.counters)
  pub beliefs : (j k : String) → Informs (settled c i (some r)) j k (get_or 0 k (believed r.1 j))
  pub messages : All (λ m. Tells (heard_of (settled c i (some r))) m.src m.body) r.0

module _ {V : Type 0} (ids : List String) (c : Cluster V) (i : String)
    (r : List (Message V) × GrowOnlyCounterNode × Node) where
  pub heard_grows :
      ((k : String)
        → version_of (get k (c.net.state i).kv.counters) ≤ version_of (get k r.1.kv.counters))
      → (j k : String) → heard_of c j k ≤ heard_of (settled c i (some r)) j k
  heard_grows grows j k =
      at_update
        (λ j (t : GrowOnlyCounterNode).
          version_of (get k (c.net.state j).kv.counters) ≤ version_of (get k t.kv.counters))
        c.net.state i r.1 (grows k) (λ j e. omega arith) j

  pub Informs-grows :
      ((k : String)
        → version_of (get k (c.net.state i).kv.counters) ≤ version_of (get k r.1.kv.counters))
      → (j k : String) (v : ℕ) → Informs c j k v
      → Informs (settled c i (some r)) j k v
  Informs-grows grows j k v (inl h) = inl (omega (arith, h, heard_grows grows j k))
  Informs-grows grows j k v (inr w) = inr (OnWay-later r.0 c.net.sent j k v w)

  pub settled-IsInformed : IsInformed ids c → Leaves c i r → Onward ids c (settled c i (some r))
  settled-IsInformed ok l =
      let d : Cluster V = settled c i (some r) in
      (
        record {
          peers =
              at_update (λ j (n : Node). n.peers ≡ retain (λ p. not (p == j)) ids) c.net.node i r.2
                (l.peers ∙ ok.peers i) (λ j e. ok.peers j);
          beliefs = λ a j k.
              at_update (λ a (t : GrowOnlyCounterNode). Informs d j k (get_or 0 k (believed t j)))
                c.net.state i r.1 (l.beliefs j k)
                (λ a e. Informs-grows l.grows j k _ (ok.beliefs a j k)) a;
          traffic = All-append _ r.0 c.net.sent l.messages (
              All-imp
                (λ m. Tells-grows (heard_of c) (heard_of d) m.src m.body (heard_grows l.grows))
                c.net.sent ok.traffic);
        },
        heard_grows l.grows,
      )
