-- ===== src/GrowOnlyCounter/Cluster/Reads.antt =====
-- What the nodes of the cluster read.
use glome_rs.Base.{
  List, Option, Option-cases, String, [], arith, inl, inr, length, nat_eq, none, pair_eq, refl,
  some, string_eq, take, take_all, u64_mod, ℕ, ◌%◌, ◌≡◌,
}
use glome_rs.Collections.HashMap.{HashMap, get, get_or, IsMap}
use glome_rs.Collections.HashMap.Views.{total, part, total-part}
use glome_rs.Maelstrom.Message.{Counter}
use glome_rs.Maelstrom.Kv.Total.{value_of, read-total}
use glome_rs.GrowOnlyCounter.{handle_read}
use glome_rs.GrowOnlyCounter.Delta.{version_of}
use glome_rs.GrowOnlyCounter.Cluster.Ledger.{IsPast, sum64}
use glome_rs.GrowOnlyCounter.Cluster.Steps.{Reach-IsConsistent}
use glome_rs.GrowOnlyCounter.Cluster.{Cluster, Reach}

-- How many additions of node `k` node `i` counts.
abbrev pub heard_of : {V : Type 0} → Cluster V → String → String → ℕ
heard_of c i k = version_of (get k (c.net.state i).kv.counters)

part-heard :
    (ds : List ℕ) (o : Option Counter)
    → IsPast ds o
    → part value_of o ≡ sum64 (take (version_of o) ds)
part-heard ds none h = refl
part-heard ds (some x) h = h.1

part-get :
    (k : String) (all : HashMap String (List ℕ)) → part sum64 (get k all) ≡ sum64 (get_or [] k all)
unfolding get_or
part-get k all = elim (Option-cases (get k all)) [
  | inl e ↦ rw (get_or, e) refl
  | inr (ds, e) ↦ rw (get_or, e) refl
]

module _ {V : Type 0} {ids : List String} {c : Cluster V} (r : Reach ids c) where
  part_heard :
      (i k : String)
      → part value_of (get k (c.net.state i).kv.counters)
        ≡ sum64 (take (heard_of c i k) (c.added k))
  part_heard i k =
      let ok = Reach-IsConsistent r in
      part-heard (c.added k) (get k (c.net.state i).kv.counters) ((ok.ledgers i).past k)

  -- In a reachable cluster, two nodes that count as many additions of each node read the same
  -- number.
  pub read_same :
      (i j : String)
      → ((k : String) → heard_of c i k ≡ heard_of c j k)
      → handle_read (c.net.state i) ≡ handle_read (c.net.state j)
  unfolding handle_read
  read_same i j same =
      let ok = Reach-IsConsistent r in
      omega (
        arith,
        read-total (c.net.state i).kv,
        read-total (c.net.state j).kv,
        total-part value_of value_of (c.net.state i).kv.counters (c.net.state j).kv.counters
            (ok.ledgers i).keyed (ok.ledgers j).keyed
            (λ k. cc (part_heard i k, part_heard j k, same k)),
      )

  -- In a reachable cluster, a node that counts every addition at every node reads the sum of all
  -- that was added, modulo 2^64. The additions are given as a map in which each key stands once.
  pub read_all :
      (i : String) (all : HashMap String (List ℕ))
      → IsMap all
      → ((k : String) → c.added k ≡ get_or [] k all)
      → ((k : String) → heard_of c i k ≡ length (c.added k))
      → handle_read (c.net.state i) ≡ total sum64 all % u64_mod
  unfolding handle_read
  read_all i all keyed added every =
      let ok = Reach-IsConsistent r in
      omega (
        arith,
        read-total (c.net.state i).kv,
        total-part value_of sum64 (c.net.state i).kv.counters all (ok.ledgers i).keyed keyed (λ k.
            cc (
              part_heard i k,
              part-get k all,
              added k,
              every k,
              take_all (length (c.added k)) (c.added k) (omega arith),
            )),
      )
