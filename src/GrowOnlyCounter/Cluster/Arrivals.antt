-- ===== src/GrowOnlyCounter/Cluster/Arrivals.antt =====
-- How what was added at a node comes to the others.
use glome_rs.Base.{
  Bool-cases, List, Option, Option-cases, String, [], arith, beq_refl, false, inl, inr, is_empty,
  length, nat_beq, nat_eq, none, not, pair_eq, refl, some, string_eq, subst, sym, true, ℕ, ◌<◌,
  ◌==◌, ◌∷◌, ◌≡◌, ◌≤◌,
}
use glome_rs.Collections.HashMap.{HashMap, get, get_or, IsMap}
use glome_rs.Collections.HashSet.{contains, contains-retain}
use glome_rs.Maelstrom.Message.{Counter}
use glome_rs.Maelstrom.Node.{Node}
use glome_rs.Maelstrom.Events.{Event}
use glome_rs.Maelstrom.Kv.{Kv}
use glome_rs.GrowOnlyCounter.{GrowOnlyCounterNode, gossip, gossip_peers}
use glome_rs.GrowOnlyCounter.Delta.{version_of}
use glome_rs.GrowOnlyCounter.Gossip.{believed, IsCovered, gossip_peers_cover}
use glome_rs.GrowOnlyCounter.Cluster.Ledger.{IsCurrent}
use glome_rs.GrowOnlyCounter.Cluster.Traffic.{kv-gossip}
use glome_rs.GrowOnlyCounter.Cluster.Steps.{Reach-IsConsistent}
use glome_rs.GrowOnlyCounter.Cluster.Informed.{OnWay-less}
use glome_rs.GrowOnlyCounter.Cluster.Informs.{Reach-IsInformed}
use glome_rs.GrowOnlyCounter.Cluster.{Cluster, at, Step, Reach, Later}
use glome_rs.GrowOnlyCounter.Cluster.Afterwards.{
  All-contains, Later-trans, Counts, Counts-all, Leads, delivers,
}

version_of-IsCurrent :
    (ds : List ℕ) (o : Option Counter) → IsCurrent ds o → version_of o ≡ length ds
version_of-IsCurrent ds none h = omega (arith, h)
version_of-IsCurrent ds (some x) h = h.0

gossip-IsCovered :
    (V : Type 0) (s : GrowOnlyCounterNode) (node : Node) (j : String)
    → IsMap s.kv.counters
    → (node.id == "") ≡ false
    → contains j node.peers ≡ true
    → is_empty s.kv.counters ≡ false
    → IsCovered (gossip {V = V} s node).1 j
unfolding gossip
gossip-IsCovered V s node j keyed named near filled =
    let some_peer : is_empty node.peers ≡ false = has_some j node.peers near in
    rw (named, some_peer, filled)
      (All-contains (IsCovered (gossip_peers {V = V} s node node.peers).1) j node.peers
        (gossip_peers_cover V s node node.peers keyed) near)
  where
    has_some : (p : String) (xs : List String) → contains p xs ≡ true → is_empty xs ≡ false
    has_some p [] h = unfold contains in ground arith
    has_some p (x ∷ xs) h = refl

filled : (k : String) (m : HashMap String Counter) → 0 < version_of (get k m) → is_empty m ≡ false
filled k [] h = absurd (unfold get in omega (arith, h))
filled k (x ∷ m) h = refl

believes :
    (k j : String) (m : HashMap String Counter) (s : GrowOnlyCounterNode)
    → s.kv.counters ≡ m
    → IsCovered s j
    → version_of (get k m) ≤ get_or 0 k (believed s j)
believes k j m s e covered = elim (Option-cases (get k m)) [
  | inl missing ↦ rw missing (omega arith)
  | inr (x, found) ↦ rw found (covered k x (rw e found))
]

module _ {V : Type 0} (ids : List String) where
  own : {c : Cluster V} (j k : String) → Reach ids c → j ≡ k → Counts ids c j k
  own {c} j k r e =
      subst (λ i. Counts ids c i k) (sym e)
        (version_of-IsCurrent (c.added k) (get k (c.net.state k).kv.counters)
          ((Reach-IsConsistent r).owns k))

  near :
      {c : Cluster V} (j k : String)
      → Reach ids c
      → (j == k) ≡ false
      → contains j ids ≡ true
      → contains j (c.net.node k).peers ≡ true
  near {c} j k r other here =
      rw ((Reach-IsInformed ids r).peers k, contains-retain j (λ p. not (p == k)) ids, other, here)
        refl

  -- After the timer of node `k`, it believes that `j` knows all of its additions.
  tick-believed :
      {c : Cluster V} (j k : String)
      → Reach ids c
      → (k == "") ≡ false
      → (j == k) ≡ false
      → contains j ids ≡ true
      → 0 < length (c.added k)
      → length (c.added k) ≤ get_or 0 k (believed ((at c k Event.tick).net.state k) j)
  tick-believed {c} j k r named other here something =
      let ok = Reach-IsConsistent r in
      let s = c.net.state k in
      let node = c.net.node k in
      let all : version_of (get k s.kv.counters) ≡ length (c.added k) =
        version_of-IsCurrent (c.added k) (get k s.kv.counters) (ok.owns k) in
      let covered : IsCovered (gossip {V = V} s node).1 j =
        gossip-IsCovered V s node j (ok.ledgers k).keyed (rw (ok.names k) named)
          (near j k r other here) (filled k s.kv.counters (omega (arith, all, something))) in
      rw (beq_refl k) (
        omega (
          arith,
          all,
          believes k j s.kv.counters (gossip {V = V} s node).1
              (subst (λ (kv : Kv). kv.counters ≡ s.kv.counters) (sym (kv-gossip V s node)) refl)
              covered,
        ))

  pub arrives :
      {c : Cluster V} (j k : String)
      → Reach ids c
      → (k == "") ≡ false
      → contains j ids ≡ true
      → Leads ids c (λ d. Counts ids d j k)
  arrives {c} j k r named here = elim (Bool-cases (j == k)) [
    | inl same ↦ (c, Later.now, own j k r ((string_eq.beq_iff j k).0 same))
    | inr other ↦ elim (Bool-cases (nat_beq (length (c.added k)) 0)) [
      | inl nothing ↦ (c, Later.now, Counts-all ids j k r (ground arith))
      | inr something ↦
          let l : Later c (at c k Event.tick) = Later.after_tick Later.now k in
          let r' : Reach ids (at c k Event.tick) = Reach.next r (Step.tick k) in
          let low = tick-believed j k r named other here (ground arith) in
          elim ((Reach-IsInformed ids r').beliefs k j k) [
            | inl heard ↦ (at c k Event.tick, l, Counts-all ids j k r' (omega (arith, low, heard)))
            | inr w ↦
                let (d, l', counts) = delivers ids j k r' (OnWay-less _ j k _ _ low w) in
                (d, Later-trans ids l l', counts)
          ]
    ]
  ]
