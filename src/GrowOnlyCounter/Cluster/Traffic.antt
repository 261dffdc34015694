-- ===== src/GrowOnlyCounter/Cluster/Traffic.antt =====
-- What the messages between the nodes hold.
use glome_rs.Base.{
  All, All-append, Bool-cases, List, Option, String, [], arith, inl, inr, is_empty, ltb, nat_eq,
  none, pair_eq, some, string_eq, subst, sym, ℕ, ◌==◌, ◌||◌, ◌∷◌, ◌≡◌,
}
use glome_rs.Collections.HashMap.{HashMap, get, get_or, IsMap}
use glome_rs.Maelstrom.Message.{MessageBody, Counter}
use glome_rs.Maelstrom.Node.{Node}
use glome_rs.Maelstrom.Kv.{Kv, is_empty_kv, merge_counters}
use glome_rs.Maelstrom.Kv.Merge.{get-merge, merge_counters-IsMap}
use glome_rs.GrowOnlyCounter.{GrowOnlyCounterNode, collect, gossip_peer, gossip_peers, gossip}
use glome_rs.GrowOnlyCounter.Delta.{above, get-collect, collect-IsMap}
use glome_rs.GrowOnlyCounter.Gossip.{kv-gossip_peer, kv-gossip_peers}
use glome_rs.GrowOnlyCounter.Cluster.Ledger.{IsPast, IsPast-newer}

-- Every counter of the map counts the first additions of its owner.
pub record IsLedger (added : String → List ℕ) (m : HashMap String Counter) : Type 0 where
  pub keyed : IsMap m
  pub past : (k : String) → IsPast (added k) (get k m)

-- Only gossip holds counters. No node sends the messages that set a node up or add to it.
abbrev pub Carries : {V : Type 0} → (String → List ℕ) → MessageBody V → Type 0
Carries added (MessageBody.counter_gossip _ counters) = IsLedger added counters
Carries added (MessageBody.init _ _ _) = ⊥
Carries added (MessageBody.add _ _) = ⊥
Carries added _ = Unit

module _ (added more : String → List ℕ)
    (grows : (k : String) (o : Option Counter) → IsPast (added k) o → IsPast (more k) o) where
  pub IsLedger-grows : (m : HashMap String Counter) → IsLedger added m → IsLedger more m
  IsLedger-grows m l = record { keyed = l.keyed; past = λ k. grows k (get k m) (l.past k) }

  pub Carries-grows : {V : Type 0} (body : MessageBody V) → Carries added body → Carries more body
  Carries-grows (MessageBody.counter_gossip _ counters) h = IsLedger-grows counters h
  Carries-grows (MessageBody.init _ _ _) h = h
  Carries-grows (MessageBody.add _ _) h = h
  Carries-grows _ h = tt

module _ (added : String → List ℕ) where
  pub IsLedger-merge :
      (m n : HashMap String Counter)
      → IsLedger added m
      → IsLedger added n
      → IsLedger added (merge_counters m n)
  IsLedger-merge m n lm ln = record {
    keyed = merge_counters-IsMap m n lm.keyed;
    past = λ k.
        rw (get-merge m n k ln.keyed)
          (IsPast-newer (added k) (get k m) (get k n) (lm.past k) (ln.past k));
  }

  IsPast-above :
      (ds : List ℕ) (known : ℕ) (o : Option Counter) → IsPast ds o → IsPast ds (above known o)
  IsPast-above ds known none h = h
  IsPast-above ds known (some c) h = elim (Bool-cases (ltb known c.version)) [
    | inl e ↦ rw e h
    | inr e ↦ rw e tt
  ]

  IsLedger-collect :
      (versions : HashMap String ℕ) (m : HashMap String Counter)
      → IsLedger added m
      → IsLedger added (collect versions [] m)
  IsLedger-collect versions m l = record {
    keyed = collect-IsMap versions [] m tt;
    past = λ k.
        rw (get-collect versions m k l.keyed)
          (IsPast-above (added k) (get_or 0 k versions) (get k m) (l.past k));
  }

  module _ (V : Type 0) where
    gossip_peer-Carries :
        (s : GrowOnlyCounterNode) (node : Node) (peer : String)
        → IsLedger added s.kv.counters
        → All (λ o. Carries added o.body) (gossip_peer {V = V} s node peer).0
    unfolding gossip_peer
    gossip_peer-Carries s node peer l =
        let versions = get_or [] peer s.peer_known_versions in
        elim (Bool-cases (is_empty (collect versions [] s.kv.counters))) [
          | inl nothing ↦ rw nothing tt
          | inr delta ↦ rw delta (IsLedger-collect versions s.kv.counters l, tt)
        ]

    gossip_peers-Carries :
        (s : GrowOnlyCounterNode) (node : Node) (peers : List String)
        → IsLedger added s.kv.counters
        → All (λ o. Carries added o.body) (gossip_peers {V = V} s node peers).0
    unfolding gossip_peers
    gossip_peers-Carries s node [] l = tt
    gossip_peers-Carries s node (peer ∷ peers) l =
        let (msgs, s', node') = gossip_peer {V = V} s node peer in
        All-append _ msgs (gossip_peers {V = V} s' node' peers).0
          (gossip_peer-Carries s node peer l)
          (gossip_peers-Carries s' node' peers (
            subst (λ (kv : Kv). IsLedger added kv.counters) (sym (kv-gossip_peer V s node peer)) l))

    pub gossip-Carries :
        (s : GrowOnlyCounterNode) (node : Node)
        → IsLedger added s.kv.counters
        → All (λ o. Carries added o.body) (gossip {V = V} s node).0
    unfolding gossip
    gossip-Carries s node l =
        elim (Bool-cases (node.id == "" || is_empty node.peers || is_empty_kv s.kv)) [
          | inl idle ↦ rw idle tt
          | inr busy ↦ rw busy (gossip_peers-Carries s node node.peers l)
        ]

module _ (V : Type 0) where
  pub kv-gossip : (s : GrowOnlyCounterNode) (node : Node) → (gossip {V = V} s node).1.kv ≡ s.kv
  unfolding gossip
  kv-gossip s node = ground (arith, kv-gossip_peers V s node node.peers)
