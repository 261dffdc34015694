-- ===== src/GrowOnlyCounter/Cluster/Rounds.antt =====
-- A round of gossip: what the node then believes of its peers is what it believed before, or on the
-- way to them.
use glome_rs.Base.{
  All, All-append, Bool-cases, List, Option, String, [], arith, beq_refl, inl, inr, is_empty, leb,
  max, nat_eq, none, pair_eq, refl, some, string_eq, subst, sym, true, ℕ, ◌++◌, ◌==◌, ◌||◌, ◌∷◌,
  ◌≡◌, ◌≤◌, ◌⊎◌,
}
use glome_rs.Collections.HashMap.{HashMap, get, get_or, IsMap}
use glome_rs.Maelstrom.Message.{Message, Counter}
use glome_rs.Maelstrom.Node.{Node, next_msg_id}
use glome_rs.Maelstrom.Kv.{Kv, is_empty_kv}
use glome_rs.GrowOnlyCounter.{GrowOnlyCounterNode, collect, gossip_peer, gossip_peers, gossip}
use glome_rs.GrowOnlyCounter.Delta.{version_of, above, get-collect, collect-IsMap, get_or-learn}
use glome_rs.GrowOnlyCounter.Gossip.{
  believed, believed-gossip_peer, kv-gossip_peer, peers-gossip_peers,
}
use glome_rs.GrowOnlyCounter.Cluster.Informed.{OnWay, OnWay-later, OnWay-first, OnWay-less, Tells}

version_of-above : (known : ℕ) (o : Option Counter) → version_of (above known o) ≤ version_of o
version_of-above known none = omega arith
version_of-above known (some c) = ground arith

module _ (V : Type 0) where
  -- What the node believes of `q` is what it believed, or on the way.
  abbrev pub Justified :
      GrowOnlyCounterNode → List (Message V) × GrowOnlyCounterNode × Node → Type 0
  Justified s r =
      (q k : String)
      → (get_or 0 k (believed r.1 q) ≤ get_or 0 k (believed s q))
        ⊎ OnWay r.0 q k (get_or 0 k (believed r.1 q))

  -- The messages are the node's, and hold no more than the counters.
  abbrev pub Within : String → HashMap String Counter → List (Message V) → Type 0
  Within i counters out =
      All (λ m. (m.src ≡ i) × Tells (λ j k. version_of (get k counters)) m.src m.body) out

  id-gossip_peer :
      (s : GrowOnlyCounterNode) (node : Node) (peer : String)
      → (gossip_peer {V = V} s node peer).2.id ≡ node.id
  unfolding gossip_peer next_msg_id
  id-gossip_peer s node peer = ground arith

  module _ (s : GrowOnlyCounterNode) (node : Node) (keyed : IsMap s.kv.counters) where
    after_peer :
        (q k : String)
        → let versions = believed s q in
          get_or 0 k (believed (gossip_peer {V = V} s node q).1 q)
          ≡ max (get_or 0 k versions) (version_of (get k (collect versions [] s.kv.counters)))
    after_peer q k = ground (
      arith,
      believed-gossip_peer V s node q q,
      beq_refl q,
      get_or-learn (believed s q) (collect (believed s q) [] s.kv.counters) k
          (collect-IsMap (believed s q) [] s.kv.counters tt),
    )

    -- A counter of the delta is on the way.
    sends_delta :
        (q k : String)
        → let delta = collect (believed s q) [] s.kv.counters in
          (version_of (get k delta) ≡ 0)
          ⊎ OnWay (gossip_peer {V = V} s node q).0 q k (version_of (get k delta))
    unfolding gossip_peer next_msg_id
    sends_delta q k =
        let delta = collect (believed s q) [] s.kv.counters in
        elim (Bool-cases (is_empty delta)) [
          | inl nothing ↦ inl (no_version delta nothing)
          | inr some_new ↦ inr (record {
            src = node.id;
            number = (next_msg_id node).0;
            delta = delta;
            stands = (0, rw some_new refl);
            enough = omega arith;
          })
        ]
      where
        no_version :
            (delta : HashMap String Counter) → is_empty delta ≡ true → version_of (get k delta) ≡ 0
        no_version [] e = unfold get in refl
        no_version (x ∷ delta) e = cc

    same_peer :
        (q k : String)
        → (get_or 0 k (believed (gossip_peer {V = V} s node q).1 q) ≤ get_or 0 k (believed s q))
          ⊎ OnWay
              (gossip_peer {V = V} s node q).0
              q
              k
              (get_or 0 k (believed (gossip_peer {V = V} s node q).1 q))
    same_peer q k = elim (sends_delta q k) [
      | inl nothing ↦ inl (omega (arith, after_peer q k, nothing))
      | inr w ↦
          let old = get_or 0 k (believed s q) in
          let delta = collect (believed s q) [] s.kv.counters in
          elim (Bool-cases (leb (version_of (get k delta)) old)) [
            | inl low ↦ inl (ground (arith, after_peer q k))
            | inr high ↦
                let e : version_of (get k delta)
                    ≡ get_or 0 k (believed (gossip_peer {V = V} s node q).1 q) =
                  ground (arith, after_peer q k) in
                inr (subst (OnWay (gossip_peer {V = V} s node q).0 q k) e w)
          ]
    ]

    peer-Justified : (peer : String) → Justified s (gossip_peer s node peer)
    peer-Justified peer q k = elim (Bool-cases (peer == q)) [
      | inl here ↦
          let r : String → List (Message V) × GrowOnlyCounterNode × Node =
            λ p. gossip_peer s node p in
          subst
            (λ p.
              (get_or 0 k (believed (r p).1 q) ≤ get_or 0 k (believed s q))
              ⊎ OnWay (r p).0 q k (get_or 0 k (believed (r p).1 q)))
            (sym ((string_eq.beq_iff peer q).0 here)) (same_peer q k)
      | inr there ↦ inl (ground (arith, believed-gossip_peer V s node peer q))
    ]

    peer-Within : (peer : String) → Within node.id s.kv.counters (gossip_peer {V = V} s node peer).0
    unfolding gossip_peer next_msg_id
    peer-Within peer =
        let versions = believed s peer in
        elim (Bool-cases (is_empty (collect versions [] s.kv.counters))) [
          | inl nothing ↦ rw nothing tt
          | inr delta ↦ rw delta (
            (
              refl,
              λ k.
                  rw (get-collect versions s.kv.counters k keyed)
                    (version_of-above (get_or 0 k versions) (get k s.kv.counters)),
            ),
            tt,
          )
        ]

  peers-Justified :
      (s : GrowOnlyCounterNode) (node : Node) (peers : List String)
      → IsMap s.kv.counters
      → Justified s (gossip_peers s node peers)
        × Within node.id s.kv.counters (gossip_peers {V = V} s node peers).0
  unfolding gossip_peers
  peers-Justified s node [] keyed = (λ q k. inl (omega arith), tt)
  peers-Justified s node (peer ∷ peers) keyed =
      let (msgs, s', node') = gossip_peer {V = V} s node peer in
      let (rest, s'', node'') = gossip_peers {V = V} s' node' peers in
      let keyed' : IsMap s'.kv.counters = rw (kv-gossip_peer V s node peer) keyed in
      let (later, within) = peers-Justified s' node' peers keyed' in
      let first = peer-Justified s node keyed peer in
      (
        λ q k. elim (later q k) [
          | inr w ↦ inr (OnWay-later msgs rest q k _ w)
          | inl low ↦ elim (first q k) [
            | inl lower ↦ inl (omega (arith, low, lower))
            | inr w ↦ inr (OnWay-less (msgs ++ rest) q k _ _ low (OnWay-first msgs rest q k _ w))
          ]
        ],
        All-append _ msgs rest (peer-Within s node keyed peer) (
            subst (λ i. Within i s.kv.counters rest) (id-gossip_peer s node peer)
              (subst (λ (kv : Kv). Within node'.id kv.counters rest) (kv-gossip_peer V s node peer)
                within)),
      )

  pub gossip-Justified :
      (s : GrowOnlyCounterNode) (node : Node)
      → IsMap s.kv.counters
      → Justified s (gossip s node) × Within node.id s.kv.counters (gossip {V = V} s node).0
  unfolding gossip
  gossip-Justified s node keyed =
      elim (Bool-cases (node.id == "" || is_empty node.peers || is_empty_kv s.kv)) [
        | inl idle ↦ rw idle (λ q k. inl (omega arith), tt)
        | inr busy ↦ rw busy (peers-Justified s node node.peers keyed)
      ]

  pub peers-gossip :
      (s : GrowOnlyCounterNode) (node : Node) → (gossip {V = V} s node).2.peers ≡ node.peers
  unfolding gossip
  peers-gossip s node = ground (arith, peers-gossip_peers V s node node.peers)
