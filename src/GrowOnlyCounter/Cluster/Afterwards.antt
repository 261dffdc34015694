-- ===== src/GrowOnlyCounter/Cluster/Afterwards.antt =====
-- What the timers and the network can make of a cluster, and what they leave as it is.
use glome_rs.Base.{
  All, All-get_elem?, Bool-cases, List, Option, String, [], arith, beq_refl, inl, inr, length,
  nat_eq, none, pair_eq, refl, some, string_eq, subst, true, ℕ, ◌==◌, ◌∷◌, ◌≡◌, ◌≤◌,
}
use glome_rs.Collections.HashMap.{get, IsMap}
use glome_rs.Collections.HashSet.{contains}
use glome_rs.Maelstrom.Message.{Message, MessageBody, Counter}
use glome_rs.Maelstrom.Events.{Event}
use glome_rs.Maelstrom.Kv
use glome_rs.Maelstrom.Kv.{Kv, is_empty_kv}
use glome_rs.Maelstrom.Kv.Merge.{get-merge}
use glome_rs.GrowOnlyCounter.{handle_counter_gossip, handle_body, handle}
use glome_rs.GrowOnlyCounter.Delta.{version_of}
use glome_rs.GrowOnlyCounter.Cluster.Ledger.{IsPast}
use glome_rs.GrowOnlyCounter.Cluster.Traffic.{Carries}
use glome_rs.GrowOnlyCounter.Cluster.Steps.{Reach-IsConsistent}
use glome_rs.GrowOnlyCounter.Cluster.Reads.{heard_of}
use glome_rs.GrowOnlyCounter.Cluster.Informed.{OnWay}
use glome_rs.GrowOnlyCounter.Cluster.Responses.{newer_grows}
use glome_rs.GrowOnlyCounter.Cluster.Informs.{Step-Onward, Reach-IsInformed}
use glome_rs.GrowOnlyCounter.Cluster.{Cluster, at, Step, Reach, Later}

version_of-IsPast : (ds : List ℕ) (o : Option Counter) → IsPast ds o → version_of o ≤ length ds
version_of-IsPast ds none h = omega arith
version_of-IsPast ds (some x) h = h.0

pub All-contains :
    (P : String → Type 0) (x : String) (xs : List String) → All P xs → contains x xs ≡ true → P x
unfolding contains
All-contains P x [] h e = absurd cc
All-contains P x (y ∷ xs) h e = elim (Bool-cases (y == x)) [
  | inl here ↦ subst P ((string_eq.beq_iff y x).0 here) h.0
  | inr there ↦ All-contains P x xs h.1 (ground arith)
]

module _ {V : Type 0} (ids : List String) where
  pub Later-Reach : {c d : Cluster V} → Reach ids c → Later c d → Reach ids d
  Later-Reach r Later.now = r
  Later-Reach r (Later.after_tick l i) = Reach.next (Later-Reach r l) (Step.tick i)
  Later-Reach r (Later.after_delivery l k m e) = Reach.next (Later-Reach r l) (Step.deliver k m e)

  pub Later-added : {c d : Cluster V} → Later c d → d.added ≡ c.added
  Later-added Later.now = refl
  Later-added (Later.after_tick l i) = Later-added l
  Later-added (Later.after_delivery l k m e) = Later-added l

  pub Later-trans : {c d e : Cluster V} → Later c d → Later d e → Later c e
  Later-trans l Later.now = l
  Later-trans l (Later.after_tick m i) = Later.after_tick (Later-trans l m) i
  Later-trans l (Later.after_delivery m k n e) = Later.after_delivery (Later-trans l m) k n e

  -- Node `j` counts every addition of node `k`.
  abbrev pub Counts : Cluster V → String → String → Type 0
  Counts c j k = heard_of c j k ≡ length (c.added k)

  pub Counts-all :
      {c : Cluster V} (j k : String)
      → Reach ids c
      → length (c.added k) ≤ heard_of c j k
      → Counts c j k
  Counts-all {c} j k r h =
      let ok = Reach-IsConsistent r in
      omega (
        arith,
        h,
        version_of-IsPast (c.added k) (get k (c.net.state j).kv.counters) ((ok.ledgers j).past k),
      )

  -- A gossip on the way that counts every addition of node `k` can arrive.
  pub delivers :
      {c : Cluster V} (j k : String)
      → Reach ids c
      → OnWay c.net.sent j k (length (c.added k))
      → (d : Cluster V) × Later c d × Counts d j k
  unfolding handle handle_body handle_counter_gossip Kv.merge
  delivers {c} j k r w =
      let m : Message V = record {
        src = w.src;
        dest = j;
        body = MessageBody.counter_gossip w.number w.delta;
      } in
      let keyed : IsMap w.delta =
        (All-get_elem? (λ o. Carries c.added o.body) c.net.sent w.stands.0 m
          (Reach-IsConsistent r).traffic w.stands.1).keyed in
      let l : Later c (at c j (Event.received m)) =
        Later.after_delivery Later.now w.stands.0 m w.stands.1 in
      (
        at c j (Event.received m),
        l,
        Counts-all j k (Later-Reach r l) (
            rw (beq_refl j, get-merge (c.net.state j).kv.counters w.delta k keyed)
              (omega (
                arith,
                w.enough,
                (newer_grows (get k (c.net.state j).kv.counters) (get k w.delta)).1,
              ))),
      )

  pub Counts-later :
      {c d : Cluster V} (j k : String) → Reach ids c → Later c d → Counts c j k → Counts d j k
  Counts-later j k r Later.now h = h
  Counts-later j k r (Later.after_tick {d} l i) h =
      let r' = Later-Reach r l in
      let grows =
        (Step-Onward ids (Step.tick i) (Reach-IsConsistent r') (Reach-IsInformed ids r')).1 in
      Counts-all j k (Reach.next r' (Step.tick i))
        (omega (arith, Counts-later j k r l h, grows j k))
  Counts-later j k r (Later.after_delivery {d} l n m e) h =
      let r' = Later-Reach r l in
      let grows =
        (Step-Onward ids (Step.deliver n m e) (Reach-IsConsistent r')
          (Reach-IsInformed ids r')).1 in
      Counts-all j k (Reach.next r' (Step.deliver n m e))
        (omega (arith, Counts-later j k r l h, grows j k))

  -- A cluster to which the timers and the network can lead.
  abbrev pub Leads : Cluster V → (Cluster V → Type 0) → Type 0
  Leads c P = (d : Cluster V) × Later c d × P d
