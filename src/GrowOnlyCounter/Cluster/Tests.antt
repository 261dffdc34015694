-- ===== src/GrowOnlyCounter/Cluster/Tests.antt =====
-- A cluster of two counters: one adds, gossips, and the gossip arrives.
use glome_rs.Base.{
  All, List, String, [], arith, nat_eq, pair_eq, refl, string_eq, u64_mod, ℕ, ◌%◌, ◌∷◌, ◌≡◌,
}
use glome_rs.Collections.HashMap
use glome_rs.Collections.HashMap.{HashMap, get, get_or, IsMap}
use glome_rs.Collections.HashMap.Views.{total}
use glome_rs.Maelstrom.Message.{Message, MessageBody}
use glome_rs.Maelstrom.Net.{update}
use glome_rs.Maelstrom.Events.{Event}
use glome_rs.Maelstrom.Kv
use glome_rs.GrowOnlyCounter
use glome_rs.GrowOnlyCounter.{GrowOnlyCounterNode, handle_read}
use glome_rs.GrowOnlyCounter.Cluster.{Cluster, Later, Step, Reach, start, at, add_request}
use glome_rs.GrowOnlyCounter.Cluster.Ledger.{sum64}
use glome_rs.GrowOnlyCounter.Cluster.Invariant.{IsConsistent}
use glome_rs.GrowOnlyCounter.Cluster.Steps.{Reach-IsConsistent}
use glome_rs.GrowOnlyCounter.Cluster.Reads.{read_same, read_all}
use glome_rs.GrowOnlyCounter.Cluster.Spreads.{total_spreads}
use glome_rs.Collections.HashSet.{contains}

abbrev ids : List String
ids = "n1" ∷ "n2" ∷ []

abbrev added_to : Cluster Unit
added_to = record (at (start ids) "n1" (add_request (start ids) "n1" "c1" 1 5)) {
  added = update (start {V = Unit} ids).added "n1" (5 ∷ []);
}

abbrev gossiped : Cluster Unit
gossiped = at added_to "n1" Event.tick

abbrev gossip_sent : Message Unit
gossip_sent = record {
  src = "n1";
  dest = "n2";
  body = MessageBody.counter_gossip 3 (("n1", record { version = 1; value = 5 }) ∷ []);
}

abbrev delivered : Cluster Unit
delivered = at gossiped "n2" (Event.received gossip_sent)

delivered-Reach : Reach ids delivered
unfolding GrowOnlyCounter.handle GrowOnlyCounter.gossip GrowOnlyCounter.gossip_peers
    GrowOnlyCounter.gossip_peer GrowOnlyCounter.collect GrowOnlyCounter.collect_entry
    GrowOnlyCounter.learn GrowOnlyCounter.learn_entry GrowOnlyCounter.handle_add
    GrowOnlyCounter.handle_counter_gossip GrowOnlyCounter.prepare_peers Kv.add Kv.init
    Kv.init_counters Kv.merge Kv.merge_counters Kv.merge_entry HashMap.upsert HashMap.insert
    HashMap.or_insert get get_or
delivered-Reach =
    Reach.next
      (Reach.next (Reach.next Reach.here (Step.add "n1" "c1" 1 5 (omega arith) (omega arith)))
        (Step.tick "n1"))
      (Step.deliver 0 gossip_sent refl)

abbrev all : HashMap String (List ℕ)
all = ("n1", 5 ∷ []) ∷ []

Reach-IsConsistent_example : IsConsistent delivered
Reach-IsConsistent_example = Reach-IsConsistent delivered-Reach

read_same_example : handle_read (delivered.net.state "n1") ≡ handle_read (delivered.net.state "n2")
unfolding GrowOnlyCounter.handle GrowOnlyCounter.gossip GrowOnlyCounter.gossip_peers
    GrowOnlyCounter.gossip_peer GrowOnlyCounter.collect GrowOnlyCounter.collect_entry
    GrowOnlyCounter.learn GrowOnlyCounter.learn_entry GrowOnlyCounter.handle_add
    GrowOnlyCounter.handle_counter_gossip GrowOnlyCounter.prepare_peers Kv.add Kv.init
    Kv.init_counters Kv.merge Kv.merge_counters Kv.merge_entry HashMap.upsert HashMap.insert
    HashMap.or_insert get get_or
read_same_example = read_same delivered-Reach "n1" "n2" (λ k. refl)

read_all_example : handle_read (delivered.net.state "n2") ≡ total sum64 all % u64_mod
unfolding GrowOnlyCounter.handle GrowOnlyCounter.gossip GrowOnlyCounter.gossip_peers
    GrowOnlyCounter.gossip_peer GrowOnlyCounter.collect GrowOnlyCounter.collect_entry
    GrowOnlyCounter.learn GrowOnlyCounter.learn_entry GrowOnlyCounter.handle_add
    GrowOnlyCounter.handle_counter_gossip GrowOnlyCounter.prepare_peers Kv.add Kv.init
    Kv.init_counters Kv.merge Kv.merge_counters Kv.merge_entry HashMap.upsert HashMap.insert
    HashMap.or_insert get get_or
read_all_example =
    read_all delivered-Reach "n2" all (refl, tt) (λ k. ground arith) (λ k. ground arith)

added_to-Reach : Reach ids added_to
added_to-Reach = Reach.next Reach.here (Step.add "n1" "c1" 1 5 (omega arith) (omega arith))

total_spreads_example :
    (d : Cluster Unit) × Later added_to d
    × All (λ j. handle_read (d.net.state j) ≡ total sum64 all % u64_mod) ids
unfolding contains get get_or
total_spreads_example =
    total_spreads all added_to-Reach refl (λ k e. ground (arith, e, string_eq.beq_iff "n1" k))
      (refl, tt) (λ k. ground arith)
