-- ===== src/GrowOnlyCounter/Tests.antt =====
-- The grow-only counter on concrete inputs.
use glome_rs.Base.{List, String, [], arith, nat_eq, pair_eq, refl, string_eq, ℕ, ◌∷◌, ◌≡◌}
use glome_rs.Collections.HashMap.{HashMap, get, get_or, IsMap}
use glome_rs.Collections.HashMap.Views.{SameView}
use glome_rs.Maelstrom.Message.{MessageBody, Counter}
use glome_rs.Maelstrom.Node.{Node}
use glome_rs.Maelstrom.Kv.{merge_counters}
use glome_rs.GrowOnlyCounter.{GrowOnlyCounterNode, collect, gossip}
use glome_rs.GrowOnlyCounter.Delta.{Knows, merge-collect}
use glome_rs.Maelstrom.Events.{Event}
use glome_rs.GrowOnlyCounter.Gossip.{gossip_again}

abbrev counters : HashMap String Counter
counters =
    ("n1", record { version = 2; value = 7 }) ∷ ("n2", record { version = 1; value = 4 }) ∷ []

abbrev receiver : HashMap String Counter
receiver = ("n2", record { version = 1; value = 4 }) ∷ []

abbrev versions : HashMap String ℕ
versions = ("n2", 1) ∷ []

counters-IsMap : IsMap counters
unfolding get
counters-IsMap = (refl, (refl, tt))

versions-Knows : Knows versions counters receiver
unfolding get get_or
versions-Knows = record {
  known = λ k c e le. (record { version = 1; value = 4 }, ground arith, ground arith);
}

abbrev n1_counter : GrowOnlyCounterNode
n1_counter = record {
  kv = record { counters = counters };
  peer_known_versions = ("n2", versions) ∷ [];
}

abbrev n1 : Node
n1 = record { id = "n1"; peers = "n2" ∷ []; msg_id = 1 }

merge-collect_example :
    SameView
      (merge_counters receiver (collect versions [] counters))
      (merge_counters receiver counters)
merge-collect_example = merge-collect versions counters receiver counters-IsMap versions-Knows

gossip_again_example :
    (gossip {V = Unit} (gossip {V = Unit} n1_counter n1).1 (gossip {V = Unit} n1_counter n1).2).0
    ≡ []
gossip_again_example = gossip_again Unit n1_counter n1 counters-IsMap

abbrev events : List (Event Unit)
events =
    Event.received (record { src = "c1"; dest = "n1"; body = MessageBody.add 1 3 })
    ∷ Event.tick
    ∷ Event.received (record { src = "c1"; dest = "n1"; body = MessageBody.read 2 })
    ∷ []
