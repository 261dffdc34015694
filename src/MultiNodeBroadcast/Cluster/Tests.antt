-- ===== src/MultiNodeBroadcast/Cluster/Tests.antt =====
-- A cluster of three broadcast nodes: a client broadcasts at one of them.
use glome_rs.Base.{List, String, [], arith, nat_eq, pair_eq, refl, string_eq, ◌∷◌}
use glome_rs.Collections.HashSet.{contains, IsHashSet}
use glome_rs.Maelstrom.Message.{MessageBody}
use glome_rs.Maelstrom.Node
use glome_rs.Maelstrom.Node.{Node}
use glome_rs.MultiNodeBroadcast
use glome_rs.MultiNodeBroadcast.{handle_read}
use glome_rs.MultiNodeBroadcast.Cluster.{Cluster, Step, Reach, Later, start, asked_for}
use glome_rs.MultiNodeBroadcast.Cluster.Invariant.{IsIn}
use glome_rs.MultiNodeBroadcast.Cluster.Reads.{read_genuine}
use glome_rs.MultiNodeBroadcast.Cluster.Spreads.{Way, values_spread}

abbrev keep : List String → List String
keep xs = xs

abbrev ids : List String
ids = "n1" ∷ "n2" ∷ "n3" ∷ []

abbrev told : Cluster Unit
told =
    asked_for keep (start keep ids)
      (record { src = "c1"; dest = "n1"; body = MessageBody.broadcast 3 7 })

told-Reach : Reach keep ids told
told-Reach =
    Reach.next Reach.here
      (Step.request (record { src = "c1"; dest = "n1"; body = MessageBody.broadcast 3 7 }) tt)

read_genuine_example :
    IsIn (handle_read (told.net.state "n1")) (7 ∷ [])
    × IsHashSet (handle_read (told.net.state "n1"))
read_genuine_example = read_genuine keep "n1" told-Reach

n1_to_n3 : Way keep told "n1" "n3"
unfolding MultiNodeBroadcast.handle MultiNodeBroadcast.construct_k_regular_neighbors
    MultiNodeBroadcast.handle_broadcast Node.handle_init contains
n1_to_n3 = Way.along {j = "n2"} (Way.along Way.stay refl refl) refl refl

values_spread_example :
    (d : Cluster Unit) × Later keep told d
    × IsIn (handle_read (told.net.state "n1")) (handle_read (d.net.state "n3"))
values_spread_example = values_spread keep "n1" "n3" told-Reach (omega arith) n1_to_n3
