-- ===== src/MultiNodeBroadcast/Tests.antt =====
-- The gossiping broadcast node on concrete inputs.
use glome_rs.Base.{List, String, [], false, nat_eq, pair_eq, refl, string_eq, true, ◌==◌, ◌∷◌, ◌≡◌}
use glome_rs.Collections.HashSet.{contains}
use glome_rs.Maelstrom.Message.{MessageBody}
use glome_rs.Maelstrom.Node.{Node, handle_init}
use glome_rs.MultiNodeBroadcast.{MultiNodeBroadcastNode, construct_k_regular_neighbors, gossip}
use glome_rs.MultiNodeBroadcast.Neighbours.{IsShuffle, neighbors_lem}
use glome_rs.Maelstrom.Events.{Event, serve}
use glome_rs.MultiNodeBroadcast.Main.{gossiper}
use glome_rs.MultiNodeBroadcast.Served.{brought, Shows, serve-Shows}
use glome_rs.MultiNodeBroadcast.Delta.{sent, gossip_repeats}

-- A shuffle that leaves the order as it is.
abbrev keep : List String → List String
keep xs = xs

keep-IsShuffle : IsShuffle keep
keep-IsShuffle = record { same_length = λ xs. refl; same_members = λ xs x. refl }

abbrev ids : List String
ids = "n1" ∷ "n2" ∷ "n3" ∷ []

abbrev n1 : Node
n1 = record { id = "n1"; peers = "n2" ∷ "n3" ∷ []; msg_id = 1 }

abbrev two_values : MultiNodeBroadcastNode
two_values = record {
  messages = 5 ∷ 6 ∷ [];
  gossip_peers = "n2" ∷ [];
  peer_seen = ("n2", 5 ∷ []) ∷ [];
}

abbrev second : String
second = "n2"

neighbors_lem_example : (contains second ids ≡ true) × ((second == "n1") ≡ false)
neighbors_lem_example =
    neighbors_lem keep keep-IsShuffle n1 "n1" ids 1 second
      (unfold construct_k_regular_neighbors handle_init contains in refl)

abbrev events : List (Event Unit)
events =
    Event.received (record { src = "c1"; dest = "n1"; body = MessageBody.broadcast 4 7 })
    ∷ Event.tick
    ∷ Event.received
        (record { src = "n2"; dest = "n1"; body = MessageBody.broadcast_gossip 9 (5 ∷ 8 ∷ []) })
    ∷ []

serve-Shows_example :
    Shows Unit keep two_values (brought events) (serve (gossiper keep) two_values n1 events).1
serve-Shows_example =
    serve-Shows Unit keep two_values n1 events (unfold contains in (refl, (refl, tt)))

gossip_repeats_example :
    sent (gossip {V = Unit} (gossip {V = Unit} two_values n1).1 n1).0
    ≡ sent (gossip {V = Unit} two_values n1).0
gossip_repeats_example = gossip_repeats Unit two_values n1 n1 refl refl
