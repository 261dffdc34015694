-- ===== src/SingleNodeBroadcast/Tests.antt =====
-- The single broadcast node on concrete inputs.
use glome_rs.Base.{[], nat_eq, pair_eq, refl, string_eq, ◌∷◌}
use glome_rs.Collections.HashSet.{contains}
use glome_rs.Maelstrom.Node.{Node}
use glome_rs.SingleNodeBroadcast.{SingleNodeBroadcastNode}
use glome_rs.SingleNodeBroadcast.Messages.{IsValid}

abbrev one_message : SingleNodeBroadcastNode
one_message = record { messages = 5 ∷ []; seen = 5 ∷ [] }

one_message-IsValid : IsValid one_message
unfolding contains
one_message-IsValid = record { same = λ m. refl; distinct = (refl, tt) }

abbrev n1 : Node
n1 = record { id = "n1"; peers = "n2" ∷ "n3" ∷ []; msg_id = 1 }
