-- ===== src/Services.antt =====
-- What the handlers of all services have in common.
pub mod EntryPoints
pub mod Panics
mod Tests
use glome_rs.Base.{List, String, ℕ, Option}
use glome_rs.Maelstrom.Handler.Numbering.{IsSound}
use glome_rs.Echo
use glome_rs.UniqueIds
use glome_rs.UniqueIds.Runs as Ids
use glome_rs.GrowOnlyCounter
use glome_rs.GrowOnlyCounter.Handle as Counter
use glome_rs.SingleNodeTat
use glome_rs.SingleNodeTat.Answers as Tat
use glome_rs.SingleNodeBroadcast
use glome_rs.SingleNodeBroadcast.Messages as Broadcast
use glome_rs.MultiNodeBroadcast
use glome_rs.MultiNodeBroadcast.Messages as Gossip
use glome_rs.SingleNodeKafka
use glome_rs.SingleNodeKafka.Sends as Kafka
use glome_rs.MultiNodeKafka
use glome_rs.MultiNodeKafka.Handle as Replicated
use glome_rs.Tarct
use glome_rs.Tarct.Handle as Committed
use glome_rs.Tarut
use glome_rs.Tarut.Handle as Uncommitted

-- In every service a message that the handler sends in response carries the next number of the
-- node, and the node's id as its source.
pub handlers-IsSound :
    (V : Type 0) (shuffle : List String → List String) (xxh3_64 : String → ℕ) (clock : Option ℕ)
    → IsSound (Echo.handler {V = V})
      × IsSound (UniqueIds.handler {V = V} xxh3_64 clock)
      × IsSound (GrowOnlyCounter.handler {V = V})
      × IsSound (SingleNodeTat.handler {V = V})
      × IsSound (SingleNodeBroadcast.handler {V = V})
      × IsSound (MultiNodeBroadcast.handler {V = V} shuffle)
      × IsSound (SingleNodeKafka.handler {V = V})
      × IsSound (MultiNodeKafka.handler {V = V})
      × IsSound (Tarct.handler {V = V})
      × IsSound (Tarut.handler {V = V})
handlers-IsSound V shuffle xxh3_64 clock = (
  Echo.handler-IsSound,
  Ids.handler-IsSound V xxh3_64 clock,
  Counter.handler-IsSound V,
  Tat.handler-IsSound V,
  Broadcast.handler-IsSound V,
  Gossip.handler-IsSound V shuffle,
  Kafka.handler-IsSound V,
  Replicated.handler-IsSound V,
  Committed.handler-IsSound V,
  Uncommitted.handler-IsSound V,
)
