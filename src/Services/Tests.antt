-- ===== src/Services/Tests.antt =====
-- The common law at concrete parameters.
use glome_rs.Base.{List, String, ℕ, some}
use glome_rs.Maelstrom.Handler.Numbering.{IsSound}
use glome_rs.Echo
use glome_rs.UniqueIds
use glome_rs.GrowOnlyCounter
use glome_rs.SingleNodeTat
use glome_rs.SingleNodeBroadcast
use glome_rs.MultiNodeBroadcast
use glome_rs.SingleNodeKafka
use glome_rs.MultiNodeKafka
use glome_rs.Tarct
use glome_rs.Tarut
use glome_rs.Services.{handlers-IsSound}

-- A shuffle that leaves the order as it is.
abbrev keep : List String → List String
keep ids = ids

-- A hash that is 5 for every name.
abbrev five : String → ℕ
five name = 5

handlers-IsSound_example :
    IsSound (Echo.handler {V = Unit})
    × IsSound (UniqueIds.handler {V = Unit} five (some 1000))
    × IsSound (GrowOnlyCounter.handler {V = Unit})
    × IsSound (SingleNodeTat.handler {V = Unit})
    × IsSound (SingleNodeBroadcast.handler {V = Unit})
    × IsSound (MultiNodeBroadcast.handler {V = Unit} keep)
    × IsSound (SingleNodeKafka.handler {V = Unit})
    × IsSound (MultiNodeKafka.handler {V = Unit})
    × IsSound (Tarct.handler {V = Unit})
    × IsSound (Tarut.handler {V = Unit})
handlers-IsSound_example = handlers-IsSound Unit keep five (some 1000)
