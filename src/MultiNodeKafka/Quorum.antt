-- ===== src/MultiNodeKafka/Quorum.antt =====
-- The size of a quorum.
use glome_rs.Base.{arith, length, ◌+◌, ◌-◌, ◌<◌, ◌≤◌}
use glome_rs.Maelstrom.Node.{Node}
use glome_rs.MultiNodeKafka.{quorum}

-- Two quorums are together more than the cluster, which is the peers and the node; two sets of one
-- node fewer are not; and a quorum is no more than the cluster.
pub quorum_majority :
    (node : Node)
    → let cluster = length node.peers + 1 in
      (cluster < quorum node + quorum node)
      × ((quorum node - 1) + (quorum node - 1) ≤ cluster)
      × (quorum node ≤ cluster)
unfolding quorum
quorum_majority node = omega arith
