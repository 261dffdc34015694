-- ===== src/MultiNodeBroadcast/Cluster/Reads.antt =====
-- What the nodes of a reachable cluster read.
use glome_rs.Base.{List, String, nat_eq, pair_eq, refl, string_eq}
use glome_rs.Collections.HashMap
use glome_rs.Collections.HashMap.{get_or, get-insert}
use glome_rs.Collections.HashSet.{IsHashSet}
use glome_rs.Maelstrom.Node.{handle_init, init_ok, next_msg_id}
use glome_rs.MultiNodeBroadcast.{handle_read, handle_body, handle}
use glome_rs.MultiNodeBroadcast.Cluster.{Cluster, start, Reach}
use glome_rs.MultiNodeBroadcast.Cluster.Invariant.{IsIn, IsConsistent}
use glome_rs.MultiNodeBroadcast.Cluster.Steps.{Step-IsConsistent}

module _ {V : Type 0} (shuffle : List String → List String) where
  start-IsConsistent : (ids : List String) → IsConsistent {V = V} (start shuffle ids)
  unfolding handle handle_body handle_init init_ok next_msg_id
  start-IsConsistent ids = record {
    names = λ i. refl;
    genuine = λ i m h. h;
    distinct = λ i. tt;
    beliefs = λ i peer m h. unfold get_or HashMap.get in h;
    traffic = tt;
  }

  pub Reach-IsConsistent :
      {ids : List String} {c : Cluster V} → Reach shuffle ids c → IsConsistent c
  Reach-IsConsistent {ids} Reach.here = start-IsConsistent ids
  Reach-IsConsistent (Reach.next r st) = (Step-IsConsistent _ (Reach-IsConsistent r) shuffle st).0

  -- In every reachable cluster, where clients send neither an `init` nor a gossip, a read at any
  -- node shows only values that clients broadcast, and each once.
  pub read_genuine :
      {ids : List String} {c : Cluster V} (i : String)
      → Reach shuffle ids c
      → IsIn (handle_read (c.net.state i)) c.asked × IsHashSet (handle_read (c.net.state i))
  unfolding handle_read
  read_genuine i r = ((Reach-IsConsistent r).genuine i, (Reach-IsConsistent r).distinct i)
