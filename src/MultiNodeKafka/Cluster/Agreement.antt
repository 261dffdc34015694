-- ===== src/MultiNodeKafka/Cluster/Agreement.antt =====
-- The nodes of a reachable cluster agree, and keep what they hold.
use glome_rs.Base.{All-get_elem?, List, String, refl, some, ℕ, ◌≡◌}
use glome_rs.Maelstrom.Message.{MessageBody}
use glome_rs.Maelstrom.Node
use glome_rs.Maelstrom.Node.{Node, init_ok, next_msg_id, reply}
use glome_rs.Maelstrom.Log.{Logs}
use glome_rs.Maelstrom.Log.Replication.{entry_at, bounded_new}
use glome_rs.MultiNodeKafka.Leader.{sort}
use glome_rs.MultiNodeKafka
use glome_rs.MultiNodeKafka.{
  KafkaNode, first, handle_init, lead_send, handle_send, handle_replicate_ok, handle_body, handle,
}
use glome_rs.MultiNodeKafka.Cluster.{Cluster, IsRequest, Step, started, start, Reach}
use glome_rs.MultiNodeKafka.Cluster.Replicas.{Carries, IsConsistent, IsKept}
use glome_rs.MultiNodeKafka.Cluster.Steps.{handle-IsConsistent}

Carries-request :
    {V : Type 0} (leads : Logs) (body : MessageBody V) → IsRequest body → Carries leads body
Carries-request leads (MessageBody.init _ _ _) h = h
Carries-request leads (MessageBody.replicate _ _ _ _) h = absurd h
Carries-request leads _ h = tt

pub started_lem :
    (V : Type 0) (leader : String) (ids : List String) (i : String)
    → first (sort ids) ≡ some leader
    → ((started {V = V} ids i).1 ≡ record MultiNodeKafka.new { leader = leader })
      × ((started {V = V} ids i).2.id ≡ i)
unfolding handle handle_body MultiNodeKafka.handle_init init_ok next_msg_id Node.handle_init
started_lem V leader ids i e = rw (started, e) (refl, refl)

module _ {V : Type 0} {leader : String} where
  pub Step-IsConsistent :
      {c d : Cluster V}
      → Step leader c d
      → IsConsistent leader c
      → IsConsistent leader d × IsKept c d
  Step-IsConsistent {c} (Step.request m h room) ok =
      handle-IsConsistent leader c ok room m.dest m (Carries-request (c.state leader).logs m.body h)
  Step-IsConsistent {c} (Step.deliver k m e room) ok =
      handle-IsConsistent leader c ok room m.dest m
        (All-get_elem? (λ o. Carries (c.state leader).logs o.body) c.sent k m ok.traffic e)

  start-IsConsistent :
      (ids : List String) → first (sort ids) ≡ some leader → IsConsistent {V = V} leader (start ids)
  start-IsConsistent ids e = record {
    names = λ i. (started_lem V leader ids i e).1;
    leaders = λ i. rw (started_lem V leader ids i e).0 refl;
    replicas = λ i.
        rw ((started_lem V leader ids i e).0, (started_lem V leader ids leader e).0) (λ k o m h. h);
    bounded = λ k. rw (started_lem V leader ids leader e).0 (bounded_new k);
    traffic = tt;
  }

  pub Reach-IsConsistent :
      {ids : List String} {c : Cluster V}
      → first (sort ids) ≡ some leader
      → Reach leader ids c
      → IsConsistent leader c
  Reach-IsConsistent {ids} e Reach.here = start-IsConsistent ids e
  Reach-IsConsistent e (Reach.next r st) = (Step-IsConsistent st (Reach-IsConsistent e r)).0

  -- In a reachable cluster, where the leader is the least node id, clients send neither an `init`
  -- nor a replicated write and no log of the leader is full, two nodes that hold a message at the
  -- same offset of the same key hold the same message.
  pub replicas_agree :
      {ids : List String} {c : Cluster V} (i j key : String) (offset m m' : ℕ)
      → first (sort ids) ≡ some leader
      → Reach leader ids c
      → entry_at (c.state i).logs key offset ≡ some m
      → entry_at (c.state j).logs key offset ≡ some m'
      → m ≡ m'
  replicas_agree i j key offset m m' e r h h' =
      let ok = Reach-IsConsistent e r in
      cc (ok.replicas i key offset m h, ok.replicas j key offset m' h')

  -- In a reachable cluster, where the leader is the least node id, clients send neither an `init`
  -- nor a replicated write and no log of the leader is full, every step keeps each message that a
  -- node holds, at its offset of its key.
  pub entries_stay :
      {ids : List String} {c d : Cluster V} (i key : String) (offset m : ℕ)
      → first (sort ids) ≡ some leader
      → Reach leader ids c
      → Step leader c d
      → entry_at (c.state i).logs key offset ≡ some m
      → entry_at (d.state i).logs key offset ≡ some m
  entries_stay i key offset m e r st h =
      (Step-IsConsistent st (Reach-IsConsistent e r)).1 i key offset m h
