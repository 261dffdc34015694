-- ===== src/MultiNodeKafka/Cluster/Tests.antt =====
-- A cluster of two nodes: a client sends to the leader, and the other node gets the message.
use glome_rs.Base.{
  List, Stands, String, [], arith, length, nat_eq, pair_eq, refl, some, string_eq, true, ℕ, ◌+◌,
  ◌<◌, ◌∷◌, ◌≡◌,
}
use glome_rs.Collections.BTreeMap
use glome_rs.Collections.HashMap
use glome_rs.Collections.HashMap.{get, get_or}
use glome_rs.Maelstrom.Message.{Message, MessageBody}
use glome_rs.Maelstrom.Node
use glome_rs.Maelstrom.Node.{Node, next_msg_id, init_ok, reply}
use glome_rs.Maelstrom.Log
use glome_rs.Maelstrom.Log.{get_or_create}
use glome_rs.Maelstrom.Log.Replication.{entry_at}
use glome_rs.MultiNodeKafka.Leader.{sort}
use glome_rs.MultiNodeKafka
use glome_rs.MultiNodeKafka.Cluster.{Cluster, Step, Reach, start, receive}
use glome_rs.MultiNodeKafka.Cluster.Agreement.{replicas_agree, entries_stay}
use glome_rs.MultiNodeKafka.Cluster.Answered.{asked, answered_is_held}
use glome_rs.Collections.HashSet.{HashSet, contains, IsHashSet}
use glome_rs.Collections.HashSet

abbrev ids : List String
ids = "n1" ∷ "n2" ∷ []

abbrev payload : ℕ
payload = 42

abbrev send_request : Message Unit
send_request = record { src = "c1"; dest = "n1"; body = MessageBody.send 5 "k1" payload }

abbrev sent_to : Cluster Unit
sent_to = receive (start ids) send_request

abbrev write : Message Unit
write = record { src = "n1"; dest = "n2"; body = MessageBody.replicate 2 "k1" payload 0 }

abbrev replicated : Cluster Unit
replicated = receive sent_to write

sent_to-Reach : Reach "n1" ids sent_to
unfolding MultiNodeKafka.handle MultiNodeKafka.first MultiNodeKafka.handle_send
    MultiNodeKafka.lead_send MultiNodeKafka.replicate_to MultiNodeKafka.quorum sort Log.append_local
    Log.insert_at get_or_create entry_at HashMap.insert HashMap.remove get get_or BTreeMap.insert
    BTreeMap.get Node.handle_init
sent_to-Reach = Reach.next Reach.here (Step.request send_request tt (λ key. omega arith))

replicate_step : Step "n1" sent_to replicated
unfolding MultiNodeKafka.handle MultiNodeKafka.first MultiNodeKafka.handle_send
    MultiNodeKafka.lead_send MultiNodeKafka.replicate_to MultiNodeKafka.quorum sort Log.append_local
    Log.insert_at get_or_create entry_at HashMap.insert HashMap.remove get get_or BTreeMap.insert
    BTreeMap.get Node.handle_init
replicate_step = Step.deliver 0 write refl (λ key. ground arith)

replicas_agree_example : payload ≡ payload
unfolding MultiNodeKafka.handle MultiNodeKafka.first MultiNodeKafka.handle_send
    MultiNodeKafka.lead_send MultiNodeKafka.replicate_to MultiNodeKafka.quorum sort Log.append_local
    Log.insert_at get_or_create entry_at HashMap.insert HashMap.remove get get_or BTreeMap.insert
    BTreeMap.get Node.handle_init
replicas_agree_example =
    replicas_agree "n1" "n2" "k1" 0 payload payload refl (Reach.next sent_to-Reach replicate_step)
      refl refl

entries_stay_example : entry_at (replicated.state "n1").logs "k1" 0 ≡ some payload
unfolding MultiNodeKafka.handle MultiNodeKafka.first MultiNodeKafka.handle_send
    MultiNodeKafka.lead_send MultiNodeKafka.replicate_to MultiNodeKafka.quorum sort Log.append_local
    Log.insert_at get_or_create entry_at HashMap.insert HashMap.remove get get_or BTreeMap.insert
    BTreeMap.get Node.handle_init
entries_stay_example = entries_stay "n1" "k1" 0 payload refl sent_to-Reach replicate_step refl

abbrev stored : Message Unit
stored = record { src = "n2"; dest = "n1"; body = MessageBody.replicate_ok 2 2 0 }

abbrev answered : Cluster Unit
answered = receive replicated stored

answered-Reach : Reach "n1" ids answered
unfolding MultiNodeKafka.handle MultiNodeKafka.first MultiNodeKafka.handle_send
    MultiNodeKafka.lead_send MultiNodeKafka.replicate_to MultiNodeKafka.quorum sort Log.append_local
    Log.insert_at get_or_create entry_at HashMap.insert HashMap.remove get get_or BTreeMap.insert
    BTreeMap.get Node.handle_init MultiNodeKafka.handle_replicate_ok HashSet.insert contains
    HashSet.is_new
answered-Reach =
    Reach.next (Reach.next sent_to-Reach replicate_step)
      (Step.deliver 0 stored refl (λ key. ground arith))

answered_is_held_example :
    (msg : ℕ) × (names : List String) × Stands (asked answered-Reach) ("c1", 5, msg)
    × IsHashSet names
    × (length ids < length names + length names)
    × ((i : String)
        → contains i names ≡ true
        → (contains i ids ≡ true) × (entry_at (answered.state i).logs "k1" 0 ≡ some msg))
unfolding MultiNodeKafka.handle MultiNodeKafka.first MultiNodeKafka.handle_send
    MultiNodeKafka.lead_send MultiNodeKafka.replicate_to MultiNodeKafka.quorum sort Log.append_local
    Log.insert_at get_or_create entry_at HashMap.insert HashMap.remove get get_or BTreeMap.insert
    BTreeMap.get Node.handle_init MultiNodeKafka.handle_replicate_ok HashSet.insert contains
    sent_to-Reach replicate_step answered-Reach HashSet.is_new
answered_is_held_example =
    answered_is_held "k1" ids (refl, (refl, tt)) refl 0 3 5 0 "n1" "c1" answered-Reach (refl, tt)
      refl
