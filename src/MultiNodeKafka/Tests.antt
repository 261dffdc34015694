-- ===== src/MultiNodeKafka/Tests.antt =====
-- The replicated logs on concrete inputs.
use glome_rs.Base.{
  List, String, [], ap, arith, false, length, nat_eq, pair_eq, refl, some, string_eq, subst, suc,
  true, u64_mod, zero, ℕ, ◌+◌, ◌-◌, ◌<◌, ◌∷◌, ◌≡◌, ◌≢◌, ◌≤◌,
}
use glome_rs.Collections.HashMap
use glome_rs.Collections.HashMap.{get}
use glome_rs.Collections.HashSet
use glome_rs.Collections.HashSet.{is_new, contains, IsHashSet}
use glome_rs.Maelstrom.Message.{MessageBody}
use glome_rs.Maelstrom.Log
use glome_rs.Maelstrom.Node.{Node, next_msg_id, reply}
use glome_rs.MultiNodeKafka.{Pending, KafkaNode, quorum, acknowledge, handle_replicate_ok}
use glome_rs.MultiNodeKafka.Acks.{
  IsCounted, IsValid, handle_replicate_ok-IsValid, send_ok_needs_quorum,
}
use glome_rs.Maelstrom.Log.{append_local, get_or_create}
use glome_rs.Collections.HashMap.{get_or}
use glome_rs.MultiNodeKafka
use glome_rs.MultiNodeKafka.{lead_send, handle_init, first}
use glome_rs.MultiNodeKafka.Leader.{str_leb, sort}
use glome_rs.MultiNodeKafka.Leader.Least.{handle_init_leader}
use glome_rs.Maelstrom.Node
use glome_rs.MultiNodeKafka.Pendings.{second_send_replaces}
use glome_rs.MultiNodeKafka.Quorum.{quorum_majority}

abbrev leader : Node
leader = record { id = "n1"; peers = "n2" ∷ "n3" ∷ []; msg_id = 4 }

abbrev waiting : Pending
waiting = record { client = "c1"; client_msg_id = 9; acks = 1; from = "n1" ∷ [] }

abbrev one_send : KafkaNode
one_send = record { leader = "n1"; next_offset = 1; logs = Log.new; pendings = (0, waiting) ∷ [] }

waiting-IsCounted : IsCounted waiting
unfolding contains
waiting-IsCounted = record { counted = refl; distinct = (refl, tt) }

found : (p : Pending) → get 0 one_send.pendings ≡ some p → waiting ≡ p
unfolding get
found p e = ground arith

one_send-IsValid : IsValid one_send
unfolding get
one_send-IsValid = record { pending = pending }
  where
    pending : (o : ℕ) (p : Pending) → get o one_send.pendings ≡ some p → IsCounted p
    pending zero p e = subst IsCounted (ground arith) waiting-IsCounted
    pending (suc o) p e = absurd (ground arith)

has_room : (p : Pending) → get 0 one_send.pendings ≡ some p → length p.from + 1 < u64_mod
has_room p e = subst (λ q. length q.from + 1 < u64_mod) (found p e) (omega arith)

answers_client : (handle_replicate_ok {V = Unit} one_send leader "n2" 0).0 ≢ []
unfolding handle_replicate_ok acknowledge get contains is_new quorum next_msg_id reply
answers_client e = let none_sent : 1 ≡ 0 = ap length e in absurd (omega (arith, none_sent))

quorum_majority_example :
    (3 < quorum leader + quorum leader)
    × ((quorum leader - 1) + (quorum leader - 1) ≤ 3)
    × (quorum leader ≤ 3)
quorum_majority_example = quorum_majority leader

handle_replicate_ok-IsValid_example :
    IsValid (handle_replicate_ok {V = Unit} one_send leader "n2" 0).1
handle_replicate_ok-IsValid_example =
    handle_replicate_ok-IsValid Unit one_send leader "n2" 0 one_send-IsValid has_room

send_ok_needs_quorum_example :
    (p : Pending) × (get 0 one_send.pendings ≡ some p)
    × (contains "n2" p.from ≡ false)
    × (quorum leader ≤ length (HashSet.insert "n2" p.from))
    × IsHashSet (HashSet.insert "n2" p.from)
    × (handle_replicate_ok {V = Unit} one_send leader "n2" 0 ≡ (
      record { src = "n1"; dest = p.client; body = MessageBody.send_ok 5 p.client_msg_id 0 } ∷ [],
      record one_send { pendings = [] },
      (next_msg_id leader).1,
    ))
unfolding HashMap.remove
send_ok_needs_quorum_example =
    send_ok_needs_quorum Unit one_send leader "n2" 0 one_send-IsValid has_room answers_client

second_send_replaces_example :
    let (_, s', node') = lead_send {V = Unit} MultiNodeKafka.new leader "c1" 5 "k1" 10 in
    let s'' = (lead_send {V = Unit} s' node' "c2" 8 "k2" 20).1 in
    get (append_local Log.new "k1" 10).0 s''.pendings
    ≡ some (record { client = "c2"; client_msg_id = 8; acks = 1; from = node'.id ∷ [] })
second_send_replaces_example =
    second_send_replaces Unit MultiNodeKafka.new leader "c1" "c2" 5 8 "k1" "k2" 10 20
      (unfold quorum in refl) refl (unfold get_or_create get_or get in refl)

abbrev some_order : List String
some_order = "n2" ∷ "n1" ∷ []

abbrev other_order : List String
other_order = "n1" ∷ "n2" ∷ "n1" ∷ []

abbrev chosen : String
chosen = "n1"

same_ids : (a : String) → contains a some_order ≡ contains a other_order
unfolding contains
same_ids a = ground arith

handle_init_leader_example :
    (chosen ≡ chosen)
    × (contains chosen some_order ≡ true)
    × ((a : String) → contains a some_order ≡ true → str_leb chosen a ≡ true)
unfolding handle_init first sort
handle_init_leader_example =
    handle_init_leader MultiNodeKafka.new MultiNodeKafka.new Node.new Node.new "n1" "n2" some_order
      other_order
      (record MultiNodeKafka.new { leader = "n1" }, Node.handle_init Node.new "n1" some_order)
      (record MultiNodeKafka.new { leader = "n1" }, Node.handle_init Node.new "n2" other_order)
      same_ids refl refl
