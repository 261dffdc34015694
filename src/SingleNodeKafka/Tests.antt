-- ===== src/SingleNodeKafka/Tests.antt =====
-- The logs of a single node on concrete inputs.
use glome_rs.Base.{List, [], arith, nat_eq, pair_eq, refl, some, string_eq, ℕ, ◌∷◌, ◌≡◌}
use glome_rs.Collections.HashMap.{get, get_or}
use glome_rs.Maelstrom.SimpleLog
use glome_rs.Maelstrom.SimpleLog.Log
use glome_rs.Maelstrom.SimpleLog.Log.{Log}
use glome_rs.Maelstrom.SimpleLog.Refinement.{Represents}
use glome_rs.SingleNodeKafka.{KafkaNode, dedupe_append, handle, handler}
use glome_rs.SingleNodeKafka.Sends.{send_then_poll}
use glome_rs.SingleNodeKafka.Retries.{retry_gets_same_offset, send_request, send_answer}
use glome_rs.Maelstrom.Message.{Message, MessageBody}
use glome_rs.Maelstrom.Node.{Node, next_msg_id}
use glome_rs.Maelstrom.Handler.{Ending, process}

abbrev one_entry : Log
one_entry = record { entries = (0, 11) ∷ []; next_offset = 1; committed = 0 }

abbrev one_log : KafkaNode
one_log = record { logs = record { inner = ("k1", one_entry) ∷ [] }; send_dedupe = [] }

stored-Represents : Represents (get_or Log.new "k1" one_log.logs.inner) (11 ∷ [])
unfolding get_or get
stored-Represents = record { entries = refl; next_offset = refl }

send_then_poll_example :
    let (offset, s') = dedupe_append one_log "c1" 4 "k1" 12 in
    (offset ≡ 1)
    × (get "k1" (SimpleLog.poll s'.logs (("k1", offset) ∷ [])) ≡ some ((offset, 12) ∷ []))
send_then_poll_example =
    send_then_poll one_log "c1" "k1" 4 12 (11 ∷ []) (unfold get in refl) stored-Represents
      (omega arith)

abbrev n1 : Node
n1 = record { id = "n1"; peers = []; msg_id = 0 }

abbrev between : List (Message Unit)
between =
    send_request "c1" "n1" 5 "k1" 13
    ∷ send_request "c2" "n1" 4 "k1" 14
    ∷ record { src = "c1"; dest = "n1"; body = MessageBody.commit_offsets 6 (("k1", 2) ∷ []) }
    ∷ []

retry_gets_same_offset_example :
    (offset : ℕ) × (outs : List (Message Unit)) × (s' : KafkaNode) × (node' : Node) × (process
        handler one_log n1
        (send_request "c1" "n1" 4 "k1" 12 ∷ between)
      ≡ (send_answer n1 "c1" 4 offset ∷ outs, Ending.waiting s' node'))
    × (handle {V = Unit} s' node' (send_request "c1" "n1" 4 "k2" 13)
        ≡ some (send_answer node' "c1" 4 offset ∷ [], s', (next_msg_id node').1))
retry_gets_same_offset_example =
    retry_gets_same_offset one_log n1 "c1" "n1" "k1" "k2" 4 12 13 between
