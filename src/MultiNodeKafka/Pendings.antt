-- ===== src/MultiNodeKafka/Pendings.antt =====
-- The pending sends of the leader, which are found by their offset alone.
use glome_rs.Base.{
  List, String, [], add64, arith, false, leb, nat_eq, pair_eq, refl, some, string_eq, subst, sym, ℕ,
  ◌==◌, ◌∙◌, ◌∷◌, ◌≡◌,
}
use glome_rs.Collections.HashMap.{get, insert, get_or, get-insert, get-insert_self}
use glome_rs.Maelstrom.Log
use glome_rs.Maelstrom.Log.{Logs, append_local, get_or_create}
use glome_rs.Maelstrom.Node.{Node, next_msg_id}
use glome_rs.MultiNodeKafka.{KafkaNode, quorum, replicate_to, lead_send}

other_offset :
    (logs : Logs) (key key' : String) (msg : ℕ)
    → (key == key') ≡ false
    → (get_or_create (append_local logs key msg).1 key').next_offset
      ≡ (get_or_create logs key').next_offset
unfolding append_local get_or_create get_or
other_offset logs key key' msg h =
    ground (arith, get-insert key key' (Log.extend (get_or_create logs key) msg) logs.inner)

next_offset_of :
    (logs : Logs) (key : String) (msg : ℕ)
    → (append_local logs key msg).0 ≡ (get_or_create logs key).next_offset
unfolding append_local
next_offset_of logs key msg = refl

module _ (V : Type 0) where
  pub replicate_to-peers :
      (node : Node) (key : String) (msg offset : ℕ) (peers : List String)
      → (replicate_to {V = V} node key msg offset peers).1.peers ≡ node.peers
  unfolding replicate_to next_msg_id
  replicate_to-peers node key msg offset [] = refl
  replicate_to-peers node key msg offset (peer ∷ peers) =
      replicate_to-peers (next_msg_id node).1 key msg offset peers

  module _ (s : KafkaNode) (node : Node) (client : String) (n : ℕ) (key : String) (msg : ℕ)
      (waits : leb (quorum node) 1 ≡ false) where
    still_waits :
        (offset : ℕ)
        → leb (quorum (replicate_to {V = V} node key msg offset node.peers).1) 1 ≡ false
    unfolding quorum
    still_waits offset = rw (replicate_to-peers node key msg offset node.peers) waits

    lead_send_waits :
        let offset = (append_local s.logs key msg).0 in
        lead_send {V = V} s node client n key msg ≡ (
          (replicate_to node key msg offset node.peers).0,
          record {
            leader = s.leader;
            next_offset = add64 offset 1;
            logs = (append_local s.logs key msg).1;
            pendings =
                insert offset
                  (record { client = client; client_msg_id = n; acks = 1; from = node.id ∷ [] })
                  s.pendings;
          },
          (replicate_to {V = V} node key msg offset node.peers).1,
        )
    unfolding lead_send
    lead_send_waits = rw (still_waits (append_local s.logs key msg).0) refl

    now_pending :
        get (append_local s.logs key msg).0 (lead_send {V = V} s node client n key msg).1.pendings
        ≡ some (record { client = client; client_msg_id = n; acks = 1; from = node.id ∷ [] })
    now_pending = rw (lead_send_waits, get-insert_self) refl

  -- Where a quorum is more than one node, and the logs of two keys are equally long, a send to the
  -- second that comes while one to the first is pending takes its place: the leader then has the
  -- second client alone for that offset.
  pub second_send_replaces :
      (s : KafkaNode) (node : Node) (client client' : String) (n n' : ℕ) (key key' : String)
      (msg msg' : ℕ)
      → leb (quorum node) 1 ≡ false
      → (key == key') ≡ false
      → (get_or_create s.logs key').next_offset ≡ (get_or_create s.logs key).next_offset
      → let (_, s', node') = lead_send {V = V} s node client n key msg in
        let s'' = (lead_send {V = V} s' node' client' n' key' msg').1 in
        get (append_local s.logs key msg).0 s''.pendings
        ≡ some (record { client = client'; client_msg_id = n'; acks = 1; from = node'.id ∷ [] })
  second_send_replaces s node client client' n n' key key' msg msg' waits apart level =
      let (_, s', node') = lead_send {V = V} s node client n key msg in
      let waits' : leb (quorum node') 1 ≡ false =
        rw (lead_send_waits s node client n key msg waits)
          (still_waits s node client n key msg waits (append_local s.logs key msg).0) in
      let same : (append_local s'.logs key' msg').0 ≡ (append_local s.logs key msg).0 =
        rw (lead_send_waits s node client n key msg waits) (
          next_offset_of (append_local s.logs key msg).1 key' msg'
          ∙ other_offset s.logs key key' msg apart
          ∙ level
          ∙ sym (next_offset_of s.logs key msg)) in
      subst
        (λ o.
          get o (lead_send {V = V} s' node' client' n' key' msg').1.pendings
          ≡ some (record { client = client'; client_msg_id = n'; acks = 1; from = node'.id ∷ [] }))
        same (now_pending s' node' client' n' key' msg' waits')
