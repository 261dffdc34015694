-- ===== src/MultiNodeKafka/Handle.antt =====
-- The handler of the replicated logs.
use glome_rs.Base.{
  All, All-append, All-imp, Bool-cases, List, Option, String, [], arith, inl, inr, leb, nat_eq,
  none, pair_eq, refl, some, string_eq, sym, ℕ, ◌>>=◌, ◌∙◌, ◌∷◌, ◌≡◌,
}
use glome_rs.Collections.HashMap.{get}
use glome_rs.Maelstrom.Log.{append_local}
use glome_rs.Maelstrom.Message.{Message, MessageBody}
use glome_rs.Maelstrom.Node
use glome_rs.Maelstrom.Node.{Node, init_ok, next_msg_id, reply}
use glome_rs.Maelstrom.Handler.Numbering.{Numbered, Numbered-append, Sound, IsSound}
use glome_rs.MultiNodeKafka.Leader.{sort}
use glome_rs.MultiNodeKafka.{
  Pending, KafkaNode, quorum, first, handle_init, replicate_to, lead_send, handle_send, acknowledge,
  handle_body, handle, handler,
}

module _ (V : Type 0) where
  replicate_to_lem :
      (node : Node) (key : String) (msg offset : ℕ) (peers : List String)
      → Numbered {V = V} node.msg_id
          (replicate_to node key msg offset peers).0
          (replicate_to {V = V} node key msg offset peers).1.msg_id
        × All {A = Message V} (λ o. o.src ≡ node.id) (replicate_to node key msg offset peers).0
        × ((replicate_to {V = V} node key msg offset peers).1.id ≡ node.id)
  unfolding replicate_to next_msg_id
  replicate_to_lem node key msg offset [] = (refl, tt, refl)
  replicate_to_lem node key msg offset (peer ∷ peers) =
      ground (arith, replicate_to_lem (next_msg_id node).1 key msg offset peers)

  lead_send-Sound :
      (s : KafkaNode) (node : Node) (client : String) (n : ℕ) (key : String) (msg : ℕ)
      → Sound {V = V} node (some (lead_send s node client n key msg))
  unfolding lead_send next_msg_id
  lead_send-Sound s node client n key msg =
      let offset = (append_local s.logs key msg).0 in
      let (out, node') = replicate_to {V = V} node key msg offset node.peers in
      let (numbered, signed, same_id) = replicate_to_lem node key msg offset node.peers in
      let named = All-imp {A = Message V} (λ o e. e ∙ sym same_id) out signed in
      elim (Bool-cases (leb (quorum node') 1)) [
        | inl alone ↦ rw alone (
          Numbered-append node.msg_id node'.msg_id _ out _ numbered (refl, refl),
          All-append _ out _ named (refl, tt),
        )
        | inr waits ↦ rw waits (numbered, named)
      ]

  handle_send-Sound :
      (s : KafkaNode) (node : Node) (message : Message V) (n : ℕ) (key : String) (msg : ℕ)
      → Sound {V = V} node (some (handle_send s node message n key msg))
  unfolding handle_send next_msg_id
  handle_send-Sound s node message n key msg =
      ground (arith, lead_send-Sound s node message.src n key msg)

  acknowledge-Sound :
      (s : KafkaNode) (node : Node) (src : String) (offset : ℕ) (p : Pending)
      → Sound {V = V} node (some (acknowledge s node src offset p))
  unfolding acknowledge next_msg_id reply
  acknowledge-Sound s node src offset p = ground arith

  body_Sound :
      (s : KafkaNode) (node : Node) (message : Message V) (body : MessageBody V)
      → Sound node (handle_body s node message body)
  unfolding handle_body
  body_Sound s node message (MessageBody.init n i is) =
      unfold handle_init in elected (first (sort is))
    where
      elected :
          (r : Option String)
          → Sound {V = V} {S = KafkaNode} node (do
            (s', node') ←
                r >>= λ leader. some (record s { leader = leader }, Node.handle_init node i is)
            let (response, node'') = init_ok node' message.src n
            some (response ∷ [], s', node''))
      elected none = tt
      elected (some leader) =
          unfold Node.handle_init init_ok next_msg_id in ((refl, refl), (refl, tt))
  body_Sound s node message (MessageBody.send n key msg) =
      handle_send-Sound s node message n key msg
  body_Sound s node message (MessageBody.forward_send _ orig_src n key msg) =
      handle_send-Sound s node
        (record { src = orig_src; dest = node.id; body = MessageBody.send n key msg }) n key msg
  body_Sound s node message (MessageBody.replicate n key msg offset) = ground arith
  body_Sound s node message (MessageBody.replicate_ok _ _ offset) = acked (get offset s.pendings)
    where
      acked :
          (r : Option Pending)
          → Sound {V = V} {S = KafkaNode} node (
              some (elim r [
                | none ↦ ([], s, node)
                | some p ↦ acknowledge s node message.src offset p
              ]))
      acked none = (refl, tt)
      acked (some p) = acknowledge-Sound s node message.src offset p
  body_Sound s node message (MessageBody.poll n offsets) = ground arith
  body_Sound s node message (MessageBody.commit_offsets n offsets) = ground arith
  body_Sound s node message (MessageBody.list_committed_offsets n keys) = ground arith
  body_Sound s node message _ = ground arith

  pub handler-IsSound : IsSound (handler {V = V})
  unfolding handle
  handler-IsSound = record { sound = λ s node message. body_Sound s node message message.body }
