-- ===== src/GrowOnlyCounter/Handle.antt =====
-- What the handler of the grow-only counter answers, and how its messages are numbered.
use glome_rs.Base.{List, String, [], add64, arith, none, refl, some, ℕ, ◌∷◌, ◌≡◌}
use glome_rs.Maelstrom.Message.{Message, MessageBody}
use glome_rs.Maelstrom.Node.{Node, next_msg_id, reply}
use glome_rs.Maelstrom.Handler.Numbering.{Sends, Sends-append, Sends-Sound, Sound, IsSound}
use glome_rs.Maelstrom.Kv.Total.{read-add}
use glome_rs.GrowOnlyCounter.{
  GrowOnlyCounterNode, gossip_peer, gossip_peers, gossip, handle_add, handle_read, handle_body,
  handle, handler,
}

module _ (V : Type 0) where
  body_Sound :
      (s : GrowOnlyCounterNode) (node : Node) (msg : Message V) (body : MessageBody V)
      → Sound node (handle_body s node msg body)
  unfolding handle_body
  body_Sound s node msg (MessageBody.init n i is) = ground arith
  body_Sound s node msg (MessageBody.add n d) = ground arith
  body_Sound s node msg (MessageBody.read n) = ground arith
  body_Sound s node msg (MessageBody.counter_gossip n c) = ground arith
  body_Sound s node msg _ = ground arith

  pub handler-IsSound : IsSound (handler {V = V})
  unfolding handle
  handler-IsSound = record { sound = λ s node msg. body_Sound s node msg msg.body }

  gossip_peer-Sends :
      (s : GrowOnlyCounterNode) (node : Node) (peer : String)
      → Sends node (gossip_peer {V = V} s node peer)
  unfolding gossip_peer next_msg_id
  gossip_peer-Sends s node peer = ground arith

  gossip_peers-Sends :
      (s : GrowOnlyCounterNode) (node : Node) (peers : List String)
      → Sends node (gossip_peers {V = V} s node peers)
  unfolding gossip_peers
  gossip_peers-Sends s node [] = (refl, tt, refl)
  gossip_peers-Sends s node (peer ∷ peers) =
      let (msgs, s', node') = gossip_peer {V = V} s node peer in
      Sends-append node (msgs, s', node') (gossip_peers s' node' peers)
        (gossip_peer-Sends s node peer) (gossip_peers-Sends s' node' peers)

  -- A round of gossip numbers its messages on from the node's counter, as the handler does, and
  -- sends them in the node's name.
  pub gossip-Sound :
      (s : GrowOnlyCounterNode) (node : Node) → Sound node (some (gossip {V = V} s node))
  unfolding gossip
  gossip-Sound s node = ground (
    arith,
    Sends-Sound node (gossip_peers {V = V} s node node.peers)
        (gossip_peers-Sends s node node.peers),
  )

  pub id-gossip : (s : GrowOnlyCounterNode) (node : Node) → (gossip {V = V} s node).2.id ≡ node.id
  unfolding gossip
  id-gossip s node = ground (arith, (gossip_peers-Sends s node node.peers).2)

  -- An `add` is acknowledged to its sender, and a `read` that follows is answered by the sum that
  -- stood before, raised by the delta modulo 2^64; both replies cite the request.
  pub read_after_add :
      (s : GrowOnlyCounterNode) (node : Node) (client reader : String) (n m delta : ℕ)
      → let add_request : Message V = record {
        src = client;
        dest = node.id;
        body = MessageBody.add n delta;
      } in
        let read_request : Message V = record {
          src = reader;
          dest = node.id;
          body = MessageBody.read m;
        } in
        (s' : GrowOnlyCounterNode) × (node' : Node) × (node'' : Node) × (handle s node add_request
          ≡ some (
            record {
              src = node.id;
              dest = client;
              body = MessageBody.add_ok (add64 node.msg_id 1) n;
            }
                ∷ [],
            s',
            node',
          ))
        × (handle s' node' read_request
            ≡ some (
              record {
                src = node.id;
                dest = reader;
                body =
                    MessageBody.read_ok
                      (add64 node'.msg_id 1)
                      m
                      none
                      (some (add64 (handle_read s) delta));
              }
                  ∷ [],
              s',
              node'',
            ))
  unfolding handle next_msg_id reply handle_read handle_add
  read_after_add s node client reader n m delta = (
    handle_add s node delta,
    (next_msg_id node).1,
    (next_msg_id (next_msg_id node).1).1,
    refl,
    ground (arith, read-add s.kv node.id delta),
  )
