-- ===== src/Echo.antt =====
-- echo/src/node.rs: the echo service. It has no state of its own.
mod UnitTests
use glome_rs.Base.{some, [], ◌∷◌, arith}
use glome_rs.Maelstrom.Message.{Message, MessageBody}
use glome_rs.Maelstrom.Node.{Node, init_ok, handle_init, next_msg_id, reply}
use glome_rs.Maelstrom.Handler.{Handled, MessageHandler}
use glome_rs.Maelstrom.Handler.Numbering.{Sound, IsSound}

module _ {V : Type 0} where
  unfoldable pub handle_body : Node → Message V → MessageBody V → Handled V (Unit {0})
  unfolding init_ok handle_init next_msg_id reply
  handle_body node message (MessageBody.init msg_id node_id node_ids) =
      let (response, node') = init_ok (handle_init node node_id node_ids) message.src msg_id in
      some (response ∷ [], tt, node')
  handle_body node message (MessageBody.echo msg_id echo) =
      let (response_msg_id, node') = next_msg_id node in
      some
        (reply node' message.src (MessageBody.echo_ok response_msg_id msg_id echo) ∷ [], tt, node')
  handle_body node message _ = some ([], tt, node)

  unfoldable pub handle : Unit {0} → Node → Message V → Handled V (Unit {0})
  unfolding handle_body
  handle s node message = handle_body node message message.body

  abbrev pub handler : MessageHandler V (Unit {0})
  handler = record { handle = handle }

  body_Sound :
      (node : Node) (message : Message V) (body : MessageBody V)
      → Sound node (handle_body node message body)
  unfolding handle_body
  body_Sound node message (MessageBody.init n i is) = ground arith
  body_Sound node message (MessageBody.echo n e) = ground arith
  body_Sound node message _ = ground arith

  pub handler-IsSound : IsSound handler
  unfolding handle
  handler-IsSound = record { sound = λ s node message. body_Sound node message message.body }
