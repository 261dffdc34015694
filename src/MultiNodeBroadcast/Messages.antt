-- ===== src/MultiNodeBroadcast/Messages.antt =====
-- What the broadcast node stores, and what it answers to a read.
use glome_rs.Base.{
  List, String, [], arith, nat_eq, none, pair_eq, refl, some, string_eq, ℕ, ◌||◌, ◌∷◌, ◌≡◌,
}
use glome_rs.Collections.HashSet.{
  HashSet, contains, insert, IsHashSet, contains-insert, insert-IsHashSet,
}
use glome_rs.Maelstrom.Message.{Message, MessageBody}
use glome_rs.Maelstrom.Node.{Node}
use glome_rs.Maelstrom.Handler.{Handled}
use glome_rs.Maelstrom.Handler.Numbering.{Sound, IsSound}
use glome_rs.MultiNodeBroadcast.{
  MultiNodeBroadcastNode, insert_all, handle_broadcast_gossip_from, handle_broadcast, handle_body,
  handle, handler,
}

pub contains-insert_all :
    (set : HashSet ℕ) (messages : List ℕ) (m : ℕ)
    → contains m (insert_all set messages) ≡ (contains m messages || contains m set)
unfolding insert_all contains
contains-insert_all set [] m = refl
contains-insert_all set (x ∷ messages) m =
    ground (arith, contains-insert_all (insert x set) messages m, contains-insert x m set)

pub insert_all-IsHashSet :
    (set : HashSet ℕ) (messages : List ℕ) → IsHashSet set → IsHashSet (insert_all set messages)
unfolding insert_all
insert_all-IsHashSet set [] h = h
insert_all-IsHashSet set (x ∷ messages) h =
    insert_all-IsHashSet (insert x set) messages (insert-IsHashSet x set h)

-- The values that a message brings to the node.
abbrev pub brings : {V : Type 0} → MessageBody V → List ℕ
brings (MessageBody.broadcast _ message) = message ∷ []
brings (MessageBody.broadcast_gossip _ messages) = messages
brings _ = []

module _ (V : Type 0) (shuffle : List String → List String) where
  body_Sound :
      (s : MultiNodeBroadcastNode) (node : Node) (msg : Message V) (body : MessageBody V)
      → Sound node (handle_body shuffle s node msg body)
  unfolding handle_body
  body_Sound s node msg (MessageBody.init n i is) = ground arith
  body_Sound s node msg (MessageBody.topology n t) = ground arith
  body_Sound s node msg (MessageBody.broadcast n m) = ground arith
  body_Sound s node msg (MessageBody.broadcast_gossip n ms) = ground arith
  body_Sound s node msg (MessageBody.read n) = ground arith
  body_Sound s node msg _ = ground arith

  pub handler-IsSound : IsSound (handler {V = V} shuffle)
  unfolding handle
  handler-IsSound = record { sound = λ s node msg. body_Sound s node msg msg.body }

  -- What a call of `handle` leaves in the set.
  abbrev pub Holds : MultiNodeBroadcastNode → List ℕ → Handled V MultiNodeBroadcastNode → Type 0
  Holds s values none = ⊥
  Holds s values (some (out, s', node)) =
      ((m : ℕ) → contains m s'.messages ≡ (contains m values || contains m s.messages))
      × (IsHashSet s.messages → IsHashSet s'.messages)

  body_Holds :
      (s : MultiNodeBroadcastNode) (node : Node) (msg : Message V) (body : MessageBody V)
      → Holds s (brings body) (handle_body shuffle s node msg body)
  unfolding handle_body
  body_Holds s node msg (MessageBody.init n i is) = (λ m. unfold contains in refl, λ h. h)
  body_Holds s node msg (MessageBody.broadcast n x) =
      unfold handle_broadcast in
      (
        λ m. unfold contains in ground (arith, contains-insert x m s.messages),
        insert-IsHashSet x s.messages,
      )
  body_Holds s node msg (MessageBody.broadcast_gossip n ms) =
      unfold handle_broadcast_gossip_from in
      (contains-insert_all s.messages ms, insert_all-IsHashSet s.messages ms)
  body_Holds s node msg _ = (λ m. unfold contains in refl, λ h. h)

  pub handle-Holds :
      (s : MultiNodeBroadcastNode) (node : Node) (msg : Message V)
      → Holds s (brings msg.body) (handle shuffle s node msg)
  unfolding handle
  handle-Holds s node msg = body_Holds s node msg msg.body
