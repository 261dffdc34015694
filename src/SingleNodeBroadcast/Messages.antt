-- ===== src/SingleNodeBroadcast/Messages.antt =====
-- What the single broadcast node stores and forwards.
use glome_rs.Base.{
  All, All-append, All-imp, Bool-cases, List, String, [], ap, arith, inl, inr, nat_beq_iff, nat_eq,
  not, pair_eq, refl, retain, some, string_eq, sym, ℕ, ◌++◌, ◌==◌, ◌||◌, ◌∙◌, ◌∷◌, ◌≡◌,
}
use glome_rs.Collections.HashSet.{
  contains, is_new, IsHashSet, contains-append, contains-insert, snoc-IsHashSet,
}
use glome_rs.Maelstrom.Message.{Message, MessageBody}
use glome_rs.Maelstrom.Node.{Node, next_msg_id, reply}
use glome_rs.Maelstrom.Handler.Numbering.{Numbered, Numbered-append, Sound, IsSound}
use glome_rs.SingleNodeBroadcast.{
  SingleNodeBroadcastNode, store, forward, handle_broadcast, handle_read, handle_body, handle,
  handler,
}

-- The set and the list hold the same messages, and the list holds each once.
pub record IsValid (s : SingleNodeBroadcastNode) : Type 0 where
  pub same : (m : ℕ) → contains m s.messages ≡ contains m s.seen
  pub distinct : IsHashSet s.messages

-- Where the messages and the set of those seen have the same members and no message stands twice,
-- that is so again after a broadcast, which adds its message to what is read and nothing else.
pub store-IsValid :
    (s : SingleNodeBroadcastNode) (message : ℕ)
    → IsValid s
    → IsValid (store s message)
      × ((m : ℕ)
          → contains m (handle_read (store s message))
            ≡ (message == m || contains m (handle_read s)))
unfolding store handle_read is_new
store-IsValid s message v = elim (Bool-cases (contains message s.seen)) [
  | inl old ↦
      (rw old v, λ m. rw old (ground (arith, nat_beq_iff message m, v.same m, v.same message)))
  | inr new ↦ (
    rw new (record {
      same = λ m. ground (
        arith,
        v.same m,
        contains-append m s.messages (message ∷ []),
        contains-insert message m s.seen,
        single message m,
      );
      distinct = snoc-IsHashSet message s.messages (v.same message ∙ new) v.distinct;
    }),
    λ m. rw new (ground (arith, contains-append m s.messages (message ∷ []), single message m)),
  )
]
  where
    single : (a b : ℕ) → contains b (a ∷ []) ≡ (a == b)
    single a b = unfold contains in ground arith

abbrev pub dests : {V : Type 0} → List (Message V) → List String
dests [] = []
dests (o ∷ os) = o.dest ∷ dests os

dests-append : {V : Type 0} (xs ys : List (Message V)) → dests (xs ++ ys) ≡ dests xs ++ dests ys
dests-append [] ys = refl
dests-append (x ∷ xs) ys = ap (◌∷◌ x.dest) (dests-append xs ys)

module _ (V : Type 0) where
  forward_lem :
      (node : Node) (message : ℕ) (peers : List String)
      → Numbered {V = V} node.msg_id
          (forward node message peers).0
          (forward {V = V} node message peers).1.msg_id
        × All {A = Message V} (λ o. o.src ≡ node.id) (forward node message peers).0
        × (dests (forward {V = V} node message peers).0 ≡ retain (λ p. not (p == node.id)) peers)
        × ((forward {V = V} node message peers).1.id ≡ node.id)
  unfolding forward next_msg_id
  forward_lem node message [] = (refl, tt, refl, refl)
  forward_lem node message (peer ∷ peers) =
      ground (arith, forward_lem node message peers, forward_lem (next_msg_id node).1 message peers)

  -- A broadcast goes once to every peer but the node itself, in the order of the peers, whether or
  -- not the message is new; the answer to the client comes last.
  pub broadcast-dests :
      (s : SingleNodeBroadcastNode) (node : Node) (client : String) (n message : ℕ)
      → (out : List (Message V)) × (node' : Node) × (handle s node
            (record { src = client; dest = node.id; body = MessageBody.broadcast n message })
          ≡ some (out, store s message, node'))
        × (dests out ≡ retain (λ p. not (p == node.id)) node.peers ++ client ∷ [])
  unfolding handle handle_broadcast reply next_msg_id
  broadcast-dests s node client n message =
      let (out, node') = forward {V = V} node message node.peers in
      let answer : Message V =
        reply node' client (MessageBody.broadcast_ok (next_msg_id node').0 n) in
      (
        out ++ answer ∷ [],
        (next_msg_id node').1,
        ground arith,
        dests-append out (answer ∷ [])
            ∙ ap (λ d. d ++ client ∷ []) (forward_lem node message node.peers).2,
      )

  body_Sound :
      (s : SingleNodeBroadcastNode) (node : Node) (msg : Message V) (body : MessageBody V)
      → Sound node (handle_body s node msg body)
  unfolding handle_body
  body_Sound s node msg (MessageBody.init n i is) = ground arith
  body_Sound s node msg (MessageBody.topology n t) = ground arith
  body_Sound s node msg (MessageBody.broadcast n m) =
      let (out, node') = forward {V = V} node m node.peers in
      let (numbered, signed, _, same_id) = forward_lem node m node.peers in
      unfold handle_broadcast next_msg_id reply in
      (
        Numbered-append node.msg_id node'.msg_id _ out _ numbered (refl, refl),
        All-append _ out _ (All-imp (λ o e. e ∙ sym same_id) out signed) (refl, tt),
      )
  body_Sound s node msg (MessageBody.read n) = ground arith
  body_Sound s node msg _ = ground arith

  pub handler-IsSound : IsSound (handler {V = V})
  unfolding handle
  handler-IsSound = record { sound = λ s node msg. body_Sound s node msg msg.body }
