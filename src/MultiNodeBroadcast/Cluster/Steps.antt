-- ===== src/MultiNodeBroadcast/Cluster/Steps.antt =====
-- Every step of the cluster keeps it consistent, and keeps every value.
use glome_rs.Base.{
  All, All-get_elem?, List, String, [], arith, beq_refl, nat_eq, none, pair_eq, refl, some,
  string_eq, true, ℕ, ◌++◌, ◌∙◌, ◌∷◌, ◌≡◌,
}
use glome_rs.Collections.HashSet.{contains, contains-insert, insert-IsHashSet, contains-append}
use glome_rs.Maelstrom.Message.{Message, MessageBody}
use glome_rs.Maelstrom.Node.{Node, next_msg_id, reply}
use glome_rs.Maelstrom.Handler.{Handled}
use glome_rs.Maelstrom.Net.{settle}
use glome_rs.MultiNodeBroadcast.{
  MultiNodeBroadcastNode, gossip, handle_broadcast, handle_broadcast_gossip_from, handle_read,
  handle_body, handle,
}
use glome_rs.MultiNodeBroadcast.Messages.{brings, contains-insert_all, insert_all-IsHashSet}
use glome_rs.MultiNodeBroadcast.Cluster.{Cluster, IsRequest, Quiet, Step}
use glome_rs.MultiNodeBroadcast.Cluster.Invariant.{
  IsIn, Carries, IsConsistent, IsKept, settle-IsConsistent, Fits-Alike,
}
use glome_rs.MultiNodeBroadcast.Cluster.Gossips.{gossip-Carries, believed_after}

module _ {V : Type 0} (c : Cluster V) (ok : IsConsistent c)
    (shuffle : List String → List String) where
  -- What may be said of a message that arrives.
  abbrev IsFine : List ℕ → String → MessageBody V → Type 0
  IsFine more src (MessageBody.broadcast_gossip _ values) = IsIn values (c.net.state src).messages
  IsFine more src (MessageBody.init _ _ _) = ⊥
  IsFine more src (MessageBody.broadcast _ m) = contains m more ≡ true
  IsFine more src _ = Unit

  abbrev Kept : List ℕ → String → Handled V MultiNodeBroadcastNode → Type 0
  Kept more i r =
      let d : Cluster V = record { net = settle c.net i r; asked = more } in
      IsConsistent d × IsKept c d

  module _ (more : List ℕ) (grows : IsIn c.asked more) (i : String) where
    stays :
        (out : List (Message V)) (node : Node)
        → node.id ≡ (c.net.node i).id
        → All (λ o. Carries c.net.state o.src o.body) out
        → Kept more i (some (out, c.net.state i, node))
    stays out node name messages =
        settle-IsConsistent c ok more i (out, c.net.state i, node) grows
          (record {
            name = name ∙ ok.names i;
            values = λ m h. h;
            neighbours = refl;
            genuine = λ m h. grows m (ok.genuine i m h);
            distinct = ok.distinct i;
            beliefs = ok.beliefs i;
            messages = messages;
          })

    stores :
        (value : ℕ) (out : List (Message V)) (node : Node)
        → contains value more ≡ true
        → node.id ≡ (c.net.node i).id
        → All (λ o. Carries c.net.state o.src o.body) out
        → Kept more i (some (out, handle_broadcast (c.net.state i) value, node))
    unfolding handle_broadcast
    stores value out node asked name messages =
        settle-IsConsistent c ok more i (out, handle_broadcast (c.net.state i) value, node) grows
          (record {
            name = name ∙ ok.names i;
            values = λ m h. ground (arith, contains-insert value m (c.net.state i).messages);
            neighbours = refl;
            genuine = λ m h. ground (
              arith,
              contains-insert value m (c.net.state i).messages,
              nat_eq.beq_iff value m,
              ok.genuine i m,
              grows m,
              asked,
            );
            distinct = insert-IsHashSet value (c.net.state i).messages (ok.distinct i);
            beliefs = ok.beliefs i;
            messages = messages;
          })

    takes :
        (src : String) (values : List ℕ)
        → IsIn values (c.net.state src).messages
        → Kept more i
            (some ([], handle_broadcast_gossip_from (c.net.state i) src values, c.net.node i))
    unfolding handle_broadcast_gossip_from
    takes src values h =
        let s = c.net.state i in
        settle-IsConsistent c ok more i
          ([], handle_broadcast_gossip_from s src values, c.net.node i) grows
          (record {
            name = ok.names i;
            values = λ m e. ground (arith, contains-insert_all s.messages values m);
            neighbours = refl;
            genuine = λ m e. ground (
              arith,
              contains-insert_all s.messages values m,
              ok.genuine i m,
              ok.genuine src m,
              h m,
              grows m,
            );
            distinct = insert_all-IsHashSet s.messages values (ok.distinct i);
            beliefs = λ peer m e. ground (
              arith,
              believed_after s src values peer m,
              string_eq.beq_iff src peer,
              h m,
              ok.beliefs i peer m,
            );
            messages = tt;
          })

    answers :
        (client : String) (body : MessageBody V)
        → Carries c.net.state (next_msg_id (c.net.node i)).1.id body
        → Kept more i (
            some (
              reply (next_msg_id (c.net.node i)).1 client body ∷ [],
              c.net.state i,
              (next_msg_id (c.net.node i)).1,
            ))
    unfolding next_msg_id reply
    answers client body h =
        stays (reply (next_msg_id (c.net.node i)).1 client body ∷ []) (next_msg_id (c.net.node i)).1
          refl (h, tt)

    body-IsConsistent :
        (msg : Message V) (body : MessageBody V)
        → IsFine more msg.src body
        → Kept more i (handle_body shuffle (c.net.state i) (c.net.node i) msg body)
    unfolding handle_body next_msg_id reply
    body-IsConsistent msg (MessageBody.init _ _ _) h = absurd h
    body-IsConsistent msg (MessageBody.topology n _) h =
        answers msg.src (MessageBody.topology_ok (next_msg_id (c.net.node i)).0 n) tt
    body-IsConsistent msg (MessageBody.broadcast n value) h =
        let node' = (next_msg_id (c.net.node i)).1 in
        let out : List (Message V) =
          reply node' msg.src (MessageBody.broadcast_ok (next_msg_id (c.net.node i)).0 n) ∷ [] in
        stores value out node' h refl (tt, tt)
    body-IsConsistent msg (MessageBody.broadcast_gossip _ values) h = takes msg.src values h
    body-IsConsistent msg (MessageBody.read n) h =
        answers msg.src
          (MessageBody.read_ok (next_msg_id (c.net.node i)).0 n (some (handle_read (c.net.state i)))
            none)
          tt
    body-IsConsistent msg _ h = stays [] (c.net.node i) refl tt

    handle-IsConsistent :
        (msg : Message V)
        → IsFine more msg.src msg.body
        → Kept more i (handle shuffle (c.net.state i) (c.net.node i) msg)
    unfolding handle
    handle-IsConsistent msg h = body-IsConsistent msg msg.body h

  IsFine-Carries :
      (src : String) (body : MessageBody V) → Carries c.net.state src body → IsFine c.asked src body
  IsFine-Carries src (MessageBody.broadcast_gossip _ values) h = h
  IsFine-Carries src (MessageBody.init _ _ _) h = h
  IsFine-Carries src (MessageBody.broadcast _ m) h = absurd h
  IsFine-Carries src _ h = tt

  IsFine-request :
      (src : String) (body : MessageBody V)
      → IsRequest body
      → IsFine (brings body ++ c.asked) src body
  unfolding contains
  IsFine-request src (MessageBody.broadcast_gossip _ values) h = absurd h
  IsFine-request src (MessageBody.init _ _ _) h = h
  IsFine-request src (MessageBody.broadcast _ m) h = ground (arith, beq_refl m)
  IsFine-request src _ h = tt

  pub Quiet-IsConsistent : {d : Cluster V} → Quiet shuffle c d → IsConsistent d × IsKept c d
  Quiet-IsConsistent (Quiet.tick i) =
      let s = c.net.state i in
      let n = c.net.node i in
      let named : IsIn s.messages (c.net.state n.id).messages = rw (ok.names i) (λ m h. h) in
      let (carried, alike, name) = gossip-Carries V c.net.state s n named in
      settle-IsConsistent c ok c.asked i (gossip s n) (λ m h. h)
        (Fits-Alike c ok i (gossip s n) name alike carried)
  Quiet-IsConsistent (Quiet.deliver k m e) =
      handle-IsConsistent c.asked (λ m h. h) m.dest m
        (IsFine-Carries m.src m.body
          (All-get_elem? (λ o. Carries c.net.state o.src o.body) c.net.sent k m ok.traffic e))

  pub Step-IsConsistent : {d : Cluster V} → Step shuffle c d → IsConsistent d × IsKept c d
  Step-IsConsistent (Step.request m h) =
      handle-IsConsistent (brings m.body ++ c.asked)
        (λ x e. ground (arith, contains-append x (brings m.body) c.asked)) m.dest m
        (IsFine-request m.src m.body h)
  Step-IsConsistent (Step.quiet q) = Quiet-IsConsistent q
