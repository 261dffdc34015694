-- ===== src/MultiNodeKafka/Cluster/Steps.antt =====
-- What a node does on a message keeps the cluster consistent, and keeps every entry.
use glome_rs.Base.{
  All, Bool-cases, List, String, [], arith, inl, inr, nat_eq, pair_eq, refl, some, string_eq, subst,
  sym, u64_mod, ℕ, ◌+◌, ◌<◌, ◌==◌, ◌∙◌, ◌∷◌, ◌≡◌,
}
use glome_rs.Collections.HashMap.{get}
use glome_rs.Maelstrom.Message.{Message, MessageBody}
use glome_rs.Maelstrom.Node.{Node, next_msg_id, reply}
use glome_rs.Maelstrom.Log
use glome_rs.Collections.HashMap.{HashMap}
use glome_rs.Maelstrom.Log.{Logs, get_or_create, append_local, insert_at, commit_offsets}
use glome_rs.Maelstrom.Log.Replication.{
  entry_at, IsBounded, entry_below, entry_at-commit_offsets, commit_offsets-IsBounded,
}
use glome_rs.Maelstrom.Net.{update, settle}
use glome_rs.MultiNodeKafka.{
  KafkaNode, lead_send, handle_send, handle_replicate_ok, handle_body, handle,
}
use glome_rs.MultiNodeKafka.Cluster.{Cluster, HasRoom}
use glome_rs.MultiNodeKafka.Cluster.Replicas.{
  IsWithin, Carries, IsConsistent, IsKept, settle-IsConsistent, Fits-follower, Fits-idle,
}
use glome_rs.MultiNodeKafka.Cluster.Operations.{
  insert_at-IsWithin, insert_at-IsBounded, append_local-IsWithin, append_local-IsBounded, Led,
  lead_send-Led, acknowledged,
}

module _ {V : Type 0} (leader : String) (c : Cluster V) (ok : IsConsistent leader c)
    (room : HasRoom leader c) (j : String) where
  abbrev Response : Type 0
  Response = List (Message V) × KafkaNode × Node

  abbrev Kept : Response → Type 0
  Kept r = IsConsistent leader (settle c j (some r)) × IsKept c (settle c j (some r))

  idle :
      (r : Response)
      → r.2.id ≡ (c.node j).id
      → r.1.leader ≡ (c.state j).leader
      → r.1.logs ≡ (c.state j).logs
      → All (λ o. Carries (c.state leader).logs o.body) r.0
      → Kept r
  idle r name led same messages =
      settle-IsConsistent leader c ok j (update c.state j r.1 leader).logs r
        (Fits-idle leader c ok j r (name ∙ ok.names j) (led ∙ ok.leaders j) same messages)

  leading :
      (client : String) (n : ℕ) (key : String) (msg : ℕ)
      → j ≡ leader
      → Kept (lead_send (c.state j) (c.node j) client n key msg)
  leading client n key msg e =
      let a = (c.state j).logs in
      let bounded : (k : String) → IsBounded (get_or_create a k) =
        subst (λ i. (k : String) → IsBounded (get_or_create (c.state i).logs k)) (sym e)
          ok.bounded in
      let room_here : (k : String) → (get_or_create a k).next_offset + 1 < u64_mod =
        subst (λ i. HasRoom i c) (sym e) room in
      let (grows, stored) = append_local-IsWithin a key msg bounded in
      let led : Led V (append_local a key msg).1 (c.state j) (c.node j)
          (lead_send (c.state j) (c.node j) client n key msg) =
        lead_send-Led V (c.state j) (c.node j) client n key msg stored in
      settle-IsConsistent leader c ok j (append_local a key msg).1
        (lead_send (c.state j) (c.node j) client n key msg)
        (record {
          name = led.name ∙ ok.names j;
          led = led.led ∙ ok.leaders j;
          leading = rw ((string_eq.beq_iff j leader).1 e) led.logs;
          grows = subst (λ i. IsWithin (c.state i).logs (append_local a key msg).1) e grows;
          kept = rw led.logs grows;
          replica = rw led.logs (λ k o m h. h);
          bounds = append_local-IsBounded a key msg bounded room_here;
          messages = led.messages;
        })

  sends :
      (message : Message V) (n : ℕ) (key : String) (msg : ℕ)
      → Kept (handle_send (c.state j) (c.node j) message n key msg)
  unfolding handle_send next_msg_id
  sends message n key msg =
      let forwarded : Response = (
        record {
          src = (c.node j).id;
          dest = (c.state j).leader;
          body = MessageBody.forward_send (next_msg_id (c.node j)).0 message.src n key msg;
        }
            ∷ [],
        c.state j,
        (next_msg_id (c.node j)).1,
      ) in
      elim (Bool-cases ((c.node j).id == (c.state j).leader)) [
        | inl e ↦ rw e (
            leading message.src n key msg (
              sym (ok.names j)
              ∙ (string_eq.beq_iff (c.node j).id (c.state j).leader).0 e
              ∙ ok.leaders j))
        | inr e ↦ rw e (idle forwarded refl refl refl (tt, tt))
      ]

  takes_over :
      (key : String) (msg offset : ℕ) (out : List (Message V)) (node : Node)
      → entry_at (c.state leader).logs key offset ≡ some msg
      → node.id ≡ (c.node j).id
      → All (λ o. Carries (c.state leader).logs o.body) out
      → Kept (out, record (c.state j) { logs = insert_at (c.state j).logs key offset msg }, node)
  takes_over key msg offset out node h name messages =
      let r : Response =
        (out, record (c.state j) { logs = insert_at (c.state j).logs key offset msg }, node) in
      let leads = (c.state leader).logs in
      let (kept, within) =
        insert_at-IsWithin (c.state j).logs leads key offset msg (ok.replicas j) h in
      let fits : offset + 1 < u64_mod =
        omega (arith, entry_below leads key offset msg (ok.bounded key) h, room key) in
      settle-IsConsistent leader c ok j (update c.state j r.1 leader).logs r (
        Fits-follower leader c ok j r (name ∙ ok.names j) (ok.leaders j) kept within
          (λ e.
            insert_at-IsBounded (c.state j).logs leads key offset msg (ok.replicas j) h
              (subst (λ i. (k : String) → IsBounded (get_or_create (c.state i).logs k)) (sym e)
                ok.bounded)
              fits)
          messages)

  commits :
      (offsets : HashMap String ℕ) (out : List (Message V)) (node : Node)
      → node.id ≡ (c.node j).id
      → All (λ o. Carries (c.state leader).logs o.body) out
      → Kept (out, record (c.state j) { logs = commit_offsets (c.state j).logs offsets }, node)
  commits offsets out node name messages =
      let a = (c.state j).logs in
      let r : Response = (out, record (c.state j) { logs = commit_offsets a offsets }, node) in
      settle-IsConsistent leader c ok j (update c.state j r.1 leader).logs r (
        Fits-follower leader c ok j r (name ∙ ok.names j) (ok.leaders j)
          (λ k o m h. entry_at-commit_offsets a offsets k o ∙ h)
          (λ k o m h. ok.replicas j k o m (sym (entry_at-commit_offsets a offsets k o) ∙ h))
          (λ e k.
            commit_offsets-IsBounded a offsets k
              (subst (λ i. IsBounded (get_or_create (c.state i).logs k)) (sym e) (ok.bounded k)))
          messages)

  answers :
      (client : String) (body : MessageBody V)
      → Carries (c.state leader).logs body
      → Kept
          (reply (next_msg_id (c.node j)).1 client body ∷ [], c.state j, (next_msg_id (c.node j)).1)
  unfolding next_msg_id reply
  answers client body h =
      let r : Response = (
        reply (next_msg_id (c.node j)).1 client body ∷ [],
        c.state j,
        (next_msg_id (c.node j)).1,
      ) in
      idle r refl refl refl (h, tt)

  ignored : Kept ([], c.state j, c.node j)
  ignored = let r : Response = ([], c.state j, c.node j) in idle r refl refl refl tt

  deliver_body :
      (m : Message V) (body : MessageBody V)
      → Carries (c.state leader).logs body
      → IsConsistent leader (settle c j (handle_body (c.state j) (c.node j) m body))
        × IsKept c (settle c j (handle_body (c.state j) (c.node j) m body))
  unfolding handle_body next_msg_id reply handle_replicate_ok
  deliver_body m (MessageBody.init _ _ _) h = absurd h
  deliver_body m (MessageBody.send n key msg) h = sends m n key msg
  deliver_body m (MessageBody.forward_send _ orig_src n key msg) h =
      sends (record { src = orig_src; dest = (c.node j).id; body = MessageBody.send n key msg }) n
        key msg
  deliver_body m (MessageBody.replicate n key msg offset) h =
      takes_over key msg offset
        (reply (next_msg_id (c.node j)).1 m.src
            (MessageBody.replicate_ok (next_msg_id (c.node j)).0 n offset)
          ∷ [])
        (next_msg_id (c.node j)).1 h refl (tt, tt)
  deliver_body m (MessageBody.replicate_ok _ _ offset) h =
      let pending = get offset (c.state j).pendings in
      let (name, led, same, messages) =
        acknowledged V (c.state leader).logs (c.state j) (c.node j) m.src offset pending in
      idle (handle_replicate_ok (c.state j) (c.node j) m.src offset) name led same messages
  deliver_body m (MessageBody.poll n offsets) h =
      answers m.src
        (MessageBody.poll_ok (next_msg_id (c.node j)).0 n (Log.poll (c.state j).logs offsets)) tt
  deliver_body m (MessageBody.commit_offsets n offsets) h =
      commits offsets
        (reply (next_msg_id (c.node j)).1 m.src
            (MessageBody.commit_offsets_ok (next_msg_id (c.node j)).0 n)
          ∷ [])
        (next_msg_id (c.node j)).1 refl (tt, tt)
  deliver_body m (MessageBody.list_committed_offsets n keys) h =
      answers m.src
        (MessageBody.list_committed_offsets_ok (next_msg_id (c.node j)).0 n
          (Log.list_committed_offsets (c.state j).logs keys))
        tt
  deliver_body m _ h = ignored

  pub handle-IsConsistent :
      (m : Message V)
      → Carries (c.state leader).logs m.body
      → IsConsistent leader (settle c j (handle (c.state j) (c.node j) m))
        × IsKept c (settle c j (handle (c.state j) (c.node j) m))
  unfolding handle
  handle-IsConsistent m h = deliver_body m m.body h
