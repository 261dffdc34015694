-- ===== src/MultiNodeKafka/Cluster/Durable.antt =====
-- What a node does on a message, where all sends are to one key, keeps the cluster durable.
use glome_rs.Base.{
  Bool-cases, List, Stands, String, [], ap, arith, inl, inr, nat_eq, pair_eq, refl, some, string_eq,
  subst, sym, true, ℕ, ◌==◌, ◌∙◌, ◌∷◌, ◌≡◌,
}
use glome_rs.Collections.HashMap.{get}
use glome_rs.Collections.HashSet.{contains}
use glome_rs.Maelstrom.Message.{Message, MessageBody}
use glome_rs.Maelstrom.Node.{Node, next_msg_id, reply}
use glome_rs.Maelstrom.Log
use glome_rs.Maelstrom.Log.{Logs, append_local, insert_at, commit_offsets, get_or_create}
use glome_rs.Maelstrom.Log.Replication.{entry_at, IsBounded, entry_at-insert_at}
use glome_rs.Maelstrom.Net.{update, settle, update_here}
use glome_rs.MultiNodeKafka.{
  KafkaNode, lead_send, handle_send, handle_replicate_ok, handle_body, handle,
}
use glome_rs.MultiNodeKafka.Cluster.{Cluster}
use glome_rs.MultiNodeKafka.Cluster.Replicas.{IsConsistent, IsKept}
use glome_rs.MultiNodeKafka.Cluster.Operations.{append_local-IsWithin, Led, lead_send-Led}
use glome_rs.MultiNodeKafka.Cluster.Holders.{
  Fact, Holds, Tells, TellsAll, AllBacked, IsDurable, IsBacked-grows, Holds-grows, settle-IsDurable,
}
use glome_rs.MultiNodeKafka.Cluster.Acknowledged.{lead_send-Leaves, handle_replicate_ok-Leaves}

module _ {V : Type 0} (key : String) (ids : List String) (leader : String)
    (asked : List (String × ℕ × ℕ)) (member : contains leader ids ≡ true) (c : Cluster V)
    (ok : IsConsistent leader c) (durable : IsDurable key ids leader asked c) (j : String) where
  abbrev Response : Type 0
  Response = List (Message V) × KafkaNode × Node

  abbrev After : Response → Fact → Type 0
  After r = Holds key ids leader asked (settle c j (some r))

  abbrev Kept : Response → Type 0
  Kept r = IsKept c (settle c j (some r))

  abbrev Told : MessageBody V → String → Type 0
  Told body src = Tells key ids (Holds key ids leader asked c) src j body

  still_backed : (r : Response) → Kept r → AllBacked key ids (After r) (c.state j)
  still_backed r kept o p h =
      IsBacked-grows key ids (Holds key ids leader asked c) (After r)
        (Holds-grows key ids leader asked c (settle c j (some r)) kept) o p (durable.backed j o p h)

  stored_here :
      (r : Response) (o m : ℕ)
      → entry_at r.1.logs key o ≡ some m
      → entry_at (update c.state j r.1 j).logs key o ≡ some m
  stored_here r o m h =
      ap (λ (s : KafkaNode). entry_at s.logs key o) (update_here c.state j r.1) ∙ h

  own :
      (r : Response) (o m : ℕ)
      → contains j ids ≡ true
      → entry_at r.1.logs key o ≡ some m
      → After r (Fact.holding j o)
  own r o m here h = (here, m, stored_here r o m h)

  -- A response that leaves the pending sends as they are.
  passes :
      (r : Response)
      → Kept r
      → r.2.peers ≡ (c.node j).peers
      → r.1.pendings ≡ (c.state j).pendings
      → TellsAll key ids (After r) r.0
      → IsDurable key ids leader asked (settle c j (some r))
  passes r kept peers same told = settle-IsDurable key ids leader asked c j r durable kept (record {
    peers = peers;
    backed = λ o p h. still_backed r kept o p (ap (get o) (sym same) ∙ h);
    messages = told;
  })

  acknowledges :
      (src : String) (offset : ℕ)
      → let r : Response = handle_replicate_ok (c.state j) (c.node j) src offset in
        Holds key ids leader asked c (Fact.holding src offset)
        → Kept r
        → IsDurable key ids leader asked (settle c j (some r))
  acknowledges src offset held kept =
      let r : Response = handle_replicate_ok (c.state j) (c.node j) src offset in
      settle-IsDurable key ids leader asked c j r durable kept (
        handle_replicate_ok-Leaves V key ids (After r) (c.state j) (c.node j) (durable.peers j)
          (still_backed r kept) src offset
          (Holds-grows key ids leader asked c (settle c j (some r)) kept (Fact.holding src offset)
            held))

  leads :
      (client : String) (n msg : ℕ)
      → j ≡ leader
      → Stands asked (client, n, msg)
      → let r : Response = lead_send (c.state j) (c.node j) client n key msg in
        Kept r → IsDurable key ids leader asked (settle c j (some r))
  leads client n msg e asks kept =
      let r : Response = lead_send (c.state j) (c.node j) client n key msg in
      let a = (c.state j).logs in
      let bounded : (k : String) → IsBounded (get_or_create a k) =
        subst (λ i. (k : String) → IsBounded (get_or_create (c.state i).logs k)) (sym e)
          ok.bounded in
      let stored = (append_local-IsWithin a key msg bounded).1 in
      let led : Led V (append_local a key msg).1 (c.state j) (c.node j) r =
        lead_send-Led V (c.state j) (c.node j) client n key msg stored in
      let offset = (append_local a key msg).0 in
      let held : After r (Fact.holding j offset) =
        own r offset msg (subst (λ i. contains i ids ≡ true) (sym e) member) (rw led.logs stored) in
      let leading : entry_at (update c.state j r.1 leader).logs key offset ≡ some msg =
        subst (λ i. entry_at (update c.state j r.1 i).logs key offset ≡ some msg) e
          (stored_here r offset msg (rw led.logs stored)) in
      settle-IsDurable key ids leader asked c j r durable kept (
        lead_send-Leaves V key ids (After r) (c.state j) (c.node j) (durable.peers j)
          (still_backed r kept) client n msg
          (subst (λ i. After r (Fact.holding i offset)) (sym (ok.names j)) held)
          (msg, leading, asks))

  sends :
      (message : Message V) (n : ℕ) (k : String) (msg : ℕ)
      → k ≡ key
      → Stands asked (message.src, n, msg)
      → let r : Response = handle_send (c.state j) (c.node j) message n k msg in
        Kept r → IsDurable key ids leader asked (settle c j (some r))
  unfolding handle_send next_msg_id
  sends message n k msg same asks =
      let forwarded : Response = (
        record {
          src = (c.node j).id;
          dest = (c.state j).leader;
          body = MessageBody.forward_send (next_msg_id (c.node j)).0 message.src n k msg;
        }
            ∷ [],
        c.state j,
        (next_msg_id (c.node j)).1,
      ) in
      elim (Bool-cases ((c.node j).id == (c.state j).leader)) [
        | inl e ↦ rw e (
            subst
              (λ k.
                let r : Response = lead_send (c.state j) (c.node j) message.src n k msg in
                Kept r → IsDurable key ids leader asked (settle c j (some r)))
              (sym same)
              (leads message.src n msg
                (sym (ok.names j)
                  ∙ (string_eq.beq_iff (c.node j).id (c.state j).leader).0 e
                  ∙ ok.leaders j)
                asks))
        | inr e ↦ rw e (λ kept. passes forwarded kept refl refl ((same, asks), tt))
      ]

  takes_over :
      (n : ℕ) (k : String) (msg offset : ℕ) (src : String)
      → k ≡ key
      → contains j ids ≡ true
      → let r : Response = (
        reply
              (next_msg_id (c.node j)).1
              src
              (MessageBody.replicate_ok (next_msg_id (c.node j)).0 n offset)
            ∷ [],
        record (c.state j) { logs = insert_at (c.state j).logs k offset msg },
        (next_msg_id (c.node j)).1,
      ) in
        Kept r → IsDurable key ids leader asked (settle c j (some r))
  unfolding next_msg_id reply
  takes_over n k msg offset src same here kept =
      let r : Response = (
        reply (next_msg_id (c.node j)).1 src
              (MessageBody.replicate_ok (next_msg_id (c.node j)).0 n offset)
            ∷ [],
        record (c.state j) { logs = insert_at (c.state j).logs k offset msg },
        (next_msg_id (c.node j)).1,
      ) in
      let stored : entry_at r.1.logs key offset ≡ some msg = ground (
        arith,
        entry_at-insert_at (c.state j).logs k key offset offset msg,
        string_eq.beq_iff k key,
      ) in
      passes r kept refl refl (
        subst (λ i. After r (Fact.holding i offset)) (sym (ok.names j))
            (own r offset msg here stored),
        tt,
      )

  answers :
      (client : String) (body : MessageBody V) (logs : Logs)
      → ((H : Fact → Type 0) (src dest : String) → Tells key ids H src dest body)
      → let r : Response = (
        reply (next_msg_id (c.node j)).1 client body ∷ [],
        record (c.state j) { logs = logs },
        (next_msg_id (c.node j)).1,
      ) in
        Kept r → IsDurable key ids leader asked (settle c j (some r))
  unfolding next_msg_id reply
  answers client body logs told kept =
      let r : Response = (
        reply (next_msg_id (c.node j)).1 client body ∷ [],
        record (c.state j) { logs = logs },
        (next_msg_id (c.node j)).1,
      ) in
      passes r kept refl refl (told (After r) (c.node j).id client, tt)

  receives :
      (m : Message V) (body : MessageBody V)
      → Told body m.src
      → IsKept c (settle c j (handle_body (c.state j) (c.node j) m body))
      → IsDurable key ids leader asked (settle c j (handle_body (c.state j) (c.node j) m body))
  unfolding handle_body next_msg_id reply
  receives m (MessageBody.init _ _ _) h kept = absurd h
  receives m (MessageBody.send n k msg) h kept = sends m n k msg h.0 h.1 kept
  receives m (MessageBody.forward_send _ orig_src n k msg) h kept =
      sends (record { src = orig_src; dest = (c.node j).id; body = MessageBody.send n k msg }) n k
        msg h.0 h.1 kept
  receives m (MessageBody.replicate n k msg offset) (same, here) kept =
      takes_over n k msg offset m.src same here kept
  receives m (MessageBody.replicate_ok _ _ offset) h kept = acknowledges m.src offset h kept
  receives m (MessageBody.poll n offsets) h kept =
      answers m.src
        (MessageBody.poll_ok (next_msg_id (c.node j)).0 n (Log.poll (c.state j).logs offsets))
        (c.state j).logs (λ H src dest. tt) kept
  receives m (MessageBody.commit_offsets n offsets) h kept =
      answers m.src (MessageBody.commit_offsets_ok (next_msg_id (c.node j)).0 n)
        (commit_offsets (c.state j).logs offsets) (λ H src dest. tt) kept
  receives m (MessageBody.list_committed_offsets n keys) h kept =
      answers m.src
        (MessageBody.list_committed_offsets_ok (next_msg_id (c.node j)).0 n
          (Log.list_committed_offsets (c.state j).logs keys))
        (c.state j).logs (λ H src dest. tt) kept
  receives m _ h kept = passes ([], c.state j, c.node j) kept refl refl tt

  -- A message of which everything is true, as it is told, keeps the cluster durable.
  pub handle-IsDurable :
      (m : Message V)
      → Tells key ids (Holds key ids leader asked c) m.src j m.body
      → IsKept c (settle c j (handle (c.state j) (c.node j) m))
      → IsDurable key ids leader asked (settle c j (handle (c.state j) (c.node j) m))
  unfolding handle
  handle-IsDurable m h kept = receives m m.body h kept
