-- ===== src/MultiNodeKafka/Cluster/Operations.antt =====
-- What the operations of the replicated logs do to the entries of the cluster.
use glome_rs.Base.{
  All, All-append, Bool-cases, List, Option, String, [], add64, arith, beq_refl, inl, inr, leb,
  nat_eq, none, pair_eq, refl, some, string_eq, u64_mod, ℕ, ◌+◌, ◌<◌, ◌==◌, ◌∷◌, ◌≡◌,
}
use glome_rs.Collections.HashSet.{is_new}
use glome_rs.Maelstrom.Message.{Message}
use glome_rs.Maelstrom.Node.{Node, next_msg_id, reply}
use glome_rs.Maelstrom.Log.{Logs, get_or_create, append_local, insert_at}
use glome_rs.Maelstrom.Log.Replication.{
  entry_at, IsBounded, entry_at-insert_at, append_local_lem, place-IsBounded, extend-IsBounded,
  get_or_create-append_local, get_or_create-insert_at,
}
use glome_rs.MultiNodeKafka.{KafkaNode, Pending, quorum, replicate_to, lead_send, acknowledge}
use glome_rs.MultiNodeKafka.Cluster.Replicas.{IsWithin, Carries}

module _ (a leads : Logs) (key : String) (offset msg : ℕ) (within : IsWithin a leads)
    (leader_has : entry_at leads key offset ≡ some msg) where
  -- A replicated write adds an entry of the leader, and changes none.
  pub insert_at-IsWithin :
      IsWithin a (insert_at a key offset msg) × IsWithin (insert_at a key offset msg) leads
  insert_at-IsWithin = (
    λ k o m h. ground (
      arith,
      entry_at-insert_at a key k offset o msg,
      string_eq.beq_iff key k,
      within k o m h,
      leader_has,
    ),
    λ k o m h. ground (
      arith,
      entry_at-insert_at a key k offset o msg,
      string_eq.beq_iff key k,
      within k o m,
      leader_has,
    ),
  )

  pub insert_at-IsBounded :
      ((k : String) → IsBounded (get_or_create a k))
      → offset + 1 < u64_mod
      → (k : String) → IsBounded (get_or_create (insert_at a key offset msg) k)
  insert_at-IsBounded b room k = elim (Bool-cases (key == k)) [
    | inl e ↦
        rw (get_or_create-insert_at a key k offset msg, e)
          (place-IsBounded (get_or_create a key) offset msg (b key) room)
    | inr e ↦ rw (get_or_create-insert_at a key k offset msg, e) (b k)
  ]

module _ (a : Logs) (key : String) (msg : ℕ)
    (b : (k : String) → IsBounded (get_or_create a k)) where
  -- A local append adds an entry, and changes none.
  pub append_local-IsWithin :
      IsWithin a (append_local a key msg).1
      × (entry_at (append_local a key msg).1 key (append_local a key msg).0 ≡ some msg)
  append_local-IsWithin =
      let (free, at_each) = append_local_lem a key msg (b key) in
      (
        λ k o m h. ground (arith, at_each k o, string_eq.beq_iff key k, free),
        ground (arith, at_each key (append_local a key msg).0, beq_refl key),
      )

  pub append_local-IsBounded :
      ((k : String) → (get_or_create a k).next_offset + 1 < u64_mod)
      → (k : String) → IsBounded (get_or_create (append_local a key msg).1 k)
  append_local-IsBounded room k = elim (Bool-cases (key == k)) [
    | inl e ↦
        rw (get_or_create-append_local a key k msg, e)
          (extend-IsBounded (get_or_create a key) msg (b key) (room key))
    | inr e ↦ rw (get_or_create-append_local a key k msg, e) (b k)
  ]

module _ (V : Type 0) where
  replicate_to-Carries :
      (leads : Logs) (node : Node) (key : String) (msg offset : ℕ) (peers : List String)
      → entry_at leads key offset ≡ some msg
      → All (λ o. Carries leads o.body) (replicate_to {V = V} node key msg offset peers).0
        × ((replicate_to {V = V} node key msg offset peers).1.id ≡ node.id)
  unfolding replicate_to next_msg_id
  replicate_to-Carries leads node key msg offset [] h = (tt, refl)
  replicate_to-Carries leads node key msg offset (peer ∷ peers) h =
      let (rest, same) = replicate_to-Carries leads (next_msg_id node).1 key msg offset peers h in
      ((h, rest), same)

  -- What a send at the leader leaves.
  pub record Led (leads : Logs) (s : KafkaNode) (node : Node)
      (r : List (Message V) × KafkaNode × Node) : Type 0 where
    pub logs : r.1.logs ≡ leads
    pub led : r.1.leader ≡ s.leader
    pub name : r.2.id ≡ node.id
    pub messages : All (λ o. Carries leads o.body) r.0

  pub lead_send-Led :
      (s : KafkaNode) (node : Node) (client : String) (n : ℕ) (key : String) (msg : ℕ)
      → entry_at (append_local s.logs key msg).1 key (append_local s.logs key msg).0 ≡ some msg
      → Led (append_local s.logs key msg).1 s node (lead_send s node client n key msg)
  unfolding lead_send next_msg_id
  lead_send-Led s node client n key msg h =
      let (offset, leads) = append_local s.logs key msg in
      let (out, node') = replicate_to {V = V} node key msg offset node.peers in
      let (carried, same) = replicate_to-Carries leads node key msg offset node.peers h in
      elim (Bool-cases (leb (quorum node') 1)) [
        | inl alone ↦ rw alone (record {
          logs = refl;
          led = refl;
          name = same;
          messages = All-append _ out _ carried (tt, tt);
        })
        | inr waits ↦ rw waits (record { logs = refl; led = refl; name = same; messages = carried })
      ]

  -- What the other operations leave.
  pub acknowledged :
      (leads : Logs) (s : KafkaNode) (node : Node) (src : String) (offset : ℕ) (o : Option Pending)
      → let r : List (Message V) × KafkaNode × Node = elim o [
        | none ↦ ([], s, node)
        | some p ↦ acknowledge s node src offset p
      ] in
        (r.2.id ≡ node.id)
        × (r.1.leader ≡ s.leader)
        × (r.1.logs ≡ s.logs)
        × All (λ o. Carries leads o.body) r.0
  unfolding acknowledge next_msg_id reply
  acknowledged leads s node src offset none = (refl, refl, refl, tt)
  acknowledged leads s node src offset (some p) = elim (Bool-cases (is_new src p.from)) [
    | inl first ↦ elim (Bool-cases (leb (quorum node) (add64 p.acks 1))) [
      | inl enough ↦ rw (first, enough) (refl, refl, refl, (tt, tt))
      | inr few ↦ rw (first, few) (refl, refl, refl, tt)
    ]
    | inr again ↦ rw again (refl, refl, refl, tt)
  ]
