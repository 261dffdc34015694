-- ===== src/MultiNodeKafka/Cluster/Replicas.antt =====
-- What holds of every reachable cluster of replicated logs.
use glome_rs.Base.{
  All, All-append, All-imp, Bool-cases, List, String, inl, inr, nat_eq, pair_eq, refl, some,
  string_eq, subst, ℕ, ◌==◌, ◌≡◌,
}
use glome_rs.Maelstrom.Message.{Message, MessageBody}
use glome_rs.Maelstrom.Node.{Node}
use glome_rs.Maelstrom.Log.{Logs, get_or_create}
use glome_rs.Maelstrom.Log.Replication.{entry_at, IsBounded}
use glome_rs.Maelstrom.Net.{update, settle, at_update}
use glome_rs.MultiNodeKafka.{KafkaNode}
use glome_rs.MultiNodeKafka.Cluster.{Cluster}

-- Every entry of the first is an entry of the second.
abbrev pub IsWithin : Logs → Logs → Type 0
IsWithin a b = (key : String) (o m : ℕ) → entry_at a key o ≡ some m → entry_at b key o ≡ some m

-- A replicated write is an entry of the leader. No node sends the set-up of a node.
abbrev pub Carries : {V : Type 0} → Logs → MessageBody V → Type 0
Carries leads (MessageBody.replicate _ key msg offset) = entry_at leads key offset ≡ some msg
Carries leads (MessageBody.init _ _ _) = ⊥
Carries leads _ = Unit

Carries-grows :
    {V : Type 0} (a b : Logs) (body : MessageBody V)
    → IsWithin a b
    → Carries a body
    → Carries b body
Carries-grows a b (MessageBody.replicate _ key msg offset) w h = w key offset msg h
Carries-grows a b (MessageBody.init _ _ _) w h = h
Carries-grows a b _ w h = tt

-- Every node knows the leader and itself, every entry of a node, and every one under way, is the
-- leader's, and the leader's entries stand below its next offsets.
pub record IsConsistent {V : Type 0} (leader : String) (c : Cluster V) : Type 0 where
  pub names : (i : String) → (c.node i).id ≡ i
  pub leaders : (i : String) → (c.state i).leader ≡ leader
  pub replicas : (i : String) → IsWithin (c.state i).logs (c.state leader).logs
  pub bounded : (key : String) → IsBounded (get_or_create (c.state leader).logs key)
  pub traffic : All (λ o. Carries (c.state leader).logs o.body) c.sent

-- No node of the first has an entry that it lacks, or has otherwise, in the second.
abbrev pub IsKept : {V : Type 0} → Cluster V → Cluster V → Type 0
IsKept c d = (i : String) → IsWithin (c.state i).logs (d.state i).logs

module _ {V : Type 0} (leader : String) (c : Cluster V) (ok : IsConsistent leader c) where
  -- What a response must leave at node `j`; the leader's logs are then `leads`.
  pub record Fits (j : String) (leads : Logs) (r : List (Message V) × KafkaNode × Node)
      : Type 0 where
    pub name : r.2.id ≡ j
    pub led : r.1.leader ≡ leader
    pub leading : (update c.state j r.1 leader).logs ≡ leads
    pub grows : IsWithin (c.state leader).logs leads
    pub kept : IsWithin (c.state j).logs r.1.logs
    pub replica : IsWithin r.1.logs leads
    pub bounds : (key : String) → IsBounded (get_or_create leads key)
    pub messages : All (λ o. Carries leads o.body) r.0

  pub settle-IsConsistent :
      (j : String) (leads : Logs) (r : List (Message V) × KafkaNode × Node)
      → Fits j leads r
      → IsConsistent leader (settle c j (some r)) × IsKept c (settle c j (some r))
  settle-IsConsistent j leads (out, s, n) fits = (
    record {
      names = at_update (λ i (n : Node). n.id ≡ i) c.node j n fits.name (λ i e. ok.names i);
      leaders =
          at_update (λ i (t : KafkaNode). t.leader ≡ leader) c.state j s fits.led
            (λ i e. ok.leaders i);
      replicas = rw fits.leading (
          at_update (λ i (t : KafkaNode). IsWithin t.logs leads) c.state j s fits.replica
            (λ i e key o m h. fits.grows key o m (ok.replicas i key o m h)));
      bounded = rw fits.leading fits.bounds;
      traffic = rw fits.leading (
          All-append _ out c.sent fits.messages (
            All-imp (λ o. Carries-grows (c.state leader).logs leads o.body fits.grows) c.sent
              ok.traffic));
    },
    at_update (λ i (t : KafkaNode). IsWithin (c.state i).logs t.logs) c.state j s fits.kept
        (λ i e key o m h. h),
  )

  -- A response that adds no entry of its own: the node takes over entries of the leader at most.
  pub Fits-follower :
      (j : String) (r : List (Message V) × KafkaNode × Node)
      → r.2.id ≡ j
      → r.1.leader ≡ leader
      → IsWithin (c.state j).logs r.1.logs
      → IsWithin r.1.logs (c.state leader).logs
      → (j ≡ leader → (key : String) → IsBounded (get_or_create r.1.logs key))
      → All (λ o. Carries (c.state leader).logs o.body) r.0
      → Fits j (update c.state j r.1 leader).logs r
  Fits-follower j r name led kept replica bounds messages = elim (Bool-cases (j == leader)) [
    | inl e ↦
        let same : j ≡ leader = (string_eq.beq_iff j leader).0 e in
        let grows : IsWithin (c.state leader).logs r.1.logs =
          subst (λ i. IsWithin (c.state i).logs r.1.logs) same kept in
        rw e (record {
          name = name;
          led = led;
          leading = rw e refl;
          grows = grows;
          kept = kept;
          replica = λ key o m h. h;
          bounds = bounds same;
          messages =
              All-imp (λ o. Carries-grows (c.state leader).logs r.1.logs o.body grows) r.0 messages;
        })
    | inr e ↦ rw e (record {
      name = name;
      led = led;
      leading = rw e refl;
      grows = λ key o m h. h;
      kept = kept;
      replica = replica;
      bounds = ok.bounded;
      messages = messages;
    })
  ]

  -- A response that leaves the logs as they are.
  pub Fits-idle :
      (j : String) (r : List (Message V) × KafkaNode × Node)
      → r.2.id ≡ j
      → r.1.leader ≡ leader
      → r.1.logs ≡ (c.state j).logs
      → All (λ o. Carries (c.state leader).logs o.body) r.0
      → Fits j (update c.state j r.1 leader).logs r
  Fits-idle j r name led same messages =
      Fits-follower j r name led (rw same (λ key o m h. h)) (rw same (ok.replicas j))
        (λ e. rw (same, e) ok.bounded) messages
