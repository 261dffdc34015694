-- ===== src/MultiNodeKafka/Cluster/Holders.antt =====
-- The nodes that hold a message, what the messages of the cluster tell about them, and what a
-- response of a node leaves of it.
use glome_rs.Base.{
  All, All-append, All-imp, List, Stands, String, length, nat_eq, pair_eq, some, string_eq, suc,
  true, ℕ, ◌+◌, ◌<◌, ◌∷◌, ◌≡◌, ◌≤◌,
}
use glome_rs.Collections.HashMap.{get}
use glome_rs.Collections.HashSet.{contains, IsHashSet}
use glome_rs.Maelstrom.Message.{Message, MessageBody}
use glome_rs.Maelstrom.Node.{Node}
use glome_rs.Maelstrom.Log.Replication.{entry_at}
use glome_rs.Maelstrom.Net.{settle, at_update}
use glome_rs.MultiNodeKafka.{Pending, KafkaNode, quorum}
use glome_rs.MultiNodeKafka.Cluster.{Cluster}
use glome_rs.MultiNodeKafka.Cluster.Replicas.{IsKept}

-- What a cluster may be told of the key: that a node holds an offset, that a client asked in a
-- request for a message to be stored, and that this message is the one at an offset.
pub data Fact : Type 0 where
  holding : (node : String) (offset : ℕ) → Fact
  asking : (client : String) (n msg : ℕ) → Fact
  answering : (client : String) (n offset : ℕ) → Fact

abbrev pub Holds :
    {V : Type 0} → String → List String → String → List (String × ℕ × ℕ) → Cluster V → Fact → Type 0
Holds key ids leader asked c (Fact.holding i offset) =
    (contains i ids ≡ true) × (msg : ℕ) × (entry_at (c.state i).logs key offset ≡ some msg)
Holds key ids leader asked c (Fact.asking client n msg) = Stands asked (client, n, msg)
Holds key ids leader asked c (Fact.answering client n offset) =
    (msg : ℕ) × (entry_at (c.state leader).logs key offset ≡ some msg)
    × Stands asked (client, n, msg)

-- A quorum of the node is more than half of the cluster, of which its peers are nodes.
pub record HasPeers (ids : List String) (node : Node) : Type 0 where
  pub quorums : length ids < quorum node + quorum node
  pub peers : (p : String) → contains p node.peers ≡ true → contains p ids ≡ true

HasPeers-same :
    (ids : List String) (n m : Node) → n.peers ≡ m.peers → HasPeers ids m → HasPeers ids n
unfolding quorum
HasPeers-same ids n m e h = record { quorums = rw e h.quorums; peers = rw e h.peers }

-- What the pending sends and the messages rely on, where `H` is what is true of the key.
module _ (key : String) (ids : List String) (H : Fact → Type 0) where
  pub record IsBacked (offset : ℕ) (p : Pending) : Type 0 where
    pub counted : p.acks ≤ length p.from
    pub distinct : IsHashSet p.from
    pub holders : (i : String) → contains i p.from ≡ true → H (Fact.holding i offset)
    pub answers : H (Fact.answering p.client p.client_msg_id offset)

  -- More than half of the nodes hold the offset.
  pub record HasMajority (offset : ℕ) : Type 0 where
    pub names : List String
    pub distinct : IsHashSet names
    pub most : length ids < length names + length names
    pub holders : (i : String) → contains i names ≡ true → H (Fact.holding i offset)

  abbrev pub Tells : {V : Type 0} → String → String → MessageBody V → Type 0
  Tells src dest (MessageBody.init _ _ _) = ⊥
  Tells src dest (MessageBody.send n k msg) = (k ≡ key) × H (Fact.asking src n msg)
  Tells src dest (MessageBody.forward_send _ client n k msg) =
      (k ≡ key) × H (Fact.asking client n msg)
  Tells src dest (MessageBody.replicate _ k _ _) = (k ≡ key) × (contains dest ids ≡ true)
  Tells src dest (MessageBody.replicate_ok _ _ offset) = H (Fact.holding src offset)
  Tells src dest (MessageBody.send_ok _ n offset) =
      HasMajority offset × H (Fact.answering dest n offset)
  Tells src dest _ = Unit

  abbrev pub TellsAll : {V : Type 0} → List (Message V) → Type 0
  TellsAll out = All (λ m. Tells m.src m.dest m.body) out

  abbrev pub AllBacked : KafkaNode → Type 0
  AllBacked s = (o : ℕ) (p : Pending) → get o s.pendings ≡ some p → IsBacked o p

  -- What a response leaves.
  pub record Leaves {V : Type 0} (node : Node) (r : List (Message V) × KafkaNode × Node)
      : Type 0 where
    pub peers : r.2.peers ≡ node.peers
    pub backed : AllBacked r.1
    pub messages : TellsAll r.0

module _ (key : String) (ids : List String) (H K : Fact → Type 0)
    (grows : (f : Fact) → H f → K f) where
  pub IsBacked-grows : (o : ℕ) (p : Pending) → IsBacked key ids H o p → IsBacked key ids K o p
  IsBacked-grows o p b = record {
    counted = b.counted;
    distinct = b.distinct;
    holders = λ i e. grows (Fact.holding i o) (b.holders i e);
    answers = grows (Fact.answering p.client p.client_msg_id o) b.answers;
  }

  pub Tells-grows :
      {V : Type 0} (src dest : String) (body : MessageBody V)
      → Tells key ids H src dest body
      → Tells key ids K src dest body
  Tells-grows src dest (MessageBody.init _ _ _) h = h
  Tells-grows src dest (MessageBody.send n _ msg) h = (h.0, grows (Fact.asking src n msg) h.1)
  Tells-grows src dest (MessageBody.forward_send _ client n _ msg) h =
      (h.0, grows (Fact.asking client n msg) h.1)
  Tells-grows src dest (MessageBody.replicate _ k _ _) h = h
  Tells-grows src dest (MessageBody.replicate_ok _ _ offset) h = grows (Fact.holding src offset) h
  Tells-grows src dest (MessageBody.send_ok _ n offset) (most, answers) =
      let more : HasMajority key ids K offset = record {
        names = most.names;
        distinct = most.distinct;
        most = most.most;
        holders = λ i e. grows (Fact.holding i offset) (most.holders i e);
      } in
      (more, grows (Fact.answering dest n offset) answers)
  Tells-grows src dest _ h = tt

-- Every pending send is backed by nodes that hold its message, and every answer to a client by
-- more than half of the nodes.
pub record IsDurable {V : Type 0} (key : String) (ids : List String) (leader : String)
    (asked : List (String × ℕ × ℕ)) (c : Cluster V) : Type 0 where
  pub peers : (i : String) → HasPeers ids (c.node i)
  pub backed : (i : String) → AllBacked key ids (Holds key ids leader asked c) (c.state i)
  pub traffic : TellsAll key ids (Holds key ids leader asked c) c.sent

module _ {V : Type 0} (key : String) (ids : List String) (leader : String)
    (asked : List (String × ℕ × ℕ)) (c : Cluster V) where
  pub Holds-grows :
      (d : Cluster V)
      → IsKept c d
      → (f : Fact) → Holds key ids leader asked c f
      → Holds key ids leader asked d f
  Holds-grows d kept (Fact.holding i o) (here, msg, h) = (here, msg, kept i key o msg h)
  Holds-grows d kept (Fact.asking client n msg) h = h
  Holds-grows d kept (Fact.answering client n o) (msg, h, asks) =
      (msg, kept leader key o msg h, asks)

  Holds-asked :
      (a : String × ℕ × ℕ) (f : Fact)
      → Holds key ids leader asked c f
      → Holds key ids leader (a ∷ asked) c f
  Holds-asked a (Fact.holding i o) h = h
  Holds-asked a (Fact.asking client n msg) (k, e) = (suc k, e)
  Holds-asked a (Fact.answering client n o) (msg, h, at) = (msg, h, (suc at.0, at.1))

  -- One more request of a client.
  pub asked-IsDurable :
      (a : String × ℕ × ℕ)
      → IsDurable key ids leader asked c
      → IsDurable key ids leader (a ∷ asked) c
  asked-IsDurable a ok =
      let H = Holds key ids leader asked c in
      let K = Holds key ids leader (a ∷ asked) c in
      record {
        peers = ok.peers;
        backed = λ i o p h. IsBacked-grows key ids H K (Holds-asked a) o p (ok.backed i o p h);
        traffic =
            All-imp (λ m. Tells-grows key ids H K (Holds-asked a) m.src m.dest m.body) c.sent
              ok.traffic;
      }

  pub settle-IsDurable :
      (j : String) (r : List (Message V) × KafkaNode × Node)
      → IsDurable key ids leader asked c
      → IsKept c (settle c j (some r))
      → Leaves key ids (Holds key ids leader asked (settle c j (some r))) (c.node j) r
      → IsDurable key ids leader asked (settle c j (some r))
  settle-IsDurable j r ok kept l =
      let d : Cluster V = settle c j (some r) in
      let H = Holds key ids leader asked c in
      let K = Holds key ids leader asked d in
      let grows : (f : Fact) → H f → K f = Holds-grows d kept in
      record {
        peers =
            at_update (λ i (n : Node). HasPeers ids n) c.node j r.2
              (HasPeers-same ids r.2 (c.node j) l.peers (ok.peers j)) (λ i e. ok.peers i);
        backed =
            at_update (λ i (s : KafkaNode). AllBacked key ids K s) c.state j r.1 l.backed
              (λ i e o p h. IsBacked-grows key ids H K grows o p (ok.backed i o p h));
        traffic =
            All-append _ r.0 c.sent l.messages
              (All-imp (λ m. Tells-grows key ids H K grows m.src m.dest m.body) c.sent ok.traffic);
      }
