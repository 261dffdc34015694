-- ===== src/MultiNodeKafka/Cluster/Acknowledged.antt =====
-- What the leader leaves after a send and after an acknowledgement: each pending send is backed by
-- the nodes that it counts, and each answer to a client by a quorum.
use glome_rs.Base.{
  All-append, Bool-cases, List, Option-cases, String, [], add64, arith, beq_refl, false, inl, inr,
  leb, nat_beq, nat_eq, pair_eq, refl, some, string_eq, subst, true, ℕ, ◌==◌, ◌∷◌, ◌≡◌,
}
use glome_rs.Collections.HashMap.{get, insert, get-insert, get-remove}
use glome_rs.Collections.HashSet.{contains, contains-insert, insert-IsHashSet}
use glome_rs.Maelstrom.Message.{Message}
use glome_rs.Maelstrom.Node.{Node, next_msg_id}
use glome_rs.Maelstrom.Log.{append_local}
use glome_rs.MultiNodeKafka.{
  Pending, KafkaNode, quorum, replicate_to, lead_send, acknowledge, handle_replicate_ok,
}
use glome_rs.MultiNodeKafka.Acks.{
  length-insert, credited, acknowledge_again, acknowledge_more, acknowledge_enough,
}
use glome_rs.MultiNodeKafka.Pendings.{replicate_to-peers}
use glome_rs.MultiNodeKafka.Cluster.Holders.{Fact, IsBacked, TellsAll, AllBacked, HasPeers, Leaves}

quorum-same : (n m : Node) → n.peers ≡ m.peers → quorum n ≡ quorum m
unfolding quorum
quorum-same n m e = rw e refl

module _ (V : Type 0) (key : String) (ids : List String) (H : Fact → Type 0) (s : KafkaNode)
    (node : Node) (has : HasPeers ids node) (ok : AllBacked key ids H s) where
  abbrev Left : List (Message V) × KafkaNode × Node → Type 0
  Left r = Leaves key ids H node r

  insert-AllBacked :
      (offset : ℕ) (p : Pending)
      → IsBacked key ids H offset p
      → (o : ℕ) (q : Pending) → get o (insert offset p s.pendings) ≡ some q
      → IsBacked key ids H o q
  insert-AllBacked offset p b o q e = elim (Bool-cases (nat_beq offset o)) [
    | inl here ↦
        let same : p ≡ q = ground (arith, get-insert offset o p s.pendings) in
        let at : offset ≡ o = ground arith in
        subst (λ i. IsBacked key ids H i q) at (subst (IsBacked key ids H offset) same b)
    | inr there ↦ ok o q (ground (arith, get-insert offset o p s.pendings))
  ]

  credited-IsBacked :
      (src : String) (offset : ℕ) (p : Pending)
      → contains src p.from ≡ false
      → H (Fact.holding src offset)
      → IsBacked key ids H offset p
      → IsBacked key ids H offset (credited p src)
  credited-IsBacked src offset p fresh held b = record {
    answers = b.answers;
    counted = ground (arith, length-insert src p.from, b.counted);
    distinct = insert-IsHashSet src p.from b.distinct;
    holders = λ i e. elim (Bool-cases (src == i)) [
      | inl same ↦ subst (λ i. H (Fact.holding i offset)) ((string_eq.beq_iff src i).0 same) held
      | inr other ↦ b.holders i (ground (arith, contains-insert src i p.from))
    ];
  }

  acknowledges :
      (src : String) (offset : ℕ) (p : Pending)
      → H (Fact.holding src offset)
      → IsBacked key ids H offset p
      → Left (acknowledge s node src offset p)
  acknowledges src offset p held b = elim (Bool-cases (contains src p.from)) [
    | inl old ↦
        rw (acknowledge_again V s node src offset p old)
          (record { peers = refl; backed = ok; messages = tt })
    | inr fresh ↦
        let b' = credited-IsBacked src offset p fresh held b in
        elim (Bool-cases (leb (quorum node) (add64 p.acks 1))) [
          | inl enough ↦ rw (acknowledge_enough V s node src offset p fresh enough) (record {
            peers = unfold next_msg_id in refl;
            backed = λ o q e. ok o q (ground (arith, get-remove offset o s.pendings));
            messages = (
              (
                record {
                  names = (credited p src).from;
                  distinct = b'.distinct;
                  most = ground (arith, has.quorums, b'.counted);
                  holders = b'.holders;
                },
                b.answers,
              ),
              tt,
            );
          })
          | inr below ↦ rw (acknowledge_more V s node src offset p fresh below) (record {
            peers = refl;
            backed = insert-AllBacked offset (credited p src) b';
            messages = tt;
          })
        ]
  ]

  pub handle_replicate_ok-Leaves :
      (src : String) (offset : ℕ)
      → H (Fact.holding src offset)
      → Left (handle_replicate_ok s node src offset)
  unfolding handle_replicate_ok
  handle_replicate_ok-Leaves src offset held = elim (Option-cases (get offset s.pendings)) [
    | inl e ↦ rw (e, handle_replicate_ok) (record { peers = refl; backed = ok; messages = tt })
    | inr (p, e) ↦ rw (e, handle_replicate_ok) (acknowledges src offset p held (ok offset p e))
  ]

  module _ (client : String) (n : ℕ) (msg : ℕ) where
    replicate_to-Tells :
        (m : Node) (offset : ℕ) (peers : List String)
        → ((p : String) → contains p peers ≡ true → contains p ids ≡ true)
        → TellsAll key ids H (replicate_to {V = V} m key msg offset peers).0
    unfolding replicate_to next_msg_id contains
    replicate_to-Tells m offset [] within = tt
    replicate_to-Tells m offset (peer ∷ peers) within = (
      (refl, within peer (ground (arith, beq_refl peer))),
      replicate_to-Tells (next_msg_id m).1 offset peers (λ p e. within p (ground arith)),
    )

    pub lead_send-Leaves :
        let offset = (append_local s.logs key msg).0 in
        H (Fact.holding node.id offset)
        → H (Fact.answering client n offset)
        → Left (lead_send s node client n key msg)
    unfolding lead_send next_msg_id
    lead_send-Leaves held answers =
        let (offset, logs) = append_local s.logs key msg in
        let pending : Pending = record {
          client = client;
          client_msg_id = n;
          acks = 1;
          from = node.id ∷ [];
        } in
        let (out, node') = replicate_to {V = V} node key msg offset node.peers in
        let told = replicate_to-Tells node offset node.peers has.peers in
        let same : node'.peers ≡ node.peers = replicate_to-peers V node key msg offset node.peers in
        let first : IsBacked key ids H offset pending = record {
          answers = answers;
          counted = omega arith;
          distinct = (unfold contains in refl, tt);
          holders = λ i e.
              subst (λ i. H (Fact.holding i offset))
                ((string_eq.beq_iff node.id i).0 (unfold contains in ground (arith, e))) held;
        } in
        let backed = insert-AllBacked offset pending first in
        elim (Bool-cases (leb (quorum node') 1)) [
          | inl alone ↦ rw alone (record {
            peers = same;
            backed = λ o q e.
                backed o q (ground (arith, get-remove offset o (insert offset pending s.pendings)));
            messages = All-append _ out _ told (
              (
                record {
                  names = node.id ∷ [];
                  distinct = first.distinct;
                  most = ground (arith, has.quorums, quorum-same node' node same);
                  holders = first.holders;
                },
                answers,
              ),
              tt,
            );
          })
          | inr waits ↦ rw waits (record { peers = same; backed = backed; messages = told })
        ]
