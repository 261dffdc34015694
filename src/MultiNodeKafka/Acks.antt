-- ===== src/MultiNodeKafka/Acks.antt =====
-- The acknowledgements that the leader counts, and when it answers its client.
use glome_rs.Base.{
  Bool-cases, Option-cases, String, [], add64, arith, false, if◌then◌else◌, inl, inr, leb, length,
  length-append, nat_beq, nat_eq, pair_eq, refl, some, string_eq, subst, true, u64_mod, ℕ, ◌+◌, ◌<◌,
  ◌∷◌, ◌≡◌, ◌≢◌, ◌≤◌,
}
use glome_rs.Collections.HashMap.{get, insert, remove, get-insert, get-remove}
use glome_rs.Collections.HashSet
use glome_rs.Collections.HashSet.{HashSet, contains, is_new, IsHashSet, insert-IsHashSet}
use glome_rs.Maelstrom.Message.{MessageBody}
use glome_rs.Maelstrom.Node.{Node, next_msg_id, reply}
use glome_rs.MultiNodeKafka.{Pending, KafkaNode, quorum, acknowledge, handle_replicate_ok}

-- The count of a pending send is the length of its list `from`, in which no node stands twice. An
-- acknowledgement names an offset and no key, so the list tells who acknowledged that offset.
pub record IsCounted (p : Pending) : Type 0 where
  pub counted : p.acks ≡ length p.from
  pub distinct : IsHashSet p.from

pub record IsValid (s : KafkaNode) : Type 0 where
  pub pending : (offset : ℕ) (p : Pending) → get offset s.pendings ≡ some p → IsCounted p

pub length-insert :
    (src : String) (set : HashSet String)
    → length (HashSet.insert src set) ≡ (if contains src set then length set else length set + 1)
unfolding HashSet.insert
length-insert src set = ground (arith, length-append set (src ∷ []))

insert-IsCounted :
    (p : Pending) (src : String)
    → IsCounted p
    → contains src p.from ≡ false
    → length p.from + 1 < u64_mod
    → IsCounted (record p { from = HashSet.insert src p.from; acks = add64 p.acks 1 })
insert-IsCounted p src c fresh room = record {
  counted = ground (arith, length-insert src p.from, c.counted);
  distinct = insert-IsHashSet src p.from c.distinct;
}

-- The pending send with one more acknowledgement.
abbrev pub credited : Pending → String → Pending
credited p src = record p { from = HashSet.insert src p.from; acks = add64 p.acks 1 }

module _ (V : Type 0) where
  module _ (s : KafkaNode) (node : Node) (src : String) (offset : ℕ) (p : Pending) where
    pub acknowledge_again :
        contains src p.from ≡ true → acknowledge {V = V} s node src offset p ≡ ([], s, node)
    unfolding acknowledge is_new
    acknowledge_again h = rw h refl

    pub acknowledge_more :
        contains src p.from ≡ false
        → leb (quorum node) (add64 p.acks 1) ≡ false
        → acknowledge {V = V} s node src offset p
          ≡ ([], record s { pendings = insert offset (credited p src) s.pendings }, node)
    unfolding acknowledge is_new
    acknowledge_more h below = rw (h, below) refl

    pub acknowledge_enough :
        contains src p.from ≡ false
        → leb (quorum node) (add64 p.acks 1) ≡ true
        → acknowledge {V = V} s node src offset p ≡ (
          record {
            src = node.id;
            dest = p.client;
            body = MessageBody.send_ok (add64 node.msg_id 1) p.client_msg_id offset;
          }
              ∷ [],
          record s { pendings = remove offset s.pendings },
          (next_msg_id node).1,
        )
    unfolding acknowledge is_new next_msg_id reply
    acknowledge_enough h enough = rw (h, enough) refl

    acknowledge-IsValid :
        IsValid s
        → IsCounted p
        → length p.from + 1 < u64_mod
        → IsValid (acknowledge {V = V} s node src offset p).1
    acknowledge-IsValid v c room = elim (Bool-cases (contains src p.from)) [
      | inl old ↦ rw (acknowledge_again old) v
      | inr fresh ↦ elim (Bool-cases (leb (quorum node) (add64 p.acks 1))) [
        | inl enough ↦ rw (acknowledge_enough fresh enough) (record {
          pending = λ o q e. v.pending o q (ground (arith, get-remove offset o s.pendings));
        })
        | inr below ↦ rw (acknowledge_more fresh below) (record {
          pending = λ o q e. elim (Bool-cases (nat_beq offset o)) [
            | inl here ↦
                let same : credited p src ≡ q =
                  ground (arith, get-insert offset o (credited p src) s.pendings) in
                subst IsCounted same (insert-IsCounted p src c fresh room)
            | inr there ↦
                v.pending o q (ground (arith, get-insert offset o (credited p src) s.pendings))
          ];
        })
      ]
    ]

  -- An acknowledgement of an offset keeps, for every pending send, the count equal to the length of
  -- its list `from`, in which no node stands twice; if the send pending under that offset has fewer
  -- than 2^64 - 1 nodes in its list.
  pub handle_replicate_ok-IsValid :
      (s : KafkaNode) (node : Node) (src : String) (offset : ℕ)
      → IsValid s
      → ((p : Pending) → get offset s.pendings ≡ some p → length p.from + 1 < u64_mod)
      → IsValid (handle_replicate_ok {V = V} s node src offset).1
  unfolding handle_replicate_ok
  handle_replicate_ok-IsValid s node src offset v room =
      elim (Option-cases (get offset s.pendings)) [
        | inl e ↦ rw (e, handle_replicate_ok) v
        | inr (p, e) ↦
            rw (e, handle_replicate_ok)
              (acknowledge-IsValid s node src offset p v (v.pending offset p e) (room p e))
      ]

  -- Where the count of every pending send is the length of its list `from`, in which no node stands
  -- twice, and the send pending under an offset has fewer than 2^64 - 1 nodes in its list: an
  -- acknowledgement of that offset to which the leader sends anything comes from a node that is not
  -- in the list of the send pending under it, and with this node the list has at least a quorum of
  -- different nodes. What is sent is one answer, to the client of that send, which cites its
  -- request; and the send is pending no more.
  pub send_ok_needs_quorum :
      (s : KafkaNode) (node : Node) (src : String) (offset : ℕ)
      → IsValid s
      → ((p : Pending) → get offset s.pendings ≡ some p → length p.from + 1 < u64_mod)
      → (handle_replicate_ok {V = V} s node src offset).0 ≢ []
      → (p : Pending) × (get offset s.pendings ≡ some p)
        × (contains src p.from ≡ false)
        × (quorum node ≤ length (HashSet.insert src p.from))
        × IsHashSet (HashSet.insert src p.from)
        × (handle_replicate_ok {V = V} s node src offset ≡ (
          record {
            src = node.id;
            dest = p.client;
            body = MessageBody.send_ok (add64 node.msg_id 1) p.client_msg_id offset;
          }
              ∷ [],
          record s { pendings = remove offset s.pendings },
          (next_msg_id node).1,
        ))
  unfolding handle_replicate_ok
  send_ok_needs_quorum s node src offset v room answered =
      elim (Option-cases (get offset s.pendings)) [
        | inl e ↦ absurd (answered (rw (e, handle_replicate_ok) refl))
        | inr (p, e) ↦ elim (Bool-cases (contains src p.from)) [
          | inl old ↦ absurd (
              answered
                (rw (e, handle_replicate_ok, acknowledge_again s node src offset p old) refl))
          | inr fresh ↦ elim (Bool-cases (leb (quorum node) (add64 p.acks 1))) [
            | inl enough ↦
                let counts = insert-IsCounted p src (v.pending offset p e) fresh (room p e) in
                (
                  p,
                  e,
                  fresh,
                  ground (arith, counts.counted),
                  counts.distinct,
                  rw (e, handle_replicate_ok) (acknowledge_enough s node src offset p fresh enough),
                )
            | inr below ↦ absurd (
                answered (
                  rw (e, handle_replicate_ok, acknowledge_more s node src offset p fresh below)
                    refl))
          ]
        ]
      ]
