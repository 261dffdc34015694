-- ===== src/MultiNodeKafka/Cluster/Answered.antt =====
-- What an answered send promises, in a run whose clients send to one key.
use glome_rs.Base.{
  All-get_elem?, List, Stands, String, [], arith, get_elem?, length, nat_eq, none, not, pair_eq,
  refl, retain, some, string_eq, subst, sym, true, ℕ, ◌+◌, ◌<◌, ◌==◌, ◌∙◌, ◌∷◌, ◌≡◌,
}
use glome_rs.Collections.HashMap.{get}
use glome_rs.Collections.HashSet.{contains, IsHashSet, contains-retain, length-retain_one}
use glome_rs.Maelstrom.Message.{MessageBody}
use glome_rs.Maelstrom.Node
use glome_rs.Maelstrom.Node.{init_ok, next_msg_id}
use glome_rs.Maelstrom.Log.Replication.{entry_at}
use glome_rs.MultiNodeKafka.Leader.{sort, contains-sort}
use glome_rs.MultiNodeKafka
use glome_rs.MultiNodeKafka.{first, quorum, handle, handle_body}
use glome_rs.MultiNodeKafka.Cluster.{Cluster, Step, started, start, Reach}
use glome_rs.MultiNodeKafka.Cluster.Agreement.{started_lem, Step-IsConsistent, Reach-IsConsistent}
use glome_rs.MultiNodeKafka.Cluster.Holders.{
  Fact, asked-IsDurable, Holds, HasMajority, Tells, IsDurable,
}
use glome_rs.MultiNodeKafka.Cluster.Durable.{handle-IsDurable}

-- A request of a client that sends to the key alone.
abbrev pub SendsTo : {V : Type 0} → String → MessageBody V → Type 0
SendsTo key (MessageBody.send _ k _) = k ≡ key
SendsTo key (MessageBody.poll _ _) = Unit
SendsTo key (MessageBody.commit_offsets _ _) = Unit
SendsTo key (MessageBody.list_committed_offsets _ _) = Unit
SendsTo key _ = ⊥

-- Every request of the run is one.
abbrev pub OnOneKey :
    {V : Type 0} {leader : String} {ids : List String} {c : Cluster V}
    → String
    → Reach leader ids c
    → Type 0
OnOneKey key Reach.here = Unit
OnOneKey key (Reach.next r (Step.request m h room)) = SendsTo key m.body × OnOneKey key r
OnOneKey key (Reach.next r (Step.deliver k m e room)) = OnOneKey key r

-- The sends among the requests of the run, the last one first: client, message id and message.
abbrev pub and_asked :
    {V : Type 0} → String → MessageBody V → List (String × ℕ × ℕ) → List (String × ℕ × ℕ)
and_asked src (MessageBody.send n _ msg) asked = (src, n, msg) ∷ asked
and_asked src _ asked = asked

abbrev pub asked :
    {V : Type 0} {leader : String} {ids : List String} {c : Cluster V}
    → Reach leader ids c
    → List (String × ℕ × ℕ)
asked Reach.here = []
asked (Reach.next r (Step.request m h room)) = and_asked m.src m.body (asked r)
asked (Reach.next r (Step.deliver k m e room)) = asked r

SendsTo-Tells :
    {V : Type 0} (key : String) (ids : List String) (H : Fact → Type 0) (src dest : String)
    (body : MessageBody V)
    → SendsTo key body
    → ((k : String) (n msg : ℕ) → body ≡ MessageBody.send n k msg → H (Fact.asking src n msg))
    → Tells key ids H src dest body
SendsTo-Tells key ids H src dest (MessageBody.send n k msg) h asks = (h, asks k n msg refl)
SendsTo-Tells key ids H src dest (MessageBody.poll _ _) h asks = tt
SendsTo-Tells key ids H src dest (MessageBody.commit_offsets _ _) h asks = tt
SendsTo-Tells key ids H src dest (MessageBody.list_committed_offsets _ _) h asks = tt
SendsTo-Tells key ids H src dest _ h asks = absurd h

first-contains : (x : String) (xs : List String) → first xs ≡ some x → contains x xs ≡ true
unfolding first contains
first-contains x [] e = cc
first-contains x (y ∷ ys) e = ground (arith, e, string_eq.beq_iff y x)

leader-contains :
    (leader : String) (ids : List String)
    → first (sort ids) ≡ some leader
    → contains leader ids ≡ true
leader-contains leader ids e = sym (contains-sort leader ids) ∙ first-contains leader (sort ids) e

started_peers :
    (V : Type 0) (leader : String) (ids : List String) (i : String)
    → first (sort ids) ≡ some leader
    → (started {V = V} ids i).2.peers ≡ retain (λ p. not (p == i)) ids
unfolding handle handle_body MultiNodeKafka.handle_init init_ok next_msg_id Node.handle_init
started_peers V leader ids i least = rw (started, least) refl

module _ {V : Type 0} {leader : String} (key : String) (ids : List String) (set : IsHashSet ids)
    (least : first (sort ids) ≡ some leader) where
  start-IsDurable : IsDurable key ids leader [] (start {V = V} ids)
  unfolding quorum
  start-IsDurable = record {
    peers = λ i. record {
      quorums =
          rw (started_peers V leader ids i least) (omega (arith, length-retain_one i ids set));
      peers = λ p.
          rw (started_peers V leader ids i least)
            (λ e. ground (arith, contains-retain p (λ q. not (q == i)) ids));
    };
    backed = λ i o p h.
        let empty : get o (started {V = V} ids i).1.pendings ≡ none =
          rw (started_lem V leader ids i least).0 (unfold get in refl) in
        absurd (cc (h, empty));
    traffic = tt;
  }

  and_asked-IsDurable :
      (c : Cluster V) (before : List (String × ℕ × ℕ)) (src : String) (body : MessageBody V)
      → IsDurable key ids leader before c
      → IsDurable key ids leader (and_asked src body before) c
  and_asked-IsDurable c before src (MessageBody.send n k msg) h =
      asked-IsDurable key ids leader before c (src, n, msg) h
  and_asked-IsDurable c before src _ h = h

  Reach-IsDurable :
      {c : Cluster V}
      → (r : Reach leader ids c) → OnOneKey key r
      → IsDurable key ids leader (asked r) c
  Reach-IsDurable Reach.here h = start-IsDurable
  Reach-IsDurable (Reach.next {c = c} r (Step.request m h room)) (to_key, before) =
      let durable : IsDurable key ids leader (and_asked m.src m.body (asked r)) c =
        and_asked-IsDurable c (asked r) m.src m.body (Reach-IsDurable r before) in
      handle-IsDurable key ids leader (asked (Reach.next r (Step.request m h room)))
        (leader-contains leader ids least) c (Reach-IsConsistent least r) durable m.dest m
        (SendsTo-Tells key ids
          (Holds key ids leader (asked (Reach.next r (Step.request m h room))) c) m.src m.dest
          m.body to_key
          (λ k n msg e.
            subst (λ b. Stands (and_asked m.src b (asked r)) (m.src, n, msg)) (sym e) (0, refl)))
        (Step-IsConsistent (Step.request m h room) (Reach-IsConsistent least r)).1
  Reach-IsDurable (Reach.next {c = c} r (Step.deliver k m e room)) before =
      let durable = Reach-IsDurable r before in
      handle-IsDurable key ids leader (asked r) (leader-contains leader ids least) c
        (Reach-IsConsistent least r) durable m.dest m
        (All-get_elem? (λ o. Tells key ids (Holds key ids leader (asked r) c) o.src o.dest o.body)
          c.sent k m durable.traffic e)
        (Step-IsConsistent (Step.deliver k m e room) (Reach-IsConsistent least r)).1

  -- In a run whose node ids are distinct and whose leader is the least of them, where no log of the
  -- leader is full and clients send to one key alone, read and commit, every answer to a send that
  -- a node gave cites a request of its client in which the client asked for a message to be stored,
  -- and more than half of the nodes hold this message, at the offset of the answer.
  pub answered_is_held :
      {c : Cluster V} (k n in_reply_to offset : ℕ) (src client : String)
      → (r : Reach leader ids c) → OnOneKey key r
      → get_elem? c.sent k
        ≡ some
            (record { src = src; dest = client; body = MessageBody.send_ok n in_reply_to offset })
      → (msg : ℕ) × (names : List String) × Stands (asked r) (client, in_reply_to, msg)
        × IsHashSet names
        × (length ids < length names + length names)
        × ((i : String)
            → contains i names ≡ true
            → (contains i ids ≡ true) × (entry_at (c.state i).logs key offset ≡ some msg))
  answered_is_held {c} k n in_reply_to offset src client r h e =
      let ok = Reach-IsConsistent least r in
      let H = Holds key ids leader (asked r) c in
      let (held, (msg, leads, asks)) : HasMajority key ids H offset
          × H (Fact.answering client in_reply_to offset) =
        All-get_elem? (λ o. Tells key ids H o.src o.dest o.body) c.sent k
          (record { src = src; dest = client; body = MessageBody.send_ok n in_reply_to offset })
          (Reach-IsDurable r h).traffic e in
      (
        msg,
        held.names,
        asks,
        held.distinct,
        held.most,
        λ j e.
            let (here, m, h) = held.holders j e in
            (here, ground (arith, h, leads, ok.replicas j key offset m h)),
      )
