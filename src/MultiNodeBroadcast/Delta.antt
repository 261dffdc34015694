-- ===== src/MultiNodeBroadcast/Delta.antt =====
-- The gossip of the broadcast node: what is sent, and what is sent again.
use glome_rs.Base.{
  Bool-cases, List, String, [], ap, arith, beq_refl, false, if◌then◌else◌, inl, inr, is_empty,
  length, length-take, nat_eq, not, pair_eq, refl, retain, string_eq, sym, take_all, true, ℕ, ◌&&◌,
  ◌++◌, ◌==◌, ◌||◌, ◌∙◌, ◌∷◌, ◌≡◌, ◌≤◌,
}
use glome_rs.Collections.HashMap.{get_or, get-insert, get-or_insert}
use glome_rs.Collections.HashSet.{HashSet, contains, contains-retain, contains-take}
use glome_rs.Maelstrom.Message.{Message, MessageBody}
use glome_rs.Maelstrom.Node.{Node}
use glome_rs.MultiNodeBroadcast.{
  MultiNodeBroadcastNode, delta_for, gossip_peer, gossip_all, gossip, handle_broadcast_gossip_from,
  insert_all,
}
use glome_rs.MultiNodeBroadcast.Messages.{contains-insert_all}

-- The messages that the peer is not believed to have.
abbrev pub unseen : HashSet ℕ → HashSet ℕ → List ℕ
unseen messages seen = retain (λ m. not (contains m seen)) messages

-- A delta has at most 1024 messages, and each one in it is held and not believed seen.
pub delta_for_bounds :
    (messages seen : HashSet ℕ) (m : ℕ)
    → contains m (delta_for messages seen) ≡ true
    → (length (delta_for messages seen) ≤ 1024)
      × (contains m messages ≡ true)
      × (contains m seen ≡ false)
delta_for_bounds messages seen m h =
    let held : contains m (unseen messages seen) ≡ true =
      unfold delta_for in contains-take m 1024 (unseen messages seen) h in
    let (here, fresh) : (contains m messages ≡ true) × (contains m seen ≡ false) =
      ground (arith, contains-retain m (λ x. not (contains x seen)) messages) in
    (unfold delta_for in omega (arith, length-take 1024 (unseen messages seen)), here, fresh)

-- Where at most 1024 messages are held and not believed seen, the delta has them all.
pub delta_for_all :
    (messages seen : HashSet ℕ) (m : ℕ)
    → length (unseen messages seen) ≤ 1024
    → contains m (delta_for messages seen) ≡ (contains m messages && not (contains m seen))
delta_for_all messages seen m few =
    unfold delta_for in
    rw (take_all 1024 (unseen messages seen) few)
      (ground (arith, contains-retain m (λ x. not (contains x seen)) messages))

-- What the node believes that the peer has.
abbrev pub believed : MultiNodeBroadcastNode → String → HashSet ℕ
believed s peer = get_or [] peer s.peer_seen

-- The recipients and the values of a round of gossip.
abbrev pub round : MultiNodeBroadcastNode → List String → List (String × List ℕ)
round s [] = []
round s (peer ∷ peers) =
    let rest = round s peers in
    let delta = delta_for s.messages (believed s peer) in
    if is_empty delta then rest else (peer, delta) ∷ rest

abbrev pub values_of : {V : Type 0} → MessageBody V → List ℕ
values_of (MessageBody.broadcast_gossip _ values) = values
values_of _ = []

abbrev pub sent : {V : Type 0} → List (Message V) → List (String × List ℕ)
sent [] = []
sent (o ∷ os) = (o.dest, values_of o.body) ∷ sent os

sent-append : {V : Type 0} (xs ys : List (Message V)) → sent (xs ++ ys) ≡ sent xs ++ sent ys
sent-append [] ys = refl
sent-append (x ∷ xs) ys = ap (◌∷◌ (x.dest, values_of x.body)) (sent-append xs ys)

-- Two states that gossip alike: the same values, the same neighbours, the same beliefs.
pub record Alike (s t : MultiNodeBroadcastNode) : Type 0 where
  pub messages : t.messages ≡ s.messages
  pub gossip_peers : t.gossip_peers ≡ s.gossip_peers
  pub beliefs : (peer : String) → believed t peer ≡ believed s peer

Alike-trans : (s t u : MultiNodeBroadcastNode) → Alike s t → Alike t u → Alike s u
Alike-trans s t u a b = record {
  messages = b.messages ∙ a.messages;
  gossip_peers = b.gossip_peers ∙ a.gossip_peers;
  beliefs = λ peer. b.beliefs peer ∙ a.beliefs peer;
}

round-Alike :
    (s t : MultiNodeBroadcastNode) (peers : List String) → Alike s t → round t peers ≡ round s peers
round-Alike s t [] a = refl
round-Alike s t (peer ∷ peers) a = rw (a.messages, a.beliefs peer, round-Alike s t peers a) refl

module _ (V : Type 0) where
  pub gossip_peer_lem :
      (s : MultiNodeBroadcastNode) (node : Node) (peer : String)
      → (sent (gossip_peer {V = V} s node peer).0 ≡ round s (peer ∷ []))
        × Alike s (gossip_peer {V = V} s node peer).1
  unfolding gossip_peer get_or
  gossip_peer_lem s node peer = (
    ground arith,
    record {
      messages = ground arith;
      gossip_peers = ground arith;
      beliefs = λ q. ground (arith, get-or_insert peer q [] s.peer_seen, string_eq.beq_iff peer q);
    },
  )

  pub gossip_all_lem :
      (s : MultiNodeBroadcastNode) (node : Node) (peers : List String)
      → (sent (gossip_all {V = V} s node peers).0 ≡ round s peers)
        × Alike s (gossip_all {V = V} s node peers).1
  unfolding gossip_all
  gossip_all_lem s node [] =
      (refl, record { messages = refl; gossip_peers = refl; beliefs = λ q. refl })
  gossip_all_lem s node (peer ∷ peers) =
      let (msgs, s', node') = gossip_peer {V = V} s node peer in
      let (first, alike) = gossip_peer_lem s node peer in
      let (rest, alike') = gossip_all_lem s' node' peers in
      (
        sent-append msgs (gossip_all {V = V} s' node' peers).0
            ∙ ground (arith, first, rest, round-Alike s s' peers alike),
        Alike-trans s s' (gossip_all {V = V} s' node' peers).1 alike alike',
      )

  round_none :
      (s : MultiNodeBroadcastNode) (peers : List String) → s.messages ≡ [] → round s peers ≡ []
  round_none s [] e = refl
  round_none s (peer ∷ peers) e =
      let nothing : delta_for s.messages (believed s peer) ≡ [] = unfold delta_for in rw e refl in
      rw (nothing, round_none s peers e) refl

  idle_round :
      (s : MultiNodeBroadcastNode) (peers : List String) (messages : HashSet ℕ)
      → s.messages ≡ messages
      → (is_empty peers || is_empty messages) ≡ true
      → round s peers ≡ []
  idle_round s [] messages e h = refl
  idle_round s (peer ∷ peers) [] e h = round_none s (peer ∷ peers) e
  idle_round s (peer ∷ peers) (m ∷ messages) e h = cc

  -- A named node sends each neighbour the values that it is not believed to have, up to 1024, and
  -- nothing to a neighbour for which there are none; it believes and holds the same afterwards.
  pub gossip_sends :
      (s : MultiNodeBroadcastNode) (node : Node)
      → (node.id == "") ≡ false
      → (sent (gossip {V = V} s node).0 ≡ round s s.gossip_peers)
        × Alike s (gossip {V = V} s node).1
  unfolding gossip
  gossip_sends s node named = elim (Bool-cases (is_empty s.gossip_peers || is_empty s.messages)) [
    | inl idle ↦
        rw (named, idle)
          (
            sym (idle_round s s.gossip_peers s.messages refl idle),
            record { messages = refl; gossip_peers = refl; beliefs = λ q. refl },
          )
    | inr busy ↦ rw (named, busy) (gossip_all_lem s node s.gossip_peers)
  ]

  -- A second round of a named node, with nothing received in between, sends the same values to the
  -- same neighbours again.
  pub gossip_repeats :
      (s : MultiNodeBroadcastNode) (node later : Node)
      → (node.id == "") ≡ false
      → (later.id == "") ≡ false
      → sent (gossip {V = V} (gossip {V = V} s node).1 later).0 ≡ sent (gossip {V = V} s node).0
  gossip_repeats s node later named named' =
      let (first, alike) = gossip_sends s node named in
      let s' = (gossip {V = V} s node).1 in
      (gossip_sends s' later named').0
      ∙ rw alike.gossip_peers (round-Alike s s' s.gossip_peers alike)
      ∙ sym first

-- What came from a neighbour is not sent back to it.
pub delta_for-received :
    (s : MultiNodeBroadcastNode) (peer : String) (messages : List ℕ) (m : ℕ)
    → contains m messages ≡ true
    → let s' = handle_broadcast_gossip_from s peer messages in
      contains m (delta_for s'.messages (believed s' peer)) ≡ false
delta_for-received s peer messages m h =
    let s' = handle_broadcast_gossip_from s peer messages in
    let known : contains m (believed s' peer) ≡ true =
      unfold handle_broadcast_gossip_from get_or in
      ground (
        arith,
        get-insert peer peer (insert_all (get_or [] peer s.peer_seen) messages) s.peer_seen,
        beq_refl peer,
        contains-insert_all (get_or [] peer s.peer_seen) messages m,
      ) in
    ground (arith, known, delta_for_bounds s'.messages (believed s' peer) m)
