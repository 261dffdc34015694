-- ===== src/GrowOnlyCounter/Cluster/Informs.antt =====
-- Every step of the cluster keeps what the nodes believe of each other so, or on the way.
use glome_rs.Base.{
  All-get_elem?, List, String, [], arith, inl, nat_eq, not, pair_eq, refl, retain, string_eq, ℕ,
  ◌==◌, ◌∷◌, ◌≡◌,
}
use glome_rs.Collections.HashMap.{HashMap, get, get_or, or_insert, get-or_insert}
use glome_rs.Maelstrom.Message.{MessageBody}
use glome_rs.Maelstrom.Node.{handle_init, init_ok, next_msg_id}
use glome_rs.GrowOnlyCounter.{prepare_peers, handle_body, handle}
use glome_rs.GrowOnlyCounter.Cluster.Traffic.{Carries}
use glome_rs.GrowOnlyCounter.Cluster.Invariant.{IsConsistent}
use glome_rs.GrowOnlyCounter.Cluster.Steps.{Reach-IsConsistent}
use glome_rs.GrowOnlyCounter.Cluster.Reads.{heard_of}
use glome_rs.GrowOnlyCounter.Cluster.Informed.{Tells, IsInformed, Onward}
use glome_rs.GrowOnlyCounter.Cluster.{Cluster, Step, start, Reach}
use glome_rs.GrowOnlyCounter.Cluster.Responses.{tick-Onward, adds, deliver_body}

prepare_peers_nothing :
    (known : HashMap String (HashMap String ℕ)) (peers : List String)
    → ((j : String) → get_or [] j known ≡ [])
    → (j : String) → get_or [] j (prepare_peers known peers) ≡ []
unfolding prepare_peers get_or
prepare_peers_nothing known [] h j = h j
prepare_peers_nothing known (p ∷ peers) h j =
    prepare_peers_nothing (or_insert p [] known) peers
      (λ q. ground (arith, get-or_insert p q [] known, h q, h p)) j

module _ {V : Type 0} (ids : List String) where
  start-IsInformed : IsInformed {V = V} ids (start ids)
  unfolding handle handle_body handle_init init_ok next_msg_id
  start-IsInformed = record {
    peers = λ i. refl;
    beliefs = λ i j k. inl (
        rw
          (prepare_peers_nothing [] (retain (λ p. not (p == i)) ids)
            (λ q. unfold get_or get in refl) j)
          (unfold get_or get in omega arith));
    traffic = tt;
  }

  pub Step-Onward :
      {c d : Cluster V} → Step c d → IsConsistent c → IsInformed ids c → Onward ids c d
  Step-Onward {c} (Step.add i client n delta small room) ok inf =
      let more = adds ids c inf i client n delta (ok.names i) room (ok.owns i) in
      (record { peers = more.0.peers; beliefs = more.0.beliefs; traffic = more.0.traffic }, more.1)
  Step-Onward {c} (Step.read i client n) ok inf =
      unfold handle in
      deliver_body ids c inf i (record { src = client; dest = i; body = MessageBody.read n })
        (MessageBody.read n) tt tt
  Step-Onward {c} (Step.tick i) ok inf = tick-Onward ids c inf i (ok.names i) (ok.ledgers i).keyed
  Step-Onward {c} (Step.deliver k m e) ok inf =
      unfold handle in
      deliver_body ids c inf m.dest m m.body
        (All-get_elem? (λ o. Carries c.added o.body) c.net.sent k m ok.traffic e)
        (All-get_elem? (λ o. Tells (heard_of c) o.src o.body) c.net.sent k m inf.traffic e)

  pub Reach-IsInformed : {c : Cluster V} → Reach ids c → IsInformed ids c
  Reach-IsInformed Reach.here = start-IsInformed
  Reach-IsInformed (Reach.next r st) =
      (Step-Onward st (Reach-IsConsistent r) (Reach-IsInformed r)).0
