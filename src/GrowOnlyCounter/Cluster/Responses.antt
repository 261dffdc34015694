-- ===== src/GrowOnlyCounter/Cluster/Responses.antt =====
-- Every response of a counter keeps what the nodes believe of each other so, or on the way.
use glome_rs.Base.{
  All, All-imp, Bool-cases, List, Option, String, [], arith, if◌then◌else◌, inl, inr, leb, length,
  nat_eq, none, pair_eq, refl, some, string_eq, subst, sym, u64_mod, ℕ, ◌+◌, ◌<◌, ◌==◌, ◌∷◌, ◌≡◌,
  ◌≤◌,
}
use glome_rs.Collections.HashMap.{HashMap, get, get_or, IsMap, get-insert}
use glome_rs.Maelstrom.Message.{Message, MessageBody, Counter}
use glome_rs.Maelstrom.Node.{Node, next_msg_id, reply}
use glome_rs.Maelstrom.Events.{Event}
use glome_rs.Maelstrom.Kv
use glome_rs.Maelstrom.Kv.{Kv, bump, merge_counters}
use glome_rs.Maelstrom.Kv.Merge.{newer, get-merge}
use glome_rs.GrowOnlyCounter.{
  GrowOnlyCounterNode, learn, gossip, handle_add, handle_read, handle_counter_gossip, handle_body,
  handle,
}
use glome_rs.GrowOnlyCounter.Delta.{version_of, get_or-learn}
use glome_rs.GrowOnlyCounter.Gossip.{believed}
use glome_rs.GrowOnlyCounter.Cluster.Ledger.{IsCurrent, with_add}
use glome_rs.GrowOnlyCounter.Cluster.Traffic.{Carries, kv-gossip}
use glome_rs.GrowOnlyCounter.Cluster.Steps.{get-add}
use glome_rs.GrowOnlyCounter.Cluster.Reads.{heard_of}
use glome_rs.GrowOnlyCounter.Cluster.Informed.{
  OnWay-first, OnWay-less, Informs, Tells, Tells-from, IsInformed, Onward, Informs-grows,
  heard_grows, settled-IsInformed,
}
use glome_rs.GrowOnlyCounter.Cluster.Rounds.{gossip-Justified, peers-gossip}
use glome_rs.GrowOnlyCounter.Cluster.{Cluster, settled, at, add_request}

pub newer_grows :
    (a b : Option Counter)
    → (version_of a ≤ version_of (newer a b)) × (version_of b ≤ version_of (newer a b))
newer_grows none b = (omega arith, omega arith)
newer_grows (some a) none = (omega arith, omega arith)
newer_grows (some a) (some b) = ground arith

with_add_grows :
    (ds : List ℕ) (delta : ℕ) (o : Option Counter)
    → length ds + 1 < u64_mod
    → IsCurrent ds o
    → version_of o ≤ version_of (with_add delta o)
with_add_grows ds delta none room h = omega arith
with_add_grows ds delta (some x) room h = omega (arith, h.0)

module _ {V : Type 0} (ids : List String) (c : Cluster V) (ok : IsInformed ids c) where
  abbrev Response : Type 0
  Response = List (Message V) × GrowOnlyCounterNode × Node

  abbrev Grows : String → Response → Type 0
  Grows i r =
      (k : String)
      → version_of (get k (c.net.state i).kv.counters) ≤ version_of (get k r.1.kv.counters)

  Informs-less :
      (d : Cluster V) (j k : String) (v w : ℕ) → v ≤ w → Informs d j k w → Informs d j k v
  Informs-less d j k v w low (inl h) = inl (omega arith)
  Informs-less d j k v w low (inr o) = inr (OnWay-less d.net.sent j k v w low o)

  pub tick-Onward :
      (i : String)
      → (c.net.node i).id ≡ i
      → IsMap (c.net.state i).kv.counters
      → Onward ids c (at c i Event.tick)
  tick-Onward i name keyed =
      let s = c.net.state i in
      let r : Response = gossip s (c.net.node i) in
      let (justified, within) = gossip-Justified V s (c.net.node i) keyed in
      let same : r.1.kv ≡ s.kv = kv-gossip V s (c.net.node i) in
      let grows : Grows i r = λ k. rw same (omega arith) in
      let here : (k : String)
          → version_of (get k s.kv.counters) ≤ heard_of (settled c i (some r)) i k =
        λ k. omega (arith, heard_grows ids c i r grows i k) in
      settled-IsInformed ids c i r ok (record {
        peers = peers-gossip V s (c.net.node i);
        grows = grows;
        beliefs = λ j k. elim (justified j k) [
          | inl low ↦
              Informs-less (settled c i (some r)) j k _ _ low
                (Informs-grows ids c i r grows j k _ (ok.beliefs i j k))
          | inr w ↦ inr (OnWay-first r.0 c.net.sent j k _ w)
        ];
        messages =
            All-imp
              (λ m.
                Tells-from (λ k. version_of (get k s.kv.counters)) (heard_of (settled c i (some r)))
                  i m.src m.body here)
              r.0
              (subst
                (λ a.
                  All
                    (λ m.
                      (m.src ≡ a) × Tells (λ j k. version_of (get k s.kv.counters)) m.src m.body)
                    r.0)
                name within);
      })

  -- A response that leaves the state as it is, and sends no gossip.
  idle :
      (i : String) (r : Response)
      → r.2.peers ≡ (c.net.node i).peers
      → r.1 ≡ c.net.state i
      → All (λ m. Tells (heard_of (settled c i (some r))) m.src m.body) r.0
      → Onward ids c (settled c i (some r))
  idle i r peers same messages =
      let grows : Grows i r = λ k. rw same (omega arith) in
      settled-IsInformed ids c i r ok (record {
        peers = peers;
        grows = grows;
        beliefs = λ j k. Informs-grows ids c i r grows j k _ (
            subst (λ (t : GrowOnlyCounterNode). Informs c j k (get_or 0 k (believed t j)))
              (sym same) (ok.beliefs i j k));
        messages = messages;
      })

  believed-handle_counter_gossip :
      (s : GrowOnlyCounterNode) (src q : String) (counters : HashMap String Counter)
      → believed (handle_counter_gossip s src counters) q
        ≡ (if src == q then learn (believed s src) counters else believed s q)
  unfolding handle_counter_gossip get_or
  believed-handle_counter_gossip s src q counters =
      ground (arith, get-insert src q (learn (believed s src) counters) s.peer_known_versions)

  takes_over :
      (j src : String) (counters : HashMap String Counter)
      → IsMap counters
      → ((k : String) → version_of (get k counters) ≤ heard_of c src k)
      → let r : Response = ([], handle_counter_gossip (c.net.state j) src counters, c.net.node j) in
        Onward ids c (settled c j (some r))
  unfolding handle_counter_gossip Kv.merge
  takes_over j src counters keyed told =
      let s = c.net.state j in
      let r : Response = ([], handle_counter_gossip s src counters, c.net.node j) in
      let d : Cluster V = settled c j (some r) in
      let grows : Grows j r = λ k.
        rw (get-merge s.kv.counters counters k keyed)
          (newer_grows (get k s.kv.counters) (get k counters)).0 in
      let of_src : (k : String) → Informs d src k (get_or 0 k (learn (believed s src) counters)) =
        λ k.
          let learned = get_or-learn (believed s src) counters k keyed in
          let old = get_or 0 k (believed s src) in
          elim (Bool-cases (leb (version_of (get k counters)) old)) [
            | inl low ↦
                Informs-less d src k _ old (ground (arith, learned))
                  (Informs-grows ids c j r grows src k old (ok.beliefs j src k))
            | inr high ↦ inl (ground (arith, learned, told k, heard_grows ids c j r grows src k))
          ] in
      settled-IsInformed ids c j r ok (record {
        peers = refl;
        grows = grows;
        beliefs = λ q k. elim (Bool-cases (src == q)) [
          | inl here ↦
              rw (believed-handle_counter_gossip s src q counters, here)
                (subst (λ a. Informs d a k (get_or 0 k (learn (believed s src) counters)))
                  ((string_eq.beq_iff src q).0 here) (of_src k))
          | inr there ↦
              rw (believed-handle_counter_gossip s src q counters, there)
                (Informs-grows ids c j r grows q k _ (ok.beliefs j q k))
        ];
        messages = tt;
      })

  pub adds :
      (i client : String) (n delta : ℕ)
      → (c.net.node i).id ≡ i
      → length (c.added i) + 1 < u64_mod
      → IsCurrent (c.added i) (get i (c.net.state i).kv.counters)
      → Onward ids c (at c i (add_request c i client n delta))
  unfolding handle handle_body handle_add next_msg_id reply
  adds i client n delta name room own =
      let s = c.net.state i in
      let (number, node') = next_msg_id (c.net.node i) in
      let r : Response = (
        reply node' client (MessageBody.add_ok number n) ∷ [],
        handle_add s (c.net.node i) delta,
        node',
      ) in
      let grows : Grows i r = λ k.
        rw (name, get-add s.kv i k delta)
          (elim (Bool-cases (i == k)) [
            | inl here ↦ rw here (
                subst
                  (λ j.
                    version_of (get j s.kv.counters)
                    ≤ version_of (with_add delta (get i s.kv.counters)))
                  ((string_eq.beq_iff i k).0 here)
                  (with_add_grows (c.added i) delta (get i s.kv.counters) room own))
            | inr there ↦ rw there (omega arith)
          ]) in
      settled-IsInformed ids c i r ok (record {
        peers = refl;
        grows = grows;
        beliefs = λ j k. Informs-grows ids c i r grows j k _ (ok.beliefs i j k);
        messages = (tt, tt);
      })

  pub deliver_body :
      (j : String) (m : Message V) (body : MessageBody V)
      → Carries c.added body
      → Tells (heard_of c) m.src body
      → Onward ids c (settled c j (handle_body (c.net.state j) (c.net.node j) m body))
  unfolding handle_body next_msg_id reply handle_read
  deliver_body j m (MessageBody.init _ _ _) h told = absurd h
  deliver_body j m (MessageBody.add _ _) h told = absurd h
  deliver_body j m (MessageBody.read n) h told =
      let (number, node') = next_msg_id (c.net.node j) in
      let r : Response = (
        reply node' m.src (MessageBody.read_ok number n none (some (handle_read (c.net.state j))))
            ∷ [],
        c.net.state j,
        node',
      ) in
      idle j r refl refl (tt, tt)
  deliver_body j m (MessageBody.counter_gossip _ counters) h told =
      takes_over j m.src counters h.keyed told
  deliver_body j m _ h told =
      let r : Response = ([], c.net.state j, c.net.node j) in idle j r refl refl tt
