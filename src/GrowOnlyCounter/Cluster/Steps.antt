-- ===== src/GrowOnlyCounter/Cluster/Steps.antt =====
-- Every step of the cluster keeps it consistent.
use glome_rs.Base.{
  All-get_elem?, Bool-cases, List, Option, String, [], arith, beq_refl, false, if◌then◌else◌, inl,
  inr, length, nat_eq, none, pair_eq, refl, some, string_eq, subst, sym, u64_mod, ℕ, ◌++◌, ◌+◌, ◌<◌,
  ◌==◌, ◌∙◌, ◌∷◌, ◌≡◌,
}
use glome_rs.Collections.HashMap.{
  HashMap, insert, get, IsMap, get-insert, get-upsert, upsert-IsMap, insert-IsMap,
}
use glome_rs.Maelstrom.Message.{Message, MessageBody, Counter}
use glome_rs.Maelstrom.Node.{Node, handle_init, init_ok, next_msg_id, reply}
use glome_rs.Maelstrom.Net.{update}
use glome_rs.Maelstrom.Events.{Event}
use glome_rs.Maelstrom.Kv
use glome_rs.Maelstrom.Kv.{Kv, merge_counters}
use glome_rs.Maelstrom.Kv.Merge.{get-merge}
use glome_rs.GrowOnlyCounter.{
  GrowOnlyCounterNode, gossip, handle_add, handle_read, handle_counter_gossip, handle_body, handle,
}
use glome_rs.GrowOnlyCounter.Handle.{id-gossip}
use glome_rs.GrowOnlyCounter.Cluster.Ledger.{
  IsPast, IsCurrent, IsPast-snoc, IsCurrent-IsPast, IsCurrent-newer, with_add, IsCurrent-add,
}
use glome_rs.GrowOnlyCounter.Cluster.Traffic.{
  IsLedger, Carries, IsLedger-merge, gossip-Carries, kv-gossip,
}
use glome_rs.GrowOnlyCounter.Cluster.Invariant.{
  IsConsistent, settle-IsConsistent, Fits-idle, settle_same,
}
use glome_rs.GrowOnlyCounter.Cluster.{Cluster, settled, at, add_request, Step, start, Reach}

pub get-add :
    (kv : Kv) (i k : String) (delta : ℕ)
    → get k (Kv.add kv i delta).counters
      ≡ (if i == k then with_add delta (get i kv.counters) else get k kv.counters)
unfolding Kv.add
get-add kv i k delta =
    ground (arith, get-upsert i k (Kv.bump delta) (Kv.first_add delta) kv.counters)

get-add_self :
    (kv : Kv) (i : String) (delta : ℕ)
    → get i (Kv.add kv i delta).counters ≡ with_add delta (get i kv.counters)
get-add_self kv i delta = rw (get-add kv i i delta, beq_refl i) refl

module _ {V : Type 0} (c : Cluster V) (ok : IsConsistent c) where
  tick-IsConsistent : (i : String) → IsConsistent (at c i Event.tick)
  tick-IsConsistent i =
      let s = c.net.state i in
      let n = c.net.node i in
      settle_same c ok i (gossip s n) (
        Fits-idle c ok i (gossip s n) (id-gossip V s n ∙ ok.names i) (kv-gossip V s n)
          (gossip-Carries c.added V s n (ok.ledgers i)))

  ignored : (j : String) → IsConsistent (settled c j (some ([], c.net.state j, c.net.node j)))
  ignored j =
      let r : List (Message V) × GrowOnlyCounterNode × Node = ([], c.net.state j, c.net.node j) in
      settle_same c ok j r (Fits-idle c ok j r (ok.names j) refl tt)

  deliver_body :
      (j : String) (m : Message V) (body : MessageBody V)
      → Carries c.added body
      → IsConsistent (settled c j (handle_body (c.net.state j) (c.net.node j) m body))
  unfolding handle_body next_msg_id reply handle_counter_gossip Kv.merge
  deliver_body j m (MessageBody.init _ _ _) h = absurd h
  deliver_body j m (MessageBody.add _ _) h = absurd h
  deliver_body j m (MessageBody.read n) h =
      let (id, node') = next_msg_id (c.net.node j) in
      let r : List (Message V) × GrowOnlyCounterNode × Node = (
        reply node' m.src (MessageBody.read_ok id n none (some (handle_read (c.net.state j)))) ∷ [],
        c.net.state j,
        node',
      ) in
      settle_same c ok j r (Fits-idle c ok j r (ok.names j) refl (tt, tt))
  deliver_body j m (MessageBody.counter_gossip _ counters) h =
      settle_same c ok j ([], handle_counter_gossip (c.net.state j) m.src counters, c.net.node j)
        (record {
          name = ok.names j;
          ledger = IsLedger-merge c.added (c.net.state j).kv.counters counters (ok.ledgers j) h;
          own = rw (get-merge (c.net.state j).kv.counters counters j h.keyed) (
              IsCurrent-newer (c.added j) (get j (c.net.state j).kv.counters) (get j counters)
                (ok.owns j) (h.past j));
          messages = tt;
        })
  deliver_body j m _ h = ignored j

  module _ (i client : String) (n delta : ℕ) (small : delta < u64_mod)
      (room : length (c.added i) + 1 < u64_mod) where
    more : String → List ℕ
    more = update c.added i (c.added i ++ delta ∷ [])

    more_here : more i ≡ c.added i ++ delta ∷ []
    unfolding more
    more_here = rw (beq_refl i) refl

    more_there : (j : String) → (i == j) ≡ false → c.added j ≡ more j
    unfolding more
    more_there j e = rw e refl

    added-IsCurrent : IsCurrent (more i) (with_add delta (get i (c.net.state i).kv.counters))
    added-IsCurrent =
        subst (λ ds. IsCurrent ds (with_add delta (get i (c.net.state i).kv.counters)))
          (sym more_here)
          (IsCurrent-add (c.added i) delta (get i (c.net.state i).kv.counters) small room
            (ok.owns i))

    more_grows : (k : String) (o : Option Counter) → IsPast (c.added k) o → IsPast (more k) o
    unfolding more
    more_grows k o h = elim (Bool-cases (i == k)) [
      | inl e ↦ rw e (
          IsPast-snoc (c.added i) delta o
            (subst (λ j. IsPast (c.added j) o) (sym ((string_eq.beq_iff i k).0 e)) h))
      | inr e ↦ rw e h
    ]

    added-IsLedger : IsLedger more (Kv.add (c.net.state i).kv i delta).counters
    added-IsLedger = record {
      keyed = unfold Kv.add in upsert-IsMap i _ _ (c.net.state i).kv.counters (ok.ledgers i).keyed;
      past = λ k. elim (Bool-cases (i == k)) [
        | inl e ↦
            rw (get-add (c.net.state i).kv i k delta, e)
              (subst (λ j. IsPast (more j) (with_add delta (get i (c.net.state i).kv.counters)))
                ((string_eq.beq_iff i k).0 e) (IsCurrent-IsPast (more i) _ added-IsCurrent))
        | inr e ↦
            rw (get-add (c.net.state i).kv i k delta, e)
              (more_grows k (get k (c.net.state i).kv.counters) ((ok.ledgers i).past k))
      ];
    }

    add-IsConsistent : IsConsistent (record (at c i (add_request c i client n delta)) {
      added = update c.added i (c.added i ++ delta ∷ []);
    })
    unfolding more handle handle_add next_msg_id
    add-IsConsistent =
        let (id, node') = next_msg_id (c.net.node i) in
        let r : List (Message V) × GrowOnlyCounterNode × Node = (
          reply node' client (MessageBody.add_ok id n) ∷ [],
          handle_add (c.net.state i) (c.net.node i) delta,
          node',
        ) in
        settle-IsConsistent c ok more i r more_grows more_there (record {
          name = ok.names i;
          ledger =
              subst (λ j. IsLedger more (Kv.add (c.net.state i).kv j delta).counters)
                (sym (ok.names i)) added-IsLedger;
          own =
              subst (λ j. IsCurrent (more i) (get i (Kv.add (c.net.state i).kv j delta).counters))
                (sym (ok.names i))
                (subst (IsCurrent (more i)) (sym (get-add_self (c.net.state i).kv i delta))
                  added-IsCurrent);
          messages = (tt, tt);
        })

init-IsMap :
    (ids : List String) (m : HashMap String Counter) → IsMap m → IsMap (Kv.init_counters m ids)
unfolding Kv.init_counters
init-IsMap [] m h = h
init-IsMap (i ∷ ids) m h =
    init-IsMap ids (insert i Kv.zero_counter m) (insert-IsMap i Kv.zero_counter m h)

init-IsCurrent :
    (ids : List String) (m : HashMap String Counter)
    → ((k : String) → IsCurrent [] (get k m))
    → (k : String) → IsCurrent [] (get k (Kv.init_counters m ids))
unfolding Kv.init_counters
init-IsCurrent [] m h k = h k
init-IsCurrent (i ∷ ids) m h k =
    init-IsCurrent ids (insert i Kv.zero_counter m)
      (λ j. elim (Bool-cases (i == j)) [
        | inl e ↦ rw (get-insert i j Kv.zero_counter m, e) (refl, refl)
        | inr e ↦ rw (get-insert i j Kv.zero_counter m, e) (h j)
      ])
      k

module _ {V : Type 0} where
  pub Step-IsConsistent : {c d : Cluster V} → Step c d → IsConsistent c → IsConsistent d
  Step-IsConsistent {c} (Step.add i client n delta small room) ok =
      add-IsConsistent c ok i client n delta small room
  Step-IsConsistent {c} (Step.read i client n) ok =
      unfold handle in
      deliver_body c ok i (record { src = client; dest = i; body = MessageBody.read n })
        (MessageBody.read n) tt
  Step-IsConsistent {c} (Step.tick i) ok = tick-IsConsistent c ok i
  Step-IsConsistent {c} (Step.deliver k m e) ok =
      unfold handle in
      deliver_body c ok m.dest m m.body
        (All-get_elem? (λ o. Carries c.added o.body) c.net.sent k m ok.traffic e)

  start-IsConsistent : (ids : List String) → IsConsistent {V = V} (start ids)
  unfolding handle handle_body handle_init init_ok next_msg_id
  start-IsConsistent ids = record {
    names = λ i. refl;
    ledgers = λ i.
        unfold Kv.init in
        record {
          keyed = init-IsMap ids [] tt;
          past = λ k. IsCurrent-IsPast [] _ (init-IsCurrent ids [] (λ j. unfold get in refl) k);
        };
    owns = λ i. unfold Kv.init in init-IsCurrent ids [] (λ j. unfold get in refl) i;
    traffic = tt;
  }

  -- In every reachable cluster, where clients add numbers of 64 bits and no node is asked 2^64
  -- times, each counter at a node or in a gossip on the way has the sum modulo 2^64 of the first
  -- additions that its owner was asked for, as many as its version says; and the owner's own
  -- counter counts them all.
  pub Reach-IsConsistent : {ids : List String} {c : Cluster V} → Reach ids c → IsConsistent c
  Reach-IsConsistent {ids} Reach.here = start-IsConsistent ids
  Reach-IsConsistent (Reach.next r st) = Step-IsConsistent st (Reach-IsConsistent r)
