-- ===== src/Tarct/Cluster/History.antt =====
-- What a run of the cluster was asked for, and where the values in its stores come from.
use glome_rs.Base.{
  Bool-cases, List, Stands, String, [], ap, arith, if◌then◌else◌, inl, inr, nat_eq, none, refl,
  subst, suc, sym, ℕ, ◌∙◌, ◌∷◌, ◌≡◌, ◌⊎◌,
}
use glome_rs.Collections.HashMap.{get_or}
use glome_rs.Maelstrom.Message.{Op, Version}
use glome_rs.Txn.{last_write, value_after}
use glome_rs.Tarct.Kv
use glome_rs.Tarct.Kv.{same_version}
use glome_rs.Tarct.Cluster.{Cluster, AreApart, Step, Reach}
use glome_rs.Tarct.Cluster.Invariant.{Meaning, IsConsistent}
use glome_rs.Tarct.Cluster.Commits.{Adds}
use glome_rs.Tarct.Cluster.Steps.{request-Sound, deliver-IsConsistent, start-IsConsistent}

-- What each version stands for: the last writes of one transaction of those that were asked for.
record History (asked : List (List Op)) (means : Meaning) : Type 0 where
  by : Version → List Op
  asked_for : (v : Version) → (by v ≡ []) ⊎ Stands asked (by v)
  last : (k : ℕ) (v : Version) → means k v ≡ value_after (λ j. none) (by v) k

History-Adds :
    (asked : List (List Op)) (txn : List Op) (means more : Meaning)
    → Adds txn means more
    → History asked means
    → History (txn ∷ asked) more
unfolding get_or value_after
History-Adds asked txn means more (inl same) h = subst (History (txn ∷ asked)) (sym same) (record {
  by = h.by;
  asked_for = λ v. elim (h.asked_for v) [ inl e ↦ inl e | inr (k, e) ↦ inr (suc k, e) ];
  last = h.last;
})
History-Adds asked txn means more (inr (this, writes, last, same)) h =
    subst (History (txn ∷ asked)) (sym same) (record {
      by = λ v. if same_version v this then txn else h.by v;
      asked_for = λ v. elim (Bool-cases (same_version v this)) [
        | inl e ↦ rw e (inr (0, refl))
        | inr e ↦ rw e (elim (h.asked_for v) [ inl e ↦ inl e | inr (k, e) ↦ inr (suc k, e) ])
      ];
      last = λ k v. elim (Bool-cases (same_version v this)) [
        | inl e ↦ rw e (written k)
        | inr e ↦ rw e (h.last k v)
      ];
    })
  where
    written : (k : ℕ) → get_or ⦃e = nat_eq⦄ none k writes ≡ value_after (λ j. none) txn k
    written k = ground (arith, last k)

-- The transactions that the clients of a run ask for, the last one first.
abbrev pub requests :
    {V : Type 0} {ids : List String} {c : Cluster V} → Reach ids c → List (List Op)
requests Reach.here = []
requests (Reach.next r (Step.request client i n txn here known room)) = txn ∷ requests r
requests (Reach.next r (Step.deliver k m e)) = requests r

module _ {V : Type 0} (ids : List String) (apart : AreApart ids) where
  Reach-History :
      {c : Cluster V}
      → (r : Reach ids c)
      → (means : Meaning) × IsConsistent ids means c × History (requests r) means
  Reach-History Reach.here = (
    λ k v. none,
    start-IsConsistent ids,
    record {
      by = λ v. [];
      asked_for = λ v. inl refl;
      last = λ k v. unfold value_after last_write in refl;
    },
  )
  Reach-History (Reach.next {c = c} r (Step.request client i n txn here known room)) =
      let (means, ok, past) = Reach-History r in
      let (more, sound, added) =
        request-Sound ids apart means c ok client i n txn known here room in
      (more, sound, History-Adds (requests r) txn means more added past)
  Reach-History (Reach.next {c = c} r (Step.deliver k m e)) =
      let (means, ok, past) = Reach-History r in
      (means, deliver-IsConsistent ids apart means c ok k m e, past)

  -- In a reachable cluster whose node ids have different hashes, where clients send transactions
  -- of reads and writes to the nodes and no clock wraps, two nodes that hold a key under the same
  -- version hold the same value for it.
  pub stores_agree :
      {c : Cluster V} (i j : String) (k : ℕ)
      → Reach ids c
      → Kv.version (c.state i).kv k ≡ Kv.version (c.state j).kv k
      → Kv.get (c.state i).kv k ≡ Kv.get (c.state j).kv k
  stores_agree {c} i j k r same =
      let (means, ok, past) = Reach-History r in
      (ok.stores i k).meant ∙ ap (means k) same ∙ sym (ok.stores j k).meant

  -- In a reachable cluster whose node ids have different hashes, where clients send transactions
  -- of reads and writes to the nodes and no clock wraps, each version stands for one transaction
  -- that a client asked for (or for none at all), the same for every key and on every node: the
  -- value that a node holds for a key is the last one that the transaction of its version writes
  -- to the key, and none where it writes none.
  pub read_committed :
      {c : Cluster V}
      → (r : Reach ids c)
      → (by : Version → List Op) × ((v : Version) → (by v ≡ []) ⊎ Stands (requests r) (by v))
        × ((i : String) (k : ℕ)
            → Kv.get (c.state i).kv k
              ≡ value_after (λ j. none) (by (Kv.version (c.state i).kv k)) k)
  read_committed r =
      let (means, ok, past) = Reach-History r in
      (past.by, past.asked_for, λ i k. (ok.stores i k).meant ∙ past.last k _)
