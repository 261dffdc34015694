-- ===== src/Tarct/Cluster/Invariant.antt =====
-- What holds of every reachable cluster of stores: a version stands for one value of a key.
use glome_rs.Base.{
  All, All-append, All-imp, Bool-cases, List, Option, String, [], arith, inl, inr, nat_beq,
  nat_beq_iff, nat_eq, pair_eq, some, string_eq, subst, sym, true, ℕ, ◌==◌, ◌∷◌, ◌≡◌, ◌≤◌,
}
use glome_rs.Collections.HashSet.{contains}
use glome_rs.Maelstrom.Message.{Message, MessageBody, Version}
use glome_rs.Maelstrom.Node.{Node}
use glome_rs.Maelstrom.Net.{update, settle, at_update}
use glome_rs.Tarct.Kv
use glome_rs.Tarct.Kv.Merge.{Entry, entry, later, entry-apply}
use glome_rs.Tarct.{TarctNode, Write, writes_of}
use glome_rs.Tarct.Hash.{stable_hash}
use glome_rs.Tarct.Invariant.{IsAhead}
use glome_rs.Tarct.Cluster.{Cluster}

-- The value that a version stands for, key by key.
abbrev pub Meaning : Type 0
Meaning = ℕ → Version → Option ℕ

-- A write of the value that its version stands for, by a node whose clock is not behind it.
pub record IsGood (ids : List String) (clock : String → ℕ) (means : Meaning) (k : ℕ)
    (value : Option ℕ) (v : Version) : Type 0 where
  pub meant : value ≡ means k v
  pub past : (j : String) → contains j ids ≡ true → v.node ≡ stable_hash j → v.ts ≤ clock j

abbrev pub clocks : {V : Type 0} → Cluster V → String → ℕ
clocks c j = (c.state j).lamport_ts

module _ (ids : List String) where
  abbrev pub GoodStore : (String → ℕ) → Meaning → Kv.Kv → Type 0
  GoodStore clock means kv = (k : ℕ) → IsGood ids clock means k (Kv.get kv k) (Kv.version kv k)

  abbrev pub GoodBatch : (String → ℕ) → Meaning → List Write → Type 0
  GoodBatch clock means batch = All (λ w. IsGood ids clock means w.1 w.2 w.3) batch

  -- No node sends a transaction or the set-up of a node.
  abbrev pub Carries : {V : Type 0} → (String → ℕ) → Meaning → MessageBody V → Type 0
  Carries clock means (MessageBody.tarct_replicate _ batch) = GoodBatch clock means batch
  Carries clock means (MessageBody.init _ _ _) = ⊥
  Carries clock means (MessageBody.txn _ _) = ⊥
  Carries clock means _ = Unit

  pub record IsConsistent {V : Type 0} (means : Meaning) (c : Cluster V) : Type 0 where
    pub names : (i : String) → (c.node i).id ≡ i
    pub ahead : (i : String) → IsAhead (c.state i)
    pub stores : (i : String) → GoodStore (clocks c) means (c.state i).kv
    pub traffic : All (λ o. Carries (clocks c) means o.body) c.sent

  module _ (clock later : String → ℕ) (means more : Meaning)
      (grows : (k : ℕ) (value : Option ℕ) (v : Version)
        → IsGood ids clock means k value v
        → IsGood ids later more k value v) where
    Carries-grows :
        {V : Type 0} (body : MessageBody V) → Carries clock means body → Carries later more body
    Carries-grows (MessageBody.tarct_replicate _ batch) h = All-imp (λ w. grows w.1 w.2 w.3) batch h
    Carries-grows (MessageBody.init _ _ _) h = h
    Carries-grows (MessageBody.txn _ _) h = h
    Carries-grows _ h = tt

  -- A received batch leaves a good store good.
  pub merge_batch-GoodStore :
      (clock : String → ℕ) (means : Meaning) (kv : Kv.Kv) (batch : List Write)
      → GoodStore clock means kv
      → GoodBatch clock means batch
      → GoodStore clock means (Kv.merge_batch kv (writes_of batch))
  unfolding writes_of Kv.merge_batch
  merge_batch-GoodStore clock means kv [] h b = h
  merge_batch-GoodStore clock means kv ((op, key, val, v) ∷ batch) h b =
      elim (Bool-cases (op == "w")) [
        | inl is_w ↦
            rw is_w (merge_batch-GoodStore clock means (Kv.apply kv key val v) batch applied b.1)
        | inr other ↦ rw other (merge_batch-GoodStore clock means kv batch h b.1)
      ]
    where
      applied : GoodStore clock means (Kv.apply kv key val v)
      applied k =
          subst (λ (e : Entry). IsGood ids clock means k e.value e.version)
            (sym (entry-apply kv key k val v))
            (elim (Bool-cases (nat_beq key k)) [
              | inl here ↦ rw here (
                  newer k
                    (subst (λ j. IsGood ids clock means j val v) ((nat_beq_iff key k).0 here) b.0))
              | inr there ↦ rw there (h k)
            ])
        where
          newer :
              (k : ℕ)
              → IsGood ids clock means k val v
              → let e = later (entry kv k) (record { value = val; version = v }) in
                IsGood ids clock means k e.value e.version
          newer k g = elim (Bool-cases (Kv.version_lt (Kv.version kv k) v)) [
            | inl above ↦ rw above g
            | inr below ↦ rw below (h k)
          ]

  -- What a response must leave at node `i`.
  pub record Fits {V : Type 0} (c : Cluster V) (means more : Meaning) (i : String)
      (r : List (Message V) × TarctNode × Node) : Type 0 where
    pub name : r.2.id ≡ i
    pub ahead : IsAhead r.1
    pub clock : (c.state i).lamport_ts ≤ r.1.lamport_ts
    pub keeps :
        (k : ℕ) (value : Option ℕ) (v : Version)
        → IsGood ids (clocks c) means k value v
        → value ≡ more k v
    pub store : GoodStore (λ j. (update c.state i r.1 j).lamport_ts) more r.1.kv
    pub messages : All (λ o. Carries (λ j. (update c.state i r.1 j).lamport_ts) more o.body) r.0

  pub settle-IsConsistent :
      {V : Type 0} (c : Cluster V) (means more : Meaning) (i : String)
      (r : List (Message V) × TarctNode × Node)
      → IsConsistent means c
      → Fits c means more i r
      → IsConsistent more (settle c i (some r))
  settle-IsConsistent c means more i (out, s, n) ok fits = record {
    names = at_update (λ j (n : Node). n.id ≡ j) c.node i n fits.name (λ j e. ok.names j);
    ahead = at_update (λ j (t : TarctNode). IsAhead t) c.state i s fits.ahead (λ j e. ok.ahead j);
    stores =
        at_update (λ j (t : TarctNode). GoodStore later more t.kv) c.state i s fits.store
          (λ j e k.
            grows k (Kv.get (c.state j).kv k) (Kv.version (c.state j).kv k) (ok.stores j k));
    traffic =
        All-append _ out c.sent fits.messages
          (All-imp (λ o. Carries-grows (clocks c) later means more grows o.body) c.sent ok.traffic);
  }
    where
      later : String → ℕ
      later j = (update c.state i s j).lamport_ts

      on : (j : String) → clocks c j ≤ later j
      on =
          at_update (λ j (t : TarctNode). clocks c j ≤ t.lamport_ts) c.state i s fits.clock
            (λ j e. omega arith)

      grows :
          (k : ℕ) (value : Option ℕ) (v : Version)
          → IsGood ids (clocks c) means k value v
          → IsGood ids later more k value v
      grows k value v g = record {
        meant = fits.keeps k value v g;
        past = λ j m e. omega (arith, g.past j m e, on j);
      }
