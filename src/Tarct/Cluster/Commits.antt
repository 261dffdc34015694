-- ===== src/Tarct/Cluster/Commits.antt =====
-- What a commit gives to the store and to the other nodes: good writes, under a version of its own.
use glome_rs.Base.{
  All, Bool-cases, List, Option, Option-cases, String, [], arith, if◌then◌else◌, inl, inr, leb,
  nat_beq_iff, nat_eq, none, pair_eq, refl, some, string_eq, subst, sym, true, ℕ, ◌<◌, ◌∙◌, ◌∷◌,
  ◌≡◌, ◌≤◌, ◌⊎◌,
}
use glome_rs.Collections.HashMap.{HashMap, get, get_or, IsMap}
use glome_rs.Collections.HashSet.{contains}
use glome_rs.Maelstrom.Message.{Op, Version}
use glome_rs.Maelstrom.Node.{Node, next_msg_id}
use glome_rs.Txn.{last_write}
use glome_rs.Tarct.Kv
use glome_rs.Tarct.Kv.{version_lt, same_version}
use glome_rs.Tarct.Kv.Merge.{Entry}
use glome_rs.Tarct.Commit.{entry-apply_all}
use glome_rs.Tarct.{Write, apply_all, to_ops, insert_by_key, sort_by_key, send_to_all}
use glome_rs.Tarct.Hash.{stable_hash}
use glome_rs.Tarct.Cluster.Invariant.{Meaning, IsGood, GoodStore, GoodBatch, Carries}

-- What versions stand for after a commit of a write-set under the version `this`.
abbrev pub with_commit : Meaning → Version → HashMap ℕ (Option ℕ) → Meaning
with_commit means this writes k v = if same_version v this then get_or none k writes else means k v

-- What a transaction adds to the meanings: nothing, or its last writes under one version.
abbrev pub Adds : List Op → Meaning → Meaning → Type 0
Adds txn means more =
    (more ≡ means)
    ⊎ ((this : Version) × (writes : HashMap ℕ (Option ℕ)) × ((k : ℕ)
          → get k writes ≡ last_write k txn)
        × (more ≡ with_commit means this writes))

module _ (P : ℕ → Option ℕ → Version → Type 0) where
  abbrev Each : List Write → Type 0
  Each ws = All (λ w. P w.1 w.2 w.3) ws

  insert_by_key-All :
      (w : Write) (ws : List Write) → P w.1 w.2 w.3 → Each ws → Each (insert_by_key w ws)
  unfolding insert_by_key
  insert_by_key-All w [] p h = (p, tt)
  insert_by_key-All w (x ∷ ws) p h = elim (Bool-cases (leb w.1 x.1)) [
    | inl first ↦ rw first (p, h)
    | inr after ↦ rw after (h.0, insert_by_key-All w ws p h.1)
  ]

  sort_by_key-All : (ws : List Write) → Each ws → Each (sort_by_key ws)
  unfolding sort_by_key
  sort_by_key-All [] h = tt
  sort_by_key-All (w ∷ ws) h = insert_by_key-All w (sort_by_key ws) h.0 (sort_by_key-All ws h.1)

  to_ops-All :
      (writes : HashMap ℕ (Option ℕ)) (v : Version)
      → IsMap writes
      → ((k : ℕ) (value : Option ℕ) → get k writes ≡ some value → P k value v)
      → Each (to_ops writes v)
  unfolding to_ops get
  to_ops-All [] v m p = tt
  to_ops-All ((k, value) ∷ writes) v m p = (
    p k value (ground arith),
    to_ops-All writes v m.1 (λ j x e. p j x (ground (arith, e, m.0, nat_beq_iff k j))),
  )

  pub ops-All :
      (writes : HashMap ℕ (Option ℕ)) (v : Version)
      → IsMap writes
      → ((k : ℕ) (value : Option ℕ) → get k writes ≡ some value → P k value v)
      → Each (sort_by_key (to_ops writes v))
  ops-All writes v m p = sort_by_key-All (to_ops writes v) (to_ops-All writes v m p)

module _ (ids : List String) (clock later : String → ℕ) (means : Meaning) (this : Version)
    (writes : HashMap ℕ (Option ℕ)) where
  -- A version that no good write has keeps every meaning.
  pub with_commit-keeps :
      (i : String) (k : ℕ) (value : Option ℕ) (v : Version)
      → contains i ids ≡ true
      → this.node ≡ stable_hash i
      → clock i < this.ts
      → IsGood ids clock means k value v
      → value ≡ with_commit means this writes k v
  with_commit-keeps i k value v here own fresh g = elim (Bool-cases (same_version v this)) [
    | inl same ↦
        let same_ts : v.ts ≡ this.ts = ground (arith, same) in
        let same_node : v.node ≡ this.node = ground (arith, same) in
        absurd (omega (arith, g.past i here (same_node ∙ own), fresh, same_ts))
    | inr other ↦ rw other g.meant
  ]

  pub committed-IsGood :
      (k : ℕ) (value : Option ℕ)
      → get k writes ≡ some value
      → ((j : String) → contains j ids ≡ true → this.node ≡ stable_hash j → this.ts ≤ later j)
      → IsGood ids later (with_commit means this writes) k value this
  unfolding get_or
  committed-IsGood k value e past = record { meant = ground (arith, e); past = past }

  -- Where the new version is above all of the store's, the store is good after the commit.
  pub apply_all-GoodStore :
      (kv : Kv.Kv)
      → IsMap writes
      → ((k : ℕ) → version_lt (Kv.version kv k) this ≡ true)
      → ((k : ℕ)
          → IsGood ids later (with_commit means this writes) k (Kv.get kv k) (Kv.version kv k))
      → ((j : String) → contains j ids ≡ true → this.node ≡ stable_hash j → this.ts ≤ later j)
      → GoodStore ids later (with_commit means this writes) (apply_all kv writes this)
  apply_all-GoodStore kv m above good past k =
      subst (λ (e : Entry). IsGood ids later (with_commit means this writes) k e.value e.version)
        (sym (entry-apply_all kv writes this k m (above k)))
        (elim (Option-cases (get k writes)) [
          | inl e ↦ rw e (good k)
          | inr (value, e) ↦ rw e (committed-IsGood k value e past)
        ])

module _ (V : Type 0) (ids : List String) (clock : String → ℕ) (means : Meaning) where
  pub send_to_all-Carries :
      (node : Node) (ops : List Write) (peers : List String)
      → GoodBatch ids clock means ops
      → All (λ o. Carries ids clock means o.body) (send_to_all {V = V} node ops peers).0
        × ((send_to_all {V = V} node ops peers).1.id ≡ node.id)
  unfolding send_to_all next_msg_id
  send_to_all-Carries node ops [] h = (tt, refl)
  send_to_all-Carries node ops (peer ∷ peers) h =
      let (rest, same) = send_to_all-Carries (next_msg_id node).1 ops peers h in ((h, rest), same)
