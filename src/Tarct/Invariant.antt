-- ===== src/Tarct/Invariant.antt =====
-- The clock of a node is at or above every version that its store holds.
use glome_rs.Base.{
  Bool-cases, List, Option, [], arith, if◌then◌else◌, inl, inr, is_empty, ltb, nat_eq, none,
  pair_eq, refl, some, string_eq, true, u64_mod, ℕ, ◌+◌, ◌<◌, ◌==◌, ◌∷◌, ◌≡◌, ◌≤◌,
}
use glome_rs.Collections.HashMap.{HashMap, get}
use glome_rs.Maelstrom.Message.{Version, Op}
use glome_rs.Maelstrom.Node.{Node}
use glome_rs.Txn.{value_after}
use glome_rs.Tarct.Kv
use glome_rs.Tarct.Kv.{Kv, version_lt}
use glome_rs.Tarct.Kv.Merge.{entry, entry-apply}
use glome_rs.Tarct.Hash.{stable_hash}
use glome_rs.Tarct.Stages.{IsCurrent, Staged}
use glome_rs.Tarct.Commit.{written, entry-apply_all}
use glome_rs.Tarct.{TarctNode, Stage, Write, max_ts, next_ts, apply_all, observe, writes_of, commit}

pub record IsAhead (s : TarctNode) : Type 0 where
  pub ahead : (k : ℕ) → (Kv.version s.kv k).ts ≤ s.lamport_ts

abbrev AtMost : ℕ → Option ℕ → Type 0
AtMost n none = Unit
AtMost n (some m) = m ≤ n

max_ts_bound :
    (s : TarctNode) (m : HashMap ℕ Version)
    → IsAhead s
    → IsCurrent s.kv m
    → AtMost s.lamport_ts (max_ts m)
unfolding max_ts
max_ts_bound s [] a h = tt
max_ts_bound s ((k, v) ∷ m) a h = ground (arith, max_ts_bound s m a h.1, a.ahead k, h.0)

pub next_ts_ahead :
    (s : TarctNode) (m : HashMap ℕ Version)
    → IsAhead s
    → IsCurrent s.kv m
    → s.lamport_ts + 1 < u64_mod
    → next_ts s.lamport_ts m ≡ s.lamport_ts + 1
unfolding next_ts
next_ts_ahead s m a h room = ground (arith, max_ts_bound s m a h)

get_empty : {A : Type 0} (k : ℕ) (m : HashMap ℕ A) → is_empty m ≡ true → get k m ≡ none
get_empty k [] h = unfold get in refl
get_empty k (x ∷ m) h = cc

-- What a commit leaves in the store and on the clock.
pub record Commits (s : TarctNode) (txn : List Op) (s' : TarctNode) : Type 0 where
  pub stored : (k : ℕ) → Kv.get s'.kv k ≡ value_after (Kv.get s.kv) txn k
  pub ahead : IsAhead s'

module _ (V : Type 0) where
  pub commit-Commits :
      (s : TarctNode) (node : Node) (stage : Stage) (txn results : List Op)
      → IsAhead s
      → s.lamport_ts + 1 < u64_mod
      → Staged s.kv txn results stage
      → Commits s txn (commit {V = V} s node stage).1
  unfolding commit
  commit-Commits s node stage txn results a room h = elim (Bool-cases (is_empty stage.write_set)) [
    | inl none_written ↦ rw none_written (record {
      stored = λ k.
          unfold value_after in
          ground (arith, get_empty k stage.write_set none_written, h.writes k);
      ahead = a;
    })
    | inr some_written ↦
        rw some_written (record { stored = stored; ahead = record { ahead = on_top } })
  ]
    where
      this_version : Version
      this_version = record { ts = next_ts s.lamport_ts stage.read_set; node = stable_hash node.id }

      kv' : Kv
      kv' = apply_all s.kv stage.write_set this_version

      tick : this_version.ts ≡ s.lamport_ts + 1
      tick = next_ts_ahead s stage.read_set a h.current room

      newer : (k : ℕ) → version_lt (Kv.version s.kv k) this_version ≡ true
      newer k = ground (arith, a.ahead k, tick)

      at_key : (k : ℕ) → entry kv' k ≡ written (entry s.kv k) (get k stage.write_set) this_version
      at_key k = entry-apply_all s.kv stage.write_set this_version k h.write_map (newer k)

      stored : (k : ℕ) → Kv.get kv' k ≡ value_after (Kv.get s.kv) txn k
      stored k = unfold value_after in ground (arith, at_key k, h.writes k)

      on_top : (k : ℕ) → (Kv.version kv' k).ts ≤ this_version.ts
      on_top k = ground (arith, at_key k, a.ahead k, tick)

merge_ahead :
    (kv : Kv) (ts : ℕ) (batch : List Write)
    → ((k : ℕ) → (Kv.version kv k).ts ≤ ts)
    → (k : ℕ) → (Kv.version (Kv.merge_batch kv (writes_of batch)) k).ts ≤ observe ts batch
unfolding writes_of observe Kv.merge_batch
merge_ahead kv ts [] h k = h k
merge_ahead kv ts ((op, key, val, v) ∷ batch) h k = elim (Bool-cases (op == "w")) [
  | inl is_w ↦ rw is_w (
      merge_ahead (Kv.apply kv key val v) (if ltb ts v.ts then v.ts else ts) batch
        (λ j. ground (arith, entry-apply kv key j val v, h j)) k)
  | inr other ↦
      rw other
        (merge_ahead kv (if ltb ts v.ts then v.ts else ts) batch (λ j. ground (arith, h j)) k)
]

-- Where no version is above the clock, that is so again after a received batch.
pub observe-IsAhead :
    (s : TarctNode) (batch : List Write)
    → IsAhead s
    → IsAhead (record {
      kv = Kv.merge_batch s.kv (writes_of batch);
      lamport_ts = observe s.lamport_ts batch;
    })
observe-IsAhead s batch a = record { ahead = merge_ahead s.kv s.lamport_ts batch a.ahead }
