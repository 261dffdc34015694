-- ===== src/GrowOnlyCounter/Delta.antt =====
-- The delta of a gossip: what it holds, and that it serves as well as all the counters.
use glome_rs.Base.{
  Bool-cases, Option, String, [], arith, if◌then◌else◌, inl, inr, ltb, max, nat_eq, none, pair_eq,
  refl, some, string_eq, ℕ, ◌&&◌, ◌==◌, ◌∷◌, ◌≡◌, ◌≤◌,
}
use glome_rs.Collections.HashMap.{HashMap, get, get_or, IsMap, get-insert, insert-IsMap}
use glome_rs.Collections.HashMap.Views.{SameView}
use glome_rs.Maelstrom.Message.{Counter}
use glome_rs.Maelstrom.Kv.{merge_counters}
use glome_rs.Maelstrom.Kv.Merge.{get-merge}
use glome_rs.GrowOnlyCounter.{collect_entry, collect, learn_entry, learn}

-- The counter, if its version is above the known one.
abbrev pub above : ℕ → Option Counter → Option Counter
above known none = none
above known (some c) = if ltb known c.version then some c else none

collect_entry-IsMap :
    (versions : HashMap String ℕ) (delta : HashMap String Counter) (k : String) (c : Counter)
    → IsMap delta
    → IsMap (collect_entry versions delta k c)
unfolding collect_entry
collect_entry-IsMap versions delta k c h = ground (arith, insert-IsMap k c delta h)

get-collect_entry :
    (versions : HashMap String ℕ) (delta : HashMap String Counter) (k j : String) (c : Counter)
    → get j (collect_entry versions delta k c)
      ≡ (if k == j && ltb (get_or 0 k versions) c.version then some c else get j delta)
unfolding collect_entry
get-collect_entry versions delta k j c = ground (arith, get-insert k j c delta)

pub collect-IsMap :
    (versions : HashMap String ℕ) (delta counters : HashMap String Counter)
    → IsMap delta
    → IsMap (collect versions delta counters)
unfolding collect
collect-IsMap versions delta [] h = h
collect-IsMap versions delta ((k, c) ∷ counters) h =
    collect-IsMap versions (collect_entry versions delta k c) counters
      (collect_entry-IsMap versions delta k c h)

abbrev or_else : Option Counter → Option Counter → Option Counter
or_else none o = o
or_else (some c) o = some c

get-collect_from :
    (versions : HashMap String ℕ) (delta counters : HashMap String Counter) (j : String)
    → IsMap counters
    → get j (collect versions delta counters)
      ≡ or_else (above (get_or 0 j versions) (get j counters)) (get j delta)
unfolding collect get
get-collect_from versions delta [] j h = refl
get-collect_from versions delta ((k, c) ∷ counters) j h = ground (
  arith,
  get-collect_from versions (collect_entry versions delta k c) counters j h.1,
  get-collect_entry versions delta k j c,
  string_eq.beq_iff k j,
  h.0,
)

-- The delta holds exactly the counters whose version is above the known one.
pub get-collect :
    (versions : HashMap String ℕ) (counters : HashMap String Counter) (j : String)
    → IsMap counters
    → get j (collect versions [] counters) ≡ above (get_or 0 j versions) (get j counters)
unfolding get
get-collect versions counters j h = ground (arith, get-collect_from versions [] counters j h)

abbrev pub version_of : Option Counter → ℕ
version_of none = 0
version_of (some c) = c.version

get_or-learn_entry :
    (versions : HashMap String ℕ) (k j : String) (c : Counter)
    → get_or 0 j (learn_entry versions k c)
      ≡ (if k == j then max (get_or 0 j versions) c.version else get_or 0 j versions)
unfolding learn_entry get_or
get_or-learn_entry versions k j c = ground (
  arith,
  string_eq.beq_iff k j,
  get-insert k j (if ltb (get_or 0 k versions) c.version then c.version else get_or 0 k versions)
      versions,
)

-- What is known after `learn`: the higher of what was known and the version that was passed on.
pub get_or-learn :
    (versions : HashMap String ℕ) (delta : HashMap String Counter) (j : String)
    → IsMap delta
    → get_or 0 j (learn versions delta) ≡ max (get_or 0 j versions) (version_of (get j delta))
unfolding learn get
get_or-learn versions [] j h = omega arith
get_or-learn versions ((k, c) ∷ delta) j h = ground (
  arith,
  get_or-learn (learn_entry versions k c) delta j h.1,
  get_or-learn_entry versions k j c,
  string_eq.beq_iff k j,
  h.0,
)

-- A receiver has what it is believed to have.
pub record Knows (versions : HashMap String ℕ) (counters receiver : HashMap String Counter)
    : Type 0 where
  pub known :
      (k : String) (c : Counter)
      → get k counters ≡ some c
      → c.version ≤ get_or 0 k versions
      → (d : Counter) × (get k receiver ≡ some d) × (c.version ≤ d.version)

-- Where the receiver has at least the versions that it is believed to have, merging the delta
-- leaves it with the same entries as merging all the counters, in which each key stands once.
pub merge-collect :
    (versions : HashMap String ℕ) (counters receiver : HashMap String Counter)
    → IsMap counters
    → Knows versions counters receiver
    → SameView
        (merge_counters receiver (collect versions [] counters))
        (merge_counters receiver counters)
merge-collect versions counters receiver h b = record {
  views = λ k. at_key k (get k counters) refl;
}
  where
    at_key :
        (k : String) (o : Option Counter)
        → get k counters ≡ o
        → get k (merge_counters receiver (collect versions [] counters))
          ≡ get k (merge_counters receiver counters)
    at_key k none e = cc (
      get-merge receiver (collect versions [] counters) k (collect-IsMap versions [] counters tt),
      get-merge receiver counters k h,
      get-collect versions counters k h,
      e,
    )
    at_key k (some c) e = elim (Bool-cases (ltb (get_or 0 k versions) c.version)) [
      | inl sent ↦ ground (
        arith,
        get-merge receiver (collect versions [] counters) k (collect-IsMap versions [] counters tt),
        get-merge receiver counters k h,
        get-collect versions counters k h,
      )
      | inr kept ↦ ground (
        arith,
        get-merge receiver (collect versions [] counters) k (collect-IsMap versions [] counters tt),
        get-merge receiver counters k h,
        get-collect versions counters k h,
        b.known k c e (ground arith),
      )
    ]
