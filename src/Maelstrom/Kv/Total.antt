-- ===== src/Maelstrom/Kv/Total.antt =====
-- What `read` returns: the sum of the values modulo 2^64, in whatever order the map is iterated.
use glome_rs.Base.{
  Option-cases, String, [], add64, arith, inl, inr, nat_eq, none, pair_eq, some, string_eq, u64_mod,
  ℕ, ◌%◌, ◌+◌, ◌∷◌, ◌≡◌,
}
use glome_rs.Collections.HashMap.{HashMap, get, upsert, IsMap}
use glome_rs.Collections.HashMap.Views.{total, part, SameView, total-insert, total-SameView}
use glome_rs.Maelstrom.Message.{Counter}
use glome_rs.Maelstrom.Kv.{Kv, add, bump, first_add, read, read_from, merge}
use glome_rs.Maelstrom.Kv.Merge.{Agree, merge_comm, merge_counters-IsMap}

abbrev pub value_of : Counter → ℕ
value_of c = c.value

read_from-total :
    (sum : ℕ) (m : HashMap String Counter)
    → read_from sum m % u64_mod ≡ (sum + total value_of m) % u64_mod
unfolding read_from total
read_from-total sum [] = omega arith
read_from-total sum ((k, c) ∷ m) = omega (arith, read_from-total (add64 sum c.value) m)

read_from-mod :
    (sum : ℕ) (m : HashMap String Counter)
    → read_from (sum % u64_mod) m ≡ read_from (sum % u64_mod) m % u64_mod
unfolding read_from
read_from-mod sum [] = omega arith
read_from-mod sum ((k, c) ∷ m) = read_from-mod (sum % u64_mod + c.value) m

pub read-total : (kv : Kv) → read kv ≡ total value_of kv.counters % u64_mod
unfolding read
read-total kv = omega (arith, read_from-mod 0 kv.counters, read_from-total 0 kv.counters)

-- `read` sees the entries alone, and not the order in which the map is iterated.
pub read-SameView :
    (a b : Kv)
    → IsMap a.counters
    → IsMap b.counters
    → SameView a.counters b.counters
    → read a ≡ read b
read-SameView a b ha hb s =
    omega (arith, read-total a, read-total b, total-SameView value_of a.counters b.counters ha hb s)

-- What `upsert` adds to the sum of the values.
total-upsert :
    (k : String) (f : Counter → Counter) (d : Counter) (m : HashMap String Counter)
    → total value_of (upsert k f d m) + part value_of (get k m)
      ≡ total value_of m + elim (get k m) [ none ↦ value_of d | some c ↦ value_of (f c) ]
unfolding upsert
total-upsert k f d m = elim (Option-cases (get k m)) [
  | inl e ↦ rw (e, upsert) (ground (arith, total-insert value_of k d m))
  | inr (c, e) ↦ rw (e, upsert) (ground (arith, total-insert value_of k (f c) m))
]

-- An `add` under any node's name raises what `read` returns by the delta, modulo 2^64.
pub read-add :
    (kv : Kv) (node_id : String) (delta : ℕ) → read (add kv node_id delta) ≡ add64 (read kv) delta
unfolding add
read-add kv node_id delta = ground (
  arith,
  read-total kv,
  read-total (add kv node_id delta),
  total-upsert node_id (bump delta) (first_add delta) kv.counters,
)

-- After two nodes merged each other's entries, both read the same number, if they have equal
-- entries where they have equal versions, and each key stands once in both maps.
pub read-merge_comm :
    (a b : Kv)
    → IsMap a.counters
    → IsMap b.counters
    → Agree a.counters b.counters
    → read (merge a b.counters) ≡ read (merge b a.counters)
unfolding merge
read-merge_comm a b ha hb h =
    read-SameView (merge a b.counters) (merge b a.counters)
      (merge_counters-IsMap a.counters b.counters ha)
      (merge_counters-IsMap b.counters a.counters hb) (merge_comm a.counters b.counters ha hb h)
