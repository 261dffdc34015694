-- ===== src/Maelstrom/Kv.antt =====
-- maelstrom/src/kv.rs: a grow-only counter with one entry for each node.
pub mod Merge
pub mod Total
use glome_rs.Base.{
  Bool, List, String, [], add64, if◌then◌else◌, is_empty, ltb, nat_eq, none, pair_eq, some,
  string_eq, ℕ, ◌∷◌,
}
use glome_rs.Collections.HashMap.{HashMap, get, insert, upsert}
use glome_rs.Maelstrom.Message.{Counter}

pub record Kv : Type 0 where
  pub counters : HashMap String Counter

abbrev pub new : Kv
new = record { counters = [] }

-- `Counter::default()`
abbrev pub zero_counter : Counter
zero_counter = record { version = 0; value = 0 }

unfoldable pub init_counters : HashMap String Counter → List String → HashMap String Counter
init_counters counters [] = counters
init_counters counters (node_id ∷ node_ids) =
    init_counters (insert node_id zero_counter counters) node_ids

unfoldable pub init : Kv → List String → Kv
unfolding init_counters
init kv node_ids = record kv { counters = init_counters [] node_ids }

-- The closure of `and_modify`, and that of `or_insert_with`.
abbrev pub bump : ℕ → Counter → Counter
bump delta counter = record counter {
  value = add64 counter.value delta;
  version = add64 counter.version 1;
}

abbrev pub first_add : ℕ → Counter
first_add delta = record { version = 1; value = delta }

unfoldable pub add : Kv → String → ℕ → Kv
add kv node_id delta = record kv {
  counters = upsert node_id (bump delta) (first_add delta) kv.counters;
}

unfoldable pub read_from : ℕ → HashMap String Counter → ℕ
read_from sum [] = sum
read_from sum ((_, counter) ∷ counters) = read_from (add64 sum counter.value) counters

unfoldable pub read : Kv → ℕ
unfolding read_from
read kv = read_from 0 kv.counters

-- The body of the loop of `merge`.
unfoldable pub merge_entry : HashMap String Counter → String → Counter → HashMap String Counter
merge_entry counters node_id incoming = elim (get node_id counters) [
  | none ↦ insert node_id incoming counters
  | some c ↦
      if ltb c.version incoming.version
      then insert node_id (record { version = incoming.version; value = incoming.value }) counters
      else counters
]

unfoldable pub merge_counters :
    HashMap String Counter → HashMap String Counter → HashMap String Counter
merge_counters counters [] = counters
merge_counters counters ((node_id, incoming) ∷ rest) =
    merge_counters (merge_entry counters node_id incoming) rest

unfoldable pub merge : Kv → HashMap String Counter → Kv
merge kv incoming = record kv { counters = merge_counters kv.counters incoming }

abbrev pub is_empty_kv : Kv → Bool
is_empty_kv kv = is_empty kv.counters
