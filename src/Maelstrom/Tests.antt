-- ===== src/Maelstrom/Tests.antt =====
-- The shared crate on concrete inputs.
use glome_rs.Base.{String, [], arith, nat_eq, pair_eq, refl, some, string_eq, ℕ, ◌∷◌, ◌≡◌}
use glome_rs.Collections.HashMap.{HashMap, get, IsMap}
use glome_rs.Maelstrom.Message.{Counter}
use glome_rs.Maelstrom.Kv.{merge_counters}
use glome_rs.Maelstrom.Kv.Merge.{newer, get-merge}
use glome_rs.Maelstrom.SimpleLog.Log.{Log, append, read_from}
use glome_rs.Maelstrom.SimpleLog.Refinement.{
  number, bounded, Represents, append-Represents, read_from-Represents,
}
use glome_rs.Maelstrom.Log
use glome_rs.Maelstrom.Log.{append_local, insert_at, get_or_create, place}
use glome_rs.Maelstrom.Log.Single
use glome_rs.Collections.HashSet.{contains}
use glome_rs.Maelstrom.Log.Offsets.{commit_then_list}

abbrev counter : ℕ → ℕ → Counter
counter version value = record { version = version; value = value }

abbrev here : HashMap String Counter
here = ("n1", counter 2 7) ∷ ("n2", counter 1 4) ∷ []

abbrev there : HashMap String Counter
there = ("n2", counter 3 9) ∷ []

there-IsMap : IsMap there
unfolding get
there-IsMap = (refl, tt)

get-merge_example : get "n2" (merge_counters here there) ≡ newer (get "n2" here) (get "n2" there)
get-merge_example = get-merge here there "n2" there-IsMap

abbrev two_entries : Log
two_entries = record { entries = (0, 11) ∷ (1, 12) ∷ []; next_offset = 2; committed = 0 }

two_entries-Represents : Represents two_entries (11 ∷ 12 ∷ [])
two_entries-Represents = record { entries = refl; next_offset = refl }

append-Represents_example :
    ((append two_entries 13).0 ≡ 2) × Represents (append two_entries 13).1 (11 ∷ 12 ∷ 13 ∷ [])
append-Represents_example = append-Represents two_entries-Represents 13 (omega arith)

read_from-Represents_example :
    read_from two_entries 1 (some 5) ≡ bounded (some 5) (number 1 (12 ∷ []))
read_from-Represents_example = read_from-Represents two_entries-Represents 1 (some 5)

abbrev from_one : HashMap String ℕ
from_one = ("k1", 1) ∷ ("k2", 0) ∷ []

abbrev replica : Single.Log
replica = record { entries = (0, 11) ∷ (3, 14) ∷ []; next_offset = 4; committed = 0 }

abbrev replicas : Log.Logs
replicas = record { inner = ("k1", replica) ∷ [] }

from_one-IsMap : IsMap from_one
unfolding get
from_one-IsMap = (refl, (refl, tt))

commit_then_list_example :
    get "k1" (Log.list_committed_offsets (Log.commit_offsets replicas from_one) ("k2" ∷ "k1" ∷ []))
    ≡ some 1
unfolding get contains Single.committed_offset
commit_then_list_example = commit_then_list replicas from_one ("k2" ∷ "k1" ∷ []) "k1" from_one-IsMap
