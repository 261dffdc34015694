-- ===== src/Tarct/Kv.antt =====
-- tarct/src/node.rs: `KV`, the committed store with a version for each key.
pub mod Merge
mod UnitTests
use glome_rs.Base.{
  Bool, List, Option, [], if◌then◌else◌, ltb, nat_beq, nat_eq, none, pair_eq, string_eq, ℕ, ◌&&◌,
  ◌||◌, ◌∷◌,
}
use glome_rs.Collections.HashMap
use glome_rs.Collections.HashMap.{HashMap, get_or, insert}
use glome_rs.Maelstrom.Message.{Version}

-- `Version` is compared by its fields in order, as the derived `PartialOrd` and `PartialEq` do.
abbrev pub version_lt : Version → Version → Bool
version_lt a b = ltb a.ts b.ts || (nat_beq a.ts b.ts && ltb a.node b.node)

abbrev pub same_version : Version → Version → Bool
same_version a b = nat_beq a.ts b.ts && nat_beq a.node b.node

abbrev pub zero_version : Version
zero_version = record { ts = 0; node = 0 }

pub record Kv : Type 0 where
  pub entries : HashMap ℕ (Option ℕ)
  pub versions : HashMap ℕ Version

abbrev pub new : Kv
new = record { entries = []; versions = [] }

-- `self.entries.get(key).cloned().unwrap_or(None)`
unfoldable pub get : Kv → ℕ → Option ℕ
get kv key = get_or none key kv.entries

unfoldable pub version : Kv → ℕ → Version
version kv key = get_or zero_version key kv.versions

unfoldable pub apply : Kv → ℕ → Option ℕ → Version → Kv
apply kv key val new_version =
    if version_lt (version kv key) new_version
    then record {
      entries = insert key val kv.entries;
      versions = insert key new_version kv.versions;
    }
    else kv

unfoldable pub merge_batch : Kv → List (ℕ × Option ℕ × Version) → Kv
merge_batch kv [] = kv
merge_batch kv ((key, val, new_version) ∷ writes) =
    merge_batch (apply kv key val new_version) writes
