-- ===== src/Maelstrom/SimpleLog/Log.antt =====
-- maelstrom/src/simple_log.rs: `Log`, a single append-only log.
use glome_rs.Base.{
  Bool, List, Option, [], add64, false, if◌then◌else◌, leb, length, ltb, nat_eq, none, pair_eq,
  some, string_eq, ℕ, ◌++◌, ◌∷◌,
}
use glome_rs.Collections.BTreeMap.{BTreeMap, insert, range_from}

pub record Log : Type 0 where
  pub entries : BTreeMap ℕ
  pub next_offset : ℕ
  pub committed : ℕ

abbrev pub new : Log
new = record { entries = []; next_offset = 0; committed = 0 }

unfoldable pub append : Log → ℕ → ℕ × Log
append log msg =
    let offset = log.next_offset in
    (
      offset,
      record log { entries = insert offset msg log.entries; next_offset = add64 log.next_offset 1 },
    )

-- `if let Some(limit) = max { if out.len() >= limit { break } }`
abbrev pub is_full : Option ℕ → ℕ → Bool
is_full none n = false
is_full (some limit) n = leb limit n

unfoldable pub read_entries : Option ℕ → List (ℕ × ℕ) → List (ℕ × ℕ) → List (ℕ × ℕ)
read_entries bound out [] = out
read_entries bound out (entry ∷ entries) =
    let out' = out ++ entry ∷ [] in
    let rest = read_entries bound out' entries in if is_full bound (length out') then out' else rest

unfoldable pub read_from : Log → ℕ → Option ℕ → List (ℕ × ℕ)
unfolding read_entries
read_from log from_offset bound = read_entries bound [] (range_from from_offset log.entries)

unfoldable pub commit : Log → ℕ → Log
commit log offset = if ltb log.committed offset then record log { committed = offset } else log

unfoldable pub committed_offset : Log → ℕ
committed_offset log = log.committed
