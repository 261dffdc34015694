-- ===== src/Maelstrom/Log/Single.antt =====
-- maelstrom/src/log.rs: `Log`, a single log whose offsets may have gaps.
use glome_rs.Base.{List, Option, [], add64, if◌then◌else◌, ltb, nat_eq, pair_eq, string_eq, ℕ}
use glome_rs.Collections.BTreeMap.{BTreeMap, insert, range_from}
use glome_rs.Maelstrom.SimpleLog.Log.{read_entries}

pub record Log : Type 0 where
  pub entries : BTreeMap ℕ
  pub next_offset : ℕ
  pub committed : ℕ

abbrev pub new : Log
new = record { entries = []; next_offset = 0; committed = 0 }

unfoldable pub append : Log → ℕ → ℕ × Log
append log msg =
    let offset = log.next_offset in
    (
      offset,
      record log { entries = insert offset msg log.entries; next_offset = add64 log.next_offset 1 },
    )

-- The loop is that of simple_log.rs.
unfoldable pub read_from : Log → ℕ → Option ℕ → List (ℕ × ℕ)
unfolding read_entries
read_from log from_offset bound = read_entries bound [] (range_from from_offset log.entries)

unfoldable pub commit : Log → ℕ → Log
commit log offset = if ltb log.committed offset then record log { committed = offset } else log

unfoldable pub committed_offset : Log → ℕ
committed_offset log = log.committed
