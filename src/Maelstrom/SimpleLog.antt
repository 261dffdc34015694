-- ===== src/Maelstrom/SimpleLog.antt =====
-- maelstrom/src/simple_log.rs: `Logs`, the append-only logs of one node, each under its key.
pub mod Log
pub mod Refinement
pub mod Offsets
use glome_rs.Base.{List, String, [], nat_eq, none, pair_eq, some, string_eq, ℕ, ◌∷◌}
use glome_rs.Collections.HashMap.{HashMap, get, insert, get_or}

pub record Logs : Type 0 where
  pub inner : HashMap String Log.Log

abbrev pub new : Logs
new = record { inner = [] }

-- `get_or_create` and the append to the log that it returns.
unfoldable pub append : Logs → String → ℕ → ℕ × Logs
append logs key msg =
    let (offset, log) = Log.append (get_or Log.new key logs.inner) msg in
    (offset, record logs { inner = insert key log logs.inner })

unfoldable pub poll_entry :
    Logs → HashMap String (List (ℕ × ℕ)) → String → ℕ → HashMap String (List (ℕ × ℕ))
poll_entry logs result key off = elim (get key logs.inner) [
  | none ↦ result
  | some log ↦ insert key (Log.read_from log off none) result
]

unfoldable pub poll_from :
    Logs → HashMap String (List (ℕ × ℕ)) → HashMap String ℕ → HashMap String (List (ℕ × ℕ))
unfolding poll_entry
poll_from logs result [] = result
poll_from logs result ((key, off) ∷ offsets) =
    poll_from logs (poll_entry logs result key off) offsets

unfoldable pub poll : Logs → HashMap String ℕ → HashMap String (List (ℕ × ℕ))
unfolding poll_from
poll logs offsets = poll_from logs [] offsets

unfoldable pub commit_entry : HashMap String Log.Log → String → ℕ → HashMap String Log.Log
commit_entry inner key off = elim (get key inner) [
  | none ↦ inner
  | some log ↦ insert key (Log.commit log off) inner
]

unfoldable pub commit_all : HashMap String Log.Log → HashMap String ℕ → HashMap String Log.Log
commit_all inner [] = inner
commit_all inner ((key, off) ∷ offsets) = commit_all (commit_entry inner key off) offsets

unfoldable pub commit_offsets : Logs → HashMap String ℕ → Logs
commit_offsets logs offsets = record logs { inner = commit_all logs.inner offsets }

unfoldable pub list_entry : Logs → HashMap String ℕ → String → HashMap String ℕ
list_entry logs result key = elim (get key logs.inner) [
  | none ↦ result
  | some log ↦ insert key (Log.committed_offset log) result
]

unfoldable pub list_from : Logs → HashMap String ℕ → List String → HashMap String ℕ
list_from logs result [] = result
list_from logs result (key ∷ keys) = list_from logs (list_entry logs result key) keys

unfoldable pub list_committed_offsets : Logs → List String → HashMap String ℕ
list_committed_offsets logs keys = list_from logs [] keys
