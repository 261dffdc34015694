-- ===== src/Maelstrom/Log.antt =====
-- maelstrom/src/log.rs: `Logs` for replication, where a follower writes at the leader's offsets.
pub mod Single
pub mod Replication
pub mod Offsets
use glome_rs.Base.{
  List, String, [], add64, if◌then◌else◌, leb, ltb, nat_eq, none, pair_eq, some, string_eq, ℕ, ◌∷◌,
}
use glome_rs.Collections.BTreeMap
use glome_rs.Collections.BTreeMap.{BTreeMap, range_from}
use glome_rs.Collections.HashMap.{HashMap, get, insert, get_or}
use Single.{Log}

pub record Logs : Type 0 where
  pub inner : HashMap String Log

abbrev pub new : Logs
new = record { inner = [] }

unfoldable pub get_or_create : Logs → String → Log
get_or_create logs key = get_or Single.new key logs.inner

-- What `append_local` does to its log.
abbrev pub extend : Log → ℕ → Log
extend log msg = record log {
  entries = BTreeMap.insert log.next_offset msg log.entries;
  next_offset = add64 log.next_offset 1;
}

unfoldable pub append_local : Logs → String → ℕ → ℕ × Logs
unfolding get_or_create
append_local logs key msg =
    let log = get_or_create logs key in
    (log.next_offset, record logs { inner = insert key (extend log msg) logs.inner })

-- What `insert_at` does to its log.
abbrev pub place : Log → ℕ → ℕ → Log
place log offset msg = record log {
  entries = BTreeMap.insert offset msg log.entries;
  next_offset = if leb log.next_offset offset then add64 offset 1 else log.next_offset;
}

unfoldable pub insert_at : Logs → String → ℕ → ℕ → Logs
unfolding get_or_create
insert_at logs key offset msg = record logs {
  inner = insert key (place (get_or_create logs key) offset msg) logs.inner;
}

unfoldable pub poll_entry :
    Logs → HashMap String (List (ℕ × ℕ)) → String → ℕ → HashMap String (List (ℕ × ℕ))
poll_entry logs result key off = elim (get key logs.inner) [
  | none ↦ result
  | some log ↦ insert key (range_from off log.entries) result
]

unfoldable pub poll_from :
    Logs → HashMap String (List (ℕ × ℕ)) → HashMap String ℕ → HashMap String (List (ℕ × ℕ))
poll_from logs result [] = result
poll_from logs result ((key, off) ∷ offsets) =
    poll_from logs (poll_entry logs result key off) offsets

unfoldable pub poll : Logs → HashMap String ℕ → HashMap String (List (ℕ × ℕ))
poll logs offsets = poll_from logs [] offsets

unfoldable pub commit_entry : HashMap String Log → String → ℕ → HashMap String Log
commit_entry inner key off = elim (get key inner) [
  | none ↦ inner
  | some log ↦
      insert key (if ltb log.committed off then record log { committed = off } else log) inner
]

unfoldable pub commit_all : HashMap String Log → HashMap String ℕ → HashMap String Log
commit_all inner [] = inner
commit_all inner ((key, off) ∷ offsets) = commit_all (commit_entry inner key off) offsets

unfoldable pub commit_offsets : Logs → HashMap String ℕ → Logs
commit_offsets logs offsets = record logs { inner = commit_all logs.inner offsets }

unfoldable pub list_from : Logs → HashMap String ℕ → List String → HashMap String ℕ
list_from logs result [] = result
list_from logs result (key ∷ keys) =
    let off : ℕ = elim (get key logs.inner) [ none ↦ 0 | some log ↦ log.committed ] in
    list_from logs (insert key off result) keys

unfoldable pub list_committed_offsets : Logs → List String → HashMap String ℕ
list_committed_offsets logs keys = list_from logs [] keys
