-- ===== src/Maelstrom/Log/Offsets.antt =====
-- The operations of the replicated `Logs` on many keys, against those of a single `Log`.
use glome_rs.Base.{
  List, Option, Option-cases, String, [], arith, if◌then◌else◌, inl, inr, max, nat_eq, none,
  pair_eq, refl, some, string_eq, ℕ, ◌==◌, ◌∷◌, ◌≡◌,
}
use glome_rs.Collections.BTreeMap.{range_from}
use glome_rs.Collections.HashMap.{HashMap, get, get_or, insert, IsMap, get-insert}
use glome_rs.Collections.HashSet.{contains}
use glome_rs.Maelstrom.SimpleLog.Refinement.{read_entries-none}
use glome_rs.Maelstrom.Log.Single
use glome_rs.Maelstrom.Log.{
  Logs, append_local, extend, get_or_create, poll_entry, poll_from, poll, commit_entry, commit_all,
  commit_offsets, list_from, list_committed_offsets,
}

-- A local append is an append to the log of its key, and makes that log where it is missing.
pub get-append_local :
    (logs : Logs) (key j : String) (msg : ℕ)
    → get j (append_local logs key msg).1.inner ≡ (
        if key == j
        then some (Single.append (get_or Single.new key logs.inner) msg).1
        else get j logs.inner)
unfolding append_local get_or_create Single.append
get-append_local logs key j msg =
    get-insert key j (extend (get_or Single.new key logs.inner) msg) logs.inner

read_from-none :
    (log : Single.Log) (off : ℕ) → Single.read_from log off none ≡ range_from off log.entries
unfolding Single.read_from
read_from-none log off = read_entries-none [] (range_from off log.entries)

-- What a poll reads of one log.
abbrev pub polled : Option Single.Log → Option ℕ → Option (List (ℕ × ℕ))
polled (some log) (some off) = some (Single.read_from log off none)
polled _ _ = none

abbrev or_else : {A : Type 0} → Option A → Option A → Option A
or_else none o = o
or_else (some a) o = some a

get-poll_entry :
    (logs : Logs) (result : HashMap String (List (ℕ × ℕ))) (key j : String) (off : ℕ)
    → get j (poll_entry logs result key off) ≡ (
        if key == j
        then or_else (polled (get j logs.inner) (some off)) (get j result)
        else get j result)
unfolding poll_entry
get-poll_entry logs result key j off = elim (Option-cases (get key logs.inner)) [
  | inl e ↦ ground (arith, string_eq.beq_iff key j)
  | inr (log, e) ↦ ground (
    arith,
    string_eq.beq_iff key j,
    read_from-none log off,
    get-insert key j (range_from off log.entries) result,
  )
]

get-poll_from :
    (logs : Logs) (result : HashMap String (List (ℕ × ℕ))) (offsets : HashMap String ℕ) (j : String)
    → IsMap offsets
    → get j (poll_from logs result offsets)
      ≡ or_else (polled (get j logs.inner) (get j offsets)) (get j result)
unfolding poll_from get
get-poll_from logs result [] j m = ground arith
get-poll_from logs result ((key, off) ∷ offsets) j m = ground (
  arith,
  get-poll_from logs (poll_entry logs result key off) offsets j m.1,
  get-poll_entry logs result key j off,
  string_eq.beq_iff key j,
  m.0,
)

-- A poll, in whose request each key stands once, answers for exactly the requested keys that have a
-- log, each as `read_from` without a bound reads that log from the requested offset.
pub get-poll_read :
    (logs : Logs) (offsets : HashMap String ℕ) (j : String)
    → IsMap offsets
    → get j (poll logs offsets) ≡ polled (get j logs.inner) (get j offsets)
unfolding poll get
get-poll_read logs offsets j m = ground (arith, get-poll_from logs [] offsets j m)

abbrev pub committed : Option Single.Log → Option ℕ → Option Single.Log
committed (some log) (some off) = some (Single.commit log off)
committed o _ = o

get-commit_entry :
    (inner : HashMap String Single.Log) (key j : String) (off : ℕ)
    → get j (commit_entry inner key off)
      ≡ (if key == j then committed (get j inner) (some off) else get j inner)
unfolding commit_entry Single.commit
get-commit_entry inner key j off = elim (Option-cases (get key inner)) [
  | inl e ↦ ground (arith, string_eq.beq_iff key j)
  | inr (log, e) ↦
      ground (arith, string_eq.beq_iff key j, get-insert key j (Single.commit log off) inner)
]

get-commit_all :
    (inner : HashMap String Single.Log) (offsets : HashMap String ℕ) (j : String)
    → IsMap offsets
    → get j (commit_all inner offsets) ≡ committed (get j inner) (get j offsets)
unfolding commit_all get
get-commit_all inner [] j m = ground arith
get-commit_all inner ((key, off) ∷ offsets) j m = ground (
  arith,
  get-commit_all (commit_entry inner key off) offsets j m.1,
  get-commit_entry inner key j off,
  string_eq.beq_iff key j,
  m.0,
)

-- The mark of a log; a missing log has mark 0.
abbrev pub mark : Option Single.Log → ℕ
mark none = 0
mark (some log) = Single.committed_offset log

get-list_from :
    (logs : Logs) (result : HashMap String ℕ) (keys : List String) (j : String)
    → get j (list_from logs result keys)
      ≡ (if contains j keys then some (mark (get j logs.inner)) else get j result)
unfolding list_from contains Single.committed_offset
get-list_from logs result [] j = refl
get-list_from logs result (key ∷ keys) j = elim (Option-cases (get key logs.inner)) [
  | inl e ↦ rw e (
      ground (
        arith,
        get-list_from logs (insert key 0 result) keys j,
        get-insert key j 0 result,
        string_eq.beq_iff key j,
      ))
  | inr (log, e) ↦ rw e (
      ground (
        arith,
        get-list_from logs (insert key log.committed result) keys j,
        get-insert key j log.committed result,
        string_eq.beq_iff key j,
      ))
]

-- What a commit leaves of a mark.
abbrev pub raised : Option Single.Log → Option ℕ → ℕ
raised none off = 0
raised (some log) none = Single.committed_offset log
raised (some log) (some off) = max (Single.committed_offset log) off

mark-committed : (o : Option Single.Log) (off : Option ℕ) → mark (committed o off) ≡ raised o off
unfolding Single.commit Single.committed_offset
mark-committed none off = refl
mark-committed (some log) none = refl
mark-committed (some log) (some off) = ground arith

-- After a commit, in whose request each key stands once, the marks are listed for exactly the keys
-- asked for: a log that the commit named has the greater of its mark and the committed offset,
-- another log has the mark that it had, and a key without a log has 0.
pub commit_then_list :
    (logs : Logs) (offsets : HashMap String ℕ) (keys : List String) (j : String)
    → IsMap offsets
    → get j (list_committed_offsets (commit_offsets logs offsets) keys)
      ≡ (if contains j keys then some (raised (get j logs.inner) (get j offsets)) else none)
unfolding commit_offsets list_committed_offsets get
commit_then_list logs offsets keys j m = ground (
  arith,
  get-list_from (commit_offsets logs offsets) [] keys j,
  get-commit_all logs.inner offsets j m,
  mark-committed (get j logs.inner) (get j offsets),
)
