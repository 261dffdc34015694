-- ===== src/Maelstrom/SimpleLog/Offsets.antt =====
-- The operations of `Logs`, key by key.
use glome_rs.Base.{
  List, Option, Option-cases, String, [], arith, if◌then◌else◌, inl, inr, nat_eq, none, pair_eq,
  refl, some, string_eq, ℕ, ◌==◌, ◌∷◌, ◌≡◌,
}
use glome_rs.Collections.HashMap.{HashMap, get, get_or, IsMap, get-insert}
use glome_rs.Collections.HashSet.{contains}
use glome_rs.Maelstrom.SimpleLog.Log
use glome_rs.Maelstrom.SimpleLog.{
  Logs, append, poll_entry, poll_from, poll, commit_entry, commit_all, commit_offsets, list_entry,
  list_from, list_committed_offsets,
}

-- An append changes the log of its key and no other, and makes that log where it is missing.
pub get-append :
    (logs : Logs) (key j : String) (msg : ℕ)
    → get j (append logs key msg).1.inner ≡ (
        if key == j
        then some (Log.append (get_or Log.new key logs.inner) msg).1
        else get j logs.inner)
unfolding append
get-append logs key j msg =
    get-insert key j (Log.append (get_or Log.new key logs.inner) msg).1 logs.inner

-- What a poll reads of one log.
abbrev pub polled : Option Log.Log → Option ℕ → Option (List (ℕ × ℕ))
polled (some log) (some off) = some (Log.read_from log off none)
polled _ _ = none

abbrev or_else : {A : Type 0} → Option A → Option A → Option A
or_else none o = o
or_else (some a) o = some a

get-poll_entry :
    (logs : Logs) (result : HashMap String (List (ℕ × ℕ))) (key j : String) (off : ℕ)
    → get j (poll_entry logs result key off) ≡ (
        if key == j
        then or_else (polled (get j logs.inner) (some off)) (get j result)
        else get j result)
unfolding poll_entry
get-poll_entry logs result key j off = elim (Option-cases (get key logs.inner)) [
  | inl e ↦ ground (arith, string_eq.beq_iff key j)
  | inr (log, e) ↦
      ground (arith, string_eq.beq_iff key j, get-insert key j (Log.read_from log off none) result)
]

get-poll_from :
    (logs : Logs) (result : HashMap String (List (ℕ × ℕ))) (offsets : HashMap String ℕ) (j : String)
    → IsMap offsets
    → get j (poll_from logs result offsets)
      ≡ or_else (polled (get j logs.inner) (get j offsets)) (get j result)
unfolding poll_from get
get-poll_from logs result [] j m = ground arith
get-poll_from logs result ((key, off) ∷ offsets) j m = ground (
  arith,
  get-poll_from logs (poll_entry logs result key off) offsets j m.1,
  get-poll_entry logs result key j off,
  string_eq.beq_iff key j,
  m.0,
)

-- A poll, in whose request each key stands once, answers for exactly the requested keys that have a
-- log, each from its requested offset.
pub get-poll :
    (logs : Logs) (offsets : HashMap String ℕ) (j : String)
    → IsMap offsets
    → get j (poll logs offsets) ≡ polled (get j logs.inner) (get j offsets)
unfolding poll get
get-poll logs offsets j m = ground (arith, get-poll_from logs [] offsets j m)

abbrev pub committed : Option Log.Log → Option ℕ → Option Log.Log
committed (some log) (some off) = some (Log.commit log off)
committed o _ = o

get-commit_entry :
    (inner : HashMap String Log.Log) (key j : String) (off : ℕ)
    → get j (commit_entry inner key off)
      ≡ (if key == j then committed (get j inner) (some off) else get j inner)
unfolding commit_entry
get-commit_entry inner key j off = elim (Option-cases (get key inner)) [
  | inl e ↦ ground (arith, string_eq.beq_iff key j)
  | inr (log, e) ↦
      ground (arith, string_eq.beq_iff key j, get-insert key j (Log.commit log off) inner)
]

get-commit_all :
    (inner : HashMap String Log.Log) (offsets : HashMap String ℕ) (j : String)
    → IsMap offsets
    → get j (commit_all inner offsets) ≡ committed (get j inner) (get j offsets)
unfolding commit_all get
get-commit_all inner [] j m = ground arith
get-commit_all inner ((key, off) ∷ offsets) j m = ground (
  arith,
  get-commit_all (commit_entry inner key off) offsets j m.1,
  get-commit_entry inner key j off,
  string_eq.beq_iff key j,
  m.0,
)

-- A commit moves the marks of the named logs that exist, and makes no log.
pub get-commit_offsets :
    (logs : Logs) (offsets : HashMap String ℕ) (j : String)
    → IsMap offsets
    → get j (commit_offsets logs offsets).inner ≡ committed (get j logs.inner) (get j offsets)
unfolding commit_offsets
get-commit_offsets logs offsets j m = get-commit_all logs.inner offsets j m

abbrev pub mark : Option Log.Log → Option ℕ
mark none = none
mark (some log) = some (Log.committed_offset log)

get-list_entry :
    (logs : Logs) (result : HashMap String ℕ) (key j : String)
    → get j (list_entry logs result key)
      ≡ (if key == j then or_else (mark (get j logs.inner)) (get j result) else get j result)
unfolding list_entry
get-list_entry logs result key j = elim (Option-cases (get key logs.inner)) [
  | inl e ↦ ground (arith, string_eq.beq_iff key j)
  | inr (log, e) ↦
      ground (arith, string_eq.beq_iff key j, get-insert key j (Log.committed_offset log) result)
]

get-list_from :
    (logs : Logs) (result : HashMap String ℕ) (keys : List String) (j : String)
    → get j (list_from logs result keys)
      ≡ (if contains j keys then or_else (mark (get j logs.inner)) (get j result) else get j result)
unfolding list_from contains
get-list_from logs result [] j = refl
get-list_from logs result (key ∷ keys) j = ground (
  arith,
  get-list_from logs (list_entry logs result key) keys j,
  get-list_entry logs result key j,
)

-- The marks are answered for exactly the listed keys that have a log.
pub get-list_committed_offsets :
    (logs : Logs) (keys : List String) (j : String)
    → get j (list_committed_offsets logs keys)
      ≡ (if contains j keys then mark (get j logs.inner) else none)
unfolding list_committed_offsets get
get-list_committed_offsets logs keys j = ground (arith, get-list_from logs [] keys j)
