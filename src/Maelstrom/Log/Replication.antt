-- ===== src/Maelstrom/Log/Replication.antt =====
-- A replica of a log, entry by entry.
use glome_rs.Base.{
  Option, Option-cases, String, [], ap, arith, if◌then◌else◌, inl, inr, nat_beq, nat_eq, none,
  pair_eq, refl, some, string_eq, subst, sym, true, u64_mod, ℕ, ◌&&◌, ◌+◌, ◌<◌, ◌==◌, ◌∙◌, ◌∷◌, ◌≡◌,
}
use glome_rs.Collections.BTreeMap
use glome_rs.Collections.BTreeMap.{Rising, insert-Rising}
use glome_rs.Collections.HashMap.{HashMap, get, insert, get_or, get-insert}
use glome_rs.Maelstrom.Log
use glome_rs.Maelstrom.Log.Single
use glome_rs.Maelstrom.Log.Single.{Log}
use glome_rs.Maelstrom.Log.{
  Logs, get_or_create, extend, append_local, place, insert_at, commit_entry, commit_all,
  commit_offsets,
}

-- The message at an offset of a key's log.
unfoldable pub entry_at : Logs → String → ℕ → Option ℕ
entry_at logs key offset = BTreeMap.get offset (get_or_create logs key).entries

-- Every entry of the log is below its next offset.
pub record IsBounded (log : Log) : Type 0 where
  pub rising : Rising 0 log.entries
  pub below : (o m : ℕ) → BTreeMap.get o log.entries ≡ some m → o < log.next_offset

get_or-insert :
    (k j : String) (v : Log) (m : HashMap String Log)
    → get_or Single.new j (insert k v m) ≡ (if k == j then v else get_or Single.new j m)
unfolding get_or
get_or-insert k j v m = ground (arith, get-insert k j v m)

-- A replicated message is stored at the leader's offset; nothing else is touched.
pub entry_at-insert_at :
    (logs : Logs) (key j : String) (offset o msg : ℕ)
    → entry_at (insert_at logs key offset msg) j o
      ≡ (if key == j && nat_beq offset o then some msg else entry_at logs j o)
unfolding entry_at insert_at
entry_at-insert_at logs key j offset o msg = ground (
  arith,
  get_or-insert key j (place (get_or_create logs key) offset msg) logs.inner,
  BTreeMap.get-insert offset o msg (get_or_create logs key).entries,
  string_eq.beq_iff key j,
)

-- Two replicated messages leave the same entries in either order of arrival, unless they are
-- different messages for one offset of one key.
pub insert_at_swap :
    (logs : Logs) (k k' j : String) (o o' p m m' : ℕ)
    → ((k == k') && nat_beq o o' ≡ true → m ≡ m')
    → entry_at (insert_at (insert_at logs k o m) k' o' m') j p
      ≡ entry_at (insert_at (insert_at logs k' o' m') k o m) j p
insert_at_swap logs k k' j o o' p m m' h = ground (
  arith,
  entry_at-insert_at (insert_at logs k o m) k' j o' p m',
  entry_at-insert_at logs k j o p m,
  entry_at-insert_at (insert_at logs k' o' m') k j o p m,
  entry_at-insert_at logs k' j o' p m',
  string_eq.beq_iff k j,
  string_eq.beq_iff k' j,
  string_eq.beq_iff k k',
  h,
)

-- Where the entries of the log are in order and below its next offset, a local append takes a free
-- offset of the log, stores the message there, and touches no other entry of any log.
pub append_local_lem :
    (logs : Logs) (key : String) (msg : ℕ)
    → IsBounded (get_or_create logs key)
    → let (offset, logs') = append_local logs key msg in
      (entry_at logs key offset ≡ none)
      × ((j : String) (o : ℕ)
          → entry_at logs' j o
            ≡ (if key == j && nat_beq offset o then some msg else entry_at logs j o))
unfolding append_local entry_at
append_local_lem logs key msg b = (
  elim (Option-cases (BTreeMap.get log.next_offset log.entries)) [
    | inl free ↦ free
    | inr (m, taken) ↦ absurd (omega (arith, b.below log.next_offset m taken))
  ],
  λ j o. ground (
    arith,
    get_or-insert key j (extend log msg) logs.inner,
    BTreeMap.get-insert log.next_offset o msg log.entries,
    string_eq.beq_iff key j,
  ),
)
  where
    log : Log
    log = get_or_create logs key

-- A replicated write keeps a log bounded, as long as its offset is below 2^64 - 1.
pub place-IsBounded :
    (log : Log) (offset msg : ℕ)
    → IsBounded log
    → offset + 1 < u64_mod
    → IsBounded (place log offset msg)
place-IsBounded log offset msg b room = record {
  rising = insert-Rising 0 offset msg log.entries (omega arith) b.rising;
  below = λ o m h. ground (arith, BTreeMap.get-insert offset o msg log.entries, b.below o m);
}

-- A local append keeps a log bounded, as long as its offset is below 2^64 - 1.
pub extend-IsBounded :
    (log : Log) (msg : ℕ)
    → IsBounded log
    → log.next_offset + 1 < u64_mod
    → IsBounded (extend log msg)
extend-IsBounded log msg b room = record {
  rising = insert-Rising 0 log.next_offset msg log.entries (omega arith) b.rising;
  below =
      λ o m h. ground (arith, BTreeMap.get-insert log.next_offset o msg log.entries, b.below o m);
}

pub get_or_create-append_local :
    (logs : Logs) (key j : String) (msg : ℕ)
    → get_or_create (append_local logs key msg).1 j
      ≡ (if key == j then extend (get_or_create logs key) msg else get_or_create logs j)
unfolding append_local get_or_create
get_or_create-append_local logs key j msg =
    get_or-insert key j (extend (get_or_create logs key) msg) logs.inner

pub get_or_create-insert_at :
    (logs : Logs) (key j : String) (offset msg : ℕ)
    → get_or_create (insert_at logs key offset msg) j
      ≡ (if key == j then place (get_or_create logs key) offset msg else get_or_create logs j)
unfolding insert_at get_or_create
get_or_create-insert_at logs key j offset msg =
    get_or-insert key j (place (get_or_create logs key) offset msg) logs.inner

-- The same entries and the same next offset.
abbrev SameEntries : Log → Log → Type 0
SameEntries a b = (a.entries ≡ b.entries) × (a.next_offset ≡ b.next_offset)

commit_entry_same :
    (inner : HashMap String Log) (key j : String) (off : ℕ)
    → SameEntries (get_or Single.new j (commit_entry inner key off)) (get_or Single.new j inner)
unfolding commit_entry get_or
commit_entry_same inner key j off = elim (Option-cases (get key inner)) [
  | inl e ↦ rw (commit_entry, e) (refl, refl)
  | inr (log, e) ↦ (
    ground (
      arith,
      e,
      string_eq.beq_iff key j,
      get-insert key j (record log { committed = off }) inner,
      get-insert key j log inner,
    ),
    ground (
      arith,
      e,
      string_eq.beq_iff key j,
      get-insert key j (record log { committed = off }) inner,
      get-insert key j log inner,
    ),
  )
]

commit_all_same :
    (inner : HashMap String Log) (offsets : HashMap String ℕ) (j : String)
    → SameEntries (get_or Single.new j (commit_all inner offsets)) (get_or Single.new j inner)
unfolding commit_all
commit_all_same inner [] j = (refl, refl)
commit_all_same inner ((key, off) ∷ offsets) j =
    let (e, n) = commit_all_same (commit_entry inner key off) offsets j in
    let (e', n') = commit_entry_same inner key j off in (e ∙ e', n ∙ n')

-- A commit leaves the entries of every log as they are.
pub entry_at-commit_offsets :
    (logs : Logs) (offsets : HashMap String ℕ) (j : String) (o : ℕ)
    → entry_at (commit_offsets logs offsets) j o ≡ entry_at logs j o
unfolding entry_at commit_offsets get_or_create
entry_at-commit_offsets logs offsets j o =
    ap (BTreeMap.get o) (commit_all_same logs.inner offsets j).0

-- A commit keeps a log bounded.
pub commit_offsets-IsBounded :
    (logs : Logs) (offsets : HashMap String ℕ) (j : String)
    → IsBounded (get_or_create logs j)
    → IsBounded (get_or_create (commit_offsets logs offsets) j)
unfolding commit_offsets get_or_create
commit_offsets-IsBounded logs offsets j b =
    let (e, n) = commit_all_same logs.inner offsets j in
    record {
      rising = subst (Rising 0) (sym e) b.rising;
      below = λ o m h. omega (arith, n, b.below o m (ap (BTreeMap.get o) (sym e) ∙ h));
    }

pub bounded_new : (j : String) → IsBounded (get_or_create Log.new j)
unfolding get_or_create get_or get BTreeMap.get
bounded_new j = record { rising = tt; below = λ o m h. absurd (ground arith) }

-- The entry at an offset that is not below the next one is missing.
pub entry_below :
    (logs : Logs) (j : String) (o m : ℕ)
    → IsBounded (get_or_create logs j)
    → entry_at logs j o ≡ some m
    → o < (get_or_create logs j).next_offset
unfolding entry_at
entry_below logs j o m b h = b.below o m h
