-- ===== src/Tarct/Kv/UnitTests.antt =====
-- The unit tests of `KV` in tarct/src/node.rs, and that all of them hold.
use glome_rs.Base.{Option, [], nat_eq, none, pair_eq, refl, some, string_eq, ℕ, ◌∷◌, ◌≡◌}
use glome_rs.Collections.HashMap
use glome_rs.Collections.HashMap.{get_or}
use glome_rs.Maelstrom.Message.{Version}
use glome_rs.Tarct.Kv
use glome_rs.Tarct.Kv.{Kv, new, get, version, apply, merge_batch}

-- `Version { ts, node: 0 }`
abbrev v : ℕ → Version
v ts = record { ts = ts; node = 0 }

-- A key has the value, and a version of the time.
abbrev HasEntry : Kv → ℕ → Option ℕ → ℕ → Type 0
HasEntry kv key value ts = (get kv key ≡ value) × ((version kv key).ts ≡ ts)

abbrev TestKvNew : Type 0
TestKvNew = (new.entries ≡ []) × (new.versions ≡ [])

abbrev TestKvDefault : Type 0
TestKvDefault = (new.entries ≡ []) × (new.versions ≡ [])

abbrev TestKvGetNonexistentKey : Type 0
TestKvGetNonexistentKey = get new 1 ≡ none

abbrev TestKvVersionNonexistentKey : Type 0
TestKvVersionNonexistentKey = (version new 1).ts ≡ 0

abbrev TestKvApplyNewKey : Type 0
TestKvApplyNewKey = HasEntry (apply new 1 (some 42) (v 1)) 1 (some 42) 1

abbrev TestKvApplyNewerVersion : Type 0
TestKvApplyNewerVersion =
    HasEntry (apply (apply new 1 (some 42) (v 1)) 1 (some 99) (v 2)) 1 (some 99) 2

abbrev TestKvApplyOlderVersionIgnored : Type 0
TestKvApplyOlderVersionIgnored =
    HasEntry (apply (apply new 1 (some 42) (v 2)) 1 (some 99) (v 1)) 1 (some 42) 2

abbrev TestKvApplySameVersionIgnored : Type 0
TestKvApplySameVersionIgnored =
    HasEntry (apply (apply new 1 (some 42) (v 1)) 1 (some 99) (v 1)) 1 (some 42) 1

abbrev TestKvApplyNullValue : Type 0
TestKvApplyNullValue = HasEntry (apply new 1 none (v 1)) 1 none 1

abbrev TestKvMergeBatch : Type 0
TestKvMergeBatch =
    let kv = merge_batch new ((1, some 10, v 1) ∷ (2, some 20, v 1) ∷ (3, none, v 1) ∷ []) in
    HasEntry kv 1 (some 10) 1 × HasEntry kv 2 (some 20) 1 × HasEntry kv 3 none 1

abbrev TestKvMergeBatchWithVersionConflicts : Type 0
TestKvMergeBatchWithVersionConflicts =
    let kv =
      merge_batch (apply new 1 (some 42) (v 3))
        ((1, some 10, v 1) ∷ (1, some 20, v 4) ∷ (2, some 99, v 2) ∷ []) in
    HasEntry kv 1 (some 20) 4 × HasEntry kv 2 (some 99) 2

abbrev TestVersionBasedConflictResolution : Type 0
TestVersionBasedConflictResolution =
    HasEntry
      (apply (apply (apply (apply new 1 (some 30) (v 3)) 1 (some 10) (v 1)) 1 (some 20) (v 2)) 1
        (some 40) (v 4))
      1 (some 40) 4

tests_pass :
    TestKvNew × TestKvDefault × TestKvGetNonexistentKey × TestKvVersionNonexistentKey
    × TestKvApplyNewKey × TestKvApplyNewerVersion × TestKvApplyOlderVersionIgnored
    × TestKvApplySameVersionIgnored × TestKvApplyNullValue × TestKvMergeBatch
    × TestKvMergeBatchWithVersionConflicts × TestVersionBasedConflictResolution
unfolding Kv.get Kv.version Kv.apply Kv.merge_batch get_or HashMap.get HashMap.insert
tests_pass = (
  (refl, refl),
  (refl, refl),
  refl,
  refl,
  (refl, refl),
  (refl, refl),
  (refl, refl),
  (refl, refl),
  (refl, refl),
  ((refl, refl), (refl, refl), (refl, refl)),
  ((refl, refl), (refl, refl)),
  (refl, refl),
)
