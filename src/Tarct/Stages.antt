-- ===== src/Tarct/Stages.antt =====
-- The staging of a transaction against what a transaction promises.
use glome_rs.Base.{
  Bool-cases, List, Option, String, [], arith, false, inl, inr, nat_eq, pair_eq, refl, some,
  string_eq, true, ℕ, ◌++◌, ◌==◌, ◌||◌, ◌∷◌, ◌≡◌,
}
use mathlib.Core.List.{append-nil, append_assoc}
use glome_rs.Collections.HashMap.{HashMap, get, insert, get_or, IsMap, get-insert, insert-IsMap}
use glome_rs.Maelstrom.Message.{Version, Op}
use glome_rs.Txn.{not_both, last_write, value_after, answer, answers, IsKnown, last_write-snoc}
use glome_rs.Tarct.Kv
use glome_rs.Tarct.Kv.{Kv, same_version}
use glome_rs.Tarct.{Stage, empty_stage, stage_op, stage_txn, has_conflict}

-- Every version in the list is the current one.
abbrev pub IsCurrent : Kv → HashMap ℕ Version → Type 0
IsCurrent kv [] = Unit
IsCurrent kv ((k, v) ∷ m) = (v ≡ Kv.version kv k) × IsCurrent kv m

-- A stage that `done` has reached over a store `kv`.
pub record Staged (kv : Kv) (done results : List Op) (stage : Stage) : Type 0 where
  pub answered : stage.results ≡ results
  pub writes : (k : ℕ) → get k stage.write_set ≡ last_write k done
  pub write_map : IsMap stage.write_set
  pub current : IsCurrent kv stage.read_set

insert-IsCurrent :
    (kv : Kv) (k : ℕ) (m : HashMap ℕ Version)
    → IsCurrent kv m
    → IsCurrent kv (insert k (Kv.version kv k) m)
unfolding insert
insert-IsCurrent kv k [] h = (refl, tt)
insert-IsCurrent kv k ((j, v) ∷ m) h = ground (arith, insert-IsCurrent kv k m h.1)

-- What was read is still current when the transaction ends, so the check finds no conflict.
pub has_conflict_current :
    (kv : Kv) (m : HashMap ℕ Version) → IsCurrent kv m → has_conflict kv m ≡ false
unfolding has_conflict
has_conflict_current kv [] h = refl
has_conflict_current kv ((k, v) ∷ m) h = ground (arith, has_conflict_current kv m h.1)

stage_op_lem :
    (kv : Kv) (done results : List Op) (stage : Stage) (op : String) (j : ℕ) (v : Option ℕ)
    → ((op == "r") || (op == "w")) ≡ true
    → Staged kv done results stage
    → (stage' : Stage) × (stage_op kv stage (op, j, v) ≡ some stage')
      × Staged kv
          (done ++ (op, j, v) ∷ [])
          (results ++ answer (Kv.get kv) done (op, j, v) ∷ [])
          stage'
unfolding stage_op
stage_op_lem kv done results stage op j v known h = elim (Bool-cases (op == "r")) [
  | inl is_r ↦ (
    record {
      results = stage.results ++ ("r", j, get_or (Kv.get kv j) j stage.write_set) ∷ [];
      read_set = insert j (Kv.version kv j) stage.read_set;
      write_set = stage.write_set;
    },
    ground arith,
    record {
      answered =
          unfold answer value_after get_or in
          ground (arith, h.answered, h.writes j, string_eq.beq_iff op "r");
      writes = λ k. ground (arith, h.writes k, not_both op is_r, last_write-snoc k j op v done);
      write_map = h.write_map;
      current = insert-IsCurrent kv j stage.read_set h.current;
    },
  )
  | inr not_r ↦ (
    record stage {
      write_set = insert j v stage.write_set;
      results = stage.results ++ ("w", j, v) ∷ [];
    },
    ground arith,
    record {
      answered = unfold answer in ground (arith, h.answered, string_eq.beq_iff op "w");
      writes = λ k.
          ground
            (arith, h.writes k, last_write-snoc k j op v done, get-insert j k v stage.write_set);
      write_map = insert-IsMap j v stage.write_set h.write_map;
      current = h.current;
    },
  )
]

stage_txn_from :
    (kv : Kv) (done results : List Op) (stage : Stage) (txn : List Op)
    → IsKnown txn
    → Staged kv done results stage
    → (stage' : Stage) × (stage_txn kv stage txn ≡ some stage')
      × Staged kv (done ++ txn) (results ++ answers (Kv.get kv) done txn) stage'
unfolding stage_txn answers
stage_txn_from kv done results stage [] known h = (stage, refl, simp append-nil h)
stage_txn_from kv done results stage ((op, j, v) ∷ txn) known h =
    let (s', e, h') = stage_op_lem kv done results stage op j v known.0 h in
    let (s'', e', h'') =
      stage_txn_from kv (done ++ (op, j, v) ∷ [])
        (results ++ answer (Kv.get kv) done (op, j, v) ∷ []) s' txn known.1 h' in
    (
      s'',
      ground (arith, e, e'),
      rw
          (
            ← append_assoc done ((op, j, v) ∷ []) txn,
            ← append_assoc results (answer (Kv.get kv) done (op, j, v) ∷ []),
          )
          h'',
    )

pub stage_txn-Staged :
    (kv : Kv) (txn : List Op)
    → IsKnown txn
    → (stage : Stage) × (stage_txn kv empty_stage txn ≡ some stage)
      × Staged kv txn (answers (Kv.get kv) [] txn) stage
stage_txn-Staged kv txn known = stage_txn_from kv [] [] empty_stage txn known (record {
  answered = refl;
  writes = λ k. unfold get last_write in refl;
  write_map = tt;
  current = tt;
})
