-- ===== src/Txn.antt =====
-- What a transaction over a key-value store promises, apart from any way to run it: a read is
-- answered by the last write to its key before it in the transaction, or else by the store.
use glome_rs.Base.{
  All, List, Option, String, [], arith, false, if◌then◌else◌, nat_eq, none, pair_eq, refl, some,
  string_eq, true, ℕ, ◌&&◌, ◌++◌, ◌==◌, ◌||◌, ◌∷◌, ◌≡◌,
}
use glome_rs.Maelstrom.Message.{Op}

-- An operation is a read, a write, or of a name that the protocol does not have.
pub not_both : (op : String) → (op == "r") ≡ true → (op == "w") ≡ false
not_both op h = rw ((string_eq.beq_iff op "r").0 h) refl

-- The last value written to the key.
unfoldable pub last_write : ℕ → List Op → Option (Option ℕ)
last_write k [] = none
last_write k ((op, j, v) ∷ ops) = elim (last_write k ops) [
  | none ↦ if op == "w" && j == k then some v else none
  | some w ↦ some w
]

-- The value of a key after the operations, from a store whose values are those of `f`.
unfoldable pub value_after : (ℕ → Option ℕ) → List Op → ℕ → Option ℕ
unfolding last_write
value_after f done k = elim (last_write k done) [ none ↦ f k | some v ↦ v ]

unfoldable pub answer : (ℕ → Option ℕ) → List Op → Op → Op
unfolding value_after
answer f done (op, k, v) = if op == "r" then (op, k, value_after f done k) else (op, k, v)

-- The answers to the operations, after those that are done.
unfoldable pub answers : (ℕ → Option ℕ) → List Op → List Op → List Op
unfolding answer
answers f done [] = []
answers f done (op ∷ ops) = answer f done op ∷ answers f (done ++ op ∷ []) ops

-- Every operation is a read or a write.
abbrev pub IsKnown : List Op → Type 0
IsKnown = All (λ (op : Op). ((op.0 == "r") || (op.0 == "w")) ≡ true)

-- One more operation is the last write to its key, if it is a write.
pub last_write-snoc :
    (k j : ℕ) (op : String) (v : Option ℕ) (done : List Op)
    → last_write k (done ++ (op, j, v) ∷ [])
      ≡ (if op == "w" && j == k then some v else last_write k done)
unfolding last_write
last_write-snoc k j op v [] = ground arith
last_write-snoc k j op v ((o, i, w) ∷ done) = ground (arith, last_write-snoc k j op v done)

-- One more operation changes the value of a key exactly if it writes to it.
pub value_after-snoc :
    (f : ℕ → Option ℕ) (k j : ℕ) (op : String) (v : Option ℕ) (done : List Op)
    → value_after f (done ++ (op, j, v) ∷ []) k
      ≡ (if op == "w" && j == k then v else value_after f done k)
unfolding value_after
value_after-snoc f k j op v done = ground (arith, last_write-snoc k j op v done)
