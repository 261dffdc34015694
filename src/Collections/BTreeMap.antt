-- ===== src/Collections/BTreeMap.antt =====
-- `std::collections::BTreeMap` with numbers for keys: a list of entries with rising keys.
use glome_rs.Base.{
  ℕ, suc, ◌≤◌, ◌<◌, ◌≡◌, refl, Option, none, some, List, [], ◌∷◌, arith, ltb, leb, nat_beq,
  if◌then◌else◌, retain,
}

abbrev pub BTreeMap {ℓ} : Type ℓ → Type ℓ
BTreeMap V = List (ℕ × V)

module _ {ℓ} {V : Type ℓ} where
  unfoldable pub get : ℕ → BTreeMap V → Option V
  get k [] = none
  get k ((j, v) ∷ m) = if nat_beq j k then some v else get k m

  unfoldable pub insert : ℕ → V → BTreeMap V → BTreeMap V
  insert k v [] = (k, v) ∷ []
  insert k v ((j, w) ∷ m) =
      if ltb k j
      then (k, v) ∷ (j, w) ∷ m
      else if nat_beq j k
      then (k, v) ∷ m
      else (j, w) ∷ insert k v m

  -- `range(from..)`, in the order of the keys.
  unfoldable pub range_from : ℕ → BTreeMap V → List (ℕ × V)
  range_from from m = retain (λ (entry : ℕ × V). leb from entry.0) m

  -- The keys rise from `b` on, strictly.
  abbrev pub Rising : ℕ → BTreeMap V → Type 0
  Rising b [] = Unit
  Rising b ((k, v) ∷ m) = (b ≤ k) × Rising (suc k) m

  pub get-insert :
      (k j : ℕ) (v : V) (m : BTreeMap V)
      → get j (insert k v m) ≡ (if nat_beq k j then some v else get j m)
  unfolding get insert
  get-insert k j v [] = refl
  get-insert k j v ((i, w) ∷ m) = ground (arith, get-insert k j v m)

  pub Rising-weaken : {a b : ℕ} (m : BTreeMap V) → a ≤ b → Rising b m → Rising a m
  Rising-weaken [] h r = tt
  Rising-weaken (x ∷ m) h r = (omega arith, r.1)

  pub insert-Rising :
      (b k : ℕ) (v : V) (m : BTreeMap V) → b ≤ k → Rising b m → Rising b (insert k v m)
  unfolding insert
  insert-Rising b k v [] h r = (h, tt)
  insert-Rising b k v ((i, w) ∷ m) h r = ground (arith, insert-Rising (suc i) k v m, r)

  pub get_below : (b k : ℕ) (m : BTreeMap V) → Rising b m → k < b → get k m ≡ none
  unfolding get
  get_below b k [] r h = refl
  get_below b k ((i, w) ∷ m) r h = ground (arith, get_below (suc i) k m)

  -- The entries of a range are those of the map whose keys are in it.
  pub get-range_from :
      (from k : ℕ) (m : BTreeMap V)
      → get k (range_from from m) ≡ (if leb from k then get k m else none)
  unfolding get range_from
  get-range_from from k [] = ground arith
  get-range_from from k ((i, w) ∷ m) = ground (arith, get-range_from from k m)

  pub range_from-Rising : (b from : ℕ) (m : BTreeMap V) → Rising b m → Rising b (range_from from m)
  unfolding range_from
  range_from-Rising b from [] r = tt
  range_from-Rising b from ((i, w) ∷ m) r = ground (
    arith,
    r,
    range_from-Rising (suc i) from m r.1,
    Rising-weaken {a = b} {b = suc i} (range_from from m),
  )
