-- ===== src/Collections/HashMap.antt =====
-- `std::collections::HashMap` as an association list. The order of the list is the order in which
-- the map is iterated; the program may not rely on it, and the lemmas hold for every order.
pub mod Views
use glome_rs.Base.{
  Eq, List, Option, Option-cases, [], arith, beq_refl, if◌then◌else◌, inl, inr, nat_eq, none,
  pair_eq, refl, some, string_eq, ◌==◌, ◌∷◌, ◌≡◌,
}

abbrev pub HashMap {ℓ κ} : Type ℓ → Type κ → Type (ℓ ⊔ κ)
HashMap K V = List (K × V)

module _ {ℓ κ} {K : Type ℓ} {V : Type κ} where
  pub keys : HashMap K V → List K
  keys [] = []
  keys ((k, v) ∷ m) = k ∷ keys m

module _ {ℓ κ} {K : Type ℓ} {V : Type κ} ⦃e : Eq K⦄ where
  unfoldable pub get : K → HashMap K V → Option V
  get k [] = none
  get k ((j, v) ∷ m) = if j == k then some v else get k m

  unfoldable pub insert : K → V → HashMap K V → HashMap K V
  insert k v [] = (k, v) ∷ []
  insert k v ((j, w) ∷ m) = if j == k then (k, v) ∷ m else (j, w) ∷ insert k v m

  unfoldable pub remove : K → HashMap K V → HashMap K V
  remove k [] = []
  remove k ((j, w) ∷ m) = let rest = remove k m in if j == k then rest else (j, w) ∷ rest

  -- `get(k).unwrap_or(d)`
  unfoldable pub get_or : V → K → HashMap K V → V
  get_or d k m = elim (get k m) [ none ↦ d | some v ↦ v ]

  -- `entry(k).and_modify(f).or_insert(d)`
  unfoldable pub upsert : K → (V → V) → V → HashMap K V → HashMap K V
  upsert k f d m = elim (get k m) [ none ↦ insert k d m | some v ↦ insert k (f v) m ]

  -- `entry(k).or_insert(d)` as a statement: the entry is made if it is missing.
  unfoldable pub or_insert : K → V → HashMap K V → HashMap K V
  or_insert k d m = elim (get k m) [ none ↦ insert k d m | some v ↦ m ]

  -- Every key stands once, which holds of every map that `insert` and `remove` build.
  abbrev pub IsMap : HashMap K V → Type κ
  IsMap [] = Unit
  IsMap ((k, v) ∷ m) = (get k m ≡ none) × IsMap m

  pub get-insert :
      (k j : K) (v : V) (m : HashMap K V)
      → get j (insert k v m) ≡ (if k == j then some v else get j m)
  unfolding get insert
  get-insert k j v [] = refl
  get-insert k j v ((i, w) ∷ m) =
      ground (arith, e.beq_iff k j, e.beq_iff i k, e.beq_iff i j, get-insert k j v m)

  pub get-insert_self : (k : K) (v : V) (m : HashMap K V) → get k (insert k v m) ≡ some v
  get-insert_self k v m = rw (get-insert, beq_refl k) refl

  pub get-remove :
      (k j : K) (m : HashMap K V) → get j (remove k m) ≡ (if k == j then none else get j m)
  unfolding get remove
  get-remove k j [] = ground arith
  get-remove k j ((i, w) ∷ m) =
      ground (arith, e.beq_iff k j, e.beq_iff i k, e.beq_iff i j, get-remove k j m)

  pub get-upsert :
      (k j : K) (f : V → V) (d : V) (m : HashMap K V)
      → get j (upsert k f d m)
        ≡ (if k == j then elim (get k m) [ none ↦ some d | some v ↦ some (f v) ] else get j m)
  unfolding upsert
  get-upsert k j f d m = elim (Option-cases (get k m)) [
    | inl p ↦ rw (p, upsert) (get-insert k j d m)
    | inr (v, p) ↦ rw (p, upsert) (get-insert k j (f v) m)
  ]

  pub get-or_insert :
      (k j : K) (d : V) (m : HashMap K V)
      → get j (or_insert k d m) ≡ (if k == j then some (get_or d k m) else get j m)
  unfolding or_insert get_or
  get-or_insert k j d m = ground (arith, e.beq_iff k j, get-insert k j d m)

  pub insert-IsMap : (k : K) (v : V) (m : HashMap K V) → IsMap m → IsMap (insert k v m)
  unfolding get insert
  insert-IsMap k v [] h = (refl, tt)
  insert-IsMap k v ((i, w) ∷ m) h =
      ground (arith, e.beq_iff i k, e.beq_iff k i, get-insert k i v m, insert-IsMap k v m h.1)

  pub remove-IsMap : (k : K) (m : HashMap K V) → IsMap m → IsMap (remove k m)
  unfolding remove
  remove-IsMap k [] h = tt
  remove-IsMap k ((i, w) ∷ m) h = ground (arith, get-remove k i m, remove-IsMap k m h.1)

  pub upsert-IsMap :
      (k : K) (f : V → V) (d : V) (m : HashMap K V) → IsMap m → IsMap (upsert k f d m)
  unfolding upsert
  upsert-IsMap k f d m h = elim (Option-cases (get k m)) [
    | inl e ↦ rw (e, upsert) (insert-IsMap k d m h)
    | inr (v, e) ↦ rw (e, upsert) (insert-IsMap k (f v) m h)
  ]

  pub or_insert-IsMap : (k : K) (d : V) (m : HashMap K V) → IsMap m → IsMap (or_insert k d m)
  unfolding or_insert
  or_insert-IsMap k d m h = ground (arith, insert-IsMap k d m h)
