-- ===== src/Collections/HashMap/Views.antt =====
-- What a map shows of itself: `get` at every key. Two maps with the same view may be iterated in
-- different orders; what is summed over the entries depends on the view alone.
use glome_rs.Base.{
  Eq, Option, [], ap, arith, beq_refl, nat_eq, none, pair_eq, refl, some, string_eq, ℕ, ◌+◌, ◌∷◌,
  ◌≡◌,
}
use glome_rs.Collections.HashMap.{HashMap, get, insert, remove, IsMap, get-remove, remove-IsMap}

-- The sum of `f` over the values.
unfoldable pub total {ℓ κ} : {K : Type ℓ} {V : Type κ} → (V → ℕ) → HashMap K V → ℕ
total f [] = 0
total f ((k, v) ∷ m) = f v + total f m

abbrev pub part {κ} : {V : Type κ} → (V → ℕ) → Option V → ℕ
part f none = 0
part f (some v) = f v

module _ {ℓ κ} {K : Type ℓ} {V : Type κ} ⦃e : Eq K⦄ where
  pub record SameView (m n : HashMap K V) : Type (ℓ ⊔ κ) where
    pub views : (k : K) → get k m ≡ get k n

  pub total-insert :
      (f : V → ℕ) (k : K) (v : V) (m : HashMap K V)
      → total f (insert k v m) + part f (get k m) ≡ total f m + f v
  unfolding total get insert
  total-insert f k v [] = omega arith
  total-insert f k v ((j, w) ∷ m) = ground (arith, total-insert f k v m)

  remove_absent : (k : K) (m : HashMap K V) → get k m ≡ none → remove k m ≡ m
  unfolding get remove
  remove_absent k [] h = refl
  remove_absent k ((j, w) ∷ m) h = ground (arith, remove_absent k m)

  total-remove :
      (f : V → ℕ) (k : K) (m : HashMap K V)
      → IsMap m
      → total f (remove k m) + part f (get k m) ≡ total f m
  unfolding total get remove
  total-remove f k [] h = omega arith
  total-remove f k ((j, w) ∷ m) h =
      ground (arith, total-remove f k m h.1, e.beq_iff j k, remove_absent k m)

  part_gone :
      {W : Type κ} (f : V → ℕ) (h : W → ℕ) (k : K) (w : W) (m : HashMap K V) (n : HashMap K W)
      → get k n ≡ none
      → ((j : K) → part f (get j m) ≡ part h (get j ((k, w) ∷ n)))
      → (j : K) → part f (get j (remove k m)) ≡ part h (get j n)
  unfolding get
  part_gone f h k w m n g s j = ground (arith, s j, get-remove k j m, e.beq_iff k j, g)

  -- Two maps that give each key the same part have equal sums, whatever the orders of iteration.
  pub total-part :
      {W : Type κ} (f : V → ℕ) (h : W → ℕ) (m : HashMap K V) (n : HashMap K W)
      → IsMap m
      → IsMap n
      → ((k : K) → part f (get k m) ≡ part h (get k n))
      → total f m ≡ total h n
  unfolding total get
  total-part f h [] [] hm hn s = refl
  total-part f h ((j, v) ∷ m) [] hm hn s = omega (arith, total-part f h m [] hm.1 tt rest, here)
    where
      here : f v ≡ 0
      here = ground (arith, s j, beq_refl j)

      rest : (k : K) → part f (get k m) ≡ 0
      rest k = ground (arith, s k, e.beq_iff j k, hm.0)
  total-part f h m ((k, w) ∷ n) hm hn s = omega (
    arith,
    total-remove f k m hm,
    total-part f h (remove k m) n (remove-IsMap k m hm) hn.1 (part_gone f h k w m n hn.0 s),
    here,
  )
    where
      here : part f (get k m) ≡ h w
      here = ground (arith, s k, beq_refl k)

  -- Equal views have equal sums, whatever the orders of iteration.
  pub total-SameView :
      (f : V → ℕ) (m n : HashMap K V) → IsMap m → IsMap n → SameView m n → total f m ≡ total f n
  total-SameView f m n hm hn s = total-part f f m n hm hn (λ k. ap (part f) (s.views k))
