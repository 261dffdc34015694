-- ===== src/Collections/HashSet.antt =====
-- `std::collections::HashSet` as a list without repetition, in any order.
use glome_rs.Base.{
  Bool, Bool-cases, Eq, List, [], ap, arith, beq_refl, false, if◌then◌else◌, inl, inr, length,
  nat_eq, not, pair_eq, refl, retain, string_eq, subst, suc, take, true, zero, ℕ, ◌&&◌, ◌++◌, ◌+◌,
  ◌<◌, ◌==◌, ◌||◌, ◌∷◌, ◌≡◌, ◌≤◌,
}

abbrev pub HashSet {ℓ} : Type ℓ → Type ℓ
HashSet A = List A

module _ {ℓ} {A : Type ℓ} ⦃e : Eq A⦄ where
  unfoldable pub contains : A → HashSet A → Bool
  contains a [] = false
  contains a (x ∷ s) = x == a || contains a s

  -- The set after `insert`; the call answers whether the element is new.
  unfoldable pub insert : A → HashSet A → HashSet A
  insert a s = if contains a s then s else s ++ a ∷ []

  unfoldable pub is_new : A → HashSet A → Bool
  is_new a s = if contains a s then false else true

  -- No element stands twice.
  abbrev pub IsHashSet : HashSet A → Type 0
  IsHashSet [] = Unit
  IsHashSet (x ∷ s) = (contains x s ≡ false) × IsHashSet s

  pub contains-append :
      (a : A) (s t : List A) → contains a (s ++ t) ≡ (contains a s || contains a t)
  unfolding contains
  contains-append a [] t = refl
  contains-append a (x ∷ s) t = ground (arith, contains-append a s t)

  pub contains-insert :
      (a b : A) (s : HashSet A) → contains b (insert a s) ≡ (a == b || contains b s)
  unfolding insert contains
  contains-insert a b s = ground (arith, contains-append b s (a ∷ []), e.beq_iff a b)

  pub snoc-IsHashSet :
      (a : A) (s : HashSet A) → contains a s ≡ false → IsHashSet s → IsHashSet (s ++ a ∷ [])
  unfolding contains
  snoc-IsHashSet a [] n h = (refl, tt)
  snoc-IsHashSet a (x ∷ s) n h = ground (
    arith,
    contains-append x s (a ∷ []),
    e.beq_iff x a,
    e.beq_iff a x,
    snoc-IsHashSet a s (ground arith) h.1,
  )

  pub insert-IsHashSet : (a : A) (s : HashSet A) → IsHashSet s → IsHashSet (insert a s)
  unfolding insert
  insert-IsHashSet a s h = ground (arith, snoc-IsHashSet a s)

  pub contains-retain :
      (a : A) (p : A → Bool) (s : List A) → contains a (retain p s) ≡ (contains a s && p a)
  unfolding contains
  contains-retain a p [] = refl
  contains-retain a p (x ∷ s) = elim (Bool-cases (x == a)) [
    | inl same ↦ ground (arith, contains-retain a p s, ap p ((e.beq_iff x a).0 same))
    | inr other ↦ ground (arith, contains-retain a p s)
  ]

  pub contains-take :
      (a : A) (n : ℕ) (s : List A) → contains a (take n s) ≡ true → contains a s ≡ true
  unfolding contains
  contains-take a zero s h = cc
  contains-take a (suc n) [] h = h
  contains-take a (suc n) (x ∷ s) h = ground (arith, contains-take a n s)

  pub length-retain : (p : A → Bool) (s : List A) → length (retain p s) ≤ length s
  length-retain p [] = omega arith
  length-retain p (x ∷ s) = ground (arith, length-retain p s)

  length-retain_other :
      (a : A) (s : List A) → contains a s ≡ true → length (retain (λ x. not (x == a)) s) < length s
  unfolding contains
  length-retain_other a [] h = cc
  length-retain_other a (x ∷ s) h =
      ground (arith, length-retain (λ x. not (x == a)) s, length-retain_other a s)

  retain_missing : (a : A) (s : List A) → contains a s ≡ false → retain (λ x. not (x == a)) s ≡ s
  unfolding contains
  retain_missing a [] h = refl
  retain_missing a (x ∷ s) h = ground (arith, retain_missing a s)

  -- A set without one element has at most one fewer.
  pub length-retain_one :
      (a : A) (s : List A) → IsHashSet s → length s ≤ length (retain (λ x. not (x == a)) s) + 1
  unfolding contains
  length-retain_one a [] h = omega arith
  length-retain_one a (x ∷ s) h = elim (Bool-cases (x == a)) [
    | inl same ↦
        let e : x ≡ a = (e.beq_iff x a).0 same in
        rw same (ground (arith, retain_missing a s (subst (λ b. contains b s ≡ false) e h.0)))
    | inr other ↦ rw other (ground (arith, length-retain_one a s h.1))
  ]

  -- A set within a list is not longer than the list.
  pub length-IsHashSet :
      (s t : List A)
      → IsHashSet s
      → ((a : A) → contains a s ≡ true → contains a t ≡ true)
      → length s ≤ length t
  unfolding contains
  length-IsHashSet [] t d h = omega arith
  length-IsHashSet (x ∷ s) t d h = omega (
    arith,
    length-retain_other x t (h x (ground (arith, beq_refl x))),
    length-IsHashSet s (retain (λ y. not (y == x)) t) d.1 rest,
  )
    where
      rest : (a : A) → contains a s ≡ true → contains a (retain (λ y. not (y == x)) t) ≡ true
      rest a i =
          ground
            (arith, contains-retain a (λ y. not (y == x)) t, h a (ground arith), e.beq_iff a x, d.0)
