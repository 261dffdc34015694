-- ===== src/MultiNodeKafka/Leader.antt =====
-- The order of the node ids, by which the leader is chosen.
mod Order
pub mod Least
use glome_rs.Base.{
  Bool, Bool-cases, List, String, [], arith, false, if◌then◌else◌, inl, inr, nat_eq, pair_eq, refl,
  string_eq, true, ◌==◌, ◌||◌, ◌∷◌, ◌≡◌,
}
use glome_rs.Collections.HashSet.{contains}
use Prim.Native.Nat.{Ordering}
use Prim.Native.String.{compare}

abbrev pub at_most : Ordering → Bool
at_most Ordering.gt = false
at_most _ = true

abbrev pub str_leb : String → String → Bool
str_leb a b = at_most (compare a b)

unfoldable pub insert_sorted : String → List String → List String
insert_sorted x [] = x ∷ []
insert_sorted x (y ∷ ys) = if str_leb x y then x ∷ y ∷ ys else y ∷ insert_sorted x ys

-- `all.sort()`; ids that compare equal are equal, so the order of a stable sort is the only one.
unfoldable pub sort : List String → List String
unfolding insert_sorted
sort [] = []
sort (x ∷ xs) = insert_sorted x (sort xs)

sort_leaders : sort ("n3" ∷ "n1" ∷ "n2" ∷ []) ≡ "n1" ∷ "n2" ∷ "n3" ∷ []
unfolding sort
sort_leaders = refl

-- The sorted list has the same members.
contains-insert_sorted :
    (a x : String) (xs : List String) → contains a (insert_sorted x xs) ≡ (x == a || contains a xs)
unfolding insert_sorted contains
contains-insert_sorted a x [] = refl
contains-insert_sorted a x (y ∷ ys) = elim (Bool-cases (str_leb x y)) [
  | inl first ↦ rw first refl
  | inr after ↦ rw after (ground (arith, contains-insert_sorted a x ys))
]

pub contains-sort : (a : String) (xs : List String) → contains a (sort xs) ≡ contains a xs
unfolding sort contains
contains-sort a [] = refl
contains-sort a (x ∷ xs) = ground (arith, contains-insert_sorted a x (sort xs), contains-sort a xs)
