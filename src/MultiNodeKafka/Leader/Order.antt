-- ===== src/MultiNodeKafka/Leader/Order.antt =====
-- The order of strings, character by character: a total order.
use glome_rs.Base.{
  String, ap, arith, false, ltb, nat_beq, refl, suc, true, zero, ℕ, ◌&&◌, ◌||◌, ◌∙◌, ◌≡◌,
}
use Prim.Native.Nat.compare as compare_ℕ
use Prim.Native.Nat.{Ordering, compare as compare_ℕ}
use Prim.Native.Char.{Char, code}
use Prim.Native.String.compare
use Prim.Native.String.{[], ◌∷◌, compare, then}
use text.Mathlib.TextEquality.{Char-path}
use glome_rs.MultiNodeKafka.Leader.{at_most, str_leb}

then_lem :
    (m n : ℕ) (o : Ordering)
    → at_most (then (compare_ℕ m n) o) ≡ (ltb m n || (nat_beq m n && at_most o))
then_lem zero zero o = ap (λ x. at_most (then x o)) compare_ℕ.zero-zero ∙ ground arith
then_lem zero (suc n) o = ap (λ x. at_most (then x o)) (compare_ℕ.zero-suc n) ∙ ground arith
then_lem (suc m) zero o = ap (λ x. at_most (then x o)) (compare_ℕ.suc-zero m) ∙ ground arith
then_lem (suc m) (suc n) o =
    ap (λ x. at_most (then x o)) (compare_ℕ.suc-suc m n) ∙ then_lem m n o ∙ ground arith

leb_nil : (s : String) → str_leb [] s ≡ true
leb_nil [] = ap at_most compare.nil-nil
leb_nil (d ∷ t) = ap at_most (compare.nil-cons d t)

leb_not_nil : (c : Char) (s : String) → str_leb (c ∷ s) [] ≡ false
leb_not_nil c s = ap at_most (compare.cons-nil c s)

leb-cons :
    (c d : Char) (s t : String)
    → str_leb (c ∷ s) (d ∷ t)
      ≡ (ltb (code c) (code d) || (nat_beq (code c) (code d) && str_leb s t))
leb-cons c d s t = ap at_most (compare.cons-cons c d s t) ∙ then_lem (code c) (code d) (compare s t)

pub str_leb_total : (a b : String) → str_leb a b ≡ false → str_leb b a ≡ true
str_leb_total [] t h = absurd (cc (h, leb_nil t))
str_leb_total (c ∷ s) [] h = leb_nil (c ∷ s)
str_leb_total (c ∷ s) (d ∷ t) h =
    ground (arith, leb-cons c d s t, leb-cons d c t s, str_leb_total s t)

pub str_leb_antisym : (a b : String) → str_leb a b ≡ true → str_leb b a ≡ true → a ≡ b
str_leb_antisym [] [] h h' = refl
str_leb_antisym [] (d ∷ t) h h' = absurd (cc (h', leb_not_nil d t))
str_leb_antisym (c ∷ s) [] h h' = absurd (cc (h, leb_not_nil c s))
str_leb_antisym (c ∷ s) (d ∷ t) h h' =
    let (codes, below, above) : (code c ≡ code d) × (str_leb s t ≡ true) × (str_leb t s ≡ true) =
      ground (arith, leb-cons c d s t, leb-cons d c t s) in
    λ i. Char-path c d codes i ∷ str_leb_antisym s t below above i

pub str_leb_trans : (a b c : String) → str_leb a b ≡ true → str_leb b c ≡ true → str_leb a c ≡ true
str_leb_trans [] b u h h' = leb_nil u
str_leb_trans (c ∷ s) [] u h h' = absurd (cc (h, leb_not_nil c s))
str_leb_trans (c ∷ s) (d ∷ t) [] h h' = absurd (cc (h', leb_not_nil d t))
str_leb_trans (c ∷ s) (d ∷ t) (e ∷ u) h h' =
    ground (arith, leb-cons c d s t, leb-cons d e t u, leb-cons c e s u, str_leb_trans s t u)
