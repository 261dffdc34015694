-- ===== src/GrowOnlyCounter/Cluster/Ledger.antt =====
-- A counter against the additions of its owner, in order.
use glome_rs.Base.{
  Bool-cases, List, Option, [], add64, ap, arith, inl, inr, length, length-append, ltb, none, refl,
  some, suc, sym, take, take-nil, take_all, u64_mod, zero, ℕ, ◌++◌, ◌+◌, ◌<◌, ◌∙◌, ◌∷◌, ◌≡◌, ◌≤◌,
}
use glome_rs.Maelstrom.Message.{Counter}
use glome_rs.Maelstrom.Kv.{bump, first_add}
use glome_rs.Maelstrom.Kv.Merge.{newer}

-- The sum of the additions, modulo 2^64.
abbrev pub sum64 : List ℕ → ℕ
sum64 [] = 0
sum64 (d ∷ ds) = add64 d (sum64 ds)

sum64-snoc : (ds : List ℕ) (d : ℕ) → sum64 (ds ++ d ∷ []) ≡ add64 (sum64 ds) d
sum64-snoc [] d = omega arith
sum64-snoc (x ∷ ds) d = omega (arith, sum64-snoc ds d)

take-snoc : (n : ℕ) (ds : List ℕ) (d : ℕ) → n ≤ length ds → take n (ds ++ d ∷ []) ≡ take n ds
take-snoc zero ds d h = refl
take-snoc (suc n) [] d h = absurd (omega arith)
take-snoc (suc n) (x ∷ ds) d h = ap (◌∷◌ x) (take-snoc n ds d (omega arith))

-- The counter counts the first so many additions, as its version says.
abbrev pub IsPast : List ℕ → Option Counter → Type 0
IsPast ds none = Unit
IsPast ds (some x) = (x.version ≤ length ds) × (x.value ≡ sum64 (take x.version ds))

-- It counts them all.
abbrev pub IsCurrent : List ℕ → Option Counter → Type 0
IsCurrent ds none = length ds ≡ 0
IsCurrent ds (some x) = (x.version ≡ length ds) × (x.value ≡ sum64 ds)

pub IsPast-snoc : (ds : List ℕ) (d : ℕ) (o : Option Counter) → IsPast ds o → IsPast (ds ++ d ∷ []) o
IsPast-snoc ds d none h = tt
IsPast-snoc ds d (some x) h = (
  omega (arith, h.0, length-append ds (d ∷ [])),
  h.1 ∙ ap sum64 (sym (take-snoc x.version ds d h.0)),
)

pub IsPast-newer :
    (ds : List ℕ) (a b : Option Counter) → IsPast ds a → IsPast ds b → IsPast ds (newer a b)
IsPast-newer ds none b ha hb = hb
IsPast-newer ds (some a) none ha hb = ha
IsPast-newer ds (some a) (some b) ha hb = elim (Bool-cases (ltb a.version b.version)) [
  | inl e ↦ rw e hb
  | inr e ↦ rw e ha
]

pub IsCurrent-IsPast : (ds : List ℕ) (o : Option Counter) → IsCurrent ds o → IsPast ds o
IsCurrent-IsPast ds none h = tt
IsCurrent-IsPast ds (some x) h =
    (omega (arith, h.0), h.1 ∙ ap sum64 (sym (take_all x.version ds (omega (arith, h.0)))))

none_added : (ds : List ℕ) → length ds ≡ 0 → ds ≡ []
none_added [] h = refl
none_added (d ∷ ds) h = absurd (omega arith)

-- The owner's counter stays current when it merges older ones, and when it adds.
pub IsCurrent-newer :
    (ds : List ℕ) (a b : Option Counter) → IsCurrent ds a → IsPast ds b → IsCurrent ds (newer a b)
IsCurrent-newer ds none none ha hb = ha
IsCurrent-newer [] none (some b) ha hb = (omega (arith, hb.0), hb.1 ∙ ap sum64 (take-nil b.version))
IsCurrent-newer (d ∷ ds) none (some b) ha hb = absurd (omega arith)
IsCurrent-newer ds (some a) none ha hb = ha
IsCurrent-newer ds (some a) (some b) ha hb = elim (Bool-cases (ltb a.version b.version)) [
  | inl e ↦ absurd (ground (arith, ha.0, hb.0))
  | inr e ↦ rw e ha
]

abbrev pub with_add : ℕ → Option Counter → Option Counter
with_add d none = some (first_add d)
with_add d (some x) = some (bump d x)

pub IsCurrent-add :
    (ds : List ℕ) (d : ℕ) (o : Option Counter)
    → d < u64_mod
    → length ds + 1 < u64_mod
    → IsCurrent ds o
    → IsCurrent (ds ++ d ∷ []) (with_add d o)
IsCurrent-add ds d none small room h = let e : ds ≡ [] = none_added ds h in rw e (refl, omega arith)
IsCurrent-add ds d (some x) small room h =
    (omega (arith, h.0, length-append ds (d ∷ [])), omega (arith, h.1, sum64-snoc ds d))
