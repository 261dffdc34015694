-- ===== src/UniqueIds/Clock.antt =====
-- What the generator asks of its clock, and the ids of a sequence of readings.
use glome_rs.Base.{
  List, [], ap, arith, false, if◌then◌else◌, nat_beq, nat_eq, pair_eq, refl, string_eq, subst, sym,
  u64_mod, ℕ, ◌%◌, ◌*◌, ◌+◌, ◌<◌, ◌==◌, ◌^◌, ◌∙◌, ◌∷◌, ◌≡◌, ◌≢◌, ◌≤◌,
}
use glome_rs.UniqueIds.{IdGen, pack, tick, generate}
use glome_rs.UniqueIds.Layout.{pack_lem, masked_time}

-- The readings do not go back, from `last` on, and stay below 2^42 ms, which is in the year 2109.
abbrev pub IsSteady : ℕ → List ℕ → Type 0
IsSteady last [] = Unit
IsSteady last (t ∷ ts) = (last ≤ t) × (t < 2 ^ 42) × IsSteady t ts

-- How many of the readings are `t`.
unfoldable pub count : ℕ → List ℕ → ℕ
count t [] = 0
count t (r ∷ rs) = if r == t then count t rs + 1 else count t rs

-- No millisecond is read more often than the count has room for.
pub record IsUnhurried (g : IdGen) (clock : List ℕ) : Type 0 where
  pub this_ms : g.seq + count g.last_ms clock < 2 ^ 12
  pub any_ms : (t : ℕ) → count t clock ≤ 2 ^ 12

abbrev pub IsRising : ℕ → List ℕ → Type 0
IsRising b [] = Unit
IsRising b (x ∷ xs) = (b < x) × IsRising x xs

-- The ids for a sequence of readings.
unfoldable pub generate_all : IdGen → List ℕ → List ℕ
generate_all g [] = []
generate_all g (t ∷ ts) = let (id, g') = generate g t in id ∷ generate_all g' ts

-- The last id that the generator can have given.
abbrev pub floor : IdGen → ℕ
floor g = g.last_ms * 2 ^ 22 + g.node_hash * 2 ^ 12 + g.seq

tick-IsUnhurried :
    (g : IdGen) (t : ℕ) (ts : List ℕ) → IsUnhurried g (t ∷ ts) → IsUnhurried (tick g t) ts
unfolding tick count
tick-IsUnhurried g t ts u = record {
  this_ms = ground (arith, u.this_ms, u.any_ms t);
  any_ms = λ r. ground (arith, u.any_ms r);
}

tick_lem :
    (g : IdGen) (t : ℕ) (ts : List ℕ)
    → g.last_ms ≤ t
    → IsUnhurried g (t ∷ ts)
    → ((tick g t).last_ms ≡ t)
      × ((tick g t).node_hash ≡ g.node_hash)
      × ((tick g t).seq < 2 ^ 12)
      × (floor g < floor (tick g t))
unfolding tick count
tick_lem g t ts steady u = ground (arith, u.this_ms)

generate_lem :
    (g : IdGen) (t : ℕ) (ts : List ℕ)
    → t < 2 ^ 42
    → g.node_hash < 2 ^ 10
    → g.last_ms ≤ t
    → IsUnhurried g (t ∷ ts)
    → generate g t ≡ (floor (tick g t), tick g t)
unfolding generate
generate_lem g t ts small hash steady u =
    let wide : t % u64_mod ≡ t = omega arith in
    let (same_ms, same_hash, room, _) = tick_lem g t ts steady u in
    rw (wide, masked_time t small)
      (ap (λ id. (id, tick g t))
        (pack_lem t (tick g t).node_hash (tick g t).seq small (omega arith) room
          ∙ omega (arith, same_ms)))

-- As long as the clock does not go back and stays below 2^42, no millisecond is read more than 4096
-- times and the last one of the generator no more than the count has room for, each id is above
-- those before it.
pub generate_all-IsRising :
    (g : IdGen) (clock : List ℕ)
    → g.node_hash < 2 ^ 10
    → IsSteady g.last_ms clock
    → IsUnhurried g clock
    → IsRising (floor g) (generate_all g clock)
unfolding generate_all
generate_all-IsRising g [] hash steady u = tt
generate_all-IsRising g (t ∷ ts) hash steady u =
    let (same_ms, same_hash, room, above) = tick_lem g t ts steady.0 u in
    rw (generate_lem g t ts steady.1 hash steady.0 u) (
      above,
      generate_all-IsRising (tick g t) ts (omega arith)
          (subst (λ m. IsSteady m ts) (sym same_ms) steady.2) (tick-IsUnhurried g t ts u),
    )

-- At another millisecond the count starts again.
abbrev restarted : IdGen → ℕ → IdGen
restarted g t = record g { last_ms = t; seq = 0 }

generate-other_ms :
    (g : IdGen) (t : ℕ)
    → t ≢ g.last_ms
    → t < 2 ^ 42
    → generate g t ≡ (pack t g.node_hash 0, restarted g t)
unfolding generate tick
generate-other_ms g t new small =
    let wide : t % u64_mod ≡ t = omega arith in
    let other : nat_beq t g.last_ms ≡ false = ground arith in
    rw (wide, masked_time t small, other) refl

-- Where the clock goes back to a millisecond after another one, both below 2^42 and the first not
-- the last one of the generator, the generator gives again the id that it gave there first.
pub generate_repeats :
    (g : IdGen) (t t' : ℕ)
    → t ≢ g.last_ms
    → t' ≢ t
    → t < 2 ^ 42
    → t' < 2 ^ 42
    → let (first, g') = generate g t in
      let (second, g'') = generate g' t' in (generate g'' t).0 ≡ first
generate_repeats g t t' new apart ht ht' =
    rw
      (
        generate-other_ms g t new ht,
        generate-other_ms (restarted g t) t' apart ht',
        generate-other_ms (restarted (restarted g t) t') t (λ e. apart (sym e)) ht,
      )
      refl
