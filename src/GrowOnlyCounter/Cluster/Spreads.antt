-- ===== src/GrowOnlyCounter/Cluster/Spreads.antt =====
-- What was added at the nodes comes to all of them.
use glome_rs.Base.{
  All, All-imp, Bool-cases, List, String, [], arith, beq_refl, false, inl, inr, nat_eq, pair_eq,
  string_eq, subst, true, u64_mod, ℕ, ◌%◌, ◌==◌, ◌∷◌, ◌≡◌,
}
use glome_rs.Collections.HashMap.{HashMap, get_or, IsMap}
use glome_rs.Collections.HashMap.Views.{total}
use glome_rs.Collections.HashSet.{contains}
use glome_rs.GrowOnlyCounter.{handle_read}
use glome_rs.GrowOnlyCounter.Cluster.Ledger.{sum64}
use glome_rs.GrowOnlyCounter.Cluster.Reads.{read_all}
use glome_rs.GrowOnlyCounter.Cluster.Afterwards.{
  All-contains, Later-Reach, Later-added, Later-trans, Counts, Counts-all, Counts-later, Leads,
}
use glome_rs.GrowOnlyCounter.Cluster.Arrivals.{arrives}
use glome_rs.GrowOnlyCounter.Cluster.{Cluster, Reach, Later}

All-all :
    (P : String → Type 0) (xs : List String)
    → ((x : String) → contains x xs ≡ true → P x)
    → All P xs
unfolding contains
All-all P [] h = tt
All-all P (y ∷ xs) h =
    (h y (ground (arith, beq_refl y)), All-all P xs (λ x e. h x (ground (arith, e))))

named :
    (k : String) (ids : List String)
    → contains "" ids ≡ false
    → contains k ids ≡ true
    → (k == "") ≡ false
named k ids nameless here = elim (Bool-cases (k == "")) [
  | inl e ↦ absurd (
      ground (
        arith,
        here,
        nameless,
        subst (λ i. contains i ids ≡ true) ((string_eq.beq_iff k "").0 e) here,
      ))
  | inr e ↦ e
]

module _ {V : Type 0} (ids : List String) where
  -- What can be led to for each of the keys, and stays so, can be led to for all of them.
  each :
      (P : Cluster V → String → Type 0)
      → ((c d : Cluster V) (x : String) → Reach ids c → Later c d → P c x → P d x)
      → (xs : List String) → All (λ x. (c : Cluster V) → Reach ids c → Leads ids c (λ d. P d x)) xs
      → (c : Cluster V) → Reach ids c
      → Leads ids c (λ d. All (P d) xs)
  each P stays [] h c r = (c, Later.now, tt)
  each P stays (x ∷ xs) h c r =
      let (d, l, rest) = each P stays xs h.1 c r in
      let (e, l', first) = h.0 d (Later-Reach ids r l) in
      (
        e,
        Later-trans ids l l',
        (first, All-imp (λ y. stays d e y (Later-Reach ids r l) l') xs rest),
      )

  informs :
      (j : String)
      → contains "" ids ≡ false
      → contains j ids ≡ true
      → (c : Cluster V) → Reach ids c
      → Leads ids c (λ d. All (Counts ids d j) ids)
  informs j nameless here =
      each (λ d k. Counts ids d j k) (λ c d k r l. Counts-later ids j k r l) ids
        (All-all _ ids (λ k e c r. arrives ids j k r (named k ids nameless e) here))

  spreads :
      contains "" ids ≡ false
      → (c : Cluster V) → Reach ids c
      → Leads ids c (λ d. All (λ j. All (Counts ids d j) ids) ids)
  spreads nameless =
      each (λ d j. All (Counts ids d j) ids)
        (λ c d j r l. All-imp (λ k. Counts-later ids j k r l) ids) ids
        (All-all _ ids (λ j here. informs j nameless here))

-- From every reachable cluster in which no node has the empty name and only the nodes of the list
-- were asked to add, the timers and the network alone, which can still deliver any message that was
-- ever sent, can lead to a cluster in which every node of the list reads the sum of all that was
-- added, modulo 2^64. The additions are given as a map in which each key stands once.
pub total_spreads :
    {V : Type 0} {ids : List String} {c : Cluster V} (all : HashMap String (List ℕ))
    → Reach ids c
    → contains "" ids ≡ false
    → ((k : String) → contains k ids ≡ false → c.added k ≡ [])
    → IsMap all
    → ((k : String) → c.added k ≡ get_or [] k all)
    → (d : Cluster V) × Later c d
      × All (λ j. handle_read (d.net.state j) ≡ total sum64 all % u64_mod) ids
total_spreads {V} {ids} {c} all r nameless members keyed added =
    let (d, l, counts) = spreads ids nameless c r in
    let r' : Reach ids d = Later-Reach ids r l in
    (
      d,
      l,
      All-imp
          (λ j (h : All (Counts ids d j) ids).
            read_all r' j all keyed (λ k. cc (Later-added ids l, added k))
              (λ k. elim (Bool-cases (contains k ids)) [
                | inl here ↦ All-contains (Counts ids d j) k ids h here
                | inr away ↦
                    Counts-all ids j k r' (ground (arith, members k away, Later-added ids l))
              ]))
          ids counts,
    )
