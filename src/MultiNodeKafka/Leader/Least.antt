-- ===== src/MultiNodeKafka/Leader/Least.antt =====
-- The leader is the least id, whatever the order of the list in which a node learns the ids.
use glome_rs.Base.{
  Bool-cases, List, Option-cases, String, [], arith, beq_refl, false, inl, inr, nat_eq, pair_eq,
  refl, some, string_eq, subst, sym, true, ◌==◌, ◌∙◌, ◌∷◌, ◌≡◌,
}
use glome_rs.Collections.HashSet.{contains}
use glome_rs.Maelstrom.Node.{Node}
use glome_rs.MultiNodeKafka.Leader.{str_leb, insert_sorted, sort, contains-sort}
use glome_rs.MultiNodeKafka.Leader.Order.{str_leb_total, str_leb_antisym, str_leb_trans}
use glome_rs.MultiNodeKafka.{KafkaNode, first, handle_init}

abbrev IsLeast : String → List String → Type 0
IsLeast x xs = (contains x xs ≡ true) × ((a : String) → contains a xs ≡ true → str_leb x a ≡ true)

leb_refl : (a : String) → str_leb a a ≡ true
leb_refl a = elim (Bool-cases (str_leb a a)) [ inl e ↦ e | inr e ↦ str_leb_total a a e ]

IsLeast-same :
    (x : String) (xs ys : List String)
    → ((a : String) → contains a xs ≡ contains a ys)
    → IsLeast x xs
    → IsLeast x ys
IsLeast-same x xs ys same (here, least) = (sym (same x) ∙ here, λ a i. least a (same a ∙ i))

cons_first-IsLeast :
    (x z : String) (zs : List String)
    → str_leb x z ≡ true
    → IsLeast z (z ∷ zs)
    → IsLeast x (x ∷ z ∷ zs)
unfolding contains
cons_first-IsLeast x z zs below (here, least) = (
  ground (arith, beq_refl x),
  λ a i. elim (Bool-cases (x == a)) [
    | inl same ↦ subst (λ b. str_leb x b ≡ true) ((string_eq.beq_iff x a).0 same) (leb_refl x)
    | inr other ↦ str_leb_trans x z a below (least a (ground arith))
  ],
)

cons_later-IsLeast :
    (x z : String) (zs : List String)
    → str_leb x z ≡ false
    → IsLeast z (z ∷ zs)
    → IsLeast z (x ∷ z ∷ zs)
unfolding contains
cons_later-IsLeast x z zs above (here, least) = (
  ground arith,
  λ a i. elim (Bool-cases (x == a)) [
    | inl same ↦
        subst (λ b. str_leb z b ≡ true) ((string_eq.beq_iff x a).0 same) (str_leb_total x z above)
    | inr other ↦ least a (ground arith)
  ],
)

-- The first of a list after an insertion is its least, if the first was the least before.
first-insert_sorted :
    (x : String) (xs : List String)
    → ((z : String) → first xs ≡ some z → IsLeast z xs)
    → (y : String) → first (insert_sorted x xs) ≡ some y
    → IsLeast y (x ∷ xs)
unfolding first insert_sorted
first-insert_sorted x [] h y e =
    let same : x ≡ y = ground arith in
    subst (λ z. IsLeast z (x ∷ [])) same
      (unfold contains in
        (
          ground (arith, beq_refl x),
          λ a i.
              subst (λ b. str_leb x b ≡ true) ((string_eq.beq_iff x a).0 (ground arith))
                (leb_refl x),
        ))
first-insert_sorted x (z ∷ zs) h y e = elim (Bool-cases (str_leb x z)) [
  | inl below ↦
      let same : x ≡ y = ground (arith, below, e) in
      subst (λ w. IsLeast w (x ∷ z ∷ zs)) same (cons_first-IsLeast x z zs below (h z refl))
  | inr above ↦
      let same : z ≡ y = ground (arith, above, e) in
      subst (λ w. IsLeast w (x ∷ z ∷ zs)) same (cons_later-IsLeast x z zs above (h z refl))
]

first-sort : (xs : List String) (y : String) → first (sort xs) ≡ some y → IsLeast y xs
unfolding sort first
first-sort [] y e = absurd cc
first-sort (x ∷ xs) y e =
    IsLeast-same y (x ∷ sort xs) (x ∷ xs)
      (λ a. unfold contains in ground (arith, contains-sort a xs))
      (first-insert_sorted x (sort xs)
        (λ z h. IsLeast-same z xs (sort xs) (λ a. sym (contains-sort a xs)) (first-sort xs z h)) y
        e)

leader_of :
    (s : KafkaNode) (node : Node) (i : String) (ids : List String) (r : KafkaNode × Node)
    → handle_init s node i ids ≡ some r
    → first (sort ids) ≡ some r.0.leader
unfolding handle_init
leader_of s node i ids r e = elim (Option-cases (first (sort ids))) [
  | inl missing ↦ absurd (ground (arith, missing, e))
  | inr (leader, found) ↦ ground (arith, found, e)
]

-- Two nodes that are set up with lists of the same ids, in any order and any number of times, have
-- the same leader: it is one of the ids, and none is less.
pub handle_init_leader :
    (s s' : KafkaNode) (node node' : Node) (i i' : String) (ids ids' : List String)
    (r r' : KafkaNode × Node)
    → ((a : String) → contains a ids ≡ contains a ids')
    → handle_init s node i ids ≡ some r
    → handle_init s' node' i' ids' ≡ some r'
    → (r.0.leader ≡ r'.0.leader)
      × (contains r.0.leader ids ≡ true)
      × ((a : String) → contains a ids ≡ true → str_leb r.0.leader a ≡ true)
handle_init_leader s s' node node' i i' ids ids' r r' same e e' =
    let least : IsLeast r.0.leader ids = first-sort ids r.0.leader (leader_of s node i ids r e) in
    let least' : IsLeast r'.0.leader ids' =
      first-sort ids' r'.0.leader (leader_of s' node' i' ids' r' e') in
    (
      str_leb_antisym r.0.leader r'.0.leader (least.1 r'.0.leader (same r'.0.leader ∙ least'.0))
          (least'.1 r.0.leader (sym (same r.0.leader) ∙ least.0)),
      least.0,
      least.1,
    )
