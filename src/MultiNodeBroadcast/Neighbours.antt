-- ===== src/MultiNodeBroadcast/Neighbours.antt =====
-- The gossip neighbours that a node chooses when it is initialised.
use glome_rs.Base.{
  Bool, Bool-cases, List, String, [], arith, false, inl, inr, length, length-take, min, nat_eq, not,
  pair_eq, refl, retain, string_eq, sym, true, ℕ, ◌==◌, ◌∙◌, ◌∷◌, ◌≡◌,
}
use glome_rs.Collections.HashSet.{contains, contains-retain, contains-take}
use glome_rs.Maelstrom.Node.{Node, handle_init}
use glome_rs.MultiNodeBroadcast.{construct_k_regular_neighbors}

-- What is used of `SliceRandom::shuffle`: it reorders the slice.
pub record IsShuffle (shuffle : List String → List String) : Type 0 where
  pub same_length : (xs : List String) → length (shuffle xs) ≡ length xs
  pub same_members : (xs : List String) (x : String) → contains x (shuffle xs) ≡ contains x xs

retain-retain : (p : String → Bool) (xs : List String) → retain p (retain p xs) ≡ retain p xs
retain-retain p [] = refl
retain-retain p (x ∷ xs) = elim (Bool-cases (p x)) [
  | inl e ↦ ground (arith, retain-retain p xs)
  | inr e ↦ ground (arith, retain-retain p xs)
]

-- The ids of the list that are not the node's own.
abbrev pub others : String → List String → List String
others node_id node_ids = retain (λ p. not (p == node_id)) node_ids

module _ (shuffle : List String → List String) (law : IsShuffle shuffle) (node : Node)
    (node_id : String) (node_ids : List String) (k : ℕ) where
  -- After an initialisation with the ids of the cluster, the node has `k` neighbours, or as many as
  -- there are entries of the list that are not its own id, if the shuffle reorders the list.
  pub length-neighbors :
      length (construct_k_regular_neighbors shuffle (handle_init node node_id node_ids) k)
      ≡ min k (length (others node_id node_ids))
  unfolding construct_k_regular_neighbors handle_init
  length-neighbors =
      let shuffled = shuffle (others node_id node_ids) in
      rw (retain-retain _ node_ids) (
        omega (
          arith,
          law.same_length (others node_id node_ids),
          length-take (min k (length shuffled)) shuffled,
        ))

  -- After an initialisation each neighbour is an id of the list, and none is the node itself, if
  -- the shuffle reorders the list.
  pub neighbors_lem :
      (x : String)
      → contains x (construct_k_regular_neighbors shuffle (handle_init node node_id node_ids) k)
        ≡ true
      → (contains x node_ids ≡ true) × ((x == node_id) ≡ false)
  unfolding construct_k_regular_neighbors handle_init
  neighbors_lem x h =
      let among : contains x (others node_id node_ids) ≡ true =
        rw (retain-retain _ node_ids) at (sym (law.same_members _ x) ∙ contains-take x _ _ h) in
      ground (arith, contains-retain x (λ p. not (p == node_id)) node_ids)
