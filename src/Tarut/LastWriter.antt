-- ===== src/Tarut/LastWriter.antt =====
-- Replicated writes: the one with the highest version wins.
use glome_rs.Base.{
  Bool-cases, List, Option, String, [], arith, if◌then◌else◌, inl, inr, ltb, nat_beq, nat_eq,
  pair_eq, refl, string_eq, true, ℕ, ◌==◌, ◌∷◌, ◌≡◌, ◌≤◌,
}
use glome_rs.Collections.HashMap.{get_or, get-insert}
use glome_rs.Tarut.{TarutNode, Write, read_entry, apply_op, apply_all}

pub record Entry : Type 0 where
  pub value : Option ℕ
  pub version : ℕ

-- What the node holds at a key.
abbrev pub entry : TarutNode → ℕ → Entry
entry s k = record { value = read_entry s.entries k; version = get_or 0 k s.versions }

abbrev pub later : Entry → Entry → Entry
later a b = if ltb a.version b.version then b else a

-- A replicated write sets the entry of its key if its version is the higher one.
pub entry-apply_op :
    (s : TarutNode) (key j : ℕ) (val : Option ℕ) (version : ℕ)
    → entry (apply_op s ("w", key, val, version)) j ≡ (
        if nat_beq key j
        then later (entry s j) (record { value = val; version = version })
        else entry s j)
unfolding apply_op read_entry get_or
entry-apply_op s key j val version =
    ground (arith, get-insert key j val s.entries, get-insert key j version s.versions)

-- Two replicated writes leave the same values and versions in either order of arrival, unless they
-- write different values to one key under one version.
pub apply_op_swap :
    (s : TarutNode) (k k' j : ℕ) (val val' : Option ℕ) (v v' : ℕ)
    → (k ≡ k' → v ≡ v' → val ≡ val')
    → entry (apply_op (apply_op s ("w", k, val, v)) ("w", k', val', v')) j
      ≡ entry (apply_op (apply_op s ("w", k', val', v')) ("w", k, val, v)) j
apply_op_swap s k k' j val val' v v' h = ground (
  arith,
  entry-apply_op (apply_op s ("w", k, val, v)) k' j val' v',
  entry-apply_op s k j val v,
  entry-apply_op (apply_op s ("w", k', val', v')) k j val v,
  entry-apply_op s k' j val' v',
)

abbrev version_at : TarutNode → ℕ → ℕ
version_at s k = get_or 0 k s.versions

version-apply_op :
    (s : TarutNode) (w : Write) (j : ℕ) → version_at s j ≤ version_at (apply_op s w) j
unfolding apply_op get_or
version-apply_op s (op, k, val, v) j = ground (arith, get-insert k j v s.versions)

version-apply_all :
    (s : TarutNode) (batch : List Write) (j : ℕ) → version_at s j ≤ version_at (apply_all s batch) j
unfolding apply_all
version-apply_all s [] j = omega arith
version-apply_all s (w ∷ batch) j =
    omega (arith, version-apply_op s w j, version-apply_all (apply_op s w) batch j)

-- The node has versions as high as those of the batch.
abbrev IsBehind : List Write → TarutNode → Type 0
IsBehind [] s = Unit
IsBehind ((op, k, _, v) ∷ batch) s = ((op == "w") ≡ true → v ≤ version_at s k) × IsBehind batch s

apply_op-IsBehind :
    (s : TarutNode) (op : String) (k : ℕ) (val : Option ℕ) (v : ℕ)
    → (op == "w") ≡ true
    → v ≤ version_at (apply_op s (op, k, val, v)) k
unfolding apply_op get_or
apply_op-IsBehind s op k val v h = ground (arith, get-insert k k v s.versions)

apply_all-IsBehind : (s : TarutNode) (batch : List Write) → IsBehind batch (apply_all s batch)
unfolding apply_all
apply_all-IsBehind s [] = tt
apply_all-IsBehind s ((op, k, val, v) ∷ batch) = (
  λ h. omega (
    arith,
    apply_op-IsBehind s op k val v h,
    version-apply_all (apply_op s (op, k, val, v)) batch k,
  ),
  apply_all-IsBehind (apply_op s (op, k, val, v)) batch,
)

apply_op_behind :
    (s : TarutNode) (op : String) (k : ℕ) (val : Option ℕ) (v : ℕ)
    → ((op == "w") ≡ true → v ≤ version_at s k)
    → apply_op s (op, k, val, v) ≡ s
unfolding apply_op
apply_op_behind s op k val v h = elim (Bool-cases (op == "w")) [
  | inl is_w ↦ elim (Bool-cases (ltb (version_at s k) v)) [
    | inl above ↦ absurd (ground (arith, h is_w))
    | inr below ↦ rw (is_w, below) refl
  ]
  | inr not_w ↦ rw not_w refl
]

apply_all_behind : (s : TarutNode) (batch : List Write) → IsBehind batch s → apply_all s batch ≡ s
unfolding apply_all
apply_all_behind s [] h = refl
apply_all_behind s ((op, k, val, v) ∷ batch) h =
    rw (apply_op_behind s op k val v h.0) (apply_all_behind s batch h.1)

-- A batch that arrives again changes nothing.
pub apply_all_again :
    (s : TarutNode) (batch : List Write) → apply_all (apply_all s batch) batch ≡ apply_all s batch
apply_all_again s batch = apply_all_behind (apply_all s batch) batch (apply_all-IsBehind s batch)
