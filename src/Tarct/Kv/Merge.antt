-- ===== src/Tarct/Kv/Merge.antt =====
-- Writes with versions: the last writer wins, whatever the order of arrival.
use glome_rs.Base.{
  Bool-cases, List, Option, [], ap, arith, false, if◌then◌else◌, inl, inr, nat_beq, nat_beq_iff,
  nat_eq, none, pair_eq, refl, string_eq, sym, true, ℕ, ◌∙◌, ◌∷◌, ◌≡◌,
}
use glome_rs.Collections.HashMap.{HashMap, get_or, insert, get-insert}
use glome_rs.Maelstrom.Message.{Version}
use glome_rs.Tarct.Kv
use glome_rs.Tarct.Kv.{Kv, version_lt, version, apply, merge_batch}

get_or-insert {ℓ} :
    {A : Type ℓ} (d v : A) (k j : ℕ) (m : HashMap ℕ A)
    → get_or d j (insert k v m) ≡ (if nat_beq k j then v else get_or d j m)
unfolding get_or
get_or-insert d v k j m = ground (arith, get-insert k j v m)

-- A value under its version.
pub record Entry : Type 0 where
  pub value : Option ℕ
  pub version : Version

abbrev pub entry : Kv → ℕ → Entry
entry kv k = record { value = Kv.get kv k; version = version kv k }

-- The one with the higher version; at a tie, the first.
abbrev pub later : Entry → Entry → Entry
later a b = if version_lt a.version b.version then b else a

pub entry-apply :
    (kv : Kv) (k j : ℕ) (val : Option ℕ) (v : Version)
    → entry (apply kv k val v) j ≡ (
        if nat_beq k j
        then later (entry kv j) (record { value = val; version = v })
        else entry kv j)
unfolding apply Kv.get version
entry-apply kv k j val v =
    ground (
      arith,
      get_or-insert none val k j kv.entries,
      get_or-insert Kv.zero_version v k j kv.versions,
    )

-- The latest of an entry and of the writes to its key.
pub latest : ℕ → Entry → List (ℕ × Option ℕ × Version) → Entry
latest j e [] = e
latest j e ((k, val, v) ∷ writes) =
    latest j (if nat_beq k j then later e (record { value = val; version = v }) else e) writes

-- A batch leaves each key with the latest of what it had and what the batch writes to it.
pub entry-merge_batch :
    (kv : Kv) (writes : List (ℕ × Option ℕ × Version)) (j : ℕ)
    → entry (merge_batch kv writes) j ≡ latest j (entry kv j) writes
unfolding merge_batch latest
entry-merge_batch kv [] j = refl
entry-merge_batch kv ((k, val, v) ∷ writes) j =
    entry-merge_batch (apply kv k val v) writes j
    ∙ ap (λ e. latest j e writes) (entry-apply kv k j val v)

abbrev pub WriteOp : Type 0
WriteOp = ℕ × Option ℕ × Version

abbrev pub entry_of : WriteOp → Entry
entry_of (k, val, v) = record { value = val; version = v }

-- Under one version no two different values are written to the key.
abbrev pub Agrees : ℕ → Entry → List WriteOp → Type 0
Agrees j x [] = Unit
Agrees j x (w ∷ ws) = (x.version ≡ w.2 → w.0 ≡ j → x ≡ entry_of w) × Agrees j x ws

abbrev pub AllAgree : ℕ → List WriteOp → List WriteOp → Type 0
AllAgree j [] ws = Unit
AllAgree j (w ∷ us) ws = (w.0 ≡ j → Agrees j (entry_of w) ws) × AllAgree j us ws

later_swap :
    (e x y : Entry) → (x.version ≡ y.version → x ≡ y) → later (later e x) y ≡ later (later e y) x
later_swap e x y h = ground arith

module _ (j k : ℕ) (e : Entry) (val : Option ℕ) (v : Version) (ws : List WriteOp) where
  latest_hit :
      nat_beq k j ≡ true
      → latest j e ((k, val, v) ∷ ws) ≡ latest j (later e (entry_of (k, val, v))) ws
  unfolding latest
  latest_hit h = rw h refl

  latest_miss : nat_beq k j ≡ false → latest j e ((k, val, v) ∷ ws) ≡ latest j e ws
  unfolding latest
  latest_miss h = rw h refl

latest-later :
    (j : ℕ) (e x : Entry) (ws : List WriteOp)
    → Agrees j x ws
    → latest j (later e x) ws ≡ later (latest j e ws) x
unfolding latest
latest-later j e x [] h = refl
latest-later j e x ((k, val, v) ∷ ws) h = elim (Bool-cases (nat_beq k j)) [
  | inl here ↦
      let w = entry_of (k, val, v) in
      let swapped : later (later e x) w ≡ later (later e w) x =
        later_swap e x w (λ q. h.0 q ((nat_beq_iff k j).0 here)) in
      latest_hit j k (later e x) val v ws here
      ∙ ap (λ u. latest j u ws) swapped
      ∙ latest-later j (later e w) x ws h.1
      ∙ ap (λ u. later u x) (sym (latest_hit j k e val v ws here))
  | inr there ↦
      latest_miss j k (later e x) val v ws there
      ∙ latest-later j e x ws h.1
      ∙ ap (λ u. later u x) (sym (latest_miss j k e val v ws there))
]

latest_swap :
    (j : ℕ) (e : Entry) (a b : List WriteOp)
    → AllAgree j a b
    → latest j (latest j e a) b ≡ latest j (latest j e b) a
unfolding latest
latest_swap j e [] b h = refl
latest_swap j e ((k, val, v) ∷ a) b h = elim (Bool-cases (nat_beq k j)) [
  | inl here ↦
      let w = entry_of (k, val, v) in
      ap (λ u. latest j u b) (latest_hit j k e val v a here)
      ∙ latest_swap j (later e w) a b h.1
      ∙ ap (λ u. latest j u a) (latest-later j e w b (h.0 ((nat_beq_iff k j).0 here)))
      ∙ sym (latest_hit j k (latest j e b) val v a here)
  | inr there ↦
      ap (λ u. latest j u b) (latest_miss j k e val v a there)
      ∙ latest_swap j e a b h.1
      ∙ sym (latest_miss j k (latest j e b) val v a there)
]

-- Two batches leave the same value and version at a key in either order of arrival, if under one
-- version they write one value to it.
pub merge_batch_swap :
    (kv : Kv) (a b : List WriteOp) (j : ℕ)
    → AllAgree j a b
    → entry (merge_batch (merge_batch kv a) b) j ≡ entry (merge_batch (merge_batch kv b) a) j
merge_batch_swap kv a b j h =
    entry-merge_batch (merge_batch kv a) b j
    ∙ ap (λ e. latest j e b) (entry-merge_batch kv a j)
    ∙ latest_swap j (entry kv j) a b h
    ∙ ap (λ e. latest j e a) (sym (entry-merge_batch kv b j))
    ∙ sym (entry-merge_batch (merge_batch kv b) a j)
