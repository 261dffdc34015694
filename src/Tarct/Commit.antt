-- ===== src/Tarct/Commit.antt =====
-- The commit of a transaction: what the store holds afterwards.
use glome_rs.Base.{
  Bool-cases, Option, [], ap, arith, inl, inr, nat_beq, nat_beq_iff, nat_eq, none, pair_eq, refl,
  some, string_eq, true, ℕ, ◌∙◌, ◌∷◌, ◌≡◌,
}
use glome_rs.Collections.HashMap.{HashMap, get, IsMap}
use glome_rs.Maelstrom.Message.{Version}
use glome_rs.Tarct.Kv
use glome_rs.Tarct.Kv.{Kv, version_lt}
use glome_rs.Tarct.Kv.Merge.{Entry, entry, entry-apply}
use glome_rs.Tarct.{apply_all}

abbrev pub written : Entry → Option (Option ℕ) → Version → Entry
written e none v = e
written e (some val) v = record { value = val; version = v }

apply_all_absent :
    (kv : Kv) (write_set : HashMap ℕ (Option ℕ)) (v : Version) (j : ℕ)
    → get j write_set ≡ none
    → entry (apply_all kv write_set v) j ≡ entry kv j
unfolding apply_all get
apply_all_absent kv [] v j h = refl
apply_all_absent kv ((k, val) ∷ ws) v j h =
    ground (arith, apply_all_absent (Kv.apply kv k val v) ws v j, entry-apply kv k j val v)

-- Where the new version is above that of a key, the key gets the value that the write-set, in which
-- each key stands once, has for it, under the new version; it stays as it is where the write-set
-- has none.
pub entry-apply_all :
    (kv : Kv) (write_set : HashMap ℕ (Option ℕ)) (v : Version) (j : ℕ)
    → IsMap write_set
    → version_lt (Kv.version kv j) v ≡ true
    → entry (apply_all kv write_set v) j ≡ written (entry kv j) (get j write_set) v
unfolding apply_all get
entry-apply_all kv [] v j m h = refl
entry-apply_all kv ((k, val) ∷ ws) v j m h = elim (Bool-cases (nat_beq k j)) [
  | inl here ↦
      let absent : get j ws ≡ none = rw (← (nat_beq_iff k j).0 here) m.0 in
      rw here (
        apply_all_absent (Kv.apply kv k val v) ws v j absent
        ∙ ground (arith, entry-apply kv k j val v))
  | inr there ↦
      let same : entry (Kv.apply kv k val v) j ≡ entry kv j =
        ground (arith, entry-apply kv k j val v) in
      let older : version_lt (Kv.version (Kv.apply kv k val v) j) v ≡ true =
        rw (ap (λ e. e.version) same) h in
      rw there (
        entry-apply_all (Kv.apply kv k val v) ws v j m.1 older
        ∙ ap (λ e. written e (get j ws) v) same)
]
