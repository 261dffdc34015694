-- ===== src/Maelstrom/Kv/Merge.antt =====
-- The merge of a grow-only counter, seen entry by entry.
use glome_rs.Base.{
  Option, String, [], arith, if◌then◌else◌, ltb, nat_eq, none, pair_eq, refl, some, string_eq, sym,
  ◌==◌, ◌∙◌, ◌∷◌, ◌≡◌,
}
use glome_rs.Collections.HashMap.{HashMap, get, IsMap, get-insert, insert-IsMap}
use glome_rs.Collections.HashMap.Views.{SameView}
use glome_rs.Maelstrom.Message.{Counter}
use glome_rs.Maelstrom.Kv.{merge_entry, merge_counters}

-- The entry with the higher version; at a tie, the first.
abbrev pub newer : Option Counter → Option Counter → Option Counter
newer none b = b
newer (some a) none = some a
newer (some a) (some b) = if ltb a.version b.version then some b else some a

get-merge_entry :
    (m : HashMap String Counter) (k j : String) (c : Counter)
    → get j (merge_entry m k c) ≡ (if k == j then newer (get k m) (some c) else get j m)
unfolding merge_entry
get-merge_entry m k j c = ground (arith, get-insert k j c m, string_eq.beq_iff k j)

merge_entry-IsMap :
    (m : HashMap String Counter) (k : String) (c : Counter) → IsMap m → IsMap (merge_entry m k c)
unfolding merge_entry
merge_entry-IsMap m k c h = ground (arith, insert-IsMap k c m h)

pub merge_counters-IsMap : (m n : HashMap String Counter) → IsMap m → IsMap (merge_counters m n)
unfolding merge_counters
merge_counters-IsMap m [] h = h
merge_counters-IsMap m ((k, c) ∷ n) h =
    merge_counters-IsMap (merge_entry m k c) n (merge_entry-IsMap m k c h)

-- After a merge with a map in which each key stands once, each node has the newer of its two
-- entries.
pub get-merge :
    (m n : HashMap String Counter) (j : String)
    → IsMap n
    → get j (merge_counters m n) ≡ newer (get j m) (get j n)
unfolding merge_counters get
get-merge m [] j h = ground arith
get-merge m ((k, c) ∷ n) j h = ground (
  arith,
  get-merge (merge_entry m k c) n j h.1,
  get-merge_entry m k j c,
  string_eq.beq_iff k j,
  h.0,
)

-- Where two maps have an entry of the same version, it is the same entry.
pub record Agree (m n : HashMap String Counter) : Type 0 where
  pub same :
      (k : String) (a b : Counter)
      → get k m ≡ some a
      → get k n ≡ some b
      → a.version ≡ b.version
      → a ≡ b

newer_assoc : (a b c : Option Counter) → newer (newer a b) c ≡ newer a (newer b c)
newer_assoc none b c = refl
newer_assoc (some a) none c = refl
newer_assoc (some a) (some b) none = ground arith
newer_assoc (some a) (some b) (some c) = ground arith

newer_comm :
    (a b : Option Counter)
    → ((x y : Counter) → a ≡ some x → b ≡ some y → x.version ≡ y.version → x ≡ y)
    → newer a b ≡ newer b a
newer_comm none none h = refl
newer_comm none (some b) h = refl
newer_comm (some a) none h = refl
newer_comm (some a) (some b) h = ground (arith, h a b refl refl)

module _ (m n : HashMap String Counter) (hm : IsMap m) (hn : IsMap n) where
  -- Two nodes that hand each other their entries end with the same entries.
  pub merge_comm : Agree m n → SameView (merge_counters m n) (merge_counters n m)
  merge_comm h = record {
    views = λ k.
        get-merge m n k hn ∙ newer_comm (get k m) (get k n) (h.same k) ∙ sym (get-merge n m k hm);
  }

  -- In maps in which each key stands once, a second merge of the same entries changes no entry.
  pub merge_again : SameView (merge_counters (merge_counters m n) n) (merge_counters m n)
  merge_again = record {
    views = λ k. ground (arith, get-merge (merge_counters m n) n k hn, get-merge m n k hn);
  }

-- Two gossips leave the same entries in either order of arrival, if they have equal entries where
-- they have equal versions, and each key stands once in both.
pub merge_swap :
    (m a b : HashMap String Counter)
    → IsMap a
    → IsMap b
    → Agree a b
    → SameView (merge_counters (merge_counters m a) b) (merge_counters (merge_counters m b) a)
merge_swap m a b ha hb h = record {
  views = λ k. cc (
    get-merge (merge_counters m a) b k hb,
    get-merge m a k ha,
    get-merge (merge_counters m b) a k ha,
    get-merge m b k hb,
    newer_assoc (get k m) (get k a) (get k b),
    newer_assoc (get k m) (get k b) (get k a),
    newer_comm (get k a) (get k b) (h.same k),
  );
}
