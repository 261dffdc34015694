-- ===== src/Maelstrom/SimpleLog/Refinement.antt =====
-- A log implements the sequence of the messages that were appended to it.
use glome_rs.Base.{
  Bool-cases, List, Option, [], ap, ap₂, arith, dec_lt, drop, drop-nil, inl, inr, leb, leb_false→lt,
  leb→le, length, length-append, max, nat_eq, none, pair_eq, refl, some, string_eq, suc, sym, take,
  take-nil, u64_mod, ℕ, ◌++◌, ◌+◌, ◌-◌, ◌<◌, ◌∙◌, ◌∷◌, ◌≡◌, ◌≤◌,
}
use mathlib.Core.List.{append-nil, append_assoc}
use glome_rs.Collections.BTreeMap.{insert, range_from}
use glome_rs.Maelstrom.SimpleLog.Log.{
  Log, new, append, read_entries, read_from, commit, committed_offset,
}

-- The messages with their offsets, from `b` on.
abbrev pub number : ℕ → List ℕ → List (ℕ × ℕ)
number b [] = []
number b (x ∷ xs) = (b, x) ∷ number (suc b) xs

pub record Represents (log : Log) (msgs : List ℕ) : Type 0 where
  pub entries : log.entries ≡ number 0 msgs
  pub next_offset : log.next_offset ≡ length msgs

insert-number :
    (b k x : ℕ) (xs : List ℕ)
    → k ≡ b + length xs
    → insert k x (number b xs) ≡ number b (xs ++ x ∷ [])
unfolding insert
insert-number b k x [] h = ground arith
insert-number b k x (y ∷ xs) h = ground (arith, insert-number (suc b) k x xs (omega arith))

range_from_all : (b from : ℕ) (xs : List ℕ) → from ≤ b → range_from from (number b xs) ≡ number b xs
unfolding range_from
range_from_all b from [] h = refl
range_from_all b from (x ∷ xs) h = ground (arith, range_from_all (suc b) from xs (omega arith))

range_from-number :
    (b from : ℕ) (xs : List ℕ)
    → range_from from (number b xs) ≡ number (max b from) (drop (from - b) xs)
range_from-number b from [] = unfold range_from in rw drop-nil
range_from-number b from (x ∷ xs) = elim (dec_lt b from) [
  | yes h ↦
      let skip : range_from from (number b (x ∷ xs)) ≡ range_from from (number (suc b) xs) =
        unfold range_from in ground arith in
      let e : from - b ≡ suc (from - suc b) = omega arith in
      let f : max b from ≡ max (suc b) from = omega arith in
      rw (e, f) (skip ∙ range_from-number (suc b) from xs)
  | no h ↦
      let e : from - b ≡ 0 = omega arith in
      let f : max b from ≡ b = omega arith in
      rw (e, f) (range_from_all b from (x ∷ xs) (omega arith))
]

pub read_entries-none : (out es : List (ℕ × ℕ)) → read_entries none out es ≡ out ++ es
unfolding read_entries
read_entries-none out [] = sym (append-nil out)
read_entries-none out (e ∷ es) = read_entries-none (out ++ e ∷ []) es ∙ append_assoc out (e ∷ []) es

read_entries-some :
    (limit : ℕ) (out es : List (ℕ × ℕ))
    → length out < max limit 1
    → read_entries (some limit) out es ≡ out ++ take (max limit 1 - length out) es
unfolding read_entries
read_entries-some limit out [] h = rw (take-nil, append-nil)
read_entries-some limit out (e ∷ es) h =
    let room : max limit 1 - length out ≡ suc (max limit 1 - length (out ++ e ∷ [])) =
      omega (arith, length-append out (e ∷ [])) in
    rw room (elim (Bool-cases (leb limit (length (out ++ e ∷ [])))) [
      | inl full ↦
          let spent : max limit 1 - length (out ++ e ∷ []) ≡ 0 =
            omega (arith, leb→le limit (length (out ++ e ∷ [])) full, length-append out (e ∷ [])) in
          rw (spent, full) refl
      | inr more ↦ rw more (
          read_entries-some limit (out ++ e ∷ []) es (
            omega
              (arith, leb_false→lt limit (length (out ++ e ∷ [])) more, length-append out (e ∷ [])))
          ∙ append_assoc out (e ∷ []) _)
    ])

-- Reading takes the entries from the offset on, at most as many as the bound says; a bound of 0
-- counts as 1.
abbrev pub bounded : Option ℕ → List (ℕ × ℕ) → List (ℕ × ℕ)
bounded none es = es
bounded (some limit) es = take (max limit 1) es

read_entries-bounded :
    (bound : Option ℕ) (es : List (ℕ × ℕ)) → read_entries bound [] es ≡ bounded bound es
read_entries-bounded none es = read_entries-none [] es
read_entries-bounded (some limit) es =
    let all_of : max limit 1 - 0 ≡ max limit 1 = omega arith in
    read_entries-some limit [] es (omega arith) ∙ ap (λ n. take n es) all_of

module _ {log : Log} {msgs : List ℕ} (r : Represents log msgs) where
  -- An append to a log that has room puts the message at the end and answers its position.
  pub append-Represents :
      (msg : ℕ)
      → length msgs + 1 < u64_mod
      → ((append log msg).0 ≡ length msgs) × Represents (append log msg).1 (msgs ++ msg ∷ [])
  unfolding append
  append-Represents msg room = (
    r.next_offset,
    record {
      entries =
          rw r.entries (insert-number 0 log.next_offset msg msgs (omega (arith, r.next_offset)));
      next_offset = omega (arith, r.next_offset, length-append msgs (msg ∷ []));
    },
  )

  -- A read gives the messages from an offset on, each with its offset, and stops at the bound; a
  -- bound of 0 counts as 1.
  pub read_from-Represents :
      (from : ℕ) (bound : Option ℕ)
      → read_from log from bound ≡ bounded bound (number from (drop from msgs))
  unfolding read_from
  read_from-Represents from bound =
      let at_from : max 0 from ≡ from = omega arith in
      let past_none : from - 0 ≡ from = omega arith in
      read_entries-bounded bound (range_from from log.entries)
      ∙ ap (bounded bound) (
          rw r.entries
            (range_from-number 0 from msgs ∙ ap₂ (λ n k. number n (drop k msgs)) at_from past_none))

-- Committing moves the mark up to the offset and never back, and leaves the messages of the log as
-- they are.
pub commit-Represents :
    (log : Log) (msgs : List ℕ) (offset : ℕ)
    → Represents log msgs
    → (committed_offset (commit log offset) ≡ max (committed_offset log) offset)
      × Represents (commit log offset) msgs
unfolding commit committed_offset
commit-Represents log msgs offset r = ground arith

pub Represents-new : Represents new []
Represents-new = record { entries = refl; next_offset = refl }
