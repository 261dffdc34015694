-- ===== src/UniqueIds/UnitTests.antt =====
-- The unit tests of uniqueids/src/node.rs, and that all of them hold: the first two for every hash
-- and reading of the clock, the third for one hash and a clock that stands.
use glome_rs.Base.{
  Bool, List, Option, String, [], length, map, nat_eq, refl, some, suc, true, zero, ℕ, ◌&&◌, ◌+◌,
  ◌∷◌, ◌≡◌,
}
use glome_rs.Collections.HashSet
use glome_rs.Collections.HashSet.{HashSet, is_new}
use glome_rs.Maelstrom.Message.{MessageBody}
use glome_rs.Maelstrom.Node
use glome_rs.Maelstrom.Checks.{Sent, session, asked, Expect, client_asks, client_gets}
use glome_rs.UniqueIds
use glome_rs.UniqueIds.{new, handler}

abbrev alone : List String
alone = "n1" ∷ []

abbrev TestUniqueIdNodeHandlesInitMessage : Type 0
TestUniqueIdNodeHandlesInitMessage =
    (xxh3_64 : String → ℕ) (clock : Option ℕ)
    → Expect
        (session (handler xxh3_64 clock) new Node.new
          (client_asks (MessageBody.init 1 "n1" ("n1" ∷ "n2" ∷ "n3" ∷ [])) ∷ []))
        (λ out s node.
          (out ≡ client_gets (MessageBody.init_ok 0 1) ∷ [])
          × (node.id ≡ "n1")
          × (node.peers ≡ "n2" ∷ "n3" ∷ []))

abbrev TestUniqueIdNodeIgnoresUnknownMessages : Type 0
TestUniqueIdNodeIgnoresUnknownMessages =
    (xxh3_64 : String → ℕ) (clock : Option ℕ)
    → Expect
        (session (handler xxh3_64 clock) new Node.new
          (client_asks (MessageBody.echo 1 "test") ∷ []))
        (λ out s node. out ≡ [])

-- The numbers from `i` on, so many.
abbrev count_from : ℕ → ℕ → List ℕ
count_from zero i = []
count_from (suc n) i = i ∷ count_from n (i + 1)

-- The request that a response answers, and the id that it gives.
abbrev given : List Sent → List (ℕ × ℕ)
given [] = []
given ((_, _, MessageBody.generate_ok _ n i) ∷ out) = (n, i) ∷ given out
given (_ ∷ out) = given out

-- Whether `generated_ids.insert` finds each id new.
abbrev all_new : HashSet ℕ → List ℕ → Bool
all_new seen [] = true
all_new seen (i ∷ is) = is_new ⦃e = nat_eq⦄ i seen && all_new (HashSet.insert i seen) is

abbrev TestUniqueIdNodeGeneratesUniqueIdsForManyRequests : Type 0
TestUniqueIdNodeGeneratesUniqueIdsForManyRequests =
    Expect
      (asked (handler (λ name. 5) (some 1000)) new alone
        (map MessageBody.generate (count_from 100 0)))
      (λ out s node.
        (length out ≡ 100)
        × (map (λ (p : ℕ × ℕ). p.0) (given out) ≡ count_from 100 0)
        × (all_new [] (map (λ (p : ℕ × ℕ). p.1) (given out)) ≡ true))

tests_pass :
    TestUniqueIdNodeHandlesInitMessage × TestUniqueIdNodeIgnoresUnknownMessages
    × TestUniqueIdNodeGeneratesUniqueIdsForManyRequests
unfolding UniqueIds.handle UniqueIds.establish UniqueIds.new_gen UniqueIds.generate UniqueIds.tick
    UniqueIds.pack HashSet.contains HashSet.insert HashSet.is_new Node.handle_init Node.next_msg_id
    Node.init_ok Node.reply
tests_pass = (λ xxh3_64 clock. (refl, refl, refl), λ xxh3_64 clock. refl, (refl, refl, refl))
