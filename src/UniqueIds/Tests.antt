-- ===== src/UniqueIds/Tests.antt =====
-- The id generator on concrete inputs.
use glome_rs.Base.{List, String, [], arith, refl, some, u64_mod, ℕ, ◌%◌, ◌/◌, ◌<◌, ◌^◌, ◌∷◌, ◌≡◌}
use glome_rs.Maelstrom.Message.{Message, MessageBody}
use glome_rs.Maelstrom.Node.{Node}
use glome_rs.UniqueIds.{IdGen, pack, tick, generate, new_gen}
use glome_rs.UniqueIds.Layout.{unpack-pack, pack_overflow}
use glome_rs.UniqueIds.Clock.{IsUnhurried, IsRising, floor, count, generate_repeats}
use glome_rs.UniqueIds.Runs.{ids_of, run, run-IsRising}

-- A hash that is 5 for every name.
abbrev five : String → ℕ
five name = 5

abbrev n1 : Node
n1 = record { id = "n1"; peers = []; msg_id = 1 }

abbrev request : ℕ → Message Unit
request n = record { src = "c1"; dest = "n1"; body = MessageBody.generate n }

abbrev three_requests : List (ℕ × Message Unit)
three_requests = (1000, request 1) ∷ (1000, request 2) ∷ (1001, request 3) ∷ []

three_ids :
    ids_of (run five (record { id_gen = some (new_gen five "n1") }) n1 three_requests).0
    ≡ 4194324480 ∷ 4194324481 ∷ 4198518784 ∷ []
unfolding run glome_rs.UniqueIds.handle new_gen generate tick pack
three_ids = refl

unhurried : IsUnhurried (new_gen five "n1") (1000 ∷ 1000 ∷ 1001 ∷ [])
unfolding new_gen count
unhurried = record { this_ms = omega arith; any_ms = λ t. ground arith }

run-IsRising_example :
    IsRising
      (floor (new_gen five "n1"))
      (ids_of (run five (record { id_gen = some (new_gen five "n1") }) n1 three_requests).0)
run-IsRising_example = run-IsRising Unit five "n1" n1 three_requests (omega arith) unhurried

unpack-pack_example :
    let id = pack 1000 5 7 in
    (id < u64_mod) × (id / 2 ^ 22 ≡ 1000) × (id / 2 ^ 12 % 2 ^ 10 ≡ 5) × (id % 2 ^ 12 ≡ 7)
unpack-pack_example = unpack-pack 1000 5 7 (omega arith) (omega arith) (omega arith)

pack_overflow_example : pack 1000 4 (2 ^ 12) ≡ pack 1000 5 0
pack_overflow_example = pack_overflow 1000 2 (omega arith) (omega arith)

abbrev at_start : IdGen
at_start = record { node_hash = 5; last_ms = 0; seq = 0 }

generate_repeats_example :
    let (first, g') = generate at_start 1001 in
    let (second, g'') = generate g' 1000 in (generate g'' 1001).0 ≡ first
generate_repeats_example =
    generate_repeats at_start 1001 1000 (omega arith) (omega arith) (omega arith) (omega arith)
