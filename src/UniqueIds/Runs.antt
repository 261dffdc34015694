-- ===== src/UniqueIds/Runs.antt =====
-- A node that answers requests for ids: it numbers its messages, and its ids are the generator's.
use glome_rs.Base.{List, Option, String, [], ap, arith, none, refl, some, ℕ, ◌>>=◌, ◌∷◌, ◌≡◌}
use glome_rs.Maelstrom.Message.{Message, MessageBody}
use glome_rs.Maelstrom.Node.{Node, handle_init, init_ok, next_msg_id, reply}
use glome_rs.Maelstrom.Handler.{Ending, proceed}
use glome_rs.Maelstrom.Handler.Numbering.{Sound, IsSound}
use glome_rs.UniqueIds.{
  IdGen, UniqueIdNode, generate, new_gen, establish, handle_body, handle, handler,
}
use glome_rs.UniqueIds.Layout.{new_gen-lt}
use glome_rs.UniqueIds.Clock.{
  IsSteady, IsUnhurried, IsRising, floor, generate_all, generate_all-IsRising,
}

-- The ids in the replies.
abbrev id_in : {V : Type 0} → MessageBody V → List ℕ → List ℕ
id_in (MessageBody.generate_ok _ _ id) ids = id ∷ ids
id_in _ ids = ids

abbrev pub ids_of : {V : Type 0} → List (Message V) → List ℕ
ids_of [] = []
ids_of (o ∷ os) = id_in o.body (ids_of os)

-- The readings of the clock that requests for ids take.
abbrev reading_of : {V : Type 0} → ℕ → MessageBody V → List ℕ → List ℕ
reading_of t (MessageBody.generate _) ts = t ∷ ts
reading_of t _ ts = ts

abbrev pub readings : {V : Type 0} → List (ℕ × Message V) → List ℕ
readings [] = []
readings ((t, msg) ∷ events) = reading_of t msg.body (readings events)

module _ {V : Type 0} (xxh3_64 : String → ℕ) where
  -- The message loop, with the reading of the clock beside each message.
  unfoldable pub run :
      UniqueIdNode → Node → List (ℕ × Message V) → List (Message V) × Ending UniqueIdNode
  run s node [] = ([], Ending.waiting s node)
  run s node ((t, msg) ∷ events) =
      proceed (handle xxh3_64 (some t) s node msg) (λ s' node'. run s' node' events)

module _ (V : Type 0) (xxh3_64 : String → ℕ) where
  body_Sound :
      (clock : Option ℕ) (s : UniqueIdNode) (node : Node) (msg : Message V) (body : MessageBody V)
      → Sound node (handle_body xxh3_64 clock s node msg body)
  unfolding handle_body
  body_Sound clock s node msg (MessageBody.init n i is) = ground arith
  body_Sound clock s node msg (MessageBody.generate n) =
      asked (establish xxh3_64 s node).id_gen clock
    where
      asked :
          (g : Option IdGen) (millis : Option ℕ)
          → Sound {V = V} {S = UniqueIdNode} node (do
            g' ← g
            t ← millis
            let (unique_id, g'') = generate g' t
            let (response_msg_id, node') = next_msg_id node
            some (
              reply node' msg.src (MessageBody.generate_ok response_msg_id n unique_id) ∷ [],
              record { id_gen = some g'' },
              node',
            ))
      asked none millis = tt
      asked (some g) none = tt
      asked (some g) (some t) = unfold next_msg_id reply in ((refl, refl), (refl, tt))
  body_Sound clock s node msg _ = ground arith

  pub handler-IsSound : (clock : Option ℕ) → IsSound (handler {V = V} xxh3_64 clock)
  unfolding handle
  handler-IsSound clock = record { sound = λ s node msg. body_Sound clock s node msg msg.body }

  step_ids :
      (g : IdGen) (node : Node) (t : ℕ) (msg : Message V) (body : MessageBody V)
      (events : List (ℕ × Message V))
      → ((h : IdGen) (n : Node)
          → ids_of (run xxh3_64 (record { id_gen = some h }) n events).0
            ≡ generate_all h (readings events))
      → ids_of
          (proceed
            (handle_body xxh3_64 (some t) (record { id_gen = some g }) node msg body)
            (λ s' node'. run xxh3_64 s' node' events)).0
        ≡ generate_all g (reading_of t body (readings events))
  unfolding handle_body generate_all establish init_ok handle_init next_msg_id reply
  step_ids g node t msg (MessageBody.init n i is) events later = later g _
  step_ids g node t msg (MessageBody.generate n) events later =
      ap (◌∷◌ (generate g t).0) (later (generate g t).1 _)
  step_ids g node t msg _ events later = later g node

  pub run-ids :
      (g : IdGen) (node : Node) (events : List (ℕ × Message V))
      → ids_of (run xxh3_64 (record { id_gen = some g }) node events).0
        ≡ generate_all g (readings events)
  unfolding run generate_all handle
  run-ids g node [] = refl
  run-ids g node ((t, msg) ∷ events) =
      step_ids g node t msg msg.body events (λ h n. run-ids h n events)

  -- Whatever a node that has been set up receives, each id that it answers with is above those
  -- before it, as long as the readings of the clock that it takes for ids do not go back and stay
  -- below 2^42, no millisecond is read more than 4096 times, and the millisecond 0 fewer than 4096
  -- times.
  pub run-IsRising :
      (node_id : String) (node : Node) (events : List (ℕ × Message V))
      → IsSteady 0 (readings events)
      → IsUnhurried (new_gen xxh3_64 node_id) (readings events)
      → IsRising
          (floor (new_gen xxh3_64 node_id))
          (ids_of (run xxh3_64 (record { id_gen = some (new_gen xxh3_64 node_id) }) node events).0)
  run-IsRising node_id node events steady u =
      let g = new_gen xxh3_64 node_id in
      rw (run-ids g node events) (
        generate_all-IsRising g (readings events) (new_gen-lt xxh3_64 node_id)
          (unfold new_gen in steady) u)
