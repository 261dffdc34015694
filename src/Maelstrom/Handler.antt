-- ===== src/Maelstrom/Handler.antt =====
-- maelstrom/src/node.rs: the trait `MessageHandler` and the loop `run_node`.
pub mod Numbering
use glome_rs.Base.{ℕ, String, Option, none, some, List, [], ◌∷◌, ◌++◌}
use glome_rs.Maelstrom.Message.{Message}
use glome_rs.Maelstrom.Node.{Node, new}

-- What a call of `handle` leaves: the responses, the handler's state and the node; or `none`, a
-- panic.
abbrev pub Handled : Type 0 → Type 0 → Type 0
Handled V S = Option (List (Message V) × S × Node)

pub record MessageHandler (V S : Type 0) : Type 0 where
  pub handle : S → Node → Message V → Handled V S

-- How a run of the loop ends: it waits for the next message, or a handler panicked.
pub data Ending (S : Type 0) : Type 0 where
  waiting : S → Node → Ending S
  panicked : Ending S

abbrev pub proceed :
    {V S : Type 0}
    → Handled V S
    → (S → Node → List (Message V) × Ending S)
    → List (Message V) × Ending S
proceed none rest = ([], Ending.panicked)
proceed (some (out, s, node)) rest = let (outs, end) = rest s node in (out ++ outs, end)

-- The loop over the received messages: what is sent, in order, and how the run ends.
unfoldable pub process :
    {V S : Type 0} → MessageHandler V S → S → Node → List (Message V) → List (Message V) × Ending S
process h s node [] = ([], Ending.waiting s node)
process h s node (msg ∷ msgs) = proceed (h.handle s node msg) (λ s' node'. process h s' node' msgs)

-- The reader: a line that does not parse is reported and skipped. `from_str` is
-- `serde_json::from_str`.
unfoldable pub decode_lines :
    {V : Type 0} → (String → Option (Message V)) → List String → List (Message V)
decode_lines from_str [] = []
decode_lines from_str (line ∷ lines) =
    let rest = decode_lines from_str lines in
    elim (from_str line) [ none ↦ rest | some msg ↦ msg ∷ rest ]

-- The writer: a response that does not serialize is reported and skipped. `to_vec` is
-- `serde_json::to_vec`, and 10 is the newline.
unfoldable pub encode_lines :
    {V : Type 0} → (Message V → Option (List ℕ)) → List (Message V) → List (List ℕ)
encode_lines to_vec [] = []
encode_lines to_vec (response ∷ responses) =
    let rest = encode_lines to_vec responses in
    elim (to_vec response) [ none ↦ rest | some bytes ↦ (bytes ++ 10 ∷ []) ∷ rest ]

-- The lines written for the lines read, from a fresh node.
unfoldable pub run_node :
    {V S : Type 0}
    → (String → Option (Message V))
    → (Message V → Option (List ℕ))
    → MessageHandler V S
    → S
    → List String
    → List (List ℕ) × Ending S
unfolding process decode_lines encode_lines
run_node from_str to_vec h s lines =
    let (outs, end) = process h s new (decode_lines from_str lines) in
    (encode_lines to_vec outs, end)
