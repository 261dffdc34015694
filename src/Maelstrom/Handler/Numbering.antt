-- ===== src/Maelstrom/Handler/Numbering.antt =====
-- The numbers of the messages that a node sends.
use glome_rs.Base.{
  All, All-append, All-imp, List, [], add64, arith, length, none, refl, some, subst, suc, sym,
  u64_mod, ℕ, ◌++◌, ◌+◌, ◌<◌, ◌∙◌, ◌∷◌, ◌≡◌, ◌≢◌,
}
use glome_rs.Maelstrom.Message.{Message, msg_id}
use glome_rs.Maelstrom.Node.{Node}
use glome_rs.Maelstrom.Handler.{Handled, MessageHandler, Ending, proceed, process}

-- The messages carry the numbers after `n`, one each in order, and the counter ends at `m`.
abbrev pub Numbered : {V : Type 0} → ℕ → List (Message V) → ℕ → Type 0
Numbered n [] m = n ≡ m
Numbered n (o ∷ os) m = (msg_id o.body ≡ add64 n 1) × Numbered (add64 n 1) os m

pub Numbered-append :
    {V : Type 0} (n k m : ℕ) (xs ys : List (Message V))
    → Numbered n xs k
    → Numbered k ys m
    → Numbered n (xs ++ ys) m
Numbered-append n k m [] ys h g = subst (λ i. Numbered i ys m) (sym h) g
Numbered-append n k m (x ∷ xs) ys h g = (h.0, Numbered-append (add64 n 1) k m xs ys h.1 g)

-- What every service's `handle` keeps: it numbers its responses on from the node's counter, and
-- sends them in the name of the node.
abbrev pub Sound : {V S : Type 0} → Node → Handled V S → Type 0
Sound node none = Unit
Sound node (some (out, s, node')) =
    Numbered node.msg_id out node'.msg_id × All (λ o. o.src ≡ node'.id) out

pub record IsSound {V S : Type 0} (h : MessageHandler V S) : Type 0 where
  pub sound : (s : S) (node : Node) (msg : Message V) → Sound node (h.handle s node msg)

-- A part of a response: numbered on, sent in the node's name, and the node keeps its name.
abbrev pub Sends : {V S : Type 0} → Node → List (Message V) × S × Node → Type 0
Sends node (out, s, node') =
    Numbered node.msg_id out node'.msg_id × All (λ o. o.src ≡ node.id) out × (node'.id ≡ node.id)

pub Sends-append :
    {V S : Type 0} (node : Node) (r : List (Message V) × S × Node) (q : List (Message V) × S × Node)
    → Sends node r
    → Sends r.2 q
    → Sends node (r.0 ++ q.0, q.1, q.2)
Sends-append node (out, s, node') (rest, s', node'') (numbered, signed, same)
      (numbered', signed', same') =
    (
      Numbered-append node.msg_id node'.msg_id node''.msg_id out rest numbered numbered',
      All-append _ out rest signed (All-imp (λ o e. e ∙ same) rest signed'),
      same' ∙ same,
    )

pub Sends-Sound :
    {V S : Type 0} (node : Node) (r : List (Message V) × S × Node)
    → Sends node r
    → Sound node (some r)
Sends-Sound node (out, s, node') (numbered, signed, same) =
    (numbered, All-imp (λ o e. e ∙ sym same) out signed)

-- The messages of a run are numbered on from the counter, also where the run ends in a panic.
abbrev pub Finishes : {V S : Type 0} → ℕ → List (Message V) × Ending S → Type 0
Finishes n (outs, Ending.waiting s node) = Numbered n outs node.msg_id
Finishes n (outs, Ending.panicked) = (m : ℕ) × Numbered n outs m

Finishes-append :
    {V S : Type 0} (n k : ℕ) (out : List (Message V)) (r : List (Message V) × Ending S)
    → Numbered n out k
    → Finishes k r
    → Finishes n (out ++ r.0, r.1)
Finishes-append n k out (outs, Ending.waiting s node) h f = Numbered-append n k _ out outs h f
Finishes-append n k out (outs, Ending.panicked) h (m, f) = (m, Numbered-append n k m out outs h f)

pub proceed-Finishes :
    {V S : Type 0} (node : Node) (r : Handled V S) (rest : S → Node → List (Message V) × Ending S)
    → Sound node r
    → ((s : S) (node' : Node) → Finishes node'.msg_id (rest s node'))
    → Finishes node.msg_id (proceed r rest)
proceed-Finishes node none rest h k = (node.msg_id, refl)
proceed-Finishes node (some (out, s, node')) rest h k =
    Finishes-append node.msg_id node'.msg_id out (rest s node') h.0 (k s node')

-- No number in `Numbered (a + d) os` is `a`, as long as the counter does not come round.
unused :
    {V : Type 0} (a d m : ℕ) (os : List (Message V))
    → a < u64_mod
    → d + length os < u64_mod
    → Numbered (add64 a d) os m
    → All (λ o. a ≢ msg_id o.body) os
unused a d m [] small room h = tt
unused a d m (o ∷ os) small room h = (
  omega (arith, h.0),
  unused a (suc d) m os small (omega arith) (subst (λ i. Numbered i os m) (omega arith) h.1),
)

-- No two messages of the list carry the same number.
abbrev pub Distinct : {V : Type 0} → List (Message V) → Type 0
Distinct [] = Unit
Distinct (o ∷ os) = All (λ p. msg_id o.body ≢ msg_id p.body) os × Distinct os

Numbered-Distinct :
    {V : Type 0} (n m : ℕ) (os : List (Message V))
    → length os < u64_mod
    → Numbered n os m
    → Distinct os
Numbered-Distinct n m [] room h = tt
Numbered-Distinct n m (o ∷ os) room h = (
  unused (msg_id o.body) 0 m os (omega (arith, h.0)) (omega arith)
      (subst (λ i. Numbered i os m) (omega (arith, h.0)) h.1),
  Numbered-Distinct (add64 n 1) m os (omega arith) h.1,
)

pub Finishes-Distinct :
    {V S : Type 0} (n : ℕ) (r : List (Message V) × Ending S)
    → length r.0 < u64_mod
    → Finishes n r
    → Distinct r.0
Finishes-Distinct n (outs, Ending.waiting s node) room f = Numbered-Distinct n _ outs room f
Finishes-Distinct n (outs, Ending.panicked) room (m, f) = Numbered-Distinct n m outs room f

module _ {V S : Type 0} (h : MessageHandler V S) (law : IsSound h) where
  process-Finishes :
      (s : S) (node : Node) (msgs : List (Message V)) → Finishes node.msg_id (process h s node msgs)
  unfolding process
  process-Finishes s node [] = refl
  process-Finishes s node (msg ∷ msgs) =
      proceed-Finishes node (h.handle s node msg) (λ s' node'. process h s' node' msgs)
        (law.sound s node msg) (λ s' node'. process-Finishes s' node' msgs)

  -- Whatever a node receives, under a handler that numbers its responses on from the node's
  -- counter, no two of the messages that it sends carry the same number, as long as it sends fewer
  -- than 2^64.
  pub process-Distinct :
      (s : S) (node : Node) (msgs : List (Message V))
      → length (process h s node msgs).0 < u64_mod
      → Distinct (process h s node msgs).0
  process-Distinct s node msgs room =
      Finishes-Distinct node.msg_id (process h s node msgs) room (process-Finishes s node msgs)
