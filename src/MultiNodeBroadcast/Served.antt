-- ===== src/MultiNodeBroadcast/Served.antt =====
-- What a broadcast node behind its timer shows to a read.
use glome_rs.Base.{
  Bool-cases, List, String, [], ap, arith, inl, inr, nat_eq, none, pair_eq, refl, some, string_eq,
  subst, sym, ℕ, ◌++◌, ◌==◌, ◌||◌, ◌∷◌, ◌≡◌,
}
use glome_rs.Collections.HashSet.{contains, IsHashSet, contains-append}
use glome_rs.Maelstrom.Message.{Message}
use glome_rs.Maelstrom.Node.{Node}
use glome_rs.Maelstrom.Handler.{Handled, Ending, proceed}
use glome_rs.Maelstrom.Events.{Event, respond, serve}
use glome_rs.MultiNodeBroadcast.{MultiNodeBroadcastNode, gossip, handle_read}
use glome_rs.MultiNodeBroadcast.Messages.{brings, Holds, handle-Holds}
use glome_rs.MultiNodeBroadcast.Delta.{gossip_sends}
use glome_rs.MultiNodeBroadcast.Main.{gossiper}

-- The values that an event brings to the node.
abbrev pub brought_by : {V : Type 0} → Event V → List ℕ
brought_by Event.tick = []
brought_by (Event.received msg) = brings msg.body

abbrev pub brought : {V : Type 0} → List (Event V) → List ℕ
brought [] = []
brought (event ∷ events) = brought_by event ++ brought events

module _ (V : Type 0) (shuffle : List String → List String) where
  abbrev Ends : MultiNodeBroadcastNode → List ℕ → Ending MultiNodeBroadcastNode → Type 0
  Ends s values Ending.panicked = ⊥
  Ends s values (Ending.waiting s' node) =
      ((m : ℕ) → contains m (handle_read s') ≡ (contains m values || contains m s.messages))
      × (IsHashSet s.messages → IsHashSet (handle_read s'))

  proceed-Ends :
      (s : MultiNodeBroadcastNode) (values rest : List ℕ) (r : Handled V MultiNodeBroadcastNode)
      (run : MultiNodeBroadcastNode → Node → List (Message V) × Ending MultiNodeBroadcastNode)
      → Holds V shuffle s values r
      → ((s' : MultiNodeBroadcastNode) (node : Node) → Ends s' rest (run s' node).1)
      → Ends s (values ++ rest) (proceed r run).1
  proceed-Ends s values rest none run h k = h
  proceed-Ends s values rest (some (out, s', node)) run h k = later (run s' node).1 (k s' node)
    where
      later : (end : Ending MultiNodeBroadcastNode) → Ends s' rest end → Ends s (values ++ rest) end
      later Ending.panicked e = e
      later (Ending.waiting t node') e =
          (λ m. ground (arith, e.0 m, h.0 m, contains-append m values rest), λ d. e.1 (h.1 d))

  gossip-messages :
      (s : MultiNodeBroadcastNode) (node : Node) → (gossip {V = V} s node).1.messages ≡ s.messages
  gossip-messages s node = elim (Bool-cases (node.id == "")) [
    | inl unnamed ↦ unfold gossip in rw unnamed refl
    | inr named ↦ (gossip_sends V s node named).1.messages
  ]

  respond-Holds :
      (s : MultiNodeBroadcastNode) (node : Node) (event : Event V)
      → Holds V shuffle s (brought_by event) (respond (gossiper shuffle) s node event)
  respond-Holds s node Event.tick = (
    λ m. unfold contains in ap (contains m) (gossip-messages s node),
    λ d. subst IsHashSet (sym (gossip-messages s node)) d,
  )
  respond-Holds s node (Event.received msg) = handle-Holds V shuffle s node msg

  serve-Ends :
      (s : MultiNodeBroadcastNode) (node : Node) (events : List (Event V))
      → Ends s (brought events) (serve (gossiper shuffle) s node events).1
  unfolding serve contains handle_read
  serve-Ends s node [] = (λ m. refl, λ h. h)
  serve-Ends s node (event ∷ events) =
      proceed-Ends s (brought_by event) (brought events) (respond (gossiper shuffle) s node event)
        (λ s' node'. serve (gossiper shuffle) s' node' events) (respond-Holds s node event)
        (λ s' node'. serve-Ends s' node' events)

  -- A run that does not panic, after which a read shows the values besides what was held before,
  -- each once.
  abbrev pub Shows : MultiNodeBroadcastNode → List ℕ → Ending MultiNodeBroadcastNode → Type 0
  Shows s values Ending.panicked = ⊥
  Shows s values (Ending.waiting s' node) =
      ((m : ℕ) → contains m (handle_read s') ≡ (contains m values || contains m s.messages))
      × IsHashSet (handle_read s')

  -- Whatever a node receives, and however the timer interleaves, it does not panic, and a read then
  -- shows what it held at the start and every value that a broadcast or a gossip brought, and
  -- nothing else; each stands once, if that was so at the start.
  pub serve-Shows :
      (s : MultiNodeBroadcastNode) (node : Node) (events : List (Event V))
      → IsHashSet s.messages
      → Shows s (brought events) (serve (gossiper shuffle) s node events).1
  serve-Shows s node events distinct =
      shown (serve (gossiper shuffle) s node events).1 (serve-Ends s node events)
    where
      shown :
          (end : Ending MultiNodeBroadcastNode)
          → Ends s (brought events) end
          → Shows s (brought events) end
      shown Ending.panicked e = e
      shown (Ending.waiting s' node') e = (e.0, e.1 distinct)
