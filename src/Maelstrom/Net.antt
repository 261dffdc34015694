-- ===== src/Maelstrom/Net.antt =====
-- The nodes of a service and the messages between them. `sent` is every message ever sent: the
-- network of Maelstrom may deliver one late, more than once or never.
use glome_rs.Base.{
  Bool-cases, List, String, beq_refl, false, if◌then◌else◌, inl, inr, nat_eq, none, pair_eq, refl,
  some, string_eq, subst, ◌++◌, ◌==◌, ◌≡◌,
}
use glome_rs.Maelstrom.Message.{Message}
use glome_rs.Maelstrom.Node.{Node}
use glome_rs.Maelstrom.Handler.{Handled}

pub record Net (V S : Type 0) : Type 0 where
  pub state : String → S
  pub node : String → Node
  pub sent : List (Message V)

abbrev pub update {ℓ} : {A : Type ℓ} → (String → A) → String → A → String → A
update f i a j = if i == j then a else f j

-- What a call at node `i` leaves. A panic ends the node; its last state stays.
abbrev pub settle : {V S : Type 0} → Net V S → String → Handled V S → Net V S
settle c i none = c
settle c i (some (out, s, n)) = record {
  state = update c.state i s;
  node = update c.node i n;
  sent = out ++ c.sent;
}

pub at_update :
    {A : Type 0} (P : String → A → Type 0) (f : String → A) (i : String) (a : A)
    → P i a
    → ((j : String) → (i == j) ≡ false → P j (f j))
    → (j : String) → P j (update f i a j)
at_update P f i a here there j = elim (Bool-cases (i == j)) [
  | inl e ↦ rw e (subst (λ k. P k a) ((string_eq.beq_iff i j).0 e) here)
  | inr e ↦ rw e (there j e)
]

pub update_here : {A : Type 0} (f : String → A) (i : String) (a : A) → update f i a i ≡ a
update_here f i a = rw (beq_refl i) refl
