-- ===== src/MultiNodeBroadcast/Cluster/Invariant.antt =====
-- What holds of every reachable cluster of broadcast nodes.
use glome_rs.Base.{
  All, All-append, All-imp, List, String, nat_eq, pair_eq, refl, some, string_eq, true, ℕ, ◌++◌,
  ◌∙◌, ◌≡◌,
}
use glome_rs.Collections.HashSet.{contains, IsHashSet}
use glome_rs.Maelstrom.Message.{Message, MessageBody}
use glome_rs.Maelstrom.Node.{Node}
use glome_rs.Maelstrom.Net.{update, settle, at_update}
use glome_rs.MultiNodeBroadcast.{MultiNodeBroadcastNode}
use glome_rs.MultiNodeBroadcast.Delta.{believed, Alike}
use glome_rs.MultiNodeBroadcast.Cluster.{Cluster}

abbrev pub IsIn : List ℕ → List ℕ → Type 0
IsIn xs ys = (m : ℕ) → contains m xs ≡ true → contains m ys ≡ true

-- A gossip holds values of its sender. No node sends the set-up of a node or a client's broadcast.
abbrev pub Carries :
    {V : Type 0} → (String → MultiNodeBroadcastNode) → String → MessageBody V → Type 0
Carries state src (MessageBody.broadcast_gossip _ values) = IsIn values (state src).messages
Carries state src (MessageBody.init _ _ _) = ⊥
Carries state src (MessageBody.broadcast _ _) = ⊥
Carries state src _ = Unit

Carries-grows :
    {V : Type 0} (f g : String → MultiNodeBroadcastNode) (src : String) (body : MessageBody V)
    → ((i : String) → IsIn (f i).messages (g i).messages)
    → Carries f src body
    → Carries g src body
Carries-grows f g src (MessageBody.broadcast_gossip _ values) w h = λ m e. w src m (h m e)
Carries-grows f g src (MessageBody.init _ _ _) w h = h
Carries-grows f g src (MessageBody.broadcast _ _) w h = h
Carries-grows f g src _ w h = tt

-- Every value at a node was broadcast by a client, and what a node believes of another is so.
pub record IsConsistent {V : Type 0} (c : Cluster V) : Type 0 where
  pub names : (i : String) → (c.net.node i).id ≡ i
  pub genuine : (i : String) → IsIn (c.net.state i).messages c.asked
  pub distinct : (i : String) → IsHashSet (c.net.state i).messages
  pub beliefs : (i peer : String) → IsIn (believed (c.net.state i) peer) (c.net.state peer).messages
  pub traffic : All (λ o. Carries c.net.state o.src o.body) c.net.sent

-- The nodes keep their values and their neighbours.
pub record IsKept {V : Type 0} (c d : Cluster V) : Type 0 where
  pub values : (i : String) → IsIn (c.net.state i).messages (d.net.state i).messages
  pub neighbours : (i : String) → (d.net.state i).gossip_peers ≡ (c.net.state i).gossip_peers

-- What a response must leave at node `i`, where the clients' values are then `more`.
pub record Fits {V : Type 0} (c : Cluster V) (more : List ℕ) (i : String)
    (r : List (Message V) × MultiNodeBroadcastNode × Node) : Type 0 where
  pub name : r.2.id ≡ i
  pub values : IsIn (c.net.state i).messages r.1.messages
  pub neighbours : r.1.gossip_peers ≡ (c.net.state i).gossip_peers
  pub genuine : IsIn r.1.messages more
  pub distinct : IsHashSet r.1.messages
  pub beliefs : (peer : String) → IsIn (believed r.1 peer) (c.net.state peer).messages
  pub messages : All (λ o. Carries c.net.state o.src o.body) r.0

module _ {V : Type 0} (c : Cluster V) (ok : IsConsistent c) where
  pub settle-IsConsistent :
      (more : List ℕ) (i : String) (r : List (Message V) × MultiNodeBroadcastNode × Node)
      → IsIn c.asked more
      → Fits c more i r
      → let d : Cluster V = record { net = settle c.net i (some r); asked = more } in
        IsConsistent d × IsKept c d
  settle-IsConsistent more i (out, s, n) asked fits =
      let values : (j : String)
          → IsIn (c.net.state j).messages (update c.net.state i s j).messages =
        at_update (λ j (t : MultiNodeBroadcastNode). IsIn (c.net.state j).messages t.messages)
          c.net.state i s fits.values (λ j e m h. h) in
      (
        record {
          names = at_update (λ j (n : Node). n.id ≡ j) c.net.node i n fits.name (λ j e. ok.names j);
          genuine =
              at_update (λ j (t : MultiNodeBroadcastNode). IsIn t.messages more) c.net.state i s
                fits.genuine (λ j e m h. asked m (ok.genuine j m h));
          distinct =
              at_update (λ j (t : MultiNodeBroadcastNode). IsHashSet t.messages) c.net.state i s
                fits.distinct (λ j e. ok.distinct j);
          beliefs = λ j peer m h. values peer m (
              at_update
                (λ j (t : MultiNodeBroadcastNode).
                  (peer : String) → IsIn (believed t peer) (c.net.state peer).messages)
                c.net.state i s fits.beliefs (λ j e. ok.beliefs j) j peer m h);
          traffic =
              All-imp (λ o. Carries-grows c.net.state (update c.net.state i s) o.src o.body values)
                (out ++ c.net.sent) (All-append _ out c.net.sent fits.messages ok.traffic);
        },
        record {
          values = values;
          neighbours =
              at_update
                (λ j (t : MultiNodeBroadcastNode). t.gossip_peers ≡ (c.net.state j).gossip_peers)
                c.net.state i s fits.neighbours (λ j e. refl);
        },
      )

  -- A response that changes neither the values nor the beliefs.
  pub Fits-Alike :
      (i : String) (r : List (Message V) × MultiNodeBroadcastNode × Node)
      → r.2.id ≡ (c.net.node i).id
      → Alike (c.net.state i) r.1
      → All (λ o. Carries c.net.state o.src o.body) r.0
      → Fits c c.asked i r
  Fits-Alike i r name alike messages = record {
    name = name ∙ ok.names i;
    values = rw alike.messages (λ m h. h);
    neighbours = alike.gossip_peers;
    genuine = rw alike.messages (ok.genuine i);
    distinct = rw alike.messages (ok.distinct i);
    beliefs = λ peer. rw (alike.beliefs peer) (ok.beliefs i peer);
    messages = messages;
  }
