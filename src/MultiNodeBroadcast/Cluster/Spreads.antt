-- ===== src/MultiNodeBroadcast/Cluster/Spreads.antt =====
-- How the values of a node come to the others.
use glome_rs.Base.{
  Bool-cases, List, String, [], arith, beq_refl, false, front-Stands, inl, inr, is_empty, length,
  nat_eq, not, pair_eq, refl, string_eq, subst, true, ℕ, ◌==◌, ◌∙◌, ◌∷◌, ◌≡◌, ◌≤◌, ◌⊎◌,
}
use glome_rs.Collections.HashSet.{contains, length-IsHashSet, length-retain}
use glome_rs.Maelstrom.Message.{Message, MessageBody}
use glome_rs.MultiNodeBroadcast.{
  delta_for, gossip, handle_broadcast_gossip_from, handle_read, handle_body, handle,
}
use glome_rs.MultiNodeBroadcast.Messages.{contains-insert_all}
use glome_rs.MultiNodeBroadcast.Delta.{believed, delta_for_all, unseen}
use glome_rs.MultiNodeBroadcast.Cluster.{Cluster, ticked, received, Quiet, Reach, Later}
use glome_rs.MultiNodeBroadcast.Cluster.Invariant.{IsIn, IsConsistent, IsKept}
use glome_rs.MultiNodeBroadcast.Cluster.Steps.{Quiet-IsConsistent}
use glome_rs.MultiNodeBroadcast.Cluster.Reads.{Reach-IsConsistent}
use glome_rs.MultiNodeBroadcast.Cluster.Finds.{Finds, gossip-Finds}

module _ {V : Type 0} (shuffle : List String → List String) where
  Later-trans : {c d e : Cluster V} → Later shuffle c d → Later shuffle d e → Later shuffle c e
  Later-trans l Later.now = l
  Later-trans l (Later.after m q) = Later.after (Later-trans l m) q

  -- A later cluster in which node `j` shows what node `i` shows now.
  pub record Spread (c : Cluster V) (i j : String) : Type 0 where
    pub cluster : Cluster V
    pub later : Later shuffle c cluster
    pub sound : IsConsistent cluster
    pub kept : IsKept c cluster
    pub same : cluster.asked ≡ c.asked
    pub shows : IsIn (c.net.state i).messages (cluster.net.state j).messages

  delivered :
      (d : Cluster V) (i j : String) (n : ℕ) (delta : List ℕ)
      → let m : Message V = record {
        src = i;
        dest = j;
        body = MessageBody.broadcast_gossip n delta;
      } in
        IsIn delta ((received shuffle d m).net.state j).messages
  unfolding handle handle_body handle_broadcast_gossip_from
  delivered d i j n delta =
      rw (beq_refl j) (λ m h. ground (arith, contains-insert_all (d.net.state j).messages delta m))

  IsKept-refl : (c : Cluster V) → IsKept c c
  IsKept-refl c = record { values = λ i m h. h; neighbours = λ i. refl }

  IsKept-trans : (a b c : Cluster V) → IsKept a b → IsKept b c → IsKept a c
  IsKept-trans a b c k l = record {
    values = λ i m h. l.values i m (k.values i m h);
    neighbours = λ i. l.neighbours i ∙ k.neighbours i;
  }

  module _ (c : Cluster V) (ok : IsConsistent c) (few : length c.asked ≤ 1024) (i j : String) where
    -- What node `i` does not gossip to `j`, it rightly believes to be there.
    gossiped_or_known :
        (m : ℕ)
        → contains m (c.net.state i).messages ≡ true
        → (contains m (delta_for (c.net.state i).messages (believed (c.net.state i) j)) ≡ true)
          ⊎ (contains m (c.net.state j).messages ≡ true)
    gossiped_or_known m h =
        let s = c.net.state i in
        let room : length (unseen s.messages (believed s j)) ≤ 1024 = omega (
          arith,
          few,
          length-retain (λ x. not (contains x (believed s j))) s.messages,
          length-IsHashSet s.messages c.asked (ok.distinct i) (ok.genuine i),
        ) in
        elim (Bool-cases (contains m (believed s j))) [
          | inl known ↦ inr (ok.beliefs i j m known)
          | inr new ↦ inl (delta_for_all s.messages (believed s j) m room ∙ rw (h, new) refl)
        ]

    arrives_now :
        is_empty (delta_for (c.net.state i).messages (believed (c.net.state i) j)) ≡ true
        → Spread c i j
    arrives_now none_new = record {
      cluster = c;
      later = Later.now;
      sound = ok;
      kept = IsKept-refl c;
      same = refl;
      shows = λ m h. elim (gossiped_or_known m h) [
        | inl gossiped ↦ absurd (nothing _ m none_new gossiped)
        | inr known ↦ known
      ];
    }
      where
        nothing : (xs : List ℕ) (m : ℕ) → is_empty xs ≡ true → contains m xs ≡ true → ⊥
        nothing [] m e h = unfold contains in ground arith
        nothing (x ∷ xs) m e h = ground arith

    arrives_near : (i == "") ≡ false → contains j (c.net.state i).gossip_peers ≡ true → Spread c i j
    arrives_near named near =
        let s = c.net.state i in
        let delta = delta_for s.messages (believed s j) in
        elim (Bool-cases (is_empty delta)) [
          | inl none_new ↦ arrives_now none_new
          | inr some_new ↦
              let out = (gossip {V = V} s (c.net.node i)).0 in
              let (n, found) : Finds V out i j delta =
                subst (λ a. Finds V out a j delta) (ok.names i)
                  (gossip-Finds V s (c.net.node i) j (rw (ok.names i) named) near some_new) in
              let message : Message V = record {
                src = i;
                dest = j;
                body = MessageBody.broadcast_gossip n delta;
              } in
              let (k, stands) = front-Stands out c.net.sent message found in
              let d = ticked shuffle c i in
              let tick : Quiet shuffle c d = Quiet.tick i in
              let (sound, kept) = Quiet-IsConsistent c ok shuffle tick in
              let deliver : Quiet shuffle d (received shuffle d message) =
                Quiet.deliver k message stands in
              let (sound', kept') = Quiet-IsConsistent d sound shuffle deliver in
              record {
                cluster = received shuffle d message;
                later = Later.after (Later.after Later.now tick) deliver;
                sound = sound';
                kept = IsKept-trans c d (received shuffle d message) kept kept';
                same = refl;
                shows = λ m h. elim (gossiped_or_known m h) [
                  | inl gossiped ↦ delivered d i j n delta m gossiped
                  | inr known ↦ kept'.values j m (kept.values j m known)
                ];
              }
        ]

  -- A way from one node to another along the neighbours.
  pub data Way (c : Cluster V) (i : String) : String → Type 0 where
    stay : Way c i i
    along :
        {j k : String}
        → Way c i j
        → (j == "") ≡ false
        → contains k (c.net.state j).gossip_peers ≡ true
        → Way c i k

  arrives_along :
      (c : Cluster V) (i j : String)
      → IsConsistent c
      → length c.asked ≤ 1024
      → Way c i j
      → Spread c i j
  arrives_along c i _ ok few Way.stay = record {
    cluster = c;
    later = Later.now;
    sound = ok;
    kept = IsKept-refl c;
    same = refl;
    shows = λ m h. h;
  }
  arrives_along c i k ok few (Way.along {j} way named near) =
      let a = arrives_along c i j ok few way in
      let b =
        arrives_near a.cluster a.sound (rw a.same few) j k named (rw (a.kept.neighbours j) near) in
      record {
        cluster = b.cluster;
        later = Later-trans a.later b.later;
        sound = b.sound;
        kept = IsKept-trans c a.cluster b.cluster a.kept b.kept;
        same = b.same ∙ a.same;
        shows = λ m h. b.shows m (a.shows m h);
      }

  -- In a reachable cluster in which clients broadcast at most 1024 values, and sent neither an
  -- `init` nor a gossip, whatever has been lost or delayed, the timers and the network can go on
  -- so that what a read shows at a node is shown by a read at a node to which a way leads along the
  -- neighbours, over nodes whose names are not empty.
  pub values_spread :
      {ids : List String} {c : Cluster V} (i j : String)
      → Reach shuffle ids c
      → length c.asked ≤ 1024
      → Way c i j
      → (d : Cluster V) × Later shuffle c d
        × IsIn (handle_read (c.net.state i)) (handle_read (d.net.state j))
  unfolding handle_read
  values_spread {c = c} i j r few way =
      let a = arrives_along c i j (Reach-IsConsistent shuffle r) few way in
      (a.cluster, a.later, a.shows)
