-- ===== src/GrowOnlyCounter.antt =====
-- grow_only_counter/src/node.rs: the replicated grow-only counter.
pub mod Delta
pub mod Gossip
pub mod Handle
pub mod Main
pub mod Cluster
mod Tests
use glome_rs.Base.{
  List, String, [], if◌then◌else◌, is_empty, ltb, nat_eq, none, not, pair_eq, retain, some,
  string_eq, ℕ, ◌++◌, ◌==◌, ◌||◌, ◌∷◌,
}
use glome_rs.Collections.HashMap.{HashMap, get, insert, get_or, or_insert}
use glome_rs.Maelstrom.Message.{Message, MessageBody, Counter}
use glome_rs.Maelstrom.Node.{Node, handle_init, init_ok, next_msg_id, reply}
use glome_rs.Maelstrom.Handler.{Handled, MessageHandler}
use glome_rs.Maelstrom.Kv
use glome_rs.Maelstrom.Kv.{Kv, is_empty_kv}

pub record GrowOnlyCounterNode : Type 0 where
  pub kv : Kv
  pub peer_known_versions : HashMap String (HashMap String ℕ)

abbrev pub new : GrowOnlyCounterNode
new = record { kv = Kv.new; peer_known_versions = [] }

-- The first loop of `gossip` over the counters: those that the peer is not known to have.
unfoldable pub collect_entry :
    HashMap String ℕ → HashMap String Counter → String → Counter → HashMap String Counter
collect_entry peer_versions delta node_id counter =
    let known_version = get_or 0 node_id peer_versions in
    if ltb known_version counter.version then insert node_id counter delta else delta

unfoldable pub collect :
    HashMap String ℕ → HashMap String Counter → HashMap String Counter → HashMap String Counter
collect peer_versions delta [] = delta
collect peer_versions delta ((node_id, counter) ∷ counters) =
    collect peer_versions (collect_entry peer_versions delta node_id counter) counters

-- The second loop, which `handle_counter_gossip` has too: the peer now knows these versions.
unfoldable pub learn_entry : HashMap String ℕ → String → Counter → HashMap String ℕ
learn_entry peer_versions node_id counter =
    let entry = get_or 0 node_id peer_versions in
    insert node_id (if ltb entry counter.version then counter.version else entry) peer_versions

unfoldable pub learn : HashMap String ℕ → HashMap String Counter → HashMap String ℕ
learn peer_versions [] = peer_versions
learn peer_versions ((node_id, counter) ∷ delta) =
    learn (learn_entry peer_versions node_id counter) delta

module _ {V : Type 0} where
  -- One round of the loop over the peers.
  unfoldable pub gossip_peer :
      GrowOnlyCounterNode → Node → String → List (Message V) × GrowOnlyCounterNode × Node
  unfolding next_msg_id
  gossip_peer s node peer =
      let peer_versions = get_or [] peer s.peer_known_versions in
      let delta = collect peer_versions [] s.kv.counters in
      if is_empty delta
      then ([], record s { peer_known_versions = or_insert peer [] s.peer_known_versions }, node)
      else (
        record {
          src = node.id;
          dest = peer;
          body = MessageBody.counter_gossip (next_msg_id node).0 delta;
        }
            ∷ [],
        record s {
          peer_known_versions = insert peer (learn peer_versions delta) s.peer_known_versions;
        },
        (next_msg_id node).1,
      )

  unfoldable pub gossip_peers :
      GrowOnlyCounterNode → Node → List String → List (Message V) × GrowOnlyCounterNode × Node
  gossip_peers s node [] = ([], s, node)
  gossip_peers s node (peer ∷ peers) =
      let (msgs, s', node') = gossip_peer s node peer in
      let (rest, s'', node'') = gossip_peers s' node' peers in (msgs ++ rest, s'', node'')

  unfoldable pub gossip : GrowOnlyCounterNode → Node → List (Message V) × GrowOnlyCounterNode × Node
  gossip s node =
      if node.id == "" || is_empty node.peers || is_empty_kv s.kv
      then ([], s, node)
      else gossip_peers s node node.peers

unfoldable pub handle_add : GrowOnlyCounterNode → Node → ℕ → GrowOnlyCounterNode
handle_add s node delta = record s { kv = Kv.add s.kv node.id delta }

unfoldable pub handle_read : GrowOnlyCounterNode → ℕ
handle_read s = Kv.read s.kv

unfoldable pub handle_counter_gossip :
    GrowOnlyCounterNode → String → HashMap String Counter → GrowOnlyCounterNode
handle_counter_gossip s from_peer counters = record {
  kv = Kv.merge s.kv counters;
  peer_known_versions =
      insert from_peer (learn (get_or [] from_peer s.peer_known_versions) counters)
        s.peer_known_versions;
}

-- `for peer in node_ids.into_iter().filter(…)`
unfoldable pub prepare_peers :
    HashMap String (HashMap String ℕ) → List String → HashMap String (HashMap String ℕ)
prepare_peers known [] = known
prepare_peers known (peer ∷ peers) = prepare_peers (or_insert peer [] known) peers

module _ {V : Type 0} where
  unfoldable pub handle_body :
      GrowOnlyCounterNode → Node → Message V → MessageBody V → Handled V GrowOnlyCounterNode
  unfolding init_ok handle_init next_msg_id reply
  handle_body s node msg (MessageBody.init msg_id node_id node_ids) =
      let s' : GrowOnlyCounterNode = record {
        kv = Kv.init s.kv node_ids;
        peer_known_versions =
            prepare_peers s.peer_known_versions (retain (λ n. not (n == node_id)) node_ids);
      } in
      let (response, node') = init_ok (handle_init node node_id node_ids) msg.src msg_id in
      some (response ∷ [], s', node')
  handle_body s node msg (MessageBody.add msg_id delta) =
      let s' = handle_add s node delta in
      let (reply_msg_id, node') = next_msg_id node in
      some (reply node' msg.src (MessageBody.add_ok reply_msg_id msg_id) ∷ [], s', node')
  handle_body s node msg (MessageBody.read msg_id) =
      let value = handle_read s in
      let (reply_msg_id, node') = next_msg_id node in
      some (
        reply node' msg.src (MessageBody.read_ok reply_msg_id msg_id none (some value)) ∷ [],
        s,
        node',
      )
  handle_body s node msg (MessageBody.counter_gossip _ counters) =
      some ([], handle_counter_gossip s msg.src counters, node)
  handle_body s node msg _ = some ([], s, node)

  unfoldable pub handle : GrowOnlyCounterNode → Node → Message V → Handled V GrowOnlyCounterNode
  unfolding handle_body
  handle s node msg = handle_body s node msg msg.body

  abbrev pub handler : MessageHandler V GrowOnlyCounterNode
  handler = record { handle = handle }
