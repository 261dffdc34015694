-- ===== src/Tarct.antt =====
-- tarct/src/node.rs: totally available transactions, read committed.
pub mod Kv
pub mod Hash
pub mod Stages
pub mod Commit
pub mod Invariant
pub mod Handle
pub mod Cluster
mod UnitTests
mod Tests
use glome_rs.Base.{
  Bool, List, Option, String, [], add64, false, if◌then◌else◌, is_empty, leb, ltb, nat_eq, none,
  not, pair_eq, some, string_eq, ℕ, ◌++◌, ◌==◌, ◌>>=◌, ◌||◌, ◌∷◌,
}
use glome_rs.Collections.HashMap.{HashMap, get, insert, get_or}
use glome_rs.Maelstrom.Message.{Message, MessageBody, ErrorCode, Version, Op}
use glome_rs.Maelstrom.Node.{Node, handle_init, init_ok, next_msg_id, reply}
use glome_rs.Maelstrom.Handler.{Handled, MessageHandler}
use Kv.{same_version}
use Hash.{stable_hash}

pub record TarctNode : Type 0 where
  pub kv : Kv.Kv
  pub lamport_ts : ℕ

abbrev pub new : TarctNode
new = record { kv = Kv.new; lamport_ts = 0 }

-- The staging area of a transaction: its results, its read-set and its write-set.
pub record Stage : Type 0 where
  pub results : List Op
  pub read_set : HashMap ℕ Version
  pub write_set : HashMap ℕ (Option ℕ)

abbrev pub empty_stage : Stage
empty_stage = record { results = []; read_set = []; write_set = [] }

-- The body of the first loop; `none` is the panic of `unreachable!`.
unfoldable pub stage_op : Kv.Kv → Stage → Op → Option Stage
stage_op kv stage (op, key, opt_val) =
    if op == "r"
    then some (record {
      results = stage.results ++ ("r", key, get_or (Kv.get kv key) key stage.write_set) ∷ [];
      read_set = insert key (Kv.version kv key) stage.read_set;
      write_set = stage.write_set;
    })
    else if op == "w"
    then some (record stage {
      write_set = insert key opt_val stage.write_set;
      results = stage.results ++ ("w", key, opt_val) ∷ [];
    })
    else none

unfoldable pub stage_txn : Kv.Kv → Stage → List Op → Option Stage
stage_txn kv stage [] = some stage
stage_txn kv stage (op ∷ txn) = stage_op kv stage op >>= λ stage'. stage_txn kv stage' txn

-- The conflict check: whether a version read is no longer the current one.
unfoldable pub has_conflict : Kv.Kv → HashMap ℕ Version → Bool
has_conflict kv [] = false
has_conflict kv ((key, seen_version) ∷ read_set) =
    not (same_version (Kv.version kv key) seen_version) || has_conflict kv read_set

-- `read_set.values().map(|v| v.ts).max()`
unfoldable pub max_ts : HashMap ℕ Version → Option ℕ
max_ts [] = none
max_ts ((_, v) ∷ read_set) = elim (max_ts read_set) [
  | none ↦ some v.ts
  | some ts ↦ some (if ltb v.ts ts then ts else v.ts)
]

-- The clock after a commit that observed these versions.
unfoldable pub next_ts : ℕ → HashMap ℕ Version → ℕ
next_ts lamport_ts read_set =
    let max_observed_ts : ℕ = elim (max_ts read_set) [ none ↦ lamport_ts | some ts ↦ ts ] in
    add64 (if ltb lamport_ts max_observed_ts then max_observed_ts else lamport_ts) 1

unfoldable pub apply_all : Kv.Kv → HashMap ℕ (Option ℕ) → Version → Kv.Kv
apply_all kv [] version = kv
apply_all kv ((key, val) ∷ write_set) version =
    apply_all (Kv.apply kv key val version) write_set version

abbrev pub Write : Type 0
Write = String × ℕ × Option ℕ × Version

unfoldable pub to_ops : HashMap ℕ (Option ℕ) → Version → List Write
to_ops [] version = []
to_ops ((key, val) ∷ write_set) version = ("w", key, val, version) ∷ to_ops write_set version

-- `sort_by_key(|(_, key, _, _)| *key)`, which is stable.
unfoldable pub insert_by_key : Write → List Write → List Write
insert_by_key w [] = w ∷ []
insert_by_key w (x ∷ ws) = if leb w.1 x.1 then w ∷ x ∷ ws else x ∷ insert_by_key w ws

unfoldable pub sort_by_key : List Write → List Write
sort_by_key [] = []
sort_by_key (w ∷ ws) = insert_by_key w (sort_by_key ws)

-- The first loop over a received batch: the clock follows the versions.
unfoldable pub observe : ℕ → List Write → ℕ
observe lamport_ts [] = lamport_ts
observe lamport_ts ((_, _, _, v) ∷ batch) =
    observe (if ltb lamport_ts v.ts then v.ts else lamport_ts) batch

-- The writes of a batch, in order.
unfoldable pub writes_of : List Write → List (ℕ × Option ℕ × Version)
writes_of [] = []
writes_of ((op, key, val, version) ∷ batch) =
    let rest = writes_of batch in if op == "w" then (key, val, version) ∷ rest else rest

module _ {V : Type 0} where
  -- The loop over the peers.
  unfoldable pub send_to_all : Node → List Write → List String → List (Message V) × Node
  unfolding next_msg_id
  send_to_all node ops [] = ([], node)
  send_to_all node ops (peer ∷ peers) =
      let (n, node') = next_msg_id node in
      let (rest, node'') = send_to_all node' ops peers in
      (
        record { src = node.id; dest = peer; body = MessageBody.tarct_replicate n ops } ∷ rest,
        node'',
      )

  -- What follows the check: the commit, if there are writes, and the gossip of them.
  unfoldable pub commit : TarctNode → Node → Stage → List (Message V) × TarctNode × Node
  commit s node stage =
      if is_empty stage.write_set
      then ([], s, node)
      else (let lamport_ts = next_ts s.lamport_ts stage.read_set in
          let this_version : Version = record { ts = lamport_ts; node = stable_hash node.id } in
          let kv = apply_all s.kv stage.write_set this_version in
          let ops = sort_by_key (to_ops stage.write_set this_version) in
          let (out, node') = send_to_all node ops node.peers in
          (out, record { kv = kv; lamport_ts = lamport_ts }, node'))

  -- From the check on.
  unfoldable pub finish :
      TarctNode → Node → Message V → ℕ → Stage → List (Message V) × TarctNode × Node
  unfolding next_msg_id
  finish s node message msg_id stage =
      if has_conflict s.kv stage.read_set
      then (let (n, node') = next_msg_id node in
          (
            record {
              src = node.id;
              dest = message.src;
              body =
                  MessageBody.error n msg_id ErrorCode.txn_conflict
                    (some "Transaction aborted. Conflict detected") none;
            }
                ∷ [],
            s,
            node',
          ))
      else (let (out, s', node') = commit s node stage in
          let (n, node'') = next_msg_id node' in
          (
            out
                ++ record {
                  src = node'.id;
                  dest = message.src;
                  body = MessageBody.txn_ok n msg_id stage.results;
                }
                  ∷ [],
            s',
            node'',
          ))

  unfoldable pub handle_tx : TarctNode → Node → Message V → ℕ → List Op → Handled V TarctNode
  handle_tx s node message msg_id txn = do
    stage ← stage_txn s.kv empty_stage txn
    some (finish s node message msg_id stage)

  handle_body : TarctNode → Node → Message V → MessageBody V → Handled V TarctNode
  unfolding init_ok handle_init next_msg_id reply
  handle_body s node message (MessageBody.init msg_id node_id node_ids) =
      let (response, node') = init_ok (handle_init node node_id node_ids) message.src msg_id in
      some (response ∷ [], s, node')
  handle_body s node message (MessageBody.txn msg_id txn) = handle_tx s node message msg_id txn
  handle_body s node message (MessageBody.tarct_replicate _ batch) = some (
    [],
    record { kv = Kv.merge_batch s.kv (writes_of batch); lamport_ts = observe s.lamport_ts batch },
    node,
  )
  handle_body s node message _ = some ([], s, node)

  unfoldable pub handle : TarctNode → Node → Message V → Handled V TarctNode
  unfolding handle_body
  handle s node message = handle_body s node message message.body

  abbrev pub handler : MessageHandler V TarctNode
  handler = record { handle = handle }
