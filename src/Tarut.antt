-- ===== src/Tarut.antt =====
-- tarut/src/node.rs: totally available transactions, read uncommitted.
pub mod Answers
pub mod LastWriter
pub mod Handle
mod UnitTests
mod Tests
use glome_rs.Base.{
  List, Option, String, [], add64, if◌then◌else◌, is_empty, leb, ltb, nat_eq, pair_eq, retain, some,
  string_eq, ℕ, ◌++◌, ◌==◌, ◌>>=◌, ◌∷◌,
}
use glome_rs.Collections.HashMap.{HashMap, get, insert, get_or}
use glome_rs.Maelstrom.Message.{Message, MessageBody, Op}
use glome_rs.Maelstrom.Node.{Node, handle_init, init_ok, next_msg_id, reply}
use glome_rs.Maelstrom.Handler.{Handled, MessageHandler}

pub record TarutNode : Type 0 where
  pub entries : HashMap ℕ (Option ℕ)
  pub versions : HashMap ℕ ℕ
  pub commit_ts : ℕ

abbrev pub new : TarutNode
new = record { entries = []; versions = []; commit_ts = 0 }

-- `self.entries.get(&key).and_then(|v| *v)`
unfoldable pub read_entry : HashMap ℕ (Option ℕ) → ℕ → Option ℕ
read_entry entries key = get key entries >>= λ v. v

-- The body of the loop of `process_txn`: the results that it adds, and the entries after it. An
-- operation of another name is passed over.
unfoldable pub process_op : HashMap ℕ (Option ℕ) → Op → List Op × HashMap ℕ (Option ℕ)
unfolding read_entry
process_op entries (op, key, opt_val) =
    if op == "r"
    then (("r", key, read_entry entries key) ∷ [], entries)
    else if op == "w"
    then (("w", key, opt_val) ∷ [], insert key opt_val entries)
    else ([], entries)

unfoldable pub process_ops : HashMap ℕ (Option ℕ) → List Op → List Op × HashMap ℕ (Option ℕ)
process_ops entries [] = ([], entries)
process_ops entries (op ∷ txn) =
    let (result, entries') = process_op entries op in
    let (results, entries'') = process_ops entries' txn in (result ++ results, entries'')

unfoldable pub process_txn : TarutNode → List Op → List Op × TarutNode
unfolding process_ops
process_txn s txn =
    let (results, entries) = process_ops s.entries txn in (results, record s { entries = entries })

-- `txn.into_iter().filter(|(op, _, _)| op == "w")`
abbrev pub write_ops : List Op → List Op
write_ops txn = retain (λ (op : Op). op.0 == "w") txn

-- The loop that installs the version of a commit.
unfoldable pub install : ℕ → List Op → HashMap ℕ ℕ → HashMap ℕ ℕ
install this_version [] versions = versions
install this_version ((_, key, _) ∷ ops) versions =
    install this_version ops (insert key this_version versions)

-- `sort_by_key(|(_, key, _)| *key)`, which is stable.
unfoldable pub insert_by_key : Op → List Op → List Op
insert_by_key op [] = op ∷ []
insert_by_key op (x ∷ ops) = if leb op.1 x.1 then op ∷ x ∷ ops else x ∷ insert_by_key op ops

unfoldable pub sort_by_key : List Op → List Op
sort_by_key [] = []
sort_by_key (op ∷ ops) = insert_by_key op (sort_by_key ops)

-- A replicated operation: its name, the key, the value and the version.
abbrev pub Write : Type 0
Write = String × ℕ × Option ℕ × ℕ

unfoldable pub to_ops : ℕ → List Op → List Write
to_ops this_version [] = []
to_ops this_version ((op, key, val) ∷ ops) = (op, key, val, this_version) ∷ to_ops this_version ops

-- The body of the loop over a received batch.
unfoldable pub apply_op : TarutNode → Write → TarutNode
apply_op s (op, key, val, version) =
    if op == "w"
    then (let current_version = get_or 0 key s.versions in
        if ltb current_version version
        then record s {
          entries = insert key val s.entries;
          versions = insert key version s.versions;
        }
        else s)
    else s

unfoldable pub apply_all : TarutNode → List Write → TarutNode
apply_all s [] = s
apply_all s (w ∷ batch) = apply_all (apply_op s w) batch

module _ {V : Type 0} where
  -- The loop over the peers.
  unfoldable pub send_to_all : Node → List Write → List String → List (Message V) × Node
  unfolding next_msg_id
  send_to_all node ops [] = ([], node)
  send_to_all node ops (peer ∷ peers) =
      let (n, node') = next_msg_id node in
      let (rest, node'') = send_to_all node' ops peers in
      (
        record { src = node.id; dest = peer; body = MessageBody.tarut_replicate n ops } ∷ rest,
        node'',
      )

  -- The broadcast of the writes under the next version, if there are any.
  unfoldable pub replicate : TarutNode → Node → List Op → List (Message V) × TarutNode × Node
  replicate s node ops =
      if is_empty ops
      then ([], s, node)
      else (let this_version = add64 s.commit_ts 1 in
          let versions = install this_version ops s.versions in
          let (out, node') = send_to_all node (to_ops this_version (sort_by_key ops)) node.peers in
          (out, record s { versions = versions; commit_ts = this_version }, node'))

  unfoldable pub handle_tx :
      TarutNode → Node → Message V → ℕ → List Op → List (Message V) × TarutNode × Node
  unfolding next_msg_id process_txn replicate
  handle_tx s node message msg_id txn =
      let (results, s') = process_txn s txn in
      let (out, s'', node') = replicate s' node (write_ops txn) in
      let (n, node'') = next_msg_id node' in
      (
        out
            ++ record {
              src = node'.id;
              dest = message.src;
              body = MessageBody.txn_ok n msg_id results;
            }
              ∷ [],
        s'',
        node'',
      )

  handle_body : TarutNode → Node → Message V → MessageBody V → Handled V TarutNode
  unfolding init_ok handle_init next_msg_id reply
  handle_body s node message (MessageBody.init msg_id node_id node_ids) =
      let (response, node') = init_ok (handle_init node node_id node_ids) message.src msg_id in
      some (response ∷ [], s, node')
  handle_body s node message (MessageBody.txn msg_id txn) =
      some (handle_tx s node message msg_id txn)
  handle_body s node message (MessageBody.tarut_replicate _ batch) =
      some ([], apply_all s batch, node)
  handle_body s node message _ = some ([], s, node)

  unfoldable pub handle : TarutNode → Node → Message V → Handled V TarutNode
  unfolding handle_body
  handle s node message = handle_body s node message message.body

  abbrev pub handler : MessageHandler V TarutNode
  handler = record { handle = handle }
