-- ===== src/Maelstrom/Message.antt =====
-- maelstrom/src/lib.rs: the messages of the protocol. `Value` is `serde_json::Value`, which the
-- crates only pass through.
use glome_rs.Base.{ℕ, String, Option, List}
use glome_rs.Collections.HashMap.{HashMap}

pub record Version : Type 0 where
  pub ts : ℕ
  pub node : ℕ

-- maelstrom/src/kv.rs: the entry of one node in a grow-only counter.
pub record Counter : Type 0 where
  pub version : ℕ
  pub value : ℕ

pub data ErrorCode : Type 0 where
  timeout node_not_found not_supported temporarily_unavailable malformed_message : ErrorCode
  crash abort key_does_not_exist key_already_exists precondition_failed : ErrorCode
  txn_conflict other : ErrorCode

-- One operation of a transaction: its name, the key and the value.
abbrev pub Op : Type 0
Op = String × ℕ × Option ℕ

-- The first number of each body is its `msg_id`; a reply has `in_reply_to` next.
pub data MessageBody (Value : Type 0) : Type 0 where
  init : ℕ → String → List String → MessageBody Value
  init_ok : ℕ → ℕ → MessageBody Value
  echo : ℕ → String → MessageBody Value
  echo_ok : ℕ → ℕ → String → MessageBody Value
  generate : ℕ → MessageBody Value
  generate_ok : ℕ → ℕ → ℕ → MessageBody Value
  broadcast : ℕ → ℕ → MessageBody Value
  broadcast_ok : ℕ → ℕ → MessageBody Value
  broadcast_gossip : ℕ → List ℕ → MessageBody Value
  read : ℕ → MessageBody Value
  read_ok : ℕ → ℕ → Option (List ℕ) → Option ℕ → MessageBody Value
  topology : ℕ → HashMap String (List String) → MessageBody Value
  topology_ok : ℕ → ℕ → MessageBody Value
  add : ℕ → ℕ → MessageBody Value
  add_ok : ℕ → ℕ → MessageBody Value
  counter_gossip : ℕ → HashMap String Counter → MessageBody Value
  send : ℕ → String → ℕ → MessageBody Value
  send_ok : ℕ → ℕ → ℕ → MessageBody Value
  forward_send : ℕ → String → ℕ → String → ℕ → MessageBody Value
  replicate : ℕ → String → ℕ → ℕ → MessageBody Value
  replicate_ok : ℕ → ℕ → ℕ → MessageBody Value
  poll : ℕ → HashMap String ℕ → MessageBody Value
  poll_ok : ℕ → ℕ → HashMap String (List (ℕ × ℕ)) → MessageBody Value
  commit_offsets : ℕ → HashMap String ℕ → MessageBody Value
  commit_offsets_ok : ℕ → ℕ → MessageBody Value
  list_committed_offsets : ℕ → List String → MessageBody Value
  list_committed_offsets_ok : ℕ → ℕ → HashMap String ℕ → MessageBody Value
  txn : ℕ → List Op → MessageBody Value
  txn_ok : ℕ → ℕ → List Op → MessageBody Value
  tarut_replicate : ℕ → List (String × ℕ × Option ℕ × ℕ) → MessageBody Value
  tarct_replicate : ℕ → List (String × ℕ × Option ℕ × Version) → MessageBody Value
  error : ℕ → ℕ → ErrorCode → Option String → Option Value → MessageBody Value

pub record Message (Value : Type 0) : Type 0 where
  pub src : String
  pub dest : String
  pub body : MessageBody Value

-- The number that a body carries.
abbrev pub msg_id : {V : Type 0} → MessageBody V → ℕ
msg_id (init n _ _) = n
msg_id (init_ok n _) = n
msg_id (echo n _) = n
msg_id (echo_ok n _ _) = n
msg_id (generate n) = n
msg_id (generate_ok n _ _) = n
msg_id (broadcast n _) = n
msg_id (broadcast_ok n _) = n
msg_id (broadcast_gossip n _) = n
msg_id (read n) = n
msg_id (read_ok n _ _ _) = n
msg_id (topology n _) = n
msg_id (topology_ok n _) = n
msg_id (add n _) = n
msg_id (add_ok n _) = n
msg_id (counter_gossip n _) = n
msg_id (send n _ _) = n
msg_id (send_ok n _ _) = n
msg_id (forward_send n _ _ _ _) = n
msg_id (replicate n _ _ _) = n
msg_id (replicate_ok n _ _) = n
msg_id (poll n _) = n
msg_id (poll_ok n _ _) = n
msg_id (commit_offsets n _) = n
msg_id (commit_offsets_ok n _) = n
msg_id (list_committed_offsets n _) = n
msg_id (list_committed_offsets_ok n _ _) = n
msg_id (txn n _) = n
msg_id (txn_ok n _ _) = n
msg_id (tarut_replicate n _) = n
msg_id (tarct_replicate n _) = n
msg_id (error n _ _ _ _) = n
