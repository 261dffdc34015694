-- ===== src/UniqueIds.antt =====
-- uniqueids/src/node.rs: ids of 64 bits, made of the time, the node and a count in the millisecond.
-- `xxh3_64` is the hash of the crate xxhash_rust at the bytes of a text. `clock` is what
-- `SystemTime::now().duration_since(UNIX_EPOCH)` gives at the call, in milliseconds; `none` is its
-- error, a time before the epoch.
pub mod Layout
pub mod Runs
pub mod Clock
mod UnitTests
mod Tests
use glome_rs.Base.{
  Option, String, [], if◌then◌else◌, nat_eq, none, pair_eq, some, string_eq, u64_mod, ℕ, ◌%◌, ◌*◌,
  ◌+◌, ◌-◌, ◌==◌, ◌>>=◌, ◌^◌, ◌∷◌,
}
use Prim.Native.Nat.{bit_and, bit_or}
use glome_rs.Maelstrom.Message.{Message, MessageBody}
use glome_rs.Maelstrom.Node.{Node, handle_init, init_ok, next_msg_id, reply}
use glome_rs.Maelstrom.Handler.{Handled, MessageHandler}

abbrev pub time_bits : ℕ
time_bits = 42

abbrev pub node_bits : ℕ
node_bits = 10

abbrev pub seq_bits : ℕ
seq_bits = 12

abbrev pub time_mask : ℕ
time_mask = 2 ^ time_bits - 1

-- `seq` is a `u16`, and `node_hash` is the source's field `node_bits`.
pub record IdGen : Type 0 where
  pub node_hash : ℕ
  pub last_ms : ℕ
  pub seq : ℕ

pub record UniqueIdNode : Type 0 where
  pub id_gen : Option IdGen

abbrev pub new : UniqueIdNode
new = record { id_gen = none }

-- `x << k` on `u64`.
abbrev pub shl64 : ℕ → ℕ → ℕ
shl64 x k = x * 2 ^ k % u64_mod

-- The last line of `generate`.
unfoldable pub pack : ℕ → ℕ → ℕ → ℕ
pack ts node_hash seq =
    bit_or (bit_or (shl64 ts (node_bits + seq_bits)) (shl64 node_hash seq_bits)) seq

-- The count and the time after a reading of the clock.
unfoldable pub tick : IdGen → ℕ → IdGen
tick g ts =
    if ts == g.last_ms
    then record g { seq = (g.seq + 1) % 2 ^ 16 }
    else record g { last_ms = ts; seq = 0 }

-- `generate` at a reading of the clock in milliseconds.
unfoldable pub generate : IdGen → ℕ → ℕ × IdGen
generate g millis =
    let now_ms = millis % u64_mod in
    let ts = bit_and now_ms time_mask in let g' = tick g ts in (pack ts g'.node_hash g'.seq, g')

module _ (xxh3_64 : String → ℕ) where
  unfoldable pub new_gen : String → IdGen
  new_gen node_id = record {
    node_hash = bit_and (xxh3_64 node_id) (2 ^ node_bits - 1);
    last_ms = 0;
    seq = 0;
  }

  -- `if self.id_gen.is_none() { … }`
  unfoldable pub establish : UniqueIdNode → Node → UniqueIdNode
  unfolding new_gen
  establish s node = elim s.id_gen [
    | none ↦ record { id_gen = some (new_gen node.id) }
    | some g ↦ s
  ]

module _ {V : Type 0} (xxh3_64 : String → ℕ) (clock : Option ℕ) where
  handle_body : UniqueIdNode → Node → Message V → MessageBody V → Handled V UniqueIdNode
  unfolding init_ok handle_init next_msg_id reply establish generate
  handle_body s node message (MessageBody.init msg_id node_id node_ids) =
      let node' = handle_init node node_id node_ids in
      let s' = establish xxh3_64 s node' in
      let (response, node'') = init_ok node' message.src msg_id in some (response ∷ [], s', node'')
  handle_body s node message (MessageBody.generate msg_id) = do
    g ← (establish xxh3_64 s node).id_gen
    millis ← clock
    let (unique_id, g') = generate g millis
    let (response_msg_id, node') = next_msg_id node
    some (
      reply node' message.src (MessageBody.generate_ok response_msg_id msg_id unique_id) ∷ [],
      record { id_gen = some g' },
      node',
    )
  handle_body s node message _ = some ([], s, node)

  unfoldable pub handle : UniqueIdNode → Node → Message V → Handled V UniqueIdNode
  unfolding handle_body
  handle s node message = handle_body s node message message.body

  abbrev pub handler : MessageHandler V UniqueIdNode
  handler = record { handle = handle }
