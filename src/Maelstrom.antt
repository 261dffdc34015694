-- ===== src/Maelstrom.antt =====
-- The crate `maelstrom`: the protocol's messages, the base node, and the structures that the
-- services share.
pub mod Message
pub mod Node
pub mod Handler
pub mod Events
pub mod Net
pub mod Kv
pub mod SimpleLog
pub mod Log
pub mod Checks
mod Tests
