-- ===== src/Lib.antt =====
-- The services of this repository run under Maelstrom: each is a node that reads messages, one to
-- a line, hands them to a handler, and writes the responses. The crate `maelstrom` holds what they
-- share; each other crate is one service.
--
-- Which file models which part (paths from the repository's root):
--   Maelstrom/Message.antt    maelstrom/src/lib.rs: `Message`, `MessageBody`, `ErrorCode`, `Version`
--   Maelstrom/Node.antt       maelstrom/src/node.rs: `Node` and its methods
--   Maelstrom/Handler.antt    maelstrom/src/node.rs: the trait `MessageHandler` and `run_node`
--   Maelstrom/Events.antt     grow_only_counter/src/main.rs and multi_node_broadcast/src/main.rs: the
--                             loop over the timer and the messages
--   Maelstrom/Net.antt        the nodes of a service and the messages between them
--   Maelstrom/Kv.antt         maelstrom/src/kv.rs: `KV`, the grow-only map of counters
--   Maelstrom/SimpleLog.antt  maelstrom/src/simple_log.rs: `Logs`, with `Log` in SimpleLog/Log.antt
--   Maelstrom/Log.antt        maelstrom/src/log.rs: `Logs`, with `Log` in Log/Single.antt
--   Echo.antt                 echo/src/node.rs
--   UniqueIds.antt            uniqueids/src/node.rs
--   GrowOnlyCounter.antt      grow_only_counter/src/node.rs, with main.rs in GrowOnlyCounter/Main.antt
--                             and a cluster of its nodes in GrowOnlyCounter/Cluster.antt
--   SingleNodeTat.antt        single_node_tat/src/node.rs
--   SingleNodeBroadcast.antt  single_node_broadcast/src/node.rs
--   MultiNodeBroadcast.antt   multi_node_broadcast/src/node.rs, with main.rs in
--                             MultiNodeBroadcast/Main.antt and a cluster of its nodes in
--                             MultiNodeBroadcast/Cluster.antt
--   SingleNodeKafka.antt      single_node_kafka/src/node.rs
--   MultiNodeKafka.antt       multi_node_kafka/src/node.rs, with the sort of `handle_init` in
--                             MultiNodeKafka/Leader.antt and a cluster of its nodes in
--                             MultiNodeKafka/Cluster.antt
--   Tarct.antt                tarct/src/node.rs, with `KV` in Tarct/Kv.antt, `stable_hash` in
--                             Tarct/Hash.antt and a cluster of its nodes in Tarct/Cluster.antt
--   Tarut.antt                tarut/src/node.rs
-- Services.antt and its modules are about several services at once, and Services/EntryPoints.antt has
-- the main.rs files that only call `run_node`. Txn.antt says what a transaction promises, for the
-- three transaction services. Maelstrom/Checks.antt and the modules UnitTests hold the unit tests
-- of the crates, each as a proposition about the handler, with a proof of all of them. Base and
-- Collections are the helpers: lists, Boolean tests, u64 arithmetic, and the collections of std.
-- The modules below a part hold its proofs; a module Tests holds runs on concrete inputs.
--
-- State and operations. A struct is a record with the same fields. A method that changes `self` or
-- the node takes the states and returns the new ones: `handle` takes the handler's state, the node
-- and the message, and returns the responses and both states, or `none` where the code panics
-- (`unreachable!`, an index out of range, a clock before the epoch). A function has the name of the
-- method that it models; a loop or a closure of a method is a function of its own. `handle` is
-- `handle_body` at the body of the message.
--
-- Numbers. A u64 is a number of ℕ, and its sums and products are taken modulo 2^64, as a release
-- build does; a debug build, which the Makefile runs, panics there instead. Where a theorem needs
-- that a counter does not wrap, it says so. `usize` values are lengths of lists and are not
-- bounded.
--
-- Collections. A HashMap is an association list and a HashSet a list; their order is an order in
-- which the map may be iterated, and theorems about iteration assume no more than that each key
-- stands once. A BTreeMap is an association list kept in the order of its keys.
--
-- Every loop is a recursion on a list, so there is no fuel, and every function is total.
--
-- Parameters. `serde_json::Value` is a type `V`, which the code only passes on. `from_str` and
-- `to_vec` of serde_json are arguments of `run_node`; `shuffle` of rand is an argument of the
-- broadcast node, of which it is assumed that it reorders the list. The hash xxh3_64 and the readings
-- of the system clock are arguments of the unique ids.
--
-- The clusters are step relations, over the handlers of the nodes: a client's request arrives, a
-- timer fires, or a message that a node sent arrives; it may arrive late, more than once or never,
-- and in any order. A cluster starts where every node has handled its `init`. In the cluster of
-- counters a client adds a number of 64 bits, no node is asked to add 2^64 times, and what each
-- node was asked to add is kept beside the program's state, for the theorems alone. In the cluster
-- of logs no log gets 2^64 messages, and clients send neither an `init` nor a replicated write;
-- what an answered send promises is shown of runs whose clients send to one key, since the pending
-- sends are found by their offset alone. In the cluster of broadcast nodes clients send neither an
-- `init` nor a gossip, and what they broadcast is kept for the theorems. In the cluster of read-
-- committed stores clients send transactions of reads and writes to the nodes, and no node's clock
-- comes to 2^64.
--
-- Not modelled: the tokio tasks and the channel between them, stdin and stdout themselves, and the
-- JSON form of the messages.
pub mod Base
pub mod Collections
pub mod Maelstrom
pub mod Echo
pub mod UniqueIds
pub mod GrowOnlyCounter
pub mod Txn
pub mod SingleNodeTat
pub mod SingleNodeBroadcast
pub mod MultiNodeBroadcast
pub mod SingleNodeKafka
pub mod Tarct
pub mod Tarut
pub mod MultiNodeKafka
pub mod Services
