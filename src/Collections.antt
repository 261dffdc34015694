-- ===== src/Collections.antt =====
-- The containers of `std::collections` that the program uses, over lists in any order.
pub mod HashMap
pub mod HashSet
pub mod BTreeMap
