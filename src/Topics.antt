-- ===== src/Topics.antt =====
-- broker/lib/topics: topic strings, the subscription tree and the tree of retained messages.
pub mod Level
pub mod Filter
pub mod Tree
pub mod Value
pub mod Snode
pub mod Rnode
pub mod MemTopics
