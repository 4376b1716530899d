-- ===== src/Node.antt =====
-- AbstractNode.cpp: what every node does around its own LoadImpl, StoreImpl and DeleteImpl.
pub mod Config
pub mod Attempts
pub mod Load
pub mod Store
pub mod Delete
pub mod Returns
pub mod Keeps
pub mod Retry
pub mod Rewind
pub mod Stream
pub mod Tests
