-- ===== src/Index.antt =====
-- index/: the B+ tree over slotted pages.
pub mod Key
pub mod Search
pub mod Tree
pub mod Split
pub mod Iterator
mod Tests
