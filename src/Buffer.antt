-- ===== src/Buffer.antt =====
-- buffer/ and storage/page_guard: the replacement policy, the frames, the guards that pin them, and
-- the buffer pool that ties them to the disk.
pub mod Arc
pub mod Frames
pub mod Guard
pub mod Pool
mod Tests
