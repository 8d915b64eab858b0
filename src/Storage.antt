-- ===== src/Storage.antt =====
-- storage/: the pages of the database file, the file itself, and the thread that serves its
-- requests.
pub mod SlottedPage
pub mod DiskManager
pub mod DiskScheduler
