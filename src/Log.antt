-- ===== src/Log.antt =====
-- logging/log_manager.h, logging/log_manager.cpp and utils/crc32c.h: the write-ahead log.
pub mod Crc
pub mod Records
pub mod Manager
mod Tests
