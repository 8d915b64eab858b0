-- ===== src/Lib.antt =====
-- A verification library for database-internals, a small database in C++.
--
-- The program is a stack: slotted pages and a B+ tree over a buffer pool, whose eviction policy is
-- the adaptive replacement cache, over a disk manager; beside it a write-ahead log, and a type
-- system whose values, columns, schemas and tuples are written into pages.
--
-- What is modelled, and where:
--   * Buffer.Arc: `ArcReplacer` (buffer/arc_replacer.h, buffer/arc_replacer.cpp). The record
--     `ArcReplacer` has the fields of the class; `init`, `evict`, `record_access`,
--     `set_evictable`, `remove` and `size` are the public functions, with the helpers each is
--     made of. `LogFatalStream` ends the process: `aborted`. What C++ leaves undefined (a null
--     dereference, `pop_back` of an empty list, a division by zero) is `undefined`.
--   * Log.Crc: utils/crc32c.h, the portable path.
--   * Log.Records: the records of logging/log_manager.h as bytes.
--   * Log.Manager: `LogManager` (logging/log_manager.cpp); `append`, the `log_...` functions, and
--     in Log.Manager.Flush `flush_to`. The append buffer is byte-addressed memory; the file is the
--     list of bytes appended to it, those of them that have been synced, and whether its name in
--     the directory has been.
--   * Storage.SlottedPage: storage/slotted_page.h, storage/slotted_page.cpp, byte by byte.
--   * Storage.DiskManager: storage/disk_manager.h, storage/disk_manager.cpp and
--     storage/freelist_page.h; the file is its bytes and its size.
--   * Storage.DiskScheduler: storage/disk_scheduler.h, storage/disk_scheduler.cpp and
--     common/channel.h. `visit` is the worker's handler, on the disk manager and the buffers that
--     requests point to; `Step` is one step of the worker or of a client, and `Run` any
--     interleaving of them.
--   * Buffer.Frames, Buffer.Guard: `FrameHeader` of buffer/buffer_pool_manager.h and the two
--     guards of storage/page_guard.cpp, on the frames, the replacer and the disk that they share
--     with the pool.
--   * Buffer.Pool: `BufferPoolManager` (buffer/buffer_pool_manager.cpp), on the replacer of
--     Buffer.Arc and the scheduler of Storage.DiskScheduler. `bring_in` is what `CheckedReadPage`
--     and `CheckedWritePage` do up to the guard, in the three cases of the source.
--   * Index.Key, Index.Search, Index.Tree, Index.Split, Index.Iterator: index/key.h,
--     index/b_plus_tree.h and index/b_plus_tree.cpp, on the pages of Storage.SlottedPage and the
--     disk manager.
--   * Types.Value: type/value.h and the subclasses of `Type`; Types.Column: type/column.cpp and
--     type/schema.cpp; Types.Tuple: type/tuple.cpp, where a string that `Deserialize` has pushed
--     into its vector is `freed`.
--   * Memory: `memcpy` and the reading and writing of plain values, little-endian.
--   * Prelude: tests, list helpers, the result type `Outcome`, and machine words.
--
-- State is passed explicitly, a failing call returns an `Outcome` (`ok`, `aborted`, `undefined`,
-- `thrown`, or `waits` for a call that blocks for ever when no other thread goes on), a `size_t`
-- is a natural number whose additions and subtractions wrap at 2^64, and a `uint8_t*` is an offset
-- into a memory. `flush_to` takes the results of the system calls as an argument, one `Io` for each
-- turn as leader; a run that uses them up is `pending`. The searches of the B+ tree and its descent
-- have fuel, and `waits` without it: one round more than there are slots, or one page more than the
-- way to the leaf is long, is enough, as is proved. The search for a pivot has 2^16 rounds, after
-- which its 16-bit counter has gone round. The walk of the iterator over the leaves has fuel for
-- the leaves that it crosses. Every other loop is structural.
--
-- What the target does to `float`s and `double`s are parameters: the conversions are `FloatFormat`,
-- the sums and differences `FloatArithmetic`, and the order a field of `KeyFormat`.
--
-- A slotted page is the memory of its 4096 bytes, header and slots included. `IsFormed` says that
-- the slots, the gap and the heap do not overlap, `IsFilled` that no record is empty, and `records`
-- is the list of records that such a page stands for, with `none` for a tombstone; `live` leaves the
-- tombstones out.
--
-- The buffer pool is run by one thread: its latch is always free, a frame's latch is free or never
-- to be had, and a request to the disk is served at once; the interleavings of the scheduler's
-- clients and its worker are those of `Run`. What an exception leaves is the parameter `wreck` in
-- the scheduler; of the pool, `left_by_throw` is what a read that throws leaves of it, and what a
-- write that throws leaves is not modelled.
--
-- Not modelled: interleaved calls of the buffer pool, `FlushAllPages` and `GetPinCount`, which only
-- throw, `merge` and `redistribute` of the B+ tree, which are empty, the lifetime of C++ objects
-- other than the strings of a tuple that has been read, and printing.
pub mod Prelude
pub mod Memory
pub mod Storage
pub mod Buffer
pub mod Log
pub mod Types
pub mod Index
