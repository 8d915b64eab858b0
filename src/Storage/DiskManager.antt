-- ===== src/Storage/DiskManager.antt =====
-- storage/disk_manager.h, storage/disk_manager.cpp and storage/freelist_page.h: the database file
-- as a sequence of pages, with the list of free pages threaded through them. Which calls of `pread`
-- and `pwrite` fail is a parameter; a call that does not fail transfers what the file has, or all
-- it is given. Every failure is thrown, and the state behind it is not modelled; nor is `fsync`.
pub mod Reuse
pub mod Restored
pub mod Allocate
pub mod FreeList
mod Tests
use database_internals.Prelude.{
  ℕ, zero, suc, ◌+◌, ◌-◌, ◌*◌, ◌/◌, ◌%◌, ◌^◌, ◌≡◌, refl, List, [], ◌∷◌, arith, ltb, leb, ◌==◌, ◌||◌,
  if◌then◌else◌, Bool, true, false, Outcome, ok, aborted, undefined, thrown, ◌>>=◌,
}
use database_internals.Memory.{Memory, write_bytes, read_bytes, write_le, read_le}

abbrev pub page_size : ℕ
page_size = 4096

abbrev pub invalid_page_id : ℕ
invalid_page_id = 2 ^ 32 - 1

abbrev pub max_free_ids : ℕ
max_free_ids = 1022

pub record File : Type 0 where
  pub bytes : Memory
  pub size : ℕ

-- Which system calls at an offset fail.
pub record System : Type 0 where
  pub read_fails : File → ℕ → Bool
  pub write_fails : File → ℕ → Bool

-- `page_id * PAGE_SIZE` is computed in 32 bits.
abbrev pub page_offset : ℕ → ℕ
page_offset page_id = page_id * page_size % 2 ^ 32

-- `global_metadata` is the struct's bytes.
pub record DiskManager : Type 0 where
  pub file : File
  pub global_metadata : Memory

abbrev pub magic_number : DiskManager → ℕ
magic_number d = read_le 4 d.global_metadata 0

abbrev pub freelist_head : DiskManager → ℕ
freelist_head d = read_le 4 d.global_metadata 12

abbrev pub next_page_id : DiskManager → ℕ
next_page_id d = read_le 4 d.global_metadata 16

abbrev pub set_freelist_head : DiskManager → ℕ → DiskManager
set_freelist_head d id = record d { global_metadata = write_le 4 d.global_metadata 12 id }

abbrev pub set_next_page_id : DiskManager → ℕ → DiskManager
set_next_page_id d id = record d { global_metadata = write_le 4 d.global_metadata 16 id }

-- `Freelist_Page`.
abbrev pub next_freelist_page : Memory → ℕ
next_freelist_page p = read_le 4 p 0

abbrev pub current_id_count : Memory → ℕ
current_id_count p = read_le 4 p 4

abbrev pub free_page_id : Memory → ℕ → ℕ
free_page_id p i = read_le 4 p (8 + 4 * i)

module _ (sys : System) where
  -- A page at an offset, in a buffer whose first byte is byte 0.
  unfoldable pub read_at : File → ℕ → Outcome Memory
  read_at f o =
      if sys.read_fails f o || ltb f.size (o + page_size) then thrown else ok (λ a. f.bytes (o + a))

  unfoldable pub write_at : File → ℕ → Memory → Outcome File
  write_at f o page =
      if sys.write_fails f o
      then thrown
      else ok (record {
        bytes = write_bytes f.bytes o (read_bytes page 0 page_size);
        size = if ltb f.size (o + page_size) then o + page_size else f.size;
      })

  pub update_metadata : DiskManager → Outcome DiskManager
  unfolding write_at
  update_metadata d = do f ← write_at d.file 0 d.global_metadata; ok (record d { file = f })

  -- The constructor, on a file that has been opened; `stack` is what the struct holds before.
  pub open_file : (magic : ℕ) → (stack : Memory) → File → Outcome DiskManager
  unfolding update_metadata read_at
  open_file magic stack f =
      if f.size == 0
      then update_metadata (record {
        file = f;
        global_metadata =
            write_le 4 (write_le 4 (write_le 4 stack 0 magic) 16 1) 12 invalid_page_id;
      })
      else if ltb f.size page_size
      then thrown
      else (do
        page ← read_at f 0
        if read_le 4 page 0 == magic
            then ok (record { file = f; global_metadata = page })
            else thrown)

  unfoldable pub write_page : DiskManager → ℕ → Memory → Outcome DiskManager
  unfolding write_at
  write_page d page_id page =
      if leb (next_page_id d) page_id
      then thrown
      else (do f ← write_at d.file (page_offset page_id) page; ok (record d { file = f }))

  unfoldable pub read_page : DiskManager → ℕ → Outcome Memory
  unfolding read_at
  read_page d page_id =
      if leb (next_page_id d) page_id then thrown else read_at d.file (page_offset page_id)

  -- What `allocatePage` does with the head of the free list.
  pub pop_free : DiskManager → Memory → Outcome (ℕ × DiskManager)
  unfolding write_at
  pop_free d page =
      let count = current_id_count page in
      if count == 0
      then ok (freelist_head d, set_freelist_head d (next_freelist_page page))
      else if ltb max_free_ids count
      then undefined
      else (do
        f ← write_at d.file (page_offset (freelist_head d)) (write_le 4 page 4 (count - 1))
        ok (free_page_id page (count - 1), record d { file = f }))

  pub allocate_page : DiskManager → Outcome (ℕ × DiskManager)
  unfolding update_metadata read_at pop_free
  allocate_page d =
      if freelist_head d == invalid_page_id
      then (do
        d' ← update_metadata (set_next_page_id d ((next_page_id d + 1) % 2 ^ 32))
        ok (next_page_id d, d'))
      else (do
        page ← read_at d.file (page_offset (freelist_head d))
        r ← pop_free d page
        d' ← update_metadata r.1
        ok (r.0, d'))

  -- The page becomes the head of the free list; `stack` is what the new page holds before.
  pub push_head : DiskManager → (page_id next : ℕ) → (stack : Memory) → Outcome DiskManager
  unfolding write_at update_metadata
  push_head d page_id next stack = do
    f ← write_at d.file (page_offset page_id) (write_le 4 (write_le 4 stack 4 0) 0 next)
    update_metadata (set_freelist_head (record d { file = f }) page_id)

  -- What `deallocatePage` does with the head of the free list.
  pub push_free : DiskManager → ℕ → Memory → Memory → Outcome DiskManager
  unfolding write_at push_head
  push_free d page_id stack page =
      let count = current_id_count page in
      if count == max_free_ids
      then push_head d page_id (freelist_head d) stack
      else if ltb max_free_ids count
      then undefined
      else (do
        f ←
            write_at d.file (page_offset (freelist_head d))
              (write_le 4 (write_le 4 page (8 + 4 * count) page_id) 4 (count + 1))
        ok (record d { file = f }))

  pub deallocate_page : DiskManager → ℕ → (stack : Memory) → Outcome DiskManager
  unfolding push_head read_at push_free
  deallocate_page d page_id stack =
      if freelist_head d == invalid_page_id
      then push_head d page_id invalid_page_id stack
      else (read_at d.file (page_offset (freelist_head d)) >>= push_free d page_id stack)

pub get_page_count : DiskManager → ℕ
get_page_count d = next_page_id d
