-- ===== src/Buffer/Tests.antt =====
-- A buffer pool of two frames on a file of three pages, on which no system call fails, or
-- none can be read.
use database_internals.Prelude.{
  ℕ, ◌-◌, ◌^◌, ◌==◌, ◌≡◌, ◌<◌, refl, if◌then◌else◌, Bool, true, false, [], ◌∷◌, Option, none, some,
  Outcome, ok, thrown, arith,
}
use database_internals.Memory.{Memory, read_bytes, read_le, of_le}
use database_internals.Storage.DiskManager.{System, DiskManager, read_page, read_at}
use database_internals.Storage.DiskScheduler.{
  DiskRequest, Machine, visit, settle, await, served, schedule_single, future_get,
}
use database_internals.Buffer.Arc.{
  init, record_access, access, miss, make_room, set_evictable, flag, hit_alive, unlink,
}
use database_internals.Buffer.Frames.{Shared, frame_header, lock_shared}
use database_internals.Buffer.Guard.Read.{ReadPageGuard, read_guard, drop_read_guard, read_data}
use database_internals.Buffer.Guard.Drops.{Releases, drop_read_guard-Releases}
use database_internals.Buffer.Pool.{
  BufferPoolManager, buffer_pool, find, claim_free, perform, mark, hit, load, bring_in,
  with_read_guard, checked_read_page, checked_write_page, left_by_throw, claim_frame, failed_read,
  where_thrown,
}
use database_internals.Buffer.Pool.Keeps.{IsLinked}
use database_internals.Buffer.Pool.Calls.{here, more, reads_page, Calls-IsLinked}
use database_internals.Buffer.Pool.Throws.{IsLost, left_by_throw-IsLost}
use database_internals.Buffer.Pool.Pins.{
  checked_read_page-drop_read_guard, two_readers-drop_read_guard,
}
use database_internals.Buffer.Pool.Fresh.{IsFresh, marked}
use database_internals.Buffer.Pool.Load.{Reads, checked_read_page-Reads}

abbrev sound : System
sound = record { read_fails = λ f o. false; write_fails = λ f o. false }

abbrev keep : DiskRequest → Machine → Machine
keep r m = m

abbrev zeros : Memory
zeros a = 0

-- The next page is page 3.
abbrev disk : DiskManager
disk = record {
  file = record { bytes = λ a. 7; size = 12288 };
  global_metadata = λ a. if a == 16 then 3 else 0;
}

pool : BufferPoolManager
pool = buffer_pool 2 disk (λ b a. 0)

abbrev value_or {ℓ} : {A : Type ℓ} → Outcome A → A → A
value_or (ok a) default = a
value_or _ default = default

-- Page 1 is read, and read again.
once : Option ReadPageGuard × BufferPoolManager
once = value_or (checked_read_page sound keep zeros pool 1) (none, pool)

twice : Option ReadPageGuard × BufferPoolManager
twice = value_or (checked_read_page sound keep zeros once.1 1) (none, pool)

abbrev guard : ReadPageGuard
guard = record { page_id = 1; frame = some 0; is_valid = true }

reads_once : checked_read_page sound keep zeros pool 1 ≡ ok (some guard, once.1)
unfolding once pool buffer_pool init frame_header checked_read_page bring_in claim_free load perform
    await served schedule_single visit settle read_page read_at read_le read_bytes of_le future_get
    record_access access miss make_room mark set_evictable flag with_read_guard read_guard
    lock_shared
reads_once = refl

reads_twice : checked_read_page sound keep zeros once.1 1 ≡ ok (some guard, twice.1)
unfolding twice once pool buffer_pool init frame_header checked_read_page bring_in claim_free load
    perform await served schedule_single visit settle read_page read_at read_le read_bytes of_le
    future_get record_access access miss make_room mark set_evictable flag with_read_guard
    read_guard lock_shared hit hit_alive unlink
reads_twice = refl

pool-IsFresh : IsFresh pool.shared
unfolding pool buffer_pool frame_header
pool-IsFresh = record { ids = λ f. refl; pins = λ f. refl }

absent : find 1 pool.page_table ≡ none
unfolding pool buffer_pool
absent = refl

pool-IsLinked : IsLinked pool
unfolding pool
pool-IsLinked = Calls-IsLinked sound keep zeros 2 disk (λ b a. 0) pool here

Calls-IsLinked_example : IsLinked once.1
unfolding pool
Calls-IsLinked_example =
    Calls-IsLinked sound keep zeros 2 disk (λ b a. 0) once.1
      (more here (reads_page 1 (some guard) once.1 reads_once))

-- The same file, of which no page can be read.
abbrev unreadable : System
unreadable = record { read_fails = λ f o. true; write_fails = λ f o. false }

left : BufferPoolManager
left = record pool { free_frames = 1 ∷ [] }

throws : left_by_throw unreadable keep zeros pool 1 ≡ ok (some (0, left))
unfolding left pool buffer_pool init left_by_throw claim_frame failed_read claim_free await served
    schedule_single visit settle read_page read_at read_le read_bytes of_le where_thrown
throws = refl

left_by_throw-IsLost_example :
    (checked_read_page unreadable keep zeros pool 1 ≡ thrown)
    × (checked_write_page unreadable keep zeros pool 1 ≡ thrown)
    × IsLost left 0
left_by_throw-IsLost_example =
    left_by_throw-IsLost unreadable keep zeros pool left 1 0 pool-IsLinked throws

checked_read_page-Reads_example :
    (f : ℕ) × (r : Reads sound keep zeros pool once.1 1 f) × (read_data guard once.1.shared
      ≡ ok r.page)
checked_read_page-Reads_example =
    checked_read_page-Reads sound keep zeros pool once.1 1 guard pool-IsLinked absent reads_once

checked_read_page-drop_read_guard_example :
    (f : ℕ) × (g' : ReadPageGuard) × (s : Shared) × (drop_read_guard guard once.1.shared
      ≡ ok (g', s))
    × (find 1 once.1.page_table ≡ some f)
    × ((s.frames f).pin_count ≡ 2 ^ 64 - 1)
    × (marked s.replacer f ≡ some false)
checked_read_page-drop_read_guard_example =
    checked_read_page-drop_read_guard sound keep zeros pool once.1 1 guard pool-IsFresh absent
      reads_once

two_readers-drop_read_guard_example :
    (f : ℕ) × (g' : ReadPageGuard) × (s : Shared) × (drop_read_guard guard twice.1.shared
      ≡ ok (g', s))
    × (guard ≡ record { page_id = 1; frame = some f; is_valid = true })
    × ((s.frames f).pin_count ≡ 0)
    × (0 < (s.frames f).readers)
    × (marked s.replacer f ≡ some true)
two_readers-drop_read_guard_example =
    two_readers-drop_read_guard sound keep zeros pool once.1 twice.1 1 guard guard pool-IsFresh
      absent reads_once reads_twice

-- A frame with two pins, read or written.
abbrev held : Bool → Shared
held writer = record {
  frames = λ f. record {
    frame_id = f;
    readers = if writer then 0 else 2;
    writer = writer;
    pin_count = 2;
    is_dirty = false;
  };
  replacer = init 2;
  machine = record { disk = disk; buffers = λ b a. 0 };
}

drop_read_guard-Releases_example :
    (s' : Shared) × (g' : ReadPageGuard) × (drop_read_guard guard (held false) ≡ ok (g', s'))
    × (drop_read_guard g' s' ≡ ok (g', s'))
    × Releases (held false) s' 0 1 false
drop_read_guard-Releases_example =
    drop_read_guard-Releases (held false) 1 0 (init 2) (omega arith)
      (λ one. absurd (omega (arith, one)))
