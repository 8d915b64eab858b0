-- ===== src/Buffer/Pool.antt =====
-- `BufferPoolManager` of buffer/buffer_pool_manager.h and buffer/buffer_pool_manager.cpp, as one
-- thread runs it: `bpm_latch_` is always free then, and a frame's latch is free or never to be had.
-- A request to the disk scheduler is waited for, so that the worker serves it at once. A call in
-- which a `future.get()` throws is `thrown`; what such a read leaves of the pool in cases 2 and 3
-- of `CheckedWritePage` and `CheckedReadPage` is `left_by_throw`. `page_table_` is a list of pairs.
pub mod Tables
pub mod Keeps
pub mod Linked
pub mod Handles
pub mod Calls
pub mod Throws
pub mod Fresh
pub mod Pins
pub mod Load
use database_internals.Prelude.{
  ℕ, zero, suc, ◌+◌, ◌==◌, Bool, true, false, if◌then◌else◌, Option, none, some, List, [], ◌∷◌,
  ◌++◌, length, ltb, Outcome, ok, aborted, undefined, ◌>>=◌,
}
use database_internals.Memory.{Memory}
use database_internals.Storage.DiskManager.{System, DiskManager, invalid_page_id}
use database_internals.Storage.DiskScheduler.{
  DiskRequest, read_request, write_request, allocate_request, deallocate_request, Machine, await,
  future_get, Reply, value, page_value, exception,
}
use database_internals.Buffer.Arc.{init, record_access, set_evictable, remove, evict, ArcReplacer}
use database_internals.Buffer.Frames.{
  FrameHeader, Shared, frame_header, set_dirty, pin, unpin, reset,
}
use database_internals.Buffer.Guard.Read.{ReadPageGuard, read_guard}
use database_internals.Buffer.Guard.Write.{
  WritePageGuard, write_guard, flush_write_guard, drop_write_guard,
}

-- `page_table_`: `find`, `erase` by key, and `page_table_[p] = f`.
abbrev pub PageTable : Type 0
PageTable = List (ℕ × ℕ)

abbrev pub find : ℕ → PageTable → Option ℕ
find p [] = none
find p ((q, f) ∷ t) = if q == p then some f else find p t

abbrev pub erase_page : ℕ → PageTable → PageTable
erase_page p [] = []
erase_page p ((q, f) ∷ t) = let rest = erase_page p t in if q == p then rest else (q, f) ∷ rest

abbrev pub link : ℕ → ℕ → PageTable → PageTable
link p f t = (p, f) ∷ erase_page p t

pub record BufferPoolManager : Type 0 where
  pub num_frames : ℕ
  pub shared : Shared
  pub page_table : PageTable
  pub free_frames : List ℕ

-- The frames' numbers, from the front.
abbrev pub up_to : ℕ → List ℕ
up_to zero = []
up_to (suc n) = up_to n ++ n ∷ []

-- The constructor; `noise` is the memory of the buffers behind the frames'.
unfoldable pub buffer_pool : (num_frames : ℕ) → DiskManager → (ℕ → Memory) → BufferPoolManager
unfolding frame_header
buffer_pool num_frames disk noise = record {
  num_frames = num_frames;
  shared = record {
    frames = frame_header;
    replacer = init num_frames;
    machine = record { disk = disk; buffers = λ f. if ltb f num_frames then (λ a. 0) else noise f };
  };
  page_table = [];
  free_frames = up_to num_frames;
}

pub size : BufferPoolManager → ℕ
size b = b.num_frames

-- `frames_[f]`.
abbrev pub frame_at : BufferPoolManager → ℕ → Outcome FrameHeader
frame_at b f = if ltb f b.num_frames then ok (b.shared.frames f) else undefined

abbrev pub set_replacer : BufferPoolManager → ArcReplacer → BufferPoolManager
set_replacer b r = record b { shared = record b.shared { replacer = r } }

-- `SetEvictable` on the pool's replacer.
unfoldable pub mark : BufferPoolManager → ℕ → Bool → Outcome BufferPoolManager
mark b f evictable = do r ← set_evictable b.shared.replacer f evictable; ok (set_replacer b r)

-- A page that is in memory: the access is recorded and the frame pinned.
unfoldable pub hit : BufferPoolManager → (page_id f : ℕ) → Outcome BufferPoolManager
unfolding mark
hit b page_id f = do
  fh ← frame_at b f
  r ← record_access b.shared.replacer f page_id
  let b' = record b { shared = record (pin b.shared f) { replacer = r } } in
      if fh.pin_count == 0 then mark b' f false else ok b'

-- `free_frames_.front()` and `pop_front`, undefined on an empty list.
unfoldable pub claim_free : BufferPoolManager → Outcome (ℕ × BufferPoolManager)
claim_free b = elim b.free_frames [
  | [] ↦ undefined
  | f ∷ fs ↦ (do fh ← frame_at b f; ok (f, record b { free_frames = fs }))
]

-- `if(--frame->pin_count_ == 0) replacer_->SetEvictable(frame_id, true)`.
unfoldable pub release : BufferPoolManager → ℕ → Outcome BufferPoolManager
unfolding mark
release b f =
    let b' = record b { shared = unpin b.shared f } in
    if (b'.shared.frames f).pin_count == 0 then mark b' f true else ok b'

-- What `FlushPageUnsafe` and `FlushAllPagesUnsafe` do to a frame before they write it.
unfoldable pub clean_and_pin : BufferPoolManager → ℕ → Outcome BufferPoolManager
unfolding mark
clean_and_pin b f = do
  fh ← frame_at b f
  mark (record b { shared = pin (set_dirty b.shared f false) f }) f false

-- The page leaves the pool, and its frame becomes a free one.
unfoldable pub forget_page : BufferPoolManager → (page_id f : ℕ) → Outcome BufferPoolManager
unfolding reset
forget_page b page_id f = do
  r ← remove b.shared.replacer f
  ok (record b {
    shared = reset (record b.shared { replacer = r }) f;
    page_table = erase_page page_id b.page_table;
    free_frames = b.free_frames ++ f ∷ [];
  })

-- The guard for the frame that holds the page, if there is one.
unfoldable pub with_write_guard :
    (page_id : ℕ)
    → Option ℕ × BufferPoolManager
    → Outcome (Option WritePageGuard × BufferPoolManager)
unfolding write_guard
with_write_guard page_id (none, b) = ok (none, b)
with_write_guard page_id (some f, b) = do
  g ← write_guard page_id f b.shared
  ok (some g.0, record b { shared = g.1 })

unfoldable pub with_read_guard :
    (page_id : ℕ)
    → Option ℕ × BufferPoolManager
    → Outcome (Option ReadPageGuard × BufferPoolManager)
unfolding read_guard
with_read_guard page_id (none, b) = ok (none, b)
with_read_guard page_id (some f, b) = do
  g ← read_guard page_id f b.shared
  ok (some g.0, record b { shared = g.1 })

-- `FlushAllPagesUnsafe`: the dirty pages are marked clean and pinned, written, and released.
unfoldable pub pin_dirty : PageTable → BufferPoolManager → Outcome (PageTable × BufferPoolManager)
unfolding clean_and_pin
pin_dirty [] b = ok ([], b)
pin_dirty ((p, f) ∷ t) b = do
  fh ← frame_at b f
  if fh.is_dirty
      then (do b1 ← clean_and_pin b f; v ← pin_dirty t b1; ok ((p, f) ∷ v.0, v.1))
      else pin_dirty t b

unfoldable pub release_each : PageTable → BufferPoolManager → Outcome BufferPoolManager
unfolding release
release_each [] b = ok b
release_each ((p, f) ∷ t) b = do b' ← release b f; release_each t b'

module _ (sys : System) (wreck : DiskRequest → Machine → Machine) (stack : Memory) where
  -- A request to the scheduler whose future is waited for.
  unfoldable pub perform : DiskRequest → BufferPoolManager → Outcome BufferPoolManager
  unfolding await future_get
  perform request b = do
    a ← await sys wreck stack request b.shared.machine
    m ← future_get a
    ok (record b { shared = record b.shared { machine = m } })

  unfoldable pub flush_page_unsafe : BufferPoolManager → ℕ → Outcome (Bool × BufferPoolManager)
  unfolding clean_and_pin perform release
  flush_page_unsafe b page_id = elim (find page_id b.page_table) [
    | none ↦ ok (false, b)
    | some f ↦ (do
      b1 ← clean_and_pin b f
      b2 ← perform (write_request page_id f) b1
      b3 ← release b2 f
      ok (true, b3))
  ]

  -- A frame whose page makes way, if there is one: its page is written if it is dirty, and
  -- forgotten.
  unfoldable pub vacate :
      BufferPoolManager → Option (ℕ × ℕ) → Outcome (Option ℕ × BufferPoolManager)
  unfolding flush_page_unsafe
  vacate b none = ok (none, b)
  vacate b (some (stale_page_id, f)) = do
    fh ← frame_at b f
    flushed ← if fh.is_dirty then flush_page_unsafe b stale_page_id else ok (true, b)
    let b' = flushed.1 in
        ok (some f, record b' { page_table = erase_page stale_page_id b'.page_table })

  unfoldable pub claim_victim : BufferPoolManager → Outcome (Option ℕ × BufferPoolManager)
  unfolding vacate
  claim_victim b = do e ← evict b.shared.replacer; vacate (set_replacer b e.1) e.0

  -- The page is read into the frame and linked to it. The pin count stays as it is.
  unfoldable pub load : BufferPoolManager → (page_id f : ℕ) → Outcome BufferPoolManager
  unfolding perform mark
  load b page_id f = do
    b1 ← perform (read_request page_id f) b
    r ← record_access b1.shared.replacer f page_id
    mark (set_replacer (record b1 { page_table = link page_id f b1.page_table }) r) f false

  -- The page comes into the frame that has been made free, if there is one.
  unfoldable pub load_into :
      (page_id : ℕ) → Option ℕ × BufferPoolManager → Outcome (Option ℕ × BufferPoolManager)
  unfolding load
  load_into page_id (none, b) = ok (none, b)
  load_into page_id (some f, b) = do b' ← load b page_id f; ok (some f, b')

  -- The three cases of `CheckedWritePage` and `CheckedReadPage` up to the guard: the frame that
  -- holds the page.
  unfoldable pub bring_in : BufferPoolManager → ℕ → Outcome (Option ℕ × BufferPoolManager)
  unfolding hit claim_victim load_into load claim_free
  bring_in b page_id = elim (find page_id b.page_table) [
    | some f ↦ (do b' ← hit b page_id f; ok (some f, b'))
    | none ↦
        if b.num_frames == length b.page_table
        then claim_victim b >>= load_into page_id
        else (do v ← claim_free b; b' ← load v.1 page_id v.0; ok (some v.0, b'))
  ]

  -- The frame that cases 2 and 3 claim before the read, if there is one.
  unfoldable pub claim_frame : BufferPoolManager → Outcome (Option ℕ × BufferPoolManager)
  unfolding claim_victim claim_free
  claim_frame b =
      if b.num_frames == length b.page_table
      then claim_victim b
      else (do v ← claim_free b; ok (some v.0, v.1))

  -- What the answer to the read leaves to the pool's next call where it is an exception.
  unfoldable pub where_thrown :
      BufferPoolManager → (f : ℕ) → Reply × Machine → Option (ℕ × BufferPoolManager)
  where_thrown b f (value, m) = none
  where_thrown b f (page_value p, m) = none
  where_thrown b f (exception, m) = some (f, record b { shared = record b.shared { machine = m } })

  -- The claimed frame, and the pool as it is where `future.get()` throws; `none` where the read
  -- does not throw.
  unfoldable pub failed_read :
      (page_id : ℕ) → Option ℕ × BufferPoolManager → Outcome (Option (ℕ × BufferPoolManager))
  unfolding await where_thrown
  failed_read page_id (none, b) = ok none
  failed_read page_id (some f, b) = do
    a ← await sys wreck stack (read_request page_id f) b.shared.machine
    ok (where_thrown b f a)

  -- The same from the call's beginning.
  unfoldable pub left_by_throw :
      BufferPoolManager → (page_id : ℕ) → Outcome (Option (ℕ × BufferPoolManager))
  unfolding claim_frame failed_read
  left_by_throw b page_id = elim (find page_id b.page_table) [
    | some f ↦ ok none
    | none ↦ claim_frame b >>= failed_read page_id
  ]

  unfoldable pub checked_write_page :
      BufferPoolManager → ℕ → Outcome (Option WritePageGuard × BufferPoolManager)
  unfolding bring_in with_write_guard
  checked_write_page b page_id = bring_in b page_id >>= with_write_guard page_id

  unfoldable pub checked_read_page :
      BufferPoolManager → ℕ → Outcome (Option ReadPageGuard × BufferPoolManager)
  unfolding bring_in with_read_guard
  checked_read_page b page_id = bring_in b page_id >>= with_read_guard page_id

  -- `std::abort` where there is no guard.
  abbrev unwrap {ℓ} : {A : Type ℓ} → Option A × BufferPoolManager → Outcome (A × BufferPoolManager)
  unwrap (none, b) = aborted
  unwrap (some g, b) = ok (g, b)

  unfoldable pub write_page : BufferPoolManager → ℕ → Outcome (WritePageGuard × BufferPoolManager)
  unfolding checked_write_page
  write_page b page_id = checked_write_page b page_id >>= unwrap

  unfoldable pub read_page : BufferPoolManager → ℕ → Outcome (ReadPageGuard × BufferPoolManager)
  unfolding checked_read_page
  read_page b page_id = checked_read_page b page_id >>= unwrap

  -- The guard is flushed and, at the end of the call, destroyed.
  unfoldable pub flush_page : BufferPoolManager → ℕ → Outcome (Bool × BufferPoolManager)
  unfolding checked_write_page flush_write_guard drop_write_guard
  flush_page b page_id = do
    v ← checked_write_page b page_id
    elim v.0 [
      | none ↦ ok (false, v.1)
      | some g ↦ (do
        s ← flush_write_guard sys wreck stack g v.1.shared
        d ← drop_write_guard g s
        ok (true, record v.1 { shared = d.1 }))
    ]

  -- The first `get` takes the shared state out of the future, which `valid` then finds empty.
  unfoldable pub new_page : BufferPoolManager → Outcome (ℕ × BufferPoolManager)
  unfolding perform
  new_page b = do b' ← perform allocate_request b; ok (invalid_page_id, b')

  unfoldable pub delete_page : BufferPoolManager → ℕ → Outcome (Bool × BufferPoolManager)
  unfolding forget_page perform
  delete_page b page_id = elim (find page_id b.page_table) [
    | none ↦ ok (true, b)
    | some f ↦ (do
      fh ← frame_at b f
      if ltb 0 fh.pin_count then ok (false, b) else (do
        b1 ← forget_page b page_id f
        b2 ← perform (deallocate_request page_id) b1
        ok (true, b2)))
  ]

  unfoldable pub write_each : PageTable → BufferPoolManager → Outcome BufferPoolManager
  unfolding perform
  write_each [] b = ok b
  write_each ((p, f) ∷ t) b = do b' ← perform (write_request p f) b; write_each t b'

  unfoldable pub flush_all_pages_unsafe : BufferPoolManager → Outcome BufferPoolManager
  unfolding pin_dirty write_each release_each
  flush_all_pages_unsafe b = do
    v ← pin_dirty b.page_table b
    b' ← write_each v.0 v.1
    release_each v.0 b'
