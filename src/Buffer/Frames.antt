-- ===== src/Buffer/Frames.antt =====
-- `FrameHeader` of buffer/buffer_pool_manager.h and buffer/buffer_pool_manager.cpp, and the objects
-- that the buffer pool shares with its page guards. A frame's bytes are the buffer whose address is
-- the frame's number. `rwlatch_` is the number of readers and whether a writer holds it; a thread
-- that cannot have it waits for ever in a run of one thread.
use database_internals.Prelude.{
  ℕ, ◌+◌, ◌-◌, ◌==◌, ◌||◌, Bool, true, false, if◌then◌else◌, ltb, update, Outcome, ok, undefined,
  waits, add_size, sub_size,
}
use database_internals.Memory.{Memory}
use database_internals.Storage.DiskScheduler.{Machine}
use database_internals.Buffer.Arc.{ArcReplacer}

pub record FrameHeader : Type 0 where
  pub frame_id : ℕ
  pub readers : ℕ
  pub writer : Bool
  pub pin_count : ℕ
  pub is_dirty : Bool

-- `FrameHeader(frame_id)`, whose data are zeros.
unfoldable pub frame_header : ℕ → FrameHeader
frame_header f = record {
  frame_id = f;
  readers = 0;
  writer = false;
  pin_count = 0;
  is_dirty = false;
}

-- The frames, the replacer, and the disk scheduler's machine.
pub record Shared : Type 0 where
  pub frames : ℕ → FrameHeader
  pub replacer : ArcReplacer
  pub machine : Machine

-- `frame->GetData()`.
abbrev pub frame_data : Shared → ℕ → Memory
frame_data s f = s.machine.buffers f

abbrev pub set_frame : Shared → ℕ → FrameHeader → Shared
set_frame s f fh = record s { frames = λ g. if g == f then fh else s.frames g }

abbrev pub set_dirty : Shared → ℕ → Bool → Shared
set_dirty s f dirty = set_frame s f (record (s.frames f) { is_dirty = dirty })

-- `pin_count_.fetch_add(1)` and `pin_count_.fetch_sub(1)`, without their values.
abbrev pub pin : Shared → ℕ → Shared
pin s f = set_frame s f (record (s.frames f) { pin_count = add_size (s.frames f).pin_count 1 })

abbrev pub unpin : Shared → ℕ → Shared
unpin s f = set_frame s f (record (s.frames f) { pin_count = sub_size (s.frames f).pin_count 1 })

-- `Reset`, which writes the frame's data too.
unfoldable pub reset : Shared → ℕ → Shared
reset s f =
    let s' = set_frame s f (record (s.frames f) { pin_count = 0; is_dirty = false }) in
    record s' { machine = record s'.machine { buffers = update s'.machine.buffers f (λ a. 0) } }

-- `lock_shared`, `unlock_shared`, `lock` and `unlock`; releasing a latch that is not held is
-- undefined.
unfoldable pub lock_shared : Shared → ℕ → Outcome Shared
lock_shared s f =
    if (s.frames f).writer
    then waits
    else ok (set_frame s f (record (s.frames f) { readers = (s.frames f).readers + 1 }))

unfoldable pub unlock_shared : Shared → ℕ → Outcome Shared
unlock_shared s f =
    if (s.frames f).readers == 0
    then undefined
    else ok (set_frame s f (record (s.frames f) { readers = (s.frames f).readers - 1 }))

unfoldable pub lock : Shared → ℕ → Outcome Shared
lock s f =
    if (s.frames f).writer || ltb 0 (s.frames f).readers
    then waits
    else ok (set_frame s f (record (s.frames f) { writer = true }))

unfoldable pub unlock : Shared → ℕ → Outcome Shared
unlock s f =
    if (s.frames f).writer
    then ok (set_frame s f (record (s.frames f) { writer = false }))
    else undefined
