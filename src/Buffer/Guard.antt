-- ===== src/Buffer/Guard.antt =====
-- storage/page_guard.h and storage/page_guard.cpp: what the two
-- guards share. The pointers to the frame, the
-- replacer, the latch and the scheduler are set, moved and reset together, so that `frame` stands
-- for the four; following an empty one is undefined.
pub mod Read
pub mod Write
pub mod Drops
use database_internals.Prelude.{
  ℕ, ◌+◌, ◌==◌, Bool, true, false, if◌then◌else◌, Option, none, some, Outcome, ok, aborted,
  undefined, ◌>>=◌, or_fail,
}
use database_internals.Memory.{Memory}
use database_internals.Storage.DiskManager.{System}
use database_internals.Storage.DiskScheduler.{
  DiskRequest, write_request, Machine, await, future_get,
}
use database_internals.Buffer.Arc.{set_evictable}
use database_internals.Buffer.Frames.{
  FrameHeader, Shared, frame_data, set_dirty, unpin, lock_shared, unlock_shared, lock, unlock,
}

-- `ENSURE(is_valid_, ...)` and then the frame.
abbrev pub protected : Bool → Option ℕ → Outcome ℕ
protected valid frame = if valid then or_fail frame undefined else aborted

-- The guard's pin goes, and with the last one the frame becomes evictable.
unfoldable pub unpin_frame : Shared → ℕ → Outcome Shared
unpin_frame s f =
    let s' = unpin s f in
    if (s.frames f).pin_count == 1
    then (do
      r ← set_evictable s.replacer (s.frames f).frame_id true
      ok (record s' { replacer = r }))
    else ok s'

module _ (sys : System) (wreck : DiskRequest → Machine → Machine) (stack : Memory) where
  -- What the two `Flush` do: the frame is marked clean, its bytes are written, and the call waits.
  unfoldable pub flush_frame : Shared → (page_id f : ℕ) → Outcome Shared
  flush_frame s page_id f = do
    a ← await sys wreck stack (write_request page_id f) s.machine
    m ← future_get a
    ok (record (set_dirty s f false) { machine = m })
