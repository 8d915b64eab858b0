-- ===== src/Buffer/Guard/Write.antt =====
-- `WritePageGuard` of storage/page_guard.cpp.
use database_internals.Prelude.{
  ℕ, Bool, true, false, if◌then◌else◌, Option, none, some, Outcome, ok, aborted, undefined, ◌>>=◌,
  or_fail,
}
use database_internals.Memory.{Memory}
use database_internals.Storage.DiskManager.{System}
use database_internals.Storage.DiskScheduler.{DiskRequest, Machine}
use database_internals.Buffer.Frames.{Shared, frame_data, set_dirty, lock, unlock}
use database_internals.Buffer.Guard.{protected, unpin_frame, flush_frame}

pub record WritePageGuard : Type 0 where
  pub page_id : ℕ
  pub frame : Option ℕ
  pub is_valid : Bool

-- The default constructor, whose page ID is `stack`, whatever the memory held.
unfoldable pub no_write_guard : (stack : ℕ) → WritePageGuard
no_write_guard stack = record { page_id = stack; frame = none; is_valid = false }

-- The pool's constructor.
unfoldable pub write_guard : (page_id f : ℕ) → Shared → Outcome (WritePageGuard × Shared)
unfolding lock
write_guard page_id f s = do
  s' ← lock s f
  ok (record { page_id = page_id; frame = some f; is_valid = true }, s')

-- The move constructor: the new guard and the old one.
unfoldable pub move_write_guard : WritePageGuard → WritePageGuard × WritePageGuard
move_write_guard that = (that, record that { frame = none; is_valid = false })

-- `Drop`; the destructor is the same call.
unfoldable pub drop_write_guard : WritePageGuard → Shared → Outcome (WritePageGuard × Shared)
unfolding unpin_frame unlock
drop_write_guard g s =
    if g.is_valid
    then (do
      f ← or_fail g.frame undefined
      s1 ← unpin_frame s f
      s2 ← unlock s1 f
      ok (record g { frame = none; is_valid = false }, s2))
    else ok (g, s)

-- Move assignment from `that`; `same` tells that the two are one object. The result is the guard
-- assigned to, and `that`.
unfoldable pub assign_write_guard :
    (same : Bool)
    → (g that : WritePageGuard) → Shared
    → Outcome (WritePageGuard × WritePageGuard × Shared)
unfolding drop_write_guard move_write_guard
assign_write_guard same g that s = if same then ok (g, that, s) else (do
  d ← drop_write_guard g s
  let moved = move_write_guard that in ok (moved.0, moved.1, d.1))

unfoldable pub write_page_id : WritePageGuard → Outcome ℕ
write_page_id g = if g.is_valid then ok g.page_id else aborted

unfoldable pub write_data : WritePageGuard → Shared → Outcome Memory
write_data g s = do f ← protected g.is_valid g.frame; ok (frame_data s f)

-- `GetDataMut`: the address of the frame's bytes, which the caller is about to write.
unfoldable pub write_data_mut : WritePageGuard → Shared → Outcome (ℕ × Shared)
write_data_mut g s = do f ← protected g.is_valid g.frame; ok (f, set_dirty s f true)

unfoldable pub write_is_dirty : WritePageGuard → Shared → Outcome Bool
write_is_dirty g s = do f ← protected g.is_valid g.frame; ok (s.frames f).is_dirty

unfoldable pub flush_write_guard :
    (sys : System) (wreck : DiskRequest → Machine → Machine) (stack : Memory)
    → WritePageGuard
    → Shared
    → Outcome Shared
unfolding flush_frame
flush_write_guard sys wreck stack g s = do
  f ← protected g.is_valid g.frame
  flush_frame sys wreck stack s g.page_id f
