-- ===== src/Buffer/Guard/Read.antt =====
-- `ReadPageGuard` of storage/page_guard.cpp.
use database_internals.Prelude.{
  ℕ, Bool, true, false, if◌then◌else◌, Option, none, some, Outcome, ok, aborted, undefined, ◌>>=◌,
  or_fail,
}
use database_internals.Memory.{Memory}
use database_internals.Storage.DiskManager.{System}
use database_internals.Storage.DiskScheduler.{DiskRequest, Machine}
use database_internals.Buffer.Frames.{Shared, frame_data, lock_shared, unlock_shared}
use database_internals.Buffer.Guard.{protected, unpin_frame, flush_frame}

pub record ReadPageGuard : Type 0 where
  pub page_id : ℕ
  pub frame : Option ℕ
  pub is_valid : Bool

-- The default constructor, whose page ID is `stack`, whatever the memory held.
unfoldable pub no_read_guard : (stack : ℕ) → ReadPageGuard
no_read_guard stack = record { page_id = stack; frame = none; is_valid = false }

-- The pool's constructor.
unfoldable pub read_guard : (page_id f : ℕ) → Shared → Outcome (ReadPageGuard × Shared)
unfolding lock_shared
read_guard page_id f s = do
  s' ← lock_shared s f
  ok (record { page_id = page_id; frame = some f; is_valid = true }, s')

-- The move constructor: the new guard and the old one.
unfoldable pub move_read_guard : ReadPageGuard → ReadPageGuard × ReadPageGuard
move_read_guard that = (that, record that { frame = none; is_valid = false })

-- `Drop`; the destructor is the same call.
unfoldable pub drop_read_guard : ReadPageGuard → Shared → Outcome (ReadPageGuard × Shared)
unfolding unpin_frame unlock_shared
drop_read_guard g s =
    if g.is_valid
    then (do
      f ← or_fail g.frame undefined
      s1 ← unpin_frame s f
      s2 ← unlock_shared s1 f
      ok (record g { frame = none; is_valid = false }, s2))
    else ok (g, s)

-- Move assignment from `that`; `same` tells that the two are one object. The result is the guard
-- assigned to, and `that`.
unfoldable pub assign_read_guard :
    (same : Bool)
    → (g that : ReadPageGuard) → Shared
    → Outcome (ReadPageGuard × ReadPageGuard × Shared)
unfolding drop_read_guard move_read_guard
assign_read_guard same g that s = if same then ok (g, that, s) else (do
  d ← drop_read_guard g s
  let moved = move_read_guard that in ok (moved.0, moved.1, d.1))

unfoldable pub read_page_id : ReadPageGuard → Outcome ℕ
read_page_id g = if g.is_valid then ok g.page_id else aborted

unfoldable pub read_data : ReadPageGuard → Shared → Outcome Memory
read_data g s = do f ← protected g.is_valid g.frame; ok (frame_data s f)

unfoldable pub read_is_dirty : ReadPageGuard → Shared → Outcome Bool
read_is_dirty g s = do f ← protected g.is_valid g.frame; ok (s.frames f).is_dirty

unfoldable pub flush_read_guard :
    (sys : System) (wreck : DiskRequest → Machine → Machine) (stack : Memory)
    → ReadPageGuard
    → Shared
    → Outcome Shared
unfolding flush_frame
flush_read_guard sys wreck stack g s = do
  f ← protected g.is_valid g.frame
  flush_frame sys wreck stack s g.page_id f
