-- ===== src/Log/Manager/Flush.antt =====
-- `flush_to` of logging/log_manager.cpp, as the only thread in it runs it. The results of the
-- system calls are an argument: one `Io` for each turn as leader.
pub mod Turns
pub mod Durable
mod Tests
use database_internals.Prelude.{
  ℕ, ◌+◌, List, [], ◌∷◌, ◌++◌, ltb, if◌then◌else◌, Bool, true, false, take, drop, replicate,
}
use database_internals.Memory.{write_bytes, read_bytes}
use database_internals.Log.Manager.{LogManager, LogFile}

-- The result of one `write`: a count, `EINTR`, or another error.
pub data WriteResult : Type 0 where
  wrote : ℕ → WriteResult
  interrupted failed : WriteResult

-- What the system calls of one `append_durable` return; `open` is given the path.
pub record Io : Type 0 where
  pub opened : List ℕ → Bool
  pub created : Bool
  pub writes : List WriteResult
  pub synced : Bool
  pub dir_synced : Bool

-- How `append_durable` ends, with the file as it is then. `stuck` means that the given results run
-- out inside the loop.
pub data Written : Type 0 where
  done fails stuck : LogFile → Written

-- The loop over `write`.
pub write_loop : List WriteResult → LogFile → List ℕ → Written
write_loop rs file [] = done file
write_loop [] file (b ∷ bs) = stuck file
write_loop (interrupted ∷ rs) file (b ∷ bs) = write_loop rs file (b ∷ bs)
write_loop (failed ∷ rs) file (b ∷ bs) = fails file
write_loop (wrote n ∷ rs) file (b ∷ bs) =
    write_loop rs (record file { written = file.written ++ take n (b ∷ bs) }) (drop n (b ∷ bs))

-- The file is synced, and the directory if the file is new.
pub sync : Io → Written → Written
sync io (done file) =
    let safe = record file { synced = file.written } in
    if io.synced
    then (if io.created
        then (if io.dir_synced then done (record safe { named = true }) else fails safe)
        else done safe)
    else fails file
sync io (fails file) = fails file
sync io (stuck file) = stuck file

pub append_durable : Io → (path : List ℕ) → LogFile → List ℕ → Written
unfolding write_loop sync
append_durable io path file bytes =
    if io.opened path then sync io (write_loop io.writes file bytes) else fails file

-- `copy_to_fill_buffer`: the batch, and the manager with an empty append buffer.
pub copy_to_fill_buffer : LogManager → List ℕ × LogManager
copy_to_fill_buffer s = (
  read_bytes s.append_buffer 0 s.fill_offset,
  record s {
    append_buffer = write_bytes s.append_buffer 0 (replicate s.fill_offset 0);
    fill_offset = 0;
  },
)

-- How `flush_to` ends. `pending`: it is still in its loop when the given results are used up.
pub data Flushed : Type 0 where
  returned thrown pending : LogManager → Flushed

-- The leader's turn, after the copy.
pub publish : LogManager → Written → Flushed
publish s (done file) =
    returned (record s { file = file; flushed_lsn = s.current_lsn; flushing = false })
publish s (fails file) = thrown (record s { file = file })
publish s (stuck file) = pending (record s { file = file })

pub lead : Io → LogManager → Flushed
unfolding copy_to_fill_buffer append_durable publish
lead io s =
    let (batch, s') = copy_to_fill_buffer (record s { flushing = true }) in
    publish s' (append_durable io s'.absolute_log_file_path s'.file batch)

pub then_again : Flushed → (LogManager → Flushed) → Flushed
then_again (returned s) again = again s
then_again (thrown s) again = thrown s
then_again (pending s) again = pending s

-- `while (flushedLSN < target)`. With no other thread, the wait for a leader that is under way
-- never ends; an exception in `append_durable` leaves `flushing_` set.
pub flush_to : List Io → ℕ → LogManager → Flushed
unfolding lead then_again
flush_to [] target s = if ltb s.flushed_lsn target then pending s else returned s
flush_to (io ∷ ios) target s =
    if ltb s.flushed_lsn target
    then (if s.flushing then pending s else then_again (lead io s) (flush_to ios target))
    else returned s
