-- ===== src/Log/Manager/Flush/Tests.antt =====
-- `flush_to` at concrete logs and results of the system calls.
use database_internals.Prelude.{◌≡◌, refl, [], ◌∷◌, arith, inr, true, false}
use database_internals.Memory.{Memory, read_bytes, write_bytes}
use database_internals.Log.Records.{blank}
use database_internals.Log.Manager.{LogManager, LogFile, append}
use database_internals.Log.Manager.Append.{contents, record_bytes, stamped}
use database_internals.Log.Manager.Flush.{
  Io, done, append_durable, wrote, interrupted, flush_to, returned,
}
use database_internals.Log.Manager.Flush.Turns.{log}
use database_internals.Log.Manager.Flush.Durable.{
  flush_to-durable, flush_to-returns, flush_to-misses_last,
}

abbrev zeros : Memory
zeros a = 0

-- A manager that has flushed LSN 3 and holds nothing.
abbrev idle : LogManager
idle = record {
  current_lsn = 3;
  fill_offset = 0;
  append_buffer = zeros;
  flushed_lsn = 3;
  flushing = false;
  absolute_log_file_path = 0x61 ∷ [];
  file = record { written = []; synced = []; named = false };
}

-- Three bytes wait at LSN 4.
abbrev waiting : LogManager
waiting = record idle { current_lsn = 4; fill_offset = 3 }

abbrev good_io : Io
good_io = record {
  opened = λ path. true;
  created = true;
  writes = interrupted ∷ wrote 2 ∷ wrote 1 ∷ [];
  synced = true;
  dir_synced = true;
}

abbrev stored : LogFile
stored = record { written = 0 ∷ 0 ∷ 0 ∷ []; synced = 0 ∷ 0 ∷ 0 ∷ []; named = true }

abbrev flushed : LogManager
flushed = record waiting {
  fill_offset = 0;
  flushed_lsn = 4;
  append_buffer = write_bytes zeros 0 (0 ∷ 0 ∷ 0 ∷ []);
  file = stored;
}

durable : append_durable good_io (0x61 ∷ []) waiting.file (contents waiting) ≡ done stored
unfolding append_durable read_bytes
durable = refl

flushes : flush_to (good_io ∷ []) 4 waiting ≡ returned flushed
unfolding flush_to read_bytes
flushes = refl

flush_to-returns_example : (s : LogManager) × (flush_to (good_io ∷ []) 4 waiting ≡ returned s)
flush_to-returns_example = flush_to-returns good_io [] 4 waiting stored (omega arith) refl durable

flush_to-misses_last_example :
    let (lsn, s2) = append flushed blank [] [] in
    (flush_to [] lsn s2 ≡ returned s2)
    × (s2.file ≡ stored)
    × (contents s2 ≡ record_bytes (stamped flushed blank [] []) [] [])
flush_to-misses_last_example =
    flush_to-misses_last (good_io ∷ []) [] 4 waiting flushed blank [] [] (omega arith) (omega arith)
      flushes (omega arith) (omega arith)

flush_to-durable_example :
    (stored.written ≡ log waiting) × (stored.synced ≡ log waiting) × (stored.named ≡ true)
flush_to-durable_example =
    flush_to-durable good_io [] 4 waiting flushed (omega arith) (omega arith) (inr refl) flushes
