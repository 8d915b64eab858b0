-- ===== src/Log/Tests.antt =====
-- The log manager at concrete records.
use database_internals.Prelude.{ℕ, ◌+◌, ◌≤◌, length, ◌≡◌, List, [], ◌∷◌, ◌++◌, arith, false}
use database_internals.Memory.{Memory}
use database_internals.Log.Records.{blank}
use database_internals.Log.Manager.{LogManager, append}
use database_internals.Log.Manager.Append.{contents, record_bytes, stamped, append_lem}
use database_internals.Log.Manager.Sequence.{
  Entry, append_all, append_all-written_out, numbered, written_out,
}

abbrev zeros : Memory
zeros a = 0

-- A manager that has flushed LSN 3 and holds nothing.
abbrev idle : LogManager
idle = record {
  current_lsn = 3;
  fill_offset = 0;
  append_buffer = zeros;
  flushed_lsn = 3;
  flushing = false;
  absolute_log_file_path = 0x61 ∷ [];
  file = record { written = []; synced = []; named = false };
}

abbrev two : List ℕ
two = 1 ∷ 2 ∷ []

abbrev three : List ℕ
three = 3 ∷ []

append_lem_example :
    let (lsn, s) = append idle blank two three in
    (lsn ≡ 3)
    × (s ≡ record idle {
      current_lsn = 3 + 1;
      fill_offset = 0 + (64 + length two + length three);
      append_buffer = s.append_buffer;
    })
    × (contents s ≡ contents idle ++ record_bytes (stamped idle blank two three) two three)
    × ((a : ℕ) → s.fill_offset ≤ a → s.append_buffer a ≡ zeros a)
append_lem_example = append_lem idle blank two three (omega arith) (omega arith)

abbrev entries : List Entry
entries =
    record { header = blank; before = 1 ∷ []; after = [] }
    ∷ record { header = blank; before = []; after = 2 ∷ 3 ∷ [] }
    ∷ []

append_all-written_out_example :
    let (lsns, s) = append_all idle entries in
    (lsns ≡ numbered 3 entries)
    × (contents s ≡ contents idle ++ written_out 3 entries)
    × (s.current_lsn ≡ 5)
append_all-written_out_example = append_all-written_out entries idle (omega arith) (omega arith)
