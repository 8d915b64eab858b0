-- ===== src/Log/Manager.antt =====
-- `LogManager` of logging/log_manager.cpp: its state and operations, as one thread runs them.
pub mod Append
pub mod Flush
pub mod Sequence
use database_internals.Prelude.{
  ℕ, zero, suc, ◌+◌, ◌-◌, ◌*◌, ◌/◌, ◌%◌, ◌^◌, ◌≡◌, refl, List, [], ◌∷◌, ◌++◌, arith, length,
  length-append, Option, some, ltb, leb, if◌then◌else◌, Bool, true, false, map, get_elem?,
  replicate, flat_map,
}
use database_internals.Memory.{Memory, to_le, write_bytes, read_bytes}
use database_internals.Log.Crc.{compute}
use database_internals.Log.Records.{
  LogRecordHeader, header_bytes, blank, LogType, LogOp, update, txn_begin, txn_commit, txn_abort,
  txn_end, checkpt_begin, checkpt_end, AttEntry, DptEntry, att_bytes, dpt_bytes,
}

-- `(64 << 1) << 20`; the comment in the header calls this 64 MiB.
abbrev pub append_buffer_size : ℕ
append_buffer_size = 64 * 2 * 2 ^ 20

abbrev pub invalid_lsn : ℕ
invalid_lsn = 2 ^ 64 - 1

-- The log file: the bytes written to it, those of them that a crash cannot take away, and whether
-- its name in the directory is safe as well.
pub record LogFile : Type 0 where
  pub written : List ℕ
  pub synced : List ℕ
  pub named : Bool

-- `append_buffer_base_offset` and `durable_end_offset` are never used.
pub record LogManager : Type 0 where
  pub current_lsn : ℕ
  pub fill_offset : ℕ
  pub append_buffer : Memory
  pub flushed_lsn : ℕ
  pub flushing : Bool
  pub absolute_log_file_path : List ℕ
  pub file : LogFile

-- The header as `append` completes it, before its LSN and checksum are known.
pub sized : LogRecordHeader → List ℕ → List ℕ → LogRecordHeader
sized h before after = record h {
  before_len = length before % 2 ^ 32;
  after_len = length after % 2 ^ 32;
  size = (64 + length before + length after) % 2 ^ 32;
  crc = 0;
  reserved = 0;
}

-- The three `memcpy`s of a record, each at its own offset.
pub copy_record : Memory → ℕ → LogRecordHeader → List ℕ → List ℕ → Memory
copy_record m o h before after =
    write_bytes (write_bytes (write_bytes m o (header_bytes h)) (o + 64) before)
      (o + 64 + length before) after

pub write_record : Memory → ℕ → LogRecordHeader → List ℕ → List ℕ → Memory
write_record m o h before after =
    let copied = copy_record m o h before after in
    write_bytes copied (o + 4) (to_le 4 (compute (read_bytes copied o h.size)))

pub append : LogManager → LogRecordHeader → List ℕ → List ℕ → ℕ × LogManager
unfolding sized
append s lrh before after =
    let h = sized lrh before after in
    if ltb append_buffer_size ((s.fill_offset + h.size) % 2 ^ 64) then (invalid_lsn, s) else (
      s.current_lsn,
      record s {
        current_lsn = (s.current_lsn + 1) % 2 ^ 64;
        append_buffer =
            write_record s.append_buffer s.fill_offset (record h { lsn = s.current_lsn }) before
              after;
        fill_offset = (s.fill_offset + h.size) % 2 ^ 64;
      },
    )

pub log_update :
    LogManager
    → (tx_id : ℕ) → LogOp
    → (page_id table_id prev_lsn : ℕ) → (before after : List ℕ) → (index_id slot : ℕ)
    → ℕ × LogManager
unfolding append
log_update s tx_id op page_id table_id prev_lsn before after index_id slot =
    append s
      (record blank {
        log_type = update;
        op = op;
        tx_id = tx_id;
        prev_lsn = prev_lsn;
        undo_next_lsn = invalid_lsn;
        page_id = page_id;
        table_id = table_id;
        index_id = index_id;
        slot = slot;
        flags = 0;
      })
      before after

pub log_txn_record : LogManager → ℕ → LogType → ℕ → ℕ × LogManager
unfolding append
log_txn_record s tx_id type prev_lsn =
    append s
      (record blank {
        log_type = type;
        op = LogOp.none;
        tx_id = tx_id;
        prev_lsn = prev_lsn;
        undo_next_lsn = invalid_lsn;
        flags = 0;
        page_id = 2 ^ 32 - 1;
        table_id = 2 ^ 16 - 1;
        index_id = 2 ^ 16 - 1;
        slot = 2 ^ 16 - 1;
      })
      [] []

pub log_txn_begin : LogManager → ℕ → ℕ × LogManager
unfolding log_txn_record
log_txn_begin s tx_id = log_txn_record s tx_id txn_begin invalid_lsn

pub log_txn_commit : LogManager → ℕ → ℕ → ℕ × LogManager
unfolding log_txn_record
log_txn_commit s tx_id prev_lsn = log_txn_record s tx_id txn_commit prev_lsn

pub log_txn_abort : LogManager → ℕ → ℕ → ℕ × LogManager
unfolding log_txn_record
log_txn_abort s tx_id prev_lsn = log_txn_record s tx_id txn_abort prev_lsn

pub log_txn_end : LogManager → ℕ → ℕ → ℕ × LogManager
unfolding log_txn_record
log_txn_end s tx_id prev_lsn = log_txn_record s tx_id txn_end prev_lsn

pub log_checkpoint_begin : LogManager → ℕ × LogManager
unfolding append
log_checkpoint_begin s = append s (record blank { log_type = checkpt_begin }) [] []

-- `std::vector<std::byte> v(n)` holds `n` zeros before anything is inserted at its end.
pub image {ℓ} : {A : Type ℓ} → ℕ → (A → List ℕ) → List A → List ℕ
image entry_size encode entries =
    replicate (entry_size * length entries) 0 ++ flat_map encode entries

-- The tables are `unordered_map`s: their entries come in the order of the map's iteration.
pub log_checkpoint_end : LogManager → List (ℕ × ℕ) → List (ℕ × ℕ) → ℕ × LogManager
unfolding append
log_checkpoint_end s att dpt =
    append s (record blank { log_type = checkpt_end })
      (image 24 (λ e. att_bytes (record { tx_id = e.0; last_lsn = e.1; status = 0 })) att)
      (image 16 (λ e. dpt_bytes (record { page_id = e.0; reserved = 0; rec_lsn = e.1 })) dpt)
