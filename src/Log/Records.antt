-- ===== src/Log/Records.antt =====
-- logging/log_manager.h: the types of log records and their bytes. `LogRecordHeader` and the
-- checkpoint entries have no padding, so that `memcpy` writes the fields one after the other.
use database_internals.Prelude.{ℕ, ◌≡◌, refl, List, ◌++◌, length}
use database_internals.Memory.{to_le}

pub data LogType : Type 0 where
  invalid update clr txn_begin txn_commit txn_abort txn_end checkpt_begin checkpt_end : LogType

pub data LogOp : Type 0 where
  none insert_slot delete_slot update_slot init_page set_sibling set_child full_page : LogOp

unfoldable pub type_code : LogType → ℕ
type_code invalid = 0
type_code update = 1
type_code clr = 2
type_code txn_begin = 3
type_code txn_commit = 4
type_code txn_abort = 5
type_code txn_end = 6
type_code checkpt_begin = 7
type_code checkpt_end = 8

unfoldable pub op_code : LogOp → ℕ
op_code none = 0
op_code insert_slot = 1
op_code delete_slot = 2
op_code update_slot = 3
op_code init_page = 4
op_code set_sibling = 5
op_code set_child = 6
op_code full_page = 7

pub record LogRecordHeader : Type 0 where
  pub size : ℕ
  pub crc : ℕ
  pub lsn : ℕ
  pub prev_lsn : ℕ
  pub undo_next_lsn : ℕ
  pub tx_id : ℕ
  pub page_id : ℕ
  pub table_id : ℕ
  pub index_id : ℕ
  pub slot : ℕ
  pub flags : ℕ
  pub before_len : ℕ
  pub after_len : ℕ
  pub log_type : LogType
  pub op : LogOp
  pub reserved : ℕ

-- `LogRecordHeader lrh{}`.
abbrev pub blank : LogRecordHeader
blank = record {
  size = 0;
  crc = 0;
  lsn = 0;
  prev_lsn = 0;
  undo_next_lsn = 0;
  tx_id = 0;
  page_id = 0;
  table_id = 0;
  index_id = 0;
  slot = 0;
  flags = 0;
  before_len = 0;
  after_len = 0;
  log_type = invalid;
  op = none;
  reserved = 0;
}

-- The fields before `crc`, and behind it.
unfoldable pub size_bytes : LogRecordHeader → List ℕ
unfolding to_le
size_bytes h = to_le 4 h.size

unfoldable pub tail_bytes : LogRecordHeader → List ℕ
unfolding to_le type_code op_code
tail_bytes h =
    to_le 8 h.lsn
    ++ (to_le 8 h.prev_lsn
        ++ (to_le 8 h.undo_next_lsn
            ++ (to_le 8 h.tx_id
                ++ (to_le 4 h.page_id
                    ++ (to_le 2 h.table_id
                        ++ (to_le 2 h.index_id
                            ++ (to_le 2 h.slot
                                ++ (to_le 2 h.flags
                                    ++ (to_le 4 h.before_len
                                        ++ (to_le 4 h.after_len
                                            ++ (to_le 1 (type_code h.log_type)
                                                ++ (to_le 1 (op_code h.op)
                                                    ++ to_le 2 h.reserved))))))))))))

unfoldable pub header_bytes : LogRecordHeader → List ℕ
unfolding size_bytes tail_bytes
header_bytes h = size_bytes h ++ (to_le 4 h.crc ++ tail_bytes h)

pub length-header_bytes : (h : LogRecordHeader) → length (header_bytes h) ≡ 64
unfolding header_bytes
length-header_bytes h = refl

pub record AttEntry : Type 0 where
  pub tx_id : ℕ
  pub last_lsn : ℕ
  pub status : ℕ

-- `reserved` is seven zero bytes.
unfoldable pub att_bytes : AttEntry → List ℕ
unfolding to_le
att_bytes e = to_le 8 e.tx_id ++ (to_le 8 e.last_lsn ++ (to_le 1 e.status ++ to_le 7 0))

pub record DptEntry : Type 0 where
  pub page_id : ℕ
  pub reserved : ℕ
  pub rec_lsn : ℕ

unfoldable pub dpt_bytes : DptEntry → List ℕ
unfolding to_le
dpt_bytes e = to_le 4 e.page_id ++ (to_le 4 e.reserved ++ to_le 8 e.rec_lsn)
