-- ===== src/Index/Key.antt =====
-- index/key.h, `Type::Compare` of type/numeric_type.h, type/float_type.h, type/boolean_type.h and
-- type/varchar_type.h, and `extractKey` of index/b_plus_tree.cpp. A key is a view of `limit` bytes
-- of memory; reading behind them is undefined, as is reading more than the one byte of the literal
-- "".
pub mod Extract
use database_internals.Prelude.{
  ℕ, ◌+◌, ◌-◌, ◌%◌, ◌^◌, ◌==◌, Bool, true, false, if◌then◌else◌, Option, none, some, ltb, leb,
  Outcome, ok, aborted, undefined, ◌>>=◌,
}
use database_internals.Memory.{Memory, read_le}
use database_internals.Types.Value.{
  TypeId, invalid, boolean, numeric, floating, varchar, Value, num, fp, bool, text, FloatFormat,
  Sign, compare_int, compare_text, compare_bool, deserialize,
}

pub record Key : Type 0 where
  pub type_id : TypeId
  pub width : ℕ
  pub memory : Memory
  pub start : ℕ
  pub limit : ℕ
  pub size : ℕ

-- The bytes that `Deserialize` reads.
unfoldable pub bytes_read : Key → ℕ
bytes_read k = elim k.type_id [
  | invalid ↦ 0
  | boolean ↦ k.width
  | numeric ↦ k.width
  | floating ↦ if k.width == 4 then 4 else 8
  | varchar ↦ 2 + read_le 2 k.memory k.start
]

-- What depends on the tree's schema and on the target's `double`s: `compare_fp` orders the bits of
-- two `double`s, and `key_offset` is `schema_->GetColumn(key_col_idx_).GetOffset()`.
pub record KeyFormat : Type 0 where
  pub float_format : FloatFormat
  pub compare_fp : ℕ → ℕ → Sign
  pub key_type_id : TypeId
  pub key_width : ℕ
  pub key_offset : ℕ

-- `Type::GetInstance(type_id)->Compare`, whose assertions are on the types of the values.
unfoldable pub compare_values : (ℕ → ℕ → Sign) → TypeId → Value → Value → Outcome Sign
compare_values compare_fp numeric (num a v) (num b w) = ok (compare_int a b)
compare_values compare_fp floating (fp a v) (fp b w) = ok (compare_fp a b)
compare_values compare_fp boolean (bool a) (bool b) = ok (compare_bool a b)
compare_values compare_fp varchar (text a v) (text b w) = ok (compare_text a b)
compare_values compare_fp t a b = aborted

module _ (kf : KeyFormat) where
  unfoldable pub to_value : Key → Outcome Value
  unfolding bytes_read
  to_value k =
      if ltb k.limit (k.start + bytes_read k)
      then undefined
      else deserialize kf.float_format k.type_id k.memory k.start k.width

  unfoldable pub compare_keys : Key → Key → Outcome Sign
  unfolding to_value compare_values
  compare_keys k other = do
    a ← to_value k
    b ← to_value other
    compare_values kf.compare_fp k.type_id a b

  -- `Key::FromBytes` with the tree's type and width.
  abbrev pub from_bytes : Memory → (start limit size : ℕ) → Key
  from_bytes m start limit size = record {
    type_id = kf.key_type_id;
    width = kf.key_width;
    memory = m;
    start = start;
    limit = limit;
    size = size;
  }

  abbrev pub smaller : ℕ → ℕ → ℕ
  smaller a b = if leb a b then a else b

  -- The key of a record of `len` bytes from `at_byte` on; the key of a null pointer or of no bytes
  -- is "".
  unfoldable pub extract_key : Memory → (limit : ℕ) → Option (ℕ × ℕ) → Key
  extract_key m limit none = from_bytes (λ a. 0) 0 1 0
  extract_key m limit (some (at_byte, len)) =
      let offset = smaller kf.key_offset len in
      let remaining = len - offset in
      let key_start = at_byte + offset in
      if len == 0 then from_bytes (λ a. 0) 0 1 0 else elim kf.key_type_id [
        | varchar ↦
            if ltb remaining 2
            then from_bytes m key_start limit remaining
            else from_bytes m key_start limit
                (smaller ((2 + read_le 2 m key_start) % 2 ^ 16) remaining)
        | _ ↦ from_bytes m key_start limit (smaller kf.key_width remaining)
      ]
