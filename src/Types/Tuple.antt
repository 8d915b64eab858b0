-- ===== src/Types/Tuple.antt =====
-- type/tuple.cpp: a tuple's binary form, a fixed section with a cursor of its own, then the bytes
-- of the strings. A tuple is its values; the schema is passed beside them. A string has fewer than
-- 2^16 bytes, which `varchar.len` holds.
pub mod RoundTrip
use database_internals.Prelude.{
  ℕ, zero, suc, ◌+◌, ◌-◌, ◌*◌, ◌/◌, ◌%◌, ◌^◌, ◌≡◌, refl, List, [], ◌∷◌, arith, length, get_elem?,
  if◌then◌else◌, Bool, true, false, Outcome, ok, aborted, undefined, thrown, ◌>>=◌, or_fail,
}
use database_internals.Memory.{Memory, write_bytes, read_bytes, write_le, read_le}
use database_internals.Types.Value.{
  Value, num, fp, bool, text, FloatFormat, serialize, deserialize, serialized_size,
}
use database_internals.Types.Column.{Column, Schema, is_variable_length}

-- `GetField` and `SetField`: `data[col_idx]`, with no check of the index.
pub get_field : List Value → ℕ → Outcome Value
get_field vs i = or_fail (get_elem? vs i) undefined

pub set_field : List Value → ℕ → Value → Outcome (List Value)
set_field [] i v = undefined
set_field (x ∷ xs) zero v = ok (v ∷ xs)
set_field (x ∷ xs) (suc i) v = do rest ← set_field xs i v; ok (x ∷ rest)

-- A VARCHAR column's part: the length at `fixed`, the bytes at `var`. The string of a value that is
-- none is read from the wrong member of the union.
pub store_text : Value → Memory → ℕ → ℕ → Outcome (Memory × (ℕ × ℕ))
store_text (text bytes owns) m fixed var = ok (
  write_bytes (write_le 2 m fixed (length bytes % 2 ^ 16)) var bytes,
  (fixed + 2, var + length bytes),
)
store_text (num _ _) m fixed var = undefined
store_text (fp _ _) m fixed var = undefined
store_text (bool _) m fixed var = undefined

-- A value of a tuple that has been read. Copying a `Value` copies its pointer, and the destructor of
-- the value that was copied frees the buffer: of an owned string its length is left, and reading or
-- destroying it is undefined.
pub data Loaded : Type 0 where
  whole : Value → Loaded
  freed : ℕ → Loaded

module _ (ff : FloatFormat) where
  -- The body of the loop of `Serialize`: the memory and the two cursors after one column.
  pub store_field : Column → Value → Memory → ℕ → ℕ → Outcome (Memory × (ℕ × ℕ))
  unfolding store_text
  store_field c v m fixed var =
      if is_variable_length c
      then store_text v m fixed var
      else ok (serialize ff v m fixed, (fixed + serialized_size v, var))

  pub store_fields : List Column → List Value → Memory → ℕ → ℕ → Outcome (Memory × ℕ)
  store_fields [] vs m fixed var = ok (m, var)
  store_fields (c ∷ cs) [] m fixed var = undefined
  store_fields (c ∷ cs) (v ∷ vs) m fixed var = do
    r ← store_field c v m fixed var
    store_fields cs vs r.0 r.1.0 r.1.1

  -- `Tuple::Serialize`: the bytes at `buf` and their number, which is a `uint16_t`.
  pub serialize_tuple : Schema → List Value → Memory → ℕ → Outcome (Memory × ℕ)
  unfolding store_fields
  serialize_tuple s vs m buf = do
    r ← store_fields s.columns vs m buf (buf + s.fixed_size)
    ok (r.0, (r.1 - buf) % 2 ^ 16)

  -- `values.push_back(Value::make_varchar_owning(...))`, and the destructor of the temporary.
  abbrev push_text : List ℕ → Loaded
  push_text bytes = freed (length bytes)

  -- The body of the loop of `Deserialize`: the value and the two cursors after one column. The
  -- length of a column is cast to a `uint8_t`.
  pub load_field : Column → Memory → ℕ → ℕ → Outcome (Loaded × (ℕ × ℕ))
  load_field c m fixed var =
      if is_variable_length c
      then ok
          (push_text (read_bytes m var (read_le 2 m fixed)), (fixed + 2, var + read_le 2 m fixed))
      else (deserialize ff c.type_id m fixed (c.len % 256) >>= λ v.
          ok (whole v, (fixed + serialized_size v, var)))

  pub load_fields : List Column → Memory → ℕ → ℕ → Outcome (List Loaded)
  load_fields [] m fixed var = ok []
  load_fields (c ∷ cs) m fixed var = do
    r ← load_field c m fixed var
    rest ← load_fields cs m r.1.0 r.1.1
    ok (r.0 ∷ rest)

  -- `Tuple::Deserialize`.
  pub deserialize_tuple : Schema → Memory → ℕ → Outcome (List Loaded)
  unfolding load_fields
  deserialize_tuple s m buf = load_fields s.columns m buf (buf + s.fixed_size)
