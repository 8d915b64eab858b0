-- ===== src/Types/Column.antt =====
-- type/column.cpp and type/schema.cpp: columns, schemas and their binary form. A name is the list
-- of its bytes. `ToString` is not modelled.
pub mod RoundTrip
pub mod Lookup
use database_internals.Prelude.{
  ℕ, zero, suc, ◌+◌, ◌-◌, ◌*◌, ◌/◌, ◌%◌, ◌^◌, ◌≡◌, refl, List, [], ◌∷◌, ◌++◌, arith, length,
  get_elem?, take, ltb, leb, ◌==◌, ◌&&◌, if◌then◌else◌, Bool, true, false, not, Option, none, some,
  Outcome, ok, aborted, undefined, ◌>>=◌, or_fail,
}
use database_internals.Memory.{Memory, write_bytes, read_bytes, write_le, read_le}
use database_internals.Types.Value.{
  TypeId, invalid, boolean, numeric, floating, varchar, type_id_code,
}

pub record Column : Type 0 where
  pub name : List ℕ
  pub type_id : TypeId
  pub len : ℕ
  pub offset : ℕ

-- The constructor of a VARCHAR column: its length is that of the prefix.
pub varchar_column : List ℕ → TypeId → ℕ → Column
varchar_column name type_id offset = record {
  name = name;
  type_id = type_id;
  len = 2;
  offset = offset;
}

abbrev pub is_variable_length : Column → Bool
is_variable_length c = elim c.type_id [ varchar ↦ true | _ ↦ false ]

-- `static_cast<TypeId>` of a byte. A code of no type stays a value of the enumeration in the
-- source; here it is `invalid`.
pub type_of_code : ℕ → TypeId
type_of_code c =
    if c == 1
    then boolean
    else if c == 2
    then numeric
    else if c == 3
    then floating
    else if c == 4
    then varchar
    else invalid

-- The bytes from `cursor` on, and how many `Column::Serialize` says there are.
pub serialize_column : Column → Memory → ℕ → Memory × ℕ
serialize_column c m p =
    let n = length c.name % 2 ^ 16 in
    let m = write_le 2 m p n in
    let m = write_bytes m (p + 2) (take n c.name) in
    let m = write_le 1 m (p + 2 + n) (type_id_code c.type_id) in
    let m = write_le 4 m (p + 2 + n + 1) c.len in
    let m = write_le 4 m (p + 2 + n + 1 + 4) c.offset in (m, (2 + n + 1 + 4 + 4) % 2 ^ 16)

pub deserialize_column : Memory → ℕ → Column × ℕ
deserialize_column m p =
    let n = read_le 2 m p in
    (
      record {
        name = read_bytes m (p + 2) n;
        type_id = type_of_code (read_le 1 m (p + 2 + n));
        len = read_le 4 m (p + 2 + n + 1);
        offset = read_le 4 m (p + 2 + n + 1 + 4);
      },
      2 + n + 1 + 4 + 4,
    )

pub record Schema : Type 0 where
  pub columns : List Column
  pub fixed_size_columns : List ℕ
  pub fixed_size : ℕ

-- The indices of the columns of fixed length, counted from `i`.
pub fixed_indices : ℕ → List Column → List ℕ
fixed_indices i [] = []
fixed_indices i (c ∷ cs) =
    let rest = fixed_indices (suc i) cs in if is_variable_length c then rest else i ∷ rest

unfoldable pub sum_lengths : List Column → ℕ
sum_lengths [] = 0
sum_lengths (c ∷ cs) = c.len + sum_lengths cs

-- `Schema::Schema(columns)`; `fixed_size_` is a `uint32_t`.
unfoldable pub make_schema : List Column → Schema
unfolding fixed_indices sum_lengths
make_schema cs = record {
  columns = cs;
  fixed_size_columns = fixed_indices 0 cs;
  fixed_size = sum_lengths cs % 2 ^ 32;
}

pub pick_columns : List Column → List ℕ → Outcome (List Column)
pick_columns cs [] = ok []
pick_columns cs (i ∷ is) = do
  c ← or_fail (get_elem? cs i) undefined
  rest ← pick_columns cs is
  ok (c ∷ rest)

-- The constructor of a projection.
pub project : Schema → List ℕ → Outcome Schema
unfolding pick_columns make_schema
project s indices = do cs ← pick_columns s.columns indices; ok (make_schema cs)

pub same_name : List ℕ → List ℕ → Bool
same_name [] [] = true
same_name [] (y ∷ ys) = false
same_name (x ∷ xs) [] = false
same_name (x ∷ xs) (y ∷ ys) = x == y && same_name xs ys

pub find_column : ℕ → List ℕ → List Column → Option ℕ
unfolding same_name
find_column i name [] = none
find_column i name (c ∷ cs) =
    let rest = find_column (suc i) name cs in if same_name c.name name then some i else rest

pub get_col_idx : Schema → List ℕ → Option ℕ
unfolding find_column
get_col_idx s name = find_column 0 name s.columns

pub has_variable_length_columns : Schema → Bool
has_variable_length_columns s = not (length s.fixed_size_columns == length s.columns)

pub serialize_columns : List Column → Memory → ℕ → Memory × ℕ
serialize_columns [] m p = (m, p)
serialize_columns (c ∷ cs) m p =
    let (m', n) = serialize_column c m p in serialize_columns cs m' (p + n)

-- `Schema::SerializeSchema`.
pub serialize_schema : Schema → Memory → ℕ → Memory × ℕ
serialize_schema s m p =
    let (m', end) =
      serialize_columns s.columns (write_le 4 m p (length s.columns % 2 ^ 32)) (p + 4) in
    (m', (end - p) % 2 ^ 32)

pub deserialize_columns : ℕ → Memory → ℕ → List Column × ℕ
deserialize_columns zero m p = ([], p)
deserialize_columns (suc k) m p =
    let (c, n) = deserialize_column m p in
    let (cs, end) = deserialize_columns k m (p + n) in (c ∷ cs, end)

-- `Schema::Deserialize`, with what it stores through `consumed`.
pub deserialize_schema : Memory → ℕ → Schema × ℕ
deserialize_schema m p =
    let (cs, end) = deserialize_columns (read_le 4 m p) m (p + 4) in (make_schema cs, end - p)
