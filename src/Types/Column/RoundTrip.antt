-- ===== src/Types/Column/RoundTrip.antt =====
-- A column, and a schema, read back from its bytes.
use native.Mathlib.Nat.{mod-eq_of_lt}
use database_internals.Prelude.{
  ℕ, suc, ◌+◌, ◌-◌, ◌%◌, ◌^◌, ◌≡◌, ◌<◌, ◌≤◌, ◌⊎◌, inl, ◌∙◌, ap, refl, List, [], ◌∷◌, arith, length,
  take,
}
use database_internals.Memory.{Memory, write_bytes, read_bytes, write_le, read_le}
use database_internals.Memory.Laws.{
  read_le-write_le, read_le-write_le_apart, read_le-write_bytes_apart, read_bytes-write_le_apart,
  read_bytes-write_bytes, write_bytes_apart, write_le_apart, read_le_ext, read_bytes_ext,
}
use database_internals.Types.Value.{
  TypeId, invalid, boolean, numeric, floating, varchar, type_id_code,
}
use database_internals.Types.Column.{
  Column, serialize_column, deserialize_column, type_of_code, serialize_columns,
  deserialize_columns, serialize_schema, deserialize_schema, make_schema,
}

-- The fields of the column fit their places.
pub record IsStorable (c : Column) : Type 0 where
  pub name_fits : length c.name + 11 < 2 ^ 16
  pub len_fits : c.len < 2 ^ 32
  pub offset_fits : c.offset < 2 ^ 32

type_of_code-type_id_code : (t : TypeId) → type_of_code (type_id_code t) ≡ t
unfolding type_of_code type_id_code
type_of_code-type_id_code invalid = refl
type_of_code-type_id_code boolean = refl
type_of_code-type_id_code numeric = refl
type_of_code-type_id_code floating = refl
type_of_code-type_id_code varchar = refl

type_id_code-lt : (t : TypeId) → type_id_code t < 256
unfolding type_id_code
type_id_code-lt invalid = omega arith
type_id_code-lt boolean = omega arith
type_id_code-lt numeric = omega arith
type_id_code-lt floating = omega arith
type_id_code-lt varchar = omega arith

take-length : (xs : List ℕ) → take (length xs) xs ≡ xs
take-length [] = refl
take-length (x ∷ xs) = ap (◌∷◌ x) (take-length xs)

-- The five writes of a column, where its name is not truncated.
written : Column → Memory → ℕ → Memory
written c m p =
    let n = length c.name in
    write_le 4
      (write_le 4
        (write_le 1 (write_bytes (write_le 2 m p n) (p + 2) c.name) (p + 2 + n)
          (type_id_code c.type_id))
        (p + 2 + n + 1) c.len)
      (p + 2 + n + 1 + 4) c.offset

serialize_column_lem :
    (c : Column) (m : Memory) (p : ℕ)
    → IsStorable c
    → serialize_column c m p ≡ (written c m p, length c.name + 11)
unfolding serialize_column written
serialize_column_lem c m p v = ground (arith, take-length c.name)

written_apart :
    (c : Column) (m : Memory) (p a : ℕ)
    → (a < p) ⊎ (p + (length c.name + 11) ≤ a)
    → written c m p a ≡ m a
unfolding written
written_apart c m p a h = ground (
  arith,
  write_le_apart 4
      (write_le 4
        (write_le 1 (write_bytes (write_le 2 m p (length c.name)) (p + 2) c.name)
          (p + 2 + length c.name) (type_id_code c.type_id))
        (p + 2 + length c.name + 1) c.len)
      (p + 2 + length c.name + 1 + 4) a c.offset,
  write_le_apart 4
      (write_le 1 (write_bytes (write_le 2 m p (length c.name)) (p + 2) c.name)
        (p + 2 + length c.name) (type_id_code c.type_id))
      (p + 2 + length c.name + 1) a c.len,
  write_le_apart 1 (write_bytes (write_le 2 m p (length c.name)) (p + 2) c.name)
      (p + 2 + length c.name) a (type_id_code c.type_id),
  write_bytes_apart (write_le 2 m p (length c.name)) (p + 2) a c.name,
  write_le_apart 2 m p a (length c.name),
)

-- What the five fields of a written column read as.
module _ (c : Column) (m : Memory) (p : ℕ) (v : IsStorable c) where
  m1 : Memory
  m1 = write_le 2 m p (length c.name)

  m2 : Memory
  m2 = write_bytes m1 (p + 2) c.name

  m3 : Memory
  m3 = write_le 1 m2 (p + 2 + length c.name) (type_id_code c.type_id)

  m4 : Memory
  m4 = write_le 4 m3 (p + 2 + length c.name + 1) c.len

  m5 : Memory
  m5 = write_le 4 m4 (p + 2 + length c.name + 1 + 4) c.offset

  name_len_read : read_le 2 m5 p ≡ length c.name
  unfolding m5 m4 m3 m2 m1
  name_len_read =
      read_le-write_le_apart 2 4 m4 _ p c.offset (inl (omega arith))
      ∙ read_le-write_le_apart 2 4 m3 _ p c.len (inl (omega arith))
      ∙ read_le-write_le_apart 2 1 m2 _ p (type_id_code c.type_id) (inl (omega arith))
      ∙ read_le-write_bytes_apart 2 m1 (p + 2) p c.name (inl (omega arith))
      ∙ read_le-write_le 2 m p (length c.name) (omega (arith, v.name_fits))

  name_read : read_bytes m5 (p + 2) (length c.name) ≡ c.name
  unfolding m5 m4 m3 m2
  name_read =
      read_bytes-write_le_apart 4 m4 _ (p + 2) (length c.name) c.offset (inl (omega arith))
      ∙ read_bytes-write_le_apart 4 m3 _ (p + 2) (length c.name) c.len (inl (omega arith))
      ∙ read_bytes-write_le_apart 1 m2 _ (p + 2) (length c.name) (type_id_code c.type_id)
          (inl (omega arith))
      ∙ read_bytes-write_bytes m1 (p + 2) c.name

  type_read : read_le 1 m5 (p + 2 + length c.name) ≡ type_id_code c.type_id
  unfolding m5 m4 m3
  type_read =
      read_le-write_le_apart 1 4 m4 _ (p + 2 + length c.name) c.offset (inl (omega arith))
      ∙ read_le-write_le_apart 1 4 m3 _ (p + 2 + length c.name) c.len (inl (omega arith))
      ∙ read_le-write_le 1 m2 (p + 2 + length c.name) (type_id_code c.type_id)
          (omega (arith, type_id_code-lt c.type_id))

  len_read : read_le 4 m5 (p + 2 + length c.name + 1) ≡ c.len
  unfolding m5 m4
  len_read =
      read_le-write_le_apart 4 4 m4 _ (p + 2 + length c.name + 1) c.offset (inl (omega arith))
      ∙ read_le-write_le 4 m3 (p + 2 + length c.name + 1) c.len (omega (arith, v.len_fits))

  offset_read : read_le 4 m5 (p + 2 + length c.name + 1 + 4) ≡ c.offset
  unfolding m5
  offset_read =
      read_le-write_le 4 m4 (p + 2 + length c.name + 1 + 4) c.offset (omega (arith, v.offset_fits))

  -- A memory that holds the column's bytes yields the column.
  deserialize_column-written :
      (m' : Memory)
      → ((a : ℕ) → p ≤ a → a < p + (length c.name + 11) → m' a ≡ m5 a)
      → deserialize_column m' p ≡ (c, length c.name + 11)
  unfolding deserialize_column
  deserialize_column-written m' e = ground (
    arith,
    (read_le_ext 2 m' m5 p (λ a x y. e a x (omega arith))),
    name_len_read,
    (read_bytes_ext m' m5 (p + 2) (length c.name) (λ a x y. e a (omega arith) (omega arith))),
    name_read,
    (read_le_ext 1 m' m5 (p + 2 + length c.name) (λ a x y. e a (omega arith) (omega arith))),
    type_read,
    (read_le_ext 4 m' m5 (p + 2 + length c.name + 1) (λ a x y. e a (omega arith) (omega arith))),
    len_read,
    (read_le_ext 4 m' m5 (p + 2 + length c.name + 1 + 4)
        (λ a x y. e a (omega arith) (omega arith))),
    offset_read,
    type_of_code-type_id_code c.type_id,
  )

  written-m5 : written c m p ≡ m5
  unfolding written m5 m4 m3 m2 m1
  written-m5 = refl

-- A column read back from its own bytes is the same column, and takes as many bytes.
pub deserialize_column-serialize_column :
    (c : Column) (m : Memory) (p : ℕ)
    → IsStorable c
    → let (m', n) = serialize_column c m p in deserialize_column m' p ≡ (c, n)
deserialize_column-serialize_column c m p v = rw (serialize_column_lem c m p v) (
    deserialize_column-written c m p v (written c m p)
      (λ a x y. ap (λ (w : Memory). w a) (written-m5 c m p v)))

abbrev pub AllStorable : List Column → Type 0
AllStorable [] = Unit {0}
AllStorable (c ∷ cs) = IsStorable c × AllStorable cs

abbrev pub names_size : List Column → ℕ
names_size [] = 0
names_size (c ∷ cs) = length c.name + 11 + names_size cs

serialize_columns-cons :
    (c : Column) (cs : List Column) (m : Memory) (p : ℕ)
    → IsStorable c
    → serialize_columns (c ∷ cs) m p
      ≡ serialize_columns cs (written c m p) (p + (length c.name + 11))
unfolding serialize_columns
serialize_columns-cons c cs m p v =
    ap (λ (r : Memory × ℕ). serialize_columns cs r.0 (p + r.1)) (serialize_column_lem c m p v)

serialize_columns_lem :
    (cs : List Column) (m : Memory) (p : ℕ)
    → AllStorable cs
    → ((serialize_columns cs m p).1 ≡ p + names_size cs)
      × ((a : ℕ) → (a < p) ⊎ (p + names_size cs ≤ a) → (serialize_columns cs m p).0 a ≡ m a)
serialize_columns_lem [] m p v =
    (unfold serialize_columns in omega arith, λ a h. unfold serialize_columns in refl)
serialize_columns_lem (c ∷ cs) m p v = rw (serialize_columns-cons c cs m p v.0) (
    let h = serialize_columns_lem cs (written c m p) (p + (length c.name + 11)) v.1 in
    (omega (arith, h.0), λ a k. h.1 a (grind arith) ∙ written_apart c m p a (grind arith)))

deserialize_columns-step :
    (c : Column) (k : ℕ) (m : Memory) (p n : ℕ)
    → deserialize_column m p ≡ (c, n)
    → deserialize_columns (suc k) m p
      ≡ (c ∷ (deserialize_columns k m (p + n)).0, (deserialize_columns k m (p + n)).1)
unfolding deserialize_columns
deserialize_columns-step c k m p n e =
    ap
      (λ (r : Column × ℕ).
        (r.0 ∷ (deserialize_columns k m (p + r.1)).0, (deserialize_columns k m (p + r.1)).1))
      e

deserialize_columns-serialize_columns :
    (cs : List Column) (m m' : Memory) (p : ℕ)
    → AllStorable cs
    → ((a : ℕ) → p ≤ a → a < p + names_size cs → m' a ≡ (serialize_columns cs m p).0 a)
    → deserialize_columns (length cs) m' p ≡ (cs, p + names_size cs)
deserialize_columns-serialize_columns [] m m' p v e =
    unfold deserialize_columns in ap (λ k. ([], k)) (omega arith)
deserialize_columns-serialize_columns (c ∷ cs) m m' p v e =
    deserialize_columns-step c (length cs) m' p (length c.name + 11) here
    ∙ ap (λ (r : List Column × ℕ). (c ∷ r.0, r.1))
        (deserialize_columns-serialize_columns cs (written c m p) m' (p + (length c.name + 11)) v.1
            (λ a x y.
              e a (omega arith) (omega arith)
              ∙ ap (λ (r : Memory × ℕ). r.0 a) (serialize_columns-cons c cs m p v.0))
          ∙ ap (λ k. (cs, k)) (omega arith))
  where
    step :
        (serialize_columns (c ∷ cs) m p)
        ≡ serialize_columns cs (written c m p) (p + (length c.name + 11))
    step = serialize_columns-cons c cs m p v.0

    here : deserialize_column m' p ≡ (c, length c.name + 11)
    here = deserialize_column-written c m p v.0 m' (λ a x y.
        e a x (omega arith)
        ∙ ap (λ (r : Memory × ℕ). r.0 a) step
        ∙ (serialize_columns_lem cs (written c m p) (p + (length c.name + 11)) v.1).1 a (inl y)
        ∙ ap (λ (w : Memory). w a) (written-m5 c m p v.0))

-- A schema of fewer than 2^32 columns whose fields fit their places, and which takes fewer than
-- 2^32 bytes, read back from its bytes, is the schema made of the same columns, and consumes as
-- many bytes as writing says were written.
pub deserialize_schema-serialize_schema :
    (cs : List Column) (m : Memory) (p : ℕ)
    → AllStorable cs
    → length cs < 2 ^ 32
    → 4 + names_size cs < 2 ^ 32
    → let (m', n) = serialize_schema (make_schema cs) m p in
      deserialize_schema m' p ≡ (make_schema cs, n)
unfolding serialize_schema deserialize_schema make_schema
deserialize_schema-serialize_schema cs m p v few small =
    ap
      (λ k. (
        make_schema (deserialize_columns k m' (p + 4)).0,
        (deserialize_columns k m' (p + 4)).1 - p,
      ))
      count
    ∙ ap (λ (r : List Column × ℕ). (make_schema r.0, r.1 - p)) body
    ∙ ap (λ k. (make_schema cs, k)) size
  where
    start : Memory
    start = write_le 4 m p (length cs % 2 ^ 32)

    m' : Memory
    m' = (serialize_columns cs start (p + 4)).0

    laid :
        ((serialize_columns cs start (p + 4)).1 ≡ p + 4 + names_size cs)
        × ((a : ℕ)
            → (a < p + 4) ⊎ (p + 4 + names_size cs ≤ a)
            → (serialize_columns cs start (p + 4)).0 a ≡ start a)
    laid = serialize_columns_lem cs start (p + 4) v

    count : read_le 4 m' p ≡ length cs
    count =
        read_le_ext 4 m' start p (λ a x y. laid.1 a (inl y))
        ∙ read_le-write_le 4 m p (length cs % 2 ^ 32) (omega arith)
        ∙ mod-eq_of_lt few

    body : deserialize_columns (length cs) m' (p + 4) ≡ (cs, p + 4 + names_size cs)
    body = deserialize_columns-serialize_columns cs start m' (p + 4) v (λ a x y. refl)

    size : p + 4 + names_size cs - p ≡ ((serialize_columns cs start (p + 4)).1 - p) % 2 ^ 32
    size = omega (arith, laid.0)
