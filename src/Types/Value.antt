-- ===== src/Types/Value.antt =====
-- type/value.h and the four subclasses of `Type` (type/type.h, numeric_type.h, boolean_type.h,
-- varchar_type.h, float_type.h). An `int64_t` is its 64-bit pattern, a `double` its bits, and a
-- string the list of its bytes. What the target does to `double`s is a parameter.
pub mod Order
pub mod RoundTrip
pub mod Frames
pub mod Arithmetic
mod Tests
use database_internals.Prelude.{
  ℕ, zero, suc, ◌+◌, ◌-◌, ◌*◌, ◌/◌, ◌%◌, ◌^◌, ◌≡◌, refl, List, [], ◌∷◌, ◌++◌, arith, length, ltb,
  leb, ◌==◌, ◌||◌, if◌then◌else◌, Bool, true, false, Outcome, ok, aborted, undefined, thrown, ◌>>=◌,
}
use database_internals.Memory.{Memory, write_bytes, read_bytes, write_le, read_le}

pub data TypeId : Type 0 where
  invalid boolean numeric floating varchar : TypeId

unfoldable pub type_id_code : TypeId → ℕ
type_id_code invalid = 0
type_id_code boolean = 1
type_id_code numeric = 2
type_id_code floating = 3
type_id_code varchar = 4

-- `num v w`: a NUMERIC of `w` bytes, sign-extended into `v`. `fp d w`: a FLOAT of `w` bytes,
-- widened into the bits `d`. `text bytes owns`: a VARCHAR and its `owns_data`.
pub data Value : Type 0 where
  num : ℕ → ℕ → Value
  fp : ℕ → ℕ → Value
  bool : Bool → Value
  text : List ℕ → Bool → Value

-- The conversions between `double` and `float`, on their bits: the compiler's.
pub record FloatFormat : Type 0 where
  pub narrow : ℕ → ℕ
  pub widen : ℕ → ℕ

unfoldable pub make_int : ℕ → ℕ → Outcome Value
make_int v width =
    if width == 1 || (width == 2 || (width == 4 || width == 8)) then ok (num v width) else aborted

-- Adding the sign bit turns the order of `int64_t` into that of the patterns.
unfoldable pub biased : ℕ → ℕ
biased v = (v + 2 ^ 63) % 2 ^ 64

-- -1, 0 and 1 of `Compare`.
pub data Sign : Type 0 where
  less same greater : Sign

unfoldable pub compare_int : ℕ → ℕ → Sign
unfolding biased
compare_int a b =
    if ltb (biased a) (biased b) then less else if ltb (biased b) (biased a) then greater else same

pub compare_text : List ℕ → List ℕ → Sign
compare_text [] [] = same
compare_text [] (b ∷ bs) = less
compare_text (a ∷ xs) [] = greater
compare_text (a ∷ xs) (b ∷ bs) =
    let rest = compare_text xs bs in if ltb b a then greater else if ltb a b then less else rest

-- `(int)a - (int)b` on `bool`s.
pub compare_bool : Bool → Bool → Sign
compare_bool false true = less
compare_bool true false = greater
compare_bool false false = same
compare_bool true true = same

-- `width`, and the prefix of two bytes and the string for a VARCHAR.
unfoldable pub serialized_size : Value → ℕ
serialized_size (num v w) = w
serialized_size (fp d w) = w
serialized_size (bool b) = 1
serialized_size (text bytes owns) = (length bytes + 2) % 2 ^ 16

abbrev bit : Bool → ℕ
bit true = 1
bit false = 0

-- `x << shift` then `>> shift` on an `int64_t`, with `shift = (8 - width) * 8`.
unfoldable pub sign_extend : ℕ → ℕ → ℕ
sign_extend width x =
    let shift = (8 - width) * 8 in
    let up = (x * 2 ^ shift) % 2 ^ 64 in
    if shift == 0
    then x
    else if ltb up (2 ^ 63)
    then up / 2 ^ shift
    else up / 2 ^ shift + (2 ^ 64 - 2 ^ (64 - shift))

module _ (ff : FloatFormat) where
  -- `Type::GetInstance(v.type_id)->Serialize(v, buf)`.
  pub serialize : Value → Memory → ℕ → Memory
  serialize (num v w) m o = write_le w m o v
  serialize (fp d w) m o = if w == 4 then write_le 4 m o (ff.narrow d) else write_le 8 m o d
  serialize (bool b) m o = write_le 1 m o (bit b)
  serialize (text bytes owns) m o =
      write_bytes (write_le 2 m o (length bytes % 2 ^ 16)) (o + 2) bytes

  -- `Type::GetInstance(t)->Deserialize(buf, width)`. A `bool` takes `width` bytes into one.
  unfoldable pub deserialize : TypeId → Memory → ℕ → ℕ → Outcome Value
  unfolding make_int sign_extend
  deserialize invalid m o width = aborted
  deserialize boolean m o width =
      if width == 0
      then ok (bool false)
      else if width == 1
      then ok (bool (if m o == 0 then false else true))
      else undefined
  deserialize numeric m o width = make_int (sign_extend width (read_le width m o)) width
  deserialize floating m o width =
      if width == 4 then ok (fp (ff.widen (read_le 4 m o)) 4) else ok (fp (read_le 8 m o) 8)
  deserialize varchar m o width = ok (text (read_bytes m (o + 2) (read_le 2 m o)) true)

-- `FixedSize`: a VARCHAR's is that of its length prefix.
pub fixed_size : Value → ℕ
fixed_size (num v w) = w
fixed_size (fp d w) = w
fixed_size (bool b) = 1
fixed_size (text bytes owns) = 2

-- The sum and the difference of two `double`s, on their bits: the target's.
pub record FloatArithmetic : Type 0 where
  pub plus : ℕ → ℕ → ℕ
  pub minus : ℕ → ℕ → ℕ

abbrev is_negative : ℕ → Bool
is_negative v = leb (2 ^ 63) v

abbrev wider : ℕ → ℕ → ℕ
wider a b = if ltb b a then a else b

unfoldable pub make_float : ℕ → ℕ → Outcome Value
make_float d width = if width == 4 || width == 8 then ok (fp d width) else aborted

-- The sum of two `int64_t`; where it does not fit one, it is undefined.
pub add_int : ℕ → ℕ → Outcome ℕ
add_int a b =
    let s = (a + b) % 2 ^ 64 in
    if is_negative a
    then (if is_negative b then (if is_negative s then ok s else undefined) else ok s)
    else (if is_negative b then ok s else if is_negative s then undefined else ok s)

pub sub_int : ℕ → ℕ → Outcome ℕ
sub_int a b =
    let s = (a + 2 ^ 64 - b) % 2 ^ 64 in
    if is_negative a
    then (if is_negative b then ok s else if is_negative s then ok s else undefined)
    else (if is_negative b then (if is_negative s then undefined else ok s) else ok s)

-- `Type::GetInstance(t)->Add(a, b)`: a BOOLEAN and a VARCHAR have the base class's, which throws.
pub add : FloatArithmetic → TypeId → Value → Value → Outcome Value
unfolding make_int make_float add_int
add fa invalid a b = aborted
add fa boolean a b = thrown
add fa varchar a b = thrown
add fa numeric (num a v) (num b w) = add_int a b >>= λ s. make_int s (wider v w)
add fa floating (fp a v) (fp b w) = make_float (fa.plus a b) (wider v w)
add fa numeric a b = aborted
add fa floating a b = aborted

pub sub : FloatArithmetic → TypeId → Value → Value → Outcome Value
unfolding make_int make_float sub_int
sub fa invalid a b = aborted
sub fa boolean a b = thrown
sub fa varchar a b = thrown
sub fa numeric (num a v) (num b w) = sub_int a b >>= λ s. make_int s (wider v w)
sub fa floating (fp a v) (fp b w) = make_float (fa.minus a b) (wider v w)
sub fa numeric a b = aborted
sub fa floating a b = aborted
