-- ===== src/Types/Value/Arithmetic.antt =====
-- Sums and differences of NUMERIC values, and what becomes of them in a column.
use native.Mathlib.Decide.{dec_lt}
use database_internals.Prelude.{
  ℕ, ◌+◌, ◌-◌, ◌*◌, ◌%◌, ◌^◌, ◌≡◌, ◌<◌, ◌≤◌, ◌⊎◌, inl, inr, refl, arith, Outcome, ok, undefined,
  ltb, if◌then◌else◌, Bool-cases, ◌>>=◌,
}
use database_internals.Memory.{Memory, of_le, to_le, read_le, write_le}
use database_internals.Types.Value.{
  Value, num, numeric, FloatFormat, FloatArithmetic, biased, add, sub, add_int, sub_int, make_int,
  serialize, deserialize, sign_extend,
}
use database_internals.Types.Value.RoundTrip.{IsSigned, read_le-write_le_bytes}

-- The widths of a NUMERIC.
abbrev pub IsWidth : ℕ → Type 0
IsWidth w = (w ≡ 1) ⊎ ((w ≡ 2) ⊎ ((w ≡ 4) ⊎ (w ≡ 8)))

-- `biased a` is the number that `a` stands for, plus 2^63. A call that is to give the number `e`,
-- taken 2^64 too high, in `w` bytes: it does so where an `int64_t` holds the number, and is
-- undefined otherwise.
abbrev pub IsExact : Outcome Value → ℕ → ℕ → Type 0
IsExact call e w =
    ((2 ^ 63 ≤ e)
      × (e < 2 ^ 63 + 2 ^ 64)
      × ((s : ℕ) × (call ≡ ok (num s w)) × (s < 2 ^ 64) × (biased s + 2 ^ 63 ≡ e)))
    ⊎ (((e < 2 ^ 63) ⊎ (2 ^ 63 + 2 ^ 64 ≤ e)) × (call ≡ undefined))

in_range :
    (call : Outcome ℕ) (e s w : ℕ)
    → IsWidth w
    → 2 ^ 63 ≤ e
    → e < 2 ^ 63 + 2 ^ 64
    → call ≡ ok s
    → s < 2 ^ 64
    → biased s + 2 ^ 63 ≡ e
    → IsExact (call >>= λ t. make_int t w) e w
unfolding make_int
in_range call e s w k lo hi c h b = inl (lo, hi, (s, rw c (ground arith), h, b))

out_of_range :
    (call : Outcome ℕ) (e w : ℕ)
    → (e < 2 ^ 63) ⊎ (2 ^ 63 + 2 ^ 64 ≤ e)
    → call ≡ undefined
    → IsExact (call >>= λ t. make_int t w) e w
out_of_range call e w h c = inr (h, rw c refl)

add_int-IsExact :
    (a b w : ℕ)
    → a < 2 ^ 64
    → b < 2 ^ 64
    → IsWidth w
    → IsExact (add_int a b >>= λ s. make_int s w) (biased a + biased b) w
unfolding add_int biased
add_int-IsExact a b w ha hb k = elim (dec_lt (biased a + biased b) (2 ^ 63)) [
  | yes low ↦ out_of_range (add_int a b) _ w (inl low) (ground arith)
  | no h ↦ elim (dec_lt (biased a + biased b) (2 ^ 63 + 2 ^ 64)) [
    | yes fits ↦
        in_range (add_int a b) (biased a + biased b) ((a + b) % 2 ^ 64) w k (omega (arith, h)) fits
          (ground arith) (omega arith) (omega arith)
    | no high ↦ out_of_range (add_int a b) _ w (inr (omega (arith, high))) (ground arith)
  ]
]

sub_int-IsExact :
    (a b w : ℕ)
    → a < 2 ^ 64
    → b < 2 ^ 64
    → IsWidth w
    → IsExact (sub_int a b >>= λ s. make_int s w) (biased a + 2 ^ 64 - biased b) w
unfolding sub_int biased
sub_int-IsExact a b w ha hb k = elim (dec_lt (biased a + 2 ^ 64 - biased b) (2 ^ 63)) [
  | yes low ↦ out_of_range (sub_int a b) _ w (inl low) (ground arith)
  | no h ↦ elim (dec_lt (biased a + 2 ^ 64 - biased b) (2 ^ 63 + 2 ^ 64)) [
    | yes fits ↦
        in_range (sub_int a b) (biased a + 2 ^ 64 - biased b) ((a + 2 ^ 64 - b) % 2 ^ 64) w k
          (omega (arith, h)) fits (ground arith) (omega arith) (omega arith)
    | no high ↦ out_of_range (sub_int a b) _ w (inr (omega (arith, high))) (ground arith)
  ]
]

wider-IsWidth : (v w : ℕ) → IsWidth v → IsWidth w → IsWidth (if ltb w v then v else w)
wider-IsWidth v w hv hw = elim (Bool-cases (ltb w v)) [ inl e ↦ rw e hv | inr e ↦ rw e hw ]

-- The sum and the difference of two NUMERICs are the exact ones, in the wider of their widths,
-- where an `int64_t` holds them; otherwise the call is undefined. Whether the width holds them is
-- not tested.
pub add-sub-IsExact :
    (fa : FloatArithmetic) (a b v w : ℕ)
    → a < 2 ^ 64
    → b < 2 ^ 64
    → IsWidth v
    → IsWidth w
    → IsExact (add fa numeric (num a v) (num b w)) (biased a + biased b) (if ltb w v then v else w)
      × IsExact
          (sub fa numeric (num a v) (num b w))
          (biased a + 2 ^ 64 - biased b)
          (if ltb w v then v else w)
unfolding add sub
add-sub-IsExact fa a b v w ha hb hv hw = (
  add_int-IsExact a b (if ltb w v then v else w) ha hb (wider-IsWidth v w hv hw),
  sub_int-IsExact a b (if ltb w v then v else w) ha hb (wider-IsWidth v w hv hw),
)

-- Any number written into a column of `w` bytes and read back is the number of `w` bytes that it is
-- congruent to modulo 2^(8w).
deserialize-serialize_wraps :
    (ff : FloatFormat) (v w : ℕ) (m : Memory) (o : ℕ)
    → v < 2 ^ 64
    → IsWidth w
    → (s : ℕ) × (deserialize ff numeric (serialize ff (num v w) m o) o w ≡ ok (num s w))
      × IsSigned w s
      × (s % 2 ^ (8 * w) ≡ v % 2 ^ (8 * w))
unfolding deserialize serialize make_int
deserialize-serialize_wraps ff v w m o h k =
    let e : read_le w (write_le w m o v) o ≡ of_le (to_le w v) = read_le-write_le_bytes w m o v in
    (sign_extend w (of_le (to_le w v)), rw e (ground arith), signed k, same k)
  where
    signed : IsWidth w → IsSigned w (sign_extend w (of_le (to_le w v)))
    signed (inl e) = rw e (unfold sign_extend of_le to_le in ground arith)
    signed (inr (inl e)) = rw e (unfold sign_extend of_le to_le in ground arith)
    signed (inr (inr (inl e))) = rw e (unfold sign_extend of_le to_le in ground arith)
    signed (inr (inr (inr e))) = rw e (unfold sign_extend of_le to_le in ground arith)

    same : IsWidth w → sign_extend w (of_le (to_le w v)) % 2 ^ (8 * w) ≡ v % 2 ^ (8 * w)
    same (inl e) = rw e (unfold sign_extend of_le to_le in ground arith)
    same (inr (inl e)) = rw e (unfold sign_extend of_le to_le in ground arith)
    same (inr (inr (inl e))) = rw e (unfold sign_extend of_le to_le in ground arith)
    same (inr (inr (inr e))) = rw e (unfold sign_extend of_le to_le in ground arith)
