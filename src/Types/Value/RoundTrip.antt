-- ===== src/Types/Value/RoundTrip.antt =====
-- What is written for a value is read back as that value.

use database_internals.Prelude.{
  ℕ, ◌-◌, ◌*◌, ◌^◌, ◌≡◌, ◌<◌, ◌≤◌, ◌⊎◌, inl, inr, ap, arith, true, false, Outcome, ok,
}
use database_internals.Memory.{Memory, write_bytes, write_le, read_le, to_le, of_le}
use database_internals.Memory.Laws.{
  read_le-write_le, of_le-to_le, read_bytes-write_bytes, length-to_le,
}
use database_internals.Types.Value.{
  Value, num, fp, bool, text, TypeId, boolean, numeric, floating, varchar, invalid, FloatFormat,
  serialize, deserialize, sign_extend, make_int,
}

-- The patterns of the numbers that a signed integer of `w` bytes holds.
abbrev pub IsSigned : ℕ → ℕ → Type 0
IsSigned w v = (v < 2 ^ (8 * w - 1)) ⊎ ((2 ^ 64 - 2 ^ (8 * w - 1) ≤ v) × (v < 2 ^ 64))

-- A value that a column of this type and width may hold.
abbrev pub Fits : FloatFormat → TypeId → ℕ → Value → Type 0
Fits ff numeric width (num v w) =
    (w ≡ width) × ((width ≡ 1) ⊎ ((width ≡ 2) ⊎ ((width ≡ 4) ⊎ (width ≡ 8)))) × IsSigned width v
Fits ff floating width (fp d w) =
    (w ≡ width)
    × (((width ≡ 8) × (d < 2 ^ 64))
        ⊎ ((width ≡ 4) × (ff.narrow d < 2 ^ 32) × (ff.widen (ff.narrow d) ≡ d)))
Fits ff boolean width (bool b) = width ≡ 1
Fits ff _ width _ = ⊥

sign_extend-1 : (v : ℕ) → IsSigned 1 v → sign_extend 1 (of_le (to_le 1 v)) ≡ v
unfolding sign_extend of_le to_le
sign_extend-1 v h = ground arith

sign_extend-2 : (v : ℕ) → IsSigned 2 v → sign_extend 2 (of_le (to_le 2 v)) ≡ v
unfolding sign_extend of_le to_le
sign_extend-2 v h = ground arith

sign_extend-4 : (v : ℕ) → IsSigned 4 v → sign_extend 4 (of_le (to_le 4 v)) ≡ v
unfolding sign_extend of_le to_le
sign_extend-4 v h = ground arith

sign_extend-8 : (v : ℕ) → IsSigned 8 v → sign_extend 8 (of_le (to_le 8 v)) ≡ v
unfolding sign_extend
sign_extend-8 v h = of_le-to_le 8 v (omega arith)

-- The bytes of a plain value, read back with no bound on the value.
pub read_le-write_le_bytes :
    (w : ℕ) (m : Memory) (o v : ℕ) → read_le w (write_le w m o v) o ≡ of_le (to_le w v)
unfolding read_le write_le
read_le-write_le_bytes w m o v =
    ap of_le (rw (length-to_le w v) at (read_bytes-write_bytes m o (to_le w v)))

read_int : ℕ → ℕ → ℕ → Memory → ℕ → Outcome Value
read_int width w v m o = make_int (sign_extend width (read_le width (write_le w m o v) o)) width

read_int-num :
    (width w v : ℕ) (m : Memory) (o : ℕ)
    → w ≡ width
    → (width ≡ 1) ⊎ ((width ≡ 2) ⊎ ((width ≡ 4) ⊎ (width ≡ 8)))
    → IsSigned width v
    → read_int width w v m o ≡ ok (num v w)
unfolding read_int make_int
read_int-num width w v m o e (inl k) h =
    rw (e, k, read_le-write_le_bytes 1 m o v, sign_extend-1 v (rw k at h))
read_int-num width w v m o e (inr (inl k)) h =
    rw (e, k, read_le-write_le_bytes 2 m o v, sign_extend-2 v (rw k at h))
read_int-num width w v m o e (inr (inr (inl k))) h =
    rw (e, k, read_le-write_le_bytes 4 m o v, sign_extend-4 v (rw k at h))
read_int-num width w v m o e (inr (inr (inr k))) h =
    rw (e, k, read_le-write_le_bytes 8 m o v, sign_extend-8 v (rw k at h))

-- Writing a NUMERIC, BOOLEAN or FLOAT value of a column's width and reading it back gives the
-- value.
pub deserialize-serialize :
    (ff : FloatFormat) (t : TypeId) (width : ℕ) (v : Value) (m : Memory) (o : ℕ)
    → Fits ff t width v
    → deserialize ff t (serialize ff v m o) o width ≡ ok v
unfolding deserialize serialize read_int write_le write_bytes to_le
deserialize-serialize ff invalid width v m o f = elim f [ ]
deserialize-serialize ff boolean width (bool true) m o f = ground arith
deserialize-serialize ff boolean width (bool false) m o f = ground arith
deserialize-serialize ff boolean width (num v w) m o f = elim f [ ]
deserialize-serialize ff boolean width (fp v w) m o f = elim f [ ]
deserialize-serialize ff boolean width (text v w) m o f = elim f [ ]
deserialize-serialize ff numeric width (num v w) m o f = read_int-num width w v m o f.0 f.1 f.2
deserialize-serialize ff numeric width (bool b) m o f = elim f [ ]
deserialize-serialize ff numeric width (fp v w) m o f = elim f [ ]
deserialize-serialize ff numeric width (text v w) m o f = elim f [ ]
deserialize-serialize ff floating width (fp d w) m o f =
    ground (arith, read_le-write_le 4 m o (ff.narrow d), read_le-write_le 8 m o d)
deserialize-serialize ff floating width (num v w) m o f = elim f [ ]
deserialize-serialize ff floating width (bool v) m o f = elim f [ ]
deserialize-serialize ff floating width (text v w) m o f = elim f [ ]
deserialize-serialize ff varchar width v m o f = elim f [ ]
