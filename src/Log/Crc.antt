-- ===== src/Log/Crc.antt =====
-- utils/crc32c.h: the portable CRC-32C. The SSE4.2 and ARM paths call intrinsics that compute the
-- same function eight bytes at a time.
use Prim.Native.Nat.{bit_and, bit_xor}
use database_internals.Prelude.{ℕ, zero, suc, ◌-◌, ◌/◌, ◌%◌, ◌^◌, ◌≡◌, refl, List, [], ◌∷◌, ◌++◌}

abbrev pub k_init : ℕ
k_init = 0xffffffff

abbrev pub k_xor_out : ℕ
k_xor_out = 0xffffffff

-- `(state >> 1) ^ (0x82F63B78u & (0u - (state & 1u)))`, with the subtraction modulo 2^32.
pub shift_bit : ℕ → ℕ
shift_bit state = bit_xor (state / 2) (bit_and 0x82f63b78 ((2 ^ 32 - bit_and state 1) % 2 ^ 32))

pub shift_bits : ℕ → ℕ → ℕ
unfolding shift_bit
shift_bits zero state = state
shift_bits (suc k) state = shift_bits k (shift_bit state)

pub extend : ℕ → List ℕ → ℕ
unfolding shift_bits
extend state [] = state
extend state (b ∷ bs) = extend (shift_bits 8 (bit_xor state b)) bs

pub finalize : ℕ → ℕ
finalize state = bit_xor state k_xor_out

unfoldable pub compute : List ℕ → ℕ
unfolding extend finalize
compute bytes = finalize (extend k_init bytes)

extend-append : (s : ℕ) (xs ys : List ℕ) → extend s (xs ++ ys) ≡ extend (extend s xs) ys
unfolding extend
extend-append s [] ys = refl
extend-append s (x ∷ xs) ys = extend-append (shift_bits 8 (bit_xor s x)) xs ys

-- Header, before-image and after-image may be checksummed in turn: chained calls of `extend` with
-- one `finalize` give the checksum of the whole record.
pub compute-append :
    (xs ys zs : List ℕ)
    → finalize (extend (extend (extend k_init xs) ys) zs) ≡ compute (xs ++ (ys ++ zs))
unfolding compute
compute-append xs ys zs =
    rw (extend-append k_init xs (ys ++ zs), extend-append (extend k_init xs) ys zs)

-- "123456789", the example in the source.
digits : List ℕ
digits = 0x31 ∷ 0x32 ∷ 0x33 ∷ 0x34 ∷ 0x35 ∷ 0x36 ∷ 0x37 ∷ 0x38 ∷ 0x39 ∷ []

compute-digits : compute digits ≡ 0xe3069283
unfolding compute digits
compute-digits = refl
