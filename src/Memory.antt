-- ===== src/Memory.antt =====
-- Raw memory, byte by byte, and `memcpy` between it and lists of bytes. `ReadPod` and `WritePod` of
-- type/schema.cpp and type/column.cpp, and every `memcpy` of a plain value, are `read_le` and
-- `write_le` here: the target is little-endian.
pub mod Laws
use database_internals.Prelude.{ℕ, zero, suc, ◌+◌, ◌*◌, ◌/◌, ◌%◌, List, [], ◌∷◌, update}

abbrev pub Memory : Type 0
Memory = ℕ → ℕ

-- `memcpy(m + o, bytes, n)`.
unfoldable pub write_bytes : Memory → ℕ → List ℕ → Memory
write_bytes m o [] = m
write_bytes m o (b ∷ bs) = write_bytes (update m o b) (suc o) bs

-- The `n` bytes from `m + o` on.
unfoldable pub read_bytes : Memory → ℕ → ℕ → List ℕ
read_bytes m o zero = []
read_bytes m o (suc n) = m o ∷ read_bytes m (suc o) n

-- An unsigned value of `w` bytes, least significant byte first.
unfoldable pub to_le : ℕ → ℕ → List ℕ
to_le zero v = []
to_le (suc w) v = (v % 256) ∷ to_le w (v / 256)

unfoldable pub of_le : List ℕ → ℕ
of_le [] = 0
of_le (b ∷ bs) = b + 256 * of_le bs

unfoldable pub write_le : ℕ → Memory → ℕ → ℕ → Memory
unfolding write_bytes to_le
write_le w m o v = write_bytes m o (to_le w v)

unfoldable pub read_le : ℕ → Memory → ℕ → ℕ
unfolding read_bytes of_le
read_le w m o = of_le (read_bytes m o w)
