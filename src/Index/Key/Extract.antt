-- ===== src/Index/Key/Extract.antt =====
-- Which bytes `extractKey` takes for the key.
use database_internals.Prelude.{
  ℕ, ◌+◌, ◌-◌, ◌<◌, ◌≤◌, ◌≡◌, ◌⊎◌, inl, inr, some, arith, leb, ltb, Bool-cases,
}
use database_internals.Memory.{Memory}
use database_internals.Types.Value.{numeric}
use database_internals.Index.Key.{KeyFormat, extract_key}

-- Where `extractKey` finds a number in a record of at least one byte: in the key column, if the
-- record reaches behind it; cut short, if the record ends inside the column; and if it ends before
-- the column's offset, as an entry of an internal page does that is nothing but a key, then behind
-- the record, without a byte.
pub extract_key-column :
    (kf : KeyFormat) (m : Memory) (limit start len : ℕ)
    → kf.key_type_id ≡ numeric
    → 0 < len
    → ((kf.key_offset + kf.key_width ≤ len)
        × ((extract_key kf m limit (some (start, len))).start ≡ start + kf.key_offset)
        × ((extract_key kf m limit (some (start, len))).size ≡ kf.key_width))
      ⊎ ((kf.key_offset < len)
          × (len < kf.key_offset + kf.key_width)
          × ((extract_key kf m limit (some (start, len))).start ≡ start + kf.key_offset)
          × ((extract_key kf m limit (some (start, len))).size ≡ len - kf.key_offset))
      ⊎ ((len ≤ kf.key_offset)
          × ((extract_key kf m limit (some (start, len))).start ≡ start + len)
          × ((extract_key kf m limit (some (start, len))).size ≡ 0))
unfolding extract_key
extract_key-column kf m limit start len ty h =
    elim (Bool-cases (leb (kf.key_offset + kf.key_width) len)) [
      | inl y ↦ inl (ground arith, ground (arith, ty), ground (arith, ty))
      | inr n ↦ elim (Bool-cases (ltb kf.key_offset len)) [
        | inl y ↦ inr (inl (ground arith, ground arith, ground (arith, ty), ground (arith, ty)))
        | inr x ↦ inr (inr (ground arith, ground (arith, ty), ground (arith, ty)))
      ]
    ]
