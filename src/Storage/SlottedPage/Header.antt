-- ===== src/Storage/SlottedPage/Header.antt =====
-- Writes to the header of a page, beside the count and the pointer, leave its records alone.
use database_internals.Prelude.{ℕ, ◌+◌, ◌≡◌, ◌<◌, ◌≤◌, ◌⊎◌, inl, inr, arith}
use database_internals.Memory.{Memory}
use database_internals.Memory.Laws.{read_le_ext, write_le_apart}
use database_internals.Storage.SlottedPage.{
  slot_count, free_space_ptr, header_size, get_free_space, set_left_sibling, set_right_sibling,
}
use database_internals.Storage.SlottedPage.Layout.{
  slot_at, IsFormed, IsFilled, record_at_ext, records, get_free_space_lem,
}
use database_internals.Storage.SlottedPage.Compact.Kept.{IsSame, records_from-same, sizes_from-same}

-- The two pages differ in the header only, but not in the count and the pointer.
abbrev pub IsAlike : Memory → Memory → Type 0
IsAlike q m = (a : ℕ) → ((20 ≤ a) × (a < 24)) ⊎ (header_size ≤ a) → q a ≡ m a

module _ (q m : Memory) (e : IsAlike q m) where
  pub alike_count : slot_count q ≡ slot_count m
  alike_count = read_le_ext 2 q m 20 (λ a x y. e a (inl (omega arith)))

  alike_ptr : free_space_ptr q ≡ free_space_ptr m
  alike_ptr = read_le_ext 2 q m 22 (λ a x y. e a (inl (omega arith)))

  module _ (v : IsFormed m) where
    same : (i : ℕ) → i < slot_count m → IsSame q m i i
    same i h =
        record_at_ext q m i i (λ k x. e (slot_at i + k) (inr (omega arith)))
          (λ a l lo hi. e a (inr (omega (arith, v.slots_fit, (v.inside i h l).0))))

    pub alike-IsFormed : IsFormed q
    alike-IsFormed = record {
      slots_fit = omega (arith, alike_count, alike_ptr, v.slots_fit);
      heap_fits =
          rw (alike_count, alike_ptr)
            (omega (
              arith,
              v.heap_fits,
              sizes_from-same q m 0 (slot_count m) (λ j a b. same j (omega arith)),
            ));
      inside = λ i h l.
          let b : i < slot_count m = omega (arith, alike_count) in
          let (o, z, _) = same i b in
          let (lo, hi) = v.inside i b (rw o at l) in rw (o, z, alike_ptr) (lo, hi);
      apart = λ i j d h k l.
          let bj : j < slot_count m = omega (arith, alike_count) in
          let (oi, zi, _) = same i (omega arith) in
          let (oj, zj, _) = same j bj in
          rw (oi, zi, oj, zj) (v.apart i j d bj (rw oi at k) (rw oj at l));
    }

    pub alike-IsFilled : IsFilled m → IsFilled q
    alike-IsFilled f i h l =
        let b : i < slot_count m = omega (arith, alike_count) in
        let (o, z, _) = same i b in rw z (f i b (rw o at l))

    pub alike-records : records q ≡ records m
    unfolding records
    alike-records =
        rw alike_count (records_from-same q m 0 (slot_count m) (λ j a b. same j (omega arith)))

    pub alike_free : get_free_space q ≡ get_free_space m
    alike_free =
        omega (
          arith,
          get_free_space_lem q alike-IsFormed,
          get_free_space_lem m v,
          alike_count,
          alike_ptr,
        )

pub set_left_sibling-IsAlike : (m : Memory) (id : ℕ) → IsAlike (set_left_sibling m id) m
unfolding set_left_sibling
set_left_sibling-IsAlike m id a h = write_le_apart 4 m 28 a id (grind arith)

pub set_right_sibling-IsAlike : (m : Memory) (id : ℕ) → IsAlike (set_right_sibling m id) m
unfolding set_right_sibling
set_right_sibling-IsAlike m id a h = write_le_apart 4 m 32 a id (grind arith)
