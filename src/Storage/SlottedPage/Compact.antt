-- ===== src/Storage/SlottedPage/Compact.antt =====
-- `compactify`: the loop that packs the records at the end of the page, the loop that drops the
-- tombstones, and what the two make of a well-formed page.
pub mod Below
pub mod Pack
pub mod Sort
pub mod Kept
pub mod Drop
pub mod Slots
use database_internals.Prelude.{
  ℕ, ◌+◌, ◌*◌, ◌≡◌, ◌≢◌, ◌<◌, ◌≤◌, ◌⊎◌, inl, inr, ◌∙◌, sym, ap, refl, List, [], ◌++◌, arith, length,
  subst,
}
use database_internals.Memory.{Memory}
use database_internals.Memory.Laws.{read_le_ext, read_le-write_le, write_le_apart}
use database_internals.Storage.SlottedPage.{
  slot_count, free_space_ptr, slot_offset, slot_size, page_size, header_size, drop_dead,
  set_slot_count, compactify, get_free_space, get_total_free_space, dead_space, live_slots,
}
use database_internals.Storage.SlottedPage.Layout.{
  slot_at, IsFormed, IsFilled, record_at_ext, records_from, records, sizes_from, get_free_space_lem,
  zero_add,
}
use database_internals.Storage.SlottedPage.Compact.Sort.{dead_space_lem}
use database_internals.Storage.SlottedPage.Compact.Drop.{IsDropped, drop_dead-IsDropped}
use database_internals.Storage.SlottedPage.Compact.Kept.{
  live, live_sizes, IsActive, IsKept, IsSame, records_from-same, sizes_from-same,
}
use database_internals.Storage.SlottedPage.Compact.Slots.{
  between, between-IsKept, between_records, between_sizes, between_header, between_count,
  between_ptr, packed_ptr, ptr_above, ptr_room, compactify-between, length-live, small,
  live_sizes-total,
}

-- What `compactify` makes of a page.
pub record IsCompacted (m q : Memory) : Type 0 where
  pub formed : IsFormed q
  pub filled : IsFilled q
  pub all_live : (i : ℕ) → i < slot_count q → slot_offset q (slot_at i) ≢ 0
  pub kept : records q ≡ live (records m)
  pub room : get_total_free_space m ≤ get_free_space q
  pub header : (a : ℕ) → (a < 20) ⊎ ((24 ≤ a) × (a < header_size)) → q a ≡ m a

module _ (m : Memory) (v : IsFormed m) (filled : IsFilled m) where
  dropped : Memory
  dropped = (drop_dead (slot_count m) (between m v filled) 0 0).0

  count : ℕ
  count = (drop_dead (slot_count m) (between m v filled) 0 0).1

  drops : IsDropped (between m v filled) dropped 0 0 (slot_count m) (packed_ptr m v filled) count
  unfolding dropped count
  drops =
      drop_dead-IsDropped (slot_count m) (between m v filled) 0 0 (packed_ptr m v filled)
        (omega arith) (between_count m v filled ∙ sym (zero_add (slot_count m)))
        (omega (arith, ptr_above m v filled)) (omega (arith, ptr_room m v filled))
        (subst (λ n. IsKept (between m v filled) n (packed_ptr m v filled) 0 0)
          (sym (zero_add (slot_count m))) (between-IsKept m v filled))

  source_slots : IsKept dropped (slot_count m) (packed_ptr m v filled) count (slot_count m)
  source_slots =
      subst (λ n. IsKept dropped n (packed_ptr m v filled) count n) (zero_add (slot_count m))
        drops.kept

  few : count ≤ slot_count m
  few = omega (arith, drops.upper)

  compacted : Memory
  compacted = set_slot_count dropped count

  compacted_others : (a : ℕ) → (a < 20) ⊎ (22 ≤ a) → compacted a ≡ dropped a
  unfolding compacted
  compacted_others a h = write_le_apart 2 dropped 20 a count h

  compacted_count : slot_count compacted ≡ count
  unfolding compacted
  compacted_count = read_le-write_le 2 dropped 20 count (omega (arith, few, small m v filled))

  compacted_ptr : free_space_ptr compacted ≡ packed_ptr m v filled
  compacted_ptr =
      read_le_ext 2 compacted (between m v filled) 22
        (λ a x y. compacted_others a (inr (omega arith)) ∙ drops.others a (inl (omega arith)))
      ∙ between_ptr m v filled

  compacted_same : (i : ℕ) → i < count → IsSame compacted dropped i i
  compacted_same i h =
      record_at_ext compacted dropped i i
        (λ k x. compacted_others (slot_at i + k) (inr (omega arith)))
        (λ a l lo hi.
          let (up, _, _) = source_slots.inside i (inl h) l in
          compacted_others a (inr (omega (arith, ptr_above m v filled))))

  compacted_sizes : sizes_from compacted 0 count + packed_ptr m v filled ≡ page_size
  unfolding sizes_from
  compacted_sizes = omega (
    arith,
    sizes_from-same compacted dropped 0 count (λ j a b. compacted_same j (omega arith)),
    drops.sizes,
    between_sizes m v filled,
    ptr_room m v filled,
  )

  compacted_records : records compacted ≡ live (records m)
  unfolding records records_from
  compacted_records = rw compacted_count (
      records_from-same compacted dropped 0 count (λ j a b. compacted_same j (omega arith))
      ∙ drops.records
      ∙ ap live (between_records m v filled))

  compacted-IsFormed : IsFormed compacted
  compacted-IsFormed = record {
    slots_fit = omega (arith, compacted_count, compacted_ptr, few, ptr_above m v filled);
    heap_fits = rw (compacted_count, compacted_ptr) (omega (arith, compacted_sizes));
    inside = λ i h l.
        let b : i < count = omega (arith, compacted_count) in
        let (o, z, _) = compacted_same i b in
        let (lo, hi, _) = source_slots.inside i (inl b) (rw o at l) in
        rw (o, z, compacted_ptr) (lo, hi);
    apart = λ i j d h k l.
        let bj : j < count = omega (arith, compacted_count) in
        let bi : i < count = omega arith in
        let (oi, zi, _) = compacted_same i bi in
        let (oj, zj, _) = compacted_same j bj in
        rw (oi, zi, oj, zj) (source_slots.apart i j d (inl bi) (inl bj) (rw oi at k) (rw oj at l));
  }

  compacted_IsFilled : IsFilled compacted
  compacted_IsFilled i h l =
      let b : i < count = omega (arith, compacted_count) in
      let (o, z, _) = compacted_same i b in
      let (_, _, p) = source_slots.inside i (inl b) (rw o at l) in rw z p

  count_live : count ≡ length (live_slots m 0 (slot_count m))
  unfolding records
  count_live =
      drops.count
      ∙ zero_add _
      ∙ ap (λ xs. length (live xs)) (between_records m v filled)
      ∙ length-live m (small m v filled) 0 (slot_count m) (omega arith)

  compacted_room : get_total_free_space m ≤ get_free_space compacted
  unfolding get_total_free_space
  compacted_room = ground (
    arith,
    v.heap_fits,
    v.slots_fit,
    get_free_space_lem compacted compacted-IsFormed,
    compacted_count,
    compacted_ptr,
    ptr_room m v filled,
    few,
    count_live,
    dead_space_lem m (small m v filled) 0 (slot_count m) (omega arith),
    live_sizes-total m (small m v filled) 0 (slot_count m) (omega arith),
  )

-- `compactify` on a well-formed page without empty records gives a well-formed page that has
-- exactly the live records, in the order of their slots, no tombstone, all of the total free space
-- in the gap, and the header's other fields as they were.
pub compactify-IsCompacted : (m : Memory) → IsFormed m → IsFilled m → IsCompacted m (compactify m)
unfolding compacted dropped count
compactify-IsCompacted m v filled =
    subst (IsCompacted m) (sym (compactify-between m v filled)) (record {
      formed = compacted-IsFormed m v filled;
      filled = compacted_IsFilled m v filled;
      all_live = λ i h e.
          let b : i < count m v filled = omega (arith, compacted_count m v filled) in
          (source_slots m v filled).kept i b (sym (compacted_same m v filled i b).0 ∙ e);
      kept = compacted_records m v filled;
      room = compacted_room m v filled;
      header = λ a h.
          compacted_others m v filled a (grind arith)
          ∙ (drops m v filled).others a (inl (grind arith))
          ∙ between_header m v filled a (grind arith);
    })
