-- ===== src/Storage/SlottedPage/Tests.antt =====
-- Slotted pages at concrete bytes.
use database_internals.Prelude.{
  ℕ, List, zero, suc, ◌+◌, ◌≡◌, ◌≢◌, ◌<◌, ◌≤◌, ◌⊎◌, refl, [], ◌∷◌, arith, true, false, none, some,
  ok, length, aborted,
}
use database_internals.Memory.{Memory, write_bytes, read_bytes, write_le, read_le, to_le}
use database_internals.Storage.SlottedPage.{
  slot_count, free_space_ptr, slot_offset, slot_size, page_size, insert_record_at, delete_record,
  update_record, get_free_space, get_total_free_space, insert_record, compactify,
}
use database_internals.Storage.SlottedPage.Layout.{
  slot_at, IsFormed, records, sizes_from, replace_at, IsFilled,
}
use database_internals.Storage.SlottedPage.Compact.{IsCompacted, compactify-IsCompacted}
use database_internals.Storage.SlottedPage.Compact.Kept.{live}
use database_internals.Storage.SlottedPage.Ranked.{IsRanked, insert_record_at-IsRanked}
use database_internals.Storage.SlottedPage.Refill.{IsRefilled}
use database_internals.Storage.SlottedPage.Appended.{insert_record-insert_record_at}
use database_internals.Storage.SlottedPage.Reused.{insert_record-IsRefilled}
use database_internals.Storage.SlottedPage.Appended.Steps.{IsFirstDead}
use database_internals.Storage.SlottedPage.Edits.{
  delete_record-IsFormed, update_record-IsFormed, update_record-tombstone,
}

abbrev zeros : Memory
zeros a = 0

-- A page with a record of three bytes in slot 0, and a tombstone of three bytes in slot 1.
page : Memory
page =
    write_bytes
      (write_bytes (write_le 2 (write_le 2 zeros 20 2) 22 4090) 40
        (0xfd ∷ 0x0f ∷ 3 ∷ 0 ∷ 0 ∷ 0 ∷ 3 ∷ []))
      4093 (7 ∷ 8 ∷ 9 ∷ [])

page_count : slot_count page ≡ 2
unfolding page write_le write_bytes to_le read_le read_bytes
page_count = refl

page_free : free_space_ptr page ≡ 4090
unfolding page write_le write_bytes to_le read_le read_bytes
page_free = refl

offset_0 : slot_offset page (slot_at 0) ≡ 4093
unfolding page write_le write_bytes to_le read_le read_bytes
offset_0 = refl

size_0 : slot_size page (slot_at 0) ≡ 3
unfolding page write_le write_bytes to_le read_le read_bytes
size_0 = refl

offset_1 : slot_offset page (slot_at 1) ≡ 0
unfolding page write_le write_bytes to_le read_le read_bytes
offset_1 = refl

size_1 : slot_size page (slot_at 1) ≡ 3
unfolding page write_le write_bytes to_le read_le read_bytes
size_1 = refl

page_sizes : sizes_from page 0 (slot_count page) ≡ 6
unfolding page write_le write_bytes to_le read_le read_bytes sizes_from
page_sizes = refl

page-IsFormed : IsFormed page
page-IsFormed = record {
  slots_fit = omega (arith, page_count, page_free);
  heap_fits = omega (arith, page_sizes, page_free);
  inside = inside;
  apart = λ i j h k p q. absurd (apart i j h (omega (arith, page_count)) q);
}
  where
    inside :
        (i : ℕ)
        → i < slot_count page
        → slot_offset page (slot_at i) ≢ 0
        → (free_space_ptr page ≤ slot_offset page (slot_at i))
          × (slot_offset page (slot_at i) + slot_size page (slot_at i) ≤ page_size)
    inside zero h live = (omega (arith, page_free, offset_0), omega (arith, offset_0, size_0))
    inside (suc zero) h live = absurd (live offset_1)
    inside (suc (suc i)) h live = absurd (omega (arith, page_count))

    apart : (i j : ℕ) → i < j → j < 2 → slot_offset page (slot_at j) ≢ 0 → ⊥
    apart i zero h k q = omega arith
    apart i (suc zero) h k q = q offset_1
    apart i (suc (suc j)) h k q = omega arith

page-IsFilled : IsFilled page
page-IsFilled zero h live = omega (arith, size_0)
page-IsFilled (suc zero) h live = omega (arith, size_1)
page-IsFilled (suc (suc i)) h live = absurd (omega (arith, page_count, h))

page-IsFirstDead : IsFirstDead page 1
page-IsFirstDead = record {
  below = omega (arith, page_count);
  dead = offset_1;
  before = λ j h e. absurd (first j h e);
}
  where
    first : (j : ℕ) → j < 1 → slot_offset page (slot_at j) ≢ 0
    first zero h e = omega (arith, offset_0, e)
    first (suc j) h e = omega arith

abbrev added : List ℕ
added = 5 ∷ 6 ∷ []

-- The page without its tombstone.
compactify-IsCompacted_example : IsCompacted page (compactify page)
compactify-IsCompacted_example = compactify-IsCompacted page page-IsFormed page-IsFilled

-- A record goes in before the other two slots.
insert_record_at-IsRanked_example :
    (((length added ≡ 0) ⊎ (slot_count page < 0) ⊎ (get_total_free_space page < length added + 4))
      × (insert_record_at page 0 added ≡ ok (none, page)))
    ⊎ ((0 < length added)
        × (0 ≤ slot_count page)
        × (length added + 4 ≤ get_total_free_space page)
        × ((slot : ℕ) × (m' : Memory) × (insert_record_at page 0 added ≡ ok (some slot, m'))
            × IsRanked page m' 0 slot added))
insert_record_at-IsRanked_example =
    insert_record_at-IsRanked page 0 added page-IsFormed page-IsFilled (omega arith)

compacted : IsCompacted page (compactify page)
compacted = compactify-IsCompacted page page-IsFormed page-IsFilled

insert_record-insert_record_at_example :
    insert_record (compactify page) added
    ≡ insert_record_at (compactify page) (slot_count (compactify page)) added
insert_record-insert_record_at_example =
    insert_record-insert_record_at (compactify page) added compacted.formed compacted.filled
      compacted.all_live (omega arith)

-- A record of two bytes, with a tombstone in slot 1.
insert_record-IsRefilled_example :
    ((get_total_free_space page < length added) × (insert_record page added ≡ ok (none, page)))
    ⊎ ((length added ≤ get_free_space page)
        × ((m' : Memory) × (insert_record page added ≡ ok (some 1, m'))
            × IsRefilled page m' 1 added))
    ⊎ ((get_free_space page < length added)
        × (length added ≤ get_total_free_space page)
        × (1 < length (live (records page)))
        × ((m' : Memory) × (insert_record page added ≡ ok (some 1, m'))
            × IsFormed m'
            × (records m' ≡ replace_at 1 (some added) (live (records page)))))
    ⊎ ((get_free_space page < length added)
        × (length added ≤ get_total_free_space page)
        × (length (live (records page)) ≤ 1)
        × (insert_record page added ≡ aborted))
insert_record-IsRefilled_example =
    insert_record-IsRefilled page 1 added page-IsFormed page-IsFilled page-IsFirstDead (omega arith)
      (omega arith)

delete_record-IsFormed_example :
    (((slot_count page ≤ 0) ⊎ (slot_offset page (slot_at 0) ≡ 0))
      × (delete_record page 0 ≡ (false, page)))
    ⊎ ((m' : Memory) × (delete_record page 0 ≡ (true, m'))
        × IsFormed m'
        × (records m' ≡ replace_at 0 none (records page)))
delete_record-IsFormed_example = delete_record-IsFormed page 0 page-IsFormed

update_record-IsFormed_example :
    (m' : Memory) × (update_record page 0 (1 ∷ 2 ∷ 3 ∷ []) ≡ (true, m'))
    × IsFormed m'
    × (records m' ≡ replace_at 0 (some (1 ∷ 2 ∷ 3 ∷ [])) (records page))
update_record-IsFormed_example =
    update_record-IsFormed page 0 (1 ∷ 2 ∷ 3 ∷ []) page-IsFormed (omega (arith, page_count))
      (λ e. omega (arith, e, offset_0)) size_0

update_record-tombstone_example :
    let (done, m') = update_record page 1 (1 ∷ 2 ∷ 3 ∷ []) in
    (done ≡ true) × (read_bytes m' 0 3 ≡ 1 ∷ 2 ∷ 3 ∷ [])
update_record-tombstone_example =
    update_record-tombstone page 1 (1 ∷ 2 ∷ 3 ∷ []) page-IsFormed (omega (arith, page_count))
      offset_1 size_1
