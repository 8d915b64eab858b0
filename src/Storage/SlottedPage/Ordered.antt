-- ===== src/Storage/SlottedPage/Ordered.antt =====
-- `insertRecordAt` where the record fits in the gap, against insertion into a list.

use native.Mathlib.Decide.{dec_lt}
use database_internals.Prelude.{
  ℕ, suc, ◌+◌, ◌-◌, ◌*◌, ◌%◌, ◌^◌, ◌≡◌, ◌≢◌, ◌<◌, ◌≤◌, ◌⊎◌, inl, inr, ◌∙◌, sym, ap, refl, List,
  arith, length, Option, some, Outcome, ok, ◌>>=◌,
}
use database_internals.Memory.{Memory, write_bytes, read_bytes, write_le}
use database_internals.Memory.Laws.{
  read_bytes_ext, read_le_ext, write_bytes_apart, write_le_apart, length-read_bytes,
  write_bytes-read_bytes, read_le-write_le, read_le-write_le_apart, read_bytes-write_bytes,
}
use database_internals.Storage.SlottedPage.{
  slot_count, free_space_ptr, set_slot_count, set_free_space_ptr, write_slot, slot_offset,
  slot_size, page_size, header_size, get_slot, shift_slots, push_record, fill_slot, open_gap,
  place_at, insert_record_at, get_free_space, can_insert_contiguous,
}
use database_internals.Storage.SlottedPage.Layout.{
  slot_at, IsFormed, IsFilled, record_at, records, records_from, get_slot-below, record_at_ext,
  record_at-live, insert_at, records_from-insert_at, sizes_from, sizes_from-insert_at,
  get_free_space_lem, get_total_free_space-le, zero_add,
}

module _ (m : Memory) (pos : ℕ) (bytes : List ℕ) (v : IsFormed m) (within : pos ≤ slot_count m)
    (room : slot_at (slot_count m) + 4 + length bytes ≤ free_space_ptr m) where
  new_offset : ℕ
  new_offset = free_space_ptr m - length bytes

  -- The page after each of the five steps of an insertion.
  pushed : Memory
  pushed = write_bytes (set_free_space_ptr m new_offset) new_offset bytes

  shifted : Memory
  shifted = shift_slots pushed (slot_at pos) (slot_count m - pos)

  grown : Memory
  grown = set_slot_count shifted (slot_count m + 1)

  placed : Memory
  placed = write_slot grown (slot_at pos) new_offset (length bytes)

  pushed_apart :
      (a : ℕ) → (a < 22) ⊎ ((24 ≤ a) × ((a < new_offset) ⊎ (free_space_ptr m ≤ a))) → pushed a ≡ m a
  unfolding pushed new_offset
  pushed_apart a h = ground (
    arith,
    v.heap_fits,
    write_bytes_apart (set_free_space_ptr m (free_space_ptr m - length bytes))
        (free_space_ptr m - length bytes) a bytes,
    write_le_apart 2 m 22 a (free_space_ptr m - length bytes),
  )

  shifted_apart :
      (a : ℕ) → (a < slot_at pos + 4) ⊎ (slot_at (slot_count m) + 4 ≤ a) → shifted a ≡ pushed a
  unfolding shifted shift_slots
  shifted_apart a h =
      write_bytes_apart pushed (slot_at pos + 4) a _
        (rw (length-read_bytes pushed (slot_at pos) (4 * (slot_count m - pos))) (grind arith))

  grown_apart : (a : ℕ) → (a < 20) ⊎ (22 ≤ a) → grown a ≡ shifted a
  unfolding grown
  grown_apart a h = write_le_apart 2 shifted 20 a (slot_count m + 1) h

  placed_apart : (a : ℕ) → (a < slot_at pos) ⊎ (slot_at pos + 4 ≤ a) → placed a ≡ grown a
  unfolding placed
  placed_apart a h = ground (
    arith,
    write_le_apart 2 (write_le 2 grown (slot_at pos) new_offset) (slot_at pos + 2) a (length bytes),
    write_le_apart 2 grown (slot_at pos) a new_offset,
  )

  below : (a : ℕ) → (a < 20) ⊎ ((24 ≤ a) × (a < slot_at pos)) → placed a ≡ m a
  unfolding new_offset
  below a h =
      placed_apart a (grind arith)
      ∙ grown_apart a (grind arith)
      ∙ shifted_apart a (grind arith)
      ∙ pushed_apart a (grind arith)

  moved :
      (j : ℕ) → j < 4 * (slot_count m - pos) → placed (slot_at pos + 4 + j) ≡ m (slot_at pos + j)
  unfolding shifted shift_slots new_offset
  moved j h =
      placed_apart (slot_at pos + 4 + j) (inr (omega arith))
      ∙ grown_apart (slot_at pos + 4 + j) (inr (omega arith))
      ∙ write_bytes-read_bytes pushed pushed (slot_at pos + 4) (slot_at pos)
          (4 * (slot_count m - pos)) j h
      ∙ pushed_apart (slot_at pos + j) (inr (omega arith, inl (omega arith)))

  heap : (a : ℕ) → free_space_ptr m ≤ a → placed a ≡ m a
  unfolding new_offset
  heap a h =
      placed_apart a (inr (omega arith))
      ∙ grown_apart a (inr (omega arith))
      ∙ shifted_apart a (inr (omega arith))
      ∙ pushed_apart a (inr (omega arith, inr h))

  in_heap : (a : ℕ) → slot_at (slot_count m) + 4 ≤ a → placed a ≡ pushed a
  in_heap a h =
      placed_apart a (inr (omega arith))
      ∙ grown_apart a (inr (omega arith))
      ∙ shifted_apart a (inr h)

  new_record : read_bytes placed new_offset (length bytes) ≡ bytes
  unfolding pushed new_offset
  new_record =
      read_bytes_ext placed pushed new_offset (length bytes) (λ a x y. in_heap a (omega arith))
      ∙ read_bytes-write_bytes (set_free_space_ptr m new_offset) new_offset bytes

  new_count : slot_count placed ≡ slot_count m + 1
  unfolding grown
  new_count =
      read_le_ext 2 placed grown 20 (λ a x y. placed_apart a (inl (omega arith)))
      ∙ read_le-write_le 2 shifted 20 (slot_count m + 1) (omega (arith, v.slots_fit, v.heap_fits))

  new_free : free_space_ptr placed ≡ new_offset
  unfolding pushed new_offset
  new_free =
      read_le_ext 2 placed pushed 22 (λ a x y.
        placed_apart a (inl (omega arith))
        ∙ grown_apart a (inr (omega arith))
        ∙ shifted_apart a (inl (omega arith)))
      ∙ read_le_ext 2 pushed (set_free_space_ptr m new_offset) 22 (λ a x y.
        write_bytes_apart (set_free_space_ptr m new_offset) new_offset a bytes (inl (omega arith)))
      ∙ read_le-write_le 2 m 22 new_offset (omega (arith, v.heap_fits))

  new_slot_offset : slot_offset placed (slot_at pos) ≡ new_offset
  unfolding placed new_offset
  new_slot_offset =
      read_le-write_le_apart 2 2 (write_le 2 grown (slot_at pos) new_offset) (slot_at pos + 2)
        (slot_at pos) (length bytes) (inl (omega arith))
      ∙ read_le-write_le 2 grown (slot_at pos) new_offset (omega (arith, v.heap_fits))

  new_slot_size : slot_size placed (slot_at pos) ≡ length bytes
  unfolding placed
  new_slot_size =
      read_le-write_le 2 (write_le 2 grown (slot_at pos) new_offset) (slot_at pos + 2)
        (length bytes) (omega (arith, v.heap_fits))

  pushed_count : slot_count pushed ≡ slot_count m
  pushed_count = read_le_ext 2 pushed m 20 (λ a x y. pushed_apart a (inl (omega arith)))

  shifted_count : slot_count shifted ≡ slot_count m
  shifted_count =
      read_le_ext 2 shifted pushed 20 (λ a x y. shifted_apart a (inl (omega arith))) ∙ pushed_count

  grown_count : slot_count grown ≡ slot_count m + 1
  grown_count =
      read_le_ext 2 grown placed 20 (λ a x y. sym (placed_apart a (inl (omega arith)))) ∙ new_count

  push_record_lem : push_record m bytes ≡ (pushed, new_offset)
  unfolding push_record pushed new_offset
  push_record_lem =
      ap (λ k. (write_bytes (set_free_space_ptr m k) k bytes, k)) (omega (arith, v.heap_fits))

  open_gap_lem : open_gap pushed pos ≡ grown
  unfolding open_gap shifted
  open_gap_lem = rw (pushed_count, gap) grown_lem
    where
      gap : (slot_count m + 2 ^ 16 - pos) % 2 ^ 16 ≡ slot_count m - pos
      gap = omega (arith, v.slots_fit, v.heap_fits)

      grown_lem :
          set_slot_count
            (shift_slots pushed (slot_at pos) (slot_count m - pos))
            ((slot_count (shift_slots pushed (slot_at pos) (slot_count m - pos)) + 1) % 2 ^ 16)
          ≡ grown
      grown_lem =
          unfold grown in
          ap (λ k. set_slot_count shifted k)
            (ap (λ k. (k + 1) % 2 ^ 16) shifted_count ∙ omega (arith, v.slots_fit, v.heap_fits))

  filled : Memory → ℕ → Outcome (Option ℕ × Memory)
  unfolding fill_slot
  filled g offset = do r ← fill_slot g (get_slot g pos) offset (length bytes); ok (some pos, r)

  -- The code's own steps are these.
  place_at_lem : place_at m pos bytes ≡ ok (some pos, placed)
  unfolding place_at filled placed
  place_at_lem =
      ap (λ (r : Memory × ℕ). filled (open_gap r.0 pos) r.1) push_record_lem
      ∙ ap (λ g. filled g new_offset) open_gap_lem
      ∙ rw
          (get_slot-below grown pos (omega (arith, grown_count))
            (omega (arith, grown_count, v.slots_fit, v.heap_fits)))
          refl

  new_offset_lem : new_offset + length bytes ≡ free_space_ptr m
  unfolding new_offset
  new_offset_lem = omega arith

  -- Which old slot a slot of the new page shows.
  earlier :
      (i : ℕ)
      → i < pos
      → (slot_offset placed (slot_at i) ≡ slot_offset m (slot_at i))
        × (slot_size placed (slot_at i) ≡ slot_size m (slot_at i))
        × (record_at placed i ≡ record_at m i)
  earlier i h =
      record_at_ext placed m i i (λ k x. below (slot_at i + k) (inr (omega arith, omega arith)))
        (λ a live x y. heap a (omega (arith, (v.inside i (omega arith) live).0)))

  later :
      (i : ℕ)
      → pos ≤ i
      → i < slot_count m
      → (slot_offset placed (slot_at (i + 1)) ≡ slot_offset m (slot_at i))
        × (slot_size placed (slot_at (i + 1)) ≡ slot_size m (slot_at i))
        × (record_at placed (i + 1) ≡ record_at m i)
  later i h k =
      record_at_ext placed m (i + 1) i
        (λ j x.
          ap placed (omega arith) ∙ moved (4 * (i - pos) + j) (omega arith) ∙ ap m (omega arith))
        (λ a live x y. heap a (omega (arith, (v.inside i k live).0)))

  new_at : record_at placed pos ≡ some bytes
  new_at =
      record_at-live placed pos new_offset (length bytes) new_slot_offset new_slot_size
        (omega (arith, new_offset_lem))
      ∙ ap some new_record

  -- A slot of the new page is the new one, or an old one, in the old order.
  data Origin (i : ℕ) : Type 0 where
    fresh : i ≡ pos → Origin i
    kept :
        (k : ℕ)
        → k < slot_count m
        → (slot_offset placed (slot_at i) ≡ slot_offset m (slot_at k))
        → (slot_size placed (slot_at i) ≡ slot_size m (slot_at k))
        → ((i < pos) × (k ≡ i)) ⊎ ((pos < i) × (i ≡ k + 1))
        → Origin i

  origin : (i : ℕ) → i < slot_count placed → Origin i
  origin i h = elim (dec_lt i pos) [
    | yes low ↦ let e = earlier i low in kept i (omega arith) e.0 e.1 (inl (low, refl))
    | no rest ↦ elim (dec_lt pos i) [
      | no same ↦ fresh (omega arith)
      | yes high ↦
          let e = later (i - 1) (omega arith) (omega (arith, new_count)) in
          kept (i - 1) (omega (arith, new_count))
            (ap (λ k. slot_offset placed (slot_at k)) (omega arith) ∙ e.0)
            (ap (λ k. slot_size placed (slot_at k)) (omega arith) ∙ e.1) (inr (high, omega arith))
    ]
  ]

  new_sizes : sizes_from placed 0 (slot_count placed) ≡ length bytes + sizes_from m 0 (slot_count m)
  new_sizes =
      ap (sizes_from placed 0) (new_count ∙ omega arith)
      ∙ sizes_from-insert_at m placed 0 pos (slot_count m) within
          (λ l h. rw (zero_add l) (earlier l h).1) (λ l h k. rw (zero_add l) (later l h k).1)
      ∙ ap (λ k. slot_size placed (slot_at k) + sizes_from m 0 (slot_count m)) (zero_add pos)
      ∙ ap (λ k. k + sizes_from m 0 (slot_count m)) new_slot_size

  placed-IsFormed : IsFormed placed
  placed-IsFormed = record {
    slots_fit = omega (arith, new_count, new_free, new_offset_lem);
    heap_fits = omega (arith, new_sizes, new_free, v.heap_fits, new_offset_lem);
    inside = λ i h live. inside i live (origin i h);
    apart = λ i j h k p q. apart i j h p q (origin i (omega arith)) (origin j k);
  }
    where
      inside :
          (i : ℕ)
          → slot_offset placed (slot_at i) ≢ 0
          → Origin i
          → (free_space_ptr placed ≤ slot_offset placed (slot_at i))
            × (slot_offset placed (slot_at i) + slot_size placed (slot_at i) ≤ page_size)
      inside i live (fresh e) =
          grind (arith, e, new_slot_offset, new_slot_size, new_free, new_offset_lem, v.heap_fits)
      inside i live (kept k b eo es o) =
          grind (arith, eo, es, new_free, new_offset_lem, v.inside k b)

      apart :
          (i j : ℕ)
          → i < j
          → slot_offset placed (slot_at i) ≢ 0
          → slot_offset placed (slot_at j) ≢ 0
          → Origin i
          → Origin j
          → (slot_offset placed (slot_at i) + slot_size placed (slot_at i)
              ≤ slot_offset placed (slot_at j))
            ⊎ (slot_offset placed (slot_at j) + slot_size placed (slot_at j)
                ≤ slot_offset placed (slot_at i))
      apart i j h p q (fresh e) (fresh f) = absurd (omega arith)
      apart i j h p q (fresh e) (kept k b eo es o) =
          grind (arith, e, new_slot_offset, new_slot_size, eo, es, new_offset_lem, v.inside k b)
      apart i j h p q (kept k b eo es o) (fresh e) =
          grind (arith, e, new_slot_offset, new_slot_size, eo, es, new_offset_lem, v.inside k b)
      apart i j h p q (kept k b eo es o) (kept l c fo fs u) =
          grind (arith, eo, es, fo, fs, v.apart k l)

  placed-records : records placed ≡ insert_at pos (some bytes) (records m)
  unfolding records
  placed-records =
      ap (records_from placed 0) {y = suc (slot_count m)} (new_count ∙ omega arith)
      ∙ records_from-insert_at m placed (some bytes) 0 pos (slot_count m) within
          (λ l h. rw (zero_add l) (earlier l h).2) (rw (zero_add pos) new_at)
          (λ l h k. rw (zero_add l) (later l h k).2)

  placed-IsFilled : 0 < length bytes → IsFilled m → IsFilled placed
  placed-IsFilled p f i h live = full (origin i h)
    where
      full : Origin i → 0 < slot_size placed (slot_at i)
      full (fresh e) = rw (e, new_slot_size) p
      full (kept k b eo es o) = rw es (f k b (rw eo at live))

  placed_live :
      ((j : ℕ) → j < slot_count m → slot_offset m (slot_at j) ≢ 0)
      → (i : ℕ) → i < slot_count placed
      → slot_offset placed (slot_at i) ≢ 0
  placed_live a i h e = alive (origin i h)
    where
      alive : Origin i → ⊥
      alive (fresh f) =
          omega
            (arith, new_slot_offset, new_offset_lem, ap (λ k. slot_offset placed (slot_at k)) f, e)
      alive (kept k b eo es o) = a k b (sym eo ∙ e)

  placed_free : get_free_space placed + length bytes + 4 ≡ get_free_space m
  placed_free = omega (
    arith,
    get_free_space_lem placed placed-IsFormed,
    get_free_space_lem m v,
    new_count,
    new_free,
    new_offset_lem,
  )

-- What an insertion at a slot makes of a page with enough room in the gap.
pub record IsPlaced (m m' : Memory) (pos : ℕ) (bytes : List ℕ) : Type 0 where
  pub formed : IsFormed m'
  pub filled : 0 < length bytes → IsFilled m → IsFilled m'
  pub live :
      ((j : ℕ) → j < slot_count m → slot_offset m (slot_at j) ≢ 0)
      → (i : ℕ) → i < slot_count m'
      → slot_offset m' (slot_at i) ≢ 0
  pub contents : records m' ≡ insert_at pos (some bytes) (records m)
  pub count : slot_count m' ≡ slot_count m + 1
  pub free : get_free_space m' + length bytes + 4 ≡ get_free_space m
  pub header : (a : ℕ) → (a < 20) ⊎ ((24 ≤ a) × (a < header_size)) → m' a ≡ m a

pub place_at-IsPlaced :
    (m : Memory) (pos : ℕ) (bytes : List ℕ)
    → IsFormed m
    → pos ≤ slot_count m
    → length bytes + 4 ≤ get_free_space m
    → (m' : Memory) × (place_at m pos bytes ≡ ok (some pos, m')) × IsPlaced m m' pos bytes
place_at-IsPlaced m pos bytes v within room = (
  placed m pos bytes v within room',
  place_at_lem m pos bytes v within room',
  record {
    formed = placed-IsFormed m pos bytes v within room';
    filled = placed-IsFilled m pos bytes v within room';
    live = placed_live m pos bytes v within room';
    contents = placed-records m pos bytes v within room';
    count = new_count m pos bytes v within room';
    free = placed_free m pos bytes v within room';
    header = λ a h. below m pos bytes v within room' a (grind arith);
  },
)
  where
    room' : slot_at (slot_count m) + 4 + length bytes ≤ free_space_ptr m
    room' = omega (arith, get_free_space_lem m v)

-- A record of at least one byte that fits in the gap together with a slot, at a position up to the
-- slot count: `insertRecordAt` returns that position, keeps the page well-formed, and inserts the
-- record into the page's list of records there.
insert_record_at-IsFormed :
    (m : Memory) (pos : ℕ) (bytes : List ℕ)
    → IsFormed m
    → pos ≤ slot_count m
    → 0 < length bytes
    → length bytes + 4 ≤ get_free_space m
    → (m' : Memory) × (insert_record_at m pos bytes ≡ ok (some pos, m'))
      × IsFormed m'
      × (records m' ≡ insert_at pos (some bytes) (records m))
unfolding insert_record_at can_insert_contiguous
insert_record_at-IsFormed m pos bytes v within some_bytes room = (
  placed m pos bytes v within room',
  returns,
  placed-IsFormed m pos bytes v within room',
  placed-records m pos bytes v within room',
)
  where
    room' : slot_at (slot_count m) + 4 + length bytes ≤ free_space_ptr m
    room' = omega (arith, get_free_space_lem m v)

    returns : insert_record_at m pos bytes ≡ ok (some pos, placed m pos bytes v within room')
    returns = ground (
      arith,
      place_at_lem m pos bytes v within room',
      get_total_free_space-le m v,
      get_free_space_lem m v,
      v.heap_fits,
    )
