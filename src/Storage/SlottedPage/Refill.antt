-- ===== src/Storage/SlottedPage/Refill.antt =====
-- A record put into a slot that the page has already.
use native.Mathlib.Decide.{ℕ_discrete}
use database_internals.Prelude.{
  ℕ, zero, suc, ◌+◌, ◌-◌, ◌%◌, ◌^◌, ◌≡◌, ◌≢◌, ◌<◌, ◌≤◌, ◌⊎◌, inl, inr, ◌∙◌, sym, ap, refl, List,
  arith, length, some, ok,
}
use database_internals.Memory.{Memory, write_bytes, write_le}
use database_internals.Memory.Laws.{
  read_bytes_ext, read_le_ext, write_bytes_apart, write_le_apart, read_le-write_le,
  read_le-write_le_apart, read_bytes-write_bytes,
}
use database_internals.Storage.SlottedPage.{
  slot_count, free_space_ptr, set_free_space_ptr, write_slot, slot_offset, slot_size, get_slot,
  push_record, fill_slot, get_free_space,
}
use database_internals.Storage.SlottedPage.Layout.{
  slot_at, IsFormed, record_at, records, records_from, get_slot-below, record_at_ext,
  record_at-live, replace_at, records_from-replace_at, sizes_from, get_free_space_lem, zero_add,
}

slot_size_at : (m : Memory) (i j : ℕ) → i ≡ j → slot_size m (slot_at i) ≡ slot_size m (slot_at j)
slot_size_at m i j e = ap (λ k. slot_size m (slot_at k)) e

sizes_from-alike :
    (m n : Memory) (i k : ℕ)
    → ((l : ℕ) → i ≤ l → l < i + k → slot_size n (slot_at l) ≡ slot_size m (slot_at l))
    → sizes_from n i k ≡ sizes_from m i k
unfolding sizes_from
sizes_from-alike m n i zero h = refl
sizes_from-alike m n i (suc k) h =
    omega (arith, h i, sizes_from-alike m n (suc i) k (λ l a b. h l (omega arith) (omega arith)))

-- The sizes of two pages that differ in one slot.
sizes_from-change :
    (m n : Memory) (i p k : ℕ)
    → i ≤ p
    → p < i + k
    → ((l : ℕ) → i ≤ l → l < i + k → l ≢ p → slot_size n (slot_at l) ≡ slot_size m (slot_at l))
    → sizes_from n i k + slot_size m (slot_at p) ≡ sizes_from m i k + slot_size n (slot_at p)
unfolding sizes_from
sizes_from-change m n i p zero a b h = absurd (omega arith)
sizes_from-change m n i p (suc k) a b h = elim (ℕ_discrete i p) [
  | yes e ↦ omega (
    arith,
    slot_size_at m i p e,
    slot_size_at n i p e,
    sizes_from-alike m n (suc i) k
        (λ l x y. h l (omega arith) (omega arith) (λ f. omega (arith, f, e))),
  )
  | no d ↦ omega (
    arith,
    h i (omega arith) (omega arith) d,
    sizes_from-change m n (suc i) p k (omega (arith, d)) (omega arith)
        (λ l x y f. h l (omega arith) (omega arith) f),
  )
]

-- The push leaves the number of slots alone.
pub push_record-count :
    (m : Memory) (bytes : List ℕ)
    → IsFormed m
    → length bytes ≤ get_free_space m
    → slot_count (push_record m bytes).0 ≡ slot_count m
unfolding push_record
push_record-count m bytes v room =
    read_le_ext 2 (write_bytes (set_free_space_ptr m offset) offset bytes) m 20 (λ a x y.
      write_bytes_apart (set_free_space_ptr m offset) offset a bytes
        (inl (omega (arith, get_free_space_lem m v, v.heap_fits)))
      ∙ write_le_apart 2 m 22 a offset (inl (omega arith)))
  where
    offset : ℕ
    offset = (free_space_ptr m + 2 ^ 16 - length bytes) % 2 ^ 16

module _ (m : Memory) (i : ℕ) (bytes : List ℕ) (v : IsFormed m) (here : i < slot_count m)
    (room : slot_at (slot_count m) + length bytes ≤ free_space_ptr m) where
  new_offset : ℕ
  new_offset = free_space_ptr m - length bytes

  pushed : Memory
  pushed = write_bytes (set_free_space_ptr m new_offset) new_offset bytes

  filled : Memory
  filled = write_slot pushed (slot_at i) new_offset (length bytes)

  offset_lem : new_offset + length bytes ≡ free_space_ptr m
  unfolding new_offset
  offset_lem = omega arith

  push_lem : push_record m bytes ≡ (pushed, new_offset)
  unfolding push_record pushed new_offset
  push_lem =
      ap (λ k. (write_bytes (set_free_space_ptr m k) k bytes, k)) (omega (arith, v.heap_fits))

  filled_apart : (a : ℕ) → (a < slot_at i) ⊎ (slot_at i + 4 ≤ a) → filled a ≡ pushed a
  unfolding filled
  filled_apart a h = ground (
    arith,
    write_le_apart 2 (write_le 2 pushed (slot_at i) new_offset) (slot_at i + 2) a (length bytes),
    write_le_apart 2 pushed (slot_at i) a new_offset,
  )

  pushed_apart :
      (a : ℕ) → (a < 22) ⊎ ((24 ≤ a) × ((a < new_offset) ⊎ (free_space_ptr m ≤ a))) → pushed a ≡ m a
  unfolding pushed
  pushed_apart a h =
      write_bytes_apart (set_free_space_ptr m new_offset) new_offset a bytes
        (grind (arith, offset_lem))
      ∙ write_le_apart 2 m 22 a new_offset (grind arith)

  other :
      (j : ℕ)
      → j < slot_count m
      → j ≢ i
      → (slot_offset filled (slot_at j) ≡ slot_offset m (slot_at j))
        × (slot_size filled (slot_at j) ≡ slot_size m (slot_at j))
        × (record_at filled j ≡ record_at m j)
  other j h d =
      record_at_ext filled m j j
        (λ k x.
          filled_apart (slot_at j + k) (grind arith)
          ∙ pushed_apart (slot_at j + k) (inr (omega arith, inl (omega (arith, offset_lem)))))
        (λ a live x y.
          let up = (v.inside j h live).0 in
          filled_apart a (inr (omega (arith, v.slots_fit)))
          ∙ pushed_apart a (inr (omega (arith, v.slots_fit), inr (omega arith))))

  filled_offset : slot_offset filled (slot_at i) ≡ new_offset
  unfolding filled
  filled_offset =
      read_le-write_le_apart 2 2 (write_le 2 pushed (slot_at i) new_offset) (slot_at i + 2)
        (slot_at i) (length bytes) (inl (omega arith))
      ∙ read_le-write_le 2 pushed (slot_at i) new_offset (omega (arith, v.heap_fits, offset_lem))

  filled_size : slot_size filled (slot_at i) ≡ length bytes
  unfolding filled
  filled_size =
      read_le-write_le 2 (write_le 2 pushed (slot_at i) new_offset) (slot_at i + 2) (length bytes)
        (omega (arith, v.heap_fits))

  filled_count : slot_count filled ≡ slot_count m
  filled_count =
      read_le_ext 2 filled m 20
        (λ a x y. filled_apart a (inl (omega arith)) ∙ pushed_apart a (inl (omega arith)))

  filled_ptr : free_space_ptr filled ≡ new_offset
  unfolding pushed
  filled_ptr =
      read_le_ext 2 filled (set_free_space_ptr m new_offset) 22 (λ a x y.
        filled_apart a (inl (omega arith))
        ∙ write_bytes_apart (set_free_space_ptr m new_offset) new_offset a bytes
            (inl (omega (arith, offset_lem))))
      ∙ read_le-write_le 2 m 22 new_offset (omega (arith, v.heap_fits, offset_lem))

  filled_record : record_at filled i ≡ some bytes
  unfolding pushed
  filled_record =
      record_at-live filled i new_offset (length bytes) filled_offset filled_size
        (omega (arith, offset_lem))
      ∙ ap some (
          read_bytes_ext filled pushed new_offset (length bytes)
            (λ a x y. filled_apart a (inr (omega (arith, offset_lem))))
          ∙ read_bytes-write_bytes (set_free_space_ptr m new_offset) new_offset bytes)

  filled-IsFormed : IsFormed filled
  filled-IsFormed = record {
    slots_fit = omega (arith, filled_count, filled_ptr, offset_lem);
    heap_fits =
        rw (filled_count, filled_ptr)
          (omega (
            arith,
            sizes_from-change m filled 0 i (slot_count m) (omega arith) (omega arith)
                (λ l a b d. (other l (omega arith) d).1),
            filled_size,
            offset_lem,
            v.heap_fits,
          ));
    inside = λ j h live. elim (ℕ_discrete j i) [
      | yes e ↦ rw e (
        omega (arith, filled_offset, filled_ptr),
        omega (arith, filled_offset, filled_size, offset_lem, v.heap_fits),
      )
      | no d ↦
          let b : j < slot_count m = omega (arith, filled_count) in
          let (o, z, _) = other j b d in
          let (lo, hi) = v.inside j b (rw o at live) in
          rw (o, z) (omega (arith, filled_ptr, offset_lem), hi)
    ];
    apart = λ j k h b p q.
        let bk : k < slot_count m = omega (arith, filled_count) in
        let bj : j < slot_count m = omega arith in
        elim (ℕ_discrete j i) [
          | yes e ↦
              let (o, z, _) = other k bk (λ f. omega (arith, e, f)) in
              let (lo, _) = v.inside k bk (rw o at q) in
              rw e (inl (omega (arith, filled_offset, filled_size, offset_lem, o)))
          | no d ↦ elim (ℕ_discrete k i) [
            | yes e ↦
                let (o, z, _) = other j bj d in
                let (lo, _) = v.inside j bj (rw o at p) in
                rw e (inr (omega (arith, filled_offset, filled_size, offset_lem, o)))
            | no f ↦
                let (oj, zj, _) = other j bj d in
                let (ok', zk, _) = other k bk f in
                rw (oj, zj, ok', zk) (v.apart j k h bk (rw oj at p) (rw ok' at q))
          ]
        ];
  }

  filled-records : records filled ≡ replace_at i (some bytes) (records m)
  unfolding records
  filled-records =
      ap (records_from filled 0) filled_count
      ∙ records_from-replace_at m filled (some bytes) 0 i (slot_count m) here
          (rw (zero_add i) filled_record) (λ l h d. rw (zero_add l) (other l h (λ e. d (sym e))).2)

-- What putting the record into slot `i` makes of the page.
pub record IsRefilled (m m' : Memory) (i : ℕ) (bytes : List ℕ) : Type 0 where
  pub formed : IsFormed m'
  pub contents : records m' ≡ replace_at i (some bytes) (records m)

-- The push and the assignment to the slot.
pub refill :
    (m : Memory) (i : ℕ) (bytes : List ℕ)
    → IsFormed m
    → i < slot_count m
    → length bytes ≤ get_free_space m
    → (m' : Memory) × (fill_slot
          (push_record m bytes).0
          (get_slot (push_record m bytes).0 i)
          (push_record m bytes).1
          (length bytes)
        ≡ ok m')
      × IsRefilled m m' i bytes
unfolding fill_slot filled
refill m i bytes v h room = (
  filled m i bytes v h room',
  rw (push_lem m i bytes v h room', found) refl,
  record {
    formed = filled-IsFormed m i bytes v h room';
    contents = filled-records m i bytes v h room';
  },
)
  where
    room' : slot_at (slot_count m) + length bytes ≤ free_space_ptr m
    room' = omega (arith, get_free_space_lem m v)

    kept : slot_count (pushed m i bytes v h room') ≡ slot_count m
    kept =
        read_le_ext 2 (pushed m i bytes v h room') m 20
          (λ a x y. pushed_apart m i bytes v h room' a (inl (omega arith)))

    found : get_slot (pushed m i bytes v h room') i ≡ some (slot_at i)
    found =
        get_slot-below (pushed m i bytes v h room') i (omega (arith, kept))
          (omega (arith, kept, v.slots_fit, v.heap_fits))
