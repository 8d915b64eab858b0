-- ===== src/Storage/SlottedPage/Compact/Slots.antt =====
-- The page between the two loops of `compactify`: the same records, packed.
use native.Mathlib.Decide.{dec_lt, ℕ_discrete}
use database_internals.Prelude.{
  ℕ, zero, suc, ◌+◌, ◌≡◌, ◌≢◌, ◌<◌, ◌≤◌, ◌⊎◌, inl, inr, ◌∙◌, sym, ap, ap₂, refl, List, ◌∷◌, arith,
  ◌==◌, length, if◌then◌else◌, Bool-cases, some,
}
use database_internals.Memory.{Memory}
use database_internals.Memory.Laws.{read_le_ext, read_le-write_le, write_le_apart}
use database_internals.Storage.SlottedPage.{
  slot_count, free_space_ptr, slot_offset, slot_size, page_size, header_size, live_slots,
  sort_slots, pack_all, set_free_space_ptr, set_slot_count, drop_dead, compactify,
}
use database_internals.Storage.SlottedPage.Layout.{
  slot_at, IsFormed, IsFilled, record_at, record_at_ext, record_at-dead, record_at-live,
  records_from, records,
}
use database_internals.Storage.SlottedPage.Compact.Pack.{ArePacked, pack_all-ArePacked}
use database_internals.Storage.SlottedPage.Compact.Below.{In, total, AreSlots, Descends}
use database_internals.Storage.SlottedPage.Compact.Sort.{
  In-sort_slots, sort_slots-In, total-sort_slots, sort_slots-AreSlots, sort_slots-Descends,
  In-live_slots, live_slots-In, live_slots-AreSlots, live_slots-suc,
}
use database_internals.Storage.SlottedPage.Compact.Kept.{live, live_sizes, IsKept, IsSame}

module _ (m : Memory) (small : slot_count m ≤ 1014) where
  pub live_sizes-total :
      (i k : ℕ) → i + k ≤ slot_count m → live_sizes m i k ≡ total m (live_slots m i k)
  unfolding live_sizes live_slots
  live_sizes-total i zero h = refl
  live_sizes-total i (suc k) h =
      rw (live_slots-suc m small i k (omega arith))
        (elim (Bool-cases (slot_offset m (slot_at i) == 0)) [
          | inl e ↦ rw e (omega (arith, live_sizes-total (suc i) k (omega arith)))
          | inr e ↦ rw e (omega (arith, live_sizes-total (suc i) k (omega arith)))
        ])

  pub length-live :
      (i k : ℕ)
      → i + k ≤ slot_count m
      → length (live (records_from m i k)) ≡ length (live_slots m i k)
  unfolding records_from live_slots
  length-live i zero h = refl
  length-live i (suc k) h =
      rw (live_slots-suc m small i k (omega arith))
        (elim (Bool-cases (slot_offset m (slot_at i) == 0)) [
          | inl e ↦ rw (record_at-dead m i (ground arith), e) (length-live (suc i) k (omega arith))
          | inr e ↦
              rw (record_at-live m i _ _ refl refl (ground arith), e)
                (ap suc (length-live (suc i) k (omega arith)))
        ])

module _ (m : Memory) (v : IsFormed m) (filled : IsFilled m) where
  pub small : slot_count m ≤ 1014
  small = omega (arith, v.slots_fit, v.heap_fits)

  sorted : List ℕ
  sorted = sort_slots m (live_slots m 0 (slot_count m))

  slots : AreSlots (slot_at (slot_count m)) sorted
  unfolding sorted
  slots =
      sort_slots-AreSlots m (slot_at (slot_count m)) (live_slots m 0 (slot_count m))
        (live_slots-AreSlots m small 0 (slot_count m) (omega arith))

  live_at :
      (s : ℕ)
      → In s (live_slots m 0 (slot_count m))
      → (j : ℕ) × (j < slot_count m) × (s ≡ slot_at j) × (slot_offset m (slot_at j) ≢ 0)
  live_at s i =
      let (j, _, hi, e, l) = In-live_slots m small 0 (slot_count m) s (omega arith) i in
      (j, omega arith, e, l)

  either_apart :
      (i j : ℕ)
      → i ≢ j
      → i < slot_count m
      → j < slot_count m
      → slot_offset m (slot_at i) ≢ 0
      → slot_offset m (slot_at j) ≢ 0
      → (slot_offset m (slot_at i) + slot_size m (slot_at i) ≤ slot_offset m (slot_at j))
        ⊎ (slot_offset m (slot_at j) + slot_size m (slot_at j) ≤ slot_offset m (slot_at i))
  either_apart i j d a b k l = elim (dec_lt i j) [
    | yes h ↦ v.apart i j h b k l
    | no h ↦ elim (v.apart j i (omega (arith, d, h)) a l k) [ inl x ↦ inr x | inr x ↦ inl x ]
  ]

  down : Descends (slot_at (slot_count m)) m sorted page_size
  unfolding sorted
  down =
      sort_slots-Descends m (slot_at (slot_count m)) page_size (live_slots m 0 (slot_count m))
        (live_slots-AreSlots m small 0 (slot_count m) (omega arith))
        (λ s i.
          let (j, b, e, l) = live_at s i in
          let (lo, hi) = v.inside j b l in rw e (omega (arith, v.slots_fit), hi, filled j b l))
        (λ s t i j d.
          let (x, a, e, k) = live_at s i in
          let (y, b, f, l) = live_at t j in
          rw (e, f) (either_apart x y (λ z. d (e ∙ ap slot_at z ∙ sym f)) a b k l))

  packed_page : Memory
  unfolding sorted
  packed_page = (pack_all sorted m page_size).0

  pub packed_ptr : ℕ
  unfolding sorted
  packed_ptr = (pack_all sorted m page_size).1

  packed : ArePacked m packed_page (slot_at (slot_count m)) sorted page_size packed_ptr
  unfolding packed_page packed_ptr
  packed =
      pack_all-ArePacked sorted m (slot_at (slot_count m)) page_size slots down
        (omega (arith, v.slots_fit, v.heap_fits)) (omega arith)

  pub ptr_above : slot_at (slot_count m) ≤ packed_ptr
  ptr_above = packed.above

  pub ptr_room : packed_ptr + live_sizes m 0 (slot_count m) ≡ page_size
  unfolding sorted
  ptr_room = omega (
    arith,
    packed.room,
    total-sort_slots m (live_slots m 0 (slot_count m)),
    live_sizes-total m small 0 (slot_count m) (omega arith),
  )

  -- The slot array and the header are as they were, but for the live slots' offsets.
  low_bytes :
      (a : ℕ)
      → a < slot_at (slot_count m)
      → ((j : ℕ)
          → j < slot_count m
          → slot_offset m (slot_at j) ≢ 0
          → (a < slot_at j) ⊎ (slot_at j + 2 ≤ a))
      → packed_page a ≡ m a
  unfolding sorted
  low_bytes a h w =
      packed.others a
        (λ s i.
          let (j, b, e, l) = live_at s (sort_slots-In m (live_slots m 0 (slot_count m)) s i) in
          rw e (w j b l))
        (inl (omega (arith, packed.above)))

  In-sorted : (i : ℕ) → i < slot_count m → slot_offset m (slot_at i) ≢ 0 → In (slot_at i) sorted
  unfolding sorted
  In-sorted i h l =
      In-sort_slots m (live_slots m 0 (slot_count m)) (slot_at i)
        (live_slots-In m small 0 (slot_count m) i (omega arith) (omega arith) (omega arith) l)

  dead_offset :
      (i : ℕ)
      → i < slot_count m
      → slot_offset m (slot_at i) ≡ 0
      → slot_offset packed_page (slot_at i) ≡ 0
  dead_offset i h e =
      read_le_ext 2 packed_page m (slot_at i) (λ a x y.
        low_bytes a (omega arith)
          (λ j b l. elim (ℕ_discrete i j) [ yes f ↦ absurd (l (rw f at e)) | no d ↦ grind arith ]))
      ∙ e

  live_offset :
      (i : ℕ)
      → i < slot_count m
      → slot_offset m (slot_at i) ≢ 0
      → 0 < slot_offset packed_page (slot_at i)
  live_offset i h l =
      let (lo, _) = packed.inside (slot_at i) (In-sorted i h l) in omega (arith, packed.above)

  packed_size :
      (i : ℕ) → i < slot_count m → slot_size packed_page (slot_at i) ≡ slot_size m (slot_at i)
  packed_size i h =
      read_le_ext 2 packed_page m (slot_at i + 2)
        (λ a x y. low_bytes a (omega arith) (λ j b l. grind arith))

  packed_record : (i : ℕ) → i < slot_count m → record_at packed_page i ≡ record_at m i
  packed_record i h = elim (ℕ_discrete (slot_offset m (slot_at i)) 0) [
    | yes e ↦ record_at-dead packed_page i (dead_offset i h e) ∙ sym (record_at-dead m i e)
    | no l ↦
        record_at-live packed_page i (slot_offset packed_page (slot_at i))
          (slot_size packed_page (slot_at i)) refl refl (live_offset i h l)
        ∙ ap some (packed.bytes (slot_at i) (In-sorted i h l))
        ∙ sym (
            record_at-live m i (slot_offset m (slot_at i)) (slot_size m (slot_at i)) refl refl
              (omega (arith, l)))
  ]

  -- The page that the second loop starts from.
  pub between : Memory
  unfolding packed_page packed_ptr
  between = set_free_space_ptr packed_page packed_ptr

  between_same : (i : ℕ) → i < slot_count m → IsSame between packed_page i i
  unfolding between
  between_same i h =
      record_at_ext between packed_page i i
        (λ k x. write_le_apart 2 packed_page 22 (slot_at i + k) packed_ptr (inr (omega arith)))
        (λ a l lo hi.
          let (up, _) = packed.inside (slot_at i) (In-sorted i h (λ e. l (dead_offset i h e))) in
          write_le_apart 2 packed_page 22 a packed_ptr (inr (omega (arith, packed.above))))

  -- A slot is live after the packing where it was live before.
  was_live :
      (i : ℕ)
      → i < slot_count m
      → slot_offset between (slot_at i) ≢ 0
      → slot_offset m (slot_at i) ≢ 0
  was_live i h l e = l ((between_same i h).0 ∙ dead_offset i h e)

  pub between-IsKept : IsKept between (slot_count m) packed_ptr 0 0
  between-IsKept = record {
    kept = λ i h. absurd (omega arith);
    inside = λ i a l.
        let h : i < slot_count m = grind arith in
        let (o, z, _) = between_same i h in
        let k = was_live i h l in
        let (lo, hi) = packed.inside (slot_at i) (In-sorted i h k) in
        rw (o, z) (lo, hi, omega (arith, packed_size i h, filled i h k));
    apart = λ i j d a b k l.
        let hi : i < slot_count m = grind arith in
        let hj : j < slot_count m = grind arith in
        let (oi, zi, _) = between_same i hi in
        let (oj, zj, _) = between_same j hj in
        rw (oi, zi, oj, zj)
          (packed.apart (slot_at i) (slot_at j) (In-sorted i hi (was_live i hi k))
            (In-sorted j hj (was_live j hj l)) (λ e. omega (arith, e)));
  }

  between-records_from :
      (i k : ℕ) → i + k ≤ slot_count m → records_from between i k ≡ records_from m i k
  unfolding records_from
  between-records_from i zero h = refl
  between-records_from i (suc k) h =
      ap₂ ◌∷◌ ((between_same i (omega arith)).2 ∙ packed_record i (omega arith))
        (between-records_from (suc i) k (omega arith))

  pub between_records : records_from between 0 (slot_count m) ≡ records m
  unfolding records
  between_records = between-records_from 0 (slot_count m) (omega arith)

  between_sizes_from : (i k : ℕ) → i + k ≤ slot_count m → live_sizes between i k ≡ live_sizes m i k
  unfolding live_sizes
  between_sizes_from i zero h = refl
  between_sizes_from i (suc k) h = ap₂ ◌+◌ here (between_sizes_from (suc i) k (omega arith))
    where
      here :
          (if slot_offset between (slot_at i) == 0 then 0 else slot_size between (slot_at i))
          ≡ (if slot_offset m (slot_at i) == 0 then 0 else slot_size m (slot_at i))
      here =
          let h' : i < slot_count m = omega arith in
          let (o, z, _) = between_same i h' in
          ground (arith, o, z, packed_size i h', dead_offset i h', live_offset i h')

  pub between_sizes : live_sizes between 0 (slot_count m) ≡ live_sizes m 0 (slot_count m)
  between_sizes = between_sizes_from 0 (slot_count m) (omega arith)

  pub between_header : (a : ℕ) → (a < 22) ⊎ ((24 ≤ a) × (a < header_size)) → between a ≡ m a
  unfolding between
  between_header a h =
      write_le_apart 2 packed_page 22 a packed_ptr (grind arith)
      ∙ low_bytes a (grind arith) (λ j b l. inl (grind arith))

  pub between_count : slot_count between ≡ slot_count m
  between_count = read_le_ext 2 between m 20 (λ a x y. between_header a (inl (omega arith)))

  pub between_ptr : free_space_ptr between ≡ packed_ptr
  unfolding between
  between_ptr = read_le-write_le 2 packed_page 22 packed_ptr (omega (arith, ptr_room))

  -- `compactify` is the second loop on this page.
  pub compactify-between :
      compactify m
      ≡ set_slot_count
          (drop_dead (slot_count m) between 0 0).0
          (drop_dead (slot_count m) between 0 0).1
  unfolding compactify between packed_page packed_ptr sorted
  compactify-between = refl
