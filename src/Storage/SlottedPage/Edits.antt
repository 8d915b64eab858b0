-- ===== src/Storage/SlottedPage/Edits.antt =====
-- `deleteRecord` and `updateRecord` on the records of a page.
use native.Mathlib.Decide.{dec_lt}
use database_internals.Prelude.{
  ℕ, ◌+◌, ◌≡◌, ◌≢◌, ◌<◌, ◌≤◌, ◌⊎◌, inl, inr, ◌∙◌, ap, refl, List, arith, length, ◌==◌, true, false,
  none, some, Bool-cases,
}
use database_internals.Memory.{Memory, write_bytes, read_bytes, write_le}
use database_internals.Memory.Laws.{
  read_le_ext, write_bytes_apart, write_le_apart, read_le-write_le, read_bytes-write_bytes,
}
use database_internals.Storage.SlottedPage.{
  slot_count, free_space_ptr, slot_offset, slot_size, header_size, delete_record, bury,
  update_record, overwrite,
}
use database_internals.Storage.SlottedPage.Layout.{
  slot_at, IsFormed, IsFilled, record_at, records, records_from, get_slot-below, get_slot-past,
  record_at_ext, record_at-live, sizes_from, sizes_from-moved, replace_at, records_from-replace_at,
  record_at-dead, zero_add,
}
use database_internals.Storage.SlottedPage.Fetched.{same_or_not}

module _ (m : Memory) (i : ℕ) (v : IsFormed m) (h : i < slot_count m) where
  buried : Memory
  buried = write_le 2 m (slot_at i) 0

  buried_apart : (a : ℕ) → (a < slot_at i) ⊎ (slot_at i + 2 ≤ a) → buried a ≡ m a
  unfolding buried
  buried_apart a k = write_le_apart 2 m (slot_at i) a 0 k

  buried_count : slot_count buried ≡ slot_count m
  buried_count = read_le_ext 2 buried m 20 (λ a x y. buried_apart a (inl (omega arith)))

  buried_free : free_space_ptr buried ≡ free_space_ptr m
  buried_free = read_le_ext 2 buried m 22 (λ a x y. buried_apart a (inl (omega arith)))

  buried_offset : slot_offset buried (slot_at i) ≡ 0
  unfolding buried
  buried_offset = read_le-write_le 2 m (slot_at i) 0 (omega arith)

  buried_size : (j : ℕ) → slot_size buried (slot_at j) ≡ slot_size m (slot_at j)
  buried_size j = read_le_ext 2 buried m (slot_at j + 2) (λ a x y. buried_apart a (grind arith))

  buried_other :
      (j : ℕ)
      → i ≢ j
      → j < slot_count m
      → (slot_offset buried (slot_at j) ≡ slot_offset m (slot_at j))
        × (slot_size buried (slot_at j) ≡ slot_size m (slot_at j))
        × (record_at buried j ≡ record_at m j)
  buried_other j d k =
      record_at_ext buried m j j (λ l x. buried_apart (slot_at j + l) (grind arith))
        (λ a live x y. buried_apart a (inr (omega (arith, v.slots_fit, (v.inside j k live).0))))

  buried-IsFormed : IsFormed buried
  buried-IsFormed = record {
    slots_fit = omega (arith, buried_count, buried_free, v.slots_fit);
    heap_fits = omega (
      arith,
      buried_free,
      v.heap_fits,
      ap (sizes_from buried 0) buried_count
          ∙ sizes_from-moved m buried 0 0 (slot_count m) (λ l x. buried_size (0 + l)),
    );
    inside = λ j k live. elim (same_or_not i j) [
      | inl e ↦ absurd (grind (arith, e, buried_offset))
      | inr d ↦
          let o = buried_other j d (omega (arith, buried_count)) in
          grind (arith, o.0, o.1, buried_free, v.inside j (omega (arith, buried_count)))
    ];
    apart = λ j k a b p q. elim (same_or_not i j) [
      | inl e ↦ absurd (grind (arith, e, buried_offset))
      | inr d ↦ elim (same_or_not i k) [
        | inl e ↦ absurd (grind (arith, e, buried_offset))
        | inr f ↦
            let o = buried_other j d (omega (arith, buried_count)) in
            let u = buried_other k f (omega (arith, buried_count)) in
            rw (o.0, o.1, u.0, u.1)
              (v.apart j k a (omega (arith, buried_count)) (λ e. p (o.0 ∙ e)) (λ e. q (u.0 ∙ e)))
      ]
    ];
  }

  buried-records : records buried ≡ replace_at i none (records m)
  unfolding records
  buried-records =
      ap (records_from buried 0) buried_count
      ∙ records_from-replace_at m buried none 0 i (slot_count m) h
          (rw (zero_add i) (record_at-dead buried i buried_offset))
          (λ l x d. rw (zero_add l) (buried_other l d x).2)

module _ (m : Memory) (i : ℕ) (bytes : List ℕ) (v : IsFormed m) (h : i < slot_count m)
    (live : slot_offset m (slot_at i) ≢ 0) (fits : slot_size m (slot_at i) ≡ length bytes) where
  updated : Memory
  updated = write_bytes m (slot_offset m (slot_at i)) bytes

  updated_apart :
      (a : ℕ)
      → (a < slot_offset m (slot_at i)) ⊎ (slot_offset m (slot_at i) + slot_size m (slot_at i) ≤ a)
      → updated a ≡ m a
  unfolding updated
  updated_apart a k = write_bytes_apart m (slot_offset m (slot_at i)) a bytes (rw fits at k)

  updated_below : (a : ℕ) → a < free_space_ptr m → updated a ≡ m a
  updated_below a k = updated_apart a (inl (omega (arith, (v.inside i h live).0)))

  updated_count : slot_count updated ≡ slot_count m
  updated_count = read_le_ext 2 updated m 20 (λ a x y. updated_below a (omega (arith, v.slots_fit)))

  updated_free : free_space_ptr updated ≡ free_space_ptr m
  updated_free = read_le_ext 2 updated m 22 (λ a x y. updated_below a (omega (arith, v.slots_fit)))

  updated_offset :
      (j : ℕ) → j < slot_count m → slot_offset updated (slot_at j) ≡ slot_offset m (slot_at j)
  updated_offset j k =
      read_le_ext 2 updated m (slot_at j) (λ a x y. updated_below a (omega (arith, v.slots_fit)))

  updated_size :
      (j : ℕ) → j < slot_count m → slot_size updated (slot_at j) ≡ slot_size m (slot_at j)
  updated_size j k =
      read_le_ext 2 updated m (slot_at j + 2)
        (λ a x y. updated_below a (omega (arith, v.slots_fit)))

  updated_other : (j : ℕ) → i ≢ j → j < slot_count m → record_at updated j ≡ record_at m j
  updated_other j d k =
      (record_at_ext updated m j j
        (λ l x. updated_below (slot_at j + l) (omega (arith, v.slots_fit)))
        (λ a alive x y. updated_apart a (grind (arith, v.apart i j, v.apart j i)))).2

  updated_same : record_at updated i ≡ some bytes
  updated_same =
      record_at-live updated i (slot_offset m (slot_at i)) (length bytes) (updated_offset i h)
        (updated_size i h ∙ fits) (omega (arith, v.slots_fit, (v.inside i h live).0))
      ∙ ap some (unfold updated in read_bytes-write_bytes m (slot_offset m (slot_at i)) bytes)

  updated-IsFormed : IsFormed updated
  updated-IsFormed = record {
    slots_fit = omega (arith, updated_count, updated_free, v.slots_fit);
    heap_fits = omega (
      arith,
      updated_free,
      v.heap_fits,
      ap (sizes_from updated 0) updated_count
          ∙ sizes_from-moved m updated 0 0 (slot_count m)
              (λ l x. updated_size (0 + l) (omega arith)),
    );
    inside = λ j k alive.
        grind (arith, updated_count, updated_free, updated_offset j, updated_size j, v.inside j);
    apart = λ j k a b p q. grind (
      arith,
      updated_count,
      updated_offset j,
      updated_size j,
      updated_offset k,
      updated_size k,
      v.apart j k,
    );
  }

  updated-records : records updated ≡ replace_at i (some bytes) (records m)
  unfolding records
  updated-records =
      ap (records_from updated 0) updated_count
      ∙ records_from-replace_at m updated (some bytes) 0 i (slot_count m) h
          (rw (zero_add i) updated_same) (λ l x d. rw (zero_add l) (updated_other l d x))

count_fits : (m : Memory) → IsFormed m → slot_count m ≤ 1014
count_fits m v = omega (arith, v.slots_fit, v.heap_fits)

-- `deleteRecord` of a live record returns true, keeps the page well-formed, and leaves a tombstone
-- in its place and every other record as it was; of a tombstone, or past the slots, it returns
-- false and changes nothing.
pub delete_record-IsFormed :
    (m : Memory) (i : ℕ)
    → IsFormed m
    → (((slot_count m ≤ i) ⊎ (slot_offset m (slot_at i) ≡ 0)) × (delete_record m i ≡ (false, m)))
      ⊎ ((m' : Memory) × (delete_record m i ≡ (true, m'))
          × IsFormed m'
          × (records m' ≡ replace_at i none (records m)))
unfolding delete_record bury buried
delete_record-IsFormed m i v = elim (dec_lt i (slot_count m)) [
  | no past ↦ inl (inl (omega arith), ap (bury m) (get_slot-past m i (omega arith)))
  | yes h ↦ elim (Bool-cases (slot_offset m (slot_at i) == 0)) [
    | inl dead ↦
        inl (inr (ground arith), ap (bury m) (get_slot-below m i h (count_fits m v)) ∙ rw dead refl)
    | inr alive ↦ inr (
      buried m i v h,
      ap (bury m) (get_slot-below m i h (count_fits m v)) ∙ rw alive refl,
      buried-IsFormed m i v h,
      buried-records m i v h,
    )
  ]
]

-- The same for a live record, with what becomes of the rest of the page.
pub record IsBuried (m m' : Memory) (i : ℕ) : Type 0 where
  pub formed : IsFormed m'
  pub filled : IsFilled m → IsFilled m'
  pub contents : records m' ≡ replace_at i none (records m)
  pub count : slot_count m' ≡ slot_count m
  pub header : (a : ℕ) → a < header_size → m' a ≡ m a

pub delete_record-IsBuried :
    (m : Memory) (i : ℕ)
    → IsFormed m
    → i < slot_count m
    → slot_offset m (slot_at i) ≢ 0
    → (m' : Memory) × (delete_record m i ≡ (true, m')) × IsBuried m m' i
unfolding delete_record bury
delete_record-IsBuried m i v h live = (
  buried m i v h,
  ap (bury m) (get_slot-below m i h (count_fits m v)) ∙ unfold buried in ground arith,
  record {
    formed = buried-IsFormed m i v h;
    filled = λ f j b l.
        let b' : j < slot_count m = omega (arith, buried_count m i v h) in
        elim (same_or_not i j) [
          | inl e ↦ absurd (l (rw (← e) (buried_offset m i v h)))
          | inr d ↦ let (o, z, _) = buried_other m i v h j d b' in rw z (f j b' (rw o at l))
        ];
    contents = buried-records m i v h;
    count = buried_count m i v h;
    header = λ a x. buried_apart m i v h a (inl (omega arith));
  },
)

-- `updateRecord` with a record of the same length, at a live slot, returns true, keeps the page
-- well-formed, and replaces that record alone.
pub update_record-IsFormed :
    (m : Memory) (i : ℕ) (bytes : List ℕ)
    → IsFormed m
    → i < slot_count m
    → slot_offset m (slot_at i) ≢ 0
    → slot_size m (slot_at i) ≡ length bytes
    → (m' : Memory) × (update_record m i bytes ≡ (true, m'))
      × IsFormed m'
      × (records m' ≡ replace_at i (some bytes) (records m))
unfolding update_record overwrite
update_record-IsFormed m i bytes v h live fits = (
  updated m i bytes v h live fits,
  ap (overwrite m bytes) (get_slot-below m i h (count_fits m v)) ∙ unfold updated in ground arith,
  updated-IsFormed m i bytes v h live fits,
  updated-records m i bytes v h live fits,
)

-- `updateRecord` at a tombstone, with the length of the record that was there, returns true and has
-- written the bytes over the page's header, from its first byte on.
pub update_record-tombstone :
    (m : Memory) (i : ℕ) (bytes : List ℕ)
    → IsFormed m
    → i < slot_count m
    → slot_offset m (slot_at i) ≡ 0
    → slot_size m (slot_at i) ≡ length bytes
    → let (done, m') = update_record m i bytes in
      (done ≡ true) × (read_bytes m' 0 (length bytes) ≡ bytes)
unfolding update_record
update_record-tombstone m i bytes v h dead fits = rw over (refl, read_bytes-write_bytes m 0 bytes)
  where
    over : update_record m i bytes ≡ (true, write_bytes m 0 bytes)
    over =
        ap (overwrite m bytes) (get_slot-below m i h (count_fits m v))
        ∙ unfold overwrite in ground arith
