-- ===== src/Storage/SlottedPage/Reused.antt =====
-- `insertRecord` on a page with tombstones: the first one is given to the record.
use native.Mathlib.Decide.{dec_lt}
use database_internals.Prelude.{
  ℕ, ◌+◌, ◌^◌, ◌≡◌, ◌<◌, ◌≤◌, ◌⊎◌, inl, inr, ◌∙◌, sym, ap, refl, List, arith, ◌==◌, length,
  if◌then◌else◌, false, none, some, ok, aborted,
}
use database_internals.Memory.{Memory}
use database_internals.Storage.SlottedPage.{
  slot_count, insert_record, get_free_space, get_total_free_space, can_insert_contiguous,
  compactify, find_first_free_slot_id, push_record, fill_slot,
}
use database_internals.Storage.SlottedPage.Layout.{
  IsFormed, IsFilled, records, get_slot-past, replace_at,
}
use database_internals.Storage.SlottedPage.Compact.{IsCompacted, compactify-IsCompacted}
use database_internals.Storage.SlottedPage.Compact.Kept.{live}
use database_internals.Storage.SlottedPage.Compact.Slots.{small}
use database_internals.Storage.SlottedPage.Ranked.{length-records}
use database_internals.Storage.SlottedPage.Refill.{IsRefilled, refill, push_record-count}
use database_internals.Storage.SlottedPage.Appended.Steps.{
  IsFirstDead, first_free_from-first, put_at, insert_record-put_at, insert_record-none,
}

-- A slot that is there is filled.
put_at-refill :
    (m : Memory) (id : ℕ) (bytes : List ℕ)
    → IsFormed m
    → id < slot_count m
    → length bytes ≤ get_free_space m
    → (m' : Memory) × (put_at m id false bytes ≡ ok (some id, m')) × IsRefilled m m' id bytes
unfolding put_at
put_at-refill m id bytes v h room =
    let (m', e, r) = refill m id bytes v h room in (m', rw e refl, r)

-- A slot past the others is not.
put_at-past :
    (m : Memory) (id : ℕ) (bytes : List ℕ)
    → IsFormed m
    → slot_count m ≤ id
    → length bytes ≤ get_free_space m
    → put_at m id false bytes ≡ aborted
unfolding put_at fill_slot
put_at-past m id bytes v h room =
    rw (get_slot-past (push_record m bytes).0 id (omega (arith, push_record-count m bytes v room)))
      refl

-- `insertRecord` of a record of fewer than 65532 bytes on a well-formed page whose first tombstone
-- is at `id`. Without room, even with the tombstones, it refuses and changes nothing. Where the
-- record fits in the gap, it takes the tombstone's place and every other record stays. Otherwise
-- the page is compacted, and the slot that then has the number `id` is given the record: if more
-- than `id` records are live, a live record is lost, and if not, the process ends.
pub insert_record-IsRefilled :
    (m : Memory) (id : ℕ) (bytes : List ℕ)
    → IsFormed m
    → IsFilled m
    → IsFirstDead m id
    → 0 < length bytes
    → length bytes + 4 < 2 ^ 16
    → ((get_total_free_space m < length bytes) × (insert_record m bytes ≡ ok (none, m)))
      ⊎ ((length bytes ≤ get_free_space m)
          × ((m' : Memory) × (insert_record m bytes ≡ ok (some id, m')) × IsRefilled m m' id bytes))
      ⊎ ((get_free_space m < length bytes)
          × (length bytes ≤ get_total_free_space m)
          × (id < length (live (records m)))
          × ((m' : Memory) × (insert_record m bytes ≡ ok (some id, m'))
              × IsFormed m'
              × (records m' ≡ replace_at id (some bytes) (live (records m)))))
      ⊎ ((get_free_space m < length bytes)
          × (length bytes ≤ get_total_free_space m)
          × (length (live (records m)) ≤ id)
          × (insert_record m bytes ≡ aborted))
unfolding find_first_free_slot_id
insert_record-IsRefilled m id bytes v f d p short =
    elim (dec_lt (get_total_free_space m) (length bytes)) [
      | yes t ↦
          inl (t, insert_record-none m bytes id false first old short (inr (omega (arith, t))))
      | no t ↦ elim (dec_lt (get_free_space m) (length bytes)) [
        | no g ↦ inr (inl (omega (arith, g), in_gap (omega (arith, t)) (omega (arith, g))))
        | yes g ↦ elim (dec_lt id (length (live (records m)))) [
          | yes h ↦ inr (inr (inl (g, omega (arith, t), h, over (omega (arith, t)) g h)))
          | no h ↦ inr (
              inr (
                inr (
                  g,
                  omega (arith, t),
                  omega (arith, h),
                  past (omega (arith, t)) g (omega (arith, h)),
                )))
        ]
      ]
    ]
  where
    c : IsCompacted m (compactify m)
    c = compactify-IsCompacted m v f

    first : find_first_free_slot_id m ≡ id
    first =
        first_free_from-first m 0 (slot_count m) id (omega arith) (omega (arith, d.below))
          (omega arith) (small m v f) d

    old : (id == slot_count m) ≡ false
    old = ground (arith, d.below)

    count : slot_count (compactify m) ≡ length (live (records m))
    count = sym (length-records (compactify m)) ∙ ap length c.kept

    put :
        length bytes ≤ get_total_free_space m
        → insert_record m bytes
          ≡ put_at
              (if can_insert_contiguous m (length bytes) false then m else compactify m)
              id
              false
              bytes
    put t = insert_record-put_at m bytes id false first old p short (omega (arith, t))

    too_long :
        get_free_space m < length bytes
        → (if can_insert_contiguous m (length bytes) false then m else compactify m) ≡ compactify m
    too_long g = unfold can_insert_contiguous in ground arith

    fits :
        length bytes ≤ get_free_space m
        → (if can_insert_contiguous m (length bytes) false then m else compactify m) ≡ m
    fits g = unfold can_insert_contiguous in ground arith

    in_gap :
        length bytes ≤ get_total_free_space m
        → length bytes ≤ get_free_space m
        → (m' : Memory) × (insert_record m bytes ≡ ok (some id, m')) × IsRefilled m m' id bytes
    in_gap t g =
        let (m', e, r) = put_at-refill m id bytes v d.below g in
        (m', put t ∙ ap (λ q. put_at q id false bytes) (fits g) ∙ e, r)

    over :
        length bytes ≤ get_total_free_space m
        → get_free_space m < length bytes
        → id < length (live (records m))
        → (m' : Memory) × (insert_record m bytes ≡ ok (some id, m'))
          × IsFormed m'
          × (records m' ≡ replace_at id (some bytes) (live (records m)))
    over t g h =
        let (m', e, r) =
          put_at-refill (compactify m) id bytes c.formed (omega (arith, count, h))
            (omega (arith, c.room)) in
        (
          m',
          put t ∙ ap (λ q. put_at q id false bytes) (too_long g) ∙ e,
          r.formed,
          r.contents ∙ ap (replace_at id (some bytes)) c.kept,
        )

    past :
        length bytes ≤ get_total_free_space m
        → get_free_space m < length bytes
        → length (live (records m)) ≤ id
        → insert_record m bytes ≡ aborted
    past t g h =
        put t
        ∙ ap (λ q. put_at q id false bytes) (too_long g)
        ∙ put_at-past (compactify m) id bytes c.formed (omega (arith, count, h))
            (omega (arith, c.room))
