-- ===== src/Storage/SlottedPage/Appended.antt =====
-- `insertRecord` on a page without tombstones: the record goes behind the others.
pub mod Steps
use native.Mathlib.Decide.{dec_lt, ℕ_discrete}
use database_internals.Prelude.{
  ℕ, zero, suc, ◌+◌, ◌%◌, ◌^◌, ◌≡◌, ◌≢◌, ◌<◌, ◌≤◌, ◌⊎◌, inl, inr, ◌∙◌, sym, ap, refl, List, [], ◌∷◌,
  ◌++◌, arith, ◌==◌, length, if◌then◌else◌, Bool, true, false, Option, none, some, Outcome, ok,
  aborted, ◌>>=◌, subst,
}
use database_internals.Memory.{Memory, write_bytes, read_bytes}
use database_internals.Storage.SlottedPage.{
  slot_count, slot_offset, header_size, set_slot_count, place_at, insert_record, insert_record_at,
  get_free_space, get_total_free_space, can_insert_contiguous, compactify, live_slots, get_slot,
  first_free_from, find_first_free_slot_id, push_record, open_gap, shift_slots, fill_slot,
}
use database_internals.Storage.SlottedPage.Layout.{
  IsFormed, IsFilled, records, insert_at, slot_at, get_slot-below, get_slot-past, replace_at,
  get_total_free_space-le, get_free_space_lem,
}
use database_internals.Storage.SlottedPage.Ordered.{place_at-IsPlaced}
use database_internals.Storage.SlottedPage.Compact.{IsCompacted, compactify-IsCompacted}
use database_internals.Storage.SlottedPage.Compact.Kept.{live}
use database_internals.Storage.SlottedPage.Compact.Slots.{length-live, small}
use database_internals.Storage.SlottedPage.Compact.Sort.{live_slots-suc}
use database_internals.Storage.SlottedPage.Ranked.{length-records, at_gap, at_compacted, refused}
use database_internals.Storage.SlottedPage.Refill.{IsRefilled, refill, push_record-count}
use database_internals.Storage.SlottedPage.Appended.Steps.{
  HasNoDead, first_free_from-none, put_at, put_at-fresh, insert_record-put_at, insert_record-none,
  length-live_slots, slot_count-compactify,
}

-- On a well-formed page without tombstones `insertRecord` is `insertRecordAt` behind the last slot,
-- whatever comes of it; for records of fewer than 65532 bytes.
pub insert_record-insert_record_at :
    (m : Memory) (bytes : List ℕ)
    → IsFormed m
    → IsFilled m
    → HasNoDead m
    → length bytes + 4 < 2 ^ 16
    → insert_record m bytes ≡ insert_record_at m (slot_count m) bytes
unfolding find_first_free_slot_id
insert_record-insert_record_at m bytes v f a short = elim (dec_lt 0 (length bytes)) [
  | no p ↦ none_of (inl (omega (arith, p)))
  | yes p ↦ elim (dec_lt (get_total_free_space m) (length bytes + 4)) [
    | yes t ↦ none_of (inr t)
    | no t ↦ elim (dec_lt (get_free_space m) (length bytes + 4)) [
      | no g ↦
          put p (omega (arith, t))
          ∙ ap (λ q. put_at q (slot_count m) true bytes) (fits (omega (arith, g)))
          ∙ put_at-fresh m bytes v (omega (arith, g))
          ∙ sym (
              at_gap m (slot_count m) bytes p (omega arith) short (omega (arith, t))
                (omega (arith, g)))
      | yes g ↦
          put p (omega (arith, t))
          ∙ ap (λ q. put_at q (slot_count m) true bytes) (too_long g)
          ∙ subst (λ n. put_at (compactify m) n true bytes ≡ place_at (compactify m) n bytes) count
              (put_at-fresh (compactify m) bytes c.formed (omega (arith, c.room, t)))
          ∙ ap (λ n. place_at (compactify m) n bytes) (sym live_count)
          ∙ sym (at_compacted m (slot_count m) bytes p (omega arith) short (omega (arith, t)) g)
    ]
  ]
]
  where
    c : IsCompacted m (compactify m)
    c = compactify-IsCompacted m v f

    first : find_first_free_slot_id m ≡ slot_count m
    first = first_free_from-none m 0 (slot_count m) (omega arith) (small m v f) a

    last : (slot_count m == slot_count m) ≡ true
    last = ground arith

    live_count : length (live_slots m 0 (slot_count m)) ≡ slot_count m
    live_count = length-live_slots m 0 (slot_count m) (omega arith) (small m v f) a

    count : slot_count (compactify m) ≡ slot_count m
    count = slot_count-compactify m v f ∙ live_count

    fits :
        length bytes + 4 ≤ get_free_space m
        → (if can_insert_contiguous m (length bytes) true then m else compactify m) ≡ m
    fits g = unfold can_insert_contiguous in ground arith

    too_long :
        get_free_space m < length bytes + 4
        → (if can_insert_contiguous m (length bytes) true then m else compactify m) ≡ compactify m
    too_long g = unfold can_insert_contiguous in ground arith

    put :
        0 < length bytes
        → length bytes + 4 ≤ get_total_free_space m
        → insert_record m bytes
          ≡ put_at
              (if can_insert_contiguous m (length bytes) true then m else compactify m)
              (slot_count m)
              true
              bytes
    put p t = insert_record-put_at m bytes (slot_count m) true first last p short t

    none_of :
        (length bytes ≡ 0) ⊎ (get_total_free_space m < length bytes + 4)
        → insert_record m bytes ≡ insert_record_at m (slot_count m) bytes
    none_of h =
        insert_record-none m bytes (slot_count m) true first last short h
        ∙ sym
            (refused m (slot_count m) bytes short (elim h [ inl e ↦ inl e | inr e ↦ inr (inr e) ]))

-- A record at the end of a page without tombstones that has room in the gap.
pub record IsAppended (m m' : Memory) (bytes : List ℕ) : Type 0 where
  pub formed : IsFormed m'
  pub filled : IsFilled m'
  pub no_dead : HasNoDead m'
  pub contents : records m' ≡ records m ++ some bytes ∷ []
  pub free : get_free_space m' + length bytes + 4 ≡ get_free_space m
  pub header : (a : ℕ) → (a < 20) ⊎ ((24 ≤ a) × (a < header_size)) → m' a ≡ m a

insert_at-end {ℓ} : {A : Type ℓ} (xs : List A) (x : A) → insert_at (length xs) x xs ≡ xs ++ x ∷ []
insert_at-end [] x = refl
insert_at-end (y ∷ ys) x = ap (◌∷◌ y) (insert_at-end ys x)

pub insert_record-IsAppended :
    (m : Memory) (bytes : List ℕ)
    → IsFormed m
    → IsFilled m
    → HasNoDead m
    → 0 < length bytes
    → length bytes + 4 ≤ get_free_space m
    → (m' : Memory) × (insert_record m bytes ≡ ok (some (slot_count m), m')) × IsAppended m m' bytes
insert_record-IsAppended m bytes v f a p room =
    let short : length bytes + 4 < 2 ^ 16 = omega (arith, get_free_space_lem m v, v.heap_fits) in
    let (m', e, d) = place_at-IsPlaced m (slot_count m) bytes v (omega arith) room in
    (
      m',
      insert_record-insert_record_at m bytes v f a short
          ∙ at_gap m (slot_count m) bytes p (omega arith) short
              (omega (arith, get_total_free_space-le m v)) room
          ∙ e,
      record {
        formed = d.formed;
        filled = d.filled p f;
        no_dead = d.live a;
        contents =
            d.contents
            ∙ ap (λ n. insert_at n (some bytes) (records m)) (sym (length-records m))
            ∙ insert_at-end (records m) (some bytes);
        free = d.free;
        header = d.header;
      },
    )
