-- ===== src/Storage/SlottedPage/Appended/Steps.antt =====
-- The steps of `insertRecord`: the search for a slot, the tests, and what it does with the slot.
use native.Mathlib.Decide.{ℕ_discrete}
use database_internals.Prelude.{
  ℕ, zero, suc, ◌+◌, ◌%◌, ◌^◌, ◌≡◌, ◌≢◌, ◌<◌, ◌≤◌, ◌⊎◌, ◌∙◌, sym, ap, refl, List, arith, ◌==◌,
  length, if◌then◌else◌, Bool, true, false, Option, none, some, Outcome, ok, ◌>>=◌,
}
use database_internals.Memory.{Memory, write_bytes, read_bytes}
use database_internals.Storage.SlottedPage.{
  slot_count, slot_offset, set_slot_count, place_at, insert_record, get_free_space,
  get_total_free_space, can_insert_contiguous, compactify, live_slots, get_slot, first_free_from,
  find_first_free_slot_id, push_record, open_gap, shift_slots, fill_slot,
}
use database_internals.Storage.SlottedPage.Layout.{
  IsFormed, IsFilled, records, slot_at, get_slot-below,
}
use database_internals.Storage.SlottedPage.Compact.{compactify-IsCompacted}
use database_internals.Storage.SlottedPage.Compact.Slots.{length-live, small}
use database_internals.Storage.SlottedPage.Compact.Sort.{live_slots-suc}
use database_internals.Storage.SlottedPage.Ranked.{length-records}
use database_internals.Storage.SlottedPage.Refill.{push_record-count}

-- No slot is a tombstone.
abbrev pub HasNoDead : Memory → Type 0
HasNoDead m = (i : ℕ) → i < slot_count m → slot_offset m (slot_at i) ≢ 0

-- `i` is the first tombstone.
pub record IsFirstDead (m : Memory) (i : ℕ) : Type 0 where
  pub below : i < slot_count m
  pub dead : slot_offset m (slot_at i) ≡ 0
  pub before : (j : ℕ) → j < i → slot_offset m (slot_at j) ≢ 0

pub first_free_from-none :
    (m : Memory) (i k : ℕ)
    → i + k ≤ slot_count m
    → slot_count m ≤ 1014
    → HasNoDead m
    → first_free_from m i k ≡ slot_count m
unfolding first_free_from
first_free_from-none m i zero h s a = refl
first_free_from-none m i (suc k) h s a =
    rw (get_slot-below m i (omega arith) s)
      (ground (arith, a i (omega arith), first_free_from-none m (suc i) k))

pub first_free_from-first :
    (m : Memory) (i k d : ℕ)
    → i ≤ d
    → d < i + k
    → i + k ≤ slot_count m
    → slot_count m ≤ 1014
    → IsFirstDead m d
    → first_free_from m i k ≡ d
unfolding first_free_from
first_free_from-first m i zero d a b h s f = absurd (omega arith)
first_free_from-first m i (suc k) d a b h s f = elim (ℕ_discrete i d) [
  | yes e ↦ rw (get_slot-below m i (omega arith) s) (rw e (rw f.dead refl))
  | no n ↦ rw (get_slot-below m i (omega arith) s) (
      ground (
        arith,
        f.before i (omega (arith, n)),
        first_free_from-first m (suc i) k d (omega (arith, n)) (omega arith) (omega arith) s f,
      ))
]

-- The part of `insertRecord` behind the tests and the compaction.
unfoldable pub put_at : Memory → (id : ℕ) → (fresh : Bool) → List ℕ → Outcome (Option ℕ × Memory)
put_at m id fresh bytes = do
  let pushed = push_record m bytes
  let grown =
      if fresh then set_slot_count pushed.0 ((slot_count pushed.0 + 1) % 2 ^ 16) else pushed.0
  filled ← fill_slot grown (get_slot grown id) pushed.1 (length bytes)
  ok (some id, filled)

-- A gap behind the last slot shifts nothing.
open_gap-end :
    (p : Memory) (n : ℕ)
    → slot_count p ≡ n
    → n < 2 ^ 16
    → open_gap p n ≡ set_slot_count p ((slot_count p + 1) % 2 ^ 16)
unfolding open_gap
open_gap-end p n e h =
    ap (λ q. set_slot_count q ((slot_count q + 1) % 2 ^ 16))
      (ap (shift_slots p (slot_at n)) {y = 0} (omega (arith, e)) ∙ shift_none)
  where
    shift_none : shift_slots p (slot_at n) 0 ≡ p
    shift_none = unfold shift_slots read_bytes write_bytes in refl

-- A new slot behind the others needs no shift.
pub put_at-fresh :
    (m : Memory) (bytes : List ℕ)
    → IsFormed m
    → length bytes + 4 ≤ get_free_space m
    → put_at m (slot_count m) true bytes ≡ place_at m (slot_count m) bytes
unfolding put_at place_at
put_at-fresh m bytes v room =
    ap
      (λ g. do
        filled ← fill_slot g (get_slot g (slot_count m)) (push_record m bytes).1 (length bytes)
        ok (some (slot_count m), filled))
      (sym (
        open_gap-end (push_record m bytes).0 (slot_count m)
          (push_record-count m bytes v (omega arith)) (omega (arith, v.slots_fit, v.heap_fits))))

-- What `insertRecord` needs room for.
abbrev needed : List ℕ → Bool → ℕ
needed bytes fresh = length bytes + (if fresh then 4 else 0)

pub insert_record-put_at :
    (m : Memory) (bytes : List ℕ) (id : ℕ) (fresh : Bool)
    → find_first_free_slot_id m ≡ id
    → (id == slot_count m) ≡ fresh
    → 0 < length bytes
    → length bytes + 4 < 2 ^ 16
    → needed bytes fresh ≤ get_total_free_space m
    → insert_record m bytes
      ≡ put_at
          (if can_insert_contiguous m (length bytes) fresh then m else compactify m)
          id
          fresh
          bytes
unfolding insert_record put_at
insert_record-put_at m bytes id true e f p s t = rw (e, f) (ground arith)
insert_record-put_at m bytes id false e f p s t = rw (e, f) (ground arith)

pub insert_record-none :
    (m : Memory) (bytes : List ℕ) (id : ℕ) (fresh : Bool)
    → find_first_free_slot_id m ≡ id
    → (id == slot_count m) ≡ fresh
    → length bytes + 4 < 2 ^ 16
    → (length bytes ≡ 0) ⊎ (get_total_free_space m < needed bytes fresh)
    → insert_record m bytes ≡ ok (none, m)
unfolding insert_record
insert_record-none m bytes id true e f s t = rw (e, f) (ground arith)
insert_record-none m bytes id false e f s t = rw (e, f) (ground arith)

pub length-live_slots :
    (m : Memory) (i k : ℕ)
    → i + k ≤ slot_count m
    → slot_count m ≤ 1014
    → HasNoDead m
    → length (live_slots m i k) ≡ k
unfolding live_slots
length-live_slots m i zero h s a = refl
length-live_slots m i (suc k) h s a =
    rw (live_slots-suc m s i k (omega arith))
      (ground (arith, a i (omega arith), length-live_slots m (suc i) k))

-- Compaction leaves as many slots as there were live records.
pub slot_count-compactify :
    (m : Memory)
    → IsFormed m
    → IsFilled m
    → slot_count (compactify m) ≡ length (live_slots m 0 (slot_count m))
unfolding records
slot_count-compactify m v f =
    sym (length-records (compactify m))
    ∙ ap length (compactify-IsCompacted m v f).kept
    ∙ length-live m (small m v f) 0 (slot_count m) (omega arith)
