-- ===== src/Storage/SlottedPage/Fetched.antt =====
-- `getRecord` against the list of a page's records.
use native.Mathlib.Decide.{dec_lt}
use database_internals.Prelude.{
  ℕ, zero, suc, ◌+◌, ◌≡◌, ◌≢◌, ◌<◌, ◌≤◌, ◌⊎◌, inl, inr, ◌∙◌, sym, ap, refl, List, [], ◌∷◌, arith,
  ◌==◌, Option, none, some, Bool-cases,
}
use database_internals.Memory.{Memory, read_bytes}
use database_internals.Storage.SlottedPage.{slot_count, slot_offset, get_record, span}
use database_internals.Storage.SlottedPage.Layout.{
  slot_at, IsFormed, record_at, records, records_from, get_slot-below, get_slot-past,
  record_at-live, record_at-dead, zero_add,
}

pub same_or_not : (i j : ℕ) → (i ≡ j) ⊎ (i ≢ j)
same_or_not i j = elim (Bool-cases (i == j)) [
  | inl e ↦ inl (ground arith)
  | inr d ↦ inr (λ e. ground arith)
]

-- The bytes that a caller of `getRecord` sees.
abbrev pub fetched : Memory → Option (ℕ × ℕ) → Option (List ℕ)
fetched m none = none
fetched m (some (o, n)) = some (read_bytes m o n)

abbrev pub entry : List (Option (List ℕ)) → ℕ → Option (List ℕ)
entry [] i = none
entry (r ∷ rs) zero = r
entry (r ∷ rs) (suc i) = entry rs i

entry-records_from :
    (m : Memory) (j k i : ℕ) → i < k → entry (records_from m j k) i ≡ record_at m (j + i)
unfolding records_from
entry-records_from m j zero i h = absurd (omega arith)
entry-records_from m j (suc k) zero h = ap (record_at m) (omega arith)
entry-records_from m j (suc k) (suc i) h =
    entry-records_from m (suc j) k i (omega arith) ∙ ap (record_at m) (omega arith)

entry-past : (m : Memory) (j k i : ℕ) → k ≤ i → entry (records_from m j k) i ≡ none
unfolding records_from
entry-past m j zero i h = refl
entry-past m j (suc k) zero h = absurd (omega arith)
entry-past m j (suc k) (suc i) h = entry-past m (suc j) k i (omega arith)

-- On a well-formed page `getRecord` gives the record that the page's list has at the slot, and
-- nothing for a tombstone or past the slots.
pub get_record-records :
    (m : Memory) (i : ℕ) → IsFormed m → fetched m (get_record m i) ≡ entry (records m) i
unfolding get_record span records
get_record-records m i v = elim (dec_lt i (slot_count m)) [
  | no past ↦
      ap (λ s. fetched m (span m s)) (get_slot-past m i (omega arith))
      ∙ sym (entry-past m 0 (slot_count m) i (omega arith))
  | yes h ↦
      ap (λ s. fetched m (span m s))
        (get_slot-below m i h (omega (arith, v.slots_fit, v.heap_fits)))
      ∙ seen
      ∙ ap (record_at m) (sym (zero_add i))
      ∙ sym (entry-records_from m 0 (slot_count m) i h)
]
  where
    seen : fetched m (span m (some (slot_at i))) ≡ record_at m i
    seen = elim (Bool-cases (slot_offset m (slot_at i) == 0)) [
      | inl dead ↦ rw dead refl ∙ sym (record_at-dead m i (ground arith))
      | inr live ↦ rw live refl ∙ sym (record_at-live m i _ _ refl refl (grind arith))
    ]
