-- ===== src/Storage/SlottedPage/Layout.antt =====
-- What a well-formed slotted page is, and the list of records that it stands for.
use database_internals.Prelude.{
  ℕ, zero, suc, ◌+◌, ◌*◌, ◌≡◌, ◌≢◌, ◌<◌, ◌≤◌, ◌⊎◌, inl, inr, ◌∙◌, ap, ap₂, refl, List, [], ◌∷◌,
  arith, ◌==◌, if◌then◌else◌, Option, none, some, Bool-cases,
}
use database_internals.Memory.{Memory, read_bytes}
use database_internals.Memory.Laws.{read_bytes_ext, read_le_moved}
use database_internals.Storage.SlottedPage.{
  slot_count, free_space_ptr, slot_offset, slot_size, page_size, header_size, get_slot, get_record,
  span, dead_space, get_free_space, get_total_free_space,
}

abbrev pub slot_at : ℕ → ℕ
slot_at i = header_size + 4 * i

-- The sizes in `k` slots from slot `i` on, those of tombstones included.
unfoldable pub sizes_from : Memory → ℕ → ℕ → ℕ
sizes_from m i zero = 0
sizes_from m i (suc k) = slot_size m (slot_at i) + sizes_from m (suc i) k

-- The slots end before the heap, which lies in the page and has room for all sizes; live records
-- lie in the heap, apart.
pub record IsFormed (m : Memory) : Type 0 where
  pub slots_fit : header_size + 4 * slot_count m ≤ free_space_ptr m
  pub heap_fits : sizes_from m 0 (slot_count m) + free_space_ptr m ≤ page_size
  pub inside :
      (i : ℕ)
      → i < slot_count m
      → slot_offset m (slot_at i) ≢ 0
      → (free_space_ptr m ≤ slot_offset m (slot_at i))
        × (slot_offset m (slot_at i) + slot_size m (slot_at i) ≤ page_size)
  pub apart :
      (i j : ℕ)
      → i < j
      → j < slot_count m
      → slot_offset m (slot_at i) ≢ 0
      → slot_offset m (slot_at j) ≢ 0
      → (slot_offset m (slot_at i) + slot_size m (slot_at i) ≤ slot_offset m (slot_at j))
        ⊎ (slot_offset m (slot_at j) + slot_size m (slot_at j) ≤ slot_offset m (slot_at i))

-- No record is empty.
abbrev pub IsFilled : Memory → Type 0
IsFilled m =
    (i : ℕ) → i < slot_count m → slot_offset m (slot_at i) ≢ 0 → 0 < slot_size m (slot_at i)

-- The record of a slot, `none` for a tombstone.
pub record_at : Memory → ℕ → Option (List ℕ)
record_at m i =
    if slot_offset m (slot_at i) == 0
    then none
    else some (read_bytes m (slot_offset m (slot_at i)) (slot_size m (slot_at i)))

unfoldable pub records_from : Memory → ℕ → ℕ → List (Option (List ℕ))
unfolding record_at
records_from m i zero = []
records_from m i (suc k) = record_at m i ∷ records_from m (suc i) k

-- The abstract page: its records in the order of their slots.
unfoldable pub records : Memory → List (Option (List ℕ))
unfolding records_from
records m = records_from m 0 (slot_count m)

pub sizes_from-moved :
    (m n : Memory) (i j k : ℕ)
    → ((l : ℕ) → l < k → slot_size n (slot_at (i + l)) ≡ slot_size m (slot_at (j + l)))
    → sizes_from n i k ≡ sizes_from m j k
unfolding sizes_from
sizes_from-moved m n i j zero h = refl
sizes_from-moved m n i j (suc k) h =
    ap₂ ◌+◌ (grind (arith, h 0))
      (sizes_from-moved m n (suc i) (suc j) k (λ l x. grind (arith, h (suc l))))

pub sizes_from-insert_at :
    (m n : Memory) (i pos k : ℕ)
    → pos ≤ k
    → ((l : ℕ) → l < pos → slot_size n (slot_at (i + l)) ≡ slot_size m (slot_at (i + l)))
    → ((l : ℕ)
        → pos ≤ l
        → l < k
        → slot_size n (slot_at (i + l + 1)) ≡ slot_size m (slot_at (i + l)))
    → sizes_from n i (suc k) ≡ slot_size n (slot_at (i + pos)) + sizes_from m i k
unfolding sizes_from
sizes_from-insert_at m n i zero k h e g =
    ap₂ ◌+◌ (ap (λ a. slot_size n (slot_at a)) (omega arith))
      (sizes_from-moved m n (suc i) i k (λ l y. grind (arith, g l)))
sizes_from-insert_at m n i (suc pos) zero h e g = absurd (omega arith)
sizes_from-insert_at m n i (suc pos) (suc k) h e g = omega (
  arith,
  first,
  sizes_from-insert_at m n (suc i) pos k (omega arith) (λ l y. grind (arith, e (suc l)))
      (λ l y z. grind (arith, g (suc l))),
  same,
)
  where
    first : slot_size n (slot_at i) ≡ slot_size m (slot_at i)
    first = grind (arith, e 0)

    same : slot_size n (slot_at (suc i + pos)) ≡ slot_size n (slot_at (i + suc pos))
    same = ap (λ a. slot_size n (slot_at a)) (omega arith)

-- A slot within the count is found where it stands.
pub get_slot-below :
    (m : Memory) (i : ℕ) → i < slot_count m → slot_count m ≤ 1014 → get_slot m i ≡ some (slot_at i)
unfolding get_slot
get_slot-below m i h k = ground arith

pub get_slot-past : (m : Memory) (i : ℕ) → slot_count m ≤ i → get_slot m i ≡ none
unfolding get_slot
get_slot-past m i h = ground arith

-- Two pages with the same bytes in a slot and in its record have the same record there.
pub record_at_ext :
    (m n : Memory) (i j : ℕ)
    → ((k : ℕ) → k < 4 → m (slot_at i + k) ≡ n (slot_at j + k))
    → ((a : ℕ)
        → slot_offset n (slot_at j) ≢ 0
        → slot_offset n (slot_at j) ≤ a
        → a < slot_offset n (slot_at j) + slot_size n (slot_at j)
        → m a ≡ n a)
    → (slot_offset m (slot_at i) ≡ slot_offset n (slot_at j))
      × (slot_size m (slot_at i) ≡ slot_size n (slot_at j))
      × (record_at m i ≡ record_at n j)
record_at_ext m n i j s r = (same_offset, same_size, same_record)
  where
    same_offset : slot_offset m (slot_at i) ≡ slot_offset n (slot_at j)
    same_offset = read_le_moved 2 m n (slot_at i) (slot_at j) (λ k h. s k (omega arith))

    same_size : slot_size m (slot_at i) ≡ slot_size n (slot_at j)
    same_size =
        read_le_moved 2 m n (slot_at i + 2) (slot_at j + 2) (λ k h. grind (arith, s (2 + k)))

    same_record : record_at m i ≡ record_at n j
    same_record =
        unfold record_at in
        rw (same_offset, same_size)
          (elim (Bool-cases (slot_offset n (slot_at j) == 0)) [
            | inl dead ↦ rw dead refl
            | inr live ↦
                rw live (ap some (read_bytes_ext m n _ _ (λ a x y. r a (λ e. ground arith) x y)))
          ])

pub record_at-live :
    (m : Memory) (i o n : ℕ)
    → slot_offset m (slot_at i) ≡ o
    → slot_size m (slot_at i) ≡ n
    → 0 < o
    → record_at m i ≡ some (read_bytes m o n)
unfolding record_at
record_at-live m i o n e f h = rw (e, f) (ground arith)

-- The list with one more element, at a given place.
abbrev pub insert_at {ℓ} : {A : Type ℓ} → ℕ → A → List A → List A
insert_at zero x ys = x ∷ ys
insert_at (suc i) x [] = x ∷ []
insert_at (suc i) x (y ∷ ys) = y ∷ insert_at i x ys

records_from-moved :
    (m n : Memory) (i j k : ℕ)
    → ((l : ℕ) → l < k → record_at n (i + l) ≡ record_at m (j + l))
    → records_from n i k ≡ records_from m j k
unfolding records_from
records_from-moved m n i j zero h = refl
records_from-moved m n i j (suc k) h =
    ap₂ ◌∷◌ (ap (record_at n) (omega arith) ∙ h 0 (omega arith) ∙ ap (record_at m) (omega arith)) (
      records_from-moved m n (suc i) (suc j) k (λ l x.
        ap (record_at n) (omega arith) ∙ h (suc l) (omega arith) ∙ ap (record_at m) (omega arith)))

-- A page whose slots are those of another one with a record put in between.
pub records_from-insert_at :
    (m n : Memory) (x : Option (List ℕ)) (i pos k : ℕ)
    → pos ≤ k
    → ((l : ℕ) → l < pos → record_at n (i + l) ≡ record_at m (i + l))
    → record_at n (i + pos) ≡ x
    → ((l : ℕ) → pos ≤ l → l < k → record_at n (i + l + 1) ≡ record_at m (i + l))
    → records_from n i (suc k) ≡ insert_at pos x (records_from m i k)
unfolding records_from
records_from-insert_at m n x i zero k h e f g = ap₂ ◌∷◌ (ap (record_at n) (omega arith) ∙ f) (
    records_from-moved m n (suc i) i k
      (λ l y. ap (record_at n) (omega arith) ∙ g l (omega arith) y))
records_from-insert_at m n x i (suc pos) zero h e f g = absurd (omega arith)
records_from-insert_at m n x i (suc pos) (suc k) h e f g =
    ap₂ ◌∷◌ (ap (record_at n) (omega arith) ∙ e 0 (omega arith) ∙ ap (record_at m) (omega arith)) (
      records_from-insert_at m n x (suc i) pos k (omega arith)
        (λ l y.
          ap (record_at n) (omega arith) ∙ e (suc l) (omega arith) ∙ ap (record_at m) (omega arith))
        (ap (record_at n) (omega arith) ∙ f)
        (λ l y z.
          ap (record_at n) (omega arith)
          ∙ g (suc l) (omega arith) (omega arith)
          ∙ ap (record_at m) (omega arith)))

-- The tombstones give back no more than all slots take.
dead_space-le :
    (m : Memory) (i k : ℕ)
    → i + k ≤ slot_count m
    → slot_count m ≤ 1014
    → dead_space m i k ≤ sizes_from m i k + 4 * k
unfolding dead_space sizes_from
dead_space-le m i zero h c = omega arith
dead_space-le m i (suc k) h c = ground (arith, dead_space-le m (suc i) k, get_slot-below m i)

-- What a well-formed page says it has in all, and in the gap.
pub get_free_space_lem :
    (m : Memory)
    → IsFormed m
    → get_free_space m + (header_size + 4 * slot_count m) ≡ free_space_ptr m
unfolding get_free_space
get_free_space_lem m v = omega (arith, v.slots_fit, v.heap_fits)

pub get_total_free_space-le : (m : Memory) → IsFormed m → get_free_space m ≤ get_total_free_space m
unfolding get_total_free_space
get_total_free_space-le m v =
    ground
      (arith, v.slots_fit, v.heap_fits, get_free_space_lem m v, dead_space-le m 0 (slot_count m))

-- The list with another element at a given place.
abbrev pub replace_at {ℓ} : {A : Type ℓ} → ℕ → A → List A → List A
replace_at i x [] = []
replace_at zero x (y ∷ ys) = x ∷ ys
replace_at (suc i) x (y ∷ ys) = y ∷ replace_at i x ys

-- A page whose slots are those of another one, save one.
pub records_from-replace_at :
    (m n : Memory) (x : Option (List ℕ)) (i pos k : ℕ)
    → pos < k
    → record_at n (i + pos) ≡ x
    → ((l : ℕ) → l < k → pos ≢ l → record_at n (i + l) ≡ record_at m (i + l))
    → records_from n i k ≡ replace_at pos x (records_from m i k)
unfolding records_from
records_from-replace_at m n x i pos zero h f g = absurd (omega arith)
records_from-replace_at m n x i zero (suc k) h f g = ap₂ ◌∷◌ (ap (record_at n) (omega arith) ∙ f) (
    records_from-moved m n (suc i) (suc i) k (λ l y.
      ap (record_at n) (omega arith)
      ∙ g (suc l) (omega arith) (λ e. omega arith)
      ∙ ap (record_at m) (omega arith)))
records_from-replace_at m n x i (suc pos) (suc k) h f g =
    ap₂ ◌∷◌
      (ap (record_at n) (omega arith)
        ∙ g 0 (omega arith) (λ e. omega arith)
        ∙ ap (record_at m) (omega arith))
      (records_from-replace_at m n x (suc i) pos k (omega arith)
        (ap (record_at n) (omega arith) ∙ f)
        (λ l y d.
          ap (record_at n) (omega arith)
          ∙ g (suc l) (omega arith) (λ e. d (omega arith))
          ∙ ap (record_at m) (omega arith)))

pub record_at-dead : (m : Memory) (i : ℕ) → slot_offset m (slot_at i) ≡ 0 → record_at m i ≡ none
unfolding record_at
record_at-dead m i h = ground arith

pub zero_add : (l : ℕ) → 0 + l ≡ l
zero_add l = omega arith

pub get_record-past : (m : Memory) (i : ℕ) → slot_count m ≤ i → get_record m i ≡ none
unfolding get_record span
get_record-past m i h = rw (get_slot-past m i h) refl
