-- ===== src/Storage/SlottedPage/Compact/Kept.antt =====
-- What the loop of `compactify` over the slots keeps between two turns, and the records of two pages that share slots.

use database_internals.Prelude.{
  ℕ, zero, suc, ◌+◌, ◌≡◌, ◌≢◌, ◌<◌, ◌≤◌, ◌⊎◌, inl, inr, ◌∙◌, ap, ap₂, refl, List, [], ◌∷◌, ◌++◌,
  arith, ◌==◌, if◌then◌else◌, Bool-cases, Option, none, some,
}
use database_internals.Memory.{Memory, write_bytes, read_bytes}
use database_internals.Memory.Laws.{write_bytes_apart, write_bytes-read_bytes, length-read_bytes}
use database_internals.Storage.SlottedPage.{
  slot_count, slot_offset, slot_size, page_size, drop_dead,
}
use database_internals.Storage.SlottedPage.Layout.{
  slot_at, get_slot-below, record_at, records_from, sizes_from,
}

-- The records that are no tombstones, in their order.
abbrev pub live {ℓ} : {A : Type ℓ} → List (Option A) → List (Option A)
live [] = []
live (none ∷ xs) = live xs
live (some x ∷ xs) = some x ∷ live xs

-- The sizes of the live records among `k` slots from slot `i` on.
unfoldable pub live_sizes : Memory → ℕ → ℕ → ℕ
live_sizes m i zero = 0
live_sizes m i (suc k) =
    (if slot_offset m (slot_at i) == 0 then 0 else slot_size m (slot_at i)) + live_sizes m (suc i) k

-- A slot that the loop has kept, or has yet to see.
abbrev pub IsActive : ℕ → ℕ → ℕ → ℕ → Type 0
IsActive w r n i = (i < w) ⊎ ((r ≤ i) × (i < n))

-- Between two turns: the slots kept so far are live, and the records of active slots lie in the
-- heap, apart.
pub record IsKept (p : Memory) (n low w r : ℕ) : Type 0 where
  pub kept : (i : ℕ) → i < w → slot_offset p (slot_at i) ≢ 0
  pub inside :
      (i : ℕ)
      → IsActive w r n i
      → slot_offset p (slot_at i) ≢ 0
      → (low ≤ slot_offset p (slot_at i))
        × (slot_offset p (slot_at i) + slot_size p (slot_at i) ≤ page_size)
        × (0 < slot_size p (slot_at i))
  pub apart :
      (i j : ℕ)
      → i < j
      → IsActive w r n i
      → IsActive w r n j
      → slot_offset p (slot_at i) ≢ 0
      → slot_offset p (slot_at j) ≢ 0
      → (slot_offset p (slot_at i) + slot_size p (slot_at i) ≤ slot_offset p (slot_at j))
        ⊎ (slot_offset p (slot_at j) + slot_size p (slot_at j) ≤ slot_offset p (slot_at i))

-- `*write_slot = *read_slot`, also where the two are the same.
pub record IsMoved (p q : Memory) (w r : ℕ) : Type 0 where
  pub slot : (j : ℕ) → j < 4 → q (slot_at w + j) ≡ p (slot_at r + j)
  pub others : (a : ℕ) → (a < slot_at w) ⊎ (slot_at w + 4 ≤ a) → q a ≡ p a

pub moved : Memory → ℕ → ℕ → Memory
moved p w r = if w == r then p else write_bytes p (slot_at w) (read_bytes p (slot_at r) 4)

pub moved-IsMoved : (p : Memory) (w r : ℕ) → IsMoved p (moved p w r) w r
unfolding moved
moved-IsMoved p w r = elim (Bool-cases (w == r)) [
  | inl e ↦
      rw e
        (record { slot = λ j h. ap (λ i. p (slot_at i + j)) (ground arith); others = λ a x. refl })
  | inr e ↦ rw e (record {
    slot = λ j h. write_bytes-read_bytes p p (slot_at w) (slot_at r) 4 j h;
    others = λ a x.
        write_bytes_apart p (slot_at w) a (read_bytes p (slot_at r) 4)
          (rw (length-read_bytes p (slot_at r) 4) x);
  })
]

-- One turn.
pub drop_dead-suc :
    (k : ℕ) (p : Memory) (r w : ℕ)
    → w ≤ r
    → r < slot_count p
    → slot_count p ≤ 1014
    → drop_dead (suc k) p r w ≡ (
        if slot_offset p (slot_at r) == 0
        then drop_dead k p (suc r) w
        else drop_dead k (moved p w r) (suc r) (suc w))
unfolding drop_dead moved
drop_dead-suc k p r w h l c =
    rw (get_slot-below p r l c, get_slot-below p w (omega arith) c)
      (elim (Bool-cases (slot_offset p (slot_at r) == 0)) [ inl e ↦ rw e refl | inr e ↦ rw e refl ])

pub records_from-end :
    (p : Memory) (i k : ℕ)
    → records_from p i (suc k) ≡ records_from p i k ++ record_at p (i + k) ∷ []
unfolding records_from
records_from-end p i zero = ap (λ j. record_at p j ∷ []) (omega arith)
records_from-end p i (suc k) = ap (◌∷◌ (record_at p i)) (
    records_from-end p (suc i) k
    ∙ ap (λ j. records_from p (suc i) k ++ record_at p j ∷ []) (omega arith))

pub size_at : (p : Memory) (i j : ℕ) → i ≡ j → slot_size p (slot_at i) ≡ slot_size p (slot_at j)
size_at p i j e = ap (λ l. slot_size p (slot_at l)) e

pub sizes_from-end :
    (p : Memory) (i k : ℕ)
    → sizes_from p i (suc k) ≡ sizes_from p i k + slot_size p (slot_at (i + k))
unfolding sizes_from
sizes_from-end p i zero = omega (arith, size_at p i (i + zero) (omega arith))
sizes_from-end p i (suc k) =
    omega (arith, sizes_from-end p (suc i) k, size_at p (suc i + k) (i + suc k) (omega arith))

-- Slot `i` of one page is slot `j` of the other, and so is its record.
abbrev pub IsSame : Memory → Memory → ℕ → ℕ → Type 0
IsSame q p i j =
    (slot_offset q (slot_at i) ≡ slot_offset p (slot_at j))
    × (slot_size q (slot_at i) ≡ slot_size p (slot_at j))
    × (record_at q i ≡ record_at p j)

pub live_sizes-same :
    (q p : Memory) (i k : ℕ)
    → ((j : ℕ) → i ≤ j → j < i + k → IsSame q p j j)
    → live_sizes q i k ≡ live_sizes p i k
unfolding live_sizes
live_sizes-same q p i zero h = refl
live_sizes-same q p i (suc k) h =
    let (o, z, x) = h i (omega arith) (omega arith) in
    ap₂ ◌+◌ (rw (o, z) refl)
      (live_sizes-same q p (suc i) k (λ j a b. h j (omega arith) (omega arith)))

pub records_from-same :
    (q p : Memory) (i k : ℕ)
    → ((j : ℕ) → i ≤ j → j < i + k → IsSame q p j j)
    → records_from q i k ≡ records_from p i k
unfolding records_from
records_from-same q p i zero h = refl
records_from-same q p i (suc k) h =
    ap₂ ◌∷◌ (h i (omega arith) (omega arith)).2
      (records_from-same q p (suc i) k (λ j a b. h j (omega arith) (omega arith)))

pub sizes_from-same :
    (q p : Memory) (i k : ℕ)
    → ((j : ℕ) → i ≤ j → j < i + k → IsSame q p j j)
    → sizes_from q i k ≡ sizes_from p i k
unfolding sizes_from
sizes_from-same q p i zero h = refl
sizes_from-same q p i (suc k) h =
    ap₂ ◌+◌ (h i (omega arith) (omega arith)).1
      (sizes_from-same q p (suc i) k (λ j a b. h j (omega arith) (omega arith)))
