-- ===== src/Storage/SlottedPage/Compact/Below.antt =====
-- Lists of slots whose records lie one below the other.
use database_internals.Prelude.{ℕ, ◌+◌, ◌≡◌, ◌≤◌, ◌⊎◌, inl, inr, ap₂, refl, List, [], ◌∷◌, arith}
use database_internals.Memory.{Memory}
use database_internals.Storage.SlottedPage.{slot_offset, slot_size}

abbrev pub In : ℕ → List ℕ → Type 0
In s [] = ⊥
In s (t ∷ ts) = (s ≡ t) ⊎ In s ts

-- The sizes of the records of these slots.
abbrev pub total : Memory → List ℕ → ℕ
total m [] = 0
total m (s ∷ ss) = slot_size m s + total m ss

-- The slots stand apart, in front of the address `b`.
abbrev pub AreSlots : ℕ → List ℕ → Type 0
AreSlots b [] = Unit
AreSlots b (s ∷ ss) =
    (24 ≤ s) × (s + 4 ≤ b) × ((t : ℕ) → In t ss → (s + 4 ≤ t) ⊎ (t + 4 ≤ s)) × AreSlots b ss

-- The records of the slots lie one below the other, under `free` and from `b` on.
abbrev pub Descends : ℕ → Memory → List ℕ → ℕ → Type 0
Descends b m [] free = Unit
Descends b m (s ∷ ss) free =
    (b ≤ slot_offset m s)
    × (slot_offset m s + slot_size m s ≤ free)
    × Descends b m ss (slot_offset m s)

pub In-AreSlots : (b s : ℕ) (ss : List ℕ) → AreSlots b ss → In s ss → (24 ≤ s) × (s + 4 ≤ b)
In-AreSlots b s [] a i = elim i [ ]
In-AreSlots b s (t ∷ ts) a (inl e) = rw e (a.0, a.1)
In-AreSlots b s (t ∷ ts) a (inr i) = In-AreSlots b s ts a.3 i

pub In-Descends :
    (b : ℕ) (m : Memory) (s : ℕ) (ss : List ℕ) (free : ℕ)
    → Descends b m ss free
    → In s ss
    → (b ≤ slot_offset m s) × (slot_offset m s + slot_size m s ≤ free)
In-Descends b m s [] free d i = elim i [ ]
In-Descends b m s (t ∷ ts) free d (inl e) = rw e (d.0, d.1)
In-Descends b m s (t ∷ ts) free d (inr i) =
    let (x, y) = In-Descends b m s ts (slot_offset m t) d.2 i in (x, omega (arith, d.1))

-- The same slots and records, seen in another memory, with more room above.
pub Descends-kept :
    (b : ℕ) (m n : Memory) (ss : List ℕ) (free free' : ℕ)
    → free ≤ free'
    → ((s : ℕ) → In s ss → (slot_offset n s ≡ slot_offset m s) × (slot_size n s ≡ slot_size m s))
    → Descends b m ss free
    → Descends b n ss free'
Descends-kept b m n [] free free' w k d = tt
Descends-kept b m n (s ∷ ss) free free' w k d =
    let (o, z) = k s (inl refl) in
    (
      omega (arith, o, d.0),
      omega (arith, o, z, d.1),
      Descends-kept b m n ss (slot_offset m s) (slot_offset n s) (omega (arith, o))
          (λ t i. k t (inr i)) d.2,
    )

pub total-kept :
    (m n : Memory) (ss : List ℕ)
    → ((s : ℕ) → In s ss → slot_size n s ≡ slot_size m s)
    → total n ss ≡ total m ss
total-kept m n [] k = refl
total-kept m n (s ∷ ss) k = ap₂ ◌+◌ (k s (inl refl)) (total-kept m n ss (λ t i. k t (inr i)))
