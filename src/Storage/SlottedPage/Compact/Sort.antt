-- ===== src/Storage/SlottedPage/Compact/Sort.antt =====
-- The slots that `compactify` packs: the live ones, by descending offset.
use native.Mathlib.Decide.{ℕ_discrete}
use database_internals.Prelude.{
  ℕ, zero, suc, ◌+◌, ◌*◌, ◌≡◌, ◌≢◌, ◌<◌, ◌≤◌, ◌⊎◌, inl, inr, refl, List, [], ◌∷◌, arith, ◌==◌, ltb,
  length, if◌then◌else◌, Bool-cases, true, false,
}
use database_internals.Memory.{Memory}
use database_internals.Storage.SlottedPage.{
  slot_count, slot_offset, slot_size, live_slots, insert_slot, sort_slots, dead_space,
}
use database_internals.Storage.SlottedPage.Layout.{slot_at, get_slot-below, sizes_from}
use database_internals.Storage.SlottedPage.Compact.Below.{In, total, AreSlots, Descends}

module _ (m : Memory) where
  insert_slot-In : (s : ℕ) (ss : List ℕ) (t : ℕ) → In t (insert_slot m s ss) → (t ≡ s) ⊎ In t ss
  unfolding insert_slot
  insert_slot-In s [] t i = i
  insert_slot-In s (u ∷ us) t i = elim (Bool-cases (ltb (slot_offset m s) (slot_offset m u))) [
    | inl e ↦ behind (λ j. insert_slot-In s us t j) (rw e at i)
    | inr e ↦ rw e at i
  ]
    where
      behind :
          (In t (insert_slot m s us) → (t ≡ s) ⊎ In t us)
          → In t (u ∷ insert_slot m s us)
          → (t ≡ s) ⊎ In t (u ∷ us)
      behind deeper (inl f) = inr (inl f)
      behind deeper (inr j) = elim (deeper j) [ inl f ↦ inl f | inr k ↦ inr (inr k) ]

  In-insert_slot : (s : ℕ) (ss : List ℕ) (t : ℕ) → (t ≡ s) ⊎ In t ss → In t (insert_slot m s ss)
  unfolding insert_slot
  In-insert_slot s [] t i = i
  In-insert_slot s (u ∷ us) t i = elim (Bool-cases (ltb (slot_offset m s) (slot_offset m u))) [
    | inl e ↦ rw e (behind (λ j. In-insert_slot s us t j) i)
    | inr e ↦ rw e i
  ]
    where
      behind :
          ((t ≡ s) ⊎ In t us → In t (insert_slot m s us))
          → (t ≡ s) ⊎ In t (u ∷ us)
          → In t (u ∷ insert_slot m s us)
      behind deeper (inl f) = inr (deeper (inl f))
      behind deeper (inr (inl f)) = inl f
      behind deeper (inr (inr k)) = inr (deeper (inr k))

  insert_slot-AreSlots :
      (b s : ℕ) (ss : List ℕ) → AreSlots b (s ∷ ss) → AreSlots b (insert_slot m s ss)
  unfolding insert_slot
  insert_slot-AreSlots b s [] a = a
  insert_slot-AreSlots b s (u ∷ us) a =
      elim (Bool-cases (ltb (slot_offset m s) (slot_offset m u))) [
        | inl e ↦ rw e (
          a.3.0,
          a.3.1,
          λ t i. elim (insert_slot-In s us t i) [
            | inl f ↦ rw f (elim (a.2 u (inl refl)) [ inl x ↦ inr x | inr x ↦ inl x ])
            | inr k ↦ a.3.2 t k
          ],
          insert_slot-AreSlots b s us (a.0, a.1, λ t i. a.2 t (inr i), a.3.3),
        )
        | inr e ↦ rw e a
      ]

  -- Two records that do not overlap.
  abbrev IsApart : ℕ → ℕ → Type 0
  IsApart s t =
      (slot_offset m s + slot_size m s ≤ slot_offset m t)
      ⊎ (slot_offset m t + slot_size m t ≤ slot_offset m s)

  insert_slot-Descends :
      (b s : ℕ) (ss : List ℕ) (free : ℕ)
      → b ≤ slot_offset m s
      → slot_offset m s + slot_size m s ≤ free
      → 0 < slot_size m s
      → ((t : ℕ) → In t ss → IsApart s t)
      → Descends b m ss free
      → Descends b m (insert_slot m s ss) free
  unfolding insert_slot
  insert_slot-Descends b s [] free lo hi p a d = (lo, hi, tt)
  insert_slot-Descends b s (u ∷ us) free lo hi p a d =
      let x = a u (inl refl) in
      elim (Bool-cases (ltb (slot_offset m s) (slot_offset m u))) [
        | inl e ↦ rw e (
          d.0,
          d.1,
          insert_slot-Descends b s us (slot_offset m u) lo (ground (arith, x)) p
              (λ t i. a t (inr i)) d.2,
        )
        | inr e ↦ rw e (lo, hi, (d.0, ground (arith, x), d.2))
      ]

  total-insert_slot :
      (s : ℕ) (ss : List ℕ) → total m (insert_slot m s ss) ≡ slot_size m s + total m ss
  unfolding insert_slot
  total-insert_slot s [] = refl
  total-insert_slot s (u ∷ us) = ground (arith, total-insert_slot s us)

  pub sort_slots-In : (ss : List ℕ) (t : ℕ) → In t (sort_slots m ss) → In t ss
  unfolding sort_slots
  sort_slots-In [] t i = i
  sort_slots-In (s ∷ ss) t i = elim (insert_slot-In s (sort_slots m ss) t i) [
    | inl e ↦ inl e
    | inr j ↦ inr (sort_slots-In ss t j)
  ]

  pub In-sort_slots : (ss : List ℕ) (t : ℕ) → In t ss → In t (sort_slots m ss)
  unfolding sort_slots
  In-sort_slots (s ∷ ss) t (inl e) = In-insert_slot s (sort_slots m ss) t (inl e)
  In-sort_slots (s ∷ ss) t (inr i) =
      In-insert_slot s (sort_slots m ss) t (inr (In-sort_slots ss t i))
  In-sort_slots [] t i = elim i [ ]

  pub total-sort_slots : (ss : List ℕ) → total m (sort_slots m ss) ≡ total m ss
  unfolding sort_slots
  total-sort_slots [] = refl
  total-sort_slots (s ∷ ss) =
      omega (arith, total-insert_slot s (sort_slots m ss), total-sort_slots ss)

  pub sort_slots-AreSlots : (b : ℕ) (ss : List ℕ) → AreSlots b ss → AreSlots b (sort_slots m ss)
  unfolding sort_slots
  sort_slots-AreSlots b [] a = tt
  sort_slots-AreSlots b (s ∷ ss) a =
      insert_slot-AreSlots b s (sort_slots m ss)
        (a.0, a.1, λ t i. a.2 t (sort_slots-In ss t i), sort_slots-AreSlots b ss a.3)

  pub sort_slots-Descends :
      (b free : ℕ) (ss : List ℕ)
      → AreSlots b ss
      → ((s : ℕ)
          → In s ss
          → (b ≤ slot_offset m s) × (slot_offset m s + slot_size m s ≤ free) × (0 < slot_size m s))
      → ((s t : ℕ) → In s ss → In t ss → s ≢ t → IsApart s t)
      → Descends b m (sort_slots m ss) free
  unfolding sort_slots
  sort_slots-Descends b free [] a w x = tt
  sort_slots-Descends b free (s ∷ ss) a w x =
      let (lo, hi, p) = w s (inl refl) in
      insert_slot-Descends b s (sort_slots m ss) free lo hi p
        (λ t i.
          x s t (inl refl) (inr (sort_slots-In ss t i))
            (λ e. absurd (omega (arith, a.2 t (sort_slots-In ss t i), e))))
        (sort_slots-Descends b free ss a.3 (λ t i. w t (inr i)) (λ t u i j. x t u (inr i) (inr j)))

  -- What `live_slots` finds.
  module _ (small : slot_count m ≤ 1014) where
    pub live_slots-suc :
        (i k : ℕ)
        → i < slot_count m
        → live_slots m i (suc k) ≡ (
            if slot_offset m (slot_at i) == 0
            then live_slots m (suc i) k
            else slot_at i ∷ live_slots m (suc i) k)
    unfolding live_slots
    live_slots-suc i k h = rw (get_slot-below m i h small) refl

    pub In-live_slots :
        (i k s : ℕ)
        → i + k ≤ slot_count m
        → In s (live_slots m i k)
        → (j : ℕ) × (i ≤ j) × (j < i + k) × (s ≡ slot_at j) × (slot_offset m (slot_at j) ≢ 0)
    unfolding live_slots
    In-live_slots i zero s h x = elim x [ ]
    In-live_slots i (suc k) s h x =
        let y = rw (live_slots-suc i k (omega arith)) at x in
        elim (Bool-cases (slot_offset m (slot_at i) == 0)) [
          | inl e ↦
              let (j, lo, hi, f, l) = In-live_slots (suc i) k s (omega arith) (rw e at y) in
              (j, omega arith, omega arith, f, l)
          | inr e ↦ elim (In-head e (rw e at y)) [
            | inl f ↦ (i, omega arith, omega arith, f, λ z. ground arith)
            | inr t ↦
                let (j, lo, hi, f, l) = In-live_slots (suc i) k s (omega arith) t in
                (j, omega arith, omega arith, f, l)
          ]
        ]
      where
        In-head :
            (slot_offset m (slot_at i) == 0) ≡ false
            → In s (slot_at i ∷ live_slots m (suc i) k)
            → (s ≡ slot_at i) ⊎ In s (live_slots m (suc i) k)
        In-head e x = x

    pub live_slots-In :
        (i k j : ℕ)
        → i + k ≤ slot_count m
        → i ≤ j
        → j < i + k
        → slot_offset m (slot_at j) ≢ 0
        → In (slot_at j) (live_slots m i k)
    live_slots-In i zero j h lo hi l = absurd (omega arith)
    live_slots-In i (suc k) j h lo hi l =
        rw (live_slots-suc i k (omega arith)) (elim (Bool-cases (slot_offset m (slot_at i) == 0)) [
          | inl e ↦
              rw e
                (live_slots-In (suc i) k j (omega arith) (later (ℕ_discrete i j) e) (omega arith) l)
          | inr e ↦ rw e (elim (ℕ_discrete i j) [
            | yes f ↦ inl (omega (arith, f))
            | no f ↦
                inr (live_slots-In (suc i) k j (omega arith) (omega (arith, f)) (omega arith) l)
          ])
        ])
      where
        gone : (slot_offset m (slot_at i) == 0) ≡ true → slot_offset m (slot_at i) ≡ 0
        gone e = ground arith

        later : Dec (i ≡ j) → (slot_offset m (slot_at i) == 0) ≡ true → suc i ≤ j
        later (yes f) e = absurd (l (rw f at (gone e)))
        later (no f) e = omega (arith, f)

    pub live_slots-AreSlots :
        (i k : ℕ) → i + k ≤ slot_count m → AreSlots (slot_at (slot_count m)) (live_slots m i k)
    unfolding live_slots
    live_slots-AreSlots i zero h = tt
    live_slots-AreSlots i (suc k) h =
        rw (live_slots-suc i k (omega arith)) (elim (Bool-cases (slot_offset m (slot_at i) == 0)) [
          | inl e ↦ rw e (live_slots-AreSlots (suc i) k (omega arith))
          | inr e ↦ rw e (
            omega arith,
            omega arith,
            λ t x.
                let (j, lo, hi, f, l) = In-live_slots (suc i) k t (omega arith) x in
                inl (omega (arith, f)),
            live_slots-AreSlots (suc i) k (omega arith),
          )
        ])

    -- What the tombstones give back, and what the live records take.
    pub dead_space_lem :
        (i k : ℕ)
        → i + k ≤ slot_count m
        → dead_space m i k + total m (live_slots m i k) + 4 * length (live_slots m i k)
          ≡ sizes_from m i k + 4 * k
    unfolding dead_space sizes_from live_slots
    dead_space_lem i zero h = omega arith
    dead_space_lem i (suc k) h = ground (arith, dead_space_lem (suc i) k, get_slot-below m i)
