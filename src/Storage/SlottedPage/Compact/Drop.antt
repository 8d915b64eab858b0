-- ===== src/Storage/SlottedPage/Compact/Drop.antt =====
-- The loop of `compactify` that drops the tombstones from the slots.
use native.Mathlib.Decide.{ℕ_discrete}
use database_internals.Prelude.{
  ℕ, zero, suc, ◌+◌, ◌≡◌, ◌≢◌, ◌<◌, ◌≤◌, ◌⊎◌, inl, inr, ◌∙◌, sym, ap, ap₂, refl, [], ◌∷◌, ◌++◌,
  arith, ◌==◌, length, Bool-cases, some, append_assoc, append-nil, subst,
}
use database_internals.Memory.{Memory, read_bytes}
use database_internals.Memory.Laws.{read_le_ext}
use database_internals.Storage.SlottedPage.{
  slot_count, slot_offset, slot_size, page_size, drop_dead,
}
use database_internals.Storage.SlottedPage.Layout.{
  slot_at, record_at, record_at-dead, record_at-live, record_at_ext, records_from, sizes_from,
}
use database_internals.Storage.SlottedPage.Compact.Kept.{
  live, live_sizes, IsActive, IsKept, IsMoved, moved, moved-IsMoved, drop_dead-suc,
  records_from-end, size_at, sizes_from-end, IsSame, live_sizes-same, records_from-same,
  sizes_from-same,
}

-- A slot is kept: it takes the next place.
module _ (p q : Memory) (n low w r : ℕ) (order : w ≤ r) (below : r < n) (clear : slot_at n ≤ low)
    (v : IsKept p n low w r) (alive : slot_offset p (slot_at r) ≢ 0) (step : IsMoved p q w r) where
  same : (i : ℕ) → (i < w) ⊎ ((suc r ≤ i) × (i < n)) → IsSame q p i i
  same i a =
      record_at_ext q p i i (λ k h. step.others (slot_at i + k) (grind arith))
        (λ x l lo hi.
          let (in_heap, _, _) = v.inside i (grind arith) l in
          step.others x (inr (omega (arith, in_heap))))

  taken : IsSame q p w r
  taken = record_at_ext q p w r step.slot (λ x l lo hi.
      let (in_heap, _, _) = v.inside r (inr (omega arith)) l in
      step.others x (inr (omega (arith, in_heap))))

  -- Where the slot that is now `i` was.
  source :
      (i : ℕ)
      → IsActive (suc w) (suc r) n i
      → (j : ℕ) × ((j ≡ i) ⊎ ((i ≡ w) × (j ≡ r))) × IsActive w r n j × IsSame q p i j
  source i a = elim (ℕ_discrete i w) [
    | yes e ↦ rw e (r, inr (refl, refl), inr (omega arith, below), taken)
    | no d ↦ (i, inl refl, grind arith, same i (grind arith))
  ]

  next_IsKept : IsKept q n low (suc w) (suc r)
  next_IsKept = record {
    kept = λ i h. elim (ℕ_discrete i w) [
      | yes e ↦ rw (e, taken.0) alive
      | no d ↦ rw ((same i (inl (omega (arith, d)))).0) (v.kept i (omega (arith, d)))
    ];
    inside = λ i a l.
        let (j, which, active, (o, z, _)) = source i a in rw (o, z) (v.inside j active (rw o at l));
    apart = λ i j h a b l k.
        let (i', wi, ai, (oi, zi, _)) = source i a in
        let (j', wj, aj, (oj, zj, _)) = source j b in
        rw (oi, zi, oj, zj) (v.apart i' j' (grind arith) ai aj (rw oi at l) (rw oj at k));
  }

  next_records : records_from q 0 (suc w) ≡ records_from p 0 w ++ record_at p r ∷ []
  next_records =
      records_from-end q 0 w
      ∙ ap₂ (λ xs x. xs ++ x ∷ []) (records_from-same q p 0 w (λ j a b. same j (inl (omega arith))))
          (ap (record_at q) (omega arith) ∙ taken.2)

  next_sizes : sizes_from q 0 (suc w) ≡ sizes_from p 0 w + slot_size p (slot_at r)
  next_sizes = omega (
    arith,
    sizes_from-end q 0 w,
    sizes_from-same q p 0 w (λ j a b. same j (inl (omega arith))),
    size_at q (0 + w) w (omega arith),
    taken.1,
  )

  count_same : slot_at n ≤ page_size → slot_count q ≡ slot_count p
  count_same h = read_le_ext 2 q p 20 (λ a x y. step.others a (inl (omega arith)))

-- What the loop leaves, from any turn on.
pub record IsDropped (p q : Memory) (r w k low c : ℕ) : Type 0 where
  pub lower : w ≤ c
  pub upper : c ≤ r + k
  pub others : (a : ℕ) → (a < slot_at w) ⊎ (slot_at (r + k) ≤ a) → q a ≡ p a
  pub kept : IsKept q (r + k) low c (r + k)
  pub records : records_from q 0 c ≡ records_from p 0 w ++ live (records_from p r k)
  pub sizes : sizes_from q 0 c ≡ sizes_from p 0 w + live_sizes p r k
  pub count : c ≡ w + length (live (records_from p r k))

shifted_end : (r k : ℕ) → suc r + k ≡ r + suc k
shifted_end r k = omega arith

-- A tombstone is passed over.
skip_IsDropped :
    (p q : Memory) (r w k low c : ℕ)
    → slot_offset p (slot_at r) ≡ 0
    → IsDropped p q (suc r) w k low c
    → IsDropped p q r w (suc k) low c
unfolding records_from live_sizes
skip_IsDropped p q r w k low c e d = record {
  lower = d.lower;
  upper = omega (arith, d.upper);
  others = λ a x. d.others a (grind arith);
  kept = subst (λ n. IsKept q n low c n) (shifted_end r k) d.kept;
  records = rw (record_at-dead p r e) d.records;
  sizes = rw e (omega (arith, d.sizes));
  count = rw (record_at-dead p r e) d.count;
}

-- A live slot is kept.
keep_IsDropped :
    (p p' q : Memory) (r w k low c : ℕ)
    → w ≤ r
    → slot_at (r + suc k) ≤ low
    → IsKept p (r + suc k) low w r
    → slot_offset p (slot_at r) ≢ 0
    → IsMoved p p' w r
    → IsDropped p' q (suc r) (suc w) k low c
    → IsDropped p q r w (suc k) low c
unfolding records_from live_sizes
keep_IsDropped p p' q r w k low c h s v l step d =
    let n = r + suc k in
    let below : r < n = omega arith in
    let bytes = read_bytes p (slot_offset p (slot_at r)) (slot_size p (slot_at r)) in
    let found : record_at p r ≡ some bytes =
      record_at-live p r (slot_offset p (slot_at r)) (slot_size p (slot_at r)) refl refl
        (omega (arith, l)) in
    let later = λ (j : ℕ) (a : suc r ≤ j) (b : j < suc r + k).
      same p p' n low w r h below s v l step j (inr (a, omega arith)) in
    let rest = records_from-same p' p (suc r) k later in
    record {
      lower = omega (arith, d.lower);
      upper = omega (arith, d.upper);
      others = λ a x. d.others a (grind arith) ∙ step.others a (grind arith);
      kept = subst (λ n. IsKept q n low c n) (shifted_end r k) d.kept;
      records = rw found (
          d.records
          ∙ ap₂ (λ xs ys. xs ++ live ys)
              (next_records p p' n low w r h below s v l step
                ∙ ap (λ x. records_from p 0 w ++ x ∷ []) found)
              rest
          ∙ append_assoc (records_from p 0 w) (some bytes ∷ []) (live (records_from p (suc r) k)));
      sizes = ground (
        arith,
        d.sizes,
        next_sizes p p' n low w r h below s v l step,
        live_sizes-same p' p (suc r) k later,
      );
      count = rw found (omega (arith, d.count, ap (λ xs. length (live xs)) rest));
    }

pub drop_dead-IsDropped :
    (k : ℕ) (p : Memory) (r w low : ℕ)
    → w ≤ r
    → slot_count p ≡ r + k
    → slot_at (r + k) ≤ low
    → low ≤ page_size
    → IsKept p (r + k) low w r
    → IsDropped p (drop_dead k p r w).0 r w k low (drop_dead k p r w).1
unfolding drop_dead records_from live_sizes
drop_dead-IsDropped zero p r w low h c s f v = record {
  lower = omega arith;
  upper = omega arith;
  others = λ a x. refl;
  kept = record {
    kept = v.kept;
    inside = λ i a l. v.inside i (grind arith) l;
    apart = λ i j o a b l m. v.apart i j o (grind arith) (grind arith) l m;
  };
  records = sym (append-nil (records_from p 0 w));
  sizes = omega arith;
  count = omega arith;
}
drop_dead-IsDropped (suc k) p r w low h c s f v =
    let p' = moved p w r in
    let step = moved-IsMoved p w r in
    rw (drop_dead-suc k p r w h (omega arith) (omega arith))
      (elim (Bool-cases (slot_offset p (slot_at r) == 0)) [
        | inl e ↦ rw e (
            skip_IsDropped p (drop_dead k p (suc r) w).0 r w k low (drop_dead k p (suc r) w).1
              (ground arith)
              (drop_dead-IsDropped k p (suc r) w low (omega arith) (omega arith) (omega arith) f
                (subst (λ n. IsKept p n low w (suc r)) (sym (shifted_end r k)) (skipped v))))
        | inr e ↦ rw e (
            let l : slot_offset p (slot_at r) ≢ 0 = λ z. ground arith in
            let below : r < r + suc k = omega arith in
            keep_IsDropped p p' (drop_dead k p' (suc r) (suc w)).0 r w k low
              (drop_dead k p' (suc r) (suc w)).1 h s v l step
              (drop_dead-IsDropped k p' (suc r) (suc w) low (omega arith)
                (count_same p p' (r + suc k) low w r h below s v l step (omega arith)
                  ∙ c
                  ∙ sym (shifted_end r k))
                (omega arith) f
                (subst (λ n. IsKept p' n low (suc w) (suc r)) (sym (shifted_end r k))
                  (next_IsKept p p' (r + suc k) low w r h below s v l step))))
      ])
  where
    skipped : IsKept p (r + suc k) low w r → IsKept p (r + suc k) low w (suc r)
    skipped v = record {
      kept = v.kept;
      inside = λ i a l. v.inside i (grind arith) l;
      apart = λ i j o a b l m. v.apart i j o (grind arith) (grind arith) l m;
    }
