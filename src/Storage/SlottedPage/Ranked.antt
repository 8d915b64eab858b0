-- ===== src/Storage/SlottedPage/Ranked.antt =====
-- `insertRecordAt` on every branch, against insertion into the list of the live records.
use native.Mathlib.Decide.{dec_lt, ℕ_discrete}
use database_internals.Prelude.{
  ℕ, zero, suc, ◌+◌, ◌^◌, ◌≡◌, ◌<◌, ◌≤◌, ◌⊎◌, inl, inr, ◌∙◌, sym, ap, refl, List, [], ◌∷◌, arith,
  length, Option, none, some, ok, take, get_elem?,
}
use database_internals.Memory.{Memory}
use database_internals.Storage.SlottedPage.{
  header_size, slot_count, place_at, insert_record_at, get_free_space, get_total_free_space,
  can_insert_contiguous, compactify, live_slots,
}
use database_internals.Storage.SlottedPage.Layout.{
  IsFormed, IsFilled, record_at, records, records_from, insert_at,
}
use database_internals.Storage.SlottedPage.Ordered.{place_at-IsPlaced}
use database_internals.Storage.SlottedPage.Compact.{compactify-IsCompacted}
use database_internals.Storage.SlottedPage.Compact.Kept.{live}
use database_internals.Storage.SlottedPage.Compact.Slots.{length-live, small}

module _ {ℓ} {A : Type ℓ} where
  -- How many live records stand before a place.
  abbrev pub rank : List (Option A) → ℕ → ℕ
  rank xs pos = length (live (take pos xs))

  live-live : (xs : List (Option A)) → live (live xs) ≡ live xs
  live-live [] = refl
  live-live (none ∷ xs) = live-live xs
  live-live (some x ∷ xs) = ap (◌∷◌ (some x)) (live-live xs)

  live-insert_at :
      (xs : List (Option A)) (pos : ℕ) (x : A)
      → pos ≤ length xs
      → live (insert_at pos (some x) xs) ≡ insert_at (rank xs pos) (some x) (live xs)
  live-insert_at xs zero x h = refl
  live-insert_at [] (suc pos) x h = absurd (omega arith)
  live-insert_at (none ∷ xs) (suc pos) x h = live-insert_at xs pos x (omega arith)
  live-insert_at (some y ∷ xs) (suc pos) x h =
      ap (◌∷◌ (some y)) (live-insert_at xs pos x (omega arith))

  live-insert_at_live :
      (xs : List (Option A)) (k : ℕ) (x : A)
      → live (insert_at k (some x) (live xs)) ≡ insert_at k (some x) (live xs)
  live-insert_at_live [] zero x = refl
  live-insert_at_live [] (suc k) x = refl
  live-insert_at_live (none ∷ xs) k x = live-insert_at_live xs k x
  live-insert_at_live (some y ∷ xs) zero x = ap (λ zs. some x ∷ some y ∷ zs) (live-live xs)
  live-insert_at_live (some y ∷ xs) (suc k) x = ap (◌∷◌ (some y)) (live-insert_at_live xs k x)

  get_elem?-insert_at :
      (xs : List A) (pos : ℕ) (x : A)
      → pos ≤ length xs
      → get_elem? (insert_at pos x xs) pos ≡ some x
  get_elem?-insert_at xs zero x h = refl
  get_elem?-insert_at [] (suc pos) x h = absurd (omega arith)
  get_elem?-insert_at (y ∷ xs) (suc pos) x h = get_elem?-insert_at xs pos x (omega arith)

  rank-le : (xs : List (Option A)) (pos : ℕ) → rank xs pos ≤ length (live xs)
  rank-le xs zero = omega arith
  rank-le [] (suc pos) = omega arith
  rank-le (none ∷ xs) (suc pos) = rank-le xs pos
  rank-le (some x ∷ xs) (suc pos) = omega (arith, rank-le xs pos)

length-records_from : (m : Memory) (i k : ℕ) → length (records_from m i k) ≡ k
unfolding records_from
length-records_from m i zero = refl
length-records_from m i (suc k) = ap suc (length-records_from m (suc i) k)

pub length-records : (m : Memory) → length (records m) ≡ slot_count m
unfolding records
length-records m = length-records_from m 0 (slot_count m)

take-records_from :
    (m : Memory) (i pos k : ℕ) → pos ≤ k → take pos (records_from m i k) ≡ records_from m i pos
unfolding records_from
take-records_from m i zero k h = refl
take-records_from m i (suc pos) zero h = absurd (omega arith)
take-records_from m i (suc pos) (suc k) h =
    ap (◌∷◌ (record_at m i)) (take-records_from m (suc i) pos k (omega arith))

-- What the code computes before the compaction is the rank.
live_slots-rank :
    (m : Memory) (pos : ℕ)
    → IsFormed m
    → IsFilled m
    → pos ≤ slot_count m
    → length (live_slots m 0 pos) ≡ rank (records m) pos
unfolding records
live_slots-rank m pos v f h =
    sym (length-live m (small m v f) 0 pos (omega arith))
    ∙ ap (λ xs. length (live xs)) (sym (take-records_from m 0 pos (slot_count m) h))

-- The record has got in.
pub record IsRanked (m m' : Memory) (pos slot : ℕ) (bytes : List ℕ) : Type 0 where
  pub formed : IsFormed m'
  pub filled : IsFilled m'
  pub contents :
      live (records m') ≡ insert_at (rank (records m) pos) (some bytes) (live (records m))
  pub there : get_elem? (records m') slot ≡ some (some bytes)
  pub header : (a : ℕ) → (a < 20) ⊎ ((24 ≤ a) × (a < header_size)) → m' a ≡ m a

-- The tests of `insertRecordAt`, and the two places where it puts the record.
pub at_gap :
    (m : Memory) (pos : ℕ) (bytes : List ℕ)
    → 0 < length bytes
    → pos ≤ slot_count m
    → length bytes + 4 < 2 ^ 16
    → length bytes + 4 ≤ get_total_free_space m
    → length bytes + 4 ≤ get_free_space m
    → insert_record_at m pos bytes ≡ place_at m pos bytes
unfolding insert_record_at can_insert_contiguous
at_gap m pos bytes p w s t g = ground arith

pub at_compacted :
    (m : Memory) (pos : ℕ) (bytes : List ℕ)
    → 0 < length bytes
    → pos ≤ slot_count m
    → length bytes + 4 < 2 ^ 16
    → length bytes + 4 ≤ get_total_free_space m
    → get_free_space m < length bytes + 4
    → insert_record_at m pos bytes ≡ place_at (compactify m) (length (live_slots m 0 pos)) bytes
unfolding insert_record_at can_insert_contiguous
at_compacted m pos bytes p w s t g = ground arith

pub refused :
    (m : Memory) (pos : ℕ) (bytes : List ℕ)
    → length bytes + 4 < 2 ^ 16
    → (length bytes ≡ 0) ⊎ (slot_count m < pos) ⊎ (get_total_free_space m < length bytes + 4)
    → insert_record_at m pos bytes ≡ ok (none, m)
unfolding insert_record_at
refused m pos bytes s h = ground arith

module _ (m : Memory) (pos : ℕ) (bytes : List ℕ) (v : IsFormed m) (f : IsFilled m)
    (short : length bytes + 4 < 2 ^ 16) (p : 0 < length bytes) (within : pos ≤ slot_count m)
    (room : length bytes + 4 ≤ get_total_free_space m) where
  abbrev Result : Type 0
  Result =
      (slot : ℕ) × (m' : Memory) × (insert_record_at m pos bytes ≡ ok (some slot, m'))
      × IsRanked m m' pos slot bytes

  without_compaction : length bytes + 4 ≤ get_free_space m → Result
  without_compaction g =
      let (m', e, d) = place_at-IsPlaced m pos bytes v within g in
      let long : pos ≤ length (records m) = omega (arith, length-records m) in
      (
        pos,
        m',
        at_gap m pos bytes p within short room g ∙ e,
        record {
          formed = d.formed;
          filled = d.filled p f;
          contents = ap live d.contents ∙ live-insert_at (records m) pos bytes long;
          there = rw d.contents (get_elem?-insert_at (records m) pos (some bytes) long);
          header = d.header;
        },
      )

  with_compaction : get_free_space m < length bytes + 4 → Result
  with_compaction g =
      let c = compactify-IsCompacted m v f in
      let k = rank (records m) pos in
      let long : k ≤ length (live (records m)) = rank-le (records m) pos in
      let total : length (live (records m)) ≡ slot_count (compactify m) =
        ap length (sym c.kept) ∙ length-records (compactify m) in
      let (m', e, d) =
        place_at-IsPlaced (compactify m) k bytes c.formed (omega (arith, total))
          (omega (arith, c.room)) in
      let contents : records m' ≡ insert_at k (some bytes) (live (records m)) =
        d.contents ∙ ap (insert_at k (some bytes)) c.kept in
      (
        k,
        m',
        at_compacted m pos bytes p within short room g
            ∙ ap (λ i. place_at (compactify m) i bytes) (live_slots-rank m pos v f within)
            ∙ e,
        record {
          formed = d.formed;
          filled = d.filled p c.filled;
          contents = ap live contents ∙ live-insert_at_live (records m) k bytes;
          there = rw contents (get_elem?-insert_at (live (records m)) k (some bytes) long);
          header = λ a h. d.header a h ∙ c.header a h;
        },
      )

-- `insertRecordAt` on a well-formed page, for a record of fewer than 65532 bytes: it refuses, and
-- changes nothing, exactly where the record is empty, the position lies past the slots, or the page
-- has no room even with its tombstones; otherwise it returns a slot that holds the record, and the
-- live records are the old ones in their order with the new one behind those that stood before the
-- position, and the header's other fields stay, whether the page had to be compacted or not.
pub insert_record_at-IsRanked :
    (m : Memory) (pos : ℕ) (bytes : List ℕ)
    → IsFormed m
    → IsFilled m
    → length bytes + 4 < 2 ^ 16
    → (((length bytes ≡ 0) ⊎ (slot_count m < pos) ⊎ (get_total_free_space m < length bytes + 4))
        × (insert_record_at m pos bytes ≡ ok (none, m)))
      ⊎ ((0 < length bytes)
          × (pos ≤ slot_count m)
          × (length bytes + 4 ≤ get_total_free_space m)
          × ((slot : ℕ) × (m' : Memory) × (insert_record_at m pos bytes ≡ ok (some slot, m'))
              × IsRanked m m' pos slot bytes))
insert_record_at-IsRanked m pos bytes v f short = elim (ℕ_discrete (length bytes) 0) [
  | yes e ↦ inl (inl e, refused m pos bytes short (inl e))
  | no p ↦ elim (dec_lt (slot_count m) pos) [
    | yes h ↦ inl (inr (inl h), refused m pos bytes short (inr (inl h)))
    | no w ↦ elim (dec_lt (get_total_free_space m) (length bytes + 4)) [
      | yes h ↦ inl (inr (inr h), refused m pos bytes short (inr (inr h)))
      | no r ↦
          let p' : 0 < length bytes = omega (arith, p) in
          let w' : pos ≤ slot_count m = omega (arith, w) in
          let r' : length bytes + 4 ≤ get_total_free_space m = omega (arith, r) in
          inr (
            p',
            w',
            r',
            elim (dec_lt (get_free_space m) (length bytes + 4)) [
              | yes g ↦ with_compaction m pos bytes v f short p' w' r' g
              | no g ↦ without_compaction m pos bytes v f short p' w' r' (omega (arith, g))
            ],
          )
    ]
  ]
]
