-- ===== src/Index/Split/Seen.antt =====
-- What the tree sees of a page's slots, and places in a list.
use native.Mathlib.Decide.{ℕ_discrete}
use database_internals.Prelude.{
  ℕ, zero, suc, ◌+◌, ◌≡◌, ◌≢◌, ◌<◌, ◌≤◌, ◌∙◌, sym, ap, refl, List, [], ◌∷◌, arith, length, take,
  drop, true, false, Option, none, some,
}
use database_internals.Memory.{Memory, read_bytes}
use database_internals.Memory.Laws.{length-read_bytes}
use database_internals.Storage.SlottedPage.{slot_count, slot_offset, slot_size, get_record, span}
use database_internals.Storage.SlottedPage.Layout.{
  slot_at, IsFormed, IsFilled, records, get_slot-below, replace_at,
}
use database_internals.Storage.SlottedPage.Fetched.{entry, get_record-records, fetched}
use database_internals.Storage.SlottedPage.Compact.Kept.{live}
use database_internals.Index.Tree.{is_live, record_bytes}

-- What records with their slots take.
abbrev pub weight : List (Option (List ℕ)) → ℕ
weight [] = 0
weight (none ∷ xs) = weight xs
weight (some b ∷ xs) = length b + 4 + weight xs

-- A place of a list, seen from both sides.
module _ {ℓ} {A : Type ℓ} where
  abbrev pub at : List (Option A) → ℕ → Option A
  at [] i = none
  at (x ∷ xs) zero = x
  at (x ∷ xs) (suc i) = at xs i

  drop-at : (xs : List (Option A)) (i : ℕ) → i < length xs → drop i xs ≡ at xs i ∷ drop (suc i) xs
  drop-at [] i h = absurd (omega arith)
  drop-at (x ∷ xs) zero h = refl
  drop-at (x ∷ xs) (suc i) h = drop-at xs i (omega arith)

  pub drop-here :
      (xs : List (Option A)) (i : ℕ) {x : Option A}
      → i < length xs
      → at xs i ≡ x
      → drop i xs ≡ x ∷ drop (suc i) xs
  drop-here xs i h e = drop-at xs i h ∙ ap (λ x. x ∷ drop (suc i) xs) e

  pub live-take-none :
      (xs : List (Option A)) (i : ℕ)
      → i < length xs
      → at xs i ≡ none
      → live (take (suc i) xs) ≡ live (take i xs)
  live-take-none [] i h e = absurd (omega arith)
  live-take-none (x ∷ xs) zero h e = rw e refl
  live-take-none (none ∷ xs) (suc i) h e = live-take-none xs i (omega arith) e
  live-take-none (some x ∷ xs) (suc i) h e = ap (◌∷◌ (some x)) (live-take-none xs i (omega arith) e)

  pub drop-replace_at :
      (xs : List (Option A)) (i : ℕ) (x : Option A)
      → drop (suc i) (replace_at i x xs) ≡ drop (suc i) xs
  drop-replace_at [] i x = refl
  drop-replace_at (y ∷ ys) zero x = refl
  drop-replace_at (y ∷ ys) (suc i) x = drop-replace_at ys i x

  pub live-take-replace_at :
      (xs : List (Option A)) (i : ℕ) → live (take (suc i) (replace_at i none xs)) ≡ live (take i xs)
  live-take-replace_at [] zero = refl
  live-take-replace_at [] (suc i) = refl
  live-take-replace_at (y ∷ ys) zero = refl
  live-take-replace_at (none ∷ ys) (suc i) = live-take-replace_at ys i
  live-take-replace_at (some y ∷ ys) (suc i) = ap (◌∷◌ (some y)) (live-take-replace_at ys i)

  pub take-all : (xs : List A) (i : ℕ) → length xs ≤ i → take i xs ≡ xs
  take-all [] zero h = refl
  take-all [] (suc i) h = refl
  take-all (x ∷ xs) zero h = absurd (omega arith)
  take-all (x ∷ xs) (suc i) h = ap (◌∷◌ x) (take-all xs i (omega arith))

  pub drop-all : (xs : List A) (i : ℕ) → length xs ≤ i → drop i xs ≡ []
  drop-all [] zero h = refl
  drop-all [] (suc i) h = refl
  drop-all (x ∷ xs) zero h = absurd (omega arith)
  drop-all (x ∷ xs) (suc i) h = drop-all xs i (omega arith)

at-entry : (xs : List (Option (List ℕ))) (i : ℕ) → at xs i ≡ entry xs i
at-entry [] i = refl
at-entry (x ∷ xs) zero = refl
at-entry (x ∷ xs) (suc i) = at-entry xs i

-- What the tree sees of a slot.
pub data Seen (m : Memory) (i : ℕ) : Type 0 where
  dead : at (records m) i ≡ none → is_live m i ≡ false → Seen m i
  alive :
      (b : List ℕ)
      → at (records m) i ≡ some b
      → is_live m i ≡ true
      → record_bytes m (get_record m i) ≡ b
      → 0 < length b
      → slot_offset m (slot_at i) ≢ 0
      → Seen m i

get_record-dead :
    (m : Memory) (i : ℕ)
    → IsFormed m
    → i < slot_count m
    → slot_offset m (slot_at i) ≡ 0
    → get_record m i ≡ none
unfolding get_record span
get_record-dead m i v h e =
    ap (span m) (get_slot-below m i h (omega (arith, v.slots_fit, v.heap_fits))) ∙ rw e refl

get_record-live :
    (m : Memory) (i : ℕ)
    → IsFormed m
    → i < slot_count m
    → slot_offset m (slot_at i) ≢ 0
    → get_record m i ≡ some (slot_offset m (slot_at i), slot_size m (slot_at i))
unfolding get_record span
get_record-live m i v h l =
    ap (span m) (get_slot-below m i h (omega (arith, v.slots_fit, v.heap_fits))) ∙ ground arith

pub seen : (m : Memory) (i : ℕ) → IsFormed m → IsFilled m → i < slot_count m → Seen m i
unfolding is_live
seen m i v f h = elim (ℕ_discrete (slot_offset m (slot_at i)) 0) [
  | yes e ↦
      let g = get_record-dead m i v h e in
      dead (at-entry (records m) i ∙ sym (get_record-records m i v) ∙ ap (fetched m) g)
        (rw (is_live, g) refl)
  | no l ↦
      let g = get_record-live m i v h l in
      let o = slot_offset m (slot_at i) in
      let z = slot_size m (slot_at i) in
      alive (read_bytes m o z)
        (at-entry (records m) i ∙ sym (get_record-records m i v) ∙ ap (fetched m) g)
        (rw (is_live, g) (ground (arith, f i h l))) (rw g refl)
        (omega (arith, length-read_bytes m o z, f i h l)) l
]
