-- ===== src/Index/Split/Halves.antt =====
-- The two pages that a split makes of a leaf.
use native.Mathlib.Decide.{ℕ_discrete}
use database_internals.Prelude.{
  ℕ, zero, suc, ◌+◌, ◌-◌, ◌*◌, ◌^◌, ◌≡◌, ◌<◌, ◌≤◌, inl, inr, ◌∙◌, sym, ap, ap₂, refl, List, [], ◌∷◌,
  ◌++◌, arith, length, take, drop, true, Option, none, some, ok,
}
use database_internals.Memory.{Memory}
use database_internals.Memory.Laws.{
  length-read_bytes, read_le_ext, read_le-write_le, read_le-write_le_apart, write_le_apart,
}
use database_internals.Storage.SlottedPage.{
  slot_count, slot_offset, slot_size, header_size, page_size, get_free_space, init, leaf_page,
  page_type, page_type_code, left_sibling, right_sibling, set_left_sibling, set_right_sibling,
  compactify,
}
use database_internals.Storage.SlottedPage.Layout.{
  slot_at, IsFormed, IsFilled, record_at-dead, record_at-live, records, records_from, sizes_from,
}
use database_internals.Storage.SlottedPage.Init.{init-IsFormed}
use database_internals.Storage.SlottedPage.Compact.{compactify-IsCompacted}
use database_internals.Storage.SlottedPage.Compact.Kept.{live}
use database_internals.Storage.SlottedPage.Ranked.{length-records}
use database_internals.Storage.SlottedPage.Header.{
  IsAlike, alike_count, alike-IsFormed, alike-IsFilled, alike-records, alike_free,
  set_left_sibling-IsAlike, set_right_sibling-IsAlike,
}
use database_internals.Index.Tree.{is_live}
use database_internals.Index.Split.{split_leaf, move_live}
use database_internals.Index.Split.Leaf.{IsMoved, move_live-IsMoved}
use database_internals.Index.Split.Seen.{weight}
use database_internals.Index.Split.Pivot.{IsPivot, first_live-IsPivot}

-- The records of a page and their slots fit in a page.
weight-records_from :
    (m : Memory) (i k : ℕ) → weight (records_from m i k) ≤ sizes_from m i k + 4 * k
unfolding records_from sizes_from
weight-records_from m i zero = omega arith
weight-records_from m i (suc k) = elim (ℕ_discrete (slot_offset m (slot_at i)) 0) [
  | yes e ↦ rw (record_at-dead m i e) (omega (arith, weight-records_from m (suc i) k))
  | no l ↦
      let o = slot_offset m (slot_at i) in
      let z = slot_size m (slot_at i) in
      rw (record_at-live m i o z refl refl (omega (arith, l)))
        (omega (arith, weight-records_from m (suc i) k, length-read_bytes m o z))
]

pub weight-records : (m : Memory) → IsFormed m → weight (records m) + header_size ≤ page_size
unfolding records
weight-records m v = omega (arith, weight-records_from m 0 (slot_count m), v.slots_fit, v.heap_fits)

pub weight-drop : (xs : List (Option (List ℕ))) (i : ℕ) → weight (drop i xs) ≤ weight xs
weight-drop xs zero = omega arith
weight-drop [] (suc i) = omega arith
weight-drop (none ∷ xs) (suc i) = weight-drop xs i
weight-drop (some b ∷ xs) (suc i) = omega (arith, weight-drop xs i)

live-append-drop :
    (xs : List (Option (List ℕ))) (i : ℕ) → live (take i xs) ++ live (drop i xs) ≡ live xs
live-append-drop xs zero = refl
live-append-drop [] (suc i) = refl
live-append-drop (none ∷ xs) (suc i) = live-append-drop xs i
live-append-drop (some b ∷ xs) (suc i) = ap (◌∷◌ (some b)) (live-append-drop xs i)

-- The page that becomes the right half, before records come to it.
module _ (heap header : Memory) (leaf fresh right : ℕ) where
  started : Memory
  started = init header heap fresh leaf_page

  linked : Memory
  linked = set_left_sibling started leaf

  empty : Memory
  empty = set_right_sibling linked right

  linked-IsAlike : IsAlike linked started
  unfolding linked
  linked-IsAlike = set_left_sibling-IsAlike started leaf

  empty-IsAlike : IsAlike empty started
  unfolding empty
  empty-IsAlike a h = set_right_sibling-IsAlike linked right a h ∙ linked-IsAlike a h

  started-IsFormed : IsFormed started
  unfolding started
  started-IsFormed = (init-IsFormed header heap fresh leaf_page).0

  empty_records : records empty ≡ []
  unfolding started
  empty_records =
      alike-records empty started empty-IsAlike started-IsFormed
      ∙ (init-IsFormed header heap fresh leaf_page).1

  empty_count : slot_count empty ≡ 0
  empty_count = sym (length-records empty) ∙ ap length empty_records

  empty_free : get_free_space empty ≡ page_size - header_size
  unfolding started
  empty_free =
      alike_free empty started empty-IsAlike started-IsFormed
      ∙ (init-IsFormed header heap fresh leaf_page).2

  empty_type : page_type empty ≡ page_type_code leaf_page
  unfolding empty linked started set_left_sibling set_right_sibling
  empty_type =
      read_le-write_le_apart 1 4 linked 32 24 right (inl (omega arith))
      ∙ read_le-write_le_apart 1 4 started 28 24 leaf (inl (omega arith))
      ∙ (init-IsFormed header heap fresh leaf_page).3

  empty_left : leaf < 2 ^ 32 → left_sibling empty ≡ leaf
  unfolding empty linked set_left_sibling set_right_sibling
  empty_left h =
      read_le-write_le_apart 4 4 linked 32 28 right (inl (omega arith))
      ∙ read_le-write_le 4 started 28 leaf (omega arith)

  empty-right : right < 2 ^ 32 → right_sibling empty ≡ right
  unfolding empty set_right_sibling
  empty-right h = read_le-write_le 4 linked 32 right (omega arith)

-- A leaf and the two pages that a split makes of it.
pub record IsSplit (page left right : Memory) (leaf fresh pivot : ℕ) : Type 0 where
  pub left_formed : IsFormed left
  pub left_filled : IsFilled left
  pub left_contents : records left ≡ live (take pivot (records page))
  pub right_formed : IsFormed right
  pub right_filled : IsFilled right
  pub right_contents : records right ≡ live (drop pivot (records page))
  pub together : records left ++ records right ≡ live (records page)
  pub left_type : page_type left ≡ page_type page
  pub right_type : page_type right ≡ page_type_code leaf_page
  pub left_left : left_sibling left ≡ left_sibling page
  pub left_right : right_sibling left ≡ fresh
  pub right_left : left_sibling right ≡ leaf
  pub right_right : right_sibling right ≡ right_sibling page

module _ (page : Memory) (v : IsFormed page) (f : IsFilled page) (heap header : Memory)
    (leaf fresh pivot : ℕ) (within : pivot ≤ slot_count page) where
  right : ℕ
  right = right_sibling page

  relinked : Memory
  relinked = set_right_sibling page fresh

  relinked-IsAlike : IsAlike relinked page
  unfolding relinked
  relinked-IsAlike = set_right_sibling-IsAlike page fresh

  relinked_records : records relinked ≡ records page
  relinked_records = alike-records relinked page relinked-IsAlike v

  start : Memory
  unfolding right
  start = empty heap header leaf fresh right

  start-IsAlike : IsAlike start (started heap header leaf fresh right)
  unfolding start
  start-IsAlike = empty-IsAlike heap header leaf fresh right

  start-none : (i : ℕ) → i < slot_count start → ⊥
  unfolding start
  start-none i h = (omega (arith, empty_count heap header leaf fresh right))

  room : weight (drop pivot (records relinked)) ≤ get_free_space start
  unfolding start
  room = omega (
    arith,
    weight-drop (records relinked) pivot,
    weight-records relinked (alike-IsFormed relinked page relinked-IsAlike v),
    empty_free heap header leaf fresh right,
  )

  moves :
      (page' : Memory) × (fresh' : Memory) × (move_live
          (slot_count page - pivot)
          pivot
          relinked
          start
        ≡ ok (page', fresh'))
      × IsMoved relinked page' start fresh' pivot
  moves =
      move_live-IsMoved (slot_count page - pivot) pivot relinked start
        (omega (arith, alike_count relinked page relinked-IsAlike))
        (alike-IsFormed relinked page relinked-IsAlike v)
        (alike-IsFilled relinked page relinked-IsAlike v f)
        (alike-IsFormed start (started heap header leaf fresh right) start-IsAlike
          (started-IsFormed heap header leaf fresh right))
        (λ i h l. absurd (start-none i h)) (λ i h l. start-none i h) room

  halves-IsSplit :
      (page' fresh' : Memory)
      → IsMoved relinked page' start fresh' pivot
      → leaf < 2 ^ 32
      → fresh < 2 ^ 32
      → right_sibling page < 2 ^ 32
      → IsSplit page (compactify page') fresh' leaf fresh pivot
  halves-IsSplit page' fresh' r hl hf hr =
      let c = compactify-IsCompacted page' r.formed r.filled in
      let first : records (compactify page') ≡ live (take pivot (records page)) =
        c.kept ∙ r.contents ∙ ap (λ xs. live (take pivot xs)) relinked_records in
      let second : records fresh' ≡ live (drop pivot (records page)) =
        r.fresh_contents
        ∙ ap₂ (λ xs ys. xs ++ live (drop pivot ys)) started_empty relinked_records in
      record {
        left_formed = c.formed;
        left_filled = c.filled;
        left_contents = first;
        right_formed = r.fresh_formed;
        right_filled = r.fresh_filled;
        right_contents = second;
        together = ap₂ ◌++◌ first second ∙ live-append-drop (records page) pivot;
        left_type = read_le_ext 1 (compactify page') page 24 (λ a x y.
            c.header a (inr (omega arith, omega arith))
            ∙ r.header a (omega arith)
            ∙ relinked_apart a (omega arith));
        right_type =
            read_le_ext 1 fresh' start 24
              (λ a x y. r.fresh_header a (inr (omega arith, omega arith)))
            ∙ start_type;
        left_left = read_le_ext 4 (compactify page') page 28 (λ a x y.
            c.header a (inr (omega arith, omega arith))
            ∙ r.header a (omega arith)
            ∙ relinked_apart a (omega arith));
        left_right =
            read_le_ext 4 (compactify page') relinked 32
              (λ a x y. c.header a (inr (omega arith, omega arith)) ∙ r.header a (omega arith))
            ∙ relinked_right;
        right_left =
            read_le_ext 4 fresh' start 28
              (λ a x y. r.fresh_header a (inr (omega arith, omega arith)))
            ∙ start_left;
        right_right =
            read_le_ext 4 fresh' start 32
              (λ a x y. r.fresh_header a (inr (omega arith, omega arith)))
            ∙ start_right;
      }
    where
      started_empty : records start ≡ []
      started_empty = unfold start in empty_records heap header leaf fresh right

      relinked_apart : (a : ℕ) → a < 32 → relinked a ≡ page a
      relinked_apart a h =
          unfold relinked set_right_sibling in write_le_apart 4 page 32 a fresh (inl h)

      relinked_right : right_sibling relinked ≡ fresh
      relinked_right =
          unfold relinked set_right_sibling in read_le-write_le 4 page 32 fresh (omega arith)

      start_type : page_type start ≡ page_type_code leaf_page
      start_type = unfold start in empty_type heap header leaf fresh right

      start_left : left_sibling start ≡ leaf
      start_left = unfold start in empty_left heap header leaf fresh right hl

      start_right : right_sibling start ≡ right_sibling page
      start_right = unfold start right in empty-right heap header leaf fresh right hr

-- Splitting a well-formed leaf that has a live record and no empty one returns, and loses, copies
-- and reorders no record: the left half has the live records before the pivot, the right half those
-- from it on. The pivot is the first live slot from the middle on, or, if there is none, the first
-- one of all. Both halves are well-formed, have no tombstone, and are linked to each other and to
-- the old neighbours.
pub split_leaf-IsSplit :
    (heap header page : Memory) (leaf fresh j : ℕ)
    → IsFormed page
    → IsFilled page
    → j < slot_count page
    → is_live page j ≡ true
    → leaf < 2 ^ 32
    → fresh < 2 ^ 32
    → right_sibling page < 2 ^ 32
    → (pivot : ℕ) × (left : Memory) × (right : Memory) × (split_leaf heap header page leaf fresh
        ≡ ok (left, right))
      × IsPivot page pivot
      × IsSplit page left right leaf fresh pivot
unfolding split_leaf relinked start right empty linked started
split_leaf-IsSplit heap header page leaf fresh j v f h l hl hf hr =
    let (pivot, e, p) = first_live-IsPivot page j (omega (arith, v.slots_fit, v.heap_fits)) h l in
    let within : pivot ≤ slot_count page = omega (arith, p.below) in
    let (page', fresh', m, r) = moves page v f heap header leaf fresh pivot within in
    (
      pivot,
      compactify page',
      fresh',
      rw (e, m) refl,
      p,
      halves-IsSplit page v f heap header leaf fresh pivot within page' fresh' r hl hf hr,
    )
