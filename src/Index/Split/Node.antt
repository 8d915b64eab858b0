-- ===== src/Index/Split/Node.antt =====
-- The two pages that a split makes of an internal page.

use database_internals.Prelude.{
  ℕ, zero, suc, ◌+◌, ◌-◌, ◌*◌, ◌/◌, ◌%◌, ◌^◌, ◌≡◌, ◌≢◌, ◌<◌, ◌≤◌, inr, ◌∙◌, sym, ap, refl, List, [],
  ◌∷◌, ◌++◌, arith, length, take, drop, true, Option, none, some, ok, subst, fun_ext, ◌>>=◌,
}
use database_internals.Memory.{Memory}
use database_internals.Memory.Laws.{read_le_ext}
use database_internals.Storage.SlottedPage.{
  slot_count, slot_offset, header_size, page_size, get_free_space, init, internal_page, page_type,
  page_type_code, compactify, get_record, delete_record,
}
use database_internals.Storage.SlottedPage.Layout.{
  slot_at, IsFormed, IsFilled, record_at-live, records, records_from,
}
use database_internals.Storage.SlottedPage.Init.{init-IsFormed}
use database_internals.Storage.SlottedPage.Compact.{compactify-IsCompacted}
use database_internals.Storage.SlottedPage.Compact.Kept.{live}
use database_internals.Storage.SlottedPage.Appended.Steps.{HasNoDead}
use database_internals.Storage.SlottedPage.Edits.{delete_record-IsBuried}
use database_internals.Storage.SlottedPage.Ranked.{length-records}
use database_internals.Index.Tree.{record_bytes, is_live}
use database_internals.Index.Split.{split_node, move_live, move_all, internal_pivot, put_record}
use database_internals.Index.Search.{next_slot}
use database_internals.Index.Split.Seen.{seen, dead, alive, drop-here, drop-replace_at}
use database_internals.Index.Split.Halves.{weight-records, weight-drop}
use database_internals.Index.Split.Leaf.{IsMoved, move_live-IsMoved}

-- No tombstone is in the list.
abbrev AreLive {ℓ} : {A : Type ℓ} → List (Option A) → Type 0
AreLive [] = Unit
AreLive (none ∷ xs) = ⊥
AreLive (some x ∷ xs) = AreLive xs

module _ {ℓ} {A : Type ℓ} where
  AreLive-drop : (xs : List (Option A)) (i : ℕ) → AreLive xs → AreLive (drop i xs)
  AreLive-drop [] zero a = a
  AreLive-drop [] (suc i) a = a
  AreLive-drop (x ∷ xs) zero a = a
  AreLive-drop (none ∷ xs) (suc i) a = elim a [ ]
  AreLive-drop (some x ∷ xs) (suc i) a = AreLive-drop xs i a

  AreLive-take : (xs : List (Option A)) (i : ℕ) → AreLive xs → AreLive (take i xs)
  AreLive-take [] zero a = a
  AreLive-take [] (suc i) a = a
  AreLive-take (x ∷ xs) zero a = tt
  AreLive-take (none ∷ xs) (suc i) a = elim a [ ]
  AreLive-take (some x ∷ xs) (suc i) a = AreLive-take xs i a

  live-AreLive : (xs : List (Option A)) → AreLive xs → live xs ≡ xs
  live-AreLive [] a = refl
  live-AreLive (none ∷ xs) a = elim a [ ]
  live-AreLive (some x ∷ xs) a = ap (◌∷◌ (some x)) (live-AreLive xs a)

records_from-AreLive :
    (m : Memory) (i k : ℕ)
    → ((j : ℕ) → i ≤ j → j < i + k → slot_offset m (slot_at j) ≢ 0)
    → AreLive (records_from m i k)
unfolding records_from
records_from-AreLive m i zero h = tt
records_from-AreLive m i (suc k) h =
    let l : 0 < slot_offset m (slot_at i) = omega (arith, h i) in
    rw (record_at-live m i _ _ refl refl l)
      (records_from-AreLive m (suc i) k (λ j a b. h j (omega arith) (omega arith)))

-- One turn of both loops at a live slot.
turn :
    (left slot : ℕ) (page page1 fresh : Memory)
    → is_live page slot ≡ true
    → next_slot slot ≡ suc slot
    → delete_record page slot ≡ (true, page1)
    → ((q : Memory) → move_all left (suc slot) page1 q ≡ move_live left (suc slot) page1 q)
    → move_all (suc left) slot page fresh ≡ move_live (suc left) slot page fresh
unfolding move_all move_live
turn left slot page page1 fresh l n del rest =
    rw (move_live, l, n, del)
      (ap (λ k. put_record fresh (record_bytes page (get_record page slot)) >>= k) (fun_ext rest))

-- Where no slot is a tombstone the two loops do the same.
move_all-move_live :
    (left slot : ℕ) (page fresh : Memory)
    → slot + left ≡ slot_count page
    → IsFormed page
    → IsFilled page
    → AreLive (drop slot (records page))
    → move_all left slot page fresh ≡ move_live left slot page fresh
unfolding move_all move_live
move_all-move_live zero slot page fresh c v f a = refl
move_all-move_live (suc left) slot page fresh c v f a =
    let h : slot < length (records page) = omega (arith, length-records page) in
    let next : (slot + 1) % 2 ^ 16 ≡ suc slot = omega (arith, v.slots_fit, v.heap_fits) in
    elim (seen page slot v f (omega arith)) [
      | dead e l ↦ absurd (subst AreLive (drop-here (records page) slot h e) a)
      | alive b e l k p o ↦
          let (page1, del, d) = delete_record-IsBuried page slot v (omega arith) o in
          let behind : drop (suc slot) (records page1) ≡ drop (suc slot) (records page) =
            ap (drop (suc slot)) d.contents ∙ drop-replace_at (records page) slot none in
          let rest = λ (q : Memory).
            move_all-move_live left (suc slot) page1 q (omega (arith, d.count)) d.formed
              (d.filled f)
              (subst AreLive (sym behind) (subst AreLive (drop-here (records page) slot h e) a)) in
          turn left slot page page1 fresh l next del rest
    ]

-- An internal page and the two pages that a split makes of it.
pub record IsParted (page left right : Memory) (pivot : ℕ) : Type 0 where
  pub left_formed : IsFormed left
  pub left_filled : IsFilled left
  pub left_contents : records left ≡ take pivot (records page)
  pub left_type : page_type left ≡ page_type page
  pub right_formed : IsFormed right
  pub right_filled : IsFilled right
  pub right_contents : records right ≡ drop pivot (records page)
  pub right_type : page_type right ≡ page_type_code internal_page
  pub paired : pivot % 2 ≡ 0
  pub middle : (pivot ≤ slot_count page / 2) × (slot_count page < 2 * pivot + 4)

module _ (page : Memory) (v : IsFormed page) (f : IsFilled page) (a : HasNoDead page)
    (heap header : Memory) (fresh : ℕ) where
  pivot : ℕ
  pivot = internal_pivot page

  pivot_within : pivot ≤ slot_count page
  unfolding pivot
  pivot_within = omega (arith, v.slots_fit, v.heap_fits)

  page-AreLive : AreLive (records page)
  unfolding records
  page-AreLive = records_from-AreLive page 0 (slot_count page) (λ j x y. a j (omega arith))

  start : Memory
  start = init header heap fresh internal_page

  start-init :
      IsFormed start
      × (records start ≡ [])
      × (get_free_space start ≡ page_size - header_size)
      × (page_type start ≡ page_type_code internal_page)
  unfolding start
  start-init =
      let (w, e, free, type, _, _) = init-IsFormed header heap fresh internal_page in
      (w, e, free, type)

  start-none : (i : ℕ) → i < slot_count start → ⊥
  start-none i h = omega (arith, ap length start-init.1, length-records start)

  moves :
      (page' : Memory) × (fresh' : Memory) × (move_all (slot_count page - pivot) pivot page start
        ≡ ok (page', fresh'))
      × IsMoved page page' start fresh' pivot
  moves =
      let (page', fresh', e, r) =
        move_live-IsMoved (slot_count page - pivot) pivot page start (omega (arith, pivot_within)) v
          f start-init.0 (λ i h l. absurd (start-none i h)) (λ i h l. start-none i h)
          (omega (arith, weight-drop (records page) pivot, weight-records page v, start-init.2)) in
      (
        page',
        fresh',
        move_all-move_live (slot_count page - pivot) pivot page start (omega (arith, pivot_within))
              v f (AreLive-drop (records page) pivot page-AreLive)
            ∙ e,
        r,
      )

  parted :
      (page' fresh' : Memory)
      → IsMoved page page' start fresh' pivot
      → IsParted page (compactify page') fresh' pivot
  unfolding pivot
  parted page' fresh' r =
      let c = compactify-IsCompacted page' r.formed r.filled in
      record {
        left_formed = c.formed;
        left_filled = c.filled;
        left_contents =
            c.kept
            ∙ r.contents
            ∙ live-AreLive (take pivot (records page))
                (AreLive-take (records page) pivot page-AreLive);
        left_type =
            read_le_ext 1 (compactify page') page 24
              (λ x y z. c.header x (inr (omega arith, omega arith)) ∙ r.header x (omega arith));
        right_formed = r.fresh_formed;
        right_filled = r.fresh_filled;
        right_contents =
            r.fresh_contents
            ∙ ap (λ xs. xs ++ live (drop pivot (records page))) start-init.1
            ∙ live-AreLive (drop pivot (records page))
                (AreLive-drop (records page) pivot page-AreLive);
        right_type =
            read_le_ext 1 fresh' start 24
              (λ x y z. r.fresh_header x (inr (omega arith, omega arith)))
            ∙ start-init.3;
        paired = omega (arith, v.slots_fit, v.heap_fits);
        middle = (omega (arith, v.slots_fit, v.heap_fits), omega (arith, v.slots_fit, v.heap_fits));
      }

-- Splitting a well-formed internal page without tombstones and empty records returns, and loses,
-- copies and reorders no record and separates no key from its child: the left half has the records
-- before the pivot, an even slot next to the middle, and the right half those from it on, both in
-- well-formed pages.
pub split_node-IsParted :
    (heap header page : Memory) (fresh : ℕ)
    → IsFormed page
    → IsFilled page
    → HasNoDead page
    → (left : Memory) × (right : Memory) × (split_node heap header page fresh ≡ ok (left, right))
      × IsParted page left right (internal_pivot page)
unfolding split_node pivot start
split_node-IsParted heap header page fresh v f a =
    let (page', fresh', e, r) = moves page v f a heap header fresh in
    (compactify page', fresh', rw e refl, parted page v f a heap header fresh page' fresh' r)
