-- ===== src/Index/Split/Leaf.antt =====
-- What splitting a leaf makes of its records.

use database_internals.Prelude.{
  ℕ, zero, suc, ◌+◌, ◌%◌, ◌^◌, ◌≡◌, ◌<◌, ◌≤◌, ◌⊎◌, ◌∙◌, sym, ap, ap₂, refl, subst, List, [], ◌∷◌,
  ◌++◌, arith, length, take, drop, true, false, none, some, ok, append_assoc, append-nil,
}
use database_internals.Memory.{Memory}
use database_internals.Storage.SlottedPage.{
  slot_count, header_size, get_record, delete_record, insert_record, get_free_space,
}
use database_internals.Storage.SlottedPage.Layout.{IsFormed, IsFilled, records}
use database_internals.Storage.SlottedPage.Edits.{IsBuried, delete_record-IsBuried}
use database_internals.Storage.SlottedPage.Compact.Kept.{live}
use database_internals.Storage.SlottedPage.Ranked.{length-records}
use database_internals.Storage.SlottedPage.Appended.{IsAppended, insert_record-IsAppended}
use database_internals.Storage.SlottedPage.Appended.Steps.{HasNoDead}
use database_internals.Index.Search.{next_slot}
use database_internals.Index.Tree.{is_live, record_bytes}
use database_internals.Index.Split.{move_live}
use database_internals.Index.Split.Seen.{
  weight, seen, dead, alive, at, drop-here, live-take-none, drop-replace_at, live-take-replace_at,
  take-all, drop-all,
}

-- The loop's result: what has left the page has come to the other one, in order.
pub record IsMoved (page page' fresh fresh' : Memory) (slot : ℕ) : Type 0 where
  pub formed : IsFormed page'
  pub filled : IsFilled page'
  pub contents : live (records page') ≡ live (take slot (records page))
  pub header : (a : ℕ) → a < header_size → page' a ≡ page a
  pub fresh_formed : IsFormed fresh'
  pub fresh_filled : IsFilled fresh'
  pub fresh_no_dead : HasNoDead fresh'
  pub fresh_contents : records fresh' ≡ records fresh ++ live (drop slot (records page))
  pub fresh_header : (a : ℕ) → (a < 20) ⊎ ((24 ≤ a) × (a < header_size)) → fresh' a ≡ fresh a

-- A slot is passed over.
skip_IsMoved :
    (page page' fresh fresh' : Memory) (slot : ℕ)
    → slot < length (records page)
    → at (records page) slot ≡ none
    → IsMoved page page' fresh fresh' (suc slot)
    → IsMoved page page' fresh fresh' slot
skip_IsMoved page page' fresh fresh' slot h e r = record {
  formed = r.formed;
  filled = r.filled;
  contents = r.contents ∙ live-take-none (records page) slot h e;
  header = r.header;
  fresh_formed = r.fresh_formed;
  fresh_filled = r.fresh_filled;
  fresh_no_dead = r.fresh_no_dead;
  fresh_contents =
      r.fresh_contents
      ∙ ap (λ xs. records fresh ++ live xs) {x = none ∷ drop (suc slot) (records page)}
          (sym (drop-here (records page) slot h e));
  fresh_header = r.fresh_header;
}

-- A record is moved.
step_IsMoved :
    (page page1 page' fresh fresh1 fresh' : Memory) (slot : ℕ) (b : List ℕ)
    → slot < length (records page)
    → at (records page) slot ≡ some b
    → IsBuried page page1 slot
    → IsAppended fresh fresh1 b
    → IsMoved page1 page' fresh1 fresh' (suc slot)
    → IsMoved page page' fresh fresh' slot
step_IsMoved page page1 page' fresh fresh1 fresh' slot b h e d g r = record {
  formed = r.formed;
  filled = r.filled;
  contents =
      r.contents
      ∙ ap (λ xs. live (take (suc slot) xs)) d.contents
      ∙ live-take-replace_at (records page) slot;
  header = λ a x. r.header a x ∙ d.header a x;
  fresh_formed = r.fresh_formed;
  fresh_filled = r.fresh_filled;
  fresh_no_dead = r.fresh_no_dead;
  fresh_contents =
      r.fresh_contents
      ∙ ap₂ (λ xs ys. xs ++ live ys) g.contents
          (ap (drop (suc slot)) d.contents ∙ drop-replace_at (records page) slot none)
      ∙ append_assoc (records fresh) (some b ∷ []) (live (drop (suc slot) (records page)))
      ∙ ap (λ xs. records fresh ++ live xs) (sym (drop-here (records page) slot h e));
  fresh_header = λ a x. r.fresh_header a x ∙ g.header a x;
}

-- One turn of the loop.
move_live-dead :
    (left slot : ℕ) (page fresh : Memory)
    → is_live page slot ≡ false
    → next_slot slot ≡ suc slot
    → move_live (suc left) slot page fresh ≡ move_live left (suc slot) page fresh
unfolding move_live
move_live-dead left slot page fresh l n = rw (move_live, l, n) refl

move_live-alive :
    (left slot : ℕ) (page page1 fresh fresh1 : Memory) (b : List ℕ)
    → is_live page slot ≡ true
    → next_slot slot ≡ suc slot
    → record_bytes page (get_record page slot) ≡ b
    → delete_record page slot ≡ (true, page1)
    → insert_record fresh b ≡ ok (some (slot_count fresh), fresh1)
    → move_live (suc left) slot page fresh ≡ move_live left (suc slot) page1 fresh1
unfolding move_live
move_live-alive left slot page page1 fresh fresh1 b l n k del ins =
    rw (move_live, l, n, k, ins, del) refl

pub move_live-IsMoved :
    (left slot : ℕ) (page fresh : Memory)
    → slot + left ≡ slot_count page
    → IsFormed page
    → IsFilled page
    → IsFormed fresh
    → IsFilled fresh
    → HasNoDead fresh
    → weight (drop slot (records page)) ≤ get_free_space fresh
    → (page' : Memory) × (fresh' : Memory) × (move_live left slot page fresh ≡ ok (page', fresh'))
      × IsMoved page page' fresh fresh' slot
unfolding move_live
move_live-IsMoved zero slot page fresh c v f w g a room =
    let past : length (records page) ≤ slot = omega (arith, length-records page) in
    (
      page,
      fresh,
      refl,
      record {
        formed = v;
        filled = f;
        contents = ap live (sym (take-all (records page) slot past));
        header = λ a x. refl;
        fresh_formed = w;
        fresh_filled = g;
        fresh_no_dead = a;
        fresh_contents =
            sym (append-nil (records fresh))
            ∙ ap (λ xs. records fresh ++ live xs) {x = []}
                (sym (drop-all (records page) slot past));
        fresh_header = λ a x. refl;
      },
    )
move_live-IsMoved (suc left) slot page fresh c v f w g a room =
    let h : slot < length (records page) = omega (arith, length-records page) in
    let next : (slot + 1) % 2 ^ 16 ≡ suc slot = omega (arith, v.slots_fit, v.heap_fits) in
    elim (seen page slot v f (omega arith)) [
      | dead e l ↦
          let (page', fresh', r, x) =
            move_live-IsMoved left (suc slot) page fresh (omega arith) v f w g a (
              subst (λ xs. weight xs ≤ get_free_space fresh) (drop-here (records page) slot h e)
                room) in
          (
            page',
            fresh',
            move_live-dead left slot page fresh l next ∙ r,
            skip_IsMoved page page' fresh fresh' slot h e x,
          )
      | alive b e l k p o ↦
          let weighed : length b + 4 + weight (drop (suc slot) (records page))
              ≤ get_free_space fresh =
            subst (λ xs. weight xs ≤ get_free_space fresh) (drop-here (records page) slot h e)
              room in
          let (page1, del, d) = delete_record-IsBuried page slot v (omega arith) o in
          let (fresh1, ins, q) =
            insert_record-IsAppended fresh b w g a p (omega (arith, weighed)) in
          let behind : drop (suc slot) (records page1) ≡ drop (suc slot) (records page) =
            ap (drop (suc slot)) d.contents ∙ drop-replace_at (records page) slot none in
          let (page', fresh', r, x) =
            move_live-IsMoved left (suc slot) page1 fresh1 (omega (arith, d.count)) d.formed
              (d.filled f) q.formed q.filled q.no_dead
              (omega (arith, weighed, q.free, ap weight behind)) in
          (
            page',
            fresh',
            move_live-alive left slot page page1 fresh fresh1 b l next k del ins ∙ r,
            step_IsMoved page page1 page' fresh fresh1 fresh' slot b h e d q x,
          )
    ]
