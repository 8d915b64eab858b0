-- ===== src/Index/Split/Tests.antt =====
-- An internal page of two pairs, built record by record, and its halves.
use database_internals.Prelude.{ℕ, ◌+◌, ◌<◌, ◌≤◌, ◌≡◌, ap, List, [], ◌∷◌, arith, length, ok}
use database_internals.Memory.{Memory}
use database_internals.Storage.SlottedPage.{init, internal_page, slot_count, get_free_space}
use database_internals.Storage.SlottedPage.Layout.{IsFormed, IsFilled}
use database_internals.Storage.SlottedPage.Init.{init-IsFormed}
use database_internals.Storage.SlottedPage.Ranked.{length-records}
use database_internals.Storage.SlottedPage.Appended.{insert_record-IsAppended}
use database_internals.Storage.SlottedPage.Appended.Steps.{HasNoDead}
use database_internals.Index.Split.{split_node, internal_pivot}
use database_internals.Index.Split.Node.{IsParted, split_node-IsParted}

abbrev zeros : Memory
zeros a = 0

abbrev blank : Memory
blank = init zeros zeros 1 internal_page

-- A page with at least `n` bytes free.
record IsReady (m : Memory) (n : ℕ) : Type 0 where
  formed : IsFormed m
  filled : IsFilled m
  no_dead : HasNoDead m
  free : n ≤ get_free_space m

blank_empty : slot_count blank ≡ 0
blank_empty =
    let (_, e, _, _, _, _) = init-IsFormed zeros zeros 1 internal_page in
    omega (arith, ap length e, length-records blank)

blank-IsReady : IsReady blank 64
blank-IsReady =
    let (w, _, free, _, _, _) = init-IsFormed zeros zeros 1 internal_page in
    record {
      formed = w;
      filled = λ i h l. absurd (omega (arith, blank_empty));
      no_dead = λ i h l. omega (arith, blank_empty);
      free = omega (arith, free);
    }

with_record :
    (m : Memory) (bytes : List ℕ) (n : ℕ)
    → IsReady m (n + length bytes + 4)
    → 0 < length bytes
    → (m' : Memory) × IsReady m' n
with_record m bytes n r p =
    let (m', e, q) =
      insert_record-IsAppended m bytes r.formed r.filled r.no_dead p (omega (arith, r.free)) in
    (
      m',
      record {
        formed = q.formed;
        filled = q.filled;
        no_dead = q.no_dead;
        free = omega (arith, q.free, r.free);
      },
    )

-- The keys 3 and 5, of one byte, and the children 7 and 9.
abbrev node : (m : Memory) × IsReady m 38
node =
    let (m1, r1) = with_record blank (3 ∷ []) 59 blank-IsReady (omega arith) in
    let (m2, r2) = with_record m1 (7 ∷ 0 ∷ 0 ∷ 0 ∷ []) 51 r1 (omega arith) in
    let (m3, r3) = with_record m2 (5 ∷ []) 46 r2 (omega arith) in
    with_record m3 (9 ∷ 0 ∷ 0 ∷ 0 ∷ []) 38 r3 (omega arith)

split_node-IsParted_example :
    (left : Memory) × (right : Memory) × (split_node zeros zeros node.0 2 ≡ ok (left, right))
    × IsParted node.0 left right (internal_pivot node.0)
split_node-IsParted_example =
    split_node-IsParted zeros zeros node.0 2 node.1.formed node.1.filled node.1.no_dead
