-- ===== src/Index/Iterator.antt =====
-- `BPlusTreeIterator` of index/b_plus_tree.h, and `scan` of index/b_plus_tree.cpp.
pub mod Seek
use database_internals.Prelude.{
  ℕ, zero, suc, ◌==◌, Bool, true, false, if◌then◌else◌, Option, none, some, ltb, Outcome, ok, waits,
  ◌>>=◌, not,
}
use database_internals.Memory.{Memory}
use database_internals.Storage.DiskManager.{System, DiskManager, invalid_page_id, read_page}
use database_internals.Storage.SlottedPage.{slot_count, right_sibling, get_record}
use database_internals.Index.Key.{Key, KeyFormat, compare_keys}
use database_internals.Index.Search.{search_after, skip_dead}
use database_internals.Index.Tree.{BPlusTree, is_greater, is_live, slot_key, find_record}

-- `page` is the buffer `data_`, and `last_key` a view of it.
pub record BPlusTreeIterator : Type 0 where
  pub page_id : ℕ
  pub page : Memory
  pub start_slot : ℕ
  pub last_key : Option Key
  pub end_key : Key

module _ (kf : KeyFormat) where
  -- What `seekFirstAfter` tests.
  unfoldable pub reached : Key → Memory → ℕ → Outcome Bool
  reached key page slot = do
    s ← compare_keys kf (slot_key kf page slot) key
    ok (not (is_greater s))

  unfoldable pub seek_first_after : Memory → Key → Outcome ℕ
  unfolding reached
  seek_first_after page key =
      search_after (is_live page) (reached key page) (suc (slot_count page)) 0 (slot_count page)

  -- Where `Next` begins. The last key's bytes are those that stand in the buffer now.
  unfoldable pub start_of : BPlusTreeIterator → Outcome ℕ
  unfolding seek_first_after
  start_of it = elim it.last_key [
    | none ↦ ok it.start_slot
    | some key ↦ seek_first_after it.page (record key { memory = it.page })
  ]

  module _ (sys : System) (d : DiskManager) where
    -- The loop of `Next`, with fuel for the leaves that it crosses; the record's place in the
    -- buffer and its length.
    unfoldable pub next_from :
        (fuel : ℕ) → BPlusTreeIterator → (pos : ℕ) → Outcome (Option (ℕ × ℕ) × BPlusTreeIterator)
    next_from zero it pos = waits
    next_from (suc fuel) it pos = do
      q ← skip_dead (is_live it.page) (suc (slot_count it.page)) pos (slot_count it.page)
      elim (ltb q (slot_count it.page)) [
        | true ↦ (do
          s ← compare_keys kf (slot_key kf it.page q) it.end_key
          ok (
              if is_greater s
              then (none, it)
              else (get_record it.page q, record it { last_key = some (slot_key kf it.page q) })))
        | false ↦ elim (right_sibling it.page == invalid_page_id) [
          | true ↦ ok (none, it)
          | false ↦ (do
            page ← read_page sys d (right_sibling it.page)
            next_from fuel (record it { page_id = right_sibling it.page; page = page }) 0)
        ]
      ]

    unfoldable pub next :
        (fuel : ℕ) → BPlusTreeIterator → Outcome (Option (ℕ × ℕ) × BPlusTreeIterator)
    unfolding start_of next_from
    next fuel it = do pos ← start_of it; next_from fuel it pos

  unfoldable pub scan :
      System → (fuel : ℕ) → BPlusTree → (from to : Key) → Outcome BPlusTreeIterator
  unfolding find_record
  scan sys fuel t from to = do
    f ← find_record kf sys fuel t from
    page ← read_page sys t.disk f.leaf_page
    ok (record {
      page_id = f.leaf_page;
      page = page;
      start_slot = f.leaf_slot;
      last_key = none;
      end_key = to;
    })
