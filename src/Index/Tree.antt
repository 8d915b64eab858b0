-- ===== src/Index/Tree.antt =====
-- `BPlusTree` of index/b_plus_tree.h and index/b_plus_tree.cpp, on the disk manager. A page's
-- buffer is read afresh by every call, and is a value; `heap` is what a new buffer holds before,
-- and `header` the stack under the page header that `init` writes.
pub mod Lookup
pub mod Children
use database_internals.Prelude.{
  ℕ, zero, suc, ◌+◌, ◌-◌, ◌*◌, ◌/◌, ◌%◌, ◌^◌, ◌==◌, ◌||◌, Bool, true, false, not, if◌then◌else◌,
  Option, none, some, List, [], ◌∷◌, ◌++◌, ltb, leb, Outcome, ok, aborted, undefined, waits, ◌>>=◌,
  or_fail,
}
use database_internals.Memory.{Memory, read_le, read_bytes, to_le}
use database_internals.Storage.DiskManager.{
  System, DiskManager, page_size, invalid_page_id, read_page, write_page, allocate_page,
}
use database_internals.Storage.SlottedPage.{
  internal_page, leaf_page, page_type, page_type_code, slot_count, right_sibling, set_left_sibling,
  set_right_sibling, init, get_record, insert_record, insert_record_at, delete_record, compactify,
  get_free_space,
}
use database_internals.Types.Value.{Sign, less, same, greater}
use database_internals.Index.Key.{Key, KeyFormat, compare_keys, extract_key}
use database_internals.Index.Search.{search_keys, search_leaf, search_after}

pub record Breadcrumb : Type 0 where
  pub page_id : ℕ
  pub child_slot : ℕ

-- `BTStack`, with the top first.
abbrev pub BtStack : Type 0
BtStack = List Breadcrumb

pub record FindRecordMetadata : Type 0 where
  pub leaf_page : ℕ
  pub leaf_slot : ℕ
  pub bt_stack : BtStack

pub record BPlusTree : Type 0 where
  pub disk : DiskManager
  pub root_page_id : ℕ

abbrev pub is_less : Sign → Bool
is_less less = true
is_less _ = false

abbrev pub is_greater : Sign → Bool
is_greater greater = true
is_greater _ = false

abbrev pub is_same : Sign → Bool
is_same same = true
is_same _ = false

-- `getRecord(slot).second != 0`.
unfoldable pub is_live : Memory → ℕ → Bool
is_live page slot = elim (get_record page slot) [ none ↦ false | some (o, len) ↦ not (len == 0) ]

-- The bytes of a record.
abbrev pub record_bytes : Memory → Option (ℕ × ℕ) → List ℕ
record_bytes page none = []
record_bytes page (some (o, len)) = read_bytes page o len

-- `memcpy(&child_page_id, page_bytes, 4)`; a null pointer is undefined.
unfoldable pub child_at : Memory → ℕ → Outcome ℕ
child_at page slot = elim (get_record page slot) [
  | none ↦ undefined
  | some (o, len) ↦ ok (read_le 4 page o)
]

module _ (kf : KeyFormat) where
  -- The key of a record of a page.
  unfoldable pub slot_key : Memory → ℕ → Key
  slot_key page slot = extract_key kf page page_size (get_record page slot)

  -- What the two loops over the keys of an internal page test: key `i` stands in slot `2 * i`.
  unfoldable pub at_most : Key → Memory → ℕ → Outcome Bool
  unfolding slot_key
  at_most target page i = do
    s ← compare_keys kf (slot_key page (i * 2 % 2 ^ 16)) target
    ok (not (is_greater s))

  unfoldable pub smaller_key : Key → Memory → ℕ → Outcome Bool
  unfolding slot_key
  smaller_key target page i = do
    s ← compare_keys kf (slot_key page (i * 2 % 2 ^ 16)) target
    ok (is_less s)

  -- What the search of a leaf tests.
  unfoldable pub smaller_record : Key → Memory → ℕ → Outcome Bool
  unfolding slot_key
  smaller_record target page slot = do
    s ← compare_keys kf (slot_key page slot) target
    ok (is_less s)

  -- The slot of the child to descend to.
  unfoldable pub child_slot_of : Key → Memory → Outcome ℕ
  unfolding at_most
  child_slot_of target page = do
    lo ← search_keys (at_most target page) (suc (slot_count page / 2)) 0 (slot_count page / 2)
    ok (((lo - 1) * 2 + 1) % 2 ^ 16)

  unfoldable pub leaf_slot_of : Key → Memory → Outcome ℕ
  unfolding smaller_record is_live
  leaf_slot_of target page =
      search_leaf (is_live page) (smaller_record target page) (suc (slot_count page))
        (slot_count page) 0 (slot_count page) (slot_count page)

  module _ (sys : System) where
    -- The loop of `findRecord`, with fuel for the pages on the way down: the leaf, its bytes and
    -- the stack.
    unfoldable pub descend :
        (fuel : ℕ)
        → DiskManager
        → Key
        → (page_id : ℕ) → Memory
        → BtStack
        → Outcome (ℕ × Memory × BtStack)
    unfolding child_slot_of child_at
    descend zero d target page_id page stack = waits
    descend (suc fuel) d target page_id page stack =
        elim (page_type page == page_type_code leaf_page) [
          | true ↦ ok (page_id, page, stack)
          | false ↦ (do
            slot ← child_slot_of target page
            child ← child_at page slot
            next ← read_page sys d child
            descend fuel d target child next
                (record { page_id = page_id; child_slot = slot } ∷ stack))
        ]

    unfoldable pub find_record : (fuel : ℕ) → BPlusTree → Key → Outcome FindRecordMetadata
    unfolding descend leaf_slot_of
    find_record fuel t target = do
      root ← read_page sys t.disk t.root_page_id
      found ← descend fuel t.disk target t.root_page_id root []
      slot ← leaf_slot_of target found.1
      ok (record { leaf_page = found.0; leaf_slot = slot; bt_stack = found.2 })

    -- `get`: the record's bytes, or none for `{nullptr, 0}`.
    unfoldable pub get : (fuel : ℕ) → BPlusTree → Key → Outcome (Option (List ℕ))
    unfolding find_record slot_key
    get fuel t target = do
      f ← find_record fuel t target
      page ← read_page sys t.disk f.leaf_page
      s ← compare_keys kf target (slot_key page f.leaf_slot)
      ok (if is_same s then some (record_bytes page (get_record page f.leaf_slot)) else none)

    unfoldable pub remove : (fuel : ℕ) → BPlusTree → Key → Outcome (Bool × BPlusTree)
    unfolding find_record slot_key
    remove fuel t key = do
      f ← find_record fuel t key
      page ← read_page sys t.disk f.leaf_page
      s ← compare_keys kf key (slot_key page f.leaf_slot)
      if is_same s
          then (let (done, page') = delete_record page f.leaf_slot in
              if done
              then (do
                d ← write_page sys t.disk f.leaf_page page'
                ok (true, record t { disk = d }))
              else ok (false, t))
          else ok (false, t)
