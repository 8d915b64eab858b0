-- ===== src/Index/Split.antt =====
-- `insert` of `BPlusTree` and what it does with a full page: `splitChild`, `splitInternal`,
-- `splitRoot` and `insertIntoParent`.
pub mod Seen
pub mod Leaf
pub mod Pivot
pub mod Halves
pub mod Node
mod Tests
pub mod Placed
use database_internals.Prelude.{
  ℕ, zero, suc, ◌+◌, ◌-◌, ◌*◌, ◌/◌, ◌%◌, ◌^◌, ◌==◌, Bool, true, false, if◌then◌else◌, none, some,
  List, [], ◌∷◌, ltb, Outcome, ok, undefined, waits, ◌>>=◌,
}
use database_internals.Memory.{Memory, read_bytes, to_le}
use database_internals.Storage.DiskManager.{
  System, invalid_page_id, read_page, write_page, allocate_page,
}
use database_internals.Storage.SlottedPage.{
  internal_page, leaf_page, slot_count, right_sibling, set_left_sibling, set_right_sibling, init,
  get_record, insert_record, insert_record_at, delete_record, compactify, get_free_space,
}
use database_internals.Index.Key.{Key, KeyFormat, compare_keys, extract_key}
use database_internals.Index.Search.{search_keys, next_slot}
use database_internals.Index.Tree.{
  BtStack, BPlusTree, is_less, is_live, record_bytes, slot_key, smaller_key, find_record,
}

-- `key.GetData()` and `key.GetSize()`; a view that runs over its memory is undefined to copy.
abbrev key_bytes : Key → Outcome (List ℕ)
key_bytes k =
    if ltb k.limit (k.start + k.size) then undefined else ok (read_bytes k.memory k.start k.size)

-- `insertRecord` and `insertRecordAt`, whose results nobody looks at.
abbrev pub put_record : Memory → List ℕ → Outcome Memory
put_record page bytes = do r ← insert_record page bytes; ok r.1

abbrev put_record_at : Memory → ℕ → List ℕ → Outcome Memory
put_record_at page slot bytes = do r ← insert_record_at page slot bytes; ok r.1

-- `while (rec.second == 0) pivot++` on 16-bit numbers: where no slot is live it goes round for
-- ever.
pub first_live : Memory → (fuel slot : ℕ) → Outcome ℕ
first_live page zero slot = waits
first_live page (suc fuel) slot = elim (is_live page slot) [
  | true ↦ ok slot
  | false ↦ first_live page fuel (next_slot slot)
]

-- The loop that moves the live records from `slot` on to the end of the new page.
pub move_live : (left : ℕ) → (slot : ℕ) → Memory → Memory → Outcome (Memory × Memory)
move_live zero slot page fresh = ok (page, fresh)
move_live (suc left) slot page fresh = elim (is_live page slot) [
  | false ↦ move_live left (next_slot slot) page fresh
  | true ↦ (do
    fresh' ← put_record fresh (record_bytes page (get_record page slot))
    move_live left (next_slot slot) (delete_record page slot).1 fresh')
]

-- The same in an internal page, where every slot is moved; a null pointer is copied as no bytes.
pub move_all : (left : ℕ) → (slot : ℕ) → Memory → Memory → Outcome (Memory × Memory)
move_all zero slot page fresh = ok (page, fresh)
move_all (suc left) slot page fresh = do
  fresh' ← put_record fresh (record_bytes page (get_record page slot))
  move_all left (next_slot slot) (delete_record page slot).1 fresh'

-- The first slot that moves: a key's, half way.
abbrev pub internal_pivot : Memory → ℕ
internal_pivot page = slot_count page / 2 / 2 * 2 % 2 ^ 16

-- The two halves of a leaf: its own page, and the page that becomes its right sibling.
pub split_leaf : (heap header : Memory) → Memory → (leaf fresh : ℕ) → Outcome (Memory × Memory)
unfolding first_live move_live
split_leaf heap header page leaf fresh = do
  pivot ← first_live page (2 ^ 16) (slot_count page / 2)
  moved ← move_live (slot_count page - pivot) pivot (set_right_sibling page fresh) (
      set_right_sibling (set_left_sibling (init header heap fresh leaf_page) leaf)
        (right_sibling page))
  ok (compactify moved.0, moved.1)

-- The two halves of an internal page.
pub split_node : (heap header : Memory) → Memory → (fresh : ℕ) → Outcome (Memory × Memory)
unfolding move_all
split_node heap header page fresh = do
  moved ←
      move_all (slot_count page - internal_pivot page) (internal_pivot page) page
        (init header heap fresh internal_page)
  ok (compactify moved.0, moved.1)

module _ (kf : KeyFormat) (sys : System) (heap header : Memory) where
  pub split_root :
      BPlusTree
      → (left_child_id : ℕ) → (separator : Key) → (right_child_id : ℕ) → Outcome (ℕ × BPlusTree)
  split_root t left_child_id separator right_child_id = do
    left ← read_page sys t.disk left_child_id
    a ← allocate_page sys t.disk
    least ← key_bytes (slot_key kf left 0)
    middle ← key_bytes separator
    p1 ← put_record (init header heap a.0 internal_page) least
    p2 ← put_record p1 (to_le 4 left_child_id)
    p3 ← put_record p2 middle
    p4 ← put_record p3 (to_le 4 right_child_id)
    d ← write_page sys a.1 a.0 p4
    ok (a.0, record t { disk = d; root_page_id = a.0 })

  -- The two insertions at the end of `insertIntoParent`.
  pub insert_pair :
      BPlusTree → (page_id : ℕ) → Memory → (separator : Key) → (right : ℕ) → Outcome BPlusTree
  insert_pair t page_id page separator right = do
    lo ←
        search_keys (smaller_key kf separator page) (suc (slot_count page / 2)) 0
          (slot_count page / 2)
    bytes ← key_bytes separator
    p1 ← put_record_at page (lo * 2 % 2 ^ 16) bytes
    p2 ← put_record_at p1 ((lo * 2 + 1) % 2 ^ 16) (to_le 4 right)
    d ← write_page sys t.disk page_id p2
    ok (record t { disk = d })

  -- `splitInternal` of the page `page_id`; `up` wires the separator into the parent or a new root.
  pub split_internal :
      (up : BPlusTree → (left : ℕ) → Key → (right : ℕ) → Outcome BPlusTree)
      → BPlusTree
      → (page_id : ℕ) → Outcome (ℕ × BPlusTree)
  unfolding split_node
  split_internal up t page_id = do
    a ← allocate_page sys t.disk
    page ← read_page sys a.1 page_id
    halves ← split_node heap header page a.0
    d1 ← write_page sys a.1 page_id halves.0
    d2 ← write_page sys d1 a.0 halves.1
    t' ← up (record t { disk = d2 }) page_id (slot_key kf halves.1 0) a.0
    ok (a.0, t')

  -- Where a split page's separator goes: into the parent on top of the stack, or into a new root.
  -- The stack's pages are split in turn as long as they are full.
  pub wire_up :
      BtStack → BPlusTree → (left : ℕ) → (separator : Key) → (right : ℕ) → Outcome BPlusTree
  unfolding split_root insert_pair split_internal
  wire_up [] t left separator right = do r ← split_root t left separator right; ok r.1
  wire_up (b ∷ bs) t left separator right = do
    page ← read_page sys t.disk b.page_id
    let needed = (separator.size + 4 + 8) % 2 ^ 16 in
        let page1 = if ltb (get_free_space page) needed then compactify page else page in
        elim (ltb (get_free_space page1) needed) [
          | false ↦ insert_pair t b.page_id page1 separator right
          | true ↦ (do
            r ← split_internal (wire_up bs) t b.page_id
            fresh ← read_page sys r.1.disk r.0
            s ← compare_keys kf (slot_key kf fresh 0) separator
            page2 ← read_page sys r.1.disk (if is_less s then r.0 else b.page_id)
            insert_pair r.1 (if is_less s then r.0 else b.page_id) page2 separator right)
        ]

  -- The old right sibling's left neighbour becomes the new page.
  pub relink : BPlusTree → (right_sibling_id fresh : ℕ) → Outcome BPlusTree
  relink t right_sibling_id fresh = elim (right_sibling_id == invalid_page_id) [
    | true ↦ ok t
    | false ↦ (do
      page ← read_page sys t.disk right_sibling_id
      d ← write_page sys t.disk right_sibling_id (set_left_sibling page fresh)
      ok (record t { disk = d }))
  ]

  pub split_child : (fuel : ℕ) → BPlusTree → BtStack → (child : Key) → Outcome (ℕ × BPlusTree)
  unfolding split_leaf relink wire_up
  split_child fuel t bt_stack child = do
    f ← find_record kf sys fuel t child
    a ← allocate_page sys t.disk
    page ← read_page sys a.1 f.leaf_page
    halves ← split_leaf heap header page f.leaf_page a.0
    d1 ← write_page sys a.1 f.leaf_page halves.0
    d2 ← write_page sys d1 a.0 halves.1
    t' ← relink (record t { disk = d2 }) (right_sibling page) a.0
    t'' ← wire_up bt_stack t' f.leaf_page (slot_key kf halves.1 0) a.0
    ok (a.0, t'')

  -- `bytes` is `record`, a buffer of `len` bytes of the caller. Where the leaf has no room it is
  -- split, and the call returns without another attempt.
  pub insert : (fuel : ℕ) → BPlusTree → (bytes : Memory) → (len : ℕ) → Outcome (Bool × BPlusTree)
  unfolding split_child
  insert fuel t bytes len = do
    f ← find_record kf sys fuel t (extract_key kf bytes len (some (0, len)))
    page ← read_page sys t.disk f.leaf_page
    placed ← insert_record_at page f.leaf_slot (read_bytes bytes 0 len)
    elim placed.0 [
      | none ↦ (do
        r ← split_child fuel t f.bt_stack (extract_key kf bytes len (some (0, len)))
        ok (true, r.1))
      | some slot ↦ (do
        d ← write_page sys t.disk f.leaf_page placed.1
        ok (true, record t { disk = d }))
    ]
