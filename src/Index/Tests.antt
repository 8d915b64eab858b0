-- ===== src/Index/Tests.antt =====
-- A tree of one leaf with the key 5.
use database_internals.Prelude.{
  ℕ, zero, suc, ◌≢◌, ◌+◌, ◌-◌, ◌*◌, ◌/◌, ◌%◌, ◌^◌, ◌==◌, ◌<◌, ◌≤◌, ◌≡◌, refl, sym, ap, fun_ext, ◌⊎◌,
  if◌then◌else◌, true, false, none, some, ok, undefined, arith, subst,
}
use database_internals.Memory.{Memory, read_bytes, read_le, of_le}
use database_internals.Storage.DiskManager.{System, read_page, read_at}
use database_internals.Storage.SlottedPage.{
  slot_count, get_record, get_slot, span, free_space_ptr, slot_offset, slot_size, right_sibling,
  get_total_free_space, page_type, page_type_code, leaf_page, page_size,
}
use database_internals.Storage.SlottedPage.Layout.{
  slot_at, sizes_from, IsFormed, IsFilled, get_free_space_lem, get_total_free_space-le,
}
use database_internals.Types.Value.{
  numeric, num, same, compare_int, deserialize, make_int, sign_extend, biased,
}
use database_internals.Index.Key.{
  Key, KeyFormat, from_bytes, extract_key, compare_keys, compare_values, to_value, bytes_read,
}
use database_internals.Index.Search.Leaf.{IsLowerBound}
use database_internals.Index.Iterator.{seek_first_after}
use database_internals.Index.Iterator.Seek.{seek_first_after-Divides}
use database_internals.Index.Split.{split_leaf, insert}
use database_internals.Index.Split.Placed.{IsInserted, insert-IsInserted}
use database_internals.Index.Split.Pivot.{IsPivot}
use database_internals.Index.Split.Halves.{IsSplit, split_leaf-IsSplit}
use database_internals.Index.Tree.{
  BPlusTree, FindRecordMetadata, is_less, is_same, is_greater, is_live, slot_key, record_bytes,
  find_record, get, child_slot_of,
}
use database_internals.Index.Tree.Children.{child_slot_of-floor}
use database_internals.Index.Tree.Lookup.{
  IsOrdered, Leads, arrives, is_live-inside, find_record-IsLowerBound, get-IsOrdered,
}

-- A NUMERIC key of 8 bytes at the start of the record.
abbrev format : KeyFormat
format = record {
  float_format = record { narrow = λ b. b; widen = λ b. b };
  compare_fp = λ a b. same;
  key_type_id = numeric;
  key_width = 8;
  key_offset = 0;
}

-- One slot, whose record of 8 bytes stands at byte 4088.
abbrev leaf : Memory
leaf a =
    if a == 20
    then 1
    else if a == 22
    then 248
    else if a == 23
    then 15
    else if a == 24
    then 1
    else if a == 40
    then 248
    else if a == 41
    then 15
    else if a == 42
    then 8
    else if a == 4088
    then 5
    else 0

abbrev sound : System
sound = record { read_fails = λ f o. false; write_fails = λ f o. false }

-- The leaf is page 0 of the file, and the next page is page 3.
abbrev tree : BPlusTree
tree = record {
  disk = record {
    file = record { bytes = leaf; size = 12288 };
    global_metadata = λ a. if a == 16 then 3 else 0;
  };
  root_page_id = 0;
}

abbrev key_of : ℕ → Key
key_of v = from_bytes format (λ a. if a == 0 then v else 0) 0 8 8

one_slot : slot_count leaf ≡ 1
unfolding read_le read_bytes of_le
one_slot = refl

live_slot : is_live leaf 0 ≡ true
unfolding is_live get_record get_slot span read_le read_bytes of_le
live_slot = refl

only_slot : (i : ℕ) → is_live leaf i ≡ true → i ≡ 0
only_slot i l =
    let k : i < slot_count leaf = is_live-inside format leaf i l in
    omega (arith, subst (λ n. i < n) one_slot k)

leaf_free : free_space_ptr leaf ≡ 4088
unfolding read_le read_bytes of_le
leaf_free = refl

leaf_offset : slot_offset leaf (slot_at 0) ≡ 4088
unfolding read_le read_bytes of_le
leaf_offset = refl

leaf_size : slot_size leaf (slot_at 0) ≡ 8
unfolding read_le read_bytes of_le
leaf_size = refl

leaf_sizes : sizes_from leaf 0 (slot_count leaf) ≡ 8
unfolding read_le read_bytes of_le sizes_from
leaf_sizes = refl

leaf_right : right_sibling leaf ≡ 0
unfolding read_le read_bytes of_le
leaf_right = refl

leaf-IsFormed : IsFormed leaf
leaf-IsFormed = record {
  slots_fit = omega (arith, one_slot, leaf_free);
  heap_fits = omega (arith, leaf_sizes, leaf_free);
  inside = inside;
  apart = λ i j h k p q. absurd (omega (arith, one_slot));
}
  where
    inside :
        (i : ℕ)
        → i < slot_count leaf
        → slot_offset leaf (slot_at i) ≢ 0
        → (free_space_ptr leaf ≤ slot_offset leaf (slot_at i))
          × (slot_offset leaf (slot_at i) + slot_size leaf (slot_at i) ≤ page_size)
    inside zero h l = (omega (arith, leaf_free, leaf_offset), omega (arith, leaf_offset, leaf_size))
    inside (suc i) h l = absurd (omega (arith, one_slot))

leaf-IsFilled : IsFilled leaf
leaf-IsFilled zero h l = omega (arith, leaf_size)
leaf-IsFilled (suc i) h l = absurd (omega (arith, one_slot))

-- The one record is the pivot.
split_leaf-IsSplit_example :
    (pivot : ℕ) × (left : Memory) × (right : Memory) × (split_leaf leaf leaf leaf 0 3
      ≡ ok (left, right))
    × IsPivot leaf pivot
    × IsSplit leaf left right 0 3 pivot
split_leaf-IsSplit_example =
    split_leaf-IsSplit leaf leaf leaf 0 3 0 leaf-IsFormed leaf-IsFilled (omega (arith, one_slot))
      live_slot (omega arith) (omega arith) (omega (arith, leaf_right))

compares : compare_keys format (slot_key format leaf 0) (key_of 5) ≡ ok same
unfolding compare_keys compare_values to_value bytes_read slot_key extract_key get_record get_slot
    span read_le read_bytes of_le deserialize make_int sign_extend compare_int biased
compares = refl

compares_back : compare_keys format (key_of 5) (slot_key format leaf 0) ≡ ok same
unfolding compare_keys compare_values to_value bytes_read slot_key extract_key get_record get_slot
    span read_le read_bytes of_le deserialize make_int sign_extend compare_int biased
compares_back = refl

ordered : IsOrdered format leaf (key_of 5) (λ i. same)
unfolding read_le read_bytes of_le
ordered = record {
  small = omega arith;
  read = λ i l.
      subst (λ j. compare_keys format (slot_key format leaf j) (key_of 5) ≡ ok same)
        (sym (only_slot i l)) compares;
  sorted = λ i j a l m e. e;
}

behind_zero : (x : ℕ) → 0 + x ≡ x
behind_zero x = omega arith

read_leaf : read_page sound tree.disk 0 ≡ ok leaf
unfolding read_page read_at read_le read_bytes of_le
read_leaf = ap ok (fun_ext (λ x. ap leaf (behind_zero x)))

leaf_is_leaf : (page_type leaf == page_type_code leaf_page) ≡ true
unfolding read_le read_bytes of_le
leaf_is_leaf = refl

way : Leads format sound tree.disk (key_of 5) 0 0 0 leaf
way = arrives read_leaf leaf_is_leaf

find_record-IsLowerBound_example :
    (f : FindRecordMetadata) × (find_record format sound 1 tree (key_of 5) ≡ ok f)
    × (f.leaf_page ≡ 0)
    × IsLowerBound (is_live leaf) (λ i. is_less same) (slot_count leaf) f.leaf_slot
find_record-IsLowerBound_example =
    find_record-IsLowerBound format sound tree (key_of 5) 0 0 1 leaf (λ i. same) way (omega arith)
      ordered

target_value : to_value format (key_of 5) ≡ ok (num 5 8)
unfolding to_value bytes_read deserialize make_int sign_extend read_le read_bytes of_le
target_value = refl

get-IsOrdered_example :
    ((r : ℕ) × (is_live leaf r ≡ true)
      × (is_less same ≡ false)
      × ((i : ℕ) → i < r → is_live leaf i ≡ true → is_less same ≡ true)
      × (get format sound 1 tree (key_of 5)
          ≡ ok (if is_same same then some (record_bytes leaf (get_record leaf r)) else none)))
    ⊎ (((i : ℕ) → is_live leaf i ≡ true → is_less same ≡ true)
        × (get format sound 1 tree (key_of 5) ≡ undefined))
get-IsOrdered_example =
    get-IsOrdered format sound tree (key_of 5) 0 0 1 leaf (λ i. same) (num 5 8) way (omega arith)
      ordered
      (λ i l.
        subst (λ j. compare_keys format (key_of 5) (slot_key format leaf j) ≡ ok same)
          (sym (only_slot i l)) compares_back)
      refl (omega arith) target_value

-- Another record with the key 5.
abbrev incoming : Memory
incoming a = if a == 0 then 5 else 0

incoming_key : extract_key format incoming 8 (some (0, 8)) ≡ key_of 5
unfolding extract_key
incoming_key = refl

leaf_room : 12 ≤ get_total_free_space leaf
leaf_room = omega (
  arith,
  get_free_space_lem leaf leaf-IsFormed,
  get_total_free_space-le leaf leaf-IsFormed,
  one_slot,
  leaf_free,
)

insert-IsInserted_example :
    (pos : ℕ) × (t' : BPlusTree) × (insert format sound leaf leaf 1 tree incoming 8 ≡ ok (true, t'))
    × IsLowerBound (is_live leaf) (λ i. is_less same) (slot_count leaf) pos
    × IsInserted sound tree t' 0 pos leaf (read_bytes incoming 0 8)
insert-IsInserted_example =
    insert-IsInserted format sound leaf leaf tree incoming 8 0 0 1 leaf (λ i. same)
      (arrives read_leaf leaf_is_leaf) (omega arith)
      (subst (λ k. IsOrdered format leaf k (λ i. same)) (sym incoming_key) ordered) leaf-IsFormed
      leaf-IsFilled (omega arith) (omega arith) (omega (arith, leaf_room)) (omega arith)
      (λ f o. refl) refl

seek_first_after-Divides_example :
    (r : ℕ) × (seek_first_after format leaf (key_of 5) ≡ ok r)
    × (r ≤ slot_count leaf)
    × ((i : ℕ) → i < r → is_live leaf i ≡ true → is_greater same ≡ false)
    × ((i : ℕ) → r ≤ i → is_live leaf i ≡ true → is_greater same ≡ true)
seek_first_after-Divides_example =
    seek_first_after-Divides format leaf (key_of 5) (λ i. same) (omega (arith, one_slot))
      ordered.read (λ i j a l m h. h)

-- An internal page of one pair, whose key 5 and child stand where the leaf's record stands.
abbrev inner : Memory
inner a = if a == 20 then 2 else if a == 24 then 0 else leaf a

inner_slots : slot_count inner ≡ 2
unfolding read_le read_bytes of_le
inner_slots = refl

reads_key : compare_keys format (slot_key format inner 0) (key_of 5) ≡ ok same
unfolding compare_keys compare_values to_value bytes_read slot_key extract_key get_record get_slot
    span read_le read_bytes of_le deserialize make_int sign_extend compare_int biased
reads_key = refl

child_slot_of-floor_example :
    (r : ℕ) × (r ≤ slot_count inner / 2)
    × (child_slot_of format (key_of 5) inner ≡ ok (((r - 1) * 2 + 1) % 2 ^ 16))
    × ((i : ℕ) → i < r → is_greater same ≡ false)
    × ((i : ℕ) → r ≤ i → i < slot_count inner / 2 → is_greater same ≡ true)
child_slot_of-floor_example =
    child_slot_of-floor format inner (key_of 5) (λ i. same) (omega (arith, inner_slots))
      (λ i a.
        subst (λ j. compare_keys format (slot_key format inner j) (key_of 5) ≡ ok same)
          (omega (arith, a, inner_slots)) reads_key)
      (λ i j a b c. refl)
