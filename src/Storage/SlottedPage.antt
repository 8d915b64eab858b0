-- ===== src/Storage/SlottedPage.antt =====
-- storage/slotted_page.h and storage/slotted_page.cpp: a page of 4096 bytes as a header of 40
-- bytes, an array of slots of four bytes that grows up, and a heap of records that grows down. A
-- page is the memory from its first byte on; the fields stand where the target's layout of
-- `SlottedPageHeader` puts them. A record is the list of its bytes, of a length that a `uint16_t`
-- holds.
pub mod Layout
pub mod Ordered
pub mod Fetched
pub mod Edits
pub mod Init
pub mod Compact
pub mod Ranked
pub mod Refill
pub mod Appended
pub mod Reused
pub mod Header
mod Tests
use database_internals.Prelude.{
  ℕ, zero, suc, ◌+◌, ◌-◌, ◌*◌, ◌/◌, ◌%◌, ◌^◌, ◌≡◌, refl, List, [], ◌∷◌, ◌++◌, arith, length, ltb,
  leb, ◌==◌, ◌&&◌, if◌then◌else◌, Bool, true, false, not, Option, none, some, Outcome, ok, aborted,
  undefined, thrown, ◌>>=◌, sub_size, replicate,
}
use database_internals.Memory.{Memory, write_bytes, read_bytes, write_le, read_le}

abbrev pub page_size : ℕ
page_size = 4096

-- `sizeof(SlottedPageHeader)`.
abbrev pub header_size : ℕ
header_size = 40

abbrev pub invalid_page_id : ℕ
invalid_page_id = 2 ^ 32 - 1

pub data SlottedPageType : Type 0 where
  internal_page leaf_page : SlottedPageType

abbrev pub page_type_code : SlottedPageType → ℕ
page_type_code internal_page = 0
page_type_code leaf_page = 1

abbrev pub slot_count : Memory → ℕ
slot_count m = read_le 2 m 20

abbrev pub free_space_ptr : Memory → ℕ
free_space_ptr m = read_le 2 m 22

abbrev pub page_type : Memory → ℕ
page_type m = read_le 1 m 24

abbrev pub left_sibling : Memory → ℕ
left_sibling m = read_le 4 m 28

abbrev pub right_sibling : Memory → ℕ
right_sibling m = read_le 4 m 32

abbrev pub set_slot_count : Memory → ℕ → Memory
set_slot_count m n = write_le 2 m 20 n

abbrev pub set_free_space_ptr : Memory → ℕ → Memory
set_free_space_ptr m p = write_le 2 m 22 p

unfoldable pub set_left_sibling : Memory → ℕ → Memory
set_left_sibling m id = write_le 4 m 28 id

unfoldable pub set_right_sibling : Memory → ℕ → Memory
set_right_sibling m id = write_le 4 m 32 id

-- `init`. The header is an object on the stack, whose padding is copied with it: `header` is what
-- its bytes are before the assignments.
pub init : (header : Memory) → Memory → (page_id : ℕ) → SlottedPageType → Memory
init header m page_id type =
    let h = write_le 4 header 0 page_id in
    let h = write_le 1 h 24 (page_type_code type) in
    let h = write_le 2 h 20 0 in
    let h = write_le 8 h 8 0 in
    let h = write_le 4 h 16 0 in
    let h = write_le 2 h 22 page_size in
    let h = write_le 4 h 28 invalid_page_id in
    let h = write_le 4 h 32 invalid_page_id in
    write_bytes (write_bytes m 0 (read_bytes h 0 header_size)) header_size
      (replicate (page_size - header_size) 0)

-- A `Slot*`: where in the page the slot stands.
unfoldable pub get_slot : Memory → ℕ → Option ℕ
get_slot m i = if leb (slot_count m) i then none else some ((header_size + 4 * i) % 2 ^ 16)

abbrev pub slot_offset : Memory → ℕ → ℕ
slot_offset m s = read_le 2 m s

abbrev pub slot_size : Memory → ℕ → ℕ
slot_size m s = read_le 2 m (s + 2)

abbrev pub write_slot : Memory → ℕ → ℕ → ℕ → Memory
write_slot m s offset size = write_le 2 (write_le 2 m s offset) (s + 2) size

-- A slot pointer that is not null, to a record.
abbrev pub is_live : Memory → Option ℕ → Bool
is_live m none = false
is_live m (some s) = not (slot_offset m s == 0)

-- A slot pointer that is not null, to a tombstone.
abbrev pub is_dead : Memory → Option ℕ → Bool
is_dead m none = false
is_dead m (some s) = slot_offset m s == 0

-- The loop of `find_first_free_slot_id`, from slot `i` over `k` slots.
pub first_free_from : Memory → ℕ → ℕ → ℕ
unfolding get_slot
first_free_from m i zero = slot_count m
first_free_from m i (suc k) =
    let rest = first_free_from m (suc i) k in if is_dead m (get_slot m i) then i else rest

pub find_first_free_slot_id : Memory → ℕ
unfolding first_free_from
find_first_free_slot_id m = first_free_from m 0 (slot_count m)

-- The gap is computed in `size_t`, narrowed to an `int32_t` and returned as a `uint16_t`.
pub get_free_space : Memory → ℕ
get_free_space m = sub_size (free_space_ptr m) (header_size + 4 * slot_count m) % 2 ^ 16

-- What the tombstones among `k` slots from `i` on give back.
pub dead_space : Memory → ℕ → ℕ → ℕ
unfolding get_slot
dead_space m i zero = 0
dead_space m i (suc k) = let rest = dead_space m (suc i) k in dead_at (get_slot m i) + rest
  where
    dead_at : Option ℕ → ℕ
    dead_at none = 0
    dead_at (some s) = if slot_offset m s == 0 then slot_size m s + 4 else 0

-- The sum is an `int32_t`; below zero it counts as zero.
pub get_total_free_space : Memory → ℕ
unfolding dead_space
get_total_free_space m =
    let have = free_space_ptr m + dead_space m 0 (slot_count m) in
    let used = header_size + 4 * slot_count m in if ltb have used then 0 else (have - used) % 2 ^ 16

pub can_insert_contiguous : Memory → ℕ → Bool → Bool
unfolding get_free_space
can_insert_contiguous m len needs_new_slot =
    leb (len + (if needs_new_slot then 4 else 0)) (get_free_space m)

-- The pointers to the live slots among `k` slots from `i` on.
pub live_slots : Memory → ℕ → ℕ → List ℕ
unfolding get_slot
live_slots m i zero = []
live_slots m i (suc k) = let rest = live_slots m (suc i) k in add_live (get_slot m i) rest
  where
    add_live : Option ℕ → List ℕ → List ℕ
    add_live none rest = rest
    add_live (some s) rest = if slot_offset m s == 0 then rest else s ∷ rest

-- `std::sort` by descending offset.
pub insert_slot : Memory → ℕ → List ℕ → List ℕ
insert_slot m s [] = s ∷ []
insert_slot m s (t ∷ ts) =
    let rest = insert_slot m s ts in
    if ltb (slot_offset m s) (slot_offset m t) then t ∷ rest else s ∷ (t ∷ ts)

pub sort_slots : Memory → List ℕ → List ℕ
unfolding insert_slot
sort_slots m [] = []
sort_slots m (s ∷ ss) = insert_slot m s (sort_slots m ss)

-- One turn of the loop that packs the records, with `current_free_ptr` before it, and the loop.
pub pack_one : Memory → ℕ → ℕ → Memory × ℕ
pack_one m free s =
    let free = (free + 2 ^ 16 - slot_size m s) % 2 ^ 16 in
    if slot_offset m s == free then (m, free) else (
      write_le 2 (write_bytes m free (read_bytes m (slot_offset m s) (slot_size m s))) s free,
      free,
    )

pub pack_all : List ℕ → Memory → ℕ → Memory × ℕ
unfolding pack_one
pack_all [] m free = (m, free)
pack_all (s ∷ ss) m free = let (m', free') = pack_one m free s in pack_all ss m' free'

-- The loop that drops the tombstones: `k` slots from `read_idx` on. It ends with `write_idx`.
pub drop_dead : ℕ → Memory → (read_idx write_idx : ℕ) → Memory × ℕ
unfolding get_slot
drop_dead zero m r w = (m, w)
drop_dead (suc k) m r w =
    let moved = move_slot m (get_slot m r) (get_slot m w) in
    let skip = drop_dead k m (suc r) w in
    let keep = drop_dead k (if w == r then m else moved) (suc r) (suc w) in
    if is_live m (get_slot m r) then keep else skip
  where
    move_slot : Memory → Option ℕ → Option ℕ → Memory
    move_slot m (some from) (some to) = write_bytes m to (read_bytes m from 4)
    move_slot m _ _ = m

pub compactify : Memory → Memory
unfolding live_slots sort_slots pack_all drop_dead
compactify m =
    let (packed, free) = pack_all (sort_slots m (live_slots m 0 (slot_count m))) m page_size in
    let (kept, count) = drop_dead (slot_count m) (set_free_space_ptr packed free) 0 0 in
    set_slot_count kept count

-- `assert(slot_ptr != nullptr)` and the two assignments.
pub fill_slot : Memory → Option ℕ → ℕ → ℕ → Outcome Memory
fill_slot m none offset size = aborted
fill_slot m (some s) offset size = ok (write_slot m s offset size)

-- The heap's part of an insertion: the record at its place, and the pointer to it.
pub push_record : Memory → List ℕ → Memory × ℕ
push_record m bytes =
    let offset = (free_space_ptr m + 2 ^ 16 - length bytes) % 2 ^ 16 in
    (write_bytes (set_free_space_ptr m offset) offset bytes, offset)

pub insert_record : Memory → List ℕ → Outcome (Option ℕ × Memory)
unfolding find_first_free_slot_id get_total_free_space can_insert_contiguous compactify push_record
    fill_slot get_slot
insert_record m bytes =
    let id = find_first_free_slot_id m in
    let needs_new_slot = id == slot_count m in
    let space_needed = (length bytes + (if needs_new_slot then 4 else 0)) % 2 ^ 16 in
    if length bytes == 0
    then ok (none, m)
    else if ltb (get_total_free_space m) space_needed
    then ok (none, m)
    else (do
      let m1 = if can_insert_contiguous m (length bytes) needs_new_slot then m else compactify m
      let pushed = push_record m1 bytes
      let m2 =
          if needs_new_slot
          then set_slot_count pushed.0 ((slot_count pushed.0 + 1) % 2 ^ 16)
          else pushed.0
      m3 ← fill_slot m2 (get_slot m2 id) pushed.1 (length bytes)
      ok (some id, m3))

-- `memmove` of `n` slots one place up, from `start` on.
pub shift_slots : Memory → (start n : ℕ) → Memory
shift_slots m start n = write_bytes m (start + 4) (read_bytes m start (4 * n))

-- The gap in the slot array at `pos`, and the new number of slots.
pub open_gap : Memory → ℕ → Memory
unfolding shift_slots
open_gap m pos =
    let n = (slot_count m + 2 ^ 16 - pos) % 2 ^ 16 in
    let shifted = shift_slots m (header_size + 4 * pos) n in
    set_slot_count shifted ((slot_count shifted + 1) % 2 ^ 16)

-- The part of `insertRecordAt` behind the tests and the compaction.
pub place_at : Memory → ℕ → List ℕ → Outcome (Option ℕ × Memory)
unfolding push_record open_gap fill_slot get_slot
place_at m pos bytes = do
  let pushed = push_record m bytes
  let grown = open_gap pushed.0 pos
  filled ← fill_slot grown (get_slot grown pos) pushed.1 (length bytes)
  ok (some pos, filled)

pub insert_record_at : Memory → ℕ → List ℕ → Outcome (Option ℕ × Memory)
unfolding get_total_free_space can_insert_contiguous compactify place_at live_slots
insert_record_at m pos bytes =
    if length bytes == 0
    then ok (none, m)
    else if ltb (slot_count m) pos
    then ok (none, m)
    else if ltb (get_total_free_space m) ((length bytes + 4) % 2 ^ 16)
    then ok (none, m)
    else if can_insert_contiguous m (length bytes) true
    then place_at m pos bytes
    else place_at (compactify m) (length (live_slots m 0 pos)) bytes

pub bury : Memory → Option ℕ → Bool × Memory
bury m none = (false, m)
bury m (some s) = if slot_offset m s == 0 then (false, m) else (true, write_le 2 m s 0)

pub delete_record : Memory → ℕ → Bool × Memory
unfolding get_slot bury
delete_record m i = bury m (get_slot m i)

-- The pointer and the length that `getRecord` returns; `none` is `{nullptr, 0}`.
unfoldable pub span : Memory → Option ℕ → Option (ℕ × ℕ)
span m none = none
span m (some s) = if slot_offset m s == 0 then none else some (slot_offset m s, slot_size m s)

unfoldable pub get_record : Memory → ℕ → Option (ℕ × ℕ)
unfolding get_slot span
get_record m i = span m (get_slot m i)

pub overwrite : Memory → List ℕ → Option ℕ → Bool × Memory
overwrite m bytes none = (false, m)
overwrite m bytes (some s) =
    if slot_size m s == length bytes
    then (true, write_bytes m (slot_offset m s) bytes)
    else (false, m)

pub update_record : Memory → ℕ → List ℕ → Bool × Memory
unfolding get_slot overwrite
update_record m i bytes = overwrite m bytes (get_slot m i)
