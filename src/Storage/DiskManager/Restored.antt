-- ===== src/Storage/DiskManager/Restored.antt =====
-- The free list before and after: what it means that it is the same.
use database_internals.Prelude.{ℕ, ◌+◌, ◌*◌, ◌≡◌, ◌≢◌, ◌<◌, ◌≤◌, ◌⊎◌, inl, inr, ◌∙◌, ap, arith}
use database_internals.Memory.{Memory, write_le, read_le}
use database_internals.Memory.Laws.{read_le_ext, read_le-write_le, read_le-write_le_apart}
use database_internals.Storage.DiskManager.{
  DiskManager, page_size, page_offset, freelist_head, current_id_count, next_freelist_page,
  free_page_id, max_free_ids, invalid_page_id,
}

-- The page at the head of the free list, in the file.
abbrev pub head_page : DiskManager → Memory
head_page d a = d.file.bytes (page_offset (freelist_head d) + a)

-- The free list is the same: its head, and of the head's page, if there is one, the next page of
-- the list, the number of pages that it lists, and these pages.
pub record IsRestored (d e : DiskManager) : Type 0 where
  pub head : freelist_head e ≡ freelist_head d
  pub next :
      freelist_head d ≢ invalid_page_id
      → next_freelist_page (head_page e) ≡ next_freelist_page (head_page d)
  pub listed :
      freelist_head d ≢ invalid_page_id
      → current_id_count (head_page e) ≡ current_id_count (head_page d)
  pub pages :
      freelist_head d ≢ invalid_page_id
      → (i : ℕ) → i < current_id_count (head_page d)
      → free_page_id (head_page e) i ≡ free_page_id (head_page d) i

-- A head whose page keeps what the list says, byte for byte or not.
pub IsRestored-same :
    (d e : DiskManager)
    → freelist_head e ≡ freelist_head d
    → ((a : ℕ) → a < page_size → e.file.bytes (page_offset (freelist_head d) + a) ≡ head_page d a)
    → current_id_count (head_page d) ≤ max_free_ids
    → IsRestored d e
IsRestored-same d e head same few = record {
  head = head;
  next = λ k. read_le_ext 4 (head_page e) (head_page d) 0 (λ a x y. moved a (omega arith));
  listed = λ k. read_le_ext 4 (head_page e) (head_page d) 4 (λ a x y. moved a (omega arith));
  pages = λ k i low.
      read_le_ext 4 (head_page e) (head_page d) (8 + 4 * i) (λ a x y. moved a (omega arith));
}
  where
    moved : (a : ℕ) → a < page_size → head_page e a ≡ head_page d a
    moved a low = ap (λ h. e.file.bytes (page_offset h + a)) head ∙ same a low

-- The head's page with `p` at its end and one more page to list.
abbrev pub grown : Memory → ℕ → Memory
grown page p =
    write_le 4 (write_le 4 page (8 + 4 * current_id_count page) p) 4 (current_id_count page + 1)

-- A page that has grown by one page and then been told its old count again.
pub IsRestored-shrunk :
    (d e : DiskManager) (shown : Memory) (p : ℕ)
    → current_id_count (head_page d) < max_free_ids
    → ((a : ℕ) → a < page_size → shown a ≡ grown (head_page d) p a)
    → freelist_head e ≡ freelist_head d
    → ((a : ℕ)
        → a < page_size
        → e.file.bytes (page_offset (freelist_head d) + a)
          ≡ write_le 4 shown 4 (current_id_count (head_page d)) a)
    → IsRestored d e
IsRestored-shrunk d e shown p room agree head same = record {
  head = head;
  next = λ k. kept 0 (omega arith) (inl (omega arith)) (inl (omega arith));
  listed = λ k.
      read_le_ext 4 (head_page e) shrunk 4 (λ a x y. moved a (omega arith))
      ∙ read_le-write_le 4 shown 4 (current_id_count (head_page d)) (omega (arith, room));
  pages = λ k i low.
      kept (8 + 4 * i) (omega (arith, room, low)) (inr (omega arith)) (inl (omega (arith, low)));
}
  where
    shrunk : Memory
    shrunk = write_le 4 shown 4 (current_id_count (head_page d))

    moved : (a : ℕ) → a < page_size → head_page e a ≡ shrunk a
    moved a low = ap (λ h. e.file.bytes (page_offset h + a)) head ∙ same a low

    kept :
        (o : ℕ)
        → o + 4 ≤ page_size
        → (o + 4 ≤ 4) ⊎ (4 + 4 ≤ o)
        → (o + 4 ≤ 8 + 4 * current_id_count (head_page d))
          ⊎ (8 + 4 * current_id_count (head_page d) + 4 ≤ o)
        → read_le 4 (head_page e) o ≡ read_le 4 (head_page d) o
    kept o low x y =
        read_le_ext 4 (head_page e) shrunk o (λ a u v. moved a (omega (arith, low)))
        ∙ read_le-write_le_apart 4 4 shown 4 o (current_id_count (head_page d)) x
        ∙ read_le_ext 4 shown (grown (head_page d) p) o (λ a u v. agree a (omega (arith, low)))
        ∙ read_le-write_le_apart 4 4
            (write_le 4 (head_page d) (8 + 4 * current_id_count (head_page d)) p) 4 o
            (current_id_count (head_page d) + 1) x
        ∙ read_le-write_le_apart 4 4 (head_page d) (8 + 4 * current_id_count (head_page d)) o p y
