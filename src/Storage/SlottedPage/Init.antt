-- ===== src/Storage/SlottedPage/Init.antt =====
-- A page fresh from `init`.

use database_internals.Prelude.{
  ℕ, ◌+◌, ◌-◌, ◌≡◌, ◌<◌, ◌≤◌, inl, ◌∙◌, ap, refl, [], arith, replicate,
}
use database_internals.Memory.{Memory, write_bytes, read_bytes, write_le, read_le, to_le}
use database_internals.Memory.Laws.{read_le_ext, write_bytes_apart, write_bytes-read_bytes}
use database_internals.Storage.SlottedPage.{
  slot_count, free_space_ptr, page_size, header_size, get_free_space, init, page_type, left_sibling,
  right_sibling, SlottedPageType, internal_page, leaf_page, page_type_code, invalid_page_id,
}
use database_internals.Storage.SlottedPage.Layout.{
  IsFormed, records, records_from, sizes_from, zero_add, get_free_space_lem,
}

-- The header object of `init` after its assignments.
init_header : Memory → ℕ → SlottedPageType → Memory
init_header h page_id type =
    write_le 4
      (write_le 4
        (write_le 2
          (write_le 4
            (write_le 8
              (write_le 2 (write_le 1 (write_le 4 h 0 page_id) 24 (page_type_code type)) 20 0) 8 0)
            16 0)
          22 page_size)
        28 invalid_page_id)
      32 invalid_page_id

init_lem :
    (w : ℕ) (header m : Memory) (page_id : ℕ) (type : SlottedPageType) (o : ℕ)
    → o + w ≤ header_size
    → read_le w (init header m page_id type) o ≡ read_le w (init_header header page_id type) o
unfolding init init_header
init_lem w header m page_id type o h =
    read_le_ext w (init header m page_id type) (init_header header page_id type) o (λ a x y.
      write_bytes_apart
        (write_bytes m 0 (read_bytes (init_header header page_id type) 0 header_size)) header_size a
        (replicate (page_size - header_size) 0) (inl (omega arith))
      ∙ copied a (omega arith))
  where
    copied :
        (a : ℕ)
        → a < header_size
        → write_bytes m 0 (read_bytes (init_header header page_id type) 0 header_size) a
          ≡ init_header header page_id type a
    copied a x =
        rw (zero_add a) at
          (write_bytes-read_bytes m (init_header header page_id type) 0 0 header_size a x)

module _ (h : Memory) (page_id : ℕ) (type : SlottedPageType) where
  init_count : read_le 2 (init_header h page_id type) 20 ≡ 0
  unfolding init_header write_le write_bytes to_le read_le read_bytes
  init_count = refl

  init_free : read_le 2 (init_header h page_id type) 22 ≡ page_size
  unfolding init_header write_le write_bytes to_le read_le read_bytes
  init_free = refl

  init_type : read_le 1 (init_header h page_id type) 24 ≡ page_type_code type
  unfolding init_header write_le write_bytes to_le read_le read_bytes
  init_type = elim type as (λ t. read_le 1 (init_header h page_id t) 24 ≡ page_type_code t) [
    | internal_page ↦ refl
    | leaf_page ↦ refl
  ]

  init_left : read_le 4 (init_header h page_id type) 28 ≡ invalid_page_id
  unfolding init_header write_le write_bytes to_le read_le read_bytes
  init_left = refl

  init_right : read_le 4 (init_header h page_id type) 32 ≡ invalid_page_id
  unfolding init_header write_le write_bytes to_le read_le read_bytes
  init_right = refl

-- `init` gives a well-formed page with no records, no siblings, its type, and all but the header
-- free.
pub init-IsFormed :
    (header m : Memory) (page_id : ℕ) (type : SlottedPageType)
    → let m' = init header m page_id type in
      IsFormed m'
      × (records m' ≡ [])
      × (get_free_space m' ≡ page_size - header_size)
      × (page_type m' ≡ page_type_code type)
      × (left_sibling m' ≡ invalid_page_id)
      × (right_sibling m' ≡ invalid_page_id)
unfolding records records_from sizes_from
init-IsFormed header m page_id type = (
  formed,
  ap (records_from (init header m page_id type) 0) empty,
  omega (arith, get_free_space_lem (init header m page_id type) formed, empty, whole),
  init_lem 1 header m page_id type 24 (omega arith) ∙ init_type header page_id type,
  init_lem 4 header m page_id type 28 (omega arith) ∙ init_left header page_id type,
  init_lem 4 header m page_id type 32 (omega arith) ∙ init_right header page_id type,
)
  where
    empty : slot_count (init header m page_id type) ≡ 0
    empty = init_lem 2 header m page_id type 20 (omega arith) ∙ init_count header page_id type

    whole : free_space_ptr (init header m page_id type) ≡ page_size
    whole = init_lem 2 header m page_id type 22 (omega arith) ∙ init_free header page_id type

    formed : IsFormed (init header m page_id type)
    formed = record {
      slots_fit = omega (arith, empty, whole);
      heap_fits = omega (arith, whole, ap (sizes_from (init header m page_id type) 0) empty);
      inside = λ i h l. absurd (omega (arith, empty));
      apart = λ i j h k p q. absurd (omega (arith, empty));
    }
