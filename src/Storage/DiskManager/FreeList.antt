-- ===== src/Storage/DiskManager/FreeList.antt =====
-- The free list gives back the page that was last put into it.
use database_internals.Prelude.{
  ℕ, ◌+◌, ◌-◌, ◌*◌, ◌^◌, ◌≡◌, ◌≢◌, ◌<◌, ◌≤◌, ◌⊎◌, inl, inr, ◌∙◌, sym, ap, refl, arith, ltb, ◌==◌,
  false, Bool-cases, ok, >>=-eq-ok, ◌>>=◌, subst,
}
use database_internals.Memory.{Memory, write_le, read_le}
use database_internals.Memory.Laws.{read_le_ext, read_le-write_le, read_le-write_le_apart}
use database_internals.Storage.DiskManager.{
  System, File, DiskManager, page_size, page_offset, freelist_head, read_at, write_at,
  allocate_page, deallocate_page, push_free, pop_free, current_id_count, free_page_id, max_free_ids,
  invalid_page_id,
}
use database_internals.Storage.DiskManager.Reuse.{write_at-ok, written_there, written_apart}
use database_internals.Storage.DiskManager.Restored.{
  head_page, IsRestored, IsRestored-same, IsRestored-shrunk, grown,
}
use database_internals.Storage.DiskManager.Allocate.{
  writes_all, reads_all, allocates, push_head-allocates,
}

module _ (sys : System) (reads : (f : File) (o : ℕ) → sys.read_fails f o ≡ false)
    (writes : (f : File) (o : ℕ) → sys.write_fails f o ≡ false) where
  pop_free-some :
      (d : DiskManager) (page : Memory) (c p : ℕ)
      → current_id_count page ≡ c + 1
      → c < max_free_ids
      → free_page_id page c ≡ p
      → (r : DiskManager) × (pop_free sys d page ≡ ok (p, r))
        × (freelist_head r ≡ freelist_head d)
        × (write_at sys d.file (page_offset (freelist_head d)) (write_le 4 page 4 c) ≡ ok r.file)
  unfolding pop_free
  pop_free-some d page c p count low id =
      let (f, e) =
        writes_all sys reads writes d.file (page_offset (freelist_head d)) (write_le 4 page 4 c) in
      (record d { file = f }, rw (count, add_sub c, e, id) (ground arith), refl, e)
    where
      add_sub : (k : ℕ) → k + 1 - 1 ≡ k
      add_sub k = omega arith

  push_free-allocates :
      (d d' : DiskManager) (p : ℕ)
      → p < 2 ^ 20
      → freelist_head d < 2 ^ 20
      → 0 < freelist_head d
      → current_id_count (head_page d) < max_free_ids
      → write_at sys d.file (page_offset (freelist_head d)) (grown (head_page d) p) ≡ ok d'.file
      → d'.global_metadata ≡ d.global_metadata
      → (e : DiskManager) × (allocate_page sys d' ≡ ok (p, e)) × IsRestored d e
  push_free-allocates d d' p small low pos room w same =
      let (r, e, k, u) = pop_free-some d' shown (current_id_count (head_page d)) p count room id in
      let (d'', g, n, z) =
        allocates sys reads writes d' shown p (freelist_head d) r (omega (arith, head))
          (ap (λ k. read_at sys d'.file (page_offset k)) head
            ∙ reads_all sys reads writes d'.file (page_offset (freelist_head d))
                (write_at-ok sys d.file d'.file (page_offset (freelist_head d))
                  (grown (head_page d) p) w).1)
          e (k ∙ head) in
      (
        d'',
        g,
        IsRestored-shrunk d d'' shown p room agree n (λ a x.
            written_apart sys r.file d''.file 0 (page_offset (freelist_head d) + a)
              r.global_metadata z (inr (omega arith))
            ∙ written_there sys d'.file r.file (page_offset (freelist_head d)) a
                (write_le 4 shown 4 (current_id_count (head_page d)))
                (ap
                    (λ k.
                      write_at sys d'.file (page_offset k)
                        (write_le 4 shown 4 (current_id_count (head_page d))))
                    (sym head)
                  ∙ u)
                x),
      )
    where
      head : freelist_head d' ≡ freelist_head d
      head = ap (λ b. read_le 4 b 12) same

      shown : Memory
      shown a = d'.file.bytes (page_offset (freelist_head d) + a)

      agree : (a : ℕ) → a < page_size → shown a ≡ grown (head_page d) p a
      agree a h =
          written_there sys d.file d'.file (page_offset (freelist_head d)) a (grown (head_page d) p)
            w h

      count : current_id_count shown ≡ current_id_count (head_page d) + 1
      count =
          read_le_ext 4 shown (grown (head_page d) p) 4 (λ a x y. agree a (omega arith))
          ∙ read_le-write_le 4 (write_le 4 (head_page d) (8 + 4 * current_id_count (head_page d)) p)
              4 (current_id_count (head_page d) + 1) (omega arith)

      id : free_page_id shown (current_id_count (head_page d)) ≡ p
      id =
          read_le_ext 4 shown (grown (head_page d) p) (8 + 4 * current_id_count (head_page d))
            (λ a x y. agree a (omega arith))
          ∙ read_le-write_le_apart 4 4
              (write_le 4 (head_page d) (8 + 4 * current_id_count (head_page d)) p) 4
              (8 + 4 * current_id_count (head_page d)) (current_id_count (head_page d) + 1)
              (inr (omega arith))
          ∙ read_le-write_le 4 (head_page d) (8 + 4 * current_id_count (head_page d)) p
              (omega arith)

  push_free-room :
      (d d' : DiskManager) (p : ℕ) (stack page : Memory)
      → (current_id_count page == max_free_ids) ≡ false
      → push_free sys d p stack page ≡ ok d'
      → (current_id_count page < max_free_ids)
        × (write_at sys d.file (page_offset (freelist_head d)) (
              write_le 4
                (write_le 4 page (8 + 4 * current_id_count page) p)
                4
                (current_id_count page + 1))
            ≡ ok d'.file)
        × (d'.global_metadata ≡ d.global_metadata)
  unfolding push_free
  push_free-room d d' p stack page spare h =
      elim (Bool-cases (ltb max_free_ids (current_id_count page))) [
        | inl over ↦ absurd (ground arith)
        | inr under ↦
            let (f, e, k) =
              >>=-eq-ok
                (write_at sys d.file (page_offset (freelist_head d)) (
                  write_le 4 (write_le 4 page (8 + 4 * current_id_count page) p) 4
                    (current_id_count page + 1)))
                (λ f. ok (record d { file = f })) (rw (spare, under) at h) in
            (ground arith, ground arith, ground arith)
      ]

  read_at-page :
      (f : File) (page : Memory) (o : ℕ) → read_at sys f o ≡ ok page → page ≡ (λ a. f.bytes (o + a))
  unfolding read_at
  read_at-page f page o h = ground arith

  push_free-restores :
      (d d' : DiskManager) (p : ℕ) (stack : Memory)
      → 0 < p
      → p < 2 ^ 20
      → 0 < freelist_head d
      → freelist_head d < 2 ^ 20
      → p ≢ freelist_head d
      → push_free sys d p stack (head_page d) ≡ ok d'
      → (e : DiskManager) × (allocate_page sys d' ≡ ok (p, e)) × IsRestored d e
  unfolding push_free
  push_free-restores d d' p stack pos low above below other k =
      elim (Bool-cases (current_id_count (head_page d) == max_free_ids)) [
        | inl full ↦
            let (e, g, n, same) =
              push_head-allocates sys reads writes d d' p (freelist_head d) stack pos low
                (omega arith) (rw full at k) in
            (
              e,
              g,
              IsRestored-same d e n
                  (λ a x. same (page_offset (freelist_head d) + a) (omega arith) (apart a x))
                  (ground arith),
            )
        | inr spare ↦
            let (r, w, same) = push_free-room d d' p stack (head_page d) spare k in
            push_free-allocates d d' p low below above r w same
      ]
    where
      apart :
          (a : ℕ)
          → a < page_size
          → (page_offset (freelist_head d) + a < page_offset p)
            ⊎ (page_offset p + page_size ≤ page_offset (freelist_head d) + a)
      apart a x = ground (arith, other)

  -- Where no system call fails: once `deallocatePage` has returned for a page other than 0 below
  -- 2^20, `allocatePage` returns that page and leaves the free list as it was before: the same
  -- head and, if there is one, the same next page, the same number of pages listed in the head's
  -- page, and the same pages. This is so whether the list was empty, its head had room, or its head
  -- was full. The head, if there is one, is a page other than 0 and the one given back, below 2^20.
  pub allocate_page-deallocate_page :
      (d d' : DiskManager) (p : ℕ) (stack : Memory)
      → 0 < p
      → p < 2 ^ 20
      → (freelist_head d ≡ invalid_page_id)
        ⊎ ((0 < freelist_head d) × (freelist_head d < 2 ^ 20) × (p ≢ freelist_head d))
      → deallocate_page sys d p stack ≡ ok d'
      → (e : DiskManager) × (allocate_page sys d' ≡ ok (p, e)) × IsRestored d e
  unfolding deallocate_page
  allocate_page-deallocate_page d d' p stack pos low (inl none_yet) h =
      let (e, k, n, _) =
        push_head-allocates sys reads writes d d' p invalid_page_id stack pos low (omega arith)
          (rw none_yet at h) in
      (
        e,
        k,
        record {
          head = n ∙ sym none_yet;
          next = λ z. absurd (z none_yet);
          listed = λ z. absurd (z none_yet);
          pages = λ z. absurd (z none_yet);
        },
      )
  allocate_page-deallocate_page d d' p stack pos low (inr (above, below, other)) h = pushed (
      >>=-eq-ok (read_at sys d.file (page_offset (freelist_head d))) (push_free sys d p stack)
        (skip h))
    where
      has_head : freelist_head d < 2 ^ 20 → (freelist_head d == invalid_page_id) ≡ false
      has_head x = ground arith

      skip :
          deallocate_page sys d p stack ≡ ok d'
          → (read_at sys d.file (page_offset (freelist_head d)) >>= push_free sys d p stack) ≡ ok d'
      skip x = rw (has_head below) at x

      pushed :
          (page : Memory) × (read_at sys d.file (page_offset (freelist_head d)) ≡ ok page)
            × (push_free sys d p stack page ≡ ok d')
          → (e : DiskManager) × (allocate_page sys d' ≡ ok (p, e)) × IsRestored d e
      pushed (page, r, k) = push_free-restores d d' p stack pos low above below other (
          subst (λ m. push_free sys d p stack m ≡ ok d')
            (read_at-page d.file page (page_offset (freelist_head d)) r) k)
