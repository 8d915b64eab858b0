-- ===== src/Storage/DiskManager/Allocate.antt =====
-- `allocatePage` where the free list has a head, and behind a page that has become its head.
use database_internals.Prelude.{
  ℕ, ◌+◌, ◌^◌, ◌≡◌, ◌≢◌, ◌<◌, ◌≤◌, ◌⊎◌, inr, ◌∙◌, ap, refl, arith, ltb, if◌then◌else◌, false, ok,
  >>=-eq-ok,
}
use database_internals.Memory.{Memory, write_bytes, read_bytes, write_le, read_le}
use database_internals.Memory.Laws.{read_le_ext, read_le-write_le, read_le-write_le_apart}
use database_internals.Storage.DiskManager.{
  System, File, DiskManager, page_size, page_offset, freelist_head, read_at, write_at,
  update_metadata, allocate_page, push_head, pop_free, set_freelist_head, current_id_count,
  next_freelist_page, invalid_page_id,
}
use database_internals.Storage.DiskManager.Reuse.{write_at-ok, written_there, written_apart}

module _ (sys : System) (reads : (f : File) (o : ℕ) → sys.read_fails f o ≡ false)
    (writes : (f : File) (o : ℕ) → sys.write_fails f o ≡ false) where
  pub writes_all :
      (f : File) (o : ℕ) (page : Memory) → (f' : File) × (write_at sys f o page ≡ ok f')
  unfolding write_at
  writes_all f o page = (
    record {
      bytes = write_bytes f.bytes o (read_bytes page 0 page_size);
      size = if ltb f.size (o + page_size) then o + page_size else f.size;
    },
    rw (writes f o) refl,
  )

  pub reads_all :
      (f : File) (o : ℕ) → o + page_size ≤ f.size → read_at sys f o ≡ ok (λ a. f.bytes (o + a))
  unfolding read_at
  reads_all f o h = ground (arith, reads f o)

  updates :
      (d : DiskManager)
      → (d' : DiskManager) × (update_metadata sys d ≡ ok d')
        × (d'.global_metadata ≡ d.global_metadata)
        × (write_at sys d.file 0 d.global_metadata ≡ ok d'.file)
  unfolding update_metadata
  updates d =
      let (f, e) = writes_all d.file 0 d.global_metadata in
      (record d { file = f }, rw e refl, refl, e)

  -- What is in a page that heads the list, whether or not the metadata has been written since.
  pub allocates :
      (d : DiskManager) (page : Memory) (id next : ℕ) (r : DiskManager)
      → freelist_head d ≢ invalid_page_id
      → read_at sys d.file (page_offset (freelist_head d)) ≡ ok page
      → pop_free sys d page ≡ ok (id, r)
      → freelist_head r ≡ next
      → (d' : DiskManager) × (allocate_page sys d ≡ ok (id, d'))
        × (freelist_head d' ≡ next)
        × (write_at sys r.file 0 r.global_metadata ≡ ok d'.file)
  unfolding allocate_page
  allocates d page id next r some_head e p n =
      let (d', u, same, w) = updates r in (d', steps d' u, ap (λ m. read_le 4 m 12) same ∙ n, w)
    where
      steps : (d' : DiskManager) → update_metadata sys r ≡ ok d' → allocate_page sys d ≡ ok (id, d')
      steps d' u = rw (e, p, u) (ground arith)

  updated :
      (d d' : DiskManager)
      → update_metadata sys d ≡ ok d'
      → (write_at sys d.file 0 d.global_metadata ≡ ok d'.file)
        × (d'.global_metadata ≡ d.global_metadata)
  unfolding update_metadata
  updated d d' h =
      let (f, e, k) =
        >>=-eq-ok (write_at sys d.file 0 d.global_metadata) (λ f. ok (record d { file = f })) h in
      (ground arith, ground arith)

  pub push_head-allocates :
      (d d' : DiskManager) (p next : ℕ) (stack : Memory)
      → 0 < p
      → p < 2 ^ 20
      → next < 2 ^ 32
      → push_head sys d p next stack ≡ ok d'
      → (e : DiskManager) × (allocate_page sys d' ≡ ok (p, e))
        × (freelist_head e ≡ next)
        × ((a : ℕ)
            → page_size ≤ a
            → (a < page_offset p) ⊎ (page_offset p + page_size ≤ a)
            → e.file.bytes a ≡ d.file.bytes a)
  unfolding push_head pop_free
  push_head-allocates d d' p next stack pos low small h =
      let (f, w, u) =
        >>=-eq-ok (write_at sys d.file (page_offset p) (write_le 4 (write_le 4 stack 4 0) 0 next))
          (λ f. update_metadata sys (set_freelist_head (record d { file = f }) p)) h in
      let (m, same) = updated (set_freelist_head (record d { file = f }) p) d' u in
      let z =
        write_at-ok sys d.file f (page_offset p) (write_le 4 (write_le 4 stack 4 0) 0 next) w in
      let y = write_at-ok sys f d'.file 0 (write_le 4 d.global_metadata 12 p) m in
      pops f w m
        (ap (λ b. read_le 4 b 12) same ∙ read_le-write_le 4 d.global_metadata 12 p (omega arith))
        (omega (arith, z.1, y.2))
    where
      fresh : Memory
      fresh = write_le 4 (write_le 4 stack 4 0) 0 next

      page : Memory
      page a = d'.file.bytes (page_offset p + a)

      pops :
          (f : File)
          → write_at sys d.file (page_offset p) fresh ≡ ok f
          → write_at sys f 0 (write_le 4 d.global_metadata 12 p) ≡ ok d'.file
          → freelist_head d' ≡ p
          → page_offset p + page_size ≤ d'.file.size
          → (e : DiskManager) × (allocate_page sys d' ≡ ok (p, e))
            × (freelist_head e ≡ next)
            × ((a : ℕ)
                → page_size ≤ a
                → (a < page_offset p) ⊎ (page_offset p + page_size ≤ a)
                → e.file.bytes a ≡ d.file.bytes a)
      pops f w m head long =
          let (e, k, n, u) =
            allocates d' page p next (set_freelist_head d' next) (omega (arith, head))
              (ap (λ k. read_at sys d'.file (page_offset k)) head
                ∙ reads_all d'.file (page_offset p) long)
              (rw (count, link, head) refl)
              (read_le-write_le 4 d'.global_metadata 12 next (omega arith)) in
          (
            e,
            k,
            n,
            λ a high apart.
                written_apart sys d'.file e.file 0 a (write_le 4 d'.global_metadata 12 next) u
                  (inr high)
                ∙ written_apart sys f d'.file 0 a (write_le 4 d.global_metadata 12 p) m (inr high)
                ∙ written_apart sys d.file f (page_offset p) a fresh w apart,
          )
        where
          shown : (a : ℕ) → a < page_size → page a ≡ fresh a
          shown a k =
              written_apart sys f d'.file 0 (page_offset p + a) (write_le 4 d.global_metadata 12 p)
                m (inr (omega arith))
              ∙ written_there sys d.file f (page_offset p) a fresh w k

          count : current_id_count page ≡ 0
          count =
              read_le_ext 4 page fresh 4 (λ a x k. shown a (omega arith))
              ∙ read_le-write_le_apart 4 4 (write_le 4 stack 4 0) 0 4 next (inr (omega arith))
              ∙ read_le-write_le 4 stack 4 0 (omega arith)

          link : next_freelist_page page ≡ next
          link =
              read_le_ext 4 page fresh 0 (λ a x k. shown a (omega arith))
              ∙ read_le-write_le 4 (write_le 4 stack 4 0) 0 next (omega arith)
