-- ===== src/Storage/DiskManager/Reuse.antt =====
-- A page that has been given back is the next one to be handed out; and where the 32-bit offsets of
-- two pages fall together.
use database_internals.Prelude.{
  ℕ, ◌+◌, ◌^◌, ◌≡◌, ◌≢◌, ◌<◌, ◌≤◌, ◌⊎◌, inl, inr, ◌∙◌, sym, ap, arith, leb, ◌==◌, true, false,
  Bool-cases, ok, >>=-eq-ok,
}
use database_internals.Memory.{Memory, write_bytes, read_bytes}
use database_internals.Memory.Laws.{
  read_bytes_ext, write_bytes_apart, length-read_bytes, write_bytes-read_bytes,
}
use database_internals.Storage.DiskManager.{
  System, File, DiskManager, page_size, page_offset, next_page_id, read_at, write_at, write_page,
  read_page,
}

module _ (sys : System) where
  -- What a page written at one offset leaves at another one, and at its own.
  pub write_at-ok :
      (f f' : File) (o : ℕ) (page : Memory)
      → write_at sys f o page ≡ ok f'
      → (f'.bytes ≡ write_bytes f.bytes o (read_bytes page 0 page_size))
        × (o + page_size ≤ f'.size)
        × (f.size ≤ f'.size)
  unfolding write_at
  write_at-ok f f' o page h = ground arith

  pub written_there :
      (f f' : File) (o a : ℕ) (page : Memory)
      → write_at sys f o page ≡ ok f'
      → a < page_size
      → f'.bytes (o + a) ≡ page a
  written_there f f' o a page h k =
      ap (λ (b : Memory). b (o + a)) (write_at-ok f f' o page h).0
      ∙ write_bytes-read_bytes f.bytes page o 0 page_size a k
      ∙ ap page (omega arith)

  pub written_apart :
      (f f' : File) (o a : ℕ) (page : Memory)
      → write_at sys f o page ≡ ok f'
      → (a < o) ⊎ (o + page_size ≤ a)
      → f'.bytes a ≡ f.bytes a
  written_apart f f' o a page h k =
      ap (λ (b : Memory). b a) (write_at-ok f f' o page h).0
      ∙ write_bytes_apart f.bytes o a (read_bytes page 0 page_size)
          (rw (length-read_bytes page 0 page_size) k)

  record Wrote (d d' : DiskManager) (p : ℕ) (page : Memory) : Type 0 where
    allocated : p < next_page_id d
    done : write_at sys d.file (page_offset p) page ≡ ok d'.file
    same : d'.global_metadata ≡ d.global_metadata

  write_page-Wrote :
      (d d' : DiskManager) (p : ℕ) (page : Memory)
      → write_page sys d p page ≡ ok d'
      → Wrote d d' p page
  unfolding write_page
  write_page-Wrote d d' p page h = elim (Bool-cases (leb (next_page_id d) p)) [
    | inl past ↦ absurd (ground arith)
    | inr near ↦
        let (f, e, k) =
          >>=-eq-ok (write_at sys d.file (page_offset p) page) (λ f. ok (record d { file = f }))
            (rw near at h) in
        record { allocated = ground arith; done = ground arith; same = ground arith }
  ]

  -- A page that `writePage` has written is what `readPage` returns for it where no read fails, and
  -- a write leaves every other page alone, for pages below 2^20, whose offsets 32 bits hold.
  pub read_page-write_page :
      (d d' : DiskManager) (p q : ℕ) (page : Memory)
      → p < 2 ^ 20
      → q < 2 ^ 20
      → write_page sys d p page ≡ ok d'
      → sys.read_fails d'.file (page_offset q) ≡ false
      → ((p ≡ q)
          × (r : Memory) × (read_page sys d' q ≡ ok r)
          × (read_bytes r 0 page_size ≡ read_bytes page 0 page_size))
        ⊎ ((p ≢ q)
            × (read_bytes d'.file.bytes (page_offset q) page_size
                ≡ read_bytes d.file.bytes (page_offset q) page_size))
  unfolding read_page read_at
  read_page-write_page d d' p q page hp hq h fine = elim (Bool-cases (p == q)) [
    | inr other ↦ inr (
      λ e. ground arith,
      read_bytes_ext d'.file.bytes d.file.bytes (page_offset q) page_size (λ a x y.
          written_apart d.file d'.file (page_offset p) a page (write_page-Wrote d d' p page h).done
            (grind arith)),
    )
    | inl equal ↦
        let w = write_page-Wrote d d' p page h in
        let z = write_at-ok d.file d'.file (page_offset p) page w.done in
        inl (
          ground arith,
          (λ a. d'.file.bytes (page_offset q + a)),
          ground (arith, w.allocated, w.same, z.1, fine),
          read_bytes_ext (λ a. d'.file.bytes (page_offset q + a)) page 0 page_size
              (λ a x y.
                ap (λ k. d'.file.bytes (page_offset k + a)) (sym (eq equal))
                ∙ written_there d.file d'.file (page_offset p) a page w.done (omega arith)),
        )
  ]
    where
      eq : (p == q) ≡ true → p ≡ q
      eq e = ground arith

  -- A write to page 2^20, four gigabytes into the file, goes over page 0, the database's header.
  pub write_page-wraps :
      (d d' : DiskManager) (page : Memory)
      → write_page sys d (2 ^ 20) page ≡ ok d'
      → read_bytes d'.file.bytes 0 page_size ≡ read_bytes page 0 page_size
  write_page-wraps d d' page h = read_bytes_ext d'.file.bytes page 0 page_size (λ a x y.
      ap d'.file.bytes (omega arith)
      ∙ written_there d.file d'.file 0 a page (write_page-Wrote d d' (2 ^ 20) page h).done
          (omega arith))
