-- ===== src/Storage/DiskManager/Tests.antt =====
-- A disk manager on a file of three pages, on which no system call fails.
use database_internals.Prelude.{ℕ, ◌+◌, ◌^◌, ◌≡◌, ◌≢◌, ◌⊎◌, inr, refl, arith, false, ok}
use database_internals.Memory.{Memory, write_le, read_le, write_bytes, to_le, read_bytes}
use database_internals.Storage.DiskManager.{
  System, DiskManager, page_size, page_offset, freelist_head, invalid_page_id, write_page,
  read_page, write_at, allocate_page, deallocate_page, push_free, read_at,
}
use database_internals.Storage.DiskManager.Reuse.{read_page-write_page, write_page-wraps}
use database_internals.Storage.DiskManager.FreeList.{allocate_page-deallocate_page}
use database_internals.Storage.DiskManager.Restored.{IsRestored}

abbrev zeros : Memory
zeros a = 0

abbrev sevens : Memory
sevens a = 7

abbrev one : ℕ
one = 1

abbrev sound : System
sound = record { read_fails = λ f o. false; write_fails = λ f o. false }

-- Next page `next`, no free pages.
with_next : ℕ → DiskManager
with_next next = record {
  file = record { bytes = zeros; size = 12288 };
  global_metadata = write_le 4 (write_le 4 zeros 12 invalid_page_id) 16 next;
}

after_write : DiskManager
after_write = record (with_next 3) {
  file = record { bytes = write_bytes zeros 4096 (read_bytes sevens 0 4096); size = 12288 };
}

writes : write_page sound (with_next 3) 1 sevens ≡ ok after_write
unfolding write_page write_at with_next after_write write_le write_bytes to_le read_le read_bytes
writes = refl

read_page-write_page_example :
    ((one ≡ one)
      × (r : Memory) × (read_page sound after_write 1 ≡ ok r)
      × (read_bytes r 0 page_size ≡ read_bytes sevens 0 page_size))
    ⊎ ((one ≢ one)
        × (read_bytes after_write.file.bytes (page_offset 1) page_size
            ≡ read_bytes (with_next 3).file.bytes (page_offset 1) page_size))
read_page-write_page_example =
    read_page-write_page sound (with_next 3) after_write 1 1 sevens (omega arith) (omega arith)
      writes refl

after_wrap : DiskManager
after_wrap = record (with_next (2 ^ 20 + 1)) {
  file = record { bytes = write_bytes zeros 0 (read_bytes sevens 0 4096); size = 12288 };
}

wraps : write_page sound (with_next (2 ^ 20 + 1)) (2 ^ 20) sevens ≡ ok after_wrap
unfolding write_page write_at with_next after_wrap write_le write_bytes to_le read_le read_bytes
wraps = refl

write_page-wraps_example :
    read_bytes after_wrap.file.bytes 0 page_size ≡ read_bytes sevens 0 page_size
write_page-wraps_example = write_page-wraps sound (with_next (2 ^ 20 + 1)) after_wrap sevens wraps

-- Page 1 heads the free list and lists page 3; page 2 is given back.
listing : DiskManager
listing = record {
  file = record {
    bytes = write_le 4 (write_le 4 (write_le 4 zeros 4096 invalid_page_id) 4100 one) 4104 3;
    size = 16384;
  };
  global_metadata = write_le 4 (with_next 4).global_metadata 12 1;
}

after_free : DiskManager
after_free = record listing {
  file = record {
    bytes = write_bytes listing.file.bytes 4096 (
        read_bytes (write_le 4 (write_le 4 (λ a. listing.file.bytes (4096 + a)) 12 2) 4 2) 0
          page_size);
    size = 16384;
  };
}

frees : deallocate_page sound listing 2 zeros ≡ ok after_free
unfolding deallocate_page push_free read_at write_at with_next listing after_free read_le write_le
    write_bytes to_le read_bytes
frees = refl

listed : freelist_head listing ≡ 1
unfolding listing with_next write_le write_bytes to_le read_le read_bytes
listed = refl

allocate_page-deallocate_page_example :
    (e : DiskManager) × (allocate_page sound after_free ≡ ok (2, e)) × IsRestored listing e
allocate_page-deallocate_page_example =
    allocate_page-deallocate_page sound (λ f o. refl) (λ f o. refl) listing after_free 2 zeros
      (omega arith) (omega arith)
      (inr (omega (arith, listed), omega (arith, listed), (λ e. omega (arith, listed, e)))) frees
