-- ===== src/Index/Split/Placed.antt =====
-- `insert` of `BPlusTree` where the leaf has room for the record.
use database_internals.Prelude.{
  ℕ, ◌+◌, ◌^◌, ◌<◌, ◌≤◌, ◌≡◌, ◌≢◌, refl, sym, inl, inr, true, false, some, ok, leb, arith,
  Bool-cases, length, List, Bool, ltb, if◌then◌else◌,
}
use database_internals.Memory.{Memory, read_bytes, write_bytes}
use database_internals.Memory.Laws.{length-read_bytes}
use database_internals.Storage.DiskManager.{
  System, File, DiskManager, page_size, page_offset, next_page_id, read_page, write_page, write_at,
}
use database_internals.Storage.DiskManager.Reuse.{read_page-write_page}
use database_internals.Storage.SlottedPage.{slot_count, insert_record_at, get_total_free_space}
use database_internals.Storage.SlottedPage.Layout.{IsFormed, IsFilled}
use database_internals.Storage.SlottedPage.Ranked.{IsRanked, insert_record_at-IsRanked}
use database_internals.Types.Value.{Sign}
use database_internals.Index.Key.{KeyFormat, extract_key}
use database_internals.Index.Search.Leaf.{IsLowerBound}
use database_internals.Index.Tree.{BPlusTree, FindRecordMetadata, is_less, is_live, find_record}
use database_internals.Index.Tree.Lookup.{
  Leads, IsOrdered, find_record-IsLowerBound, find_record-Leads,
}
use database_internals.Index.Split.{insert}

-- A page that can be read has been allocated, so that it can be written where no call fails.
write_page-returns :
    (sys : System) (d : DiskManager) (p : ℕ) (page page' : Memory)
    → read_page sys d p ≡ ok page
    → sys.write_fails d.file (page_offset p) ≡ false
    → (d' : DiskManager) × (write_page sys d p page' ≡ ok d')
unfolding read_page write_page write_at
write_page-returns sys d p page page' h fine = elim (Bool-cases (leb (next_page_id d) p)) [
  | inl past ↦ absurd (ground (arith, past, h))
  | inr near ↦ (
    record d {
      file = record {
        bytes = write_bytes d.file.bytes (page_offset p) (read_bytes page' 0 page_size);
        size =
            if ltb d.file.size (page_offset p + page_size)
            then page_offset p + page_size
            else d.file.size;
      };
    },
    rw (near, fine) refl,
  )
]

lower_bound-below : (live t : ℕ → Bool) (n r : ℕ) → IsLowerBound live t n r → r ≤ n
lower_bound-below live t n r b = elim b.found [ inl (h, _, _) ↦ omega arith | inr (h, _, _) ↦ h ]

-- `insertRecordAt` where there is room.
insert_record_at-fits :
    (page : Memory) (pos : ℕ) (bytes : List ℕ)
    → IsFormed page
    → IsFilled page
    → length bytes + 4 < 2 ^ 16
    → 0 < length bytes
    → length bytes + 4 ≤ get_total_free_space page
    → pos ≤ slot_count page
    → (slot : ℕ) × (page' : Memory) × (insert_record_at page pos bytes ≡ ok (some slot, page'))
      × IsRanked page page' pos slot bytes
insert_record_at-fits page pos bytes v f short p room within =
    elim (insert_record_at-IsRanked page pos bytes v f short) [
      | inl (inl z, _) ↦ absurd (omega (arith, z, p))
      | inl (inr (inl z), _) ↦ absurd (omega (arith, z, within))
      | inl (inr (inr z), _) ↦ absurd (omega (arith, z, room))
      | inr (_, _, _, placed) ↦ placed
    ]

-- What an insertion into the leaf `leaf`, with the bytes `page`, has done to the tree.
pub record IsInserted (sys : System) (t t' : BPlusTree) (leaf pos : ℕ) (page : Memory)
    (bytes : List ℕ) : Type 0 where
  pub slot : ℕ
  pub page' : Memory
  pub ranked : IsRanked page page' pos slot bytes
  pub root : t'.root_page_id ≡ t.root_page_id
  pub stored :
      (r : Memory) × (read_page sys t'.disk leaf ≡ ok r)
      × (read_bytes r 0 page_size ≡ read_bytes page' 0 page_size)
  pub others :
      (q : ℕ)
      → q < 2 ^ 20
      → q ≢ leaf
      → read_bytes t'.disk.file.bytes (page_offset q) page_size
        ≡ read_bytes t.disk.file.bytes (page_offset q) page_size

-- The call, step by step.
insert-some :
    (kf : KeyFormat) (sys : System) (heap header : Memory) (t : BPlusTree) (bytes : Memory)
    (len fuel leaf slot : ℕ) (found : FindRecordMetadata) (page page' : Memory) (d : DiskManager)
    → find_record kf sys fuel t (extract_key kf bytes len (some (0, len))) ≡ ok found
    → found.leaf_page ≡ leaf
    → read_page sys t.disk leaf ≡ ok page
    → insert_record_at page found.leaf_slot (read_bytes bytes 0 len) ≡ ok (some slot, page')
    → write_page sys t.disk leaf page' ≡ ok d
    → insert kf sys heap header fuel t bytes len ≡ ok (true, record t { disk = d })
unfolding insert
insert-some kf sys heap header t bytes len fuel leaf slot found page page' d e at here placed
      written =
    rw (e, at, here, placed, at, written) refl

-- `insert` of a nonempty record of fewer than 65532 bytes, where the way for its key ends at a
-- well-formed leaf below page 2^20 that has no empty record, whose live keys stand in order and that
-- has room for it, and no system call fails, with more fuel than the way is long: it returns true,
-- and the record stands in the leaf behind exactly the live records whose keys are smaller, up to
-- the first one that is not; the other live records keep their order, the root stays, and every
-- other page below 2^20 keeps its bytes.
pub insert-IsInserted :
    (kf : KeyFormat) (sys : System) (heap header : Memory) (t : BPlusTree) (record_bytes : Memory)
    (len depth leaf fuel : ℕ) (page : Memory) (s : ℕ → Sign)
    → Leads kf sys t.disk
        (extract_key kf record_bytes len (some (0, len)))
        t.root_page_id
        depth
        leaf
        page
    → depth < fuel
    → IsOrdered kf page (extract_key kf record_bytes len (some (0, len))) s
    → IsFormed page
    → IsFilled page
    → 0 < len
    → len + 4 < 2 ^ 16
    → len + 4 ≤ get_total_free_space page
    → leaf < 2 ^ 20
    → ((f : File) (o : ℕ) → sys.read_fails f o ≡ false)
    → sys.write_fails t.disk.file (page_offset leaf) ≡ false
    → (pos : ℕ) × (t' : BPlusTree) × (insert kf sys heap header fuel t record_bytes len
        ≡ ok (true, t'))
      × IsLowerBound (is_live page) (λ i. is_less (s i)) (slot_count page) pos
      × IsInserted sys t t' leaf pos page (read_bytes record_bytes 0 len)
insert-IsInserted kf sys heap header t record_bytes len depth leaf fuel page s way k order v f
      some_bytes short room low reads writes =
    let key = extract_key kf record_bytes len (some (0, len)) in
    let bytes = read_bytes record_bytes 0 len in
    let size : length bytes ≡ len = length-read_bytes record_bytes 0 len in
    let (found, e, at, b) =
      find_record-IsLowerBound kf sys t key depth leaf fuel page s way k order in
    let (stack, _, here) = find_record-Leads kf sys t key depth leaf fuel page way k in
    let (slot, page', placed, ranked) =
      insert_record_at-fits page found.leaf_slot bytes v f (omega (arith, size, short))
        (omega (arith, size, some_bytes)) (omega (arith, size, room))
        (lower_bound-below _ _ _ _ b) in
    let (d, written) = write_page-returns sys t.disk leaf page page' here writes in
    (
      found.leaf_slot,
      record t { disk = d },
      insert-some kf sys heap header t record_bytes len fuel leaf slot found page page' d e at here
          placed written,
      b,
      record {
        slot = slot;
        page' = page';
        ranked = ranked;
        root = refl;
        stored =
            elim (read_page-write_page sys t.disk d leaf leaf page' low low written
              (reads d.file _)) [
                | inl (_, r, er, same) ↦ (r, er, same)
                | inr (other, _) ↦ absurd (other refl)
              ];
        others = λ q h apart.
            elim (read_page-write_page sys t.disk d leaf q page' low h written (reads d.file _)) [
              | inl (e, _, _, _) ↦ absurd (apart (sym e))
              | inr (_, kept) ↦ kept
            ];
      },
    )
