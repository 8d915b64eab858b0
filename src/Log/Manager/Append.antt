-- ===== src/Log/Manager/Append.antt =====
-- What `append` puts into the buffer, and the LSNs that it gives out.
use database_internals.Prelude.{
  inr, ℕ, ◌+◌, ◌^◌, ◌≡◌, ◌≤◌, ◌<◌, inl, refl, List, ◌∷◌, ◌++◌, arith, length, length-append, ap,
  ap₂, ◌∙◌, sym, take, drop, take, drop,
}
use Prim.Native.Nat.add
use database_internals.Memory.{Memory, to_le, write_bytes, read_bytes}
use database_internals.Memory.Laws.{
  read_bytes-patch, write_bytes-append, read_bytes-write_bytes, read_bytes-add,
  read_bytes-write_bytes_apart, length-to_le, write_bytes_apart,
}
use database_internals.Log.Crc.{compute}
use database_internals.Log.Records.{
  LogRecordHeader, header_bytes, length-header_bytes, size_bytes, tail_bytes,
}
use database_internals.Log.Manager.{
  LogManager, append, append_buffer_size, invalid_lsn, write_record, copy_record,
}

-- The bytes of a record: header, before-image, after-image, with the checksum of the same bytes
-- under a zero checksum.
pub body : LogRecordHeader → List ℕ → List ℕ → List ℕ
body h before after = header_bytes h ++ (before ++ after)

pub record_bytes : LogRecordHeader → List ℕ → List ℕ → List ℕ
unfolding body
record_bytes h before after =
    body (record h { crc = compute (body (record h { crc = 0 }) before after) }) before after

pub length-body :
    (h : LogRecordHeader) (before after : List ℕ)
    → length (body h before after) ≡ 64 + length before + length after
unfolding body
length-body h before after = omega (
  arith,
  length-append (header_bytes h) (before ++ after),
  length-append before after,
  length-header_bytes h,
)

copy_record_lem :
    (m : Memory) (o : ℕ) (h : LogRecordHeader) (before after : List ℕ)
    → copy_record m o h before after ≡ write_bytes m o (body h before after)
unfolding copy_record body
copy_record_lem m o h before after = rw (
  write_bytes-append m o (header_bytes h) (before ++ after),
  write_bytes-append (write_bytes m o (header_bytes h)) (o + length (header_bytes h)) before after,
  length-header_bytes h,
)

-- The buffer before the checksum is patched in, read back.
copied_body :
    (m : Memory) (o k : ℕ) (h : LogRecordHeader) (before after : List ℕ)
    → k ≡ 64 + length before + length after
    → read_bytes (copy_record m o h before after) o k ≡ body h before after
copied_body m o k h before after n =
    rw (copy_record_lem m o h before after, n, ← length-body h before after)
      (read_bytes-write_bytes m o (body h before after))

-- The record with the given checksum, in its three parts.
body_parts :
    (h : LogRecordHeader) (before after : List ℕ) (c : ℕ)
    → body (record h { crc = c }) before after
      ≡ size_bytes h ++ (to_le 4 c ++ (tail_bytes h ++ (before ++ after)))
unfolding body header_bytes
body_parts h before after c = refl

length-parts :
    (h : LogRecordHeader) (before after : List ℕ) (c : ℕ)
    → length (size_bytes h) + (length (to_le 4 c) + length (tail_bytes h ++ (before ++ after)))
      ≡ 64 + length before + length after
length-parts h before after c = omega (
  arith,
  length-body (record h { crc = c }) before after,
  ap length (body_parts h before after c),
  length-append (size_bytes h) (to_le 4 c ++ (tail_bytes h ++ (before ++ after))),
  length-append (to_le 4 c) (tail_bytes h ++ (before ++ after)),
)

read_patched :
    (m : Memory) (o k : ℕ) (h : LogRecordHeader) (before after : List ℕ) (c : ℕ)
    → k ≡ 64 + length before + length after
    → read_bytes
        (write_bytes
          (write_bytes m o (body (record h { crc = 0 }) before after))
          (o + 4)
          (to_le 4 c))
        o
        k
      ≡ body (record h { crc = c }) before after
unfolding size_bytes
read_patched m o k h before after c n =
    rw
      (n, ← length-parts h before after c, body_parts h before after 0, body_parts h before after c)
      (read_bytes-patch m o (size_bytes h) (to_le 4 0) (to_le 4 c)
        (tail_bytes h ++ (before ++ after)) (length-to_le 4 0 ∙ sym (length-to_le 4 c)))

-- The record stands in the buffer behind what was there.
write_record_lem :
    (m : Memory) (o k : ℕ) (h : LogRecordHeader) (before after : List ℕ)
    → k ≡ 64 + length before + length after
    → h.size ≡ k
    → read_bytes (write_record m o (record h { crc = 0 }) before after) 0 (o + k)
      ≡ read_bytes m 0 o ++ record_bytes h before after
unfolding record_bytes write_record
write_record_lem m o k h before after n e =
    read_bytes-add (write_record m o (record h { crc = 0 }) before after) 0 o k
    ∙ ap₂ ◌++◌
        (ap (λ w. read_bytes w 0 o) written
          ∙ read_bytes-write_bytes_apart _ (o + 4) 0 o _ (inl (omega arith))
          ∙ read_bytes-write_bytes_apart m o 0 o _ (inl (omega arith)))
        (ap₂ (λ w a. read_bytes w a k) written (add.zero o)
          ∙ read_patched m o k h before after crc n)
  where
    crc : ℕ
    crc = compute (body (record h { crc = 0 }) before after)

    written :
        write_record m o (record h { crc = 0 }) before after
        ≡ write_bytes
            (write_bytes m o (body (record h { crc = 0 }) before after))
            (o + 4)
            (to_le 4 crc)
    written =
        ap₂ (λ w b. write_bytes w (o + 4) (to_le 4 (compute b)))
          (copy_record_lem m o (record h { crc = 0 }) before after)
          (copied_body m o h.size (record h { crc = 0 }) before after (e ∙ n))

-- What the append buffer holds.
abbrev pub contents : LogManager → List ℕ
contents s = read_bytes s.append_buffer 0 s.fill_offset

-- The header that a record gets: its lengths, and the current LSN.
abbrev pub stamped : LogManager → LogRecordHeader → List ℕ → List ℕ → LogRecordHeader
stamped s lrh before after = record lrh {
  before_len = length before;
  after_len = length after;
  size = 64 + length before + length after;
  lsn = s.current_lsn;
  reserved = 0;
}

-- The manager after a record that fits.
abbrev pub appended : LogManager → LogRecordHeader → List ℕ → List ℕ → LogManager
appended s lrh before after = record s {
  current_lsn = s.current_lsn + 1;
  append_buffer =
      write_record s.append_buffer s.fill_offset (record (stamped s lrh before after) { crc = 0 })
        before after;
  fill_offset = s.fill_offset + (64 + length before + length after);
}

pub append-fits :
    (s : LogManager) (lrh : LogRecordHeader) (before after : List ℕ)
    → s.fill_offset + (64 + length before + length after) ≤ append_buffer_size
    → s.current_lsn < invalid_lsn
    → append s lrh before after ≡ (s.current_lsn, appended s lrh before after)
unfolding append
append-fits s lrh before after fits low = ground arith

pub contents-appended :
    (s : LogManager) (lrh : LogRecordHeader) (before after : List ℕ)
    → contents (appended s lrh before after)
      ≡ contents s ++ record_bytes (stamped s lrh before after) before after
contents-appended s lrh before after =
    write_record_lem s.append_buffer s.fill_offset (64 + length before + length after)
      (stamped s lrh before after) before after refl refl

-- Behind the record the buffer is as it was.
write_record_behind :
    (m : Memory) (o a : ℕ) (h : LogRecordHeader) (before after : List ℕ)
    → o + (64 + length before + length after) ≤ a
    → write_record m o h before after a ≡ m a
unfolding write_record copy_record
write_record_behind m o a h before after far =
    write_bytes_apart _ (o + 4) a _ (
      inr (
        omega (
          arith,
          far,
          length-to_le 4 (compute (read_bytes (copy_record m o h before after) o h.size)),
        )))
    ∙ write_bytes_apart _ (o + 64 + length before) a after (inr (omega arith))
    ∙ write_bytes_apart _ (o + 64) a before (inr (omega arith))
    ∙ write_bytes_apart m o a (header_bytes h) (inr (omega (arith, far, length-header_bytes h)))

-- A record that fits, while the current LSN is a valid one, gets that LSN and stands behind the
-- earlier ones with its lengths and the checksum of its own bytes; the next LSN is one higher, the
-- fill offset lies behind the record, the buffer from there on is as it was, and no other field
-- changes.
pub append_lem :
    (s : LogManager) (lrh : LogRecordHeader) (before after : List ℕ)
    → s.fill_offset + (64 + length before + length after) ≤ append_buffer_size
    → s.current_lsn < invalid_lsn
    → let (lsn, s') = append s lrh before after in
      (lsn ≡ s.current_lsn)
      × (s' ≡ record s {
        current_lsn = s.current_lsn + 1;
        fill_offset = s.fill_offset + (64 + length before + length after);
        append_buffer = s'.append_buffer;
      })
      × (contents s' ≡ contents s ++ record_bytes (stamped s lrh before after) before after)
      × ((a : ℕ) → s'.fill_offset ≤ a → s'.append_buffer a ≡ s.append_buffer a)
append_lem s lrh before after fits low = rw (append-fits s lrh before after fits low) (
  refl,
  refl,
  contents-appended s lrh before after,
  λ a h. write_record_behind s.append_buffer s.fill_offset a _ before after h,
)

-- A record that does not fit is refused, and nothing changes.
pub append-full :
    (s : LogManager) (lrh : LogRecordHeader) (before after : List ℕ)
    → s.fill_offset ≤ append_buffer_size
    → 64 + length before + length after < 2 ^ 32
    → append_buffer_size < s.fill_offset + (64 + length before + length after)
    → append s lrh before after ≡ (invalid_lsn, s)
unfolding append
append-full s lrh before after ok small full = ground arith

-- What a reader recomputes: the checksum of the record with its checksum field zeroed.
abbrev pub reread : List ℕ → ℕ
reread bytes = compute (take 4 bytes ++ (0 ∷ 0 ∷ 0 ∷ 0 ∷ drop 8 bytes))

-- The checksum field of a record in the log is what a reader recomputes from its bytes.
record_bytes-reread :
    (h : LogRecordHeader) (before after : List ℕ)
    → take 4 (drop 4 (record_bytes h before after)) ≡ to_le 4 (reread (record_bytes h before after))
unfolding record_bytes body header_bytes to_le
record_bytes-reread h before after = refl
