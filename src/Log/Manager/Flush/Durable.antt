-- ===== src/Log/Manager/Flush/Durable.antt =====
-- What a `flush_to` that returns has done, and when it returns.
use database_internals.Prelude.{
  ℕ, ◌+◌, ◌≡◌, ◌≤◌, ◌<◌, ◌≢◌, refl, List, [], ◌∷◌, ◌++◌, arith, length, true, false, ap, ◌∙◌, sym,
  append-nil, inl, inr, ◌⊎◌,
}
use native.Mathlib.Decide.{dec_lt}
use database_internals.Memory.{read_bytes}
use database_internals.Log.Records.{LogRecordHeader}
use database_internals.Log.Manager.{LogManager, LogFile, append, append_buffer_size, invalid_lsn}
use database_internals.Log.Manager.Append.{
  contents, appended, append-fits, contents-appended, record_bytes, stamped,
}
use database_internals.Log.Manager.Flush.{
  Io, done, append_durable, copy_to_fill_buffer, returned, lead, flush_to,
}
use database_internals.Log.Manager.Flush.Turns.{log, Turns, idle, led, turns}

-- A `flush_to` that returns has lost and reordered nothing, and has reached its target.
flush_to-log :
    (ios : List Io) (target : ℕ) (s s' : LogManager)
    → s.flushed_lsn ≤ s.current_lsn
    → flush_to ios target s ≡ returned s'
    → (log s' ≡ log s)
      × (target ≤ s'.flushed_lsn)
      × (s'.flushed_lsn ≤ s'.current_lsn)
      × (s'.current_lsn ≡ s.current_lsn)
flush_to-log [] target s s' h r = elim (turns [] target s s' r) [
  | idle reached same ↦ ground arith
  | led io rest t e l k ↦ absurd (ground arith)
]
flush_to-log (io ∷ ios) target s s' h r = elim (turns (io ∷ ios) target s s' r) [
  | idle reached same ↦ ground arith
  | led io' rest t e l k ↦
      let (a, b, c, d) =
        flush_to-log ios target t s' (omega (arith, l.reached, l.same_lsn)) (ground arith) in
      (a ∙ l.whole, b, c, d ∙ l.same_lsn)
]

-- So it does not return for a target past the current LSN, whatever the system calls do.
flush_to-past_end :
    (ios : List Io) (target : ℕ) (s s' : LogManager)
    → s.flushed_lsn ≤ s.current_lsn
    → s.current_lsn < target
    → flush_to ios target s ≢ returned s'
flush_to-past_end ios target s s' h past r = omega (arith, flush_to-log ios target s s' h r)

flush_to-emptied :
    (ios : List Io) (target : ℕ) (s s' : LogManager)
    → s.fill_offset ≡ 0
    → flush_to ios target s ≡ returned s'
    → s'.fill_offset ≡ 0
flush_to-emptied [] target s s' h r = elim (turns [] target s s' r) [
  | idle reached same ↦ ground arith
  | led io rest t e l k ↦ absurd (ground arith)
]
flush_to-emptied (io ∷ ios) target s s' h r = elim (turns (io ∷ ios) target s s' r) [
  | idle reached same ↦ ground arith
  | led io' rest t e l k ↦ flush_to-emptied ios target t s' l.emptied (ground arith)
]

-- What is safe stays so.
flush_to-safe :
    (ios : List Io) (target : ℕ) (s s' : LogManager)
    → s.file.synced ≡ s.file.written
    → s.file.named ≡ true
    → flush_to ios target s ≡ returned s'
    → (s'.file.synced ≡ s'.file.written) × (s'.file.named ≡ true)
flush_to-safe [] target s s' h n r = elim (turns [] target s s' r) [
  | idle reached same ↦ ground arith
  | led io rest t e l k ↦ absurd (ground arith)
]
flush_to-safe (io ∷ ios) target s s' h n r = elim (turns (io ∷ ios) target s s' r) [
  | idle reached same ↦ ground arith
  | led io' rest t e l k ↦ flush_to-safe ios target t s' l.safe (l.name_kept n) (ground arith)
]

-- Where `flushedLSN` is at most `currentLSN`, a `flush_to` with a target above `flushedLSN` that
-- returns, and for which the name of the file is safe already or the first turn as leader creates
-- the file, has written the whole log to the file, the old bytes and then the buffer, has synced
-- all of it, and leaves the name safe.
pub flush_to-durable :
    (io : Io) (ios : List Io) (target : ℕ) (s s' : LogManager)
    → s.flushed_lsn ≤ s.current_lsn
    → s.flushed_lsn < target
    → (s.file.named ≡ true) ⊎ (io.created ≡ true)
    → flush_to (io ∷ ios) target s ≡ returned s'
    → (s'.file.written ≡ log s) × (s'.file.synced ≡ log s) × (s'.file.named ≡ true)
unfolding read_bytes
flush_to-durable io ios target s s' h short name r = elim (turns (io ∷ ios) target s s' r) [
  | idle reached same ↦ absurd (omega arith)
  | led io' rest t e l k ↦
      let n : t.file.named ≡ true = elim name [
        | inl y ↦ l.name_kept y
        | inr y ↦ l.name_synced (ground arith)
      ] in
      let (safe, named) = flush_to-safe rest target t s' l.safe n k in
      let written : s'.file.written ≡ log s = ground (
        arith,
        flush_to-log (io ∷ ios) target s s' h r,
        flush_to-emptied rest target t s' l.emptied k,
        append-nil s'.file.written,
      ) in
      (written, safe ∙ written, named)
]

-- A flush that has anything to do leaves `flushedLSN` at the current LSN.
flush_to-caught_up :
    (ios : List Io) (target : ℕ) (s s' : LogManager)
    → s.flushed_lsn ≡ s.current_lsn
    → flush_to ios target s ≡ returned s'
    → s'.flushed_lsn ≡ s'.current_lsn
flush_to-caught_up [] target s s' h r = elim (turns [] target s s' r) [
  | idle reached same ↦ ground arith
  | led io rest t e l k ↦ absurd (ground arith)
]
flush_to-caught_up (io ∷ ios) target s s' h r = elim (turns (io ∷ ios) target s s' r) [
  | idle reached same ↦ ground arith
  | led io' rest t e l k ↦
      flush_to-caught_up ios target t s' (l.reached ∙ sym l.same_lsn) (ground arith)
]

flush_to-reached :
    (ios : List Io) (target : ℕ) (s : LogManager)
    → target ≤ s.flushed_lsn
    → flush_to ios target s ≡ returned s
unfolding flush_to
flush_to-reached [] target s h = ground arith
flush_to-reached (io ∷ ios) target s h = ground arith

-- A `flush_to` with a target up to the current LSN returns, where there is no other leader and the
-- first turn's system calls succeed.
pub flush_to-returns :
    (io : Io) (ios : List Io) (target : ℕ) (s : LogManager) (out : LogFile)
    → target ≤ s.current_lsn
    → s.flushing ≡ false
    → append_durable io s.absolute_log_file_path s.file (contents s) ≡ done out
    → (s' : LogManager) × (flush_to (io ∷ ios) target s ≡ returned s')
flush_to-returns io ios target s out h free e = elim (dec_lt s.flushed_lsn target) [
  | no reached ↦ (s, flush_to-reached (io ∷ ios) target s (omega arith))
  | yes short ↦ (after, led_once short)
]
  where
    after : LogManager
    after = record (copy_to_fill_buffer (record s { flushing = true })).1 {
      file = out;
      flushed_lsn = s.current_lsn;
      flushing = false;
    }

    led_once : s.flushed_lsn < target → flush_to (io ∷ ios) target s ≡ returned after
    led_once short = unfold flush_to lead in ground (arith, flush_to-reached ios target after h)

-- Where `flushedLSN` is at most `currentLSN`, a `flush_to` with a target above `flushedLSN` has
-- returned, and then a record that fits into the empty buffer is appended, with a valid LSN:
-- `flush_to` at the record's own LSN returns at once, the file is unchanged, and the buffer holds
-- just this record.
pub flush_to-misses_last :
    (ios more : List Io) (target : ℕ) (s s1 : LogManager) (lrh : LogRecordHeader)
    (before after : List ℕ)
    → s.flushed_lsn ≤ s.current_lsn
    → s.flushed_lsn < target
    → flush_to ios target s ≡ returned s1
    → 64 + length before + length after ≤ append_buffer_size
    → s1.current_lsn < invalid_lsn
    → let (lsn, s2) = append s1 lrh before after in
      (flush_to more lsn s2 ≡ returned s2)
      × (s2.file ≡ s1.file)
      × (contents s2 ≡ record_bytes (stamped s1 lrh before after) before after)
unfolding read_bytes
flush_to-misses_last ios more target s s1 lrh before after h short r fits low =
    let (caught, empty) = state (turns ios target s s1 r) in
    rw (append-fits s1 lrh before after (omega (arith, empty, fits)) low) (
      flush_to-reached more s1.current_lsn (appended s1 lrh before after) (omega (arith, caught)),
      refl,
      contents-appended s1 lrh before after
          ∙ ap
              (λ k.
                read_bytes s1.append_buffer 0 k
                ++ record_bytes (stamped s1 lrh before after) before after)
              empty,
    )
  where
    state : Turns ios target s s1 → (s1.flushed_lsn ≡ s1.current_lsn) × (s1.fill_offset ≡ 0)
    state (idle reached same) = absurd (omega arith)
    state (led io rest t e l k) = (
      flush_to-caught_up rest target t s1 (l.reached ∙ sym l.same_lsn) k,
      flush_to-emptied rest target t s1 l.emptied k,
    )
