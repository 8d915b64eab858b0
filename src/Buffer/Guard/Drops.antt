-- ===== src/Buffer/Guard/Drops.antt =====
-- `Drop` of the two guards.
use database_internals.Prelude.{
  ℕ, ◌-◌, ◌==◌, ◌≡◌, ◌≢◌, ◌<◌, refl, ◌⊎◌, inl, inr, Bool, true, false, none, some, ok, arith,
  Bool-cases, sub_size,
}
use database_internals.Buffer.Arc.{ArcReplacer, set_evictable}
use database_internals.Buffer.Frames.{Shared, set_frame, unpin, unlock_shared, unlock}
use database_internals.Buffer.Guard.{unpin_frame}
use database_internals.Buffer.Guard.Read.{ReadPageGuard, drop_read_guard}
use database_internals.Buffer.Guard.Write.{WritePageGuard, drop_write_guard}

-- The frame's pin and one of its latch's holders go; with the pin count at 1 the replacer is told.
pub record Releases (s s' : Shared) (f readers : ℕ) (writer : Bool) : Type 0 where
  pub pins : (s'.frames f).pin_count ≡ sub_size (s.frames f).pin_count 1
  pub readers_left : (s'.frames f).readers ≡ readers
  pub writer_left : (s'.frames f).writer ≡ writer
  pub others : (g : ℕ) → g ≢ f → s'.frames g ≡ s.frames g
  pub replacer :
      (((s.frames f).pin_count ≡ 1)
        × (set_evictable s.replacer (s.frames f).frame_id true ≡ ok s'.replacer))
      ⊎ (((s.frames f).pin_count ≢ 1) × (s'.replacer ≡ s.replacer))

unpin_frame-Releases :
    (s : Shared) (f : ℕ) (r : ArcReplacer)
    → ((s.frames f).pin_count ≡ 1 → set_evictable s.replacer (s.frames f).frame_id true ≡ ok r)
    → (s' : Shared) × (unpin_frame s f ≡ ok s')
      × Releases s s' f (s.frames f).readers (s.frames f).writer
unfolding unpin_frame
unpin_frame-Releases s f r h = elim (Bool-cases ((s.frames f).pin_count == 1)) [
  | inl y ↦
      let e : (s.frames f).pin_count ≡ 1 = ground arith in
      (
        record (unpin s f) { replacer = r },
        ground (arith, h e),
        record {
          pins = ground arith;
          readers_left = ground arith;
          writer_left = ground arith;
          others = λ g n. ground arith;
          replacer = inl (e, h e);
        },
      )
  | inr n ↦ (
    unpin s f,
    ground arith,
    record {
      pins = ground arith;
      readers_left = ground arith;
      writer_left = ground arith;
      others = λ g k. ground arith;
      replacer = inr (λ k. ground arith, refl);
    },
  )
]

-- A valid read guard whose frame is latched for reading: `Drop` returns, takes one from the pin
-- count, modulo 2^64, and one reader from the latch, touches no other frame, and makes the frame
-- evictable exactly where the pin count was 1. The guard is invalid then, and dropping it again
-- changes nothing.
pub drop_read_guard-Releases :
    (s : Shared) (p f : ℕ) (r : ArcReplacer)
    → 0 < (s.frames f).readers
    → ((s.frames f).pin_count ≡ 1 → set_evictable s.replacer (s.frames f).frame_id true ≡ ok r)
    → (s' : Shared) × (g' : ReadPageGuard) × (drop_read_guard
          (record { page_id = p; frame = some f; is_valid = true })
          s
        ≡ ok (g', s'))
      × (drop_read_guard g' s' ≡ ok (g', s'))
      × Releases s s' f ((s.frames f).readers - 1) (s.frames f).writer
unfolding drop_read_guard unlock_shared
drop_read_guard-Releases s p f r held h =
    let (u, eu, k) = unpin_frame-Releases s f r h in
    let s' = set_frame u f (record (u.frames f) { readers = (u.frames f).readers - 1 }) in
    (
      s',
      record { page_id = p; frame = none; is_valid = false },
      ground (arith, eu, k.readers_left),
      refl,
      record {
        pins = ground (arith, k.pins);
        readers_left = ground (arith, k.readers_left);
        writer_left = ground (arith, k.writer_left);
        others = λ g n. ground (arith, k.others g n);
        replacer = k.replacer;
      },
    )

-- The same for a write guard, which gives up the exclusive latch.
pub drop_write_guard-Releases :
    (s : Shared) (p f : ℕ) (r : ArcReplacer)
    → (s.frames f).writer ≡ true
    → ((s.frames f).pin_count ≡ 1 → set_evictable s.replacer (s.frames f).frame_id true ≡ ok r)
    → (s' : Shared) × (g' : WritePageGuard) × (drop_write_guard
          (record { page_id = p; frame = some f; is_valid = true })
          s
        ≡ ok (g', s'))
      × (drop_write_guard g' s' ≡ ok (g', s'))
      × Releases s s' f (s.frames f).readers false
unfolding drop_write_guard unlock
drop_write_guard-Releases s p f r held h =
    let (u, eu, k) = unpin_frame-Releases s f r h in
    let s' = set_frame u f (record (u.frames f) { writer = false }) in
    (
      s',
      record { page_id = p; frame = none; is_valid = false },
      ground (arith, eu, k.writer_left),
      refl,
      record {
        pins = ground (arith, k.pins);
        readers_left = ground (arith, k.readers_left);
        writer_left = ground (arith, k.writer_left);
        others = λ g n. ground (arith, k.others g n);
        replacer = k.replacer;
      },
    )
