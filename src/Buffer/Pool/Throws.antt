-- ===== src/Buffer/Pool/Throws.antt =====
-- What a read that throws leaves of a buffer pool.
use database_internals.Prelude.{
  ℕ, ◌+◌, ◌==◌, ◌≡◌, ◌≢◌, ◌<◌, ◌∙◌, ap, refl, inl, inr, Option, none, some, length, count, ok,
  thrown, arith, Bool-cases, Option-cases, >>=-eq-ok, ok-injective, subst,
}
use database_internals.Memory.{Memory}
use database_internals.Storage.DiskManager.{System}
use database_internals.Storage.DiskScheduler.{
  DiskRequest, read_request, Machine, Reply, value, page_value, exception, await, future_get,
}
use database_internals.Buffer.Arc.Pages.{page_of}
use database_internals.Buffer.Pool.{
  BufferPoolManager, find, bring_in, checked_read_page, checked_write_page, perform, load,
  load_into, claim_free, where_thrown, claim_frame, failed_read, left_by_throw,
}
use database_internals.Buffer.Pool.Keeps.{IsLinked}
use database_internals.Buffer.Pool.Linked.{IsTaking, Room, claim_victim-Room, claim_free-IsTaking}

-- Frame `f` is lost: it is not in the free list, no page's entry leads to it, and the replacer does
-- not know it; the pages and the free frames are one fewer than the frames.
pub record IsLost (b : BufferPoolManager) (f : ℕ) : Type 0 where
  pub one_short : length b.page_table + length b.free_frames + 1 ≡ b.num_frames
  pub in_range : f < b.num_frames
  pub not_free : count f b.free_frames ≡ 0
  pub not_held : (q : ℕ) → find q b.page_table ≢ some f
  pub unknown : page_of b.shared.replacer f ≡ none

module _ (sys : System) (wreck : DiskRequest → Machine → Machine) (stack : Memory) where
  taking-IsLost : (b : BufferPoolManager) (f : ℕ) → IsTaking sys wreck stack b f → IsLost b f
  unfolding IsTaking
  taking-IsLost b f t = record {
    one_short = t.sized;
    in_range = t.out.1;
    not_free = t.out.2;
    not_held = λ q e. ground (arith, t.held q f e, t.out.0);
    unknown = t.out.0;
  }

  -- The frame that is claimed, and the pool without it.
  claim_frame-IsTaking :
      (b b' : BufferPoolManager) (f : ℕ)
      → IsLinked b
      → claim_frame sys wreck stack b ≡ ok (some f, b')
      → IsTaking sys wreck stack b' f
  unfolding claim_frame Room
  claim_frame-IsTaking b b' f v h = elim (Bool-cases (b.num_frames == length b.page_table)) [
    | inl full ↦ (claim_victim-Room sys wreck stack b b' (some f) v (rw full at h)).0
    | inr room ↦
        let (w, ew, h1) = >>=-eq-ok (claim_free b) _ (rw room at h) in
        (claim_free-IsTaking sys wreck stack b b' f v (ew ∙ ground arith)).0
  ]

  -- Taking a frame does not look at the disk.
  IsTaking-machine :
      (b : BufferPoolManager) (f : ℕ) (m : Machine)
      → IsTaking sys wreck stack b f
      → IsTaking sys wreck stack (record b { shared = record b.shared { machine = m } }) f
  unfolding IsTaking
  IsTaking-machine b f m t = t

  where_thrown-IsTaking :
      (b b' : BufferPoolManager) (p g f : ℕ) (a : Reply × Machine)
      → IsTaking sys wreck stack b g
      → await sys wreck stack (read_request p g) b.shared.machine ≡ ok a
      → where_thrown sys wreck stack b g a ≡ some (f, b')
      → (g ≡ f)
        × (perform sys wreck stack (read_request p g) b ≡ thrown)
        × IsTaking sys wreck stack b' f
  unfolding where_thrown perform future_get IsTaking
  where_thrown-IsTaking b b' p g f (value, m) v e h = absurd (ground arith)
  where_thrown-IsTaking b b' p g f (page_value q, m) v e h = absurd (ground arith)
  where_thrown-IsTaking b b' p g f (exception, m) v e h = (
    ground arith,
    rw e refl,
    subst (λ (x : ℕ × BufferPoolManager). IsTaking sys wreck stack x.1 x.0)
        (ap (λ (o : Option (ℕ × BufferPoolManager)). elim o [ none ↦ (f, b') | some x ↦ x ]) h) v,
  )

  failed_read-IsTaking :
      (b b' : BufferPoolManager) (p f : ℕ) (o : Option ℕ)
      → ((g : ℕ) → o ≡ some g → IsTaking sys wreck stack b g)
      → failed_read sys wreck stack p (o, b) ≡ ok (some (f, b'))
      → (o ≡ some f)
        × (perform sys wreck stack (read_request p f) b ≡ thrown)
        × IsTaking sys wreck stack b' f
  unfolding failed_read
  failed_read-IsTaking b b' p f none v h = absurd (ground arith)
  failed_read-IsTaking b b' p f (some g) v h =
      let (a, ea, h1) = >>=-eq-ok (await sys wreck stack (read_request p g) b.shared.machine) _ h in
      let (eg, e, t) = where_thrown-IsTaking b b' p g f a (v g refl) ea (ok-injective h1) in
      (ap some eg, subst (λ k. perform sys wreck stack (read_request p k) b ≡ thrown) eg e, t)

  loads :
      (b1 : BufferPoolManager) (w : ℕ × BufferPoolManager) (p f : ℕ)
      → w.0 ≡ f
      → w.1 ≡ b1
      → perform sys wreck stack (read_request p f) b1 ≡ thrown
      → load sys wreck stack w.1 p w.0 ≡ thrown
  unfolding load
  loads b1 w p f ef eb e = rw (ef, eb, load, e) refl

  bring_in-thrown :
      (b b1 : BufferPoolManager) (p f : ℕ)
      → find p b.page_table ≡ none
      → claim_frame sys wreck stack b ≡ ok (some f, b1)
      → perform sys wreck stack (read_request p f) b1 ≡ thrown
      → bring_in sys wreck stack b p ≡ thrown
  unfolding bring_in claim_frame load_into
  bring_in-thrown b b1 p f absent h e = elim (Bool-cases (b.num_frames == length b.page_table)) [
    | inl full ↦
        rw
          (
            bring_in,
            absent,
            full,
            (rw (claim_frame, full) at h),
            load_into,
            loads b1 (f, b1) p f refl refl e,
          )
          refl
    | inr room ↦
        let (w, ew, h1) = >>=-eq-ok (claim_free b) _ (rw (claim_frame, room) at h) in
        rw (bring_in, absent, room, ew, loads b1 w p f (ground arith) (ground arith) e) refl
  ]

  -- Where the pool's bookkeeping holds and the read of `CheckedReadPage` or `CheckedWritePage`
  -- throws, for a page that is not in the pool, both calls throw, and the frame that was popped or
  -- evicted for the page is lost: in the pool that is left it is not free, no page's entry leads to
  -- it, the replacer does not know it, and the page table and the free list are together one
  -- shorter than the number of frames.
  pub left_by_throw-IsLost :
      (b b' : BufferPoolManager) (p f : ℕ)
      → IsLinked b
      → left_by_throw sys wreck stack b p ≡ ok (some (f, b'))
      → (checked_read_page sys wreck stack b p ≡ thrown)
        × (checked_write_page sys wreck stack b p ≡ thrown)
        × IsLost b' f
  unfolding left_by_throw checked_read_page checked_write_page
  left_by_throw-IsLost b b' p f v h = elim (Option-cases (find p b.page_table)) [
    | inr (g, e) ↦ absurd (ground arith)
    | inl absent ↦
        let (w, ew, h1) =
          >>=-eq-ok (claim_frame sys wreck stack b) _ (rw (left_by_throw, absent) at h) in
        let (ef, e, t) =
          failed_read-IsTaking w.1 b' p f w.0
            (λ g eg. claim_frame-IsTaking b w.1 g v (ew ∙ ap (λ k. ok (k, w.1)) eg)) h1 in
        let gone = bring_in-thrown b w.1 p f absent (ew ∙ ap (λ k. ok (k, w.1)) ef) e in
        (rw gone refl, rw gone refl, taking-IsLost b' f t)
  ]
