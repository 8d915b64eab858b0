-- ===== src/Buffer/Pool/Pins.antt =====
-- Pin counts: what bringing a page into the buffer pool and dropping a guard make of them.
use database_internals.Prelude.{
  ℕ, ◌-◌, ◌^◌, ◌==◌, ◌≡◌, ◌<◌, ap, ◌∙◌, inl, inr, Bool, true, false, Option, none, some, length, ok,
  arith, Bool-cases, Option-cases, >>=-eq-ok, ok-injective, subst,
}
use database_internals.Memory.{Memory}
use database_internals.Storage.DiskManager.{System}
use database_internals.Storage.DiskScheduler.{DiskRequest, read_request, write_request, Machine}
use database_internals.Buffer.Arc.{evict, record_access}
use database_internals.Buffer.Arc.Pages.{record_access-alive}
use database_internals.Buffer.Frames.{Shared}
use database_internals.Buffer.Guard.Read.{ReadPageGuard, drop_read_guard}
use database_internals.Buffer.Pool.{
  BufferPoolManager, find, link, frame_at, set_replacer, hit, claim_free, release, clean_and_pin,
  perform, flush_page_unsafe, vacate, claim_victim, load, load_into, bring_in, with_read_guard,
  checked_read_page,
}
use database_internals.Buffer.Pool.Linked.{perform-cases}
use database_internals.Buffer.Pool.Fresh.{
  marked, IsFresh, mark-frames, release-IsFresh, clean_and_pin-pins, IsLoaded, loaded,
  claim_free-IsFresh, Guards, with_read_guard-Guards, Hits, hit-Hits, drop-first, drop-second,
}

module _ (sys : System) (wreck : DiskRequest → Machine → Machine) (stack : Memory) where
  flush_page_unsafe-IsFresh :
      (b b' : BufferPoolManager) (p : ℕ) (found : Bool)
      → IsFresh b.shared
      → flush_page_unsafe sys wreck stack b p ≡ ok (found, b')
      → IsFresh b'.shared
  unfolding flush_page_unsafe
  flush_page_unsafe-IsFresh b b' p found v h = elim (Option-cases (find p b.page_table)) [
    | inl e ↦
        subst (λ (c : BufferPoolManager). IsFresh c.shared)
          (ap (λ (x : Bool × BufferPoolManager). x.1)
            (ok-injective (rw (flush_page_unsafe, e) at h)))
          v
    | inr (f, e) ↦
        let (b1, e1, h1) = >>=-eq-ok (clean_and_pin b f) _ (rw (flush_page_unsafe, e) at h) in
        let (b2, e2, h2) = >>=-eq-ok (perform sys wreck stack (write_request p f) b1) _ h1 in
        let (b3, e3, h3) = >>=-eq-ok (release b2 f) _ h2 in
        let (m, same) = perform-cases sys wreck stack b1 b2 (write_request p f) e2 in
        let k = release-IsFresh b2 b3 f (rw same (clean_and_pin-pins b b1 f v e1)) e3 in
        subst (λ (c : BufferPoolManager). IsFresh c.shared)
          (ap (λ (x : Bool × BufferPoolManager). x.1) (ok-injective h3)) k
  ]

  vacate-IsFresh :
      (b b' : BufferPoolManager) (c : Option (ℕ × ℕ)) (o : Option ℕ)
      → IsFresh b.shared
      → vacate sys wreck stack b c ≡ ok (o, b')
      → IsFresh b'.shared
  unfolding vacate
  vacate-IsFresh b b' none o v h =
      subst (λ (c : BufferPoolManager). IsFresh c.shared)
        (ap (λ (x : Option ℕ × BufferPoolManager). x.1) (ok-injective h)) v
  vacate-IsFresh b b' (some (stale, g)) o v h =
      let (fh, ef, h1) = >>=-eq-ok (frame_at b g) _ h in
      elim (Bool-cases fh.is_dirty) [
        | inl y ↦
            let (fl, efl, h2) =
              >>=-eq-ok (flush_page_unsafe sys wreck stack b stale) _ (rw y at h1) in
            subst (λ (c : BufferPoolManager). IsFresh c.shared)
              (ap (λ (x : Option ℕ × BufferPoolManager). x.1) (ok-injective h2))
              (flush_page_unsafe-IsFresh b fl.1 stale fl.0 v efl)
        | inr n ↦
            subst (λ (c : BufferPoolManager). IsFresh c.shared)
              (ap (λ (x : Option ℕ × BufferPoolManager). x.1) (ok-injective (rw n at h1))) v
      ]

  load-IsLoaded :
      (b b' : BufferPoolManager) (p f : ℕ)
      → IsFresh b.shared
      → load sys wreck stack b p f ≡ ok b'
      → IsLoaded b' p f
  unfolding load
  load-IsLoaded b b' p f v h =
      let (b1, e1, h1) = >>=-eq-ok (perform sys wreck stack (read_request p f) b) _ h in
      let (m, same) = perform-cases sys wreck stack b b1 (read_request p f) e1 in
      let (r, er, h2) = >>=-eq-ok (record_access b1.shared.replacer f p) _ h1 in
      let b2 = set_replacer (record b1 { page_table = link p f b1.page_table }) r in
      let k = mark-frames b2 b' f false h2 in
      let fs : b'.shared.frames ≡ b.shared.frames =
        k.0 ∙ ap (λ (c : BufferPoolManager). c.shared.frames) same in
      record {
        fresh = record {
          ids = λ g. ground (arith, fs, v.ids g);
          pins = λ g. ground (arith, fs, v.pins g);
        };
        linked = ground (arith, k.1);
        kept = k.2 (λ n. record_access-alive b1.shared.replacer r f p er (ground arith));
      }

  load_into-IsLoaded :
      (b b' : BufferPoolManager) (p f : ℕ) (w : Option ℕ)
      → IsFresh b.shared
      → load_into sys wreck stack p (w, b) ≡ ok (some f, b')
      → IsLoaded b' p f
  unfolding load_into
  load_into-IsLoaded b b' p f none v h = absurd (ground arith)
  load_into-IsLoaded b b' p f (some g) v h =
      let (b2, e2, h2) = >>=-eq-ok (load sys wreck stack b p g) _ h in
      loaded b2 b' p f g (load-IsLoaded b b2 p g v e2) (ok-injective h2)

  bring_in-IsLoaded :
      (b b' : BufferPoolManager) (p f : ℕ)
      → IsFresh b.shared
      → find p b.page_table ≡ none
      → bring_in sys wreck stack b p ≡ ok (some f, b')
      → IsLoaded b' p f
  unfolding bring_in claim_victim claim_free
  bring_in-IsLoaded b b' p f v e h = elim (Bool-cases (b.num_frames == length b.page_table)) [
    | inl full ↦
        let (w, ew, h1) =
          >>=-eq-ok (claim_victim sys wreck stack b) _ (rw (bring_in, e, full) at h) in
        let (c, ec, h2) = >>=-eq-ok (evict b.shared.replacer) _ ew in
        load_into-IsLoaded w.1 b' p f w.0
          (vacate-IsFresh (set_replacer b c.1) w.1 c.0 w.0 (record { ids = v.ids; pins = v.pins })
            h2)
          h1
    | inr room ↦
        let (w, ew, h1) = >>=-eq-ok (claim_free b) _ (rw (bring_in, e, room) at h) in
        let (b2, e2, h2) = >>=-eq-ok (load sys wreck stack w.1 p w.0) _ h1 in
        loaded b2 b' p f w.0 (load-IsLoaded w.1 b2 p w.0 (claim_free-IsFresh b w.1 w.0 v ew) e2)
          (ok-injective h2)
  ]

  bring_in-hit :
      (b b' : BufferPoolManager) (p f : ℕ) (o : Option ℕ)
      → find p b.page_table ≡ some f
      → bring_in sys wreck stack b p ≡ ok (o, b')
      → (o ≡ some f) × (hit b p f ≡ ok b')
  unfolding bring_in
  bring_in-hit b b' p f o e h =
      let (c, ec, h1) = >>=-eq-ok (hit b p f) _ (rw (bring_in, e) at h) in
      (ground arith, ec ∙ ap (λ (x : Option ℕ × BufferPoolManager). ok x.1) (ok-injective h1))

  -- The two ways of a call that gives a guard.
  first_read :
      (b b' : BufferPoolManager) (p : ℕ) (g : ReadPageGuard)
      → IsFresh b.shared
      → find p b.page_table ≡ none
      → checked_read_page sys wreck stack b p ≡ ok (some g, b')
      → (w : BufferPoolManager) × (f : ℕ) × IsLoaded w p f × Guards w b' p f g
  unfolding checked_read_page
  first_read b b' p g v e h =
      let (w, ew, h1) = >>=-eq-ok (bring_in sys wreck stack b p) (with_read_guard p) h in
      let (f, ef, k) = with_read_guard-Guards w.1 b' p w.0 g h1 in
      (w.1, f, bring_in-IsLoaded b w.1 p f v e (ew ∙ ap (λ o. ok (o, w.1)) ef), k)

  next_read :
      (b b' : BufferPoolManager) (p f : ℕ) (g : ReadPageGuard)
      → ((i : ℕ) → (b.shared.frames i).pin_count ≡ 0)
      → find p b.page_table ≡ some f
      → checked_read_page sys wreck stack b p ≡ ok (some g, b')
      → (w : BufferPoolManager) × Hits b w f × Guards w b' p f g
  unfolding checked_read_page
  next_read b b' p f g v e h =
      let (w, ew, h1) = >>=-eq-ok (bring_in sys wreck stack b p) (with_read_guard p) h in
      let (same, hits) = bring_in-hit b w.1 p f w.0 e ew in
      let (f', ef, k) = with_read_guard-Guards w.1 b' p w.0 g h1 in
      let at_f : f' ≡ f = ground (arith, same, ef) in
      (w.1, hit-Hits b w.1 p f v hits, subst (λ i. Guards w.1 b' p i g) at_f k)

  -- Reading a page that is not in memory, in a pool without pins, pins nothing: dropping the
  -- guard takes the frame's pin count from 0 to 2^64 - 1, and the frame stays not evictable.
  pub checked_read_page-drop_read_guard :
      (b b' : BufferPoolManager) (p : ℕ) (g : ReadPageGuard)
      → IsFresh b.shared
      → find p b.page_table ≡ none
      → checked_read_page sys wreck stack b p ≡ ok (some g, b')
      → (f : ℕ) × (g' : ReadPageGuard) × (s : Shared) × (drop_read_guard g b'.shared ≡ ok (g', s))
        × (find p b'.page_table ≡ some f)
        × ((s.frames f).pin_count ≡ 2 ^ 64 - 1)
        × (marked s.replacer f ≡ some false)
  checked_read_page-drop_read_guard b b' p g v e h =
      let (w, f, l, k) = first_read b b' p g v e h in
      let d = drop-first w b' p f g l k in (f, d.0, d.1, d.2, d.3, d.4, d.5)

  -- Two read guards for a page that was not in memory, in a pool without pins: dropping the first
  -- one makes the frame evictable, with a pin count of 0, though the second guard is valid and
  -- still holds the frame's latch for reading.
  pub two_readers-drop_read_guard :
      (b b1 b2 : BufferPoolManager) (p : ℕ) (g1 g2 : ReadPageGuard)
      → IsFresh b.shared
      → find p b.page_table ≡ none
      → checked_read_page sys wreck stack b p ≡ ok (some g1, b1)
      → checked_read_page sys wreck stack b1 p ≡ ok (some g2, b2)
      → (f : ℕ) × (g' : ReadPageGuard) × (s : Shared) × (drop_read_guard g1 b2.shared ≡ ok (g', s))
        × (g2 ≡ record { page_id = p; frame = some f; is_valid = true })
        × ((s.frames f).pin_count ≡ 0)
        × (0 < (s.frames f).readers)
        × (marked s.replacer f ≡ some true)
  two_readers-drop_read_guard b b1 b2 p g1 g2 v e h h2 =
      let (w, f, l, k) = first_read b b1 p g1 v e h in
      let (x, c, k2) =
        next_read b1 b2 p f g2 (λ i. (k.frames i).1 ∙ l.fresh.pins i)
          (ap (find p) k.table ∙ l.linked) h2 in
      let d = drop-second w b1 x b2 p f g1 g2 l k c k2 in (f, d.0, d.1, d.2, d.3, d.4, d.5, d.6)
