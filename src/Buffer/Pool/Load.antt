-- ===== src/Buffer/Pool/Load.antt =====
-- What bringing a page into the buffer pool does to the disk and to the frame's bytes.
use database_internals.Prelude.{
  ℕ, ◌==◌, ◌≡◌, refl, sym, ap, ◌∙◌, ◌⊎◌, inl, inr, Bool, true, false, Option, none, some, List, ◌∷◌,
  length, Outcome, ok, aborted, undefined, thrown, waits, ◌>>=◌, arith, Bool-cases, List-cases,
  >>=-eq-ok, ok-injective, subst, update,
}
use database_internals.Memory.{Memory}
use database_internals.Storage.DiskManager.{System, DiskManager, read_page, write_page}
use database_internals.Storage.DiskScheduler.{
  DiskRequest, read_request, write_request, Machine, Reply, await, future_get, settle, served,
  visit, schedule_single,
}
use database_internals.Buffer.Arc.{ArcReplacer, evict, record_access, set_evictable}
use database_internals.Buffer.Arc.Pages.{evict-Evicts}
use database_internals.Buffer.Frames.{frame_data, pin, unpin, set_dirty}
use database_internals.Buffer.Pool.{
  BufferPoolManager, find, link, frame_at, set_replacer, mark, claim_free, release, clean_and_pin,
  perform, flush_page_unsafe, vacate, claim_victim, load, load_into, bring_in, with_read_guard,
  checked_read_page,
}
use database_internals.Buffer.Guard.Read.{ReadPageGuard, read_data}
use database_internals.Buffer.Pool.Keeps.{IsLinked}
use database_internals.Buffer.Pool.Fresh.{Guards, with_read_guard-Guards}

module _ (sys : System) (wreck : DiskRequest → Machine → Machine) (stack : Memory) where
  settled :
      {A : Type 0} (s : Machine) (next : A → Reply × Machine) (o : Outcome A) (m : Machine)
      → (settle sys wreck stack s next o >>= future_get) ≡ ok m
      → (a : A) × (o ≡ ok a) × (future_get (next a) ≡ ok m)
  unfolding settle future_get
  settled s next (ok a) m h = (a, refl, h)
  settled s next aborted m h = cc
  settled s next undefined m h = cc
  settled s next thrown m h = cc
  settled s next waits m h = cc

  perform-read :
      (b b' : BufferPoolManager) (p f : ℕ)
      → perform sys wreck stack (read_request p f) b ≡ ok b'
      → (page : Memory) × (read_page sys b.shared.machine.disk p ≡ ok page)
        × (b' ≡ record b {
          shared = record b.shared {
            machine = record b.shared.machine { buffers = update b.shared.machine.buffers f page };
          };
        })
  unfolding perform await served visit schedule_single future_get
  perform-read b b' p f h =
      let (a, ea, h1) = >>=-eq-ok (await sys wreck stack (read_request p f) b.shared.machine) _ h in
      let (m, em, h2) = >>=-eq-ok (future_get a) _ h1 in
      let (x, ex, e) =
        settled (wreck (read_request p f) b.shared.machine) _
          (read_page sys b.shared.machine.disk p) m (ap (λ o. o >>= future_get) ea ∙ em) in
      let same = ok-injective e in
      (
        x,
        ex,
        sym (ok-injective h2)
            ∙ ap (λ n. record b { shared = record b.shared { machine = n } }) (sym same),
      )

  perform-write :
      (b b' : BufferPoolManager) (p f : ℕ)
      → perform sys wreck stack (write_request p f) b ≡ ok b'
      → (d : DiskManager) × (write_page sys b.shared.machine.disk p (frame_data b.shared f) ≡ ok d)
        × (b' ≡ record b {
          shared = record b.shared { machine = record b.shared.machine { disk = d } };
        })
  unfolding perform await served visit schedule_single future_get
  perform-write b b' p f h =
      let (a, ea, h1) =
        >>=-eq-ok (await sys wreck stack (write_request p f) b.shared.machine) _ h in
      let (m, em, h2) = >>=-eq-ok (future_get a) _ h1 in
      let (x, ex, e) =
        settled (wreck (write_request p f) b.shared.machine) _
          (write_page sys b.shared.machine.disk p (frame_data b.shared f)) m
          (ap (λ o. o >>= future_get) ea ∙ em) in
      let same = ok-injective e in
      (
        x,
        ex,
        sym (ok-injective h2)
            ∙ ap (λ n. record b { shared = record b.shared { machine = n } }) (sym same),
      )

  mark-machine :
      (b b' : BufferPoolManager) (f : ℕ) (e : Bool)
      → mark b f e ≡ ok b'
      → b'.shared.machine ≡ b.shared.machine
  unfolding mark
  mark-machine b b' f e h =
      let (r, er, h1) = >>=-eq-ok (set_evictable b.shared.replacer f e) _ h in
      ap (λ (c : BufferPoolManager). c.shared.machine) (sym (ok-injective h1))

  mark-table :
      (b b' : BufferPoolManager) (f : ℕ) (e : Bool)
      → mark b f e ≡ ok b'
      → b'.page_table ≡ b.page_table
  unfolding mark
  mark-table b b' f e h =
      let (r, er, h1) = >>=-eq-ok (set_evictable b.shared.replacer f e) _ h in
      ap (λ (c : BufferPoolManager). c.page_table) (sym (ok-injective h1))

  clean_and_pin-machine :
      (b b' : BufferPoolManager) (f : ℕ)
      → clean_and_pin b f ≡ ok b'
      → b'.shared.machine ≡ b.shared.machine
  unfolding clean_and_pin mark
  clean_and_pin-machine b b' f h =
      let (fh, ef, h1) = >>=-eq-ok (frame_at b f) _ h in
      mark-machine (record b { shared = pin (set_dirty b.shared f false) f }) b' f false h1

  release-machine :
      (b b' : BufferPoolManager) (f : ℕ)
      → release b f ≡ ok b'
      → b'.shared.machine ≡ b.shared.machine
  unfolding release mark
  release-machine b b' f h = elim (Bool-cases (((unpin b.shared f).frames f).pin_count == 0)) [
    | inl y ↦ mark-machine (record b { shared = unpin b.shared f }) b' f true (rw y at h)
    | inr n ↦ ground arith
  ]

  flush_page_unsafe-writes :
      (b b' : BufferPoolManager) (p f : ℕ) (found : Bool)
      → find p b.page_table ≡ some f
      → flush_page_unsafe sys wreck stack b p ≡ ok (found, b')
      → (d : DiskManager) × (write_page sys b.shared.machine.disk p (frame_data b.shared f) ≡ ok d)
        × (b'.shared.machine ≡ record b.shared.machine { disk = d })
  unfolding flush_page_unsafe
  flush_page_unsafe-writes b b' p f found e h =
      let (b1, e1, h1) = >>=-eq-ok (clean_and_pin b f) _ (rw (flush_page_unsafe, e) at h) in
      let (b2, e2, h2) = >>=-eq-ok (perform sys wreck stack (write_request p f) b1) _ h1 in
      let (b3, e3, h3) = >>=-eq-ok (release b2 f) _ h2 in
      let (d, ed, eb) = perform-write b1 b2 p f e2 in
      let m1 = clean_and_pin-machine b b1 f e1 in
      let m3 : b'.shared.machine ≡ b2.shared.machine =
        ap (λ (x : Bool × BufferPoolManager). x.1.shared.machine) (sym (ok-injective h3))
        ∙ release-machine b2 b3 f e3 in
      (
        d,
        subst (λ (m : Machine). write_page sys m.disk p (m.buffers f) ≡ ok d) m1 ed,
        m3
            ∙ ap (λ (c : BufferPoolManager). c.shared.machine) eb
            ∙ ap (λ (m : Machine). record m { disk = d }) m1,
      )

  -- The page is in the frame, read from a disk on which the frame's old page had been saved if it
  -- was dirty.
  pub record Reads (b b' : BufferPoolManager) (p f : ℕ) : Type 0 where
    pub disk : DiskManager
    pub page : Memory
    pub saved :
        (((fs : List ℕ) × (b.free_frames ≡ f ∷ fs)) × (disk ≡ b.shared.machine.disk))
        ⊎ ((stale : ℕ) × (find stale b.page_table ≡ some f)
            × ((((b.shared.frames f).is_dirty ≡ false) × (disk ≡ b.shared.machine.disk))
                ⊎ (write_page sys b.shared.machine.disk stale (frame_data b.shared f) ≡ ok disk)))
    pub returned : read_page sys disk p ≡ ok page
    pub there :
        b'.shared.machine ≡ record { disk = disk; buffers = update b.shared.machine.buffers f page }
    pub linked : find p b'.page_table ≡ some f

  load-there :
      (b b' : BufferPoolManager) (p f : ℕ)
      → load sys wreck stack b p f ≡ ok b'
      → (page : Memory) × (read_page sys b.shared.machine.disk p ≡ ok page)
        × (b'.shared.machine
            ≡ record b.shared.machine { buffers = update b.shared.machine.buffers f page })
        × (find p b'.page_table ≡ some f)
  unfolding load
  load-there b b' p f h =
      let (b1, e1, h1) = >>=-eq-ok (perform sys wreck stack (read_request p f) b) _ h in
      let (r, er, h2) = >>=-eq-ok (record_access b1.shared.replacer f p) _ h1 in
      let b2 = set_replacer (record b1 { page_table = link p f b1.page_table }) r in
      let (page, ep, eb) = perform-read b b1 p f e1 in
      (
        page,
        ep,
        mark-machine b2 b' f false h2 ∙ ap (λ (c : BufferPoolManager). c.shared.machine) eb,
        ground (arith, mark-table b2 b' f false h2),
      )

  vacate-saves :
      (b b' : BufferPoolManager) (stale g f : ℕ)
      → find stale b.page_table ≡ some g
      → vacate sys wreck stack b (some (stale, g)) ≡ ok (some f, b')
      → (f ≡ g)
        × (d : DiskManager) × (b'.shared.machine ≡ record b.shared.machine { disk = d })
        × ((((b.shared.frames g).is_dirty ≡ false) × (d ≡ b.shared.machine.disk))
            ⊎ (write_page sys b.shared.machine.disk stale (frame_data b.shared g) ≡ ok d))
  unfolding vacate
  vacate-saves b b' stale g f e h =
      let (fh, ef, h1) = >>=-eq-ok (frame_at b g) _ h in
      let dirty : fh.is_dirty ≡ (b.shared.frames g).is_dirty = ground arith in
      elim (Bool-cases fh.is_dirty) [
        | inl y ↦
            let (fl, efl, h2) =
              >>=-eq-ok (flush_page_unsafe sys wreck stack b stale) _ (rw y at h1) in
            let (d, ed, em) = flush_page_unsafe-writes b fl.1 stale g fl.0 e efl in
            (
              ground arith,
              d,
              ap (λ (x : Option ℕ × BufferPoolManager). x.1.shared.machine) (sym (ok-injective h2))
                  ∙ em,
              inr ed,
            )
        | inr n ↦ (
          ground arith,
          b.shared.machine.disk,
          ap (λ (x : Option ℕ × BufferPoolManager). x.1.shared.machine)
              (sym (ok-injective (rw n at h1))),
          inl (sym dirty ∙ n, refl),
        )
      ]

  Reads-same :
      (b b1 b2 : BufferPoolManager) (p f g : ℕ)
      → ◌≡◌ {A = Option ℕ × BufferPoolManager} (some f, b1) (some g, b2)
      → Reads b b1 p f
      → Reads b b2 p g
  Reads-same b b1 b2 p f g e r =
      let eg : g ≡ f = ground arith in
      let eb : b2 ≡ b1 = ap (λ (x : Option ℕ × BufferPoolManager). x.1) (sym e) in rw (eg, eb) r

  -- The frame of a victim, if the eviction found one.
  evicted-Reads :
      (b b1 b2 b' : BufferPoolManager) (p g f : ℕ) (c : Option (ℕ × ℕ)) (r : ArcReplacer)
      → IsLinked b
      → evict b.shared.replacer ≡ ok (c, r)
      → vacate sys wreck stack (set_replacer b r) c ≡ ok (some g, b1)
      → load sys wreck stack b1 p g ≡ ok b2
      → ◌≡◌ {A = Option ℕ × BufferPoolManager} (some g, b2) (some f, b')
      → Reads b b' p f
  unfolding vacate
  evicted-Reads b b1 b2 b' p g f none r v ev h k e = absurd (ground arith)
  evicted-Reads b b1 b2 b' p g f (some (stale, i)) r v ev h k e =
      let out = evict-Evicts b.shared.replacer r stale i v.own ev in
      let known = v.found stale i out.held in
      let (here, d, em, ed) = vacate-saves (set_replacer b r) b1 stale i g known h in
      let (page, ep, em2, el) = load-there b1 b2 p g k in
      Reads-same b b2 b' p g f e (record {
        disk = d;
        page = page;
        saved =
            inr (stale, subst (λ j. find stale b.page_table ≡ some j) (sym here) known, rw here ed);
        returned = subst (λ (m : Machine). read_page sys m.disk p ≡ ok page) em ep;
        there = em2 ∙ ap (λ (m : Machine). record m { buffers = update m.buffers g page }) em;
        linked = el;
      })

  -- The two ways in.
  free-Reads :
      (b b1 b' : BufferPoolManager) (p f : ℕ)
      → claim_free b ≡ ok (f, b1)
      → load sys wreck stack b1 p f ≡ ok b'
      → Reads b b' p f
  unfolding claim_free
  free-Reads b b1 b' p f h k = elim (List-cases b.free_frames) [
    | inl e ↦ absurd (ground arith)
    | inr (g, gs, e) ↦
        let (fh, ef, h1) = >>=-eq-ok (frame_at b g) _ (rw (claim_free, e) at h) in
        let (page, ep, em, el) = load-there b1 b' p f k in
        let same : b1.shared.machine ≡ b.shared.machine =
          ap (λ (x : ℕ × BufferPoolManager). x.1.shared.machine) (sym (ok-injective h1)) in
        let here : g ≡ f = ap (λ (x : ℕ × BufferPoolManager). x.0) (ok-injective h1) in
        record {
          disk = b.shared.machine.disk;
          page = page;
          saved = inl ((gs, e ∙ ap (λ i. i ∷ gs) here), refl);
          returned = subst (λ (m : Machine). read_page sys m.disk p ≡ ok page) same ep;
          there = em ∙ ap (λ (m : Machine). record m { buffers = update m.buffers f page }) same;
          linked = el;
        }
  ]

  victim-Reads :
      (b b1 b' : BufferPoolManager) (p f : ℕ) (w : Option ℕ)
      → IsLinked b
      → claim_victim sys wreck stack b ≡ ok (w, b1)
      → load_into sys wreck stack p (w, b1) ≡ ok (some f, b')
      → Reads b b' p f
  unfolding claim_victim load_into
  victim-Reads b b1 b' p f none v h k = absurd (ground arith)
  victim-Reads b b1 b' p f (some g) v h k =
      let (c, ec, h1) = >>=-eq-ok (evict b.shared.replacer) _ h in
      let (b2, e2, k2) = >>=-eq-ok (load sys wreck stack b1 p g) _ k in
      evicted-Reads b b1 b2 b' p g f c.0 c.1 v ec h1 e2 (ok-injective k2)

  bring_in-Reads :
      (b b' : BufferPoolManager) (p f : ℕ)
      → IsLinked b
      → find p b.page_table ≡ none
      → bring_in sys wreck stack b p ≡ ok (some f, b')
      → Reads b b' p f
  unfolding bring_in
  bring_in-Reads b b' p f v e h = elim (Bool-cases (b.num_frames == length b.page_table)) [
    | inl full ↦
        let (w, ew, h1) =
          >>=-eq-ok (claim_victim sys wreck stack b) _ (rw (bring_in, e, full) at h) in
        victim-Reads b w.1 b' p f w.0 v ew h1
    | inr room ↦
        let (w, ew, h1) = >>=-eq-ok (claim_free b) _ (rw (bring_in, e, room) at h) in
        let (b2, e2, h2) = >>=-eq-ok (load sys wreck stack w.1 p w.0) _ h1 in
        Reads-same b b2 b' p w.0 f (ok-injective h2) (free-Reads b w.1 b2 p w.0 ew e2)
  ]

  read_data-Reads :
      (b w b' : BufferPoolManager) (p f : ℕ) (g : ReadPageGuard) (r : Reads b w p f)
      → Guards w b' p f g
      → read_data g b'.shared ≡ ok r.page
  unfolding read_data
  read_data-Reads b w b' p f g r k =
      ap (λ c. read_data c b'.shared) k.is_guard
      ∙ ap (λ (m : Machine). ok (m.buffers f)) (k.machine ∙ r.there)
      ∙ ground arith

  -- Reading a page that is not in memory: the guard's bytes are those that `readPage` returns for
  -- it, in a frame that was free, or whose old page was clean or has been written to the disk
  -- before; the disk is otherwise as it was, no other frame's bytes change, and the page table
  -- leads to the frame.
  pub checked_read_page-Reads :
      (b b' : BufferPoolManager) (p : ℕ) (g : ReadPageGuard)
      → IsLinked b
      → find p b.page_table ≡ none
      → checked_read_page sys wreck stack b p ≡ ok (some g, b')
      → (f : ℕ) × (r : Reads b b' p f) × (read_data g b'.shared ≡ ok r.page)
  unfolding checked_read_page bring_in read_data
  checked_read_page-Reads b b' p g v e h =
      let (w, ew, h1) = >>=-eq-ok (bring_in sys wreck stack b p) (with_read_guard p) h in
      let (f, ef, k) = with_read_guard-Guards w.1 b' p w.0 g h1 in
      let r = bring_in-Reads b w.1 p f v e (ew ∙ ap (λ o. ok (o, w.1)) ef) in
      (
        f,
        record {
          disk = r.disk;
          page = r.page;
          saved = r.saved;
          returned = r.returned;
          there = k.machine ∙ r.there;
          linked = ap (find p) k.table ∙ r.linked;
        },
        (read_data-Reads b w.1 b' p f g r k),
      )
