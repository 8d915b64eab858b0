-- ===== src/Buffer/Pool/Linked.antt =====
-- The operations of `BufferPoolManager` keep the page table, the free list and the replacer in
-- step.
use database_internals.Prelude.{
  ℕ, ◌==◌, ◌≡◌, refl, sym, ap, ◌∙◌, inl, inr, Bool, true, false, Option, none, some, List, ◌∷◌,
  length, Outcome, ok, ◌>>=◌, arith, Bool-cases, Option-cases, >>=-eq-ok, List-cases, ok-injective,
  subst, if◌then◌else◌,
}
use database_internals.Memory.{Memory}
use database_internals.Storage.DiskManager.{System}
use database_internals.Storage.DiskScheduler.{
  DiskRequest, read_request, write_request, Machine, await, future_get,
}
use database_internals.Buffer.Arc.{ArcReplacer, evict, record_access}
use database_internals.Buffer.Arc.Pages.{
  HasOwnGhosts, record_access-page_of, Evicts, evict-Evicts, evict-none,
}
use database_internals.Buffer.Frames.{pin}
use database_internals.Buffer.Pool.{
  BufferPoolManager, find, erase_page, link, frame_at, set_replacer, hit, claim_free, release,
  clean_and_pin, perform, flush_page_unsafe, vacate, claim_victim, load, bring_in, load_into,
}
use database_internals.Buffer.Pool.Tables.{
  Links, Takes, Links-same, Takes-same, Links-link, Takes-evict, Takes-free, find-erase_page,
}
use database_internals.Buffer.Pool.Keeps.{
  IsLinked, Keeps, Keeps-trans, Keeps-refl, IsLinked-Keeps, mark-Keeps, release-Keeps,
  clean_and_pin-Keeps,
}

module _ (sys : System) (wreck : DiskRequest → Machine → Machine) (stack : Memory) where
  -- What a request to the disk changes of the pool.
  pub perform-cases :
      (b b' : BufferPoolManager) (q : DiskRequest)
      → perform sys wreck stack q b ≡ ok b'
      → (m : Machine) × (b' ≡ record b { shared = record b.shared { machine = m } })
  unfolding perform
  perform-cases b b' q h =
      let (a, ea, h') = >>=-eq-ok (await sys wreck stack q b.shared.machine) _ h in
      let (m, em, e) = >>=-eq-ok (future_get a) _ h' in (m, ground arith)

  pub perform-Keeps :
      (b b' : BufferPoolManager) (q : DiskRequest)
      → perform sys wreck stack q b ≡ ok b'
      → Keeps b b'
  perform-Keeps b b' q h =
      let (m, e) = perform-cases b b' q h in
      rw e (record { frames = refl; table = refl; free = refl; pages = λ g. refl; own = λ o. o })

  flush_found :
      (b b' : BufferPoolManager) (p f : ℕ)
      → HasOwnGhosts b.shared.replacer
      → (do
        b1 ← clean_and_pin b f
        b2 ← perform sys wreck stack (write_request p f) b1
        release b2 f)
        ≡ ok b'
      → Keeps b b'
  flush_found b b' p f own h =
      let (b1, e1, h1) = >>=-eq-ok (clean_and_pin b f) _ h in
      let (b2, e2, h2) = >>=-eq-ok (perform sys wreck stack (write_request p f) b1) _ h1 in
      let k1 = clean_and_pin-Keeps b b1 f own e1 in
      let k2 = Keeps-trans b b1 b2 k1 (perform-Keeps b1 b2 _ e2) in
      Keeps-trans b b2 b' k2 (release-Keeps b2 b' f (k2.own own) h2)

  pub flush_page_unsafe-Keeps :
      (b b' : BufferPoolManager) (p : ℕ) (found : Bool)
      → HasOwnGhosts b.shared.replacer
      → flush_page_unsafe sys wreck stack b p ≡ ok (found, b')
      → Keeps b b'
  unfolding flush_page_unsafe
  flush_page_unsafe-Keeps b b' p found own h = elim (Option-cases (find p b.page_table)) [
    | inl e ↦ record {
      frames = ground arith;
      table = ground arith;
      free = ground arith;
      pages = λ g. ground arith;
      own = λ o q fs k. ground (arith, o q fs);
    }
    | inr (f, e) ↦
        let (b1, e1, h1) = >>=-eq-ok (clean_and_pin b f) _ (rw (flush_page_unsafe, e) at h) in
        let (b2, e2, h2) = >>=-eq-ok (perform sys wreck stack (write_request p f) b1) _ h1 in
        let (b3, e3, h3) = >>=-eq-ok (release b2 f) _ h2 in flush_found b b' p f own (ground arith)
  ]

  unfoldable pub IsTaking : BufferPoolManager → ℕ → Type 0
  IsTaking b g = Takes b.num_frames b.page_table b.free_frames b.shared.replacer g

  IsTaking-Keeps : (b b' : BufferPoolManager) (g : ℕ) → Keeps b b' → IsTaking b g → IsTaking b' g
  unfolding IsTaking
  IsTaking-Keeps b b' g k v =
      rw (k.frames, k.table, k.free) (Takes-same g b'.shared.replacer v k.pages (k.own v.own))

  -- The frame of a victim, once its page has been written.
  vacated :
      (b b1 b' : BufferPoolManager) (r : ArcReplacer) (stale g f : ℕ)
      → IsLinked b
      → Evicts b.shared.replacer r stale g
      → Keeps (set_replacer b r) b1
      → f ≡ g
      → b' ≡ record b1 { page_table = erase_page stale b1.page_table }
      → IsTaking b' f × (b'.page_table ≡ erase_page stale b.page_table)
  unfolding IsTaking
  vacated b b1 b' r stale g f v ev k eg e =
      let t = Takes-same g b1.shared.replacer (Takes-evict stale g r v ev) k.pages (k.own ev.own) in
      (rw (eg, e, k.frames, k.table, k.free) t, rw (e, k.table) refl)

  vacate-IsTaking :
      (b b' : BufferPoolManager) (r : ArcReplacer) (stale g f : ℕ)
      → IsLinked b
      → Evicts b.shared.replacer r stale g
      → vacate sys wreck stack (set_replacer b r) (some (stale, g)) ≡ ok (some f, b')
      → IsTaking b' f × (b'.page_table ≡ erase_page stale b.page_table)
  unfolding vacate
  vacate-IsTaking b b' r stale g f v ev h =
      let (fh, ef, h1) = >>=-eq-ok (frame_at (set_replacer b r) g) _ h in
      elim (Bool-cases fh.is_dirty) [
        | inl y ↦
            let (fl, efl, h2) =
              >>=-eq-ok (flush_page_unsafe sys wreck stack (set_replacer b r) stale) _
                (rw y at h1) in
            vacated b fl.1 b' r stale g f v ev
              (flush_page_unsafe-Keeps (set_replacer b r) fl.1 stale fl.0 ev.own efl) (ground arith)
              (ground arith)
        | inr n ↦
            vacated b (set_replacer b r) b' r stale g f v ev (Keeps-refl (set_replacer b r))
              (ground arith) (ground arith)
      ]

  load-IsLinked :
      (b b' : BufferPoolManager) (p f : ℕ)
      → IsTaking b f
      → find p b.page_table ≡ none
      → load sys wreck stack b p f ≡ ok b'
      → IsLinked b'
  unfolding load IsTaking
  load-IsLinked b b' p f v absent h =
      let (b1, e1, h1) = >>=-eq-ok (perform sys wreck stack (read_request p f) b) _ h in
      let kp = perform-Keeps b b1 (read_request p f) e1 in
      let (r, er, h2) = >>=-eq-ok (record_access b1.shared.replacer f p) _ h1 in
      let acc =
        record_access-page_of b1.shared.replacer r f p (kp.own v.own) (inl (kp.pages f ∙ v.out.0))
          er in
      let linked =
        Links-link p f r (Takes-same f b1.shared.replacer v kp.pages (kp.own v.own)) absent acc.0
          acc.1 in
      let b2 = set_replacer (record b1 { page_table = link p f b1.page_table }) r in
      IsLinked-Keeps b2 b' (mark-Keeps b2 b' f false acc.1 h2)
        (rw (kp.frames, kp.table, kp.free) linked)

  hit-IsLinked :
      (b b' : BufferPoolManager) (p f : ℕ)
      → IsLinked b
      → find p b.page_table ≡ some f
      → hit b p f ≡ ok b'
      → IsLinked b'
  unfolding hit
  hit-IsLinked b b' p f v e h =
      let (fh, ef, h1) = >>=-eq-ok (frame_at b f) _ h in
      let (r, er, h2) = >>=-eq-ok (record_access b.shared.replacer f p) _ h1 in
      let acc = record_access-page_of b.shared.replacer r f p v.own (inr (v.held p f e).0) er in
      let b1 = record b { shared = record (pin b.shared f) { replacer = r } } in
      let linked = Links-same r v (λ g. ground (arith, acc.0 g, v.held p f e)) acc.1 in
      elim (Bool-cases (fh.pin_count == 0)) [
        | inl y ↦ IsLinked-Keeps b1 b' (mark-Keeps b1 b' f false acc.1 (rw y at h2)) linked
        | inr n ↦ subst IsLinked (ok-injective (rw n at h2)) linked
      ]

  returned :
      (b b' : BufferPoolManager) (o w : Option ℕ)
      → IsLinked b
      → ◌≡◌ {A = Outcome (Option ℕ × BufferPoolManager)} (ok (w, b)) (ok (o, b'))
      → IsLinked b'
  returned b b' o w v h =
      subst IsLinked (ap (λ (x : Option ℕ × BufferPoolManager). x.1) (ok-injective h)) v

  -- What an attempt to make room leaves.
  unfoldable pub Room : BufferPoolManager → Option ℕ → BufferPoolManager → Type 0
  Room b none b' = IsLinked b'
  Room b (some f) b' =
      IsTaking b' f × ((p : ℕ) → find p b.page_table ≡ none → find p b'.page_table ≡ none)

  vacate-Room :
      (b b' : BufferPoolManager) (r : ArcReplacer) (c : Option (ℕ × ℕ)) (o : Option ℕ)
      → IsLinked b
      → evict b.shared.replacer ≡ ok (c, r)
      → vacate sys wreck stack (set_replacer b r) c ≡ ok (o, b')
      → Room b o b'
  unfolding Room vacate
  vacate-Room b b' r none (some f) v ev h = absurd (ground arith)
  vacate-Room b b' r none none v ev h =
      returned (set_replacer b r) b' none none
        (subst IsLinked (ap (set_replacer b) (sym (evict-none b.shared.replacer r ev))) v) h
  vacate-Room b b' r (some (stale, g)) none v ev h =
      let (fh, ef, h1) = >>=-eq-ok (frame_at (set_replacer b r) g) _ h in
      let (fl, efl, h2) =
        >>=-eq-ok
          (if fh.is_dirty
            then flush_page_unsafe sys wreck stack (set_replacer b r) stale
            else ok (true, set_replacer b r))
          _ h1 in
      absurd (ground arith)
  vacate-Room b b' r (some (stale, g)) (some f) v ev h =
      let (t, e) =
        vacate-IsTaking b b' r stale g f v (evict-Evicts b.shared.replacer r stale g v.own ev) h in
      (t, λ p absent. ground (arith, e, find-erase_page stale p b.page_table))

  pub claim_victim-Room :
      (b b' : BufferPoolManager) (o : Option ℕ)
      → IsLinked b
      → claim_victim sys wreck stack b ≡ ok (o, b')
      → Room b o b'
  unfolding claim_victim
  claim_victim-Room b b' o v h =
      let (c, ec, h1) = >>=-eq-ok (evict b.shared.replacer) _ h in
      vacate-Room b b' c.1 c.0 o v ec h1

  load_into-IsLinked :
      (b b1 b' : BufferPoolManager) (p : ℕ) (w o : Option ℕ)
      → Room b w b1
      → find p b.page_table ≡ none
      → load_into sys wreck stack p (w, b1) ≡ ok (o, b')
      → IsLinked b'
  unfolding Room load_into
  load_into-IsLinked b b1 b' p none o v absent h = returned b1 b' o none v h
  load_into-IsLinked b b1 b' p (some f) o v absent h =
      let (b2, e2, h2) = >>=-eq-ok (load sys wreck stack b1 p f) _ h in
      returned b2 b' o (some f) (load-IsLinked b1 b2 p f v.0 (v.1 p absent) e2) h2

  claimed :
      (b b' : BufferPoolManager) (g f : ℕ) (gs : List ℕ)
      → Links b.num_frames b.page_table (g ∷ gs) b.shared.replacer
      → f ≡ g
      → b' ≡ record b { free_frames = gs }
      → IsTaking b' f × (b'.page_table ≡ b.page_table)
  unfolding IsTaking
  claimed b b' g f gs v eg eb =
      (rw (eg, eb) (Takes-free b.num_frames g b.page_table gs b.shared.replacer v), rw eb refl)

  pub claim_free-IsTaking :
      (b b' : BufferPoolManager) (f : ℕ)
      → IsLinked b
      → claim_free b ≡ ok (f, b')
      → IsTaking b' f × (b'.page_table ≡ b.page_table)
  unfolding claim_free IsTaking
  claim_free-IsTaking b b' f v h = elim (List-cases b.free_frames) [
    | inl e ↦ absurd (ground arith)
    | inr (g, gs, e) ↦
        let (fh, ef, h1) = >>=-eq-ok (frame_at b g) _ (rw (claim_free, e) at h) in
        claimed b b' g f gs (subst (λ fs. Links b.num_frames b.page_table fs b.shared.replacer) e v)
          (ap (λ (x : ℕ × BufferPoolManager). x.0) (sym (ok-injective h1)))
          (ap (λ (x : ℕ × BufferPoolManager). x.1) (sym (ok-injective h1)))
  ]

  -- Whichever of the three cases it takes.
  pub bring_in-IsLinked :
      (b b' : BufferPoolManager) (p : ℕ) (o : Option ℕ)
      → IsLinked b
      → bring_in sys wreck stack b p ≡ ok (o, b')
      → IsLinked b'
  unfolding bring_in
  bring_in-IsLinked b b' p o v h = elim (Option-cases (find p b.page_table)) [
    | inr (f, e) ↦
        let (b1, e1, h1) = >>=-eq-ok (hit b p f) _ (rw (bring_in, e) at h) in
        returned b1 b' o (some f) (hit-IsLinked b b1 p f v e e1) h1
    | inl e ↦ elim (Bool-cases (b.num_frames == length b.page_table)) [
      | inl full ↦
          let (w, ew, h1) =
            >>=-eq-ok (claim_victim sys wreck stack b) _ (rw (bring_in, e, full) at h) in
          load_into-IsLinked b w.1 b' p w.0 o (claim_victim-Room b w.1 w.0 v ew) e h1
      | inr room ↦
          let (w, ew, h1) = >>=-eq-ok (claim_free b) _ (rw (bring_in, e, room) at h) in
          let (b2, e2, h2) = >>=-eq-ok (load sys wreck stack w.1 p w.0) _ h1 in
          let (t, et) = claim_free-IsTaking b w.1 w.0 v ew in
          returned b2 b' o (some w.0) (load-IsLinked w.1 b2 p w.0 t (rw et e) e2) h2
    ]
  ]
