-- ===== src/Buffer/Pool/Calls.antt =====
-- The calls of a buffer pool and its guards in any order: the pool's bookkeeping holds throughout.
use database_internals.Prelude.{
  ℕ, ◌≡◌, Outcome, inl, inr, Bool, true, false, Option, none, some, ap, subst, [], ◌∷◌, ok, arith,
  Bool-cases, Option-cases, >>=-eq-ok, ok-injective, ltb, ◌>>=◌,
}
use database_internals.Memory.{Memory}
use database_internals.Storage.DiskManager.{System, DiskManager}
use database_internals.Storage.DiskScheduler.{
  DiskRequest, write_request, deallocate_request, allocate_request, Machine, await, future_get,
}
use database_internals.Buffer.Arc.Pages.{HasOwnGhosts}
use database_internals.Buffer.Frames.{Shared, reset}
use database_internals.Buffer.Guard.Read.{ReadPageGuard, drop_read_guard, flush_read_guard}
use database_internals.Buffer.Guard.{flush_frame, protected}
use database_internals.Buffer.Guard.Write.{
  WritePageGuard, drop_write_guard, write_data_mut, flush_write_guard,
}
use database_internals.Buffer.Pool.{
  forget_page, with_read_guard, with_write_guard, BufferPoolManager, PageTable, find, frame_at,
  buffer_pool, checked_write_page, checked_read_page, bring_in, delete_page, perform, pin_dirty,
  write_each, flush_all_pages_unsafe, flush_page_unsafe, flush_page, new_page,
}
use database_internals.Buffer.Pool.Linked.{
  bring_in-IsLinked, perform-Keeps, flush_page_unsafe-Keeps,
}
use database_internals.Buffer.Pool.Keeps.{IsLinked, Keeps, Keeps-trans, IsLinked-Keeps}
use database_internals.Buffer.Pool.Handles.{
  guarded, with_shared, with_machine, buffer_pool-IsLinked, drop_read_guard-IsLinked,
  drop_write_guard-IsLinked, with_read_guard-IsLinked, with_write_guard-IsLinked, Keeps-same,
  returned, forget_page-IsLinked, pin_dirty-Keeps, release_each-Keeps,
}

-- One call that returns, or a change to the disk or to the bytes of a page by whoever may make it.
pub data Call (sys : System) (wreck : DiskRequest → Machine → Machine) (stack : Memory)
    (b : BufferPoolManager) : BufferPoolManager → Type 0 where
  writes_page :
      (p : ℕ) (g : Option WritePageGuard) (b' : BufferPoolManager)
      → checked_write_page sys wreck stack b p ≡ ok (g, b')
      → Call sys wreck stack b b'
  reads_page :
      (p : ℕ) (g : Option ReadPageGuard) (b' : BufferPoolManager)
      → checked_read_page sys wreck stack b p ≡ ok (g, b')
      → Call sys wreck stack b b'
  deletes_page :
      (p : ℕ) (done : Bool) (b' : BufferPoolManager)
      → delete_page sys wreck stack b p ≡ ok (done, b')
      → Call sys wreck stack b b'
  flushes_unsafe :
      (p : ℕ) (done : Bool) (b' : BufferPoolManager)
      → flush_page_unsafe sys wreck stack b p ≡ ok (done, b')
      → Call sys wreck stack b b'
  flushes_all :
      (b' : BufferPoolManager)
      → flush_all_pages_unsafe sys wreck stack b ≡ ok b'
      → Call sys wreck stack b b'
  flushes_page :
      (p : ℕ) (done : Bool) (b' : BufferPoolManager)
      → flush_page sys wreck stack b p ≡ ok (done, b')
      → Call sys wreck stack b b'
  makes_page :
      (p : ℕ) (b' : BufferPoolManager)
      → new_page sys wreck stack b ≡ ok (p, b')
      → Call sys wreck stack b b'
  flushes_read :
      (g : ReadPageGuard) (s : Shared)
      → flush_read_guard sys wreck stack g b.shared ≡ ok s
      → Call sys wreck stack b (with_shared b s)
  flushes_write :
      (g : WritePageGuard) (s : Shared)
      → flush_write_guard sys wreck stack g b.shared ≡ ok s
      → Call sys wreck stack b (with_shared b s)
  drops_read :
      (g g' : ReadPageGuard) (s : Shared)
      → drop_read_guard g b.shared ≡ ok (g', s)
      → Call sys wreck stack b (with_shared b s)
  drops_write :
      (g g' : WritePageGuard) (s : Shared)
      → drop_write_guard g b.shared ≡ ok (g', s)
      → Call sys wreck stack b (with_shared b s)
  writes_data :
      (g : WritePageGuard) (f : ℕ) (s : Shared)
      → write_data_mut g b.shared ≡ ok (f, s)
      → Call sys wreck stack b (with_shared b s)
  changes : (m : Machine) → Call sys wreck stack b (with_machine b m)

pub data Calls (sys : System) (wreck : DiskRequest → Machine → Machine) (stack : Memory)
    (b : BufferPoolManager) : BufferPoolManager → Type 0 where
  here : Calls sys wreck stack b b
  more :
      {c d : BufferPoolManager}
      → Calls sys wreck stack b c
      → Call sys wreck stack c d
      → Calls sys wreck stack b d

module _ (sys : System) (wreck : DiskRequest → Machine → Machine) (stack : Memory) where
  checked_read_page-IsLinked :
      (b b' : BufferPoolManager) (p : ℕ) (g : Option ReadPageGuard)
      → checked_read_page sys wreck stack b p ≡ ok (g, b')
      → IsLinked b
      → IsLinked b'
  unfolding checked_read_page
  checked_read_page-IsLinked b b' p g h v =
      let (w, ew, h1) = >>=-eq-ok (bring_in sys wreck stack b p) (with_read_guard p) h in
      with_read_guard-IsLinked w.1 b' p w.0 g h1
        (bring_in-IsLinked sys wreck stack b w.1 p w.0 v ew)

  checked_write_page-IsLinked :
      (b b' : BufferPoolManager) (p : ℕ) (g : Option WritePageGuard)
      → checked_write_page sys wreck stack b p ≡ ok (g, b')
      → IsLinked b
      → IsLinked b'
  unfolding checked_write_page
  checked_write_page-IsLinked b b' p g h v =
      let (w, ew, h1) = >>=-eq-ok (bring_in sys wreck stack b p) (with_write_guard p) h in
      with_write_guard-IsLinked w.1 b' p w.0 g h1
        (bring_in-IsLinked sys wreck stack b w.1 p w.0 v ew)

  delete_page-IsLinked :
      (b b' : BufferPoolManager) (p : ℕ) (done : Bool)
      → delete_page sys wreck stack b p ≡ ok (done, b')
      → IsLinked b
      → IsLinked b'
  unfolding delete_page reset
  delete_page-IsLinked b b' p done h v = elim (Option-cases (find p b.page_table)) [
    | inl e ↦ returned b b' true done v (rw (delete_page, e) at h)
    | inr (f, e) ↦
        let (fh, ef, h1) = >>=-eq-ok (frame_at b f) _ (rw (delete_page, e) at h) in
        elim (Bool-cases (ltb 0 fh.pin_count)) [
          | inl y ↦ returned b b' false done v (rw y at h1)
          | inr n ↦
              let (b1, e1, h2) = >>=-eq-ok (forget_page b p f) _ (rw n at h1) in
              let (b2, e2, h3) =
                >>=-eq-ok (perform sys wreck stack (deallocate_request p) b1) _ h2 in
              returned b2 b' true done
                (IsLinked-Keeps b1 b2
                  (perform-Keeps sys wreck stack b1 b2 (deallocate_request p) e2)
                  (forget_page-IsLinked b b1 p f v e e1))
                h3
        ]
  ]

  write_each-Keeps :
      (t : PageTable) (b b' : BufferPoolManager)
      → write_each sys wreck stack t b ≡ ok b'
      → Keeps b b'
  unfolding write_each
  write_each-Keeps [] b b' h = Keeps-same (ok-injective h)
  write_each-Keeps ((p, f) ∷ t) b b' h =
      let (b1, e1, h1) = >>=-eq-ok (perform sys wreck stack (write_request p f) b) _ h in
      Keeps-trans b b1 b' (perform-Keeps sys wreck stack b b1 (write_request p f) e1)
        (write_each-Keeps t b1 b' h1)

  flush_all_pages_unsafe-Keeps :
      (b b' : BufferPoolManager)
      → flush_all_pages_unsafe sys wreck stack b ≡ ok b'
      → HasOwnGhosts b.shared.replacer
      → Keeps b b'
  unfolding flush_all_pages_unsafe
  flush_all_pages_unsafe-Keeps b b' h own =
      let (w, ew, h1) = >>=-eq-ok (pin_dirty b.page_table b) _ h in
      let (c, ec, h2) = >>=-eq-ok (write_each sys wreck stack w.0 w.1) _ h1 in
      let k1 = pin_dirty-Keeps b.page_table w.0 b w.1 ew own in
      let k2 = Keeps-trans b w.1 c k1 (write_each-Keeps w.0 w.1 c ec) in
      Keeps-trans b c b' k2 (release_each-Keeps w.0 c b' h2 (k2.own own))

  flush_frame-replacer :
      (s s' : Shared) (p f : ℕ)
      → flush_frame sys wreck stack s p f ≡ ok s'
      → s'.replacer ≡ s.replacer
  unfolding flush_frame
  flush_frame-replacer s s' p f h =
      let (a, ea, h1) = >>=-eq-ok (await sys wreck stack (write_request p f) s.machine) _ h in
      let (m, em, h2) = >>=-eq-ok (future_get a) _ h1 in ground arith

  flush_read_guard-IsLinked :
      (b : BufferPoolManager) (g : ReadPageGuard) (s : Shared)
      → flush_read_guard sys wreck stack g b.shared ≡ ok s
      → IsLinked b
      → IsLinked (with_shared b s)
  unfolding flush_read_guard
  flush_read_guard-IsLinked b g s h v =
      let (f, ef, h1) = >>=-eq-ok (protected g.is_valid g.frame) _ h in
      guarded b s (flush_frame-replacer b.shared s g.page_id f h1) v

  flush_write_guard-IsLinked :
      (b : BufferPoolManager) (g : WritePageGuard) (s : Shared)
      → flush_write_guard sys wreck stack g b.shared ≡ ok s
      → IsLinked b
      → IsLinked (with_shared b s)
  unfolding flush_write_guard
  flush_write_guard-IsLinked b g s h v =
      let (f, ef, h1) = >>=-eq-ok (protected g.is_valid g.frame) _ h in
      guarded b s (flush_frame-replacer b.shared s g.page_id f h1) v

  flush_page-IsLinked :
      (b b' : BufferPoolManager) (p : ℕ) (done : Bool)
      → flush_page sys wreck stack b p ≡ ok (done, b')
      → IsLinked b
      → IsLinked b'
  unfolding flush_page
  flush_page-IsLinked b b' p done h v =
      let ((o, b1), e1, h1) = >>=-eq-ok (checked_write_page sys wreck stack b p) _ h in
      guarded_or_none o b1 (checked_write_page-IsLinked b b1 p o e1 v) h1
    where
      guarded_or_none :
          (o : Option WritePageGuard) (b1 : BufferPoolManager)
          → IsLinked b1
          → ◌≡◌ {A = Outcome (Bool × BufferPoolManager)}
              (elim o [
                | none ↦ ok (false, b1)
                | some g ↦ (do
                  s ← flush_write_guard sys wreck stack g b1.shared
                  d ← drop_write_guard g s
                  ok (true, record b1 { shared = d.1 }))
              ])
              (ok (done, b'))
          → IsLinked b'
      guarded_or_none none b1 w k = returned b1 b' false done w k
      guarded_or_none (some g) b1 w k =
          let (s, es, k1) = >>=-eq-ok (flush_write_guard sys wreck stack g b1.shared) _ k in
          let (d, ed, k2) = >>=-eq-ok (drop_write_guard g s) _ k1 in
          returned (with_shared b1 d.1) b' true done
            (drop_write_guard-IsLinked (with_shared b1 s) g d.0 d.1 ed
              (flush_write_guard-IsLinked b1 g s es w))
            k2

  new_page-IsLinked :
      (b b' : BufferPoolManager) (p : ℕ)
      → new_page sys wreck stack b ≡ ok (p, b')
      → IsLinked b
      → IsLinked b'
  unfolding new_page
  new_page-IsLinked b b' p h v =
      let (b1, e1, h1) = >>=-eq-ok (perform sys wreck stack allocate_request b) _ h in
      subst IsLinked (ap (λ (x : ℕ × BufferPoolManager). x.1) (ok-injective h1))
        (IsLinked-Keeps b b1 (perform-Keeps sys wreck stack b b1 allocate_request e1) v)

  Call-IsLinked : (b b' : BufferPoolManager) → Call sys wreck stack b b' → IsLinked b → IsLinked b'
  unfolding write_data_mut
  Call-IsLinked b b' (writes_page p g c h) v = checked_write_page-IsLinked b b' p g h v
  Call-IsLinked b b' (reads_page p g c h) v = checked_read_page-IsLinked b b' p g h v
  Call-IsLinked b b' (deletes_page p done c h) v = delete_page-IsLinked b b' p done h v
  Call-IsLinked b b' (flushes_unsafe p done c h) v =
      IsLinked-Keeps b b' (flush_page_unsafe-Keeps sys wreck stack b b' p done v.own h) v
  Call-IsLinked b b' (flushes_all c h) v =
      IsLinked-Keeps b b' (flush_all_pages_unsafe-Keeps b b' h v.own) v
  Call-IsLinked b b' (flushes_page p done c h) v = flush_page-IsLinked b b' p done h v
  Call-IsLinked b b' (makes_page p c h) v = new_page-IsLinked b b' p h v
  Call-IsLinked b b' (flushes_read g s h) v = flush_read_guard-IsLinked b g s h v
  Call-IsLinked b b' (flushes_write g s h) v = flush_write_guard-IsLinked b g s h v
  Call-IsLinked b b' (drops_read g g' s h) v = drop_read_guard-IsLinked b g g' s h v
  Call-IsLinked b b' (drops_write g g' s h) v = drop_write_guard-IsLinked b g g' s h v
  Call-IsLinked b b' (writes_data g f s h) v = guarded b s (ground arith) v
  Call-IsLinked b b' (changes m) v = v

  -- After the constructor and any sequence of calls that all return (`CheckedWritePage`,
  -- `CheckedReadPage`, `DeletePage`, `FlushPageUnsafe`, `FlushPage`, `FlushAllPagesUnsafe` and
  -- `NewPage` of the pool, `Flush` and `Drop` of the guards, `GetDataMut`, and any change of the
  -- disk or of a frame's bytes), every frame is either free or holds exactly one page: the page
  -- table and the free list account for all frames, a page has one entry, and its frame is the one
  -- that the replacer knows by that page; a free frame is listed once and is unknown to the
  -- replacer.
  pub Calls-IsLinked :
      (n : ℕ) (disk : DiskManager) (noise : ℕ → Memory) (b : BufferPoolManager)
      → Calls sys wreck stack (buffer_pool n disk noise) b
      → IsLinked b
  Calls-IsLinked n disk noise b here = buffer_pool-IsLinked n disk noise
  Calls-IsLinked n disk noise b (more {c} calls call) =
      Call-IsLinked c b call (Calls-IsLinked n disk noise c calls)
