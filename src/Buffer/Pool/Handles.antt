-- ===== src/Buffer/Pool/Handles.antt =====
-- The guards, latches and frame lists of a call keep the bookkeeping of the buffer pool.
use database_internals.Prelude.{
  ℕ, zero, suc, ◌==◌, ◌≡◌, refl, ap, ◌∙◌, inl, inr, Bool, true, Option, none, some, [], ◌∷◌, length,
  count, Outcome, ok, undefined, or_fail, arith, Bool-cases, >>=-eq-ok, ok-injective, subst, ltb,
  if◌then◌else◌, length-append,
}
use database_internals.Memory.{Memory}
use database_internals.Storage.DiskManager.{DiskManager}
use database_internals.Storage.DiskScheduler.{Machine}
use database_internals.Buffer.Arc.{set_evictable, remove, init}
use database_internals.Buffer.Arc.Pages.{
  HasOwnGhosts, set_evictable-page_of, remove-page_of, Evicts,
}
use database_internals.Buffer.Frames.{Shared, lock, lock_shared, unlock, unlock_shared, reset}
use database_internals.Buffer.Guard.{unpin_frame}
use database_internals.Buffer.Guard.Read.{ReadPageGuard, read_guard, drop_read_guard}
use database_internals.Buffer.Guard.Write.{WritePageGuard, write_guard, drop_write_guard}
use database_internals.Buffer.Pool.{
  forget_page, with_read_guard, with_write_guard, BufferPoolManager, PageTable, find, frame_at,
  erase_page, buffer_pool, up_to, pin_dirty, release_each, clean_and_pin, release,
}
use database_internals.Buffer.Pool.Tables.{Links-same, Takes-evict, Links-free, count-append}
use database_internals.Buffer.Pool.Keeps.{
  Keeps-refl, IsLinked, Keeps, Keeps-trans, clean_and_pin-Keeps, release-Keeps,
}

abbrev pub with_shared : BufferPoolManager → Shared → BufferPoolManager
with_shared b s = record b { shared = s }

abbrev pub with_machine : BufferPoolManager → Machine → BufferPoolManager
with_machine b m = record b { shared = record b.shared { machine = m } }

count-up_to : (f n : ℕ) → count f (up_to n) ≡ (if ltb f n then 1 else 0)
count-up_to f zero = ground arith
count-up_to f (suc n) = ground (arith, count-up_to f n, count-append f (up_to n) (n ∷ []))

length-up_to : (n : ℕ) → length (up_to n) ≡ n
length-up_to zero = refl
length-up_to (suc n) = ground (arith, length-up_to n, length-append (up_to n) (n ∷ []))

pub buffer_pool-IsLinked :
    (n : ℕ) (disk : DiskManager) (noise : ℕ → Memory) → IsLinked (buffer_pool n disk noise)
unfolding buffer_pool init
buffer_pool-IsLinked n disk noise = record {
  sized = ground (arith, length-up_to n);
  own = λ p fs e. ground arith;
  once = λ p. ground arith;
  held = λ p f e. ground arith;
  found = λ f p e. ground arith;
  spare = λ f k. ground (arith, count-up_to f n);
  apart = λ f. ground (arith, count-up_to f n);
}

-- The guards' and latches' part of a call leaves the bookkeeping alone.
pub guarded :
    (b : BufferPoolManager) (s : Shared)
    → s.replacer ≡ b.shared.replacer
    → IsLinked b
    → IsLinked (with_shared b s)
guarded b s e v = rw e v

unmarked :
    (b : BufferPoolManager) (s : Shared) (f : ℕ) (e : Bool)
    → set_evictable b.shared.replacer f e ≡ ok s.replacer
    → IsLinked b
    → IsLinked (with_shared b s)
unmarked b s f e h v =
    let m = set_evictable-page_of b.shared.replacer s.replacer f e v.own h in
    Links-same s.replacer v m.0 m.1

unpinned :
    (b : BufferPoolManager) (s : Shared) (f : ℕ)
    → unpin_frame b.shared f ≡ ok s
    → IsLinked b
    → IsLinked (with_shared b s)
unfolding unpin_frame
unpinned b s f h v = elim (Bool-cases ((b.shared.frames f).pin_count == 1)) [
  | inl y ↦
      let (r, er, e) =
        >>=-eq-ok (set_evictable b.shared.replacer (b.shared.frames f).frame_id true) _
          (rw y at h) in
      unmarked b s (b.shared.frames f).frame_id true (er ∙ ground arith) v
  | inr n ↦ guarded b s (ground arith) v
]

pub drop_read_guard-IsLinked :
    (b : BufferPoolManager) (g g' : ReadPageGuard) (s : Shared)
    → drop_read_guard g b.shared ≡ ok (g', s)
    → IsLinked b
    → IsLinked (with_shared b s)
unfolding drop_read_guard unlock_shared
drop_read_guard-IsLinked b g g' s h v = elim (Bool-cases g.is_valid) [
  | inr n ↦ guarded b s (ground arith) v
  | inl y ↦
      let (f, ef, h1) = >>=-eq-ok (or_fail g.frame undefined) _ (rw y at h) in
      let (s1, e1, h2) = >>=-eq-ok (unpin_frame b.shared f) _ h1 in
      let (s2, e2, h3) = >>=-eq-ok (unlock_shared s1 f) _ h2 in
      let same : s.replacer ≡ s1.replacer = ground arith in
      guarded (with_shared b s1) s same (unpinned b s1 f e1 v)
]

pub drop_write_guard-IsLinked :
    (b : BufferPoolManager) (g g' : WritePageGuard) (s : Shared)
    → drop_write_guard g b.shared ≡ ok (g', s)
    → IsLinked b
    → IsLinked (with_shared b s)
unfolding drop_write_guard unlock
drop_write_guard-IsLinked b g g' s h v = elim (Bool-cases g.is_valid) [
  | inr n ↦ guarded b s (ground arith) v
  | inl y ↦
      let (f, ef, h1) = >>=-eq-ok (or_fail g.frame undefined) _ (rw y at h) in
      let (s1, e1, h2) = >>=-eq-ok (unpin_frame b.shared f) _ h1 in
      let (s2, e2, h3) = >>=-eq-ok (unlock s1 f) _ h2 in
      let same : s.replacer ≡ s1.replacer = ground arith in
      guarded (with_shared b s1) s same (unpinned b s1 f e1 v)
]

pub with_read_guard-IsLinked :
    (b b' : BufferPoolManager) (p : ℕ) (o : Option ℕ) (g : Option ReadPageGuard)
    → with_read_guard p (o, b) ≡ ok (g, b')
    → IsLinked b
    → IsLinked b'
unfolding with_read_guard read_guard lock_shared
with_read_guard-IsLinked b b' p none g h v =
    subst IsLinked (ap (λ (x : Option ReadPageGuard × BufferPoolManager). x.1) (ok-injective h)) v
with_read_guard-IsLinked b b' p (some f) g h v =
    let (k, e1, h1) = >>=-eq-ok (read_guard p f b.shared) _ h in
    let (s, e2, h2) = >>=-eq-ok (lock_shared b.shared f) _ e1 in
    let same : k.1.replacer ≡ b.shared.replacer = ground arith in
    subst IsLinked (ap (λ (x : Option ReadPageGuard × BufferPoolManager). x.1) (ok-injective h1))
      (guarded b k.1 same v)

pub with_write_guard-IsLinked :
    (b b' : BufferPoolManager) (p : ℕ) (o : Option ℕ) (g : Option WritePageGuard)
    → with_write_guard p (o, b) ≡ ok (g, b')
    → IsLinked b
    → IsLinked b'
unfolding with_write_guard write_guard lock
with_write_guard-IsLinked b b' p none g h v =
    subst IsLinked (ap (λ (x : Option WritePageGuard × BufferPoolManager). x.1) (ok-injective h)) v
with_write_guard-IsLinked b b' p (some f) g h v =
    let (k, e1, h1) = >>=-eq-ok (write_guard p f b.shared) _ h in
    let (s, e2, h2) = >>=-eq-ok (lock b.shared f) _ e1 in
    let same : k.1.replacer ≡ b.shared.replacer = ground arith in
    subst IsLinked (ap (λ (x : Option WritePageGuard × BufferPoolManager). x.1) (ok-injective h1))
      (guarded b k.1 same v)

pub Keeps-same : {b b' : BufferPoolManager} → b ≡ b' → Keeps b b'
Keeps-same {b} e = subst (Keeps b) e (Keeps-refl b)

pub returned :
    (b b' : BufferPoolManager) (x y : Bool)
    → IsLinked b
    → ◌≡◌ {A = Outcome (Bool × BufferPoolManager)} (ok (x, b)) (ok (y, b'))
    → IsLinked b'
returned b b' x y v h =
    subst IsLinked (ap (λ (x : Bool × BufferPoolManager). x.1) (ok-injective h)) v

pub forget_page-IsLinked :
    (b b' : BufferPoolManager) (p f : ℕ)
    → IsLinked b
    → find p b.page_table ≡ some f
    → forget_page b p f ≡ ok b'
    → IsLinked b'
unfolding forget_page reset
forget_page-IsLinked b b' p f v e h =
    let (r, er, h1) = >>=-eq-ok (remove b.shared.replacer f) _ h in
    let m = remove-page_of b.shared.replacer r f v.own er in
    let evicts : Evicts b.shared.replacer r p f = record {
      held = (v.held p f e).0;
      others = m.0;
      own = m.1;
      sized = m.2;
    } in
    let freed =
      Links-free b.num_frames f (erase_page p b.page_table) b.free_frames r
        (Takes-evict p f r v evicts) in
    subst IsLinked (ok-injective h1) freed

pub pin_dirty-Keeps :
    (t u : PageTable) (b b' : BufferPoolManager)
    → pin_dirty t b ≡ ok (u, b')
    → HasOwnGhosts b.shared.replacer
    → Keeps b b'
unfolding pin_dirty
pin_dirty-Keeps [] u b b' h own =
    Keeps-same (ap (λ (x : PageTable × BufferPoolManager). x.1) (ok-injective h))
pin_dirty-Keeps ((p, f) ∷ t) u b b' h own =
    let (fh, ef, h1) = >>=-eq-ok (frame_at b f) _ h in
    elim (Bool-cases fh.is_dirty) [
      | inr n ↦ pin_dirty-Keeps t u b b' (rw n at h1) own
      | inl y ↦
          let (b1, e1, h2) = >>=-eq-ok (clean_and_pin b f) _ (rw y at h1) in
          let (w, ew, h3) = >>=-eq-ok (pin_dirty t b1) _ h2 in
          let k1 = clean_and_pin-Keeps b b1 f own e1 in
          let k2 = Keeps-trans b b1 w.1 k1 (pin_dirty-Keeps t w.0 b1 w.1 ew (k1.own own)) in
          subst (Keeps b) (ap (λ (x : PageTable × BufferPoolManager). x.1) (ok-injective h3)) k2
    ]

pub release_each-Keeps :
    (t : PageTable) (b b' : BufferPoolManager)
    → release_each t b ≡ ok b'
    → HasOwnGhosts b.shared.replacer
    → Keeps b b'
unfolding release_each
release_each-Keeps [] b b' h own = Keeps-same (ok-injective h)
release_each-Keeps ((p, f) ∷ t) b b' h own =
    let (b1, e1, h1) = >>=-eq-ok (release b f) _ h in
    let k1 = release-Keeps b b1 f own e1 in
    Keeps-trans b b1 b' k1 (release_each-Keeps t b1 b' h1 (k1.own own))
