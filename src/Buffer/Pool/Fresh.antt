-- ===== src/Buffer/Pool/Fresh.antt =====
-- A pool without pins, and what one access to a page, a guard and its drop change of a frame.
use database_internals.Prelude.{
  ℕ, ◌+◌, ◌-◌, ◌^◌, ◌==◌, ◌≡◌, ◌≢◌, ◌<◌, refl, sym, ap, ap₂, ◌∙◌, inl, inr, Bool, true, false,
  Option, none, some, ok, arith, Option-cases, List-cases, >>=-eq-ok, ok-injective, subst,
  if◌then◌else◌,
}
use database_internals.Buffer.Arc.{ArcReplacer, record_access, set_evictable}
use database_internals.Buffer.Arc.Pages.{record_access-alive}
use database_internals.Buffer.Arc.Flags.{set_evictable-flags, set_evictable-again}
use database_internals.Buffer.Frames.{Shared, lock_shared, pin, unpin, set_dirty}
use database_internals.Buffer.Guard.Drops.{drop_read_guard-Releases}
use database_internals.Buffer.Guard.Read.{ReadPageGuard, read_guard, drop_read_guard}
use database_internals.Buffer.Pool.{
  BufferPoolManager, find, frame_at, mark, hit, claim_free, release, clean_and_pin, with_read_guard,
}

-- Whether the replacer may evict a frame, where it knows the frame.
abbrev pub marked : ArcReplacer → ℕ → Option Bool
marked r f = elim (r.alive_map f) [ none ↦ none | some fs ↦ some fs.evictable ]

-- No frame is pinned, and each has its own number.
pub record IsFresh (s : Shared) : Type 0 where
  pub ids : (f : ℕ) → (s.frames f).frame_id ≡ f
  pub pins : (f : ℕ) → (s.frames f).pin_count ≡ 0

pub mark-frames :
    (b b' : BufferPoolManager) (f : ℕ) (e : Bool)
    → mark b f e ≡ ok b'
    → (b'.shared.frames ≡ b.shared.frames)
      × (b'.page_table ≡ b.page_table)
      × (marked b.shared.replacer f ≢ none → marked b'.shared.replacer f ≡ some e)
unfolding mark
mark-frames b b' f e h =
    let (r, er, h1) = >>=-eq-ok (set_evictable b.shared.replacer f e) _ h in
    let m = set_evictable-flags b.shared.replacer r f e er in
    (ground arith, ground arith, λ k. ground (arith, m))

pub release-IsFresh :
    (b b' : BufferPoolManager) (f : ℕ)
    → ((g : ℕ)
        → ((b.shared.frames g).frame_id ≡ g)
          × ((b.shared.frames g).pin_count ≡ (if g == f then 1 else 0)))
    → release b f ≡ ok b'
    → IsFresh b'.shared
unfolding release
release-IsFresh b b' f v h =
    let b1 = record b { shared = unpin b.shared f } in
    let fresh : IsFresh b1.shared = record {
      ids = λ g. ground (arith, v g, v f);
      pins = λ g. ground (arith, v g, v f);
    } in
    let zero : (b1.shared.frames f).pin_count ≡ 0 = fresh.pins f in
    let m = mark-frames b1 b' f true (ground (arith, zero)) in
    record { ids = λ g. ground (arith, m.0, v g, v f); pins = λ g. ground (arith, m.0, v g, v f) }

pub clean_and_pin-pins :
    (b b' : BufferPoolManager) (f : ℕ)
    → IsFresh b.shared
    → clean_and_pin b f ≡ ok b'
    → (g : ℕ)
    → ((b'.shared.frames g).frame_id ≡ g)
      × ((b'.shared.frames g).pin_count ≡ (if g == f then 1 else 0))
unfolding clean_and_pin
clean_and_pin-pins b b' f v h g =
    let (fh, ef, h1) = >>=-eq-ok (frame_at b f) _ h in
    let m = mark-frames (record b { shared = pin (set_dirty b.shared f false) f }) b' f false h1 in
    (ground (arith, m.0, v.ids g, v.ids f), ground (arith, m.0, v.pins g, v.pins f))

-- A page that has just been read into a frame.
pub record IsLoaded (b : BufferPoolManager) (p f : ℕ) : Type 0 where
  pub fresh : IsFresh b.shared
  pub linked : find p b.page_table ≡ some f
  pub kept : marked b.shared.replacer f ≡ some false

pub loaded :
    (b b' : BufferPoolManager) (p f g : ℕ)
    → IsLoaded b p g
    → ◌≡◌ {A = Option ℕ × BufferPoolManager} (some g, b) (some f, b')
    → IsLoaded b' p f
loaded b b' p f g v e =
    let eg : f ≡ g = ground arith in
    let eb : b' ≡ b = ap (λ (x : Option ℕ × BufferPoolManager). x.1) (sym e) in rw (eg, eb) v

pub claim_free-IsFresh :
    (b b' : BufferPoolManager) (f : ℕ)
    → IsFresh b.shared
    → claim_free b ≡ ok (f, b')
    → IsFresh b'.shared
unfolding claim_free
claim_free-IsFresh b b' f v h = elim (List-cases b.free_frames) [
  | inl e ↦ absurd (ground arith)
  | inr (g, gs, e) ↦
      let (fh, ef, h1) = >>=-eq-ok (frame_at b g) _ (rw (claim_free, e) at h) in
      subst (λ (c : BufferPoolManager). IsFresh c.shared)
        (ap (λ (x : ℕ × BufferPoolManager). x.1) (ok-injective h1))
        (record { ids = v.ids; pins = v.pins })
]

-- What a guard's constructor gives and changes.
pub record Guards (b b' : BufferPoolManager) (p f : ℕ) (g : ReadPageGuard) : Type 0 where
  pub is_guard : g ≡ record { page_id = p; frame = some f; is_valid = true }
  pub frames :
      (h : ℕ)
      → ((b'.shared.frames h).frame_id ≡ (b.shared.frames h).frame_id)
        × ((b'.shared.frames h).pin_count ≡ (b.shared.frames h).pin_count)
        × ((b'.shared.frames h).readers ≡ (if h == f then 1 else 0) + (b.shared.frames h).readers)
  pub replacer : b'.shared.replacer ≡ b.shared.replacer
  pub table : b'.page_table ≡ b.page_table
  pub machine : b'.shared.machine ≡ b.shared.machine

pub with_read_guard-Guards :
    (b b' : BufferPoolManager) (p : ℕ) (o : Option ℕ) (g : ReadPageGuard)
    → with_read_guard p (o, b) ≡ ok (some g, b')
    → (f : ℕ) × (o ≡ some f) × Guards b b' p f g
unfolding with_read_guard read_guard lock_shared
with_read_guard-Guards b b' p none g h = absurd (ground arith)
with_read_guard-Guards b b' p (some f) g h =
    let (k, e1, h1) = >>=-eq-ok (read_guard p f b.shared) _ h in
    let (s, e2, h2) = >>=-eq-ok (lock_shared b.shared f) _ e1 in
    (
      f,
      refl,
      record {
        is_guard = ground arith;
        frames = λ i. ground arith;
        replacer = ground arith;
        table = ground arith;
        machine = ground arith;
      },
    )

-- A second access to a page whose frame has no pins.
pub record Hits (b b' : BufferPoolManager) (f : ℕ) : Type 0 where
  pub frames :
      (h : ℕ)
      → ((b'.shared.frames h).frame_id ≡ (b.shared.frames h).frame_id)
        × ((b'.shared.frames h).pin_count ≡ (if h == f then 1 else 0))
        × ((b'.shared.frames h).readers ≡ (b.shared.frames h).readers)
  pub again : (r : ArcReplacer) × (set_evictable b'.shared.replacer f true ≡ ok r)
  pub alive : b'.shared.replacer.alive_map f ≢ none

pub hit-Hits :
    (b b' : BufferPoolManager) (p f : ℕ)
    → ((g : ℕ) → (b.shared.frames g).pin_count ≡ 0)
    → hit b p f ≡ ok b'
    → Hits b b' f
unfolding hit mark
hit-Hits b b' p f v h =
    let (fh, ef, h1) = >>=-eq-ok (frame_at b f) _ h in
    let (r, er, h2) = >>=-eq-ok (record_access b.shared.replacer f p) _ h1 in
    let zero : fh.pin_count == 0 ≡ true = ground (arith, v f) in
    let (r', er', h3) = >>=-eq-ok (set_evictable r f false) _ (rw zero at h2) in
    let flags = set_evictable-flags r r' f false er' in
    let again = set_evictable-again r r' f false true er' in
    let alive = record_access-alive b.shared.replacer r f p er in
    record {
      frames = λ i. ground (arith, v i, v f);
      again = (
        again.0,
        ap (λ (c : BufferPoolManager). set_evictable c.shared.replacer f true)
              (sym (ok-injective h3))
            ∙ again.1,
      );
      alive = λ n. alive (ground (arith, flags));
    }

-- Dropping the guard of a page that has just been read, and of one that has been read twice.
pub drop-first :
    (w b : BufferPoolManager) (p f : ℕ) (g : ReadPageGuard)
    → IsLoaded w p f
    → Guards w b p f g
    → (g' : ReadPageGuard) × (s : Shared) × (drop_read_guard g b.shared ≡ ok (g', s))
      × (find p b.page_table ≡ some f)
      × ((s.frames f).pin_count ≡ 2 ^ 64 - 1)
      × (marked s.replacer f ≡ some false)
drop-first w b p f g l k =
    let unpinned : (b.shared.frames f).pin_count ≡ 0 = (k.frames f).1 ∙ l.fresh.pins f in
    let (s', g', drops, again, d) =
      drop_read_guard-Releases b.shared p f b.shared.replacer (ground (arith, k.frames f))
        (λ one. absurd (ground (arith, unpinned))) in
    let idle : s'.replacer ≡ b.shared.replacer = elim d.replacer [
      | inl one ↦ absurd (ground (arith, unpinned))
      | inr more ↦ more.1
    ] in
    (
      g',
      s',
      ap (λ c. drop_read_guard c b.shared) k.is_guard ∙ drops,
      ap (find p) k.table ∙ l.linked,
      ground (arith, d.pins, unpinned),
      ap (λ r. marked r f) (idle ∙ k.replacer) ∙ l.kept,
    )

pub drop-second :
    (w b1 x b2 : BufferPoolManager) (p f : ℕ) (g1 g2 : ReadPageGuard)
    → IsLoaded w p f
    → Guards w b1 p f g1
    → Hits b1 x f
    → Guards x b2 p f g2
    → (g' : ReadPageGuard) × (s : Shared) × (drop_read_guard g1 b2.shared ≡ ok (g', s))
      × (g2 ≡ record { page_id = p; frame = some f; is_valid = true })
      × ((s.frames f).pin_count ≡ 0)
      × (0 < (s.frames f).readers)
      × (marked s.replacer f ≡ some true)
drop-second w b1 x b2 p f g1 g2 l k c k2 =
    let pinned : (b2.shared.frames f).pin_count ≡ 1 = ground (arith, k2.frames f, c.frames f) in
    let number : (b2.shared.frames f).frame_id ≡ f =
      ground (arith, k2.frames f, c.frames f, k.frames f, l.fresh.ids f) in
    let told : set_evictable b2.shared.replacer (b2.shared.frames f).frame_id true ≡ ok c.again.0 =
      ap₂ (λ r i. set_evictable r i true) k2.replacer number ∙ c.again.1 in
    let (s', g', drops, twice, d) =
      drop_read_guard-Releases b2.shared p f c.again.0
        (ground (arith, k2.frames f, c.frames f, k.frames f)) (λ _. told) in
    let now : set_evictable b2.shared.replacer (b2.shared.frames f).frame_id true ≡ ok s'.replacer =
      elim d.replacer [ inl one ↦ one.1 | inr more ↦ absurd (more.0 pinned) ] in
    let flags =
      set_evictable-flags x.shared.replacer s'.replacer f true
        (sym (ap₂ (λ r i. set_evictable r i true) k2.replacer number) ∙ now) in
    (
      g',
      s',
      ap (λ c. drop_read_guard c b2.shared) k.is_guard ∙ drops,
      k2.is_guard,
      ground (arith, d.pins, pinned),
      ground (arith, d.readers_left, k2.frames f, c.frames f, k.frames f),
      elim (Option-cases (x.shared.replacer.alive_map f)) [
        | inl e ↦ absurd (c.alive e)
        | inr (fs, e) ↦ ground (arith, flags)
      ],
    )
